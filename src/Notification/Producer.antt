-- ===== src/Notification/Producer.antt =====
-- common/json.cpp: buildJson and readJson; common/notificationproducer.cpp. The library
-- nlohmann::json is not part of the repository, and is a parameter.
use mathlib.Core.Bool.{Bool}
use sonic_swss_common.Prelude.{
  ◌<◌, ◌≢◌, List, [], ◌∷◌, ◌++◌, Option, none, some, Bytes, codes, ◌≡◌, All, if◌then◌else◌,
}
use sonic_swss_common.Prelude.Maybe.{◌>>=◌}
use sonic_swss_common.Kco.{FieldValue}
use sonic_swss_common.Redis.{Redis}
use sonic_swss_common.RedisPipeline
use sonic_swss_common.RedisPipeline.{Pipeline}

-- Bytes of ASCII that a JSON text holds as they are.
abbrev pub IsPlain : Bytes → Type 0
IsPlain = All (λ c. (31 < c) × (c < 127) × (c ≢ b'"') × (c ≢ 92))

-- `dump` of an array of strings, which throws where one is not UTF-8, and what `parse` makes of a
-- text: the strings of an array of strings, an empty list for the other values that have no
-- elements, and `none` where parsing or reading an element as a string throws.
pub record Json : Type 0 where
  pub dump : List Bytes → Option Bytes
  pub parse : Bytes → Option (List Bytes)
  pub parse-dump : (ts : List Bytes) (text : Bytes) → dump ts ≡ some text → parse text ≡ some ts
  -- Without options `dump` writes no spaces, and escapes nothing in a plain string.
  pub dump_plain :
      (t : Bytes) (ts : List Bytes) (text : Bytes)
      → IsPlain t
      → dump (t ∷ ts) ≡ some text
      → (rest : Bytes) × (text ≡ codes "[\"" ++ t ++ b'"' ∷ rest)

unfoldable pub flatten : List FieldValue → List Bytes
flatten [] = []
flatten ((field, value) ∷ fvs) = field ∷ value ∷ flatten fvs

-- A last string without a partner is read beyond the end of the array, which throws.
unfoldable pub pair_up : List Bytes → Option (List FieldValue)
pair_up [] = some []
pair_up (field ∷ []) = none
pair_up (field ∷ value ∷ ts) = pair_up ts >>= λ fvs. some ((field, value) ∷ fvs)

module _ (json : Json) where
  unfoldable pub build_json : List FieldValue → Option Bytes
  unfolding flatten
  build_json fvs = json.dump (flatten fvs)

  unfoldable pub read_json : Bytes → Option (List FieldValue)
  unfolding pair_up
  read_json text = json.parse text >>= pair_up

module _ (json : Json) (r : Redis) where
  open r use {Db, publish}

  pub record NotificationProducer : Type 0 where
    pub channel : Bytes
    pub buffered : Bool
    pub pipe : Pipeline r

  -- `send`: the pipeline behind it, and `none` where `buildJson` throws. The number of clients that
  -- got the message, which an unbuffered producer returns, is left out.
  unfoldable pub send :
      Bytes → Bytes → List FieldValue → NotificationProducer → Option NotificationProducer
  unfolding build_json
  send op content values p = build_json json ((op, content) ∷ values) >>= λ msg. some (record p {
    pipe =
        if p.buffered
        then RedisPipeline.push r (publish p.channel msg) p.pipe
        else (RedisPipeline.push_reply r (λ db. (tt, publish p.channel msg db)) p.pipe).1;
  })
