-- ===== src/Notification/Consumer/RoundTrip.antt =====
-- From `NotificationProducer::send` to `NotificationConsumer::pop`.
use mathlib.Core.Bool.{true, false}
use sonic_swss_common.Prelude.{
  ◌+◌, ◌%◌, ◌^◌, List, [], ◌∷◌, ◌++◌, Option, some, Bytes, bytes_eq, codes, ◌≡◌, ◌≢◌, ◌⊎◌, refl, ap,
  ◌∙◌, arith, inl, inr, nat_eq, eq_iff, contains,
}
use sonic_swss_common.Prelude.Maybe.{bind-eq-some}
use sonic_swss_common.Kco.{FieldValue, Kco}
use sonic_swss_common.Redis.{Redis}
use sonic_swss_common.RedisPipeline.{Pipeline, flush, push_reply}
use sonic_swss_common.Notification.Producer.{
  Json, IsPlain, flatten, pair_up, build_json, read_json, NotificationProducer, send,
}
use sonic_swss_common.Notification.Queue.Lookup.{remove}
use sonic_swss_common.Notification.Queue.Refines.{IsValid, messages-push}
use sonic_swss_common.Notification.Consumer.{
  Consumer, NotificationQueue, fifo, lru_dedup, push, messages, until_quote, peek_op, is_admitted,
  admit, first_pair, decode, pop,
}
use sonic_swss_common.Notification.Consumer.Popping.{pop-some}

abbrev pub IsSound : NotificationQueue → Type 0
IsSound (fifo q) = Unit {0}
IsSound (lru_dedup q) = IsValid q

pair_up-flatten : (fvs : List FieldValue) → pair_up (flatten fvs) ≡ some fvs
unfolding pair_up flatten
pair_up-flatten [] = refl
pair_up-flatten ((field, value) ∷ fvs) = rw (pair_up-flatten fvs) refl

until_quote-plain : (t rest : Bytes) → IsPlain t → until_quote (t ++ b'"' ∷ rest) ≡ some t
unfolding until_quote
until_quote-plain [] rest h = refl
until_quote-plain (c ∷ t) rest (k, h) = ground (arith, until_quote-plain t rest h)

peek_op-plain : (t rest : Bytes) → IsPlain t → peek_op (codes "[\"" ++ t ++ b'"' ∷ rest) ≡ t
unfolding peek_op
peek_op-plain [] rest h = ground (arith, until_quote-plain [] rest h)
peek_op-plain (c ∷ t) rest h = ground (arith, until_quote-plain (c ∷ t) rest h)

push_empty :
    (msg : Bytes) (q : NotificationQueue)
    → IsSound q
    → messages q ≡ []
    → messages (push msg q) ≡ msg ∷ []
unfolding messages push remove
push_empty msg (fifo q) v e = rw e refl
push_empty msg (lru_dedup q) v e =
    messages-push msg q v ∙ ap (λ (l : List Bytes). remove msg l ++ msg ∷ []) e

module _ (json : Json) (op content : Bytes) (values : List FieldValue) (msg : Bytes)
    (built : build_json json ((op, content) ∷ values) ≡ some msg) where
  decode-built : decode json msg ≡ some (record { key = content; op = op; fvs = values })
  unfolding decode read_json first_pair build_json
  decode-built = ground (
    arith,
    json.parse-dump (flatten ((op, content) ∷ values)) msg built,
    pair_up-flatten ((op, content) ∷ values),
  )

  peek_op-built : IsPlain op → peek_op msg ≡ op
  unfolding build_json flatten
  peek_op-built plain =
      let (rest, e) = json.dump_plain op (content ∷ flatten values) msg plain built in
      ap peek_op e ∙ peek_op-plain op rest plain

  admitted_built :
      (ops : List Bytes)
      → (ops ≡ []) ⊎ (IsPlain op × (op ≢ []) × (contains ops op ≡ true))
      → is_admitted ops msg ≡ true
  unfolding is_admitted
  admitted_built [] h = refl
  admitted_built (o ∷ os) (inl none_given) = cc
  admitted_built (o ∷ os) (inr (plain, given, listed)) =
      ground (arith, peek_op-built plain, eq_iff op [])

  popped :
      (c : Consumer)
      → IsSound c.queue
      → messages c.queue ≡ []
      → (c.ops ≡ []) ⊎ (IsPlain op × (op ≢ []) × (contains c.ops op ≡ true))
      → (pop json (admit msg c)).0 ≡ some (record { key = content; op = op; fvs = values })
  unfolding admit
  popped c v empty h = rw (admitted_built c.ops h) (
      ap (λ (p : Option Kco × Consumer). p.0)
        (pop-some json msg [] _
          (record c { received = (c.received + 1) % 2 ^ 64; queue = push msg c.queue })
          (push_empty msg c.queue v empty) decode-built))

module _ (json : Json) (r : Redis) where
  open r use {Db}

  published_at_once :
      (channel msg : Bytes) (pipe : Pipeline r)
      → pipe.queued ≡ []
      → (push_reply r (λ (db : Db). (tt {0}, r.publish channel msg db)) pipe).1.db
        ≡ r.publish channel msg pipe.db
  unfolding push_reply flush
  published_at_once channel msg pipe idle = ground arith

  -- What an unbuffered producer, nothing being queued in its pipeline, sends is published once on its
  -- channel, if the send succeeds, and a consumer that takes this message into its empty queue, of
  -- either kind and with a sound index, pops the operation, the data and the values that were sent.
  -- The consumer has no allowlist, or one with the operation on it, which then must not be empty and
  -- must have only characters that JSON writes as they are.
  pub send-popped :
      (p sent : NotificationProducer json r) (op content : Bytes) (values : List FieldValue)
      (c : Consumer)
      → p.buffered ≡ false
      → p.pipe.queued ≡ []
      → send json r op content values p ≡ some sent
      → IsSound c.queue
      → messages c.queue ≡ []
      → (c.ops ≡ []) ⊎ (IsPlain op × (op ≢ []) × (contains c.ops op ≡ true))
      → (msg : Bytes) × (r.published sent.pipe.db ≡ r.published p.pipe.db ++ (p.channel, msg) ∷ [])
        × ((pop json (admit msg c)).0 ≡ some (record { key = content; op = op; fvs = values }))
  unfolding send
  send-popped p sent op content values c unbuffered idle e v empty h =
      let (msg, built, rest) = bind-eq-some (build_json json ((op, content) ∷ values)) _ e in
      let stored : sent.pipe.db ≡ r.publish p.channel msg p.pipe.db =
        ground (arith, published_at_once p.channel msg p.pipe idle) in
      (
        msg,
        ap r.published stored ∙ r.published-publish p.channel msg p.pipe.db,
        popped json op content values msg built c v empty h,
      )
