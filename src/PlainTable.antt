-- ===== src/PlainTable.antt =====
-- common/table.cpp: class Table, whose keys are written and read directly, over the pipeline.
pub mod Writes
mod Examples
use sonic_swss_common.Prelude.{
  ℕ, ◌+◌, Bool, true, false, List, [], ◌∷◌, ◌++◌, Option, none, some, map, Bytes, bytes_eq,
  if◌then◌else◌, ◌==◌, nat_eq, length, drop, codes,
}
use mathlib.Core.Option
use sonic_swss_common.Kco.{FieldValue}
use sonic_swss_common.Redis.{Redis}
use sonic_swss_common.Redis.Loops.{hset_all}
use sonic_swss_common.RedisPipeline
use sonic_swss_common.RedisPipeline.{Pipeline}
use sonic_swss_common.StateTable.Names.{Table, key_name}

-- `stripSpecialSym`: what stands before the first '@'.
unfoldable pub strip_special_sym : Bytes → Bytes
strip_special_sym [] = []
strip_special_sym (c ∷ s) = let rest = strip_special_sym s in if c == b'@' then [] else c ∷ rest

module _ (r : Redis) where
  open r use {Db, hgetall, keys}

  pub record TableClient : Type 0 where
    pub table : Table
    pub buffered : Bool
    pub pipe : Pipeline r

  unfoldable pub set_buffered : Bool → TableClient → TableClient
  set_buffered buffered c = record c { buffered = buffered }

  unfoldable pub flush : TableClient → TableClient
  flush c = record c { pipe = RedisPipeline.flush r c.pipe }

  -- A command whose reply is not read, and the flush behind `hset` and `set`.
  unfoldable pub send : (Db → Db) → TableClient → TableClient
  send command c =
      let pipe = RedisPipeline.push r command c.pipe in
      record c { pipe = if c.buffered then pipe else RedisPipeline.flush r pipe }

  unfoldable pub hset : Bytes → Bytes → Bytes → TableClient → TableClient
  unfolding send
  hset key field value c = send (r.hset (key_name c.table key) field value) c

  -- `set` with the default time to live
  unfoldable pub set : Bytes → List FieldValue → TableClient → TableClient
  unfolding send
  set key [] c = c
  set key (fv ∷ fvs) c = send (hset_all r (key_name c.table key) (fv ∷ fvs)) c

  -- `del` and `hdel` do not flush.
  unfoldable pub del : Bytes → TableClient → TableClient
  del key c = record c { pipe = RedisPipeline.push r (r.del (key_name c.table key)) c.pipe }

  unfoldable pub hdel : Bytes → Bytes → TableClient → TableClient
  hdel key field c = record c {
    pipe = RedisPipeline.push r (r.hdel (key_name c.table key) field) c.pipe;
  }

  -- A command that only reads: its reply, and the flushed pipeline.
  unfoldable pub ask : {A : Type 0} → (Db → A) → TableClient → A × TableClient
  ask read c =
      let (reply, pipe) = RedisPipeline.push_reply r (λ db. (read db, db)) c.pipe in
      (reply, record c { pipe = pipe })

  strip_fields : List FieldValue → Option (List FieldValue)
  strip_fields [] = none
  strip_fields (fv ∷ fvs) =
      some (map (λ (fv : FieldValue). (strip_special_sym fv.0, fv.1)) (fv ∷ fvs))

  -- `none` is the result `false`: the key has no fields.
  unfoldable pub get : Bytes → TableClient → Option (List FieldValue) × TableClient
  unfolding ask strip_fields
  get key c = let (reply, c1) = ask (hgetall (key_name c.table key)) c in (strip_fields reply, c1)

  -- `none` is the result `false`.
  unfoldable pub hget : Bytes → Bytes → TableClient → Option Bytes × TableClient
  unfolding ask
  hget key field c =
      let (reply, c1) = ask (r.hget (key_name c.table key) field) c in
      (Option.map strip_special_sym reply, c1)

  unfoldable pub get_keys : TableClient → List Bytes × TableClient
  unfolding ask
  get_keys c =
      let (reply, c1) = ask (keys (c.table.table_name ++ c.table.separator)) c in
      (map (drop (length c.table.table_name + 1)) reply, c1)
