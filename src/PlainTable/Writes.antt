-- ===== src/PlainTable/Writes.antt =====
-- What is written to a table, and that it is read back whatever is still in the pipeline.
use mathlib.Core.Option
use sonic_swss_common.Prelude.{
  ◌&&◌, List, [], ◌∷◌, Option, none, some, Bytes, bytes_eq, if◌then◌else◌, ◌==◌, eq_refl, nat_eq,
  ◌≡◌, refl, arith, ap, ◌∙◌, sym, Bool-cases, inl, inr,
}
use sonic_swss_common.Kco.{FieldValue}
use sonic_swss_common.Redis.{Redis}
use sonic_swss_common.Redis.Loops.{hset_all, hget-hset_all, last_value, or_else}
use sonic_swss_common.RedisPipeline
use sonic_swss_common.RedisPipeline.Settled.{see-flush, see-push, flush_settles}
use sonic_swss_common.StateTable.Names.{key_name}
use sonic_swss_common.PlainTable.{
  TableClient, send, hset, set, del, hdel, ask, hget, strip_special_sym,
}

module _ (r : Redis) where
  open r use {Db, publish, hget-publish, hget-hset, hget-hdel, hget-del}

  -- What Redis holds once the queued commands have run.
  abbrev pub field : Bytes → Bytes → TableClient r → Option Bytes
  field j g c = r.hget j g (RedisPipeline.settled r c.pipe)

  quiet : (j g c m : Bytes) (db : Db) → r.hget j g (publish c m db) ≡ r.hget j g db
  quiet j g c m db = hget-publish c m j g db

  field-send :
      (command : Db → Db) (j g : Bytes) (c : TableClient r)
      → field j g (send r command c) ≡ r.hget j g (command (RedisPipeline.settled r c.pipe))
  unfolding send
  field-send command j g c =
      let pushed = see-push r (r.hget j g) (quiet j g) command c.pipe in
      elim (Bool-cases c.buffered) [
        | inl b ↦ rw b pushed
        | inr b ↦
            rw b
              (see-flush r (r.hget j g) (quiet j g) (RedisPipeline.push r command c.pipe) ∙ pushed)
      ]

  -- `set` puts the last value for each of its fields into the key, and changes no other; without
  -- fields it does nothing.
  pub field-set :
      (key : Bytes) (fvs : List FieldValue) (j g : Bytes) (c : TableClient r)
      → field j g (set r key fvs c) ≡ (
          if key_name c.table key == j
          then or_else (last_value g fvs) (field j g c)
          else field j g c)
  unfolding set last_value
  field-set key [] j g c = ground arith
  field-set key (fv ∷ fvs) j g c =
      field-send (hset_all r (key_name c.table key) (fv ∷ fvs)) j g c
      ∙ hget-hset_all r (key_name c.table key) (fv ∷ fvs) j g (RedisPipeline.settled r c.pipe)

  pub field-hset :
      (key f v j g : Bytes) (c : TableClient r)
      → field j g (hset r key f v c)
        ≡ (if key_name c.table key == j && f == g then some v else field j g c)
  unfolding hset
  field-hset key f v j g c =
      field-send (r.hset (key_name c.table key) f v) j g c
      ∙ hget-hset (key_name c.table key) f v j g (RedisPipeline.settled r c.pipe)

  pub field-hdel :
      (key f j g : Bytes) (c : TableClient r)
      → field j g (hdel r key f c)
        ≡ (if key_name c.table key == j && f == g then none else field j g c)
  unfolding hdel
  field-hdel key f j g c =
      see-push r (r.hget j g) (quiet j g) (r.hdel (key_name c.table key) f) c.pipe
      ∙ hget-hdel (key_name c.table key) f j g (RedisPipeline.settled r c.pipe)

  -- `del` removes every field of the key, and changes no other.
  pub field-del :
      (key j g : Bytes) (c : TableClient r)
      → field j g (del r key c) ≡ (if key_name c.table key == j then none else field j g c)
  unfolding del
  field-del key j g c =
      see-push r (r.hget j g) (quiet j g) (r.del (key_name c.table key)) c.pipe
      ∙ hget-del (key_name c.table key) j g (RedisPipeline.settled r c.pipe)

  pub hget-field :
      (key f : Bytes) (c : TableClient r)
      → (hget r key f c).0 ≡ Option.map strip_special_sym (field (key_name c.table key) f c)
  unfolding hget ask RedisPipeline.push_reply
  hget-field key f c =
      let see = r.hget (key_name c.table key) f in
      ap (λ o. Option.map strip_special_sym o)
        (ap see (sym (flush_settles r c.pipe))
          ∙ see-flush r see (quiet (key_name c.table key) f) c.pipe)

  same_table : (key f v : Bytes) (c : TableClient r) → (hset r key f v c).table ≡ c.table
  unfolding hset send
  same_table key f v c = refl

  -- A field that was just written is read back up to its first '@', whether the table is buffered or
  -- not and whatever else is in the pipeline.
  pub hget-hset_same :
      (key f v : Bytes) (c : TableClient r)
      → (hget r key f (hset r key f v c)).0 ≡ some (strip_special_sym v)
  hget-hset_same key f v c =
      let written : field (key_name c.table key) f (hset r key f v c) ≡ some v = ground (
        arith,
        field-hset key f v (key_name c.table key) f c,
        eq_refl (key_name c.table key),
        eq_refl f,
      ) in
      hget-field key f (hset r key f v c)
      ∙ ap (λ t. Option.map strip_special_sym (field (key_name t key) f (hset r key f v c)))
          (same_table key f v c)
      ∙ ap (λ o. Option.map strip_special_sym o) written
