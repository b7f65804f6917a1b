-- ===== src/ConfigDb/Entries.antt =====
-- What setting and modifying an entry do to every field of the database.
use sonic_swss_common.Prelude.{
  [], ◌∷◌, Option, none, some, Bytes, bytes_eq, ◌==◌, eq_iff, eq_refl, if◌then◌else◌, lookup,
  Distinct, ◌≡◌, refl, arith,
}
use sonic_swss_common.Kco.{TableMap}
use sonic_swss_common.Redis.{Redis}
use sonic_swss_common.Redis.Loops.{hset_all, hget-hset_all, or_else, last_value-lookup}
use sonic_swss_common.RedisPipeline.{run_all}
use sonic_swss_common.ConfigDb.{
  Config, entry_name, get_entry, hdel_missing, set_entry, mod_entry, queue_missing, queue_set_entry,
  pipe_set_entry,
}

-- A field after its entry has been modified: given anew, or kept, or gone with the entry.
unfoldable pub merged : TableMap → Bytes → Option Bytes → Option Bytes
merged [] g old = none
merged (fv ∷ entry) g old = or_else (lookup g (fv ∷ entry)) old

module _ (r : Redis) (c : Config) where
  open r use {Db, hgetall, hget, hdel, del, hget-hdel, hget-del, lookup-hgetall}

  hget-hdel_missing :
      (hash : Bytes) (entry original : TableMap) (j g : Bytes) (db : Db)
      → hget j g (hdel_missing r c hash entry original db) ≡ (
          if hash == j
          then elim (lookup g entry) [
            | some w ↦ hget j g db
            | none ↦ elim (lookup g original) [ some v ↦ none | none ↦ hget j g db ]
          ]
          else hget j g db)
  unfolding hdel_missing lookup
  hget-hdel_missing hash entry [] j g db = ground arith
  hget-hdel_missing hash entry ((k, v) ∷ original) j g db = ground (
    arith,
    hget-hdel_missing hash entry original j g (hdel hash k db),
    hget-hdel_missing hash entry original j g db,
    hget-hdel hash k j g db,
    eq_iff k g,
  )

  -- `set_entry` makes the fields of the entry those of the data, which names a field once: fields
  -- that the data lacks are gone, and an empty data deletes the entry. No other key changes.
  pub hget-set_entry :
      (table key : Bytes) (entry : TableMap) (j g : Bytes) (db : Db)
      → Distinct entry
      → hget j g (set_entry r c table key entry db)
        ≡ (if entry_name c table key == j then lookup g entry else hget j g db)
  unfolding set_entry get_entry lookup
  hget-set_entry table key [] j g db d = hget-del (entry_name c table key) j g db
  hget-set_entry table key (fv ∷ entry) j g db d =
      let hash = entry_name c table key in
      ground (
        arith,
        hget-hdel_missing hash (fv ∷ entry) (hgetall hash db) j g (hset_all r hash (fv ∷ entry) db),
        hget-hset_all r hash (fv ∷ entry) j g db,
        lookup-hgetall hash g db,
        last_value-lookup g (fv ∷ entry) d,
        eq_iff hash j,
      )

  -- `mod_entry` puts the fields of the data, each of which is named once, over those of the entry; an
  -- empty data deletes the entry. No other key changes.
  pub hget-mod_entry :
      (table key : Bytes) (entry : TableMap) (j g : Bytes) (db : Db)
      → Distinct entry
      → hget j g (mod_entry r c table key entry db)
        ≡ (if entry_name c table key == j then merged entry g (hget j g db) else hget j g db)
  unfolding mod_entry merged
  hget-mod_entry table key [] j g db d = hget-del (entry_name c table key) j g db
  hget-mod_entry table key (fv ∷ entry) j g db d = ground (
    arith,
    hget-hset_all r (entry_name c table key) (fv ∷ entry) j g db,
    last_value-lookup g (fv ∷ entry) d,
  )

  -- What is read back after `set_entry` is the data, field by field.
  pub get_entry-set_entry :
      (table key : Bytes) (entry : TableMap) (g : Bytes) (db : Db)
      → Distinct entry
      → lookup g (get_entry r c table key (set_entry r c table key entry db)) ≡ lookup g entry
  unfolding get_entry
  get_entry-set_entry table key entry g db d = ground (
    arith,
    lookup-hgetall (entry_name c table key) g (set_entry r c table key entry db),
    hget-set_entry table key entry (entry_name c table key) g db d,
    eq_refl (entry_name c table key),
  )

  run_all-queue_missing :
      (hash : Bytes) (entry original : TableMap) (db : Db)
      → run_all r (queue_missing r c hash entry original) db
        ≡ hdel_missing r c hash entry original db
  unfolding run_all queue_missing hdel_missing
  run_all-queue_missing hash entry [] db = refl
  run_all-queue_missing hash entry ((k, v) ∷ original) db = ground (
    arith,
    run_all-queue_missing hash entry original db,
    run_all-queue_missing hash entry original (hdel hash k db),
  )

  -- The pipelined connector's `set_entry` leaves the same database as the plain one, when nobody
  -- writes between its read of the entry and its transaction.
  pub pipe_set_entry_same :
      (table key : Bytes) (entry : TableMap) (db : Db)
      → pipe_set_entry r c table key entry db ≡ set_entry r c table key entry db
  unfolding pipe_set_entry queue_set_entry set_entry run_all
  pipe_set_entry_same table key [] db = refl
  pipe_set_entry_same table key (fv ∷ entry) db =
      run_all-queue_missing (entry_name c table key) (fv ∷ entry) (get_entry r c table key db)
        (hset_all r (entry_name c table key) (fv ∷ entry) db)
