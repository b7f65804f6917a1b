-- ===== src/StateTable/Apply.antt =====
-- What the scripts of `clear` and `apply_temp_view` do to a table's keys.
use sonic_swss_common.Prelude.{
  ℕ, suc, ◌+◌, ◌≢◌, true, false, ◌&&◌, List, [], ◌∷◌, ◌++◌, none, some, Bytes, bytes_eq, ◌==◌,
  eq_iff, eq_refl, if◌then◌else◌, length, codes, take-append, drop-append, lookup, contains,
  Distinct, starts_with, starts_with_split, starts_with-append, Lacks, ◌≡◌, refl, arith, ◌∙◌,
  Bool-cases, inl, inr, Option-cases,
}
use sonic_swss_common.Kco.{TableDump}
use sonic_swss_common.Decimal.{to_string}
use sonic_swss_common.Decimal.RoundTrip.{scan-to_string}
use sonic_swss_common.Redis.{Redis}
use sonic_swss_common.Redis.Loops.{
  hset_all, del_all, hget-hset_all, sismember-hset_all, hget-del_all, or_else, last_value,
}
use sonic_swss_common.StateTable.Names.{
  Table, IsNamed, key_name, key_name-row_name, row_name, state_name, state_hash_prefix,
  key_set_name, del_key_set_name, channel_name, state-state, state-row, row-key_set, row-del_set,
}
use sonic_swss_common.StateTable.Scripts.{
  evalsha, lua_clear, lua_apply_view, sadd_all, apply_each, apply_del,
}
use sonic_swss_common.StateTable.Producer.{clear_args}
use sonic_swss_common.StateTable.Commands.{take-map, drop-map, drop-flatten, hset_count-flatten}
use sonic_swss_common.StateTable.TempView.{Changes, flatten_dump, hash_names, apply_args}

-- A table's rows do not start as the pending hashes do.
not_shifted : (b c : ℕ) (t s w : Bytes) → Lacks b t → c ≢ b → t ++ b ∷ s ≢ c ∷ (t ++ w)
not_shifted b c [] s w h ne e = ground arith
not_shifted b c (d ∷ t) s w (ne', h) ne e = ground (arith, not_shifted b d t s w h)

module _ (r : Redis) where
  open r use {
    Db, hget, sismember, keys, sadd, del, publish, hget-del, sismember-del, hget-sadd,
    sismember-sadd, keys-starts_with, contains-keys,
  }

  module _ (t : Table) (n : IsNamed t) where
    pub row_starts :
        (j : Bytes) → starts_with (state_hash_prefix ++ t.table_name) (row_name t j) ≡ false
    unfolding row_name
    row_starts j =
        elim (Bool-cases
          (starts_with (state_hash_prefix ++ t.table_name) (t.table_name ++ (t.separator ++ j)))) [
            | inr e ↦ e
            | inl e ↦
                let split =
                  starts_with_split (state_hash_prefix ++ t.table_name)
                    (t.table_name ++ (t.separator ++ j)) e in
                absurd (
                  not_shifted n.sep b'_' t.table_name j _ n.free (omega (arith, n.legal))
                    (rw n.single at split))
          ]

    state_starts :
        (j : Bytes) → starts_with (state_hash_prefix ++ t.table_name) (state_name t j) ≡ true
    unfolding state_name row_name
    state_starts j = starts_with-append (state_hash_prefix ++ t.table_name) (t.separator ++ j)

    -- What is pending is gone.
    module _ (db_id : ℕ) (db : Db) where
      abbrev pub cleared : Db
      cleared = evalsha r (lua_clear r) (clear_args t db_id) db

      pub hget-cleared_row :
          (j g : Bytes) → hget (row_name t j) g cleared ≡ hget (row_name t j) g db
      unfolding evalsha lua_clear clear_args
      hget-cleared_row j g =
          let p = state_hash_prefix ++ t.table_name in
          let db1 = del (key_set_name t) db in
          ground (
            arith,
            hget-del (del_key_set_name t) (row_name t j) g (del_all r (keys p db1) db1),
            hget-del_all r (keys p db1) (row_name t j) g db1,
            hget-del (key_set_name t) (row_name t j) g db,
            keys-starts_with p (row_name t j) db1,
            row_starts j,
            row-key_set t n j,
            row-del_set t n j,
            eq_iff (row_name t j) (key_set_name t),
            eq_iff (key_set_name t) (row_name t j),
            eq_iff (row_name t j) (del_key_set_name t),
            eq_iff (del_key_set_name t) (row_name t j),
          )

      pub hget-cleared_state : (j g : Bytes) → hget (state_name t j) g cleared ≡ none
      unfolding evalsha lua_clear clear_args
      hget-cleared_state j g =
          let p = state_hash_prefix ++ t.table_name in
          let db1 = del (key_set_name t) db in
          elim (Option-cases (hget (state_name t j) g db1)) [
            | inl e ↦ ground (
              arith,
              hget-del (del_key_set_name t) (state_name t j) g (del_all r (keys p db1) db1),
              hget-del_all r (keys p db1) (state_name t j) g db1,
              e,
            )
            | inr (v, e) ↦ ground (
              arith,
              hget-del (del_key_set_name t) (state_name t j) g (del_all r (keys p db1) db1),
              hget-del_all r (keys p db1) (state_name t j) g db1,
              contains-keys p (state_name t j) g v db1 e,
              state_starts j,
            )
          ]

      pub sismember-cleared : (j : Bytes) → sismember (del_key_set_name t) j cleared ≡ false
      unfolding evalsha lua_clear clear_args
      sismember-cleared j =
          let p = state_hash_prefix ++ t.table_name in
          let db1 = del (key_set_name t) db in
          ground (
            arith,
            sismember-del (del_key_set_name t) (del_key_set_name t) j (del_all r (keys p db1) db1),
            eq_refl (del_key_set_name t),
          )

  pub hget-sadd_all :
      (k : Bytes) (ms : List Bytes) (j g : Bytes) (db : Db)
      → hget j g (sadd_all r k ms db) ≡ hget j g db
  unfolding sadd_all
  hget-sadd_all k [] j g db = refl
  hget-sadd_all k (m ∷ ms) j g db = hget-sadd_all k ms j g (sadd k m db).1 ∙ hget-sadd k m j g db

  pub sismember-sadd_all :
      (k : Bytes) (ms : List Bytes) (j m : Bytes) (db : Db)
      → sismember j m (sadd_all r k ms db)
        ≡ (if k == j && contains ms m then true else sismember j m db)
  unfolding sadd_all contains
  sismember-sadd_all k [] j m db = ground arith
  sismember-sadd_all k (i ∷ ms) j m db =
      ground (arith, sismember-sadd_all k ms j m (sadd k i db).1, sismember-sadd k i j m db)

  -- HSET of all fields of all objects of the view.
  unfoldable pub pend_dump : Table → TableDump → Db → Db
  pend_dump t [] db = db
  pend_dump t ((key, fvs) ∷ temp) db =
      pend_dump t temp (hset_all r (state_hash_prefix ++ key_name t key) fvs db)

  apply_each_lem :
      (t : Table) (temp : TableDump) (db : Db)
      → apply_each r (hash_names t temp) (flatten_dump temp) db ≡ pend_dump t temp db
  unfolding apply_each hash_names flatten_dump pend_dump
  apply_each_lem t [] db = refl
  apply_each_lem t ((key, fvs) ∷ temp) db =
      simp (scan-to_string, drop-flatten, hset_count-flatten, apply_each_lem t temp)

  view_lem :
      (t : Table) (c m : Bytes) (d : Changes) (db : Db)
      → lua_apply_view r
          (c ∷ key_set_name t ∷ del_key_set_name t ∷ hash_names t d.temp)
          (m
            ∷ to_string (length d.keys_to_set)
            ∷ (d.keys_to_set
                ++ (to_string (length d.keys_to_del) ∷ (d.keys_to_del ++ flatten_dump d.temp))))
          db
        ≡ publish c m (
            pend_dump t d.temp (
              sadd_all r
                (del_key_set_name t)
                d.keys_to_del
                (sadd_all r (key_set_name t) d.keys_to_set db)))
  unfolding lua_apply_view apply_del
  view_lem t c m d db = rw (
    lua_apply_view,
    scan-to_string (length d.keys_to_set),
    take-append d.keys_to_set,
    drop-append d.keys_to_set,
    apply_del,
    scan-to_string (length d.keys_to_del),
    take-append d.keys_to_del,
    drop-append d.keys_to_del,
    apply_each_lem t d.temp,
  )

  -- The script is given the changes, and makes them.
  pub run_apply :
      (t : Table) (db_id : ℕ) (d : Changes) (db : Db)
      → evalsha r (lua_apply_view r) (apply_args t db_id d) db
        ≡ publish (channel_name t db_id) (codes "G") (
            pend_dump t d.temp (
              sadd_all r
                (del_key_set_name t)
                d.keys_to_del
                (sadd_all r (key_set_name t) d.keys_to_set db)))
  unfolding evalsha apply_args hash_names
  run_apply t db_id d db =
      let three : length d.temp + 3 ≡ suc (suc (suc (length d.temp))) = omega arith in
      rw three (simp (take-map, drop-map) (view_lem t (channel_name t db_id) (codes "G") d db))

  module _ (t : Table) (n : IsNamed t) where
    -- The pending hash of a key gets the fields of the key's object, and no other name changes.
    pub hget-pend_dump_state :
        (temp : TableDump) (j g : Bytes) (db : Db)
        → Distinct temp
        → lookup [] temp ≡ none
        → hget (state_name t j) g (pend_dump t temp db) ≡ elim (lookup j temp) [
          | none ↦ hget (state_name t j) g db
          | some m ↦ or_else (last_value g m) (hget (state_name t j) g db)
        ]
    unfolding pend_dump lookup state_name
    hget-pend_dump_state [] j g db h e = refl
    hget-pend_dump_state ((key, fvs) ∷ temp) j g db (fresh, h) e =
        let named = key_name-row_name t key (λ k. ground (arith, k, e, eq_refl key)) in
        let first = hget-hset_all r (state_name t key) fvs (state_name t j) g db in
        rw named (
          ground (
            arith,
            hget-pend_dump_state temp j g (hset_all r (state_name t key) fvs db) h
                (ground (arith, e)),
            first,
            state-state t key j,
            eq_iff key j,
            fresh,
          ))

    pub hget-pend_dump_row :
        (temp : TableDump) (j g : Bytes) (db : Db)
        → lookup [] temp ≡ none
        → hget (row_name t j) g (pend_dump t temp db) ≡ hget (row_name t j) g db
    unfolding pend_dump lookup state_name
    hget-pend_dump_row [] j g db e = refl
    hget-pend_dump_row ((key, fvs) ∷ temp) j g db e =
        let named = key_name-row_name t key (λ k. ground (arith, k, e, eq_refl key)) in
        rw named (
          ground (
            arith,
            hget-pend_dump_row temp j g (hset_all r (state_name t key) fvs db) (ground (arith, e)),
            hget-hset_all r (state_name t key) fvs (row_name t j) g db,
            state-row t n key j,
          ))

  pub sismember-pend_dump :
      (t : Table) (temp : TableDump) (k m : Bytes) (db : Db)
      → sismember k m (pend_dump t temp db) ≡ sismember k m db
  unfolding pend_dump
  sismember-pend_dump t [] k m db = refl
  sismember-pend_dump t ((key, fvs) ∷ temp) k m db =
      sismember-pend_dump t temp k m (hset_all r (state_hash_prefix ++ key_name t key) fvs db)
      ∙ sismember-hset_all r (state_hash_prefix ++ key_name t key) fvs k m db
