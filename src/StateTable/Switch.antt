-- ===== src/StateTable/Switch.antt =====
-- `apply_temp_view` switches a table to its temporary view.
use sonic_swss_common.Prelude.Maybe.{◌>>=◌}
use sonic_swss_common.Prelude.{
  ◌≢◌, true, false, [], ◌∷◌, Option, none, some, Bytes, bytes_eq, ◌==◌, eq_refl, if◌then◌else◌,
  codes, lookup, contains, Distinct, All, ◌≡◌, refl, arith, sym, subst, ◌∙◌, Bool-cases, inl, inr,
  Option-cases,
}
use sonic_swss_common.Kco.{TableMap, TableDump}
use sonic_swss_common.Redis.{Redis}
use sonic_swss_common.Redis.Loops.{or_else, last_value-lookup}
use sonic_swss_common.StateTable.Names.{
  Table, IsNamed, row_name, state_name, key_set_name, del_key_set_name, key_set-del_set,
  del_set-key_set,
}
use sonic_swss_common.StateTable.View.{view}
use sonic_swss_common.StateTable.Delivery.{Tracked}
use sonic_swss_common.StateTable.Scripts.{sadd_all}
use sonic_swss_common.StateTable.TempView.{null, dump, Changes, changes, need_set}
use sonic_swss_common.StateTable.Diff.{
  deletes, sets, left, changes_del, changes_set, changes_temp, changes-Distinct, contains-new_keys,
}
use sonic_swss_common.StateTable.Apply.{
  pend_dump, hget-sadd_all, sismember-sadd_all, hget-pend_dump_state, hget-pend_dump_row,
  sismember-pend_dump,
}
use sonic_swss_common.StateTable.Compare.{need_del-need_set, kept_fields, same_objects}
use sonic_swss_common.StateTable.Dumps.{dump-Distinct, dump-none, dump-some, row-Distinct}

-- A field of a key behind the changes, by the key's objects before and after.
field_switched :
    (g : Bytes) (row : Option Bytes) (old new : Option TableMap)
    → (old ≡ none → row ≡ none)
    → ((m : TableMap) → old ≡ some m → Distinct m × (lookup g m ≡ row))
    → or_else (left old new >>= lookup g) (if deletes old new then none else row)
      ≡ (new >>= lookup g)
unfolding left deletes
field_switched g row none none empty there = empty refl
field_switched g row none (some m) empty there = ground (arith, empty refl)
field_switched g row (some o) none empty there = refl
field_switched g row (some o) (some m) empty there =
    let (d, e) = there o refl in
    elim (Bool-cases (need_set o m)) [
      | inl set ↦ ground (arith, set, kept_fields o m g, e)
      | inr same ↦ ground (arith, same, same_objects o m d same g, need_del-need_set o m, e)
    ]

rows_lookup :
    (temp : TableDump) (j : Bytes) (m : TableMap)
    → All (λ (row : Bytes × TableMap). Distinct row.1) temp
    → lookup j temp ≡ some m
    → Distinct m
unfolding lookup
rows_lookup [] j m h e = absurd (ground arith)
rows_lookup ((k, x) ∷ temp) j m (d, h) e = elim (Bool-cases (k == j)) [
  | inl here ↦ let same : x ≡ m = ground (arith, here, e) in subst (λ y. Distinct y) same d
  | inr there ↦ rows_lookup temp j m h (rw there at e)
]

left-some : (old new : Option TableMap) (m : TableMap) → left old new ≡ some m → new ≡ some m
unfolding left
left-some old new m h = ground arith

-- The table and its temporary view, with nothing pending in Redis.
module _ (r : Redis) (t : Table) (n : IsNamed t) (colon : t.separator ≡ codes ":")
    (temp : TableDump) (d : Distinct temp)
    (rows : All (λ (row : Bytes × TableMap). Distinct row.1) temp) (keyed : lookup [] temp ≡ none)
    (db : r.Db) (no_state : (j g : Bytes) → r.hget (state_name t j) g db ≡ none)
    (no_del : (j : Bytes) → r.sismember (del_key_set_name t) j db ≡ false) where
  open r use {Db, hget, sismember}

  abbrev made : Changes
  made = changes (dump r t db) temp

  abbrev pub switched : Db
  switched = pend_dump r t made.temp (
      sadd_all r (del_key_set_name t) made.keys_to_del
        (sadd_all r (key_set_name t) made.keys_to_set db))

  still_keyed : lookup [] made.temp ≡ none
  still_keyed =
      changes_temp (dump r t db) temp [] (dump-Distinct r t colon db)
      ∙ (unfold left in ground (arith, keyed))

  nothing_pending :
      (j g : Bytes)
      → hget (state_name t j) g (
          sadd_all r
            (del_key_set_name t)
            made.keys_to_del
            (sadd_all r (key_set_name t) made.keys_to_set db))
        ≡ none
  nothing_pending j g =
      hget-sadd_all r (del_key_set_name t) made.keys_to_del (state_name t j) g _
      ∙ hget-sadd_all r (key_set_name t) made.keys_to_set (state_name t j) g db
      ∙ no_state j g

  pending_field :
      (j g : Bytes)
      → hget (state_name t j) g switched
        ≡ (left (lookup j (dump r t db)) (lookup j temp) >>= lookup g)
  pending_field j g =
      let behind =
        hget-pend_dump_state r t n made.temp j g
          (sadd_all r (del_key_set_name t) made.keys_to_del
            (sadd_all r (key_set_name t) made.keys_to_set db))
          (changes-Distinct (dump r t db) temp d) still_keyed in
      let same = changes_temp (dump r t db) temp j (dump-Distinct r t colon db) in
      elim (Option-cases (lookup j made.temp)) [
        | inl e ↦ ground (arith, behind, same, e, nothing_pending j g)
        | inr (m, e) ↦ ground (
          arith,
          behind,
          same,
          e,
          nothing_pending j g,
          last_value-lookup g m (
              rows_lookup temp j m rows
                (left-some (lookup j (dump r t db)) (lookup j temp) m (sym same ∙ e))),
        )
      ]

  pub row_kept : (j g : Bytes) → hget (row_name t j) g switched ≡ hget (row_name t j) g db
  row_kept j g =
      hget-pend_dump_row r t n made.temp j g _ still_keyed
      ∙ hget-sadd_all r (del_key_set_name t) made.keys_to_del (row_name t j) g _
      ∙ hget-sadd_all r (key_set_name t) made.keys_to_set (row_name t j) g db

  deleted :
      (j : Bytes)
      → sismember (del_key_set_name t) j switched ≡ deletes (lookup j (dump r t db)) (lookup j temp)
  deleted j = ground (
    arith,
    sismember-pend_dump r t made.temp (del_key_set_name t) j (
        sadd_all r (del_key_set_name t) made.keys_to_del
          (sadd_all r (key_set_name t) made.keys_to_set db)),
    sismember-sadd_all r (del_key_set_name t) made.keys_to_del (del_key_set_name t) j
        (sadd_all r (key_set_name t) made.keys_to_set db),
    sismember-sadd_all r (key_set_name t) made.keys_to_set (del_key_set_name t) j db,
    changes_del (dump r t db) temp j (dump-Distinct r t colon db),
    no_del j,
    eq_refl (del_key_set_name t),
    key_set-del_set t,
  )

  pub view-switched :
      (j g : Bytes) → g ≢ null → view r t j g switched ≡ (lookup j temp >>= lookup g)
  unfolding view
  view-switched j g ne =
      rw (pending_field j g, deleted j, row_kept j g)
        (field_switched g (hget (row_name t j) g db) (lookup j (dump r t db)) (lookup j temp)
          (λ e. dump-none r t colon db j e g)
          (λ m e. (row-Distinct r t colon db j m e, dump-some r t colon db j m e g ne)))

  to_set :
      (j : Bytes)
      → contains made.keys_to_set j ≡ true
      → sismember (key_set_name t) j switched ≡ true
  to_set j h = ground (
    arith,
    sismember-pend_dump r t made.temp (key_set_name t) j (
        sadd_all r (del_key_set_name t) made.keys_to_del
          (sadd_all r (key_set_name t) made.keys_to_set db)),
    sismember-sadd_all r (del_key_set_name t) made.keys_to_del (key_set_name t) j
        (sadd_all r (key_set_name t) made.keys_to_set db),
    sismember-sadd_all r (key_set_name t) made.keys_to_set (key_set_name t) j db,
    eq_refl (key_set_name t),
    del_set-key_set t,
    h,
  )

  written_set :
      (j : Bytes)
      → left (lookup j (dump r t db)) (lookup j temp) ≢ none
      → contains made.keys_to_set j ≡ true
  unfolding left sets
  written_set j h = ground (
    arith,
    h,
    changes_set (dump r t db) temp j (dump-Distinct r t colon db),
    changes_temp (dump r t db) temp j (dump-Distinct r t colon db),
    contains-new_keys (dump r t db) made.temp j,
  )

  deleted_set :
      (j : Bytes)
      → deletes (lookup j (dump r t db)) (lookup j temp) ≡ true
      → contains made.keys_to_set j ≡ true
  unfolding deletes sets
  deleted_set j h = elim (Option-cases (lookup j (dump r t db))) [
    | inl e ↦ ground (arith, e, h)
    | inr (o, e) ↦ elim (Option-cases (lookup j temp)) [
      | inl e' ↦
          ground (arith, e, e', h, changes_set (dump r t db) temp j (dump-Distinct r t colon db))
      | inr (m, e') ↦ ground (
        arith,
        e,
        e',
        h,
        need_del-need_set o m,
        changes_set (dump r t db) temp j (dump-Distinct r t colon db),
      )
    ]
  ]

  pub switched-Tracked : Tracked r t switched
  switched-Tracked = record {
    values = λ j g v h. to_set j (written_set j (λ e. ground (arith, pending_field j g, e, h)));
    deletions = λ j h. to_set j (deleted_set j (sym (deleted j) ∙ h));
  }
