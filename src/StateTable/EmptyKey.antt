-- ===== src/StateTable/EmptyKey.antt =====
-- The empty key: producerstatetable.cpp names its pending hash by `getKeyName`, which leaves the
-- separator out, and consumer_state_table_pops.lua reads the hash with the separator.
use mathlib.Core.List.{append_cancel_left}
use sonic_swss_common.Prelude.{
  true, false, List, [], ◌++◌, Bytes, bytes_eq, bytes_beq, ◌==◌, eq_iff, append-nil, starts_with,
  starts_with-append, ◌≢◌, ◌≡◌, refl, arith, ap, sym, ◌∙◌,
}
use sonic_swss_common.Kco.{FieldValue}
use sonic_swss_common.Redis.{Redis}
use sonic_swss_common.Redis.Loops.{hset_all, hget-hset_all, sismember-hset_all}
use sonic_swss_common.StateTable.Names.{
  Table, IsNamed, row_name, state_name, state_hash_prefix, key_name, key_set_name, key_set-del_set,
}
use sonic_swss_common.StateTable.Producer.{Producer, set, scripts_publish}
use sonic_swss_common.StateTable.Commands.{run_set}
use sonic_swss_common.StateTable.View.{view, view-lua_pub}
use sonic_swss_common.StateTable.Apply.{row_starts}
use sonic_swss_common.StateTable.Changes.{now, view-send}

empty_name : (t : Table) → key_name t [] ≡ t.table_name
unfolding key_name bytes_beq
empty_name t = refl

eq_false : (a b : Bytes) → a ≢ b → (a == b) ≡ false
eq_false a b h = ground (arith, eq_iff a b)

module _ (t : Table) (n : IsNamed t) (j : Bytes) where
  table-state : (state_hash_prefix ++ t.table_name == state_name t j) ≡ false
  unfolding state_name row_name
  table-state = eq_false _ _ (λ e.
      let shorter =
        append_cancel_left state_hash_prefix t.table_name (t.table_name ++ (t.separator ++ j)) e in
      let nothing =
        append_cancel_left t.table_name [] (t.separator ++ j) (append-nil t.table_name ∙ shorter) in
      ground (arith, rw n.single at nothing))

  table-row : (r : Redis) → (state_hash_prefix ++ t.table_name == row_name t j) ≡ false
  table-row r = eq_false _ _ (λ e.
      let whole = starts_with-append (state_hash_prefix ++ t.table_name) [] in
      let same : starts_with (state_hash_prefix ++ t.table_name) (row_name t j) ≡ true =
        ap (starts_with (state_hash_prefix ++ t.table_name)) (sym e ∙ sym (append-nil _)) ∙ whole in
      ground (arith, row_starts r t n j, same))

module _ (r : Redis) (p : Producer r) (n : IsNamed p.table)
    (direct : p.temp_view_active ≡ false) where
  open r use {Db, hget, sismember, sadd, hget-sadd, sismember-sadd}

  view-lost :
      (fvs : List FieldValue) (j g : Bytes) (db : Db)
      → view r p.table j g (
          hset_all r
            (state_hash_prefix ++ p.table.table_name)
            fvs
            (sadd (key_set_name p.table) [] db).1)
        ≡ view r p.table j g db
  unfolding view
  view-lost fvs j g db = simp (
    hget-hset_all,
    sismember-hset_all,
    hget-sadd,
    sismember-sadd,
    table-state p.table n,
    table-row p.table n j r,
    key_set-del_set,
  )

  -- A `set` of the empty key changes no view: the values that it is given are never delivered to
  -- any row, whether the producer is buffered or not. No temporary view must be active. The
  -- table's separator must be one byte, a colon or a bar, that its name does not have.
  pub view-set_empty_key :
      (fvs : List FieldValue) (j g : Bytes)
      → view r p.table j g (now r (set r [] fvs p)) ≡ view r p.table j g (now r p)
  unfolding set
  view-set_empty_key fvs j g = rw direct (
      view-send r p.table j g _ p
      ∙ ap (view r p.table j g) (run_set r (scripts_publish r p) p.table p.db_id [] fvs (now r p))
      ∙ view-lua_pub r p.table _ _ _ _ j g _
      ∙ ap
          (λ k.
            view r p.table j g (
              hset_all r (state_hash_prefix ++ k) fvs (sadd (key_set_name p.table) [] (now r p)).1))
          (empty_name p.table)
      ∙ view-lost fvs j g (now r p))
