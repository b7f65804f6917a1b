-- ===== src/ConfigDb/Tables.antt =====
-- Whole tables of the configuration: reading one, deleting one, and `mod_config`.
use sonic_swss_common.Prelude.{
  ℕ, ◌+◌, true, List, [], ◌∷◌, ◌++◌, none, some, Bytes, bytes_eq, ◌==◌, eq_iff, eq_refl,
  if◌then◌else◌, lookup, insert, lookup-insert, ◌≡◌, refl, arith, ◌∙◌, sym, ap, append_assoc, find,
  find-append, starts_with, starts_with_split, starts_with-append, Lacks, drop, length, contains,
  Option-cases, inl, inr, nat_eq,
}
use sonic_swss_common.Prelude.Maybe.{◌>>=◌}
use sonic_swss_common.Kco.{TableDump}
use sonic_swss_common.Redis.{Redis}
use sonic_swss_common.Redis.Loops.{hget-del_all}
use sonic_swss_common.ConfigDb.{
  Config, to_upper, table_prefix, entry_name, row_of, add_rows, get_table, delete_table,
}

-- The separator is one byte, which the table's name does not have.
pub record IsTable (c : Config) (table : Bytes) : Type 0 where
  pub sep : ℕ
  pub single : c.table_name_separator ≡ sep ∷ []
  pub free : Lacks sep (to_upper table)

drop-front : (b : ℕ) (t s : Bytes) → drop (length t + 1) (t ++ b ∷ s) ≡ s
drop-front b [] s = refl
drop-front b (c ∷ t) s = ground (arith, drop-front b t s)

find-row :
    (b : ℕ) (t s : Bytes)
    → Lacks b t
    → (find (b ∷ []) (t ++ b ∷ s) >>= λ pos. some (drop (pos + 1) (t ++ b ∷ s))) ≡ some s
find-row b t s h = rw (find-append b t s h, drop-front b t s)

module _ (c : Config) (table : Bytes) (n : IsTable c table) where
  pub prefix-sep : (s : Bytes) → table_prefix c table ++ s ≡ to_upper table ++ n.sep ∷ s
  unfolding table_prefix
  prefix-sep s = rw n.single (append_assoc (to_upper table) (n.sep ∷ []) s)

  row_of-prefix : (row : Bytes) → row_of c (table_prefix c table ++ row) ≡ some row
  unfolding row_of
  row_of-prefix row = rw (prefix-sep row, n.single) (find-row n.sep (to_upper table) row n.free)

  prefix_cancel :
      (s row : Bytes) → table_prefix c table ++ s ≡ table_prefix c table ++ row → s ≡ row
  prefix_cancel s row e =
      let e' : some s ≡ some row = sym (row_of-prefix s) ∙ ap (row_of c) e ∙ row_of-prefix row in
      ground (arith, e')

  pub same_row :
      (s row : Bytes) → (table_prefix c table ++ s == table_prefix c table ++ row) ≡ (s == row)
  same_row s row = ground (
    arith,
    eq_iff (table_prefix c table ++ s) (table_prefix c table ++ row),
    eq_iff s row,
    prefix_cancel s row,
  )

  key_row :
      (k : Bytes)
      → starts_with (table_prefix c table) k ≡ true
      → (s : Bytes) × ((k ≡ table_prefix c table ++ s) × (row_of c k ≡ some s))
  key_row k h =
      let split = starts_with_split (table_prefix c table) k h in
      (_, (split, ap (row_of c) split ∙ row_of-prefix _))

  module _ (r : Redis) where
    open r use {Db, hgetall, hget, keys, lookup-hgetall, keys-starts_with, contains-keys}

    lookup-add_rows :
        (ks : List Bytes) (db : Db) (rows : TableDump) (row : Bytes)
        → ((k : Bytes) → contains ks k ≡ true → starts_with (table_prefix c table) k ≡ true)
        → lookup row (add_rows r c ks db rows) ≡ (
            if contains ks (table_prefix c table ++ row)
            then some (hgetall (table_prefix c table ++ row) db)
            else lookup row rows)
    unfolding add_rows contains
    lookup-add_rows [] db rows row h = refl
    lookup-add_rows (k ∷ ks) db rows row h =
        let (s, (split, found)) = key_row k (h k (ground (arith, eq_refl k))) in
        let rest =
          lookup-add_rows ks db (insert s (hgetall k db) rows) row (λ j m. h j (ground arith)) in
        rw (add_rows, found)
          (rest
            ∙ ground (
              arith,
              lookup-insert s row (hgetall k db) rows,
              split,
              eq_iff k (table_prefix c table ++ row),
              eq_iff s row,
              prefix_cancel s row,
            ))

    -- A row of `get_table` has the fields of its entry in the database, and there is one for every
    -- entry that has a field: reading a field of a row is reading it from Redis. The separator
    -- must be one byte that the table's name does not have.
    pub get_table-hget :
        (row g : Bytes) (db : Db)
        → (lookup row (get_table r c table db) >>= lookup g) ≡ hget (entry_name c table row) g db
    unfolding get_table entry_name lookup
    get_table-hget row g db =
        let p = table_prefix c table in
        rw (lookup-add_rows (keys p db) db [] row (λ k. keys-starts_with p k db))
          (elim (Option-cases (hget (p ++ row) g db)) [
            | inl e ↦ ground (arith, lookup-hgetall (p ++ row) g db)
            | inr (v, e) ↦ ground (
              arith,
              lookup-hgetall (p ++ row) g db,
              contains-keys p (p ++ row) g v db e,
              starts_with-append p row,
            )
          ])

    -- `delete_table` removes every field of every key that starts with the table's name and the
    -- separator, and changes no other key. The separator must be one byte that the table's name
    -- does not have.
    pub hget-delete_table :
        (j g : Bytes) (db : Db)
        → hget j g (delete_table r c table db)
          ≡ (if starts_with (table_prefix c table) j then none else hget j g db)
    unfolding delete_table
    hget-delete_table j g db = elim (Option-cases (hget j g db)) [
      | inl e ↦ ground (arith, hget-del_all r (keys (table_prefix c table) db) j g db)
      | inr (v, e) ↦ ground (
        arith,
        hget-del_all r (keys (table_prefix c table) db) j g db,
        keys-starts_with (table_prefix c table) j db,
        contains-keys (table_prefix c table) j g v db e,
      )
    ]
