-- ===== src/ConfigDb/Modify.antt =====
-- `mod_config`: many entries of many tables at once.
use sonic_swss_common.Prelude.{
  ℕ, false, List, [], ◌∷◌, ◌++◌, Option, none, Bytes, bytes_eq, ◌==◌, eq_iff, if◌then◌else◌,
  Distinct, ◌≡◌, ◌≢◌, subst, refl, arith, ◌∙◌, sym, ap, starts_with, starts_with_split,
  starts_with-append, Lacks, All, Bool-cases, inl, inr, nat_eq,
}
use sonic_swss_common.Kco.{TableMap, TableDump}
use sonic_swss_common.Redis.{Redis}
use sonic_swss_common.ConfigDb.{
  Config, to_upper, table_prefix, entry_name, mod_entry, mod_entries, mod_table, mod_config,
}
use sonic_swss_common.ConfigDb.Entries.{merged, hget-mod_entry}
use sonic_swss_common.ConfigDb.Tables.{IsTable, prefix-sep, same_row, hget-delete_table}

-- A field of a row after the changes to its table.
unfoldable pub merge_rows : TableDump → Bytes → Bytes → Option Bytes → Option Bytes
unfolding merged
merge_rows [] row g old = old
merge_rows ((key, fvs) ∷ rows) row g old =
    merge_rows rows row g (if key == row then merged fvs g old else old)

-- A table without rows is deleted.
unfoldable pub merge_table : TableDump → Bytes → Bytes → Option Bytes → Option Bytes
unfolding merge_rows
merge_table [] row g old = none
merge_table (r ∷ rows) row g old = merge_rows (r ∷ rows) row g old

-- A field of a row of the table with the name `name` in capitals.
unfoldable pub merge_config :
    List (Bytes × TableDump) → Bytes → Bytes → Bytes → Option Bytes → Option Bytes
unfolding merge_table
merge_config [] name row g old = old
merge_config ((table, rows) ∷ config) name row g old =
    merge_config config name row g
      (if to_upper table == name then merge_table rows row g old else old)

-- Every row names a field once.
abbrev pub RowsDistinct : TableDump → Type 0
RowsDistinct = All (λ (row : Bytes × TableMap). Distinct row.1)

abbrev pub TablesFit : Config → List (Bytes × TableDump) → Type 0
TablesFit c = All (λ (t : Bytes × TableDump). IsTable c t.0 × RowsDistinct t.1)

-- Texts before the first separator, and behind it.
sep_split :
    (b : ℕ) (t u s w : Bytes) → Lacks b t → Lacks b u → t ++ b ∷ s ≡ u ++ b ∷ w → (t ≡ u) × (s ≡ w)
sep_split b [] [] s w lt lu e = ground arith
sep_split b [] (d ∷ u) s w lt (ne, lu) e = ground arith
sep_split b (c ∷ t) [] s w (ne, lt) lu e = ground arith
sep_split b (c ∷ t) (d ∷ u) s w (ne, lt) (ne', lu) e = ground (arith, sep_split b t u s w lt lu)

module _ (r : Redis) (c : Config) (table : Bytes) (n : IsTable c table) where
  open r use {Db, hget}

  hget-mod_entries :
      (rows : TableDump) (row g : Bytes) (db : Db)
      → RowsDistinct rows
      → hget (entry_name c table row) g (mod_entries r c table rows db)
        ≡ merge_rows rows row g (hget (entry_name c table row) g db)
  unfolding mod_entries merge_rows entry_name
  hget-mod_entries [] row g db d = refl
  hget-mod_entries ((key, fvs) ∷ rows) row g db (d, ds) =
      hget-mod_entries rows row g (mod_entry r c table key fvs db) ds
      ∙ ap (merge_rows rows row g) (
          ground (
            arith,
            hget-mod_entry r c table key fvs (entry_name c table row) g db d,
            same_row c table n key row,
          ))

  hget-mod_table :
      (rows : TableDump) (row g : Bytes) (db : Db)
      → RowsDistinct rows
      → hget (entry_name c table row) g (mod_table r c table rows db)
        ≡ merge_table rows row g (hget (entry_name c table row) g db)
  unfolding mod_table merge_table entry_name
  hget-mod_table [] row g db d = ground (
    arith,
    hget-delete_table c table n r (entry_name c table row) g db,
    starts_with-append (table_prefix c table) row,
  )
  hget-mod_table (e ∷ rows) row g db d = hget-mod_entries (e ∷ rows) row g db d

  module _ (other : Bytes) (m : IsTable c other)
      (ne : (to_upper table == to_upper other) ≡ false) where
    prefix_apart : (s w : Bytes) → table_prefix c table ++ s ≢ table_prefix c other ++ w
    prefix_apart s w e =
        let one : n.sep ∷ [] ≡ m.sep ∷ [] = sym n.single ∙ m.single in
        let sep : m.sep ≡ n.sep = ground (arith, one) in
        let e' : to_upper table ++ n.sep ∷ s ≡ to_upper other ++ n.sep ∷ w =
          sym (prefix-sep c table n s)
          ∙ e
          ∙ prefix-sep c other m w
          ∙ ap (λ b. to_upper other ++ b ∷ w) sep in
        let (same, _) =
          sep_split n.sep (to_upper table) (to_upper other) s w n.free
            (subst (λ b. Lacks b (to_upper other)) sep m.free) e' in
        ground (arith, ne, same, eq_iff (to_upper table) (to_upper other))

    other_entry : (key row : Bytes) → (entry_name c table key == entry_name c other row) ≡ false
    unfolding entry_name
    other_entry key row =
        elim (Bool-cases (table_prefix c table ++ key == table_prefix c other ++ row)) [
          | inl e ↦ absurd (prefix_apart key row ((eq_iff _ _).0 e))
          | inr e ↦ e
        ]

    other_prefix :
        (row : Bytes) → starts_with (table_prefix c table) (entry_name c other row) ≡ false
    unfolding entry_name
    other_prefix row =
        elim (Bool-cases (starts_with (table_prefix c table) (table_prefix c other ++ row))) [
          | inl e ↦ absurd (prefix_apart _ row (sym (starts_with_split (table_prefix c table) _ e)))
          | inr e ↦ e
        ]

    mod_entries-other :
        (rows : TableDump) (row g : Bytes) (db : Db)
        → RowsDistinct rows
        → hget (entry_name c other row) g (mod_entries r c table rows db)
          ≡ hget (entry_name c other row) g db
    unfolding mod_entries
    mod_entries-other [] row g db d = refl
    mod_entries-other ((key, fvs) ∷ rows) row g db (d, ds) = ground (
      arith,
      mod_entries-other rows row g (mod_entry r c table key fvs db) ds,
      hget-mod_entry r c table key fvs (entry_name c other row) g db d,
      other_entry key row,
    )

    mod_table-other :
        (rows : TableDump) (row g : Bytes) (db : Db)
        → RowsDistinct rows
        → hget (entry_name c other row) g (mod_table r c table rows db)
          ≡ hget (entry_name c other row) g db
    unfolding mod_table
    mod_table-other [] row g db d =
        ground
          (arith, hget-delete_table c table n r (entry_name c other row) g db, other_prefix row)
    mod_table-other (e ∷ rows) row g db d = mod_entries-other (e ∷ rows) row g db d

same_table :
    (c : Config) (t u row : Bytes)
    → to_upper t ≡ to_upper u
    → entry_name c t row ≡ entry_name c u row
unfolding entry_name table_prefix
same_table c t u row e = rw e

module _ (r : Redis) (c : Config) (table : Bytes) (n : IsTable c table) where
  open r use {Db, hget}

  -- `mod_config` changes a field of any row of any table as the entries of its data for that table
  -- and row say, in their order: an entry puts its fields over those that are there, or deletes the
  -- row if it has none, and a table without entries is deleted. This is what
  -- the code does against its comments: they say that an entry without fields creates a row without
  -- columns, and that what is not in the data is kept. The tables' names do not have the separator,
  -- which is one byte, and an entry names a field once.
  pub hget-mod_config :
      (config : List (Bytes × TableDump)) (row g : Bytes) (db : Db)
      → TablesFit c config
      → hget (entry_name c table row) g (mod_config r c config db)
        ≡ merge_config config (to_upper table) row g (hget (entry_name c table row) g db)
  unfolding mod_config merge_config
  hget-mod_config [] row g db h = refl
  hget-mod_config ((t, rows) ∷ config) row g db ((m, d), h) =
      hget-mod_config config row g (mod_table r c t rows db) h
      ∙ ap (merge_config config (to_upper table) row g)
          (elim (Bool-cases (to_upper t == to_upper table)) [
            | inl e ↦
                rw (e, sym (same_table c t table row ((eq_iff (to_upper t) (to_upper table)).0 e)))
                  (hget-mod_table r c t m rows row g db d)
            | inr e ↦ rw e (mod_table-other r c t m table n e rows row g db d)
          ])
