-- ===== src/StateTable/Dumps.antt =====
-- What `Table::dump` gives for a table whose separator is a colon.
use sonic_swss_common.Prelude.{
  ℕ, ◌+◌, ◌≢◌, true, List, [], ◌∷◌, ◌++◌, none, some, Bytes, bytes_eq, ◌==◌, eq_iff, eq_refl,
  if◌then◌else◌, length, drop, codes, lookup, insert, lookup-insert, insert-Distinct, contains,
  Distinct, starts_with, starts_with_split, starts_with-append, append_assoc, ◌≡◌, refl, arith, ap,
  sym, ◌∙◌, inl, inr, Option-cases,
}
use sonic_swss_common.Kco.{TableMap, TableDump}
use sonic_swss_common.Redis.{Redis}
use sonic_swss_common.StateTable.Names.{Table, row_name, row-row}
use sonic_swss_common.StateTable.TempView.{null, strip_null, dump_rows, dump}

lookup-strip_null :
    (g : Bytes) (m : TableMap) → lookup g (strip_null m) ≡ (if g == null then none else lookup g m)
unfolding strip_null lookup
lookup-strip_null g [] = ground arith
lookup-strip_null g ((f, v) ∷ m) =
    ground (arith, lookup-strip_null g m, eq_iff f g, eq_iff f null, eq_iff g null)

strip_null-Distinct : (m : TableMap) → Distinct m → Distinct (strip_null m)
unfolding strip_null
strip_null-Distinct [] d = tt
strip_null-Distinct ((f, v) ∷ m) (fresh, d) =
    ground (arith, strip_null-Distinct m d, lookup-strip_null f m)

drop-prefix : (x : Bytes) (b : ℕ) (s : Bytes) → drop (length x + 1) (x ++ (b ∷ s)) ≡ s
drop-prefix [] b s = refl
drop-prefix (c ∷ x) b s = ground (arith, drop-prefix x b s)

module _ (r : Redis) (t : Table) (colon : t.separator ≡ codes ":") where
  open r use {
    Db, hgetall, hget, keys, lookup-hgetall, hgetall-Distinct, keys-starts_with, contains-keys,
  }

  prefix : Bytes
  prefix = t.table_name ++ codes ":"

  key_row :
      (k : Bytes)
      → starts_with (t.table_name ++ codes ":") k ≡ true
      → (s : Bytes) × ((k ≡ row_name t s) × (drop (length t.table_name + 1) k ≡ s))
  unfolding row_name
  key_row k h =
      let s = drop (length (t.table_name ++ codes ":")) k in
      let split : k ≡ t.table_name ++ (codes ":" ++ s) =
        starts_with_split (t.table_name ++ codes ":") k h
        ∙ append_assoc t.table_name (codes ":") s in
      (
        s,
        (
          rw colon split,
          ap (drop (length t.table_name + 1)) split ∙ drop-prefix t.table_name b':' s,
        ),
      )

  dump_rows-Distinct :
      (ks : List Bytes) (db : Db) (d : TableDump) → Distinct d → Distinct (dump_rows r t ks db d)
  unfolding dump_rows
  dump_rows-Distinct [] db d h = h
  dump_rows-Distinct (k ∷ ks) db d h =
      dump_rows-Distinct ks db _ (insert-Distinct _ (strip_null (hgetall k db)) d h)

  pub dump-Distinct : (db : Db) → Distinct (dump r t db)
  unfolding dump
  dump-Distinct db = dump_rows-Distinct (keys (t.table_name ++ codes ":") db) db [] tt

  lookup-dump_rows :
      (ks : List Bytes) (db : Db) (d : TableDump) (j : Bytes)
      → ((k : Bytes) → contains ks k ≡ true → starts_with (t.table_name ++ codes ":") k ≡ true)
      → lookup j (dump_rows r t ks db d) ≡ (
          if contains ks (row_name t j)
          then some (strip_null (hgetall (row_name t j) db))
          else lookup j d)
  unfolding dump_rows contains
  lookup-dump_rows [] db d j h = refl
  lookup-dump_rows (k ∷ ks) db d j h =
      let (s, (split, cut)) = key_row k (h k (ground (arith, eq_refl k))) in
      let rest =
        lookup-dump_rows ks db (insert s (strip_null (hgetall k db)) d) j
          (λ i m. h i (ground arith)) in
      rw (dump_rows, cut)
        (rest
          ∙ ground (
            arith,
            lookup-insert s j (strip_null (hgetall k db)) d,
            split,
            eq_iff k (row_name t j),
            eq_iff s j,
            row-row t s j,
          ))

  module _ (db : Db) (j : Bytes) where
    lookup-dump : lookup j (dump r t db) ≡ (
        if contains (keys (t.table_name ++ codes ":") db) (row_name t j)
        then some (strip_null (hgetall (row_name t j) db))
        else none)
    unfolding dump lookup
    lookup-dump =
        lookup-dump_rows (keys (t.table_name ++ codes ":") db) db [] j
          (λ k. keys-starts_with (t.table_name ++ codes ":") k db)

    row_starts : starts_with (t.table_name ++ codes ":") (row_name t j) ≡ true
    unfolding row_name
    row_starts =
        rw (colon, sym (append_assoc t.table_name (codes ":") j))
          (starts_with-append (t.table_name ++ codes ":") j)

    -- A row that is not in the dump is empty.
    pub dump-none : lookup j (dump r t db) ≡ none → (g : Bytes) → hget (row_name t j) g db ≡ none
    dump-none h g = elim (Option-cases (hget (row_name t j) g db)) [
      | inl e ↦ e
      | inr (v, e) ↦ ground (
        arith,
        lookup-dump,
        contains-keys (t.table_name ++ codes ":") (row_name t j) g v db e,
        row_starts,
        h,
      )
    ]

    -- A row that is in the dump has its fields there.
    module _ (m : TableMap) (h : lookup j (dump r t db) ≡ some m) where
      is_row : m ≡ strip_null (hgetall (row_name t j) db)
      is_row = ground (arith, lookup-dump, h)

      pub row-Distinct : Distinct m
      row-Distinct = rw is_row (strip_null-Distinct _ (hgetall-Distinct (row_name t j) db))

      pub dump-some : (g : Bytes) → g ≢ null → lookup g m ≡ hget (row_name t j) g db
      dump-some g ne = rw is_row (
          ground (
            arith,
            lookup-strip_null g (hgetall (row_name t j) db),
            lookup-hgetall (row_name t j) g db,
            eq_iff g null,
            ne,
          ))
