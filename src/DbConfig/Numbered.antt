-- ===== src/DbConfig/Numbered.antt =====
-- The separators by number that are parsed with the databases.
use sonic_swss_common.Prelude.Maybe.{◌>>=◌, bind-eq-some}
use sonic_swss_common.Prelude.{
  Bool, ◌&&◌, not, List, [], ◌∷◌, none, some, Bytes, codes, lookup, insert, lookup-insert, ◌==◌,
  nat_eq, bytes_eq, Equality, eq_iff, eq_refl, if◌then◌else◌, ◌≡◌, sym, ap, ◌∙◌, subst, arith,
  Option-cases, Bool-cases, inl, inr,
}
use sonic_swss_common.DbConfig.{
  SonicDbInfo, Databases, Separators, key_eq, int_eq, emplace, emplace_at,
}
use sonic_swss_common.DbConfig.Parse.{
  Files, Entries, no_entries, parse_instances, read_entries, parse_databases, parse_database_config,
  database_of,
}

module _ {ℓ κ} {K : Type ℓ} {V : Type κ} ⦃e : Equality K⦄ where
  lookup-emplace :
      (k j : K) (v : V) (m : List (K × V))
      → lookup k m ≡ none
      → lookup j (emplace k v m) ≡ (if k == j then some v else lookup j m)
  unfolding emplace emplace_at
  lookup-emplace k j v m h = ap (λ o. lookup j (emplace_at o k v m)) h ∙ lookup-insert k j v m

  pub emplace_new :
      (k : K) (v : V) (m : List (K × V)) → lookup k m ≡ none → emplace k v m ≡ insert k v m
  unfolding emplace emplace_at
  emplace_new k v m h = ap (λ o. emplace_at o k v m) h

  emplace_old : (k : K) (v w : V) (m : List (K × V)) → lookup k m ≡ some w → emplace k v m ≡ m
  unfolding emplace emplace_at
  emplace_old k v w m h = ap (λ o. emplace_at o k v m) h

  emplace_found : (k : K) (v : V) (m : List (K × V)) → (w : V) × (lookup k (emplace k v m) ≡ some w)
  emplace_found k v m = elim (Option-cases (lookup k m)) [
    | inl h ↦ let e = lookup-emplace k k v m h in let s = eq_refl k in (v, ground arith)
    | inr (w, h) ↦ (w, ap (lookup k) (emplace_old k v w m h) ∙ h)
  ]

  emplace_keeps :
      (k j : K) (v w : V) (m : List (K × V))
      → lookup j m ≡ some w
      → lookup j (emplace k v m) ≡ some w
  emplace_keeps k j v w m h = elim (Option-cases (lookup k m)) [
    | inl fresh ↦ let e = lookup-emplace k j v m fresh in ground (arith, eq_iff k j)
    | inr (old, f) ↦ ap (lookup j) (emplace_old k v old m f) ∙ h
  ]

-- Every database has a separator under its number.
abbrev pub Numbered : Databases → Separators → Type 0
Numbered dbs seps =
    (name : Bytes) (info : SonicDbInfo)
    → lookup name dbs ≡ some info
    → (sep : Bytes) × (lookup info.db_id seps ≡ some sep)

add-Numbered :
    (name : Bytes) (info : SonicDbInfo) (dbs : Databases) (seps : Separators)
    → Numbered dbs seps
    → Numbered (insert name info dbs) (emplace info.db_id info.separator seps)
add-Numbered name info dbs seps n other found h =
    let e = lookup-insert name other info dbs in
    elim (Bool-cases (name == other)) [
      | inl same ↦
          let e' : some info ≡ some found = sym (rw same at e) ∙ h in
          let i : info ≡ found = cc in
          let (w, f) = emplace_found info.db_id info.separator seps in
          (
            w,
            subst
                (λ (x : SonicDbInfo).
                  lookup x.db_id (emplace info.db_id info.separator seps) ≡ some w)
                i f,
          )
      | inr differs ↦
          let (w, f) = n other found (sym (rw differs at e) ∙ h) in
          (w, emplace_keeps info.db_id found.db_id info.separator w seps f)
    ]

nothing-Numbered : Numbered [] []
unfolding lookup
nothing-Numbered name info h = absurd cc

module _ (f : Files) where
  parse_databases-Numbered :
      (vs : List (Bytes × f.Value)) (dbs dbs' : Databases) (seps seps' : Separators)
      → Numbered dbs seps
      → parse_databases f vs dbs seps ≡ some (dbs', seps')
      → Numbered dbs' seps'
  unfolding parse_databases
  parse_databases-Numbered [] dbs dbs' seps seps' n h =
      let d : dbs ≡ dbs' = cc in
      let s : seps ≡ seps' = cc in subst (λ x. Numbered x seps') d (subst (λ x. Numbered dbs x) s n)
  parse_databases-Numbered ((name, value) ∷ vs) dbs dbs' seps seps' n h =
      let (info, _, more) = bind-eq-some (database_of f value) _ h in
      parse_databases-Numbered vs _ dbs' _ seps' (add-Numbered name info dbs seps n) more

  read_entries-Numbered :
      (j : f.Value) (c : Entries)
      → read_entries f j ≡ some c
      → Numbered c.db_entry c.separator_entry
  unfolding read_entries
  read_entries-Numbered j c h =
      let (instances, _, h1) = bind-eq-some (f.index j (codes "INSTANCES") >>= f.members) _ h in
      let (inst_entry, _, h2) = bind-eq-some (parse_instances f instances []) _ h1 in
      let (databases, _, h3) = bind-eq-some (f.index j (codes "DATABASES") >>= f.members) _ h2 in
      let (both, e, h4) = bind-eq-some (parse_databases f databases [] []) _ h3 in
      let same : record { inst_entry = inst_entry; db_entry = both.0; separator_entry = both.1 }
          ≡ c =
        cc in
      subst (λ (x : Entries). Numbered x.db_entry x.separator_entry) same
        (parse_databases-Numbered databases [] both.0 [] both.1 nothing-Numbered e)

  -- What is parsed has a separator for the number of each of its databases.
  pub parse_database_config-Numbered :
      (file : Bytes) (ignore_nonexistent : Bool) (c : Entries)
      → parse_database_config f file ignore_nonexistent ≡ some c
      → Numbered c.db_entry c.separator_entry
  unfolding parse_database_config
  parse_database_config-Numbered file ignore_nonexistent c h =
      elim (Bool-cases (ignore_nonexistent && not (f.exists file))) [
        | inl e ↦
            let same : no_entries ≡ c = let h' = rw e at h in cc in
            subst (λ (x : Entries). Numbered x.db_entry x.separator_entry) same nothing-Numbered
        | inr e ↦ elim (Bool-cases (f.good file)) [
          | inl g ↦
              let (j, _, r) = bind-eq-some (f.parse file) _ (rw (e, g) at h) in
              read_entries-Numbered j c r
          | inr g ↦ let h' = rw (e, g) at h in absurd cc
        ]
      ]
