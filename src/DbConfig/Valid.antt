-- ===== src/DbConfig/Valid.antt =====
-- What holds of a configuration after any calls.
use sonic_swss_common.Prelude.Maybe.{◌>>=◌, bind-eq-some}
use sonic_swss_common.Prelude.{
  Bool, true, false, ◌&&◌, ◌||◌, not, List, [], ◌∷◌, ◌++◌, Option, none, some, Bytes, codes, lookup,
  lookup-insert, ◌==◌, nat_eq, bytes_eq, bytes_beq, if◌then◌else◌, ◌≡◌, refl, sym, ◌∙◌, subst,
  Bool-cases, inl, inr,
}
use sonic_swss_common.DbConfig.{
  Config, SonicDbKey, Databases, Separators, empty_key, key_eq, int_eq, is_empty, same_key,
}
use sonic_swss_common.DbConfig.Parse.{Files, Entries, parse_database_config}
use sonic_swss_common.DbConfig.Load.{
  is_nil, include_key, first_load, go_on, finish_global, read_includes, directory_of, no_config,
  assign, mark_init, keep, initialize, include, include_each, load_includes,
  initialize_global_config,
}
use sonic_swss_common.DbConfig.Numbered.{emplace_new, Numbered, parse_database_config-Numbered}

-- The databases of each key have their separators.
abbrev pub AllNumbered : Config → Type 0
AllNumbered st =
    (key : SonicDbKey) (dbs : Databases)
    → lookup key st.db_info ≡ some dbs
    → (seps : Separators) × (lookup key st.db_separator ≡ some seps) × Numbered dbs seps

-- Nothing is stored for the empty key before `m_init` is set.
abbrev pub IsFresh : Config → Type 0
IsFresh st =
    st.init ≡ false
    → (lookup empty_key st.inst_info ≡ none)
      × (lookup empty_key st.db_info ≡ none)
      × (lookup empty_key st.db_separator ≡ none)

pub record IsValid (st : Config) : Type 0 where
  pub numbered : AllNumbered st
  pub fresh : IsFresh st

pub no_config-IsValid : IsValid no_config
unfolding lookup
no_config-IsValid = record { numbered = λ key dbs h. absurd cc; fresh = λ h. (refl, refl, refl) }

assign-AllNumbered :
    (key : SonicDbKey) (c : Entries) (st : Config)
    → Numbered c.db_entry c.separator_entry
    → AllNumbered st
    → AllNumbered (assign key c st)
unfolding assign
assign-AllNumbered key c st n v k dbs h =
    let e = lookup-insert key k c.db_entry st.db_info in
    let s = lookup-insert key k c.separator_entry st.db_separator in
    elim (Bool-cases (key == k)) [
      | inl same ↦
          let i : c.db_entry ≡ dbs = let j = sym (rw same at e) ∙ h in cc in
          (c.separator_entry, rw same at s, subst (λ d. Numbered d c.separator_entry) i n)
      | inr differs ↦
          let (seps, f, m) = v k dbs (sym (rw differs at e) ∙ h) in (seps, (rw differs at s) ∙ f, m)
    ]

assign-IsFresh :
    (key : SonicDbKey) (c : Entries) (st : Config)
    → (key == empty_key) ≡ false
    → IsFresh st
    → IsFresh (assign key c st)
unfolding assign
assign-IsFresh key c st other v off =
    let (i, d, s) = v off in
    (
      rw (lookup-insert key empty_key c.inst_entry st.inst_info, other) i,
      rw (lookup-insert key empty_key c.db_entry st.db_info, other) d,
      rw (lookup-insert key empty_key c.separator_entry st.db_separator, other) s,
    )

-- The empty key is the key that is empty.
is_empty-key : (key : SonicDbKey) → is_empty key ≡ false → (key == empty_key) ≡ false
unfolding is_empty same_key
is_empty-key key h = h

store-IsValid :
    (key : SonicDbKey) (c : Entries) (st : Config)
    → Numbered c.db_entry c.separator_entry
    → IsValid st
    → IsValid (mark_init key (assign key c st))
unfolding mark_init
store-IsValid key c st n v = elim (Bool-cases (is_empty key)) [
  | inl e ↦
      rw e
        (record { numbered = assign-AllNumbered key c st n v.numbered; fresh = λ off. absurd cc })
  | inr e ↦ rw e (record {
    numbered = assign-AllNumbered key c st n v.numbered;
    fresh = assign-IsFresh key c st (is_empty-key key e) v.fresh;
  })
]

mark-IsValid : (key : SonicDbKey) (st : Config) → IsValid st → IsValid (mark_init key st)
unfolding mark_init
mark-IsValid key st v = elim (Bool-cases (is_empty key)) [
  | inl e ↦ rw e (record { numbered = v.numbered; fresh = λ off. absurd cc })
  | inr e ↦ rw e v
]

keep-IsValid :
    (key : SonicDbKey) (c : Entries) (st : Config)
    → Numbered c.db_entry c.separator_entry
    → IsValid st
    → IsValid (mark_init key (keep key c st))
unfolding keep
keep-IsValid key c st n v =
    elim (Bool-cases
      (not (is_nil c.inst_entry) || not (is_nil c.db_entry) || not (is_nil c.separator_entry))) [
        | inl e ↦ rw e (store-IsValid key c st n v)
        | inr e ↦ rw e (mark-IsValid key st v)
      ]

pub first_load_fresh :
    (c : Entries) (st : Config)
    → (lookup empty_key st.inst_info ≡ none)
      × (lookup empty_key st.db_info ≡ none)
      × (lookup empty_key st.db_separator ≡ none)
    → first_load c st ≡ mark_init empty_key (assign empty_key c st)
unfolding first_load mark_init assign is_empty bytes_beq
first_load_fresh c st (i, d, s) =
    rw
      (
        emplace_new empty_key c.inst_entry st.inst_info i,
        emplace_new empty_key c.db_entry st.db_info d,
        emplace_new empty_key c.separator_entry st.db_separator s,
      )
      refl

go_on-IsValid :
    (o : Option Config) (st : Config) (next : Config → Bool × Config)
    → IsValid st
    → ((st1 : Config) → o ≡ some st1 → IsValid (next st1).1)
    → IsValid (go_on o st next).1
unfolding go_on
go_on-IsValid none st next v h = v
go_on-IsValid (some st1) st next v h = h st1 refl

finish_global-IsValid : (r : Bool × Config) → IsValid r.1 → IsValid (finish_global r).1
unfolding finish_global
finish_global-IsValid (true, st) v = record { numbered = v.numbered; fresh = v.fresh }
finish_global-IsValid (false, st) v = v

either-IsValid :
    (b : Bool) (x y : Bool × Config) → IsValid x.1 → IsValid y.1 → IsValid (if b then x else y).1
either-IsValid true x y vx vy = vx
either-IsValid false x y vx vy = vy

module _ (f : Files) where
  include-IsValid :
      (dir : Bytes) (ignore_nonexistent : Bool) (element : f.Value) (st st1 : Config)
      → include f dir ignore_nonexistent element st ≡ some st1
      → IsValid st
      → IsValid st1
  unfolding include
  include-IsValid dir ignore_nonexistent element st st1 h v =
      let (name, _, h1) = bind-eq-some (f.index element (codes "include") >>= f.string_of) _ h in
      let (key, _, h2) = bind-eq-some (include_key f element) _ h1 in
      elim (Bool-cases (is_empty key && st.init)) [
        | inl skip ↦ let same : st ≡ st1 = let h' = rw skip at h2 in cc in subst IsValid same v
        | inr go ↦
            let (c, p, h3) =
              bind-eq-some (parse_database_config f (dir ++ name) ignore_nonexistent) _
                (rw go at h2) in
            let same : mark_init key (keep key c st) ≡ st1 = cc in
            subst IsValid same (
              keep-IsValid key c st
                (parse_database_config-Numbered f (dir ++ name) ignore_nonexistent c p) v)
      ]

  include_each-IsValid :
      (dir : Bytes) (ignore_nonexistent : Bool) (elements : List f.Value) (st : Config)
      → IsValid st
      → IsValid (include_each f dir ignore_nonexistent elements st).1
  unfolding include_each
  include_each-IsValid dir ignore_nonexistent [] st v = v
  include_each-IsValid dir ignore_nonexistent (element ∷ rest) st v =
      go_on-IsValid (include f dir ignore_nonexistent element st) st
        (λ st1. include_each f dir ignore_nonexistent rest st1) v
        (λ st1 e.
          include_each-IsValid dir ignore_nonexistent rest st1
            (include-IsValid dir ignore_nonexistent element st st1 e v))

  pub initialize-IsValid :
      (file : Bytes) (st st1 : Config) → initialize f file st ≡ some st1 → IsValid st → IsValid st1
  unfolding initialize
  initialize-IsValid file st st1 h v = elim (Bool-cases st.init) [
    | inl on ↦ let h' = rw on at h in absurd cc
    | inr off ↦
        let (c, p, r) = bind-eq-some (parse_database_config f file false) _ (rw off at h) in
        let same : mark_init empty_key (assign empty_key c st) ≡ st1 =
          let e = first_load_fresh c st (v.fresh off) in cc in
        subst IsValid same
          (store-IsValid empty_key c st (parse_database_config-Numbered f file false c p) v)
  ]

  read_includes-IsValid :
      (file : Bytes) (ignore_nonexistent : Bool) (st : Config) (o : Option f.Value)
      → IsValid st
      → IsValid (read_includes f file ignore_nonexistent st o).1
  unfolding read_includes
  read_includes-IsValid file ignore_nonexistent st none v = v
  read_includes-IsValid file ignore_nonexistent st (some includes) v =
      include_each-IsValid (directory_of file) ignore_nonexistent (f.elements includes) st v

  pub initialize_global_config-IsValid :
      (file : Bytes) (ignore_nonexistent : Bool) (st : Config)
      → IsValid st
      → IsValid (initialize_global_config f file ignore_nonexistent st).1
  unfolding initialize_global_config load_includes
  initialize_global_config-IsValid file ignore_nonexistent st v =
      either-IsValid st.global_init (true, st) _ v
        (finish_global-IsValid _ (
          either-IsValid (f.good file) (load_includes f file ignore_nonexistent st) (true, st)
            (read_includes-IsValid file ignore_nonexistent st _ v) v))
