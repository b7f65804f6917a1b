-- ===== src/DbConfig/Asked.antt =====
-- Lookups in a configuration that any calls have led to.
use sonic_swss_common.Prelude.Maybe.{bind-eq-some}
use sonic_swss_common.Prelude.{
  Bool, true, false, List, [], ◌∷◌, Option, none, some, Bytes, lookup, lookup-insert, nat_eq,
  bytes_eq, bytes_beq, eq_refl, if◌then◌else◌, ◌≡◌, refl, sym, ap, ◌∙◌, subst, arith, Option-cases,
  Bool-cases, inl, inr,
}
use sonic_swss_common.Decimal.{ℤ}
use sonic_swss_common.DbConfig.{
  Config, SonicDbKey, SonicDbInfo, Databases, empty_key, key_eq, int_eq, is_empty,
}
use sonic_swss_common.DbConfig.Parse.{Files, Entries, parse_database_config}
use sonic_swss_common.DbConfig.Load.{
  reset, assign, mark_init, first_load, initialize, initialize_global_config,
  default_sonic_db_config_file,
}
use sonic_swss_common.DbConfig.Find.{
  Outcome, returned, found, check_key, find_db_info, find_redis_info, find_separator,
  bind-eq-returned, started, answer, with_init, get_db_info, get_redis_info, get_id_separator,
  get_namespaces,
}
use sonic_swss_common.DbConfig.Valid.{
  IsValid, first_load_fresh, initialize-IsValid, initialize_global_config-IsValid,
}

-- The calls that can change the static members. Every lookup does what `with_init` does.
pub data Call : Type 0 where
  call_initialize : Bytes → Call
  call_initialize_global_config : Bytes → Bool → Call
  call_reset : Call
  call_get_db_info : Bytes → SonicDbKey → Call
  call_get_redis_info : Bytes → SonicDbKey → Call
  call_get_id_separator : ℤ → SonicDbKey → Call
  call_get_namespaces : Call

if_no {ℓ} : {A : Type ℓ} (b : Bool) (x y : A) → b ≡ false → (if b then x else y) ≡ y
if_no b x y h = ground arith

stored_entry :
    (c : Entries) (st : Config)
    → lookup empty_key (mark_init empty_key (assign empty_key c st)).db_info ≡ some c.db_entry
unfolding mark_init assign is_empty bytes_beq
stored_entry c st =
    lookup-insert empty_key empty_key c.db_entry st.db_info ∙ rw (eq_refl empty_key) refl

find_entry :
    (name : Bytes) (st : Config) (dbs : Databases)
    → lookup empty_key st.db_info ≡ some dbs
    → find_db_info name empty_key st ≡ found (lookup name dbs)
unfolding find_db_info check_key is_empty bytes_beq
find_entry name st dbs h = rw h (unfold found in refl)

module _ (f : Files) where
  -- The state behind `initialize`, whether it throws or not.
  behind : Config → Option Config → Config
  behind st none = st
  behind st (some st1) = st1

  unfoldable pub run_call : Call → Config → Config
  unfolding behind initialize initialize_global_config reset get_db_info get_redis_info
      get_id_separator get_namespaces
  run_call (call_initialize file) st = behind st (initialize f file st)
  run_call (call_initialize_global_config file ignore_nonexistent) st =
      (initialize_global_config f file ignore_nonexistent st).1
  run_call call_reset st = reset st
  run_call (call_get_db_info name key) st = (get_db_info f name key st).1
  run_call (call_get_redis_info name key) st = (get_redis_info f name key st).1
  run_call (call_get_id_separator id key) st = (get_id_separator f id key st).1
  run_call call_get_namespaces st = (get_namespaces f st).1

  unfoldable pub run_calls : List Call → Config → Config
  unfolding run_call
  run_calls [] st = st
  run_calls (call ∷ calls) st = run_calls calls (run_call call st)

  initialize-init :
      (file : Bytes) (st st1 : Config) → initialize f file st ≡ some st1 → st1.init ≡ true
  unfolding initialize first_load
  initialize-init file st st1 h = elim (Bool-cases st.init) [
    | inl on ↦ let h' = rw on at h in absurd cc
    | inr off ↦
        let (c, p, r) = bind-eq-some (parse_database_config f file false) _ (rw off at h) in
        let same : first_load c st ≡ st1 = cc in subst (λ (x : Config). x.init ≡ true) same refl
  ]

  started-IsValid :
      (st st1 : Config) → started f st ≡ some st1 → IsValid st → IsValid st1 × (st1.init ≡ true)
  unfolding started
  started-IsValid st st1 h v = elim (Bool-cases st.init) [
    | inl on ↦
        let same : st ≡ st1 = let h' = rw on at h in cc in
        (subst IsValid same v, subst (λ (x : Config). x.init ≡ true) same on)
    | inr off ↦
        let h' =
          sym (if_no st.init (some st) (initialize f default_sonic_db_config_file st) off) ∙ h in
        (
          initialize-IsValid f default_sonic_db_config_file st st1 h' v,
          initialize-init default_sonic_db_config_file st st1 h',
        )
  ]

  with_init-IsValid {ℓ} :
      {A : Type ℓ} (ask : Config → Outcome A) (st : Config)
      → IsValid st
      → IsValid (with_init f ask st).1
  unfolding with_init answer
  with_init-IsValid ask st v = elim (Option-cases (started f st)) [
    | inl e ↦ rw e v
    | inr (st1, e) ↦ let (v1, _) = started-IsValid st st1 e v in rw e v1
  ]

  behind-IsValid :
      (st : Config) (o : Option Config)
      → IsValid st
      → ((st1 : Config) → o ≡ some st1 → IsValid st1)
      → IsValid (behind st o)
  unfolding behind
  behind-IsValid st none v h = v
  behind-IsValid st (some st1) v h = h st1 refl

  run_call-IsValid : (call : Call) (st : Config) → IsValid st → IsValid (run_call call st)
  unfolding run_call get_db_info get_redis_info get_id_separator get_namespaces reset lookup
  run_call-IsValid (call_initialize file) st v =
      behind-IsValid st (initialize f file st) v (λ st1 e. initialize-IsValid f file st st1 e v)
  run_call-IsValid (call_initialize_global_config file ignore_nonexistent) st v =
      initialize_global_config-IsValid f file ignore_nonexistent st v
  run_call-IsValid call_reset st v = record {
    numbered = λ key dbs h. absurd cc;
    fresh = λ h. (refl, refl, refl);
  }
  run_call-IsValid (call_get_db_info name key) st v = with_init-IsValid (find_db_info name key) st v
  run_call-IsValid (call_get_redis_info name key) st v =
      with_init-IsValid (find_redis_info name key) st v
  run_call-IsValid (call_get_id_separator id key) st v =
      with_init-IsValid (find_separator id key) st v
  run_call-IsValid call_get_namespaces st v = with_init-IsValid _ st v

  -- After any calls the databases of each key have a separator under their number, and nothing is
  -- stored for the empty key before `m_init` is set, so that loading the default file takes effect.
  pub run_calls-IsValid :
      (calls : List Call) (st : Config) → IsValid st → IsValid (run_calls calls st)
  unfolding run_calls
  run_calls-IsValid [] st v = v
  run_calls-IsValid (call ∷ calls) st v =
      run_calls-IsValid calls (run_call call st) (run_call-IsValid call st v)

  answered {ℓ} :
      {A : Type ℓ} (ask : Config → Outcome A) (st st1 : Config) (a : A)
      → with_init f ask st ≡ (returned a, st1)
      → (started f st ≡ some st1) × (ask st1 ≡ returned a)
  unfolding with_init answer
  answered ask st st1 a h = elim (Option-cases (started f st)) [
    | inl e ↦ let h' = rw e at h in absurd cc
    | inr (st2, e) ↦
        let h' = rw e at h in
        let same : st2 ≡ st1 = cc in
        let a' : ask st2 ≡ returned a = cc in
        (e ∙ ap (λ x. some x) same, subst (λ x. ask x ≡ returned a) same a')
  ]

  started_again : (st : Config) → st.init ≡ true → started f st ≡ some st
  unfolding started
  started_again st on = rw on refl

  found-returned {ℓ} : {A : Type ℓ} (o : Option A) (a : A) → found o ≡ returned a → o ≡ some a
  unfolding found
  found-returned none a h = cc
  found-returned (some b) a h = cc

  -- A database that is found by its name has a separator that is found by its number.
  pub get_db_info-get_id_separator :
      (name : Bytes) (key : SonicDbKey) (info : SonicDbInfo) (st st1 : Config)
      → IsValid st
      → get_db_info f name key st ≡ (returned info, st1)
      → (sep : Bytes) × (get_id_separator f info.db_id key st1 ≡ (returned sep, st1))
  unfolding get_db_info get_id_separator with_init answer find_db_info find_separator found
  get_db_info-get_id_separator name key info st st1 v h =
      let (e, asked) = answered (find_db_info name key) st st1 info h in
      let (v1, on) = started-IsValid st st1 e v in
      let (ok, checked, h1) = bind-eq-returned (check_key key st1) _ asked in
      let (dbs, f1, h2) = bind-eq-returned (found (lookup key st1.db_info)) _ h1 in
      let (seps, f2, numbered) = v1.numbered key dbs (found-returned _ dbs f1) in
      let (sep, f3) = numbered name info (found-returned _ info h2) in
      (sep, rw (started_again st1 on, checked, f2, f3) refl)

  -- What a file that is loaded first says of its databases is what lookups with the empty key find,
  -- and a database that it does not have is `out_of_range`.
  pub get_db_info-initialize :
      (file name : Bytes) (st st1 : Config)
      → IsValid st
      → initialize f file st ≡ some st1
      → (c : Entries) × (parse_database_config f file false ≡ some c)
        × (get_db_info f name empty_key st1 ≡ (found (lookup name c.db_entry), st1))
  unfolding initialize get_db_info with_init answer
  get_db_info-initialize file name st st1 v h = elim (Bool-cases st.init) [
    | inl on ↦ let h' = rw on at h in absurd cc
    | inr off ↦
        let (c, p, r) = bind-eq-some (parse_database_config f file false) _ (rw off at h) in
        let same : mark_init empty_key (assign empty_key c st) ≡ st1 =
          let e = first_load_fresh c st (v.fresh off) in cc in
        let on = initialize-init file st st1 h in
        let entry =
          subst (λ (x : Config). lookup empty_key x.db_info ≡ some c.db_entry) same
            (stored_entry c st) in
        (c, p, rw (started_again st1 on, find_entry name st1 c.db_entry entry) refl)
  ]
