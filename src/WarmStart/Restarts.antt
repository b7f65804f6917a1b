-- ===== src/WarmStart/Restarts.antt =====
-- `checkWarmStart` over the restarts of an application. Each restart begins with a new process, in
-- which neither flag is set.
use mathlib.Core.Bool.{Bool, true, false, ◌&&◌}
use sonic_swss_common.Prelude.{
  ℕ, zero, suc, ◌+◌, ◌%◌, ◌^◌, ◌<◌, [], ◌∷◌, Option, some, Bytes, bytes_eq, bytes_beq, codes, ◌≡◌,
  ◌≢◌, ◌⊎◌, refl, ap, ◌∙◌, arith, ◌==◌, eq_iff, eq_refl, nat_eq, inl, inr, Lacks,
}
use sonic_swss_common.Decimal.{to_string}
use sonic_swss_common.Decimal.RoundTrip.{
  stoul-to_string, to_string-Lacks, to_string-StartsWithDigit, StartsWithDigit,
}
use sonic_swss_common.Redis.{Redis}
use sonic_swss_common.StateTable.Names.{key_name}
use sonic_swss_common.PlainTable.{strip_special_sym}
use sonic_swss_common.WarmStart.{
  WarmStart, restart_table, enable_table, read_field, write_field, write_count, read_knobs, decide,
  check_warm_start,
}
use sonic_swss_common.WarmStart.Stored.{read-write}

strip_free : (s : Bytes) → Lacks b'@' s → strip_special_sym s ≡ s
unfolding strip_special_sym
strip_free [] h = refl
strip_free (c ∷ s) (ne, h) = ground (arith, strip_free s h, eq_iff c b'@')

strip-to_string : (n : ℕ) → strip_special_sym (to_string n) ≡ to_string n
strip-to_string n = strip_free (to_string n) (to_string-Lacks b'@' n (omega arith))

not_empty : (s : Bytes) → StartsWithDigit s → (s == []) ≡ false
not_empty [] h = absurd h
not_empty (c ∷ s) h = unfold bytes_beq in refl

count_field : (codes "restore_count" == codes "enable") ≡ false
unfolding bytes_beq
count_field = refl

module _ (r : Redis) (separator : Bytes) (app docker : Bytes) where
  abbrev pub State : Type 0
  State = WarmStart r separator

  abbrev pub knob : Bytes → State → Bytes
  knob name w = read_field r separator (enable_table r separator) name (codes "enable") w.state_db

  abbrev pub count_of : State → Bytes
  count_of w =
      read_field r separator (restart_table r separator) app (codes "restore_count") w.state_db

  -- One of the knobs is on.
  abbrev pub KnobOn : State → Type 0
  KnobOn w = (knob (codes "system") w ≡ codes "true") ⊎ (knob docker w ≡ codes "true")

  unfoldable pub restart : State → Option Bool × State
  restart w =
      check_warm_start r separator app docker true
        (record w { enabled = false; system_warm_reboot_enabled = false })

  -- Whether each of so many restarts is a warm one, and what is left.
  unfoldable pub all_warm : ℕ → State → Bool
  all_warm zero w = true
  all_warm (suc k) w =
      (elim (restart w).0 [ some true ↦ true | _ ↦ false ]) && all_warm k (restart w).1

  unfoldable pub restarts : ℕ → State → State
  restarts zero w = w
  restarts (suc k) w = restarts k (restart w).1

  count-write_count :
      (n : ℕ) (w : State) → count_of (write_count r separator app (to_string n) w) ≡ to_string n
  unfolding write_count
  count-write_count n w = ground (
    arith,
    read-write r separator (restart_table r separator) (restart_table r separator) app
        (codes "restore_count") (to_string n) app (codes "restore_count") w.state_db,
    eq_refl (key_name (restart_table r separator) app),
    eq_refl (codes "restore_count"),
    strip-to_string n,
  )

  knob-write_count :
      (name : Bytes) (count : Bytes) (w : State)
      → knob name (write_count r separator app count w) ≡ knob name w
  unfolding write_count
  knob-write_count name count w = ground (
    arith,
    read-write r separator (restart_table r separator) (enable_table r separator) app
        (codes "restore_count") count name (codes "enable") w.state_db,
    count_field,
  )

  -- The process after the restart, with both knobs read.
  abbrev started : State → State
  started w =
      read_knobs r separator docker
        (record w { enabled = false; system_warm_reboot_enabled = false })

  started-enabled : (w : State) → KnobOn w → (started w).enabled ≡ true
  unfolding read_knobs
  started-enabled w (inl system) = ground (arith, eq_iff (knob (codes "system") w) (codes "true"))
  started-enabled w (inr docker_on) = ground (arith, eq_iff (knob docker w) (codes "true"))

  decide_warm :
      (n : ℕ) (v : State)
      → n < 2 ^ 32
      → v.enabled ≡ true
      → decide r separator app true (to_string n) v
        ≡ (some true, write_count r separator app (to_string ((n + 1) % 2 ^ 32)) v)
  unfolding decide
  decide_warm n v lt on = ground (
    arith,
    not_empty (to_string n) (to_string-StartsWithDigit n),
    stoul-to_string n,
    ap to_string (counted n lt),
  )
    where
      counted : (n : ℕ) → n < 2 ^ 32 → (n % 2 ^ 32 + 1) % 2 ^ 32 ≡ (n + 1) % 2 ^ 32
      counted n lt = omega arith

  restart_warm :
      (n : ℕ) (w : State)
      → n < 2 ^ 32
      → KnobOn w
      → count_of w ≡ to_string n
      → restart w
        ≡ (some true, write_count r separator app (to_string ((n + 1) % 2 ^ 32)) (started w))
  unfolding restart check_warm_start
  restart_warm n w lt on count =
      ap (λ (value : Bytes). decide r separator app true value (started w)) count
      ∙ decide_warm n (started w) lt (started-enabled w on)

  KnobOn-same : (w v : State) → ((name : Bytes) → knob name v ≡ knob name w) → KnobOn w → KnobOn v
  KnobOn-same w v same (inl system) = inl (same (codes "system") ∙ system)
  KnobOn-same w v same (inr docker_on) = inr (same docker ∙ docker_on)

  after_warm :
      (m : ℕ) (w : State)
      → KnobOn w
      → KnobOn (write_count r separator app (to_string m) (started w))
        × (count_of (write_count r separator app (to_string m) (started w)) ≡ to_string m)
  after_warm m w on = (
    KnobOn-same w (write_count r separator app (to_string m) (started w))
        (λ name. knob-write_count name (to_string m) (started w) ∙ (unfold read_knobs in refl)) on,
    count-write_count m (started w),
  )

  -- While one of the two knobs is on and the restore count is a number of 32 bits, as `checkWarmStart`
  -- itself writes it, every one of the next restarts of the application is a warm one, and the count
  -- goes up by one at each, modulo 2^32.
  pub restarts_warm :
      (k n : ℕ) (w : State)
      → n < 2 ^ 32
      → KnobOn w
      → count_of w ≡ to_string n
      → (all_warm k w ≡ true) × (count_of (restarts k w) ≡ to_string ((n + k) % 2 ^ 32))
  unfolding all_warm restarts
  restarts_warm zero n w lt on count = (refl, count ∙ ap to_string (omega arith))
  restarts_warm (suc k) n w lt on count =
      let next = (n + 1) % 2 ^ 32 in
      let w1 : State = write_count r separator app (to_string next) (started w) in
      let (on1, count1) = after_warm next w on in
      let (warm, counted) = restarts_warm k next w1 (omega arith) on1 count1 in
      let e = restart_warm n w lt on count in
      (
        ground (arith, warm, e),
        ap (λ (x : Option Bool × State). count_of (restarts k x.1)) e
            ∙ counted
            ∙ ap to_string (omega arith),
      )

  started-disabled :
      (w : State)
      → ((knob (codes "system") w ≢ codes "true") × (knob docker w ≢ codes "true"))
      → (started w).enabled ≡ false
  unfolding read_knobs
  started-disabled w (system, docker_off) = ground (
    arith,
    eq_iff (knob (codes "system") w) (codes "true"),
    eq_iff (knob docker w) (codes "true"),
  )

  started-flags :
      (w : State) → (started w).enabled ≡ false → (started w).system_warm_reboot_enabled ≡ false
  unfolding read_knobs
  started-flags w off = ground arith

  decide_cold :
      (value : Bytes) (v : State)
      → (v.enabled ≡ false → v.system_warm_reboot_enabled ≡ false)
      → (v.enabled ≡ false) ⊎ (value ≡ [])
      → ((decide r separator app true value v).0 ≡ some false)
        × ((decide r separator app true value v).1.state_db
            ≡ write_field r separator
                (restart_table r separator)
                app
                (codes "restore_count")
                (codes "0")
                v.state_db)
        × ((decide r separator app true value v).1.enabled ≡ false)
        × ((decide r separator app true value v).1.system_warm_reboot_enabled ≡ false)
  unfolding decide write_count
  decide_cold value v flags (inl off) =
      (ground arith, ground arith, ground arith, ground (arith, flags off))
  decide_cold value v flags (inr missing) =
      let empty : (value == []) ≡ true = (eq_iff value []).1 missing in
      (
        ground (arith, empty),
        ground (arith, empty),
        ground (arith, empty),
        ground (arith, empty, flags),
      )

  count_zero :
      (v w : State)
      → v.state_db
        ≡ write_field r separator
            (restart_table r separator)
            app
            (codes "restore_count")
            (codes "0")
            w.state_db
      → count_of v ≡ codes "0"
  unfolding strip_special_sym
  count_zero v w e =
      ap (read_field r separator (restart_table r separator) app (codes "restore_count")) e
      ∙ ground (
        arith,
        read-write r separator (restart_table r separator) (restart_table r separator) app
            (codes "restore_count") (codes "0") app (codes "restore_count") w.state_db,
        eq_refl (key_name (restart_table r separator) app),
        eq_refl (codes "restore_count"),
      )

  -- A restart is a cold one if both knobs are off, or if there is no restore count, as after the
  -- database was flushed: then neither flag is set, and the count is 0 afterwards.
  pub restart_cold :
      (w : State)
      → ((knob (codes "system") w ≢ codes "true") × (knob docker w ≢ codes "true"))
        ⊎ (count_of w ≡ [])
      → ((restart w).0 ≡ some false)
        × (count_of (restart w).1 ≡ codes "0")
        × ((restart w).1.enabled ≡ false)
        × ((restart w).1.system_warm_reboot_enabled ≡ false)
  unfolding restart check_warm_start
  restart_cold w h =
      let (cold, written, off, system_off) =
        decide_cold (count_of w) (started w) (started-flags w)
          (elim h [ inl knobs ↦ inl (started-disabled w knobs) | inr missing ↦ inr missing ]) in
      (cold, count_zero (restart w).1 (started w) written, off, system_off)
