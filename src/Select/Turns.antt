-- ===== src/Select/Turns.antt =====
-- What one call does to an object that waits in `m_ready` with data.
use mathlib.Core.Bool.{true, false}
use sonic_swss_common.Prelude.{
  ℕ, ◌+◌, ◌≤◌, ◌<◌, List, [], ◌∷◌, ◌≡◌, ◌≢◌, ◌⊎◌, refl, subst, sym, ap, ◌∙◌, arith, ◌==◌, nat_eq,
  eq_iff, All, contains, inl, inr, Bool-cases,
}
use sonic_swss_common.Select.{
  Selectable, Base, before, Select, make_ready, update_last_used_time, hand_out, ready_loop, Result,
  object,
}
use sonic_swss_common.Select.Steps.{taken_out, ready_loop_skip, ready_loop_take}
use sonic_swss_common.Select.Ordered.{Sorted, Behind-contains, contains-insert_ready}
use sonic_swss_common.Select.Valid.{
  Registered, IsValid, taken_out-IsValid, hand_out-IsValid, Registered-taken_out,
}

module _ {S : Type 0} (class : Selectable S) (clock : ℕ → ℕ) (s : ℕ) where
  open class use {read_data, has_data, has_cached_data, update_after_read}

  -- The object `s` waits with data, no registered object has a higher priority, and the clock is
  -- past the last turn of each.
  pub record Waiting (st : Select class clock) : Type 0 where
    pub valid : IsValid class clock st
    pub there : contains st.ready s ≡ true
    pub full : has_data (st.states s) ≡ true
    pub top : (x : ℕ) → Registered class clock st x → (st.bases x).priority ≤ (st.bases s).priority
    pub past : (x : ℕ) → Registered class clock st x → (st.bases x).last_used < clock st.readings

  -- Another object `a` has had its turn, and comes behind `s` from now on, as do all that did.
  pub record Passed (a : ℕ) (st end : Select class clock) : Type 0 where
    pub waiting : Waiting end
    pub objects : end.objects ≡ st.objects
    pub registered : Registered class clock st a
    pub later :
        (x : ℕ)
        → before (end.bases x) (end.bases s) ≡ true
        → before (st.bases x) (st.bases s) ≡ true
    pub was : before (st.bases a) (st.bases s) ≡ true
    pub now : before (end.bases a) (end.bases s) ≡ false

  abbrev pub Turn : Select class clock → Result × Select class clock → Type 0
  Turn st r = (a : ℕ) × (r.0 ≡ object a) × ((a ≡ s) ⊎ Passed a st r.1)

  module _ (ticks : (n : ℕ) → clock n < clock (n + 1)) where
    taken_out-Waiting :
        (a : ℕ) (rest : List ℕ) (st : Select class clock)
        → st.ready ≡ a ∷ rest
        → a ≢ s
        → Waiting st
        → Waiting (taken_out class clock a rest st)
    unfolding update_last_used_time contains
    taken_out-Waiting a rest st e other w = record {
      valid = taken_out-IsValid class clock a rest st e w.valid;
      there = ground (arith, w.there, ap (λ (l : List ℕ). contains l s) e, eq_iff a s);
      full = w.full;
      top = λ x reg. ground (arith, w.top x, eq_iff a x, eq_iff a s);
      past = λ x reg. ground (arith, w.past x, ticks st.readings, eq_iff a x);
    }

    taken_out-later :
        (a : ℕ) (rest : List ℕ) (st : Select class clock) (x : ℕ)
        → a ≢ s
        → Registered class clock st a
        → Registered class clock st s
        → Waiting st
        → before
            ((taken_out class clock a rest st).bases x)
            ((taken_out class clock a rest st).bases s)
          ≡ true
        → before (st.bases x) (st.bases s) ≡ true
    unfolding update_last_used_time before
    taken_out-later a rest st x other reg reg_s w h =
        ground (arith, w.top a, w.past s, eq_iff a x, eq_iff a s)

    taken_out-now :
        (a : ℕ) (rest : List ℕ) (st : Select class clock)
        → a ≢ s
        → Registered class clock st a
        → Registered class clock st s
        → Waiting st
        → before
            ((taken_out class clock a rest st).bases a)
            ((taken_out class clock a rest st).bases s)
          ≡ false
    unfolding update_last_used_time before
    taken_out-now a rest st other reg reg_s w =
        ground (arith, w.top a, w.past s, eq_iff a a, eq_iff a s)

    hand_out-Waiting :
        (a : ℕ) (st : Select class clock)
        → a ≢ s
        → Registered class clock st a
        → Waiting st
        → Waiting (hand_out class clock a st)
    unfolding hand_out make_ready
    hand_out-Waiting a st other reg w = record {
      valid = hand_out-IsValid class clock a st reg w.valid;
      there = ground (arith, w.there, contains-insert_ready st.bases a s st.ready);
      full = ground (arith, w.full, eq_iff a s);
      top = λ x reg'. ground (arith, w.top x);
      past = λ x reg'. ground (arith, w.past x);
    }

    All-contains : (P : ℕ → Type 0) (xs : List ℕ) (x : ℕ) → All P xs → contains xs x ≡ true → P x
    unfolding contains
    All-contains P [] x h there = cc
    All-contains P (y ∷ ys) x (h, hs) there = elim (Bool-cases (y == x)) [
      | inl same ↦ subst P ((eq_iff y x).0 same) h
      | inr other ↦ All-contains P ys x hs (ground arith)
    ]

    pub Registered-waiting : (st : Select class clock) → Waiting st → Registered class clock st s
    Registered-waiting st w =
        All-contains (Registered class clock st) st.ready s w.valid.owned w.there

    -- An object without data has had its turn, and then another.
    Passed-skip :
        (a : ℕ) (rest : List ℕ) (st : Select class clock) (r : Result × Select class clock)
        → a ≢ s
        → Registered class clock st a
        → Waiting st
        → Turn (taken_out class clock a rest st) r
        → Turn st r
    unfolding update_last_used_time
    Passed-skip a rest st r other reg w (b, returned, inl served) = (b, returned, inl served)
    Passed-skip a rest st r other reg w (b, returned, inr p) = (
      b,
      returned,
      inr (record {
        waiting = p.waiting;
        objects = p.objects;
        registered = ground (arith, p.registered, eq_iff a b);
        later =
            λ x h. taken_out-later a rest st x other reg (Registered-waiting st w) w (p.later x h);
        was = taken_out-later a rest st b other reg (Registered-waiting st w) w p.was;
        now = p.now;
      }),
    )

    hand_out_keeps :
        (a : ℕ) (st : Select class clock)
        → ((hand_out class clock a st).bases ≡ st.bases)
          × ((hand_out class clock a st).objects ≡ st.objects)
    unfolding hand_out make_ready
    hand_out_keeps a st = elim (Bool-cases (has_cached_data (st.states a))) [
      | inl more ↦ (rw more refl, rw more refl)
      | inr all ↦ (rw all refl, rw all refl)
    ]

    head-before :
        (a : ℕ) (rest : List ℕ) (st : Select class clock)
        → st.ready ≡ a ∷ rest
        → a ≢ s
        → Waiting st
        → before (st.bases a) (st.bases s) ≡ true
    unfolding contains
    head-before a rest st e other w =
        let sorted : Sorted st.bases (a ∷ rest) = subst (Sorted st.bases) e w.valid.sorted in
        let there : contains rest s ≡ true =
          ground (arith, w.there, ap (λ (l : List ℕ). contains l s) e, eq_iff a s) in
        Behind-contains st.bases a s rest sorted.0 there

    Passed-take :
        (a : ℕ) (rest : List ℕ) (st : Select class clock)
        → st.ready ≡ a ∷ rest
        → a ≢ s
        → Registered class clock st a
        → Waiting st
        → Passed a st (hand_out class clock a (taken_out class clock a rest st))
    Passed-take a rest st e other reg w =
        let (bases, objects) = hand_out_keeps a (taken_out class clock a rest st) in
        let reg_s = Registered-waiting st w in
        record {
          waiting =
              hand_out-Waiting a (taken_out class clock a rest st) other
                (Registered-taken_out class clock a rest (a ∷ []) st (reg, tt)).0
                (taken_out-Waiting a rest st e other w);
          objects = objects ∙ (unfold update_last_used_time in refl);
          registered = reg;
          later = λ x h.
              taken_out-later a rest st x other reg reg_s w
                (subst (λ (b : ℕ → Base). before (b x) (b s) ≡ true) bases h);
          was = head-before a rest st e other w;
          now =
              subst (λ (b : ℕ → Base). before (b a) (b s) ≡ false) (sym bases)
                (taken_out-now a rest st other reg reg_s w);
        }

    head-Registered :
        (a : ℕ) (rest : List ℕ) (st : Select class clock)
        → st.ready ≡ a ∷ rest
        → Waiting st
        → Registered class clock st a
    head-Registered a rest st e w = (subst (All (Registered class clock st)) e w.valid.owned).0

    pub ready_loop-Turn :
        (ready : List ℕ) (st : Select class clock)
        → st.ready ≡ ready
        → Waiting st
        → Turn st (ready_loop class clock ready st)
    unfolding contains
    ready_loop-Turn [] st e w = ground (arith, w.there, ap (λ (l : List ℕ). contains l s) e)
    ready_loop-Turn (a ∷ rest) st e w = elim (Bool-cases (has_data (st.states a))) [
      | inl full ↦ subst (Turn st) (sym (ready_loop_take class clock a rest st full)) (
        a,
        refl,
        elim (Bool-cases (a == s)) [
          | inl same ↦ inl ((eq_iff a s).0 same)
          | inr other ↦ inr (
              Passed-take a rest st e (ground (arith, eq_iff a s)) (head-Registered a rest st e w)
                w)
        ],
      )
      | inr empty ↦
          let other : a ≢ s = (λ (same : a ≡ s).
            ground (arith, w.full, ap (λ (x : ℕ). has_data (st.states x)) same)) in
          subst (Turn st) (sym (ready_loop_skip class clock a rest st empty)) (
            Passed-skip a rest st _ other (head-Registered a rest st e w) w (
              ready_loop-Turn rest (taken_out class clock a rest st)
                (unfold update_last_used_time in refl) (taken_out-Waiting a rest st e other w)))
    ]
