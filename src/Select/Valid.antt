-- ===== src/Select/Valid.antt =====
-- `m_ready` is in order, without objects that the set takes for the same, and holds registered
-- objects only.
use mathlib.Core.Bool.{Bool, true, false}
use sonic_swss_common.Prelude.{
  ℕ, zero, suc, List, [], ◌∷◌, Option, none, some, ◌≡◌, refl, subst, sym, arith, nat_eq, eq_iff,
  All, inl, inr, Bool-cases, Option-cases, lookup,
}
use sonic_swss_common.Select.{
  Selectable, Select, make_ready, read_events, update_last_used_time, hand_out, ready_loop,
  after_events, poll_descriptors, Result, Waited, failed, events,
}
use sonic_swss_common.Select.Steps.{
  after_read, taken_out, read_events_unknown, read_events_read, read_events_failed, ready_loop_skip,
  ready_loop_take,
}
use sonic_swss_common.Select.Ordered.{
  Sorted, insert_ready-Sorted, insert_ready-All, Sorted-update, contains-Behind,
}

module _ {S : Type 0} (class : Selectable S) (clock : ℕ → ℕ) where
  open class use {read_data, has_data, has_cached_data, initialized_with_data, update_after_read}

  -- The descriptor of the object leads to it.
  abbrev pub Registered : Select class clock → ℕ → Type 0
  Registered st a = lookup (st.bases a).fd st.objects ≡ some a

  pub record IsValid (st : Select class clock) : Type 0 where
    pub sorted : Sorted st.bases st.ready
    pub owned : All (Registered st) st.ready
    pub consistent : (fd a : ℕ) → lookup fd st.objects ≡ some a → (st.bases a).fd ≡ fd

  pub make_ready-IsValid :
      (a : ℕ) (st : Select class clock)
      → Registered st a
      → IsValid st
      → IsValid (make_ready class clock a st)
  unfolding make_ready
  make_ready-IsValid a st reg v = record {
    sorted = insert_ready-Sorted st.bases a st.ready v.sorted;
    owned = insert_ready-All st.bases (Registered st) a st.ready reg v.owned;
    consistent = v.consistent;
  }

  pub states-IsValid :
      (states : ℕ → S) (st : Select class clock)
      → IsValid st
      → IsValid (record st { states = states })
  states-IsValid states st v = record {
    sorted = v.sorted;
    owned = v.owned;
    consistent = v.consistent;
  }

  pub read_events-IsValid :
      (fds : List ℕ) (st : Select class clock)
      → IsValid st
      → IsValid (read_events class clock fds st).1
  unfolding read_events
  read_events-IsValid [] st v = v
  read_events-IsValid (fd ∷ fds) st v = elim (Option-cases (lookup fd st.objects)) [
    | inl unknown ↦
        subst (λ (r : Option Result × Select class clock). IsValid r.1)
          (sym (read_events_unknown class clock fd 0 fds st unknown)) v
    | inr (a, known) ↦ elim (Bool-cases (read_data (st.states a)).0) [
      | inl ok ↦
          subst (λ (r : Option Result × Select class clock). IsValid r.1)
            (sym (read_events_read class clock fd a fds st known ok))
            (read_events-IsValid fds (make_ready class clock a (after_read class clock a st)) (
              make_ready-IsValid a (after_read class clock a st) (ground (arith, v.consistent fd a))
                (states-IsValid _ st v)))
      | inr bad ↦
          subst (λ (r : Option Result × Select class clock). IsValid r.1)
            (sym (read_events_failed class clock fd a fds st known bad)) (states-IsValid _ st v)
    ]
  ]

  pub Registered-taken_out :
      (a : ℕ) (rest xs : List ℕ) (st : Select class clock)
      → All (Registered st) xs
      → All (Registered (taken_out class clock a rest st)) xs
  unfolding update_last_used_time
  Registered-taken_out a rest [] st h = tt
  Registered-taken_out a rest (x ∷ xs) st (h, hs) =
      (ground (arith, eq_iff a x), Registered-taken_out a rest xs st hs)

  pub taken_out-IsValid :
      (a : ℕ) (rest : List ℕ) (st : Select class clock)
      → st.ready ≡ a ∷ rest
      → IsValid st
      → IsValid (taken_out class clock a rest st)
  unfolding update_last_used_time
  taken_out-IsValid a rest st e v =
      let s : Sorted st.bases (a ∷ rest) = subst (Sorted st.bases) e v.sorted in
      let o : All (Registered st) (a ∷ rest) = subst (All (Registered st)) e v.owned in
      record {
        sorted = Sorted-update st.bases a _ rest (contains-Behind st.bases a rest s.0) s.1;
        owned = Registered-taken_out a rest rest st o.1;
        consistent = λ fd x h. ground (arith, v.consistent fd x, eq_iff a x);
      }

  pub hand_out-IsValid :
      (a : ℕ) (st : Select class clock)
      → Registered st a
      → IsValid st
      → IsValid (hand_out class clock a st)
  unfolding hand_out
  hand_out-IsValid a st reg v = elim (Bool-cases (has_cached_data (st.states a))) [
    | inl more ↦ rw more (states-IsValid _ _ (make_ready-IsValid a st reg v))
    | inr all ↦ rw all (states-IsValid _ st v)
  ]

  ready_loop-IsValid :
      (ready : List ℕ) (st : Select class clock)
      → st.ready ≡ ready
      → IsValid st
      → IsValid (ready_loop class clock ready st).1
  ready_loop-IsValid [] st e v = unfold ready_loop in v
  ready_loop-IsValid (a ∷ rest) st e v =
      let out : IsValid (taken_out class clock a rest st) = taken_out-IsValid a rest st e v in
      let o : All (Registered st) (a ∷ rest) = subst (All (Registered st)) e v.owned in
      elim (Bool-cases (has_data (st.states a))) [
        | inl there ↦
            subst (λ (r : Result × Select class clock). IsValid r.1)
              (sym (ready_loop_take class clock a rest st there))
              (hand_out-IsValid a (taken_out class clock a rest st)
                (Registered-taken_out a rest (a ∷ []) st (o.0, tt)).0 out)
        | inr empty ↦
            subst (λ (r : Result × Select class clock). IsValid r.1)
              (sym (ready_loop_skip class clock a rest st empty))
              (ready_loop-IsValid rest (taken_out class clock a rest st)
                (unfold update_last_used_time in refl) out)
      ]

  after_events-IsValid :
      (o : Option Result) (st : Select class clock)
      → IsValid st
      → IsValid (after_events class clock (o, st)).1
  unfolding after_events
  after_events-IsValid (some result) st v = v
  after_events-IsValid none st v = ready_loop-IsValid st.ready st refl v

  pub poll_descriptors-IsValid :
      (signals : ℕ) (outcome : Waited) (stop : Bool) (st : Select class clock)
      → IsValid st
      → IsValid (poll_descriptors class clock signals outcome stop st).1
  unfolding poll_descriptors
  poll_descriptors-IsValid (suc signals) outcome true st v = v
  poll_descriptors-IsValid (suc signals) outcome false st v =
      poll_descriptors-IsValid signals outcome false st v
  poll_descriptors-IsValid zero failed stop st v = v
  poll_descriptors-IsValid zero (events fds) stop st v =
      after_events-IsValid (read_events class clock fds st).0 (read_events class clock fds st).1
        (read_events-IsValid fds st v)
