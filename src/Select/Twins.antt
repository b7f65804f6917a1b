-- ===== src/Select/Twins.antt =====
-- Objects of one priority whose last turn is the same: the set takes them for one.
use mathlib.Core.Bool.{true, false}
use sonic_swss_common.Prelude.{
  ℕ, List, [], ◌∷◌, none, some, ◌≡◌, ◌≢◌, refl, sym, ap, ◌∙◌, arith, nat_eq, eq_iff, lookup,
}
use sonic_swss_common.Select.{
  Selectable, Base, before, update, insert_ready, Select, make_ready, read_events,
  update_last_used_time, hand_out, ready_loop, after_events, poll_descriptors, events, object,
  timeout,
}
use sonic_swss_common.Select.Steps.{taken_out, ready_loop_take}

-- The same priority and the same last turn.
abbrev pub AreTwins : Base → Base → Type 0
AreTwins a b = (a.priority ≡ b.priority) × (a.last_used ≡ b.last_used)

before_twins : (a b : Base) → AreTwins a b → before a b ≡ false
unfolding before
before_twins a b (p, t) = ground arith

insert_twin :
    (bases : ℕ → Base) (a b : ℕ)
    → AreTwins (bases a) (bases b)
    → insert_ready bases b (a ∷ []) ≡ a ∷ []
unfolding insert_ready
insert_twin bases a b (p, t) = ground (
  arith,
  before_twins (bases a) (bases b) (p, t),
  before_twins (bases b) (bases a) (sym p, sym t),
)

module _ {S : Type 0} (class : Selectable S) (clock : ℕ → ℕ) where
  open class use {read_data, has_data, has_cached_data, update_after_read}

  module _ (fa fb a b : ℕ) (st : Select class clock) (idle : st.ready ≡ [])
      (at_a : lookup fa st.objects ≡ some a) (at_b : lookup fb st.objects ≡ some b) (other : a ≢ b)
      (twins : AreTwins (st.bases a) (st.bases b)) (reads_a : (read_data (st.states a)).0 ≡ true)
      (reads_b : (read_data (st.states b)).0 ≡ true) where
    both_read : Select class clock
    both_read = record st {
      states =
          update (update st.states a (read_data (st.states a)).1) b (read_data (st.states b)).1;
      ready = a ∷ [];
    }

    read_both : read_events class clock (fa ∷ fb ∷ []) st ≡ (none, both_read)
    unfolding both_read make_ready read_events insert_ready
    read_both = ground (
      arith,
      idle,
      at_a,
      at_b,
      reads_a,
      reads_b,
      eq_iff a b,
      before_twins (st.bases a) (st.bases b) twins,
      before_twins (st.bases b) (st.bases a) (sym twins.0, sym twins.1),
    )

    end_state : Select class clock
    end_state = hand_out class clock a (taken_out class clock a [] both_read)

    end_ready : has_cached_data (read_data (st.states a)).1 ≡ false → end_state.ready ≡ []
    unfolding end_state both_read hand_out update_last_used_time
    end_ready no_more = ground (arith, eq_iff a b, eq_iff b a, eq_iff a a)

    end_states :
        has_cached_data (read_data (st.states a)).1 ≡ false
        → end_state.states b ≡ (read_data (st.states b)).1
    unfolding end_state both_read hand_out update_last_used_time
    end_states no_more = ground (arith, eq_iff a b, eq_iff b a, eq_iff a a, eq_iff b b)

    -- Of two ready objects of one priority and one last turn only the first is remembered. With
    -- nothing ready before, and events for both, a call of `poll_descriptors` has both read their
    -- data, and returns the first; if that has no more in its cache, the next poll that finds no new
    -- event returns nothing, though the second object still has what it has read.
    pub twin_forgotten :
        has_data (read_data (st.states a)).1 ≡ true
        → has_cached_data (read_data (st.states a)).1 ≡ false
        → (end : Select class clock) × (poll_descriptors class clock 0
              (events (fa ∷ fb ∷ []))
              false
              st
            ≡ (object a, end))
          × (end.states b ≡ (read_data (st.states b)).1)
          × ((poll_descriptors class clock 0 (events []) false end).0 ≡ timeout)
    unfolding poll_descriptors after_events both_read end_state
    twin_forgotten full no_more =
        let full_a : has_data (both_read.states a) ≡ true =
          ground (arith, full, eq_iff a b, eq_iff b a, eq_iff a a) in
        (
          end_state,
          ap (after_events class clock) read_both
              ∙ ready_loop_take class clock a [] both_read full_a,
          end_states no_more,
          ap (λ (l : List ℕ). (ready_loop class clock l end_state).0) (end_ready no_more)
              ∙ (unfold ready_loop in refl),
        )
