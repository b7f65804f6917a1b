-- ===== src/Select/Steps.antt =====
-- One step of each loop of `poll_descriptors`, as equations.
use mathlib.Core.Bool.{true, false}
use sonic_swss_common.Prelude.{ℕ, List, ◌∷◌, none, some, ◌≡◌, arith, lookup, nat_eq}
use sonic_swss_common.Select.{
  Selectable, update, Select, make_ready, read_events, update_last_used_time, hand_out, ready_loop,
  object, error, undefined,
}

module _ {S : Type 0} (class : Selectable S) (clock : ℕ → ℕ) where
  -- The object has read what has arrived for it.
  abbrev pub after_read : ℕ → Select class clock → Select class clock
  after_read a st = record st { states = update st.states a (class.read_data (st.states a)).1 }

  -- The object has left `m_ready`, of which `rest` is left.
  abbrev pub taken_out : ℕ → List ℕ → Select class clock → Select class clock
  taken_out a rest st = update_last_used_time class clock a (record st { ready = rest })

  module _ (fd a : ℕ) (fds : List ℕ) (st : Select class clock) where
    pub read_events_unknown :
        lookup fd st.objects ≡ none → read_events class clock (fd ∷ fds) st ≡ (some undefined, st)
    unfolding read_events
    read_events_unknown h = ground arith

    pub read_events_read :
        lookup fd st.objects ≡ some a
        → (class.read_data (st.states a)).0 ≡ true
        → read_events class clock (fd ∷ fds) st
          ≡ read_events class clock fds (make_ready class clock a (after_read a st))
    unfolding read_events
    read_events_read h ok = ground arith

    pub read_events_failed :
        lookup fd st.objects ≡ some a
        → (class.read_data (st.states a)).0 ≡ false
        → read_events class clock (fd ∷ fds) st ≡ (some error, after_read a st)
    unfolding read_events
    read_events_failed h ok = ground arith

  module _ (a : ℕ) (rest : List ℕ) (st : Select class clock) where
    pub ready_loop_skip :
        class.has_data (st.states a) ≡ false
        → ready_loop class clock (a ∷ rest) st ≡ ready_loop class clock rest (taken_out a rest st)
    unfolding ready_loop update_last_used_time
    ready_loop_skip h = ground arith

    pub ready_loop_take :
        class.has_data (st.states a) ≡ true
        → ready_loop class clock (a ∷ rest) st
          ≡ (object a, hand_out class clock a (taken_out a rest st))
    unfolding ready_loop update_last_used_time
    ready_loop_take h = ground arith
