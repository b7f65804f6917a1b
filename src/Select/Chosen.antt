-- ===== src/Select/Chosen.antt =====
-- Which object a call returns.
use mathlib.Core.Bool.{true, false}
use sonic_swss_common.Prelude.{ℕ, List, ◌≡◌, ◌≢◌, nat_eq, contains}
use sonic_swss_common.Select.{
  Selectable, before, Select, Result, object, error, timeout, signal_int, undefined,
}

module _ {S : Type 0} (class : Selectable S) (clock : ℕ → ℕ) where
  open class use {has_data}

  -- An object with data that the comparison puts before every other one with data in the list, or
  -- no object if none has data.
  abbrev pub IsChosen : List ℕ → Select class clock → Result → Type 0
  IsChosen ready st (object a) =
      (contains ready a ≡ true)
      × (has_data (st.states a) ≡ true)
      × ((b : ℕ)
          → contains ready b ≡ true
          → has_data (st.states b) ≡ true
          → b ≢ a
          → before (st.bases a) (st.bases b) ≡ true)
  IsChosen ready st timeout = (b : ℕ) → contains ready b ≡ true → has_data (st.states b) ≡ false
  IsChosen ready st error = ⊥
  IsChosen ready st signal_int = ⊥
  IsChosen ready st undefined = ⊥
