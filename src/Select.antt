-- ===== src/Select.antt =====
-- common/select.h, common/select.cpp and common/selectable.h: waiting for several objects at once.
pub mod Ordered
pub mod Steps
pub mod Valid
pub mod Reach
pub mod Chosen
pub mod Turns
pub mod Rank
pub mod Fair
pub mod Twins
mod Examples
use mathlib.Core.Bool.{Bool, true, false, not}
use sonic_swss_common.Prelude.{
  ℕ, zero, suc, ◌+◌, List, [], ◌∷◌, Option, none, some, if◌then◌else◌, ◌==◌, nat_eq, ltb, lookup,
  insert, erase,
}

-- The virtual functions of `Selectable`, on what its subclasses keep. `read_data` also says whether
-- it ends without the `std::runtime_error` that `poll_descriptors` catches; other exceptions, which
-- leave `select`, are not modelled.
pub record Selectable (S : Type 0) : Type 0 where
  pub read_data : S → Bool × S
  pub has_data : S → Bool
  pub has_cached_data : S → Bool
  pub initialized_with_data : S → Bool
  pub update_after_read : S → S

-- The members of `Selectable`, and its file descriptor. A priority is the `int`, with 2^31 added.
pub record Base : Type 0 where
  pub fd : ℕ
  pub priority : ℕ
  pub last_used : ℕ

-- `Select::cmp`
unfoldable pub before : Base → Base → Bool
before a b =
    if ltb b.priority a.priority
    then true
    else if ltb a.priority b.priority
    then false
    else if ltb a.last_used b.last_used
    then true
    else if ltb b.last_used a.last_used
    then false
    else false

abbrev pub update {ℓ} : {A : Type ℓ} → (ℕ → A) → ℕ → A → ℕ → A
update f a v x = if a == x then v else f x

-- `std::set::insert` and `erase` of an object, given by its address. Elements between which the
-- comparison makes no difference are the same to the set.
unfoldable pub insert_ready : (ℕ → Base) → ℕ → List ℕ → List ℕ
insert_ready bases a [] = a ∷ []
insert_ready bases a (x ∷ xs) =
    let later = insert_ready bases a xs in
    if before (bases a) (bases x)
    then a ∷ x ∷ xs
    else if before (bases x) (bases a)
    then x ∷ later
    else x ∷ xs

unfoldable pub erase_ready : (ℕ → Base) → ℕ → List ℕ → List ℕ
erase_ready bases a [] = []
erase_ready bases a (x ∷ xs) =
    let later = erase_ready bases a xs in
    if before (bases a) (bases x)
    then x ∷ xs
    else if before (bases x) (bases a)
    then x ∷ later
    else xs

-- How a wait of epoll ends that no signal interrupts: with an error, or with the descriptors that
-- can be read.
pub data Waited : Type 0 where
  failed : Waited
  events : List ℕ → Waited

-- `undefined` is a descriptor without an object, whose null pointer the source would follow.
pub data Result : Type 0 where
  object : ℕ → Result
  error timeout signal_int undefined : Result

module _ {S : Type 0} (class : Selectable S) (clock : ℕ → ℕ) where
  open class use {read_data, has_data, has_cached_data, initialized_with_data, update_after_read}

  -- All objects by their addresses, with what their base class and what their own class keeps;
  -- `m_objects`; `m_ready` in its order; and how often the clock was read.
  pub record Select : Type 0 where
    pub bases : ℕ → Base
    pub states : ℕ → S
    pub objects : List (ℕ × ℕ)
    pub ready : List ℕ
    pub readings : ℕ

  unfoldable pub make_ready : ℕ → Select → Select
  unfolding insert_ready
  make_ready a st = record st { ready = insert_ready st.bases a st.ready }

  -- `added` says whether epoll takes the descriptor; the result is `false` for an exception.
  unfoldable pub add_selectable : Bool → ℕ → Select → Bool × Select
  unfolding make_ready
  add_selectable added a st =
      let st1 = record st { objects = insert (st.bases a).fd a st.objects } in
      elim (lookup (st.bases a).fd st.objects) [
        | some _ ↦ (true, st)
        | none ↦ (added, if initialized_with_data (st.states a) then make_ready a st1 else st1)
      ]

  -- The loop ends with the first exception.
  unfoldable pub add_selectables : List (Bool × ℕ) → Select → Bool × Select
  unfolding add_selectable
  add_selectables [] st = (true, st)
  add_selectables ((added, a) ∷ more) st =
      let (done, st1) = add_selectable added a st in
      let rest = add_selectables more st1 in if done then rest else (false, st1)

  unfoldable pub is_queue_empty : Select → Bool
  is_queue_empty st = elim st.ready [ [] ↦ true | _ ∷ _ ↦ false ]

  unfoldable pub remove_selectable : Bool → ℕ → Select → Bool × Select
  unfolding erase_ready
  remove_selectable removed a st = (
    removed,
    record st {
      objects = erase (st.bases a).fd st.objects;
      ready = erase_ready st.bases a st.ready;
    },
  )

  -- The loop over the events; a result if the call ends there.
  unfoldable pub read_events : List ℕ → Select → Option Result × Select
  unfolding make_ready
  read_events [] st = (none, st)
  read_events (fd ∷ fds) st = elim (lookup fd st.objects) [
    | none ↦ (some undefined, st)
    | some a ↦
        let (read, state) = read_data (st.states a) in
        let st1 = record st { states = update st.states a state } in
        let rest = read_events fds (make_ready a st1) in if read then rest else (some error, st1)
  ]

  -- The clock of an object that has left `m_ready`.
  unfoldable pub update_last_used_time : ℕ → Select → Select
  update_last_used_time a st = record st {
    bases = update st.bases a (record (st.bases a) { last_used = clock st.readings });
    readings = st.readings + 1;
  }

  -- An object that is returned: back into `m_ready` if it has cached data, and then updated.
  unfoldable pub hand_out : ℕ → Select → Select
  unfolding make_ready
  hand_out a st =
      let st1 = if has_cached_data (st.states a) then make_ready a st else st in
      record st1 { states = update st1.states a (update_after_read (st1.states a)) }

  -- The loop over `m_ready`, which is the list. Its first element is the one that `erase` takes out.
  unfoldable pub ready_loop : List ℕ → Select → Result × Select
  unfolding update_last_used_time hand_out
  ready_loop [] st = (timeout, st)
  ready_loop (a ∷ rest) st =
      let st1 = update_last_used_time a (record st { ready = rest }) in
      let later = ready_loop rest st1 in
      if has_data (st1.states a) then (object a, hand_out a st1) else later

  unfoldable pub after_events : Option Result × Select → Result × Select
  unfolding ready_loop
  after_events (some result, st) = (result, st)
  after_events (none, st) = ready_loop st.ready st

  -- `signals` is how many signals interrupt the wait, before it ends as `outcome` says.
  unfoldable pub poll_descriptors : ℕ → Waited → Bool → Select → Result × Select
  unfolding read_events after_events
  poll_descriptors (suc signals) outcome interrupt_on_signal st =
      let again = poll_descriptors signals outcome interrupt_on_signal st in
      if interrupt_on_signal then (signal_int, st) else again
  poll_descriptors zero failed interrupt_on_signal st = (error, st)
  poll_descriptors zero (events fds) interrupt_on_signal st = after_events (read_events fds st)

  -- `select` behind its first poll: unless that found nothing and there is time to wait, its result
  -- is the one to return.
  unfoldable pub select_again : ℕ × Waited → Bool → Bool → Result → Select → Result × Select
  unfolding poll_descriptors
  select_again (signals, outcome) no_wait interrupt_on_signal timeout st =
      let second = poll_descriptors signals outcome interrupt_on_signal st in
      if no_wait then (timeout, st) else second
  select_again wait no_wait interrupt_on_signal result st = (result, st)

  -- `select`, with what its two waits find; `no_wait` is a timeout of 0.
  unfoldable pub select : ℕ × Waited → ℕ × Waited → Bool → Bool → Select → Result × Select
  unfolding select_again poll_descriptors
  select (signals, outcome) second no_wait interrupt_on_signal st =
      let (result, st1) = poll_descriptors signals outcome false st in
      select_again second no_wait interrupt_on_signal result st1
