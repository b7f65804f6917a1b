-- ===== src/Select/Fair.antt =====
-- An object of the highest priority that waits with data gets its turn.
use mathlib.Core.Bool.{Bool, true, false}
use sonic_swss_common.Prelude.{
  ℕ, zero, suc, ◌+◌, ◌≤◌, ◌<◌, List, [], ◌∷◌, Option, none, some, ◌≡◌, refl, subst, sym, ap, ◌∙◌,
  arith, if◌then◌else◌, ◌==◌, nat_eq, eq_iff, All, inl, inr, lookup, length,
}
use sonic_swss_common.Select.{
  Selectable, Base, before, Select, make_ready, read_events, after_events, poll_descriptors,
  select_again, select, Result, Waited, events, object, error, timeout, signal_int, undefined,
}
use sonic_swss_common.Select.Steps.{after_read, read_events_read}
use sonic_swss_common.Select.Ordered.{contains-insert_ready}
use sonic_swss_common.Select.Valid.{Registered, make_ready-IsValid, states-IsValid}
use sonic_swss_common.Select.Rank.{rank, rank-lt, rank-lt-length}
use sonic_swss_common.Select.Turns.{Waiting, Passed, Turn, ready_loop-Turn, Registered-waiting}

module _ {S : Type 0} (class : Selectable S) (clock : ℕ → ℕ) (s : ℕ) where
  open class use {read_data, has_data}

  -- What stands between two calls and what the call finds: a change of the objects, such as a caller
  -- that takes out their data, the signals that interrupt the wait, and the descriptors with data.
  -- The other parts of the call decide what happens if the first poll finds nothing.
  pub record Call : Type 0 where
    pub change : (ℕ → S) → ℕ → S
    pub signals : ℕ
    pub fds : List ℕ
    pub second : ℕ × Waited
    pub no_wait : Bool
    pub stop : Bool

  unfoldable pub call : Call → Select class clock → Result × Select class clock
  call c st =
      select class clock (c.signals, events c.fds) c.second c.no_wait c.stop
        (record st { states = c.change st.states })

  is_object : Result → Bool
  is_object (object a) = a == s
  is_object result = false

  -- Whether one of the calls returns the object `s`.
  unfoldable pub serves : List Call → Select class clock → Bool
  unfolding call is_object
  serves [] st = false
  serves (c ∷ cs) st =
      let (result, st1) = call c st in
      let rest = serves cs st1 in if is_object result then true else rest

  -- epoll reports registered descriptors only, and nothing but the select loop touches `s`.
  pub record IsFair (objects : List (ℕ × ℕ)) (c : Call) : Type 0 where
    pub known : All (λ (fd : ℕ). (a : ℕ) × (lookup fd objects ≡ some a)) c.fds
    pub apart : (states : ℕ → S) → c.change states s ≡ states s

  module _ (ticks : (n : ℕ) → clock n < clock (n + 1)) (reads : (x : S) → (read_data x).0 ≡ true)
      (keeps : (x : S) → has_data x ≡ true → has_data (read_data x).1 ≡ true) where
    record Read (st : Select class clock) (r : Option Result × Select class clock) : Type 0 where
      done : r.0 ≡ none
      waiting : Waiting class clock s r.1
      bases : r.1.bases ≡ st.bases
      objects : r.1.objects ≡ st.objects

    make_ready-Waiting :
        (a : ℕ) (st : Select class clock)
        → Registered class clock st a
        → Waiting class clock s st
        → Waiting class clock s (make_ready class clock a (after_read class clock a st))
    unfolding make_ready
    make_ready-Waiting a st reg w = record {
      valid =
          make_ready-IsValid class clock a (after_read class clock a st) reg
            (states-IsValid class clock _ st w.valid);
      there = contains-insert_ready st.bases a s st.ready w.there;
      full = ground (arith, w.full, keeps (st.states s), eq_iff a s);
      top = w.top;
      past = w.past;
    }

    read_events-Read :
        (fds : List ℕ) (st : Select class clock)
        → All (λ (fd : ℕ). (a : ℕ) × (lookup fd st.objects ≡ some a)) fds
        → Waiting class clock s st
        → Read st (read_events class clock fds st)
    unfolding read_events
    read_events-Read [] st h w = record { done = refl; waiting = w; bases = refl; objects = refl }
    read_events-Read (fd ∷ fds) st ((a, known), h) w =
        let next : Select class clock = make_ready class clock a (after_read class clock a st) in
        let t : Read next (read_events class clock fds next) =
          read_events-Read fds next h
            (make_ready-Waiting a st (ground (arith, w.valid.consistent fd a)) w) in
        subst (Read st) (sym (read_events_read class clock fd a fds st known (reads (st.states a))))
          (record { done = t.done; waiting = t.waiting; bases = t.bases; objects = t.objects })

    changed-Waiting :
        (states : ℕ → S) (st : Select class clock)
        → states s ≡ st.states s
        → Waiting class clock s st
        → Waiting class clock s (record st { states = states })
    changed-Waiting states st same w = record {
      valid = states-IsValid class clock states st w.valid;
      there = w.there;
      full = ground (arith, w.full);
      top = w.top;
      past = w.past;
    }

    -- A poll that signals interrupt any number of times ends as without them.
    poll_uninterrupted :
        (signals : ℕ) (fds : List ℕ) (st : Select class clock)
        → poll_descriptors class clock signals (events fds) false st
          ≡ after_events class clock (read_events class clock fds st)
    unfolding poll_descriptors
    poll_uninterrupted zero fds st = refl
    poll_uninterrupted (suc signals) fds st = poll_uninterrupted signals fds st

    -- A turn is seen alike from two states with the same order.
    Passed-same :
        (a : ℕ) (st mid end : Select class clock)
        → mid.bases ≡ st.bases
        → mid.objects ≡ st.objects
        → Passed class clock s a mid end
        → Passed class clock s a st end
    Passed-same a st mid end bases objects p = record {
      waiting = p.waiting;
      objects = p.objects ∙ objects;
      registered =
          subst (λ (b : ℕ → Base). lookup (b a).fd st.objects ≡ some a) bases
            (subst (λ (o : List (ℕ × ℕ)). lookup (mid.bases a).fd o ≡ some a) objects p.registered);
      later = λ x h. subst (λ (b : ℕ → Base). before (b x) (b s) ≡ true) bases (p.later x h);
      was = subst (λ (b : ℕ → Base). before (b a) (b s) ≡ true) bases p.was;
      now = p.now;
    }

    Turn-same :
        (st mid : Select class clock) (r : Result × Select class clock)
        → mid.bases ≡ st.bases
        → mid.objects ≡ st.objects
        → Turn class clock s mid r
        → Turn class clock s st r
    Turn-same st mid r bases objects (a, returned, inl served) = (a, returned, inl served)
    Turn-same st mid r bases objects (a, returned, inr p) =
        (a, returned, inr (Passed-same a st mid r.1 bases objects p))

    after_events-Turn :
        (st : Select class clock) (r : Option Result × Select class clock)
        → Read st r
        → Turn class clock s st (after_events class clock r)
    unfolding after_events
    after_events-Turn st (some result, end) t = absurd (ground (arith, t.done))
    after_events-Turn st (none, end) t =
        Turn-same st end _ t.bases t.objects
          (ready_loop-Turn class clock s ticks end.ready end refl t.waiting)

    select_again_object :
        (second : ℕ × Waited) (no_wait stop : Bool) (a : ℕ) (r : Result × Select class clock)
        → r.0 ≡ object a
        → select_again class clock second no_wait stop r.0 r.1 ≡ r
    unfolding select_again
    select_again_object second no_wait stop a (object b, st) h = refl
    select_again_object second no_wait stop a (error, st) h = refl
    select_again_object second no_wait stop a (timeout, st) h = cc
    select_again_object second no_wait stop a (signal_int, st) h = refl
    select_again_object second no_wait stop a (undefined, st) h = refl

    call-Turn :
        (c : Call) (st : Select class clock)
        → IsFair st.objects c
        → Waiting class clock s st
        → Turn class clock s st (call c st)
    unfolding call select
    call-Turn c st fair w =
        let st' : Select class clock = record st { states = c.change st.states } in
        let read : Read st' (read_events class clock c.fds st') =
          read_events-Read c.fds st' fair.known
            (changed-Waiting (c.change st.states) st (fair.apart st.states) w) in
        let t : Turn class clock s st
            (after_events class clock (read_events class clock c.fds st')) =
          Turn-same st st' _ refl refl (after_events-Turn st' _ read) in
        let t' : Turn class clock s st
            (poll_descriptors class clock c.signals (events c.fds) false st') =
          subst (Turn class clock s st) (sym (poll_uninterrupted c.signals c.fds st')) t in
        subst (Turn class clock s st)
          (sym (select_again_object c.second c.no_wait c.stop t'.0 _ t'.1)) t'

    serves_within :
        (cs : List Call) (st : Select class clock)
        → All (IsFair st.objects) cs
        → Waiting class clock s st
        → rank st.bases s st.objects < length cs
        → serves cs st ≡ true
    unfolding serves is_object
    serves_within [] st fair w enough = absurd (omega arith)
    serves_within (c ∷ cs) st (fair, fairs) w enough =
        let (a, returned, turn) = call-Turn c st fair w in
        elim turn [
          | inl served ↦ ground (arith, returned, served, eq_iff a s)
          | inr p ↦
              let fairs' : All (IsFair (call c st).1.objects) cs =
                subst (λ (o : List (ℕ × ℕ)). All (IsFair o) cs) (sym p.objects) fairs in
              let fewer : rank (call c st).1.bases s st.objects < rank st.bases s st.objects =
                rank-lt st.bases (call c st).1.bases s p.later (st.bases a).fd a st.objects
                  p.registered p.was p.now in
              let enough' : rank (call c st).1.bases s (call c st).1.objects < length cs =
                omega (arith, ap (λ (o : List (ℕ × ℕ)). rank (call c st).1.bases s o) p.objects) in
              ground (arith, serves_within cs (call c st).1 fairs' p.waiting enough')
        ]

    -- No starvation at the highest priority: an object that is ready with data and that has no
    -- registered object above it is returned by one of the next calls of `select`, as many as there
    -- are registered objects, whatever the other objects do and whatever events and signals arrive.
    -- The clock advances between two readings and is past every last turn, reading takes no data away
    -- and does not fail, and between the calls only others are changed.
    pub select_serves :
        (cs : List Call) (st : Select class clock)
        → All (IsFair st.objects) cs
        → Waiting class clock s st
        → length st.objects ≤ length cs
        → serves cs st ≡ true
    select_serves cs st fair w enough = serves_within cs st fair w (
        omega (
          arith,
          rank-lt-length st.bases s (st.bases s).fd st.objects
              (Registered-waiting class clock s ticks st w),
        ))
