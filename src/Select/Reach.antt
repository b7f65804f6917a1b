-- ===== src/Select/Reach.antt =====
-- Whatever is called, in whatever order, `m_ready` stays in order.
use mathlib.Core.Bool.{Bool, true, false}
use sonic_swss_common.Prelude.{
  ℕ, List, [], ◌∷◌, none, ◌≡◌, arith, nat_eq, eq_iff, All, contains, inl, inr, Bool-cases,
  Option-cases, lookup, insert, erase, lookup-insert, lookup-erase,
}
use sonic_swss_common.Select.{
  Selectable, erase_ready, Select, add_selectable, remove_selectable, select_again, select, Result,
  Waited, object, error, timeout, signal_int, undefined,
}
use sonic_swss_common.Select.Ordered.{erase_ready-Sorted, erase_ready-All, contains-erase_ready}
use sonic_swss_common.Select.Valid.{
  Registered, IsValid, make_ready-IsValid, states-IsValid, poll_descriptors-IsValid,
}

module _ {S : Type 0} (class : Selectable S) (clock : ℕ → ℕ) where
  -- Another object is entered, under a descriptor that is not in use.
  Registered-insert :
      (a : ℕ) (xs : List ℕ) (st : Select class clock)
      → lookup (st.bases a).fd st.objects ≡ none
      → All (Registered class clock st) xs
      → All
          (Registered class clock (record st { objects = insert (st.bases a).fd a st.objects }))
          xs
  Registered-insert a [] st new h = tt
  Registered-insert a (x ∷ xs) st new (h, hs) = (
    ground (
      arith,
      lookup-insert (st.bases a).fd (st.bases x).fd a st.objects,
      eq_iff (st.bases a).fd (st.bases x).fd,
    ),
    Registered-insert a xs st new hs,
  )

  entered-IsValid :
      (a : ℕ) (st : Select class clock)
      → lookup (st.bases a).fd st.objects ≡ none
      → IsValid class clock st
      → IsValid class clock (record st { objects = insert (st.bases a).fd a st.objects })
  entered-IsValid a st new v = record {
    sorted = v.sorted;
    owned = Registered-insert a st.ready st new v.owned;
    consistent = λ fd x h. ground (
      arith,
      v.consistent fd x,
      lookup-insert (st.bases a).fd fd a st.objects,
      eq_iff (st.bases a).fd fd,
    );
  }

  pub add_selectable-IsValid :
      (added : Bool) (a : ℕ) (st : Select class clock)
      → IsValid class clock st
      → IsValid class clock (add_selectable class clock added a st).1
  unfolding add_selectable
  add_selectable-IsValid added a st v = elim (Option-cases (lookup (st.bases a).fd st.objects)) [
    | inl new ↦
        let entered : IsValid class clock
            (record st { objects = insert (st.bases a).fd a st.objects }) =
          entered-IsValid a st new v in
        rw (new, add_selectable)
          (elim (Bool-cases (class.initialized_with_data (st.states a))) [
            | inl full ↦ rw full (
                make_ready-IsValid class clock a
                  (record st { objects = insert (st.bases a).fd a st.objects })
                  (ground (
                    arith,
                    lookup-insert (st.bases a).fd (st.bases a).fd a st.objects,
                    eq_iff (st.bases a).fd (st.bases a).fd,
                  ))
                  entered)
            | inr empty ↦ rw empty entered
          ])
    | inr (b, known) ↦ rw (known, add_selectable) v
  ]

  Registered-erase :
      (a : ℕ) (xs : List ℕ) (st : Select class clock)
      → Registered class clock st a
      → contains xs a ≡ false
      → All (Registered class clock st) xs
      → All (Registered class clock (record st { objects = erase (st.bases a).fd st.objects })) xs
  unfolding contains
  Registered-erase a [] st reg gone h = tt
  Registered-erase a (x ∷ xs) st reg gone (h, hs) = (
    ground (
      arith,
      lookup-erase (st.bases a).fd (st.bases x).fd st.objects,
      eq_iff (st.bases a).fd (st.bases x).fd,
      eq_iff x a,
    ),
    Registered-erase a xs st reg (ground arith) hs,
  )

  pub remove_selectable-IsValid :
      (removed : Bool) (a : ℕ) (st : Select class clock)
      → Registered class clock st a
      → IsValid class clock st
      → IsValid class clock (remove_selectable class clock removed a st).1
  unfolding remove_selectable
  remove_selectable-IsValid removed a st reg v = record {
    sorted = erase_ready-Sorted st.bases a st.ready v.sorted;
    owned =
        Registered-erase a (erase_ready st.bases a st.ready) st reg
          (contains-erase_ready st.bases a st.ready v.sorted)
          (erase_ready-All st.bases (Registered class clock st) a st.ready v.owned);
    consistent =
        λ fd x h. ground (arith, v.consistent fd x, lookup-erase (st.bases a).fd fd st.objects);
  }

  select_again-IsValid :
      (second : ℕ × Waited) (no_wait stop : Bool) (result : Result) (st : Select class clock)
      → IsValid class clock st
      → IsValid class clock (select_again class clock second no_wait stop result st).1
  unfolding select_again
  select_again-IsValid (n, outcome) true stop timeout st v = v
  select_again-IsValid (n, outcome) false stop timeout st v =
      poll_descriptors-IsValid class clock n outcome stop st v
  select_again-IsValid second no_wait stop (object a) st v = v
  select_again-IsValid second no_wait stop error st v = v
  select_again-IsValid second no_wait stop signal_int st v = v
  select_again-IsValid second no_wait stop undefined st v = v

  pub select-IsValid :
      (first second : ℕ × Waited) (no_wait stop : Bool) (st : Select class clock)
      → IsValid class clock st
      → IsValid class clock (select class clock first second no_wait stop st).1
  unfolding select
  select-IsValid (n, outcome) second no_wait stop st v =
      select_again-IsValid second no_wait stop _ _
        (poll_descriptors-IsValid class clock n outcome false st v)

  -- The calls on a Select, and what happens to the objects outside of it.
  pub data Step : Select class clock → Select class clock → Type 0 where
    adds :
        (added : Bool) (a : ℕ) (st : Select class clock)
        → Step st (add_selectable class clock added a st).1
    -- an object that is registered
    removes :
        (removed : Bool) (a : ℕ) (st : Select class clock)
        → Registered class clock st a
        → Step st (remove_selectable class clock removed a st).1
    selects :
        (first second : ℕ × Waited) (no_wait stop : Bool) (st : Select class clock)
        → Step st (select class clock first second no_wait stop st).1
    others : (states : ℕ → S) (st : Select class clock) → Step st (record st { states = states })

  pub data Reach (st : Select class clock) : Select class clock → Type 0 where
    here : Reach st st
    next : {mid end : Select class clock} → Reach st mid → Step mid end → Reach st end

  Step-IsValid :
      {st end : Select class clock} → Step st end → IsValid class clock st → IsValid class clock end
  Step-IsValid (adds added a st) v = add_selectable-IsValid added a st v
  Step-IsValid (removes removed a st reg) v = remove_selectable-IsValid removed a st reg v
  Step-IsValid (selects first second no_wait stop st) v =
      select-IsValid first second no_wait stop st v
  Step-IsValid (others states st) v = states-IsValid class clock states st v

  -- Whatever is added, removed while registered, and selected, whatever epoll reports, the errors
  -- included, and whatever the objects do in between: `m_ready` stays strictly in the order of its
  -- comparison, holds objects only under whose descriptor they are registered, and a descriptor
  -- leads to an object that has it.
  pub Reach-IsValid :
      {st end : Select class clock}
      → IsValid class clock st
      → Reach st end
      → IsValid class clock end
  Reach-IsValid v here = v
  Reach-IsValid v (next reach step) = Step-IsValid step (Reach-IsValid v reach)
