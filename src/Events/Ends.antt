-- ===== src/Events/Ends.antt =====
-- The loop of `event_receive` ends, or waits for the socket.
use sonic_swss_common.Prelude.{
  ℕ, zero, suc, ◌+◌, ◌%◌, ◌^◌, ◌<◌, ◌≤◌, Bool, true, false, Bool-cases, List, [], ◌∷◌, subst,
  Option, none, some, Bytes, bytes_eq, nat_eq, starts_with, ◌≡◌, refl, sym, ◌∙◌, arith, ◌⊎◌, inl,
  inr, if◌then◌else◌,
}
use sonic_swss_common.Events.{
  InternalEvent, Outcome, Reading, Subscriber, World, Ended, returned, waits, eagain, ctrl_prefix,
  refill, read_message, receive, waiting, total, event_receive, take_event, accept, Track,
}

-- Everything is used up, and the cache has no more.
abbrev pub IsIdle : Subscriber → World → Type 0
IsIdle s w = (s.cache_read ≡ false) × (s.from_cache ≡ []) × (w.socket ≡ [])

waiting-refill : (s : Subscriber) (w : World) → waiting (refill s w).0 (refill s w).1 ≡ waiting s w
unfolding waiting refill total
waiting-refill s w = ground arith

refill-has_timeout : (s : Subscriber) (w : World) → (refill s w).1.has_timeout ≡ w.has_timeout
unfolding refill
refill-has_timeout s w = ground arith

refill-drained :
    (s : Subscriber) (w : World)
    → (refill s w).0.from_cache ≡ []
    → (refill s w).0.cache_read ≡ false
unfolding refill
refill-drained s w h = ground arith

List-cases {ℓ} : {A : Type ℓ} (l : List A) → (l ≡ []) ⊎ ((x : A) × (xs : List A) × (l ≡ x ∷ xs))
List-cases [] = inl refl
List-cases (x ∷ xs) = inr (x, xs, refl)

module _ (deserialize : Bytes → Reading) (junk : ℕ → ℕ) where
  -- Nothing is left to read: the read waits or times out.
  read_message-idle :
      (s : Subscriber) (w : World)
      → s.from_cache ≡ []
      → w.socket ≡ []
      → ((read_message deserialize junk s w).0
          ≡ (if w.has_timeout then some (Reading.failed eagain) else none))
        × ((read_message deserialize junk s w).1 ≡ (s, w))
  unfolding read_message
  read_message-idle s w e e' = (ground (arith, e, e'), ground (arith, e, e'))

  -- Else the read uses up a message.
  abbrev Taking : Subscriber → World → Type 0
  Taking s w =
      (x : Reading) × ((read_message deserialize junk s w).0 ≡ some x)
      × ((read_message deserialize junk s w).1.1.has_timeout ≡ w.has_timeout)
      × (waiting (read_message deserialize junk s w).1.0 (read_message deserialize junk s w).1.1 + 1
          ≡ waiting s w)

  read_message-cases :
      (s : Subscriber) (w : World) → ((s.from_cache ≡ []) × (w.socket ≡ [])) ⊎ Taking s w
  unfolding waiting read_message
  read_message-cases s w = elim (List-cases s.from_cache) [
    | inr (x, xs, e) ↦ inr (deserialize x, ground (arith, e), ground (arith, e), ground (arith, e))
    | inl e ↦ elim (List-cases w.socket) [
      | inl e' ↦ inl (e, e')
      | inr (m, ms, e') ↦
          inr (m, ground (arith, e, e'), ground (arith, e, e'), ground (arith, e, e'))
    ]
  ]

take_event-event :
    (junk now k : ℕ) (e : InternalEvent) (track : Track)
    → (take_event junk now e track).0 ≡ Outcome.event k
    → starts_with ctrl_prefix e.str_data ≡ false
unfolding take_event accept
take_event-event junk now k e track h = ground arith

Outcome-cases :
    (x : Outcome)
    → ((k : ℕ) × (x ≡ Outcome.event k))
      ⊎ ((x ≡ Outcome.duplicate) ⊎ ((k : ℕ) × (x ≡ Outcome.control k)))
Outcome-cases (Outcome.event k) = inl (k, refl)
Outcome-cases Outcome.duplicate = inr (inl refl)
Outcome-cases (Outcome.control k) = inr (inr (k, refl))

-- What a call may return, `n` messages waiting before it: an event, the timeout, or another error.
abbrev pub ReceivedWell : ℕ → Bool → ℕ → Option InternalEvent → Subscriber → World → Type 0
ReceivedWell n timeout rc none s w =
    ((rc ≡ eagain) × (timeout ≡ true) × IsIdle s w) ⊎ (waiting s w < n)
ReceivedWell n timeout rc (some e) s w =
    (rc ≡ 0) × (starts_with ctrl_prefix e.str_data ≡ false) × (waiting s w < n)

-- How a call may end, `n` messages waiting before it.
abbrev pub EndsWell : ℕ → Bool → Ended × (Subscriber × World) → Type 0
EndsWell n timeout (waits, (s, w)) = (timeout ≡ false) × IsIdle s w
EndsWell n timeout (returned r, (s, w)) = ReceivedWell n timeout r.rc r.event s w

ReceivedWell-more :
    (m n : ℕ) (timeout : Bool) (rc : ℕ) (event : Option InternalEvent) (s : Subscriber) (w : World)
    → m ≤ n
    → ReceivedWell m timeout rc event s w
    → ReceivedWell n timeout rc event s w
ReceivedWell-more m n timeout rc none s w h (inl e) = inl e
ReceivedWell-more m n timeout rc none s w h (inr e) = inr (omega arith)
ReceivedWell-more m n timeout rc (some x) s w h (ok, plain, fewer) = (ok, plain, omega arith)

EndsWell-more :
    (m n : ℕ) (timeout : Bool) (out : Ended × (Subscriber × World))
    → m ≤ n
    → EndsWell m timeout out
    → EndsWell n timeout out
EndsWell-more m n timeout (waits, (s, w)) h e = e
EndsWell-more m n timeout (returned r, (s, w)) h e =
    ReceivedWell-more m n timeout r.rc r.event s w h e

module _ (deserialize : Bytes → Reading) (junk : ℕ → ℕ) where
  abbrev Ending : ℕ → ℕ → ℕ → Subscriber → World → Type 0
  Ending now fuel missed s w =
      (out : Ended × (Subscriber × World)) × (receive deserialize junk now fuel missed s w
        ≡ some out)
      × EndsWell (waiting s w) w.has_timeout out

  -- A round with nothing left to read.
  receive_idle :
      (now fuel missed : ℕ) (s : Subscriber) (w : World)
      → (refill s w).0.from_cache ≡ []
      → (refill s w).1.socket ≡ []
      → Ending now (suc fuel) missed s w
  unfolding receive
  receive_idle now fuel missed s w e e' =
      let (s1, w1) = refill s w in
      let m = read_message deserialize junk s1 w1 in
      let (read, left) = read_message-idle deserialize junk s1 w1 e e' in
      let idle : IsIdle m.1.0 m.1.1 =
        subst (λ (p : Subscriber × World). IsIdle p.0 p.1) (sym left)
          (refill-drained s w e, e, e') in
      let same = refill-has_timeout s w in
      elim (Bool-cases w1.has_timeout) [
        | inl on ↦
            let failed : m.0 ≡ some (Reading.failed eagain) = ground (arith, read, on) in
            (
              (Ended.returned (record { rc = eagain; event = none; missed_cnt = missed }), m.1),
              rw (receive, failed) refl,
              inl (refl, sym same ∙ on, idle),
            )
        | inr off ↦
            let blocked : m.0 ≡ none = ground (arith, read, off) in
            ((Ended.waits, m.1), rw (receive, blocked) refl, (sym same ∙ off, idle))
      ]

  receive_ends :
      (now fuel missed : ℕ) (s : Subscriber) (w : World)
      → waiting s w < fuel
      → Ending now fuel missed s w
  unfolding receive
  receive_ends now zero missed s w h = absurd (omega arith)
  receive_ends now (suc fuel) missed s w h =
      let (s1, w1) = refill s w in
      let m = read_message deserialize junk s1 w1 in
      let same = waiting-refill s w in
      elim (read_message-cases deserialize junk s1 w1) [
        | inl (e, e') ↦ receive_idle now fuel missed s w e e'
        | inr (Reading.failed rc, read, timeout, fewer) ↦ (
          (Ended.returned (record { rc = rc; event = none; missed_cnt = missed }), m.1),
          rw (receive, read) refl,
          inr (omega (arith, fewer, same)),
        )
        | inr (Reading.message e, read, timeout, fewer) ↦
            let (s2, w2) = m.1 in
            let taken = take_event (junk fuel) now e s2.track in
            let s3 : Subscriber = record s2 { track = taken.1 } in
            let kept : waiting s3 w2 ≡ waiting s2 w2 = unfold waiting in refl in
            let still : w2.has_timeout ≡ w.has_timeout = timeout ∙ refill-has_timeout s w in
            let go : (n : ℕ) → Ending now fuel n s3 w2 =
              λ n. receive_ends now fuel n s3 w2 (omega (arith, fewer, same, kept, h)) in
            let more : (out : Ended × (Subscriber × World))
                → EndsWell (waiting s3 w2) w2.has_timeout out
                → EndsWell (waiting s w) w.has_timeout out =
              λ out ends.
                EndsWell-more (waiting s3 w2) (waiting s w) w.has_timeout out
                  (omega (arith, fewer, same, kept))
                  (subst (λ b. EndsWell (waiting s3 w2) b out) still ends) in
            elim (Outcome-cases taken.0) [
              | inl (k, o) ↦ (
                (
                  Ended.returned
                      (record { rc = 0; event = some e; missed_cnt = (missed + k) % 2 ^ 32 }),
                  (s3, w2),
                ),
                rw (receive, read, o) refl,
                (
                  refl,
                  take_event-event (junk fuel) now k e s2.track o,
                  omega (arith, fewer, same, kept),
                ),
              )
              | inr (inl o) ↦
                  let (out, end, well) = go missed in
                  (out, rw (receive, read, o) end, more out well)
              | inr (inr (k, o)) ↦
                  let (out, end, well) = go ((missed + k) % 2 ^ 32) in
                  (out, rw (receive, read, o) end, more out well)
            ]
      ]

  -- A call of `event_receive` returns, however many duplicates and control messages there are, or it
  -- waits. It waits only without a timeout, and only when the cache and the socket have nothing left.
  -- If it returns an event, `rc` is 0 and the event is no control message, and fewer messages wait
  -- than before. If it returns none, either it has timed out, with a timeout set and nothing left in
  -- the cache and the socket, and `rc` is EAGAIN, or again fewer messages wait than before.
  pub event_receive_returns :
      (now : ℕ) (s : Subscriber) (w : World)
      → (out : Ended × (Subscriber × World)) × (event_receive deserialize junk now s w ≡ some out)
        × EndsWell (waiting s w) w.has_timeout out
  unfolding event_receive
  event_receive_returns now s w = receive_ends now (suc (waiting s w)) 0 s w (omega arith)
