-- ===== src/Events/Stream.antt =====
-- A publisher's events on their way to a subscriber: some are lost, the others arrive in order.
use sonic_swss_common.Prelude.{
  ℕ, zero, suc, ◌+◌, ◌%◌, ◌^◌, ◌<◌, Bool, false, List, [], ◌∷◌, Option, none, some, Bytes, bytes_eq,
  length, lookup, insert, lookup-insert, eq_refl, starts_with, All, ◌≡◌, refl, arith, ap,
  Bool-cases, inl, inr, if◌then◌else◌,
}
use sonic_swss_common.Events.{
  InternalEvent, EvtInfo, Track, Publisher, send_evt, Reading, Subscriber, World, Ended, returned,
  waits, refill, read_message, receive, event_receive, ctrl_prefix,
}
use sonic_swss_common.Decimal.{to_string}
use sonic_swss_common.Events.Sequences.{take_event-next}

-- An event that is published: its text, its time, and whether it arrives.
pub record Sending : Type 0 where
  pub text : Bytes
  pub epoch : Bytes
  pub arrives : Bool

-- The messages that arrive of those that the publisher sends, one after another.
unfoldable pub arrivals : List Sending → Publisher → List Reading
unfolding send_evt
arrivals [] p = []
arrivals (x ∷ xs) p =
    let (e, q) = send_evt x.epoch x.text p in
    let rest = arrivals xs q in if x.arrives then Reading.message e ∷ rest else rest

-- Each event that arrives, with the number of those lost right before it.
unfoldable pub reports : List Sending → ℕ → List (Bytes × ℕ)
reports [] lost = []
reports (x ∷ xs) lost =
    let rest = reports xs 0 in
    let rest_lost = reports xs (lost + 1) in if x.arrives then (x.text, lost) ∷ rest else rest_lost

-- Before each of them fewer than 2^31 have been lost in a row.
abbrev pub ShortGaps : ℕ → List Sending → Type 0
ShortGaps lost [] = Unit
ShortGaps lost (x ∷ xs) = (lost < 2 ^ 31) × ShortGaps (if x.arrives then 0 else lost + 1) xs

text_of : Ended → Option (Bytes × ℕ)
text_of waits = none
text_of (returned out) = elim out.event [ none ↦ none | some e ↦ some (e.str_data, out.missed_cnt) ]

module _ (deserialize : Bytes → Reading) (junk : ℕ → ℕ) (now : ℕ) (timeout : Bool) where
  -- Calls of `event_receive`, as long as each gives an event, and what they give.
  unfoldable pub receive_each : ℕ → Subscriber → World → List (Bytes × ℕ)
  unfolding text_of
  receive_each zero s w = []
  receive_each (suc n) s w = elim (event_receive deserialize junk now s w) [
    | none ↦ []
    | some (out, (s1, w1)) ↦ elim (text_of out) [
      | none ↦ []
      | some report ↦ report ∷ receive_each n s1 w1
    ]
  ]

  -- The cache is used up, and the socket has these messages.
  abbrev pub on_socket : List Reading → World
  on_socket ms = record { cache_replies = []; socket = ms; has_timeout = timeout }

  -- A known publisher's next event on the socket is received at once, whatever the fuel.
  module _ (e : InternalEvent) (track : Track) (info : EvtInfo) (k : ℕ)
      (known : lookup e.runtime_id track ≡ some info) (small : info.seq < 2 ^ 32) (h : k < 2 ^ 31)
      (number : e.sequence ≡ to_string ((info.seq + 1 + k) % 2 ^ 32))
      (plain : starts_with ctrl_prefix e.str_data ≡ false) where
    abbrev before : Subscriber
    before = record { cache_read = false; from_cache = []; track = track }

    abbrev after : Subscriber
    after = record {
      cache_read = false;
      from_cache = [];
      track =
          insert e.runtime_id (record { epoch_secs = now; seq = (info.seq + 1 + k) % 2 ^ 32 })
            track;
    }

    receive-fuel :
        (fuel : ℕ) (ms : List Reading)
        → receive deserialize junk now (suc fuel) 0 before (on_socket (Reading.message e ∷ ms))
          ≡ some
              (returned (record { rc = 0; event = some e; missed_cnt = k }), (after, on_socket ms))
    unfolding receive refill read_message
    receive-fuel fuel ms =
        let small_count : (0 + k) % 2 ^ 32 ≡ k = omega arith in
        let taken = take_event-next (junk fuel) now e track info known small k h number plain in
        rw (receive, refill, read_message, taken, small_count) (rw taken)

    receive-next :
        (ms : List Reading)
        → event_receive deserialize junk now before (on_socket (Reading.message e ∷ ms))
          ≡ some
              (returned (record { rc = 0; event = some e; missed_cnt = k }), (after, on_socket ms))
    unfolding event_receive
    receive-next ms = receive-fuel _ ms

  -- While a publisher that the subscriber knows sends events of which some are lost, fewer than 2^31
  -- in a row before any that is sent, calls of `event_receive` give the texts of those that arrive, in their order, each with
  -- the number of events lost right before it, also where the sequence numbers roll over. Nothing
  -- else is on the socket, and the texts are no control messages.
  pub receive_each-arrivals :
      (xs : List Sending) (p : Publisher) (track : Track) (info : EvtInfo) (lost : ℕ)
      → lookup p.runtime_id track ≡ some info
      → info.seq < 2 ^ 32
      → p.sequence ≡ (info.seq + lost) % 2 ^ 32
      → ShortGaps lost xs
      → All (λ (x : Sending). starts_with ctrl_prefix x.text ≡ false) xs
      → receive_each
          (length (reports xs lost))
          (record { cache_read = false; from_cache = []; track = track })
          (on_socket (arrivals xs p))
        ≡ reports xs lost
  unfolding reports arrivals receive_each text_of
  receive_each-arrivals [] p track info lost known small at few plain = refl
  receive_each-arrivals (x ∷ xs) p track info lost known small at (few, gaps) (plain, rest) =
      let (e, q) = send_evt x.epoch x.text p in
      let next : q.sequence ≡ (info.seq + (lost + 1)) % 2 ^ 32 = unfold send_evt in omega arith in
      let numbered : (p.sequence + 1) % 2 ^ 32 ≡ (info.seq + 1 + lost) % 2 ^ 32 = omega arith in
      let number : e.sequence ≡ to_string ((info.seq + 1 + lost) % 2 ^ 32) =
        unfold send_evt in ap to_string numbered in
      elim (Bool-cases x.arrives) [
        | inl here ↦
            let seen : EvtInfo = record {
              epoch_secs = now;
              seq = (info.seq + 1 + lost) % 2 ^ 32;
            } in
            let known' : lookup p.runtime_id (insert p.runtime_id seen track) ≡ some seen =
              simp (lookup-insert, eq_refl) in
            rw
              (
                here,
                receive_each,
                receive-next e track info lost known small few number plain (arrivals xs q),
              )
              (ap (λ l. (x.text, lost) ∷ l)
                (receive_each-arrivals xs q (insert p.runtime_id seen track) seen 0 known'
                  (omega arith) (omega (arith, numbered)) (rw here at gaps) rest))
        | inr gone ↦ rw gone (
            receive_each-arrivals xs q track info (lost + 1) known small next (rw gone at gaps)
              rest)
      ]
