-- ===== src/Events/Examples.antt =====
-- Tests of the events, and their theorems at concrete inputs.
use sonic_swss_common.Prelude.{
  ℕ, ◌+◌, ◌%◌, ◌^◌, ◌≤◌, Bool, true, false, List, [], ◌∷◌, none, some, Bytes, bytes_eq, codes, ◌≡◌,
  refl, arith, length, lookup, insert, starts_with, bytes_beq,
}
use sonic_swss_common.Decimal.{to_string, scan, skip_space}
use sonic_swss_common.Events.{
  InternalEvent, EvtInfo, Track, Outcome, Publisher, Reading, Subscriber, World, Ended, returned,
  waits, str_to_seq, missed_since, accept, take_event, refill, read_message, receive, waiting,
  event_receive, max_publishers_count,
}
use sonic_swss_common.Events.Sequences.{take_event-next}
use sonic_swss_common.Events.Stream.{
  Sending, arrivals, reports, receive_each, receive_each-arrivals, on_socket,
}
use sonic_swss_common.Events.Ends.{EndsWell, event_receive_returns}
use sonic_swss_common.Events.Prune.{take_event-bound}

abbrev id : Bytes
id = codes "uuid"

abbrev known : EvtInfo
known = record { epoch_secs = 5; seq = 4294967294 }

abbrev track : Track
track = (id, known) ∷ []

abbrev publisher : Publisher
publisher = record { runtime_id = id; sequence = 4294967294 }

abbrev sending : Bytes → Bool → Sending
sending text arrives = record { text = text; epoch = codes "1"; arrives = arrives }

abbrev sendings : List Sending
sendings = sending (codes "a") false ∷ sending (codes "b") true ∷ sending (codes "c") true ∷ []

-- Nothing is cached.
abbrev decode : Bytes → Reading
decode s = Reading.failed 22

abbrev subscriber : Subscriber
subscriber = record { cache_read = false; from_cache = []; track = track }

sequence_tests :
    (str_to_seq 9 (codes "17") ≡ 17)
    × (str_to_seq 9 (codes "-1") ≡ 4294967295)
    × (str_to_seq 9 (codes "5000000000") ≡ 4294967295)
    × (str_to_seq 9 (codes "x") ≡ 0)
unfolding str_to_seq scan skip_space
sequence_tests = (refl, refl, refl, refl)

-- Without a number the sequence number is what the memory held.
junk_tests : (str_to_seq 9 (codes "") ≡ 9) × (str_to_seq 9 (codes " ") ≡ 9)
unfolding str_to_seq skip_space
junk_tests = (refl, refl)

-- What the memory holds.
abbrev junk : ℕ → ℕ
junk n = 77

-- The numbers roll over between the event that is lost and the one that arrives.
stream_test :
    receive_each decode junk 9 true 2 subscriber
      (on_socket decode junk 9 true (arrivals sendings publisher))
    ≡ (codes "b", 1) ∷ (codes "c", 0) ∷ []
unfolding receive_each arrivals event_receive receive refill read_message waiting take_event accept
    missed_since str_to_seq lookup insert starts_with bytes_beq scan skip_space to_string
stream_test = refl

receive_each-arrivals_example :
    receive_each decode junk 9 true
      (length (reports sendings 0))
      subscriber
      (on_socket decode junk 9 true (arrivals sendings publisher))
    ≡ reports sendings 0
receive_each-arrivals_example =
    receive_each-arrivals decode junk 9 true sendings publisher track known 0
      (unfold lookup bytes_beq in refl) (omega arith) (omega arith)
      (omega arith, (omega arith, (omega arith, tt)))
      (unfold starts_with in (refl, (refl, (refl, tt))))

abbrev late : InternalEvent
late = record {
  str_data = codes "late";
  runtime_id = id;
  sequence = to_string 4294967290;
  epoch = [];
}

-- On the socket there is nothing but a duplicate.
abbrev late_only : Bool → World
late_only timeout = on_socket decode junk 9 timeout (Reading.message late ∷ [])

abbrev fresh : InternalEvent
fresh = record { str_data = codes "new"; runtime_id = id; sequence = to_string 3; epoch = [] }

take_event-next_example : take_event 77 9 fresh track ≡ (
  Outcome.event 4,
  insert id (record { epoch_secs = 9; seq = (4294967294 + 1 + 4) % 2 ^ 32 }) track,
)
take_event-next_example =
    take_event-next 77 9 fresh track known (unfold lookup bytes_beq in refl) (omega arith) 4
      (omega arith) refl (unfold starts_with in refl)

-- Without a timeout a call that finds nothing new waits, and with one it returns EAGAIN.
timeout_test :
    ((out : Subscriber × World) × (event_receive decode junk 9 subscriber (late_only false)
        ≡ some (waits, out)))
    × ((out : Subscriber × World) × (event_receive decode junk 9 subscriber (late_only true)
          ≡ some (returned (record { rc = 11; event = none; missed_cnt = 0 }), out)))
unfolding event_receive receive refill read_message waiting take_event accept missed_since
    str_to_seq lookup bytes_beq scan skip_space to_string
timeout_test = ((_, refl), (_, refl))

event_receive_returns_example :
    (out : Ended × (Subscriber × World)) × (event_receive decode junk 9 subscriber (late_only false)
      ≡ some out)
    × EndsWell (waiting subscriber (late_only false)) false out
event_receive_returns_example = event_receive_returns decode junk 9 subscriber (late_only false)

take_event-bound_example : length (take_event 77 9 fresh track).1 ≤ max_publishers_count + 11
take_event-bound_example = take_event-bound 77 9 fresh track (omega arith)
