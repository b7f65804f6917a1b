-- ===== src/Events.antt =====
-- common/events.cpp, common/events_pi.h and the conversions of common/events_common.cpp: a publisher
-- numbers its events modulo 2^32, and the subscriber finds by the numbers how many were lost.
pub mod Sequences
pub mod Stream
pub mod Ends
pub mod Prune
mod Examples
use sonic_swss_common.Prelude.{
  ℕ, zero, suc, ◌+◌, ◌-◌, ◌*◌, ◌%◌, ◌^◌, Bool, true, false, ◌&&◌, not, List, [], ◌∷◌, ◌++◌, Option,
  none, some, Bytes, bytes_eq, ◌==◌, nat_eq, leb, ltb, if◌then◌else◌, starts_with, lookup, insert,
  erase, length, codes,
}
use sonic_swss_common.Decimal.{to_string, scan, skip_space, is_digit}

abbrev pub sequence_max : ℕ
sequence_max = 2 ^ 32 - 1

abbrev pub max_publishers_count : ℕ
max_publishers_count = 1000

-- `internal_event_t`, a map with these four keys; a key that is missing reads as the empty text.
pub record InternalEvent : Type 0 where
  pub str_data : Bytes
  pub runtime_id : Bytes
  pub sequence : Bytes
  pub epoch : Bytes

-- What `>>` reads of an unsigned number without its sign.
unfoldable pub clamp : ℕ → ℕ
clamp n = if leb n sequence_max then n else sequence_max

unfoldable pub read_digits : Bytes → ℕ
unfolding clamp is_digit
read_digits [] = 0
read_digits (c ∷ s) = if is_digit c then clamp (scan 0 (c ∷ s)) else 0

-- A negative number is taken modulo 2^32.
unfoldable pub read_negative : Bytes → ℕ
unfolding is_digit
read_negative [] = 0
read_negative (c ∷ s) =
    if not (is_digit c)
    then 0
    else if leb (scan 0 (c ∷ s)) sequence_max
    then (2 ^ 32 - scan 0 (c ∷ s)) % 2 ^ 32
    else sequence_max

unfoldable pub read_signed : Bytes → ℕ
unfolding read_digits read_negative
read_signed [] = 0
read_signed (c ∷ s) =
    if c == b'-' then read_negative s else if c == b'+' then read_digits s else read_digits (c ∷ s)

-- `>>` leaves `seq` alone when nothing is there to read, and `seq` is not initialised: `junk` is what
-- it holds.
unfoldable pub str_to_seq : ℕ → Bytes → ℕ
unfolding read_signed
str_to_seq junk s = elim (skip_space s) [ [] ↦ junk | c ∷ rest ↦ read_signed (c ∷ rest) ]

-- `EventPublisher`, without its sockets
pub record Publisher : Type 0 where
  pub runtime_id : Bytes
  pub sequence : ℕ

-- `send_evt` at the time `epoch`: the event that is sent, numbered by `seq_to_str`.
unfoldable pub send_evt : Bytes → Bytes → Publisher → InternalEvent × Publisher
send_evt epoch str_data p =
    let sequence = (p.sequence + 1) % 2 ^ 32 in
    (
      record {
        str_data = str_data;
        runtime_id = p.runtime_id;
        sequence = to_string sequence;
        epoch = epoch;
      },
      record p { sequence = sequence },
    )

-- `evt_info_t`
pub record EvtInfo : Type 0 where
  pub epoch_secs : ℕ
  pub seq : ℕ

abbrev pub Track : Type 0
Track = List (Bytes × EvtInfo)

-- `lst[e.second.epoch_secs].push_back(e.first)`, in a map that is sorted by time
unfoldable pub push_group : ℕ → Bytes → List (ℕ × List Bytes) → List (ℕ × List Bytes)
push_group secs id [] = (secs, id ∷ []) ∷ []
push_group secs id ((t, ids) ∷ groups) =
    let rest = push_group secs id groups in
    if secs == t
    then (t, ids ++ id ∷ []) ∷ groups
    else if ltb secs t
    then (secs, id ∷ []) ∷ (t, ids) ∷ groups
    else (t, ids) ∷ rest

unfoldable pub group_track : Track → List (ℕ × List Bytes) → List (ℕ × List Bytes)
unfolding push_group
group_track [] groups = groups
group_track ((id, info) ∷ track) groups = group_track track (push_group info.epoch_secs id groups)

unfoldable pub erase_ids : List Bytes → Track → Track
erase_ids [] track = track
erase_ids (id ∷ ids) track = erase_ids ids (erase id track)

-- The oldest groups go until no more than `MAX_PUBLISHERS_COUNT` are left.
unfoldable pub prune_groups : List (ℕ × List Bytes) → Track → Track
unfolding erase_ids
prune_groups [] track = track
prune_groups ((t, ids) ∷ groups) track =
    let rest = prune_groups groups (erase_ids ids track) in
    if ltb max_publishers_count (length track) then rest else track

unfoldable pub prune_track : Track → Track
unfolding group_track prune_groups
prune_track track = prune_groups (group_track track []) track

-- `this_missed_cnt` as the `uint32_t` that is converted to an `int`.
unfoldable pub missed_since : ℕ → ℕ → ℕ
missed_since seq last =
    if not (seq == 0) then (seq + (2 ^ 32 - last) + (2 ^ 32 - 1)) % 2 ^ 32 else sequence_max - last

-- `this_missed_cnt < 0`
unfoldable pub is_duplicate : ℕ → Bool
is_duplicate missed = leb (2 ^ 31) missed

-- What a message turns out to be, with the count of those missed before it.
pub data Outcome : Type 0 where
  duplicate : Outcome
  control event : ℕ → Outcome

abbrev pub ctrl_prefix : Bytes
ctrl_prefix = codes "CONTROL_"

abbrev pub ctrl_deinit : Bytes
ctrl_deinit = codes "CONTROL_DEINIT"

-- The part of the loop behind the count: `tracked` says whether the publisher was found.
unfoldable pub accept : ℕ → InternalEvent → ℕ → Bool → ℕ → Track → Outcome × Track
unfolding is_duplicate
accept now e seq tracked missed track =
    if is_duplicate missed
    then (Outcome.duplicate, track)
    else if not (starts_with ctrl_prefix e.str_data)
    then (Outcome.event missed, insert e.runtime_id (record { epoch_secs = now; seq = seq }) track)
    else if e.str_data == ctrl_deinit && tracked
    then (Outcome.control missed, erase e.runtime_id track)
    else (Outcome.control missed, track)

-- One round of the loop of `event_receive` for a message that was read at the time `now`; `junk` is
-- the number of a message whose text of the number is empty.
unfoldable pub take_event : ℕ → ℕ → InternalEvent → Track → Outcome × Track
unfolding missed_since accept prune_track
take_event junk now e track =
    let seq = str_to_seq junk e.sequence in
    elim (lookup e.runtime_id track) [
      | some info ↦ accept now e seq true (missed_since seq info.seq) track
      | none ↦
          accept now e seq false 0
            (if ltb (max_publishers_count + 10) (length track) then prune_track track else track)
    ]

-- What reading gives: a message, or the error code of the read.
pub data Reading : Type 0 where
  message : InternalEvent → Reading
  failed : ℕ → Reading

pub record Subscriber : Type 0 where
  pub cache_read : Bool
  pub from_cache : List Bytes
  pub track : Track

-- What waits for the subscriber: the replies of the cache service, empty ones behind those that are
-- listed, and what the socket delivers. Behind that the socket times out, if `recv_timeout` has set a
-- timeout, that is unless it is -1, and else a read of it waits.
pub record World : Type 0 where
  pub cache_replies : List (List Bytes)
  pub socket : List Reading
  pub has_timeout : Bool

-- `cache_read`, when the cache may have more and all that was read is used.
unfoldable pub refill : Subscriber → World → Subscriber × World
refill s w = elim s.cache_read [
  | false ↦ (s, w)
  | true ↦ elim s.from_cache [
    | _ ∷ _ ↦ (s, w)
    | [] ↦ elim w.cache_replies [
      | [] ↦ (record s { cache_read = false }, w)
      | [] ∷ replies ↦ (record s { cache_read = false }, record w { cache_replies = replies })
      | (x ∷ xs) ∷ replies ↦ (
        record s { cache_read = true; from_cache = x ∷ xs },
        record w { cache_replies = replies },
      )
    ]
  ]
]

-- The event and the count that a call of `event_receive` gives; without an event `rc` is an error.
pub record Received : Type 0 where
  pub rc : ℕ
  pub event : Option InternalEvent
  pub missed_cnt : ℕ

-- How far a call comes: it has returned, or it waits in the read of the socket.
pub data Ended : Type 0 where
  returned : Received → Ended
  waits : Ended

-- `zmq_message_read` returns 11, EAGAIN, at a timeout.
abbrev pub eagain : ℕ
eagain = 11

total : List (List Bytes) → ℕ
total [] = 0
total (l ∷ ls) = length l + total ls

-- How many messages wait.
unfoldable pub waiting : Subscriber → World → ℕ
unfolding total
waiting s w = length s.from_cache + total w.cache_replies + length w.socket

-- `junk n` is what the memory of `seq` holds in the round before which `n` messages wait.
module _ (deserialize : Bytes → Reading) (junk : ℕ → ℕ) where
  -- One message, from the cache if there is one, else from the socket; `none` if the read waits.
  unfoldable pub read_message : Subscriber → World → Option Reading × (Subscriber × World)
  read_message s w = elim s.from_cache [
    | x ∷ xs ↦ (some (deserialize x), (record s { from_cache = xs }, w))
    | [] ↦ elim w.socket [
      | [] ↦ (if w.has_timeout then some (Reading.failed eagain) else none, (s, w))
      | m ∷ ms ↦ (some m, (s, record w { socket = ms }))
    ]
  ]

  -- The loop of `event_receive`; `none` only if the fuel is short.
  unfoldable pub receive : ℕ → ℕ → ℕ → Subscriber → World → Option (Ended × (Subscriber × World))
  receive now zero missed s w = none
  receive now (suc fuel) missed s w =
      let (s1, w1) = refill s w in
      let (reading, (s2, w2)) = read_message s1 w1 in
      elim reading [
        | none ↦ some (Ended.waits, (s2, w2))
        | some (Reading.failed rc) ↦
            some (Ended.returned (record { rc = rc; event = none; missed_cnt = missed }), (s2, w2))
        | some (Reading.message e) ↦
            let (outcome, track) = take_event (junk fuel) now e s2.track in
            let s3 : Subscriber = record s2 { track = track } in
            elim outcome [
              | Outcome.duplicate ↦ receive now fuel missed s3 w2
              | Outcome.control k ↦ receive now fuel ((missed + k) % 2 ^ 32) s3 w2
              | Outcome.event k ↦ some (
                Ended.returned
                    (record { rc = 0; event = some e; missed_cnt = (missed + k) % 2 ^ 32 }),
                (s3, w2),
              )
            ]
      ]

  -- A round uses up a message or is the last.
  unfoldable pub event_receive : ℕ → Subscriber → World → Option (Ended × (Subscriber × World))
  unfolding receive
  event_receive now s w = receive now (suc (waiting s w)) 0 s w
