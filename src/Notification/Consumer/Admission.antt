-- ===== src/Notification/Consumer/Admission.antt =====
-- What `readData` lets into the queue, and what it counts.
use mathlib.Core.Bool.{Bool}
use sonic_swss_common.Prelude.{
  ℕ, ◌+◌, ◌%◌, ◌^◌, List, [], ◌∷◌, ◌++◌, map, Bytes, ◌≡◌, ap, ◌∙◌, ◌<◌, append-nil, arith,
  if◌then◌else◌, length, Bool-cases, inl, inr,
}
use sonic_swss_common.Notification.Consumer.{
  Consumer, NotificationQueue, push, Reply, array, process_reply, admit, is_admitted, read_replies,
  read_data,
}

abbrev pub push_all : List Bytes → NotificationQueue → NotificationQueue
push_all [] q = q
push_all (msg ∷ ms) q = push_all ms (push msg q)

-- The messages whose operation is on the list, in their order.
abbrev pub admitted : List Bytes → List Bytes → List Bytes
admitted ops [] = []
admitted ops (msg ∷ ms) = if is_admitted ops msg then msg ∷ admitted ops ms else admitted ops ms

abbrev pub refused : List Bytes → List Bytes → ℕ
refused ops [] = 0
refused ops (msg ∷ ms) = if is_admitted ops msg then refused ops ms else refused ops ms + 1

-- Messages as Redis publishes them.
abbrev pub published : Bytes → Bytes → List Bytes → List Reply
published kind channel = map (λ (msg : Bytes). array (kind ∷ channel ∷ msg ∷ []))

-- The consumer once it has taken the messages.
abbrev pub taken : List Bytes → Consumer → Consumer
taken ms c = record c {
  queue = push_all (admitted c.ops ms) c.queue;
  received = (c.received + length ms) % 2 ^ 64;
  dropped = (c.dropped + refused c.ops ms) % 2 ^ 64;
}

taken-admit :
    (msg : Bytes) (ms : List Bytes) (c : Consumer) → taken ms (admit msg c) ≡ taken (msg ∷ ms) c
unfolding admit
taken-admit msg ms c = elim (Bool-cases (is_admitted c.ops msg)) [
  | inl allowed ↦ rw allowed (ground arith)
  | inr barred ↦ rw barred (ground arith)
]

admit-counters :
    (msg : Bytes) (c : Consumer)
    → c.dropped < 2 ^ 64
    → ((admit msg c).received < 2 ^ 64) × ((admit msg c).dropped < 2 ^ 64)
unfolding admit
admit-counters msg c d = ground arith

pub read_replies-published :
    (kind channel : Bytes) (ms : List Bytes) (behind : List Reply) (intact : Bool) (c : Consumer)
    → c.received < 2 ^ 64
    → c.dropped < 2 ^ 64
    → read_replies (published kind channel ms ++ behind) intact c
      ≡ read_replies behind intact (taken ms c)
unfolding read_replies process_reply
read_replies-published kind channel [] behind intact c r d =
    ap (read_replies behind intact) (ground arith)
read_replies-published kind channel (msg ∷ ms) behind intact c r d =
    let (r1, d1) = admit-counters msg c d in
    read_replies-published kind channel ms behind intact (admit msg c) r1 d1
    ∙ ap (read_replies behind intact) (taken-admit msg ms c)

-- What a call of `readData` at which messages have arrived makes of them, by the code's own test.
pub read_data-admitted :
    (kind channel msg : Bytes) (ms : List Bytes) (intact : Bool) (c : Consumer)
    → c.received < 2 ^ 64
    → c.dropped < 2 ^ 64
    → read_data (record { replies = published kind channel (msg ∷ ms); intact = intact }) c
      ≡ (intact, [], taken (msg ∷ ms) c)
unfolding read_data read_replies process_reply
read_data-admitted kind channel msg ms intact c r d =
    rw append-nil at (read_replies-published kind channel (msg ∷ ms) [] intact c r d)
