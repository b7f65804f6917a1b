-- ===== src/Notification/Consumer.antt =====
-- common/notificationconsumer.cpp: admission by the allowlist, reading, popping and peeking.
pub mod Admission
pub mod Allowed
pub mod Popping
pub mod Batches
pub mod RoundTrip
mod Examples
use mathlib.Core.Bool.{Bool, true, false, ◌||◌, not}
use sonic_swss_common.Prelude.{
  ℕ, zero, suc, ◌+◌, ◌%◌, ◌^◌, List, [], ◌∷◌, ◌++◌, Option, none, some, map, Bytes, bytes_eq,
  nat_eq, codes, if◌then◌else◌, ◌==◌, ltb, leb, length, get_elem?, contains, starts_with, drop,
}
use sonic_swss_common.Kco.{FieldValue, Kco}
use sonic_swss_common.Notification.Producer.{Json, read_json}
use sonic_swss_common.Notification.Queue
use sonic_swss_common.Notification.Queue.{LruQueue}

-- What stands before the first quotation mark, if there is one.
unfoldable pub until_quote : Bytes → Option Bytes
until_quote [] = none
until_quote (c ∷ s) =
    let rest : Option Bytes = elim (until_quote s) [ none ↦ none | some t ↦ some (c ∷ t) ] in
    if c == b'"' then some [] else rest

unfoldable pub peek_op : Bytes → Bytes
unfolding until_quote
peek_op (bracket ∷ quote ∷ c ∷ s) =
    if bracket == b'['
    then if quote == b'"' then elim (until_quote (c ∷ s)) [ none ↦ [] | some op ↦ op ] else []
    else []
peek_op msg = []

-- `NotificationQueueBase` and its two implementations.
pub data NotificationQueue : Type 0 where
  fifo : List Bytes → NotificationQueue
  lru_dedup : LruQueue → NotificationQueue

unfoldable pub push : Bytes → NotificationQueue → NotificationQueue
push msg (fifo q) = fifo (q ++ msg ∷ [])
push msg (lru_dedup q) = lru_dedup (Queue.push msg q)

unfoldable pub messages : NotificationQueue → List Bytes
messages (fifo q) = q
messages (lru_dedup q) = Queue.messages q

unfoldable pub pop_front : NotificationQueue → NotificationQueue
pop_front (fifo q) = fifo (drop 1 q)
pop_front (lru_dedup q) = lru_dedup (Queue.pop q)

unfoldable pub size : NotificationQueue → ℕ
unfolding messages
size q = length (messages q)

-- `m_received` and `m_dropped_allowlist` are 64 bits wide. `ops` is `m_op_allowlist`.
pub record Consumer : Type 0 where
  pub pop_batch_size : ℕ
  pub queue : NotificationQueue
  pub ops : List Bytes
  pub received : ℕ
  pub dropped : ℕ

unfoldable pub set_op_allow_list : List Bytes → Consumer → Consumer
set_op_allow_list ops c = record c { ops = ops }

unfoldable pub has_data : Consumer → Bool
has_data c = ltb 0 (size c.queue)

unfoldable pub has_cached_data : Consumer → Bool
has_cached_data c = ltb 1 (size c.queue)

-- A reply of Redis: the strings of an array, or another type.
pub data Reply : Type 0 where
  array : List Bytes → Reply
  other : Reply

unfoldable pub is_admitted : List Bytes → Bytes → Bool
unfolding peek_op
is_admitted [] msg = true
is_admitted (o ∷ os) msg = let op = peek_op msg in if op == [] then false else contains (o ∷ os) op

-- `processReply` behind its checks of the reply.
unfoldable pub admit : Bytes → Consumer → Consumer
unfolding is_admitted
admit msg c =
    if is_admitted c.ops msg
    then record c { received = (c.received + 1) % 2 ^ 64; queue = push msg c.queue }
    else record c { received = (c.received + 1) % 2 ^ 64; dropped = (c.dropped + 1) % 2 ^ 64 }

-- `none` where it throws.
unfoldable pub process_reply : Reply → Consumer → Option Consumer
process_reply other c = none
process_reply (array (kind ∷ channel ∷ msg ∷ [])) c = some (admit msg c)
process_reply (array texts) c = none

-- What is on its way in the connection: replies, or an error of the connection behind them.
pub record Arrived : Type 0 where
  pub replies : List Reply
  pub intact : Bool

-- The loop of `readData` over the replies: whether it ends without an exception, what it leaves in
-- the connection, and the consumer.
unfoldable pub read_replies : List Reply → Bool → Consumer → Bool × List Reply × Consumer
read_replies [] intact c = (intact, [], c)
read_replies (reply ∷ replies) intact c = elim (process_reply reply c) [
  | none ↦ (false, replies, c)
  | some c1 ↦ read_replies replies intact c1
]

-- The call waits for the first reply; without one the connection has failed.
unfoldable pub read_data : Arrived → Consumer → Bool × List Reply × Consumer
unfolding read_replies
read_data a c = elim a.replies [
  | [] ↦ (false, [], c)
  | reply ∷ replies ↦ read_replies (reply ∷ replies) a.intact c
]

-- The values of `pop`, in which `op` and `data` are the first pair.
unfoldable pub first_pair : List FieldValue → Option Kco
first_pair [] = none
first_pair ((op, key) ∷ values) = some (record { key = key; op = op; fvs = values })

module _ (json : Json) where
  unfoldable pub decode : Bytes → Option Kco
  unfolding read_json first_pair
  decode msg = elim (read_json json msg) [ none ↦ none | some fvs ↦ first_pair fvs ]

  -- `pop`, its results as the tuple that `pops` makes of them; `none` is an exception. The message is
  -- gone from the queue before it is read.
  unfoldable pub pop : Consumer → Option Kco × Consumer
  unfolding decode
  pop c = elim (messages c.queue) [
    | [] ↦ (none, c)
    | msg ∷ _ ↦ (decode msg, record c { queue = pop_front c.queue })
  ]

  -- The inner loop of `pops`, with the size of the queue as fuel: whether it ends without an
  -- exception, the tuples, and the consumer.
  unfoldable pub drain : ℕ → List Kco → Consumer → Bool × List Kco × Consumer
  unfolding pop
  drain zero vkco c = (true, vkco, c)
  drain (suc fuel) vkco c =
      let (popped, c1) = pop c in
      elim popped [ none ↦ (false, vkco, c1) | some kco ↦ drain fuel (vkco ++ kco ∷ []) c1 ]

  -- How `pops` ends: whether without an exception, the tuples, what it has left in the connection
  -- for later, and the consumer.
  pub record Popped : Type 0 where
    pub returned : Bool
    pub vkco : List Kco
    pub arrivals : List Arrived
    pub consumer : Consumer

  -- The outer loop of `pops`. A peek at the connection finds the next of `arrivals`, and nothing
  -- behind the last of them.
  unfoldable pub pops_loop : List Arrived → List Kco → Consumer → Popped
  unfolding drain size read_data
  pops_loop [] vkco c =
      let (drained, vkco1, c1) = drain (size c.queue) vkco c in
      record { returned = drained; vkco = vkco1; arrivals = []; consumer = c1 }
  pops_loop (a ∷ later) vkco c =
      let (drained, vkco1, c1) = drain (size c.queue) vkco c in
      let (read, left, c2) = read_data a c1 in
      let rest = pops_loop later vkco1 c2 in
      if size c.queue == 0
      then record { returned = true; vkco = vkco; arrivals = a ∷ later; consumer = c }
      else if not drained || leb c.pop_batch_size (length vkco1)
      then record { returned = drained; vkco = vkco1; arrivals = a ∷ later; consumer = c1 }
      else if read
      then rest
      else record {
        returned = false;
        vkco = vkco1;
        arrivals = record a { replies = left } ∷ later;
        consumer = c2;
      }

  unfoldable pub pops : List Arrived → Consumer → Popped
  unfolding pops_loop
  pops arrivals c = pops_loop arrivals [] c

-- `peek`: the result, whether without an exception, and the consumer. `rc` is what a peek at the
-- connection returns: 0 for nothing there, 1 for data, or -1, here `none`.
unfoldable pub peek : Option ℕ → Arrived → Consumer → Bool × Option ℕ × Consumer
unfolding size read_data
peek rc a c =
    let (read, left, c1) = read_data a c in
    if size c.queue == 0
    then elim rc [
      | none ↦ (true, none, c)
      | some zero ↦ (true, some 0, c)
      | some (suc _) ↦ (read, some (if size c1.queue == 0 then 0 else 1), c1)
    ]
    else (true, some 1, c)
