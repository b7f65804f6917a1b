-- ===== src/Notification/Queue.antt =====
-- common/notificationconsumer.h: the queues behind a NotificationConsumer. A node of the
-- `std::list` is its address with the text in it; an iterator is the address. Addresses are
-- numbered in the order in which nodes are allocated, so a new one differs from those in use.
pub mod Lookup
pub mod Refines
pub mod Order
use mathlib.Core.Bool.{Bool, true, false}
use sonic_swss_common.Prelude.{
  ℕ, ◌+◌, ◌-◌, ◌%◌, ◌^◌, List, [], ◌∷◌, ◌++◌, Option, none, some, map, Bytes, bytes_eq, nat_eq,
  if◌then◌else◌, ltb, length, lookup, insert, erase,
}

abbrev pub Node : Type 0
Node = ℕ × Bytes

-- `LruDedupNotificationQueue`, whose counters are 64 bits wide. The label and the times of the
-- log lines are left out.
pub record LruQueue : Type 0 where
  pub dq : List Node
  pub idx : List (Bytes × ℕ)
  pub next_node : ℕ
  pub pushed : ℕ
  pub dedup_hits : ℕ
  pub high_watermark : ℕ
  pub current_depth : ℕ

unfoldable pub new_lru_queue : LruQueue
new_lru_queue = record {
  dq = [];
  idx = [];
  next_node = 0;
  pushed = 0;
  dedup_hits = 0;
  high_watermark = 0;
  current_depth = 0;
}

-- `m_dq.erase` and `m_idx.erase`, if `m_idx.find` has found the text.
unfoldable pub drop_known : Bytes → Option ℕ → LruQueue → LruQueue
drop_known msg none q = q
drop_known msg (some node) q = record q { dq = erase node q.dq; idx = erase msg q.idx }

unfoldable pub append_node : Bytes → LruQueue → LruQueue
append_node msg q = record q {
  dq = q.dq ++ (q.next_node, msg) ∷ [];
  idx = insert msg q.next_node q.idx;
  next_node = q.next_node + 1;
}

unfoldable pub count_push : Option ℕ → LruQueue → LruQueue
count_push none q = record q {
  pushed = (q.pushed + 1) % 2 ^ 64;
  current_depth = (q.current_depth + 1) % 2 ^ 64;
}
count_push (some node) q = record q {
  pushed = (q.pushed + 1) % 2 ^ 64;
  dedup_hits = (q.dedup_hits + 1) % 2 ^ 64;
}

unfoldable pub raise_watermark : LruQueue → LruQueue
raise_watermark q =
    if ltb q.high_watermark q.current_depth
    then record q { high_watermark = q.current_depth }
    else q

unfoldable pub push : Bytes → LruQueue → LruQueue
unfolding drop_known append_node count_push raise_watermark
push msg q =
    let known = lookup msg q.idx in
    raise_watermark (count_push known (append_node msg (drop_known msg known q)))

-- `pop_front`, with the front node in hand; an absent text leaves the index alone.
unfoldable pub pop_node : List Node → LruQueue → LruQueue
pop_node [] q = q
pop_node ((node, msg) ∷ rest) q = record q {
  dq = rest;
  idx = erase msg q.idx;
  current_depth = (q.current_depth + 2 ^ 64 - 1) % 2 ^ 64;
}

unfoldable pub pop : LruQueue → LruQueue
unfolding pop_node
pop q = pop_node q.dq q

-- The texts in the queue, from its head.
unfoldable pub messages : LruQueue → List Bytes
messages q = map (λ (n : Node). n.1) q.dq
