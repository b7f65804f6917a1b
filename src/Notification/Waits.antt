-- ===== src/Notification/Waits.antt =====
-- A NotificationConsumer in a select loop: its members are those that Select calls.
use mathlib.Core.Bool.{Bool, true, false}
use sonic_swss_common.Prelude.{
  ◌<◌, List, [], ◌∷◌, Bytes, ◌≡◌, refl, arith, length, length-append, lookup, bytes_eq, nat_eq,
}
use sonic_swss_common.Select.{Selectable}
use sonic_swss_common.Notification.Queue
use sonic_swss_common.Notification.Queue.{
  LruQueue, drop_known, append_node, count_push, raise_watermark,
}
use sonic_swss_common.Notification.Queue.Refines.{dq-count_push, length-texts}
use sonic_swss_common.Notification.Consumer.{
  Consumer, NotificationQueue, fifo, lru_dedup, push, messages, size, has_data, has_cached_data,
  process_reply, admit, read_replies, read_data,
}
use sonic_swss_common.Notification.Consumer.Admission.{published}
use sonic_swss_common.Notification.Consumer.Batches.{Batch, arrive}

-- A consumer with the messages that are on their way to it, on its channel.
pub record Subscription : Type 0 where
  pub kind : Bytes
  pub channel : Bytes
  pub consumer : Consumer
  pub batches : List Batch

-- A call at which nothing has arrived would wait, and is not made.
unfoldable pub read_next : List Batch → Subscription → Bool × Subscription
unfolding read_data
read_next [] s = (true, s)
read_next (b ∷ bs) s =
    let (intact, left, c) = read_data (arrive s.kind s.channel b) s.consumer in
    (intact, record s { consumer = c; batches = bs })

abbrev pub subscription : Selectable Subscription
subscription = record {
  read_data = λ s. read_next s.batches s;
  has_data = λ s. has_data s.consumer;
  has_cached_data = λ s. has_cached_data s.consumer;
  initialized_with_data = λ s. false;
  update_after_read = λ s. s;
}

dq-push : (msg : Bytes) (q : LruQueue) → 0 < length (Queue.push msg q).dq
unfolding Queue.push append_node
dq-push msg q = rw dq-count_push (
    omega (
      arith,
      length-append (drop_known msg (lookup msg q.idx) q).dq
          (((drop_known msg (lookup msg q.idx) q).next_node, msg) ∷ []),
    ))

size-push : (msg : Bytes) (q : NotificationQueue) → 0 < size (push msg q)
unfolding size messages push Queue.messages
size-push msg (fifo q) = omega (arith, length-append q (msg ∷ []))
size-push msg (lru_dedup q) = omega (arith, dq-push msg q, length-texts (Queue.push msg q).dq)

module _ (kind channel : Bytes) where
  admit-has_data : (msg : Bytes) (c : Consumer) → has_data c ≡ true → has_data (admit msg c) ≡ true
  unfolding has_data admit
  admit-has_data msg c h = ground (arith, size-push msg c.queue)

  read_replies-returns :
      (ms : List Bytes) (c : Consumer)
      → ((read_replies (published kind channel ms) true c).0 ≡ true)
        × (has_data c ≡ true → has_data (read_replies (published kind channel ms) true c).2 ≡ true)
  unfolding read_replies process_reply
  read_replies-returns [] c = (refl, λ h. h)
  read_replies-returns (msg ∷ ms) c =
      let (returns, keeps) = read_replies-returns ms (admit msg c) in
      (returns, λ h. keeps (admit-has_data msg c h))

read_next-returns :
    (bs : List Batch) (s : Subscription)
    → ((read_next bs s).0 ≡ true)
      × (has_data s.consumer ≡ true → has_data (read_next bs s).1.consumer ≡ true)
unfolding read_next read_data
read_next-returns [] s = (refl, λ h. h)
read_next-returns ((msg, ms) ∷ bs) s = read_replies-returns s.kind s.channel (msg ∷ ms) s.consumer

-- What the select loop relies on of its objects holds for a NotificationConsumer.
pub subscription_reads : (s : Subscription) → (subscription.read_data s).0 ≡ true
subscription_reads s = (read_next-returns s.batches s).0

pub subscription_keeps :
    (s : Subscription)
    → subscription.has_data s ≡ true
    → subscription.has_data (subscription.read_data s).1 ≡ true
subscription_keeps s = (read_next-returns s.batches s).1
