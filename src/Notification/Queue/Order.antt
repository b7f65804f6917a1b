-- ===== src/Notification/Queue/Order.antt =====
-- Sequences of pushes and pops: the queue that drops duplicates against a list of texts.
use sonic_swss_common.Prelude.{
  ◌+◌, ◌^◌, ◌≤◌, ◌<◌, List, [], ◌∷◌, ◌++◌, Bytes, bytes_eq, ◌≡◌, refl, ap, arith, if◌then◌else◌,
  length, length-drop, drop, sym, map, length-append, contains, eq_iff, append_assoc, append-nil,
  ◌∙◌, Bool-cases, inl, inr,
}
use sonic_swss_common.Notification.Queue.{LruQueue, new_lru_queue, push, pop, messages}
use sonic_swss_common.Notification.Queue.Lookup.{OneEach, remove, length-remove}
use sonic_swss_common.Notification.Queue.Refines.{
  IsValid, new_lru_queue-IsValid, messages-push, push-IsValid, messages-pop, pop-IsValid,
  length-texts,
}

pub data Call : Type 0 where
  call_push : Bytes → Call
  call_pop : Call

unfoldable pub run : List Call → LruQueue → LruQueue
run [] q = q
run (call_push msg ∷ calls) q = run calls (push msg q)
run (call_pop ∷ calls) q = run calls (pop q)

-- The same calls on a list of texts, in which a push moves a text that is there to the end.
unfoldable pub ideal : List Call → List Bytes → List Bytes
ideal [] ts = ts
ideal (call_push msg ∷ calls) ts = ideal calls (remove msg ts ++ msg ∷ [])
ideal (call_pop ∷ calls) ts = ideal calls (drop 1 ts)

length-messages : (q : LruQueue) → length (messages q) ≡ length q.dq
unfolding messages
length-messages q = sym (length-texts q.dq)

messages-OneEach : (q : LruQueue) → IsValid q → OneEach (messages q)
unfolding messages
messages-OneEach q v = v.once

length-push :
    (msg : Bytes) (q : LruQueue)
    → IsValid q
    → length (messages (push msg q)) ≤ length (messages q) + 1
length-push msg q v = omega (
  arith,
  ap length (messages-push msg q v),
  length-append (remove msg (messages q)) (msg ∷ []),
  length-remove msg (messages q) (messages-OneEach q v),
)

-- From any state that its operations reach, with less than 2^64 texts in it and to come, every
-- sequence of pushes and pops leaves the texts that the list has, in its order and each once. The
-- depth that `getStats` reports is their number, and the watermark is not below it.
pub run-ideal :
    (calls : List Call) (q : LruQueue)
    → IsValid q
    → length (messages q) + length calls < 2 ^ 64
    → (messages (run calls q) ≡ ideal calls (messages q))
      × OneEach (messages (run calls q))
      × ((run calls q).current_depth ≡ length (messages (run calls q)))
      × ((run calls q).current_depth ≤ (run calls q).high_watermark)
unfolding run ideal
run-ideal [] q v few =
    (refl, messages-OneEach q v, omega (arith, v.depth, length-messages q), v.watermark)
run-ideal (call_push msg ∷ calls) q v few =
    rw (← messages-push msg q v)
      (run-ideal calls (push msg q) (push-IsValid msg q v) (omega (arith, length-push msg q v)))
run-ideal (call_pop ∷ calls) q v few = rw (← messages-pop q) (
    run-ideal calls (pop q) (pop-IsValid q v (omega (arith, length-messages q)))
      (omega (arith, ap length (messages-pop q), length-drop 1 (messages q))))

-- Each text where it came last.
unfoldable pub last_seen : List Bytes → List Bytes
last_seen [] = []
last_seen (msg ∷ ms) = let rest = last_seen ms in if contains ms msg then rest else msg ∷ rest

remove_all : List Bytes → List Bytes → List Bytes
remove_all [] ts = ts
remove_all (msg ∷ ms) ts = remove_all ms (remove msg ts)

remove-append :
    (msg : Bytes) (ts us : List Bytes) → remove msg (ts ++ us) ≡ remove msg ts ++ remove msg us
unfolding remove
remove-append msg [] us = refl
remove-append msg (text ∷ ts) us = ground (arith, remove-append msg ts us)

remove_all-append :
    (ms ts us : List Bytes) → remove_all ms (ts ++ us) ≡ remove_all ms ts ++ remove_all ms us
unfolding remove_all
remove_all-append [] ts us = refl
remove_all-append (msg ∷ ms) ts us =
    rw remove-append (remove_all-append ms (remove msg ts) (remove msg us))

remove_all-nil : (ms : List Bytes) → remove_all ms [] ≡ []
unfolding remove_all remove
remove_all-nil [] = refl
remove_all-nil (msg ∷ ms) = remove_all-nil ms

remove_all-single :
    (ms : List Bytes) (text : Bytes)
    → remove_all ms (text ∷ []) ≡ (if contains ms text then [] else text ∷ [])
unfolding remove_all remove contains
remove_all-single [] text = refl
remove_all-single (msg ∷ ms) text =
    ground (arith, remove_all-single ms text, remove_all-nil ms, eq_iff msg text, eq_iff text msg)

ideal-pushes : (ms ts : List Bytes) → ideal (map call_push ms) ts ≡ remove_all ms ts ++ last_seen ms
unfolding ideal remove_all last_seen
ideal-pushes [] ts = sym (append-nil ts)
ideal-pushes (msg ∷ ms) ts =
    ideal-pushes ms (remove msg ts ++ msg ∷ [])
    ∙ rw (remove_all-append, remove_all-single, append_assoc)
        (elim (Bool-cases (contains ms msg)) [
          | inl later ↦ rw later refl
          | inr last ↦ rw last refl
        ])

length-calls : (ms : List Bytes) → length (map call_push ms) ≡ length ms
length-calls [] = refl
length-calls (msg ∷ ms) = ground (arith, length-calls ms)

-- A queue that is only pushed to, less than 2^64 times, holds each text once, where it came last:
-- the order of draining is that of the last arrivals.
pub messages-pushes :
    (ms : List Bytes)
    → length ms < 2 ^ 64
    → messages (run (map call_push ms) new_lru_queue) ≡ last_seen ms
unfolding messages new_lru_queue
messages-pushes ms few =
    (run-ideal (map call_push ms) new_lru_queue new_lru_queue-IsValid
      (omega (arith, length-calls ms))).0
    ∙ ideal-pushes ms []
    ∙ rw (remove_all-nil ms) refl
