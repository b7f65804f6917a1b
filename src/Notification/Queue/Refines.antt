-- ===== src/Notification/Queue/Refines.antt =====
-- The queue with its index and its counters, against a list of texts.
use sonic_swss_common.Prelude.{
  ℕ, ◌+◌, ◌%◌, ◌^◌, ◌≤◌, ◌<◌, List, [], ◌∷◌, ◌++◌, Option, none, some, Bytes, bytes_eq, nat_eq, ◌≡◌,
  refl, ap, drop, inl, inr, arith, if◌then◌else◌, eq_iff, eq_refl, length, length-append, lookup,
  erase, contains, Distinct, lookup-insert, lookup-erase, erase-Distinct, All, Option-cases,
}
use sonic_swss_common.Notification.Queue.{
  Node, LruQueue, new_lru_queue, drop_known, append_node, count_push, raise_watermark, push,
  pop_node, pop, messages,
}
use sonic_swss_common.Notification.Queue.Lookup.{
  texts, node_of, remove, OneEach, remove-OneEach, append-OneEach, length-remove, node_of-contains,
  node_of-append, node_of-erase, texts-erase, remove_absent,
}

-- The addresses are in use once, and below the next one.
abbrev Below : ℕ → List Node → Type 0
Below limit = All (λ (n : Node). n.0 < limit)

-- The texts are there once, and the index has the address of each and no others.
pub record IsValid (q : LruQueue) : Type 0 where
  pub addresses : Distinct q.dq
  pub allocated : Below q.next_node q.dq
  pub once : OneEach (texts q.dq)
  pub indexed : (msg : Bytes) → lookup msg q.idx ≡ node_of msg q.dq
  pub depth : q.current_depth ≡ length q.dq % 2 ^ 64
  pub watermark : q.current_depth ≤ q.high_watermark

pub new_lru_queue-IsValid : IsValid new_lru_queue
unfolding new_lru_queue lookup node_of
new_lru_queue-IsValid = record {
  addresses = tt;
  allocated = tt;
  once = tt;
  indexed = λ msg. refl;
  depth = refl;
  watermark = omega arith;
}

Below-erase : (limit node : ℕ) (dq : List Node) → Below limit dq → Below limit (erase node dq)
unfolding erase
Below-erase limit node [] h = tt
Below-erase limit node ((n, text) ∷ dq) (lt, h) = ground (arith, Below-erase limit node dq h)

Below-append :
    (limit : ℕ) (msg : Bytes) (dq : List Node)
    → Below limit dq
    → Below (limit + 1) (dq ++ (limit, msg) ∷ [])
Below-append limit msg [] h = (omega arith, tt)
Below-append limit msg ((n, text) ∷ dq) (lt, h) = (omega arith, Below-append limit msg dq h)

Distinct-append :
    (limit : ℕ) (msg : Bytes) (dq : List Node)
    → Below limit dq
    → Distinct dq
    → Distinct (dq ++ (limit, msg) ∷ [])
unfolding lookup
Distinct-append limit msg [] h d = (refl, tt)
Distinct-append limit msg ((n, text) ∷ dq) (lt, h) (fresh, d) =
    (lookup_elsewhere dq fresh, Distinct-append limit msg dq h d)
  where
    lookup_elsewhere :
        (l : List Node) → lookup n l ≡ none → lookup n (l ++ (limit, msg) ∷ []) ≡ none
    lookup_elsewhere [] g = ground (arith, eq_iff limit n)
    lookup_elsewhere ((m, t) ∷ l) g = ground (arith, lookup_elsewhere l, eq_iff m n)

texts-append :
    (dq : List Node) (node : ℕ) (msg : Bytes)
    → texts (dq ++ (node, msg) ∷ []) ≡ texts dq ++ msg ∷ []
texts-append [] node msg = refl
texts-append (n ∷ dq) node msg = ground (arith, texts-append dq node msg)

pub length-texts : (dq : List Node) → length dq ≡ length (texts dq)
length-texts [] = refl
length-texts (n ∷ dq) = ground (arith, length-texts dq)

-- What the first half of a push leaves: everything in order, and the text gone.
record Dropped (msg : Bytes) (q p : LruQueue) : Type 0 where
  addresses : Distinct p.dq
  allocated : Below p.next_node p.dq
  once : OneEach (texts p.dq)
  indexed : (m : Bytes) → lookup m p.idx ≡ node_of m p.dq
  gone : node_of msg p.dq ≡ none
  left : texts p.dq ≡ remove msg (texts q.dq)

Dropped-none : (msg : Bytes) (q : LruQueue) → IsValid q → lookup msg q.idx ≡ none → Dropped msg q q
Dropped-none msg q v miss = record {
  addresses = v.addresses;
  allocated = v.allocated;
  once = v.once;
  indexed = v.indexed;
  gone = ground (arith, v.indexed msg);
  left = ground (arith, v.indexed msg, node_of-contains msg q.dq, remove_absent msg (texts q.dq));
}

Dropped-some :
    (msg : Bytes) (node : ℕ) (q : LruQueue)
    → IsValid q
    → lookup msg q.idx ≡ some node
    → Dropped msg q (drop_known msg (some node) q)
unfolding drop_known
Dropped-some msg node q v hit =
    let found : node_of msg q.dq ≡ some node = ground (arith, v.indexed msg) in
    record {
      addresses = erase-Distinct node q.dq v.addresses;
      allocated = Below-erase q.next_node node q.dq v.allocated;
      once =
          rw (texts-erase msg node q.dq v.addresses v.once found)
            (remove-OneEach msg (texts q.dq) v.once);
      indexed = λ m. ground (
        arith,
        v.indexed m,
        lookup-erase msg m q.idx,
        node_of-erase msg node m q.dq v.addresses v.once found,
      );
      gone = ground (arith, node_of-erase msg node msg q.dq v.addresses v.once found, eq_refl msg);
      left = texts-erase msg node q.dq v.addresses v.once found;
    }

drop_known-Dropped :
    (msg : Bytes) (q : LruQueue) → IsValid q → Dropped msg q (drop_known msg (lookup msg q.idx) q)
unfolding drop_known
drop_known-Dropped msg q v = elim (Option-cases (lookup msg q.idx)) [
  | inl miss ↦ rw miss (Dropped-none msg q v miss)
  | inr (node, hit) ↦ rw hit (Dropped-some msg node q v hit)
]

-- What the rest of a push finds on the way to its counters.
record Pushed (msg : Bytes) (q p : LruQueue) : Type 0 where
  addresses : Distinct p.dq
  allocated : Below p.next_node p.dq
  once : OneEach (texts p.dq)
  indexed : (m : Bytes) → lookup m p.idx ≡ node_of m p.dq
  order : texts p.dq ≡ remove msg (texts q.dq) ++ msg ∷ []

append_node-Pushed :
    (msg : Bytes) (q p : LruQueue) → Dropped msg q p → Pushed msg q (append_node msg p)
unfolding append_node
append_node-Pushed msg q p d = record {
  addresses = Distinct-append p.next_node msg p.dq d.allocated d.addresses;
  allocated = Below-append p.next_node msg p.dq d.allocated;
  once =
      rw texts-append (
        append-OneEach msg (texts p.dq) d.once (ground (arith, d.gone, node_of-contains msg p.dq)));
  indexed = λ m. ground (
    arith,
    d.indexed m,
    lookup-insert msg m p.next_node p.idx,
    node_of-append msg p.next_node m p.dq d.gone,
  );
  order = rw (texts-append, d.left) refl;
}

length-Pushed :
    (msg : Bytes) (q p : LruQueue)
    → IsValid q
    → Pushed msg q p
    → length p.dq + (if contains (texts q.dq) msg then 1 else 0) ≡ length q.dq + 1
length-Pushed msg q p v pushed = omega (
  arith,
  length-texts p.dq,
  length-texts q.dq,
  ap length pushed.order,
  length-append (remove msg (texts q.dq)) (msg ∷ []),
  length-remove msg (texts q.dq) v.once,
)

-- The counters of a push, behind its two halves.
count_push-IsValid :
    (msg : Bytes) (known : Option ℕ) (q p : LruQueue)
    → IsValid q
    → Pushed msg q p
    → known ≡ node_of msg q.dq
    → p.current_depth ≡ q.current_depth
    → IsValid (raise_watermark (count_push known p))
unfolding count_push raise_watermark
count_push-IsValid msg none q p v pushed k d = record {
  addresses = ground (arith, pushed.addresses);
  allocated = ground (arith, pushed.allocated);
  once = ground (arith, pushed.once);
  indexed = λ m. ground (arith, pushed.indexed m);
  depth = ground (arith, v.depth, length-Pushed msg q p v pushed, node_of-contains msg q.dq);
  watermark = ground arith;
}
count_push-IsValid msg (some node) q p v pushed k d = record {
  addresses = ground (arith, pushed.addresses);
  allocated = ground (arith, pushed.allocated);
  once = ground (arith, pushed.once);
  indexed = λ m. ground (arith, pushed.indexed m);
  depth = ground (arith, v.depth, length-Pushed msg q p v pushed, node_of-contains msg q.dq);
  watermark = ground (arith, v.watermark);
}

current_depth-drop_known :
    (msg : Bytes) (known : Option ℕ) (q : LruQueue)
    → (append_node msg (drop_known msg known q)).current_depth ≡ q.current_depth
unfolding append_node drop_known
current_depth-drop_known msg none q = refl
current_depth-drop_known msg (some node) q = refl

pub dq-count_push :
    (known : Option ℕ) (p : LruQueue) → (raise_watermark (count_push known p)).dq ≡ p.dq
unfolding count_push raise_watermark
dq-count_push none p = ground arith
dq-count_push (some node) p = ground arith

module _ (msg : Bytes) (q : LruQueue) (v : IsValid q) where
  halves-Pushed : Pushed msg q (append_node msg (drop_known msg (lookup msg q.idx) q))
  halves-Pushed = append_node-Pushed msg q _ (drop_known-Dropped msg q v)

  -- A push takes the text out, wherever it stands, and puts it behind the others.
  pub messages-push : messages (push msg q) ≡ remove msg (messages q) ++ msg ∷ []
  unfolding push messages
  messages-push = rw dq-count_push halves-Pushed.order

  pub push-IsValid : IsValid (push msg q)
  unfolding push
  push-IsValid =
      count_push-IsValid msg (lookup msg q.idx) q _ v halves-Pushed (v.indexed msg)
        (current_depth-drop_known msg (lookup msg q.idx) q)

texts-pop_node :
    (dq : List Node) (q : LruQueue) → q.dq ≡ dq → texts (pop_node dq q).dq ≡ drop 1 (texts dq)
unfolding pop_node
texts-pop_node [] q e = rw e refl
texts-pop_node ((node, msg) ∷ dq) q e = refl

-- `pop` drops the text at the head.
pub messages-pop : (q : LruQueue) → messages (pop q) ≡ drop 1 (messages q)
unfolding pop messages
messages-pop q = texts-pop_node q.dq q refl

-- A valid queue, its nodes being named.
record Holds (dq : List Node) (q : LruQueue) : Type 0 where
  addresses : Distinct dq
  allocated : Below q.next_node dq
  once : OneEach (texts dq)
  indexed : (msg : Bytes) → lookup msg q.idx ≡ node_of msg dq
  depth : q.current_depth ≡ length dq % 2 ^ 64
  watermark : q.current_depth ≤ q.high_watermark

pop_node-IsValid :
    (dq : List Node) (q : LruQueue)
    → q.dq ≡ dq
    → IsValid q
    → Holds dq q
    → length dq < 2 ^ 64
    → IsValid (pop_node dq q)
unfolding pop_node node_of
pop_node-IsValid [] q e v h few = v
pop_node-IsValid ((node, msg) ∷ dq) q e v h few = record {
  addresses = h.addresses.1;
  allocated = h.allocated.1;
  once = h.once.1;
  indexed = λ m.
      ground (
        arith,
        h.indexed m,
        lookup-erase msg m q.idx,
        eq_iff msg m,
        node_of-contains m dq,
        h.once.0,
      );
  depth = ground (arith, h.depth);
  watermark = ground (arith, h.depth, h.watermark);
}

pub pop-IsValid : (q : LruQueue) → IsValid q → length q.dq < 2 ^ 64 → IsValid (pop q)
unfolding pop
pop-IsValid q v few =
    pop_node-IsValid q.dq q refl v
      (record {
        addresses = v.addresses;
        allocated = v.allocated;
        once = v.once;
        indexed = v.indexed;
        depth = v.depth;
        watermark = v.watermark;
      })
      few
