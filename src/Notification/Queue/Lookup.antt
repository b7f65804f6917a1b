-- ===== src/Notification/Queue/Lookup.antt =====
-- The nodes of a queue found by their texts.
use mathlib.Core.Bool.{true, false}
use sonic_swss_common.Prelude.{
  ℕ, ◌+◌, List, [], ◌∷◌, ◌++◌, Option, none, some, map, Bytes, bytes_eq, nat_eq, ◌≡◌, refl, ◌≢◌,
  arith, if◌then◌else◌, ◌==◌, eq_iff, length, lookup, erase, contains, Distinct,
}
use sonic_swss_common.Notification.Queue.{Node}

abbrev pub texts : List Node → List Bytes
texts = map (λ (n : Node). n.1)

-- The address of the first node with the text.
unfoldable pub node_of : Bytes → List Node → Option ℕ
node_of msg [] = none
node_of msg ((node, text) ∷ dq) = if text == msg then some node else node_of msg dq

-- The list without a text.
unfoldable pub remove : Bytes → List Bytes → List Bytes
remove msg [] = []
remove msg (text ∷ ts) = let rest = remove msg ts in if text == msg then rest else text ∷ rest

-- No text stands twice.
abbrev pub OneEach : List Bytes → Type 0
OneEach [] = Unit {0}
OneEach (text ∷ ts) = (contains ts text ≡ false) × OneEach ts

pub contains-remove :
    (msg other : Bytes) (ts : List Bytes)
    → contains (remove msg ts) other ≡ (if msg == other then false else contains ts other)
unfolding remove contains
contains-remove msg other [] = ground arith
contains-remove msg other (text ∷ ts) =
    ground
      (arith, contains-remove msg other ts, eq_iff text msg, eq_iff text other, eq_iff msg other)

pub remove_absent : (msg : Bytes) (ts : List Bytes) → contains ts msg ≡ false → remove msg ts ≡ ts
unfolding remove contains
remove_absent msg [] h = refl
remove_absent msg (text ∷ ts) h = ground (arith, remove_absent msg ts)

pub remove-OneEach : (msg : Bytes) (ts : List Bytes) → OneEach ts → OneEach (remove msg ts)
unfolding remove
remove-OneEach msg [] d = tt
remove-OneEach msg (text ∷ ts) (fresh, d) =
    ground (arith, remove-OneEach msg ts d, contains-remove msg text ts)

pub contains-append :
    (ts us : List Bytes) (other : Bytes)
    → contains (ts ++ us) other ≡ (if contains ts other then true else contains us other)
unfolding contains
contains-append [] us other = refl
contains-append (text ∷ ts) us other = ground (arith, contains-append ts us other)

pub append-OneEach :
    (msg : Bytes) (ts : List Bytes)
    → OneEach ts
    → contains ts msg ≡ false
    → OneEach (ts ++ msg ∷ [])
unfolding contains
append-OneEach msg [] d h = (refl, tt)
append-OneEach msg (text ∷ ts) (fresh, d) h = ground (
  arith,
  append-OneEach msg ts d,
  contains-append ts (msg ∷ []) text,
  eq_iff text msg,
  eq_iff msg text,
)

pub length-remove :
    (msg : Bytes) (ts : List Bytes)
    → OneEach ts
    → length ts ≡ length (remove msg ts) + (if contains ts msg then 1 else 0)
unfolding remove contains
length-remove msg [] d = refl
length-remove msg (text ∷ ts) (fresh, d) =
    ground (arith, length-remove msg ts d, remove_absent msg ts, eq_iff text msg)

pub node_of-contains :
    (msg : Bytes) (dq : List Node)
    → contains (texts dq) msg ≡ (elim (node_of msg dq) [ none ↦ false | some _ ↦ true ])
unfolding node_of contains
node_of-contains msg [] = refl
node_of-contains msg ((node, text) ∷ dq) = ground (arith, node_of-contains msg dq)

pub lookup-node_of :
    (msg : Bytes) (node : ℕ) (dq : List Node) → node_of msg dq ≡ some node → lookup node dq ≢ none
unfolding node_of lookup
lookup-node_of msg node [] found = cc
lookup-node_of msg node ((n, text) ∷ dq) found =
    ground (arith, lookup-node_of msg node dq, eq_iff n node)

pub erase_absent : (node : ℕ) (dq : List Node) → lookup node dq ≡ none → erase node dq ≡ dq
unfolding lookup erase
erase_absent node [] h = refl
erase_absent node ((n, text) ∷ dq) h = ground (arith, erase_absent node dq)

-- To erase the node of a text is to remove the text.
pub texts-erase :
    (msg : Bytes) (node : ℕ) (dq : List Node)
    → Distinct dq
    → OneEach (texts dq)
    → node_of msg dq ≡ some node
    → texts (erase node dq) ≡ remove msg (texts dq)
unfolding node_of erase remove
texts-erase msg node [] d o found = cc
texts-erase msg node ((n, text) ∷ dq) (fresh, d) (once, o) found = ground (
  arith,
  texts-erase msg node dq d o,
  eq_iff text msg,
  eq_iff n node,
  lookup-node_of msg node dq,
  erase_absent node dq,
  remove_absent msg (texts dq),
)

pub node_of-erase :
    (msg : Bytes) (node : ℕ) (other : Bytes) (dq : List Node)
    → Distinct dq
    → OneEach (texts dq)
    → node_of msg dq ≡ some node
    → node_of other (erase node dq) ≡ (if msg == other then none else node_of other dq)
unfolding node_of erase
node_of-erase msg node other [] d o found = cc
node_of-erase msg node other ((n, text) ∷ dq) (fresh, d) (once, o) found = ground (
  arith,
  node_of-erase msg node other dq d o,
  eq_iff text msg,
  eq_iff text other,
  eq_iff n node,
  eq_iff msg other,
  lookup-node_of msg node dq,
  erase_absent node dq,
  node_of-contains other dq,
)

pub node_of-append :
    (msg : Bytes) (node : ℕ) (other : Bytes) (dq : List Node)
    → node_of msg dq ≡ none
    → node_of other (dq ++ (node, msg) ∷ [])
      ≡ (if msg == other then some node else node_of other dq)
unfolding node_of
node_of-append msg node other [] new = refl
node_of-append msg node other ((n, text) ∷ dq) new =
    ground (
      arith,
      node_of-append msg node other dq,
      eq_iff text msg,
      eq_iff text other,
      eq_iff msg other,
    )
