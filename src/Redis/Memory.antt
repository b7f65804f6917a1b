-- ===== src/Redis/Memory.antt =====
-- A Redis in memory, which shows that the interface can be met and on which the tests run.
use sonic_swss_common.Prelude.{
  ℕ, zero, suc, ◌<◌, Bool, true, false, ◌&&◌, ◌||◌, not, List, [], ◌∷◌, ◌++◌, Option, none, some,
  ◌≡◌, refl, Bytes, bytes_eq, bytes_beq, starts_with, if◌then◌else◌, contains, lookup, insert,
  erase, lookup-erase, erase-Distinct, Distinct, length, take, arith, eq_iff, ap,
}
use sonic_swss_common.Kco.{FieldValue}

pub record Memory : Type 0 where
  pub hashes : List (Bytes × List FieldValue)
  pub sets : List (Bytes × List Bytes)
  pub log : List (Bytes × Bytes)

abbrev pub empty : Memory
empty = record { hashes = []; sets = []; log = [] }

abbrev or_nil {ℓ} : {A : Type ℓ} → Option (List A) → List A
or_nil none = []
or_nil (some l) = l

unfoldable pub hash : Bytes → Memory → List FieldValue
hash k db = or_nil (lookup k db.hashes)

unfoldable pub members : Bytes → Memory → List Bytes
members k db = or_nil (lookup k db.sets)

-- Only the first pair for a field counts.
unfoldable pub fields : List FieldValue → List FieldValue
fields [] = []
fields ((f, v) ∷ m) = (f, v) ∷ erase f (fields m)

pub lookup-fields : (f : Bytes) (m : List FieldValue) → lookup f (fields m) ≡ lookup f m
unfolding fields lookup
lookup-fields f [] = refl
lookup-fields f ((g, v) ∷ m) = ground (arith, lookup-erase g f (fields m), lookup-fields f m)

pub fields-Distinct : (m : List FieldValue) → Distinct (fields m)
unfolding fields
fields-Distinct [] = tt
fields-Distinct ((g, v) ∷ m) = ground (
  arith,
  lookup-erase g g (fields m),
  erase-Distinct g (fields m) (fields-Distinct m),
  eq_iff g g,
)

unfoldable pub without : (Bytes → Bool) → List Bytes → List Bytes
without gone [] = []
without gone (m ∷ ms) = let rest = without gone ms in if gone m then rest else m ∷ rest

pub contains-without :
    (gone : Bytes → Bool) (ms : List Bytes) (n : Bytes)
    → contains (without gone ms) n ≡ (if gone n then false else contains ms n)
unfolding without contains
contains-without gone [] n = ground arith
contains-without gone (m ∷ ms) n = ground (arith, contains-without gone ms n, eq_iff m n)

unfoldable pub is_empty {ℓ} : {A : Type ℓ} → List A → Bool
is_empty [] = true
is_empty (_ ∷ _) = false

unfoldable pub names {ℓ} : {A : Type ℓ} → Bytes → List (Bytes × List A) → List Bytes
unfolding is_empty
names p [] = []
names p ((k, l) ∷ m) =
    let rest = names p m in if starts_with p k && not (is_empty l) then k ∷ rest else rest

pub names-starts_with {ℓ} :
    {A : Type ℓ} (p k : Bytes) (m : List (Bytes × List A))
    → contains (names p m) k ≡ true
    → starts_with p k ≡ true
unfolding names contains
names-starts_with p k [] h = ground arith
names-starts_with p k ((j, l) ∷ m) h = ground (arith, names-starts_with p k m, eq_iff j k)

pub contains-names {ℓ} :
    {A : Type ℓ} (p k : Bytes) (m : List (Bytes × List A)) (l : List A)
    → lookup k m ≡ some l
    → is_empty l ≡ false
    → starts_with p k ≡ true
    → contains (names p m) k ≡ true
unfolding names contains lookup
contains-names p k [] l h e s = ground arith
contains-names p k ((j, x) ∷ m) l h e s = ground (arith, contains-names p k m l, eq_iff j k)

pub contains-append :
    (xs ys : List Bytes) (k : Bytes) → contains (xs ++ ys) k ≡ (contains xs k || contains ys k)
unfolding contains
contains-append [] ys k = refl
contains-append (x ∷ xs) ys k = ground (arith, contains-append xs ys k)

pub contains-take :
    (n : ℕ) (ms : List Bytes) (m : Bytes) → contains (take n ms) m ≡ true → contains ms m ≡ true
unfolding contains
contains-take zero ms m h = ground arith
contains-take (suc n) [] m h = h
contains-take (suc n) (x ∷ ms) m h = ground (arith, contains-take n ms m)

pub take_short : (n : ℕ) (ms : List Bytes) → length (take n ms) < n → take n ms ≡ ms
take_short zero ms h = absurd (omega arith)
take_short (suc n) [] h = refl
take_short (suc n) (x ∷ ms) h = ap (λ l. x ∷ l) (take_short n ms (omega arith))

unfoldable pub hset : Bytes → Bytes → Bytes → Memory → Memory
unfolding hash
hset k f v db = record db { hashes = insert k (insert f v (hash k db)) db.hashes }

unfoldable pub hdel : Bytes → Bytes → Memory → Memory
unfolding hash
hdel k f db = record db { hashes = insert k (erase f (hash k db)) db.hashes }

unfoldable pub sadd : Bytes → Bytes → Memory → ℕ × Memory
unfolding members
sadd k m db =
    if contains (members k db) m
    then (0, db)
    else (1, record db { sets = insert k (m ∷ members k db) db.sets })

unfoldable pub srem : Bytes → Bytes → Memory → ℕ × Memory
unfolding members without
srem k m db = (
  if contains (members k db) m then 1 else 0,
  record db { sets = insert k (without (bytes_beq m) (members k db)) db.sets },
)

unfoldable pub spop : Bytes → ℕ → Memory → List Bytes × Memory
unfolding members without
spop k n db =
    let taken = take n (members k db) in
    (taken, record db { sets = insert k (without (contains taken) (members k db)) db.sets })

unfoldable pub del : Bytes → Memory → Memory
del k db = record db { hashes = erase k db.hashes; sets = erase k db.sets }

unfoldable pub publish : Bytes → Bytes → Memory → Memory
publish c m db = record db { log = db.log ++ (c, m) ∷ [] }
