-- ===== src/Serializer/Message.antt =====
-- The layout of a message, written down independently of the code that fills or reads a buffer.
use sonic_swss_common.Prelude.{
  ℕ, ◌+◌, ◌≡◌, refl, List, [], ◌∷◌, ◌++◌, Bytes, length, length-append, arith,
}
use sonic_swss_common.Kco.{FieldValue, Kco}
use sonic_swss_common.Decimal.{to_string}
use sonic_swss_common.Serializer.Words.{size_bytes, length-size_bytes}
use sonic_swss_common.Serializer.{pairs_size, kcos_size, serialized_size}

-- The pairs of a request: its key with the number of attributes, and the attributes.
unfoldable pub kco_pairs : Kco → List FieldValue
kco_pairs kco = (kco.key, to_string (length kco.fvs)) ∷ kco.fvs

unfoldable pub kcos_pairs : List Kco → List FieldValue
unfolding kco_pairs
kcos_pairs [] = []
kcos_pairs (kco ∷ kcos) = kco_pairs kco ++ kcos_pairs kcos

unfoldable pub message_pairs : Bytes → Bytes → List Kco → List FieldValue
unfolding kcos_pairs
message_pairs db_name table_name kcos = (db_name, table_name) ∷ kcos_pairs kcos

unfoldable pub pairs_bytes : List FieldValue → Bytes
pairs_bytes [] = []
pairs_bytes ((field, value) ∷ fvs) =
    size_bytes (length field)
    ++ (field ++ (size_bytes (length value) ++ (value ++ pairs_bytes fvs)))

unfoldable pub message : List FieldValue → Bytes
unfolding pairs_bytes
message fvs = size_bytes (length fvs) ++ pairs_bytes fvs

pub length-pairs_bytes : (fvs : List FieldValue) → length (pairs_bytes fvs) ≡ pairs_size fvs
unfolding pairs_bytes pairs_size
length-pairs_bytes [] = refl
length-pairs_bytes ((f, v) ∷ fvs) = simp length-append (
    omega
      (arith, length-pairs_bytes fvs, length-size_bytes (length f), length-size_bytes (length v)))

pub pairs_size-append :
    (xs ys : List FieldValue) → pairs_size (xs ++ ys) ≡ pairs_size xs + pairs_size ys
unfolding pairs_size
pairs_size-append [] ys = omega arith
pairs_size-append ((f, v) ∷ xs) ys = omega (arith, pairs_size-append xs ys)

pub kcos_size-pairs : (kcos : List Kco) → pairs_size (kcos_pairs kcos) ≡ kcos_size kcos
unfolding kcos_size kcos_pairs
kcos_size-pairs [] = refl
kcos_size-pairs (kco ∷ kcos) =
    omega (arith, kcos_size-pairs kcos, pairs_size-append kco.fvs (kcos_pairs kcos))

pub serialized_size-pairs :
    (db_name table_name : Bytes) (kcos : List Kco)
    → serialized_size db_name table_name kcos
      ≡ 8 + pairs_size (message_pairs db_name table_name kcos)
unfolding serialized_size message_pairs
serialized_size-pairs d t kcos = omega (arith, kcos_size-pairs kcos)

-- Every pair takes at least the room of its two lengths.
pub length-le-pairs_size : (fvs : List FieldValue) → (n : ℕ) × (length fvs + n ≡ pairs_size fvs)
unfolding pairs_size
length-le-pairs_size [] = (0, refl)
length-le-pairs_size ((f, v) ∷ fvs) =
    let (n, e) = length-le-pairs_size fvs in (n + 15 + length f + length v, omega (arith, e))
