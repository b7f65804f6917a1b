-- ===== src/Serializer/Reading.antt =====
-- What the first `deserializeBuffer` reads from a message.
use sonic_swss_common.Prelude.{
  ℕ, ◌+◌, ◌^◌, ◌<◌, ◌≤◌, ◌≡◌, List, [], ◌∷◌, ◌++◌, Bytes, length, length-append, take-append,
  drop-append, take, drop, arith, append_assoc, append-nil, ap,
}
use sonic_swss_common.Kco.{FieldValue}
use sonic_swss_common.Serializer.Words.{size_bytes, size_value-size_bytes, length-size_bytes}
use sonic_swss_common.Serializer.{
  Error, ok, read_size, read_string, read_item, read_pairs, deserialize_pairs, pairs_size,
  truncated_key, truncated_value,
}
use sonic_swss_common.Serializer.Message.{pairs_bytes, message, length-le-pairs_size}

pub read_size_lem :
    (n : ℕ) (rest : Bytes) → n < 2 ^ 64 → read_size (size_bytes n ++ rest) ≡ ok (n, rest)
unfolding read_size
read_size_lem n rest h =
    let word = size_bytes n in
    let len = length-size_bytes n in
    let t : take 8 (word ++ rest) ≡ word = rw len at (take-append word rest) in
    let d : drop 8 (word ++ rest) ≡ rest = rw len at (drop-append word rest) in
    ground (arith, t, d, size_value-size_bytes n h, length-append word rest, len)

read_string_lem : (s rest : Bytes) → read_string (length s) (s ++ rest) ≡ ok (s, rest)
unfolding read_string
read_string_lem s rest = simp (take-append, drop-append) (ground (arith, length-append s rest))

read_item_lem :
    (size : ℕ) (e : Error) (offset : ℕ) (s rest : Bytes)
    → size < 2 ^ 64
    → offset + 8 + length s ≤ size
    → read_item size e offset (size_bytes (length s) ++ (s ++ rest)) ≡ ok (s, rest)
unfolding read_item
read_item_lem size e offset s rest h fits =
    rw (read_size_lem (length s) (s ++ rest) (omega arith)) (ground (arith, read_string_lem s rest))

read_pairs_lem :
    (size : ℕ) (fvs : List FieldValue) (offset : ℕ) (values : List FieldValue)
    → size < 2 ^ 64
    → offset + pairs_size fvs ≤ size
    → read_pairs size (length fvs) offset (pairs_bytes fvs) values ≡ ok (values ++ fvs)
unfolding read_pairs pairs_size pairs_bytes
read_pairs_lem size [] offset values h fits = rw append-nil
read_pairs_lem size ((k, v) ∷ fvs) offset values h fits =
    rw
      (
        read_item_lem size truncated_key offset k _ h (omega arith),
        read_item_lem size truncated_value (offset + 8 + length k) v _ h (omega arith),
        read_pairs_lem size fvs (offset + 8 + length k + 8 + length v) (values ++ (k, v) ∷ []) h
            (omega arith),
      )
      (ap ok (append_assoc values ((k, v) ∷ []) fvs))

-- A message is read back pair by pair, whatever bytes the pairs hold.
pub deserialize_pairs-message :
    (fvs : List FieldValue) (size : ℕ)
    → size < 2 ^ 64
    → 8 + pairs_size fvs ≤ size
    → deserialize_pairs size (message fvs) ≡ ok fvs
unfolding deserialize_pairs message
deserialize_pairs-message fvs size h fits =
    let (n, e) = length-le-pairs_size fvs in
    rw (read_size_lem (length fvs) (pairs_bytes fvs) (omega (arith, e)))
      (read_pairs_lem size fvs 8 [] h (omega arith))
