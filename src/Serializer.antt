-- ===== src/Serializer.antt =====
-- common/binaryserializer.h: the message that ZMQ producers send. `size_t` is 8 bytes, little endian.
pub mod Words
pub mod Message
pub mod Writing
pub mod Reading
pub mod RoundTrip
pub mod Overrun
mod Examples
use sonic_swss_common.Prelude.{
  ℕ, ◌+◌, ◌^◌, ◌%◌, Bool, true, false, List, [], ◌∷◌, ◌++◌, Option, none, some, Bytes, length, take,
  drop, ltb, leb, if◌then◌else◌, ◌≡◌, refl, zero, suc, ◌-◌, codes,
}
use sonic_swss_common.Kco.{FieldValue, Kco, set_command, del_command}
use sonic_swss_common.Decimal.{ℤ, pos, negsuc, to_string, stoi}
use Words.{size_bytes, size_value}

-- What `SWSS_LOG_THROW` and `std::stoi` throw; `out_of_bounds` is a read past the buffer's end,
-- which C++ leaves undefined.
pub data Error : Type 0 where
  buffer_full truncated_key truncated_value bad_count out_of_bounds : Error

pub data Result {ℓ} (A : Type ℓ) : Type ℓ where
  ok : A → Result A
  err : Error → Result A

infixl 5 ◌>>=◌
abbrev pub ◌>>=◌ {ℓ κ} : {A : Type ℓ} {B : Type κ} → Result A → (A → Result B) → Result B
ok a >>= f = f a
err e >>= f = err e

-- The bytes behind the first `size_t`, which `finalize` fills; the current position is
-- `8 + length body`.
pub record Serializer : Type 0 where
  pub buffer_size : ℕ
  pub body : Bytes
  pub kvp_count : ℕ

unfoldable pub reset_serializer : ℕ → Serializer
reset_serializer size = record { buffer_size = size; body = []; kvp_count = 0 }

unfoldable pub set_data : Bytes → Serializer → Result Serializer
set_data d s =
    if ltb s.buffer_size ((8 + length s.body + length d + 8) % 2 ^ 64)
    then err buffer_full
    else ok (record s { body = s.body ++ (size_bytes (length d) ++ d) })

unfoldable pub set_key_and_value : Bytes → Bytes → Serializer → Result Serializer
set_key_and_value key value s = do
  s1 ← set_data key s
  s2 ← set_data value s1
  ok (record s2 { kvp_count = (s2.kvp_count + 1) % 2 ^ 64 })

unfoldable pub finalize : Serializer → Bytes
finalize s = size_bytes s.kvp_count ++ s.body

unfoldable pub set_pairs : List FieldValue → Serializer → Result Serializer
set_pairs [] s = ok s
set_pairs ((field, value) ∷ fvs) s = do s1 ← set_key_and_value field value s; set_pairs fvs s1

unfoldable pub set_kcos : List Kco → Serializer → Result Serializer
set_kcos [] s = ok s
set_kcos (kco ∷ kcos) s = do
  s1 ← set_key_and_value kco.key (to_string (length kco.fvs)) s
  s2 ← set_pairs kco.fvs s1
  set_kcos kcos s2

-- `serializeBuffer`; the size that it returns is the length of the message.
unfoldable pub serialize_buffer : ℕ → Bytes → Bytes → List Kco → Result Bytes
serialize_buffer size db_name table_name kcos = do
  s1 ← set_key_and_value db_name table_name (reset_serializer size)
  s2 ← set_kcos kcos s1
  ok (finalize s2)

unfoldable pub pairs_size : List FieldValue → ℕ
pairs_size [] = 0
pairs_size ((field, value) ∷ fvs) = (length field + 8) + (length value + 8) + pairs_size fvs

unfoldable pub kcos_size : List Kco → ℕ
unfolding pairs_size
kcos_size [] = 0
kcos_size (kco ∷ kcos) =
    (length kco.key + 8)
    + (length (to_string (length kco.fvs)) + 8)
    + pairs_size kco.fvs
    + kcos_size kcos

-- `serializedSize`
unfoldable pub serialized_size : Bytes → Bytes → List Kco → ℕ
unfolding kcos_size
serialized_size db_name table_name kcos =
    (length db_name + 8) + (length table_name + 8) + kcos_size kcos + 8

-- A `size_t` at the reading position.
unfoldable pub read_size : Bytes → Result (ℕ × Bytes)
read_size s = if leb 8 (length s) then ok (size_value (take 8 s), drop 8 s) else err out_of_bounds

-- `string(tmp_buffer, n)`
unfoldable pub read_string : ℕ → Bytes → Result (Bytes × Bytes)
read_string n s = if leb n (length s) then ok (take n s, drop n s) else err out_of_bounds

-- One length and the text behind it, `offset` bytes into a buffer of `size` bytes.
unfoldable pub read_item : ℕ → Error → ℕ → Bytes → Result (Bytes × Bytes)
unfolding read_size read_string
read_item size error offset s = do
  (n, rest) ← read_size s
  if ltb size ((offset + 8 + n) % 2 ^ 64) then err error else read_string n rest

-- `while (kvp_count > 0)`
unfoldable pub read_pairs : ℕ → ℕ → ℕ → Bytes → List FieldValue → Result (List FieldValue)
read_pairs size zero offset s values = ok values
read_pairs size (suc kvp_count) offset s values = do
  (key, s1) ← read_item size truncated_key offset s
  (val, s2) ← read_item size truncated_value (offset + 8 + length key) s1
  read_pairs size kvp_count (offset + 8 + length key + 8 + length val) s2
      (values ++ (key, val) ∷ [])

-- The first `deserializeBuffer`.
unfoldable pub deserialize_pairs : ℕ → Bytes → Result (List FieldValue)
deserialize_pairs size buffer = do
  (kvp_count, s) ← read_size buffer
  read_pairs size kvp_count 8 s []

-- The variables of the second `deserializeBuffer`.
pub record Progress : Type 0 where
  pub fvs_size : ℤ
  pub db_name : Bytes
  pub table_name : Bytes
  pub kco : Kco
  pub kcos : List Kco

unfoldable pub op_of_count : ℤ → Bytes
op_of_count (pos zero) = del_command
op_of_count n = set_command

-- The end of a round: the request is complete when no attribute is left.
unfoldable pub push_if_done : Progress → Progress
push_if_done p = elim p.fvs_size [ pos zero ↦ record p { kcos = p.kcos ++ p.kco ∷ [] } | _ ↦ p ]

unfoldable pub begin_request : Option ℤ → FieldValue → Progress → Result Progress
unfolding op_of_count push_if_done
begin_request none fv p = err bad_count
begin_request (some n) (field, value) p = ok (
    push_if_done
      (record p { fvs_size = n; kco = record { key = field; op = op_of_count n; fvs = [] } }))

-- One round of the loop over the pairs.
unfoldable pub take_pair : ℤ → FieldValue → Progress → Result Progress
unfolding begin_request
take_pair (negsuc n) (field, value) p =
    ok (record p { db_name = field; table_name = value; fvs_size = pos 0 })
take_pair (pos zero) (field, value) p = begin_request (stoi value) (field, value) p
take_pair (pos (suc n)) fv p = ok (
    push_if_done (record p { fvs_size = pos n; kco = record p.kco { fvs = p.kco.fvs ++ fv ∷ [] } }))

unfoldable pub take_pairs : List FieldValue → Progress → Result Progress
take_pairs [] p = ok p
take_pairs (fv ∷ fvs) p = do p1 ← take_pair p.fvs_size fv p; take_pairs fvs p1

-- `fvs_size = -1`, and empty strings.
unfoldable pub first_progress : Progress
first_progress = record {
  fvs_size = negsuc 0;
  db_name = [];
  table_name = [];
  kco = record { key = []; op = []; fvs = [] };
  kcos = [];
}

-- The second `deserializeBuffer`.
unfoldable pub deserialize_buffer : ℕ → Bytes → Result (Bytes × Bytes × List Kco)
unfolding first_progress
deserialize_buffer size buffer = do
  values ← deserialize_pairs size buffer
  p ← take_pairs values first_progress
  ok (p.db_name, p.table_name, p.kcos)
