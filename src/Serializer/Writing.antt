-- ===== src/Serializer/Writing.antt =====
-- What `serializeBuffer` writes, and when it fits.
use native.Mathlib.Decide.{dec_lt}
use sonic_swss_common.Prelude.{
  ℕ, ◌+◌, ◌^◌, ◌%◌, ◌<◌, ◌≤◌, ◌≡◌, refl, List, [], ◌∷◌, ◌++◌, Bytes, length, length-append, arith,
  append_assoc, append-nil, leb, if◌then◌else◌, le→leb, sym, ap, ◌∙◌,
}
use sonic_swss_common.Kco.{FieldValue, Kco}
use sonic_swss_common.Serializer.Words.{size_bytes, length-size_bytes}
use sonic_swss_common.Serializer.{
  Serializer, Result, ok, err, buffer_full, ◌>>=◌, reset_serializer, set_data, set_key_and_value,
  set_pairs, set_kcos, finalize, serialize_buffer, pairs_size, serialized_size,
}
use sonic_swss_common.Serializer.Message.{
  kcos_pairs, message_pairs, pairs_bytes, message, serialized_size-pairs, length-pairs_bytes,
  length-le-pairs_size,
}

-- The serializer with the pairs behind what it has.
abbrev with_pairs : List FieldValue → Serializer → Serializer
with_pairs fvs s = record s {
  body = s.body ++ pairs_bytes fvs;
  kvp_count = (s.kvp_count + length fvs) % 2 ^ 64;
}

set_data_lem :
    (d : Bytes) (s : Serializer)
    → 16 + length s.body + length d < 2 ^ 64
    → set_data d s ≡ (
        if leb (16 + length s.body + length d) s.buffer_size
        then ok (record s { body = s.body ++ (size_bytes (length d) ++ d) })
        else err buffer_full)
unfolding set_data
set_data_lem d s h = ground arith

length_after : (s d : Bytes) → length (s ++ (size_bytes (length d) ++ d)) ≡ length s + 8 + length d
length_after s d = simp length-append (omega (arith, length-size_bytes (length d)))

abbrev after_pair : Bytes → Bytes → Serializer → Serializer
after_pair k v s = record s {
  body = (s.body ++ (size_bytes (length k) ++ k)) ++ (size_bytes (length v) ++ v);
  kvp_count = (s.kvp_count + 1) % 2 ^ 64;
}

set_key_and_value_lem :
    (k v : Bytes) (s : Serializer)
    → 24 + length s.body + length k + length v < 2 ^ 64
    → set_key_and_value k v s ≡ (
        if leb (24 + length s.body + length k + length v) s.buffer_size
        then ok (after_pair k v s)
        else err buffer_full)
unfolding set_key_and_value
set_key_and_value_lem k v s h =
    let s1 : Serializer = record s { body = s.body ++ (size_bytes (length k) ++ k) } in
    rw (set_data_lem k s (omega arith)) (
      ground
        (arith, set_data_lem v s1 (omega (arith, length_after s.body k)), length_after s.body k))

with_pairs-cons :
    (k v : Bytes) (fvs : List FieldValue) (s : Serializer)
    → with_pairs fvs (after_pair k v s) ≡ with_pairs ((k, v) ∷ fvs) s
unfolding pairs_bytes
with_pairs-cons k v fvs s = simp append_assoc (ground arith)

length-after_pair :
    (k v : Bytes) (s : Serializer)
    → length (after_pair k v s).body ≡ length s.body + 16 + length k + length v
length-after_pair k v s = omega (arith, length_after _ v, length_after s.body k)

module _ (k v : Bytes) (s : Serializer)
    (h : 24 + length s.body + length k + length v < 2 ^ 64) where
  set_key_and_value_fit :
      24 + length s.body + length k + length v ≤ s.buffer_size
      → set_key_and_value k v s ≡ ok (after_pair k v s)
  set_key_and_value_fit fits = rw (set_key_and_value_lem k v s h, le→leb _ _ fits)

  set_key_and_value_full :
      s.buffer_size < 24 + length s.body + length k + length v
      → set_key_and_value k v s ≡ err buffer_full
  set_key_and_value_full full = ground (arith, set_key_and_value_lem k v s h)

set_pairs_fit :
    (fvs : List FieldValue) (s : Serializer)
    → s.kvp_count < 2 ^ 64
    → 8 + length s.body + pairs_size fvs < 2 ^ 64
    → 8 + length s.body + pairs_size fvs ≤ s.buffer_size
    → set_pairs fvs s ≡ ok (with_pairs fvs s)
unfolding set_pairs pairs_size pairs_bytes
set_pairs_fit [] s c h fits = simp append-nil (ground arith)
set_pairs_fit ((k, v) ∷ fvs) s c h fits =
    rw (set_key_and_value_fit k v s (omega arith) (omega arith)) (
      set_pairs_fit fvs (after_pair k v s) (omega arith) (omega (arith, length-after_pair k v s))
        (omega (arith, length-after_pair k v s))
      ∙ ap ok (with_pairs-cons k v fvs s))

set_pairs_full :
    (fvs : List FieldValue) (s : Serializer)
    → 8 + length s.body + pairs_size fvs < 2 ^ 64
    → 8 + length s.body ≤ s.buffer_size
    → s.buffer_size < 8 + length s.body + pairs_size fvs
    → set_pairs fvs s ≡ err buffer_full
unfolding set_pairs pairs_size
set_pairs_full [] s h room full = absurd (omega arith)
set_pairs_full ((k, v) ∷ fvs) s h room full =
    elim (dec_lt s.buffer_size (24 + length s.body + length k + length v)) [
      | yes now ↦ rw (set_key_and_value_full k v s (omega arith) now)
      | no later ↦ rw (set_key_and_value_fit k v s (omega arith) (omega arith)) (
          set_pairs_full fvs (after_pair k v s) (omega (arith, length-after_pair k v s))
            (omega (arith, length-after_pair k v s)) (omega (arith, length-after_pair k v s)))
    ]

bind_assoc {ℓ} :
    {A B C : Type ℓ} (m : Result A) (f : A → Result B) (g : B → Result C)
    → (m >>= f >>= g) ≡ (m >>= λ a. f a >>= g)
bind_assoc (ok a) f g = refl
bind_assoc (err e) f g = refl

set_pairs-append :
    (xs ys : List FieldValue) (s : Serializer)
    → set_pairs (xs ++ ys) s ≡ (set_pairs xs s >>= set_pairs ys)
unfolding set_pairs
set_pairs-append [] ys s = refl
set_pairs-append ((k, v) ∷ xs) ys s =
    simp (set_pairs-append xs ys)
      (sym (bind_assoc (set_key_and_value k v s) (set_pairs xs) (set_pairs ys)))

-- The loop over the requests writes the pairs of all of them, one after another.
set_kcos-set_pairs :
    (kcos : List Kco) (s : Serializer) → set_kcos kcos s ≡ set_pairs (kcos_pairs kcos) s
unfolding set_kcos set_pairs kcos_pairs
set_kcos-set_pairs [] s = refl
set_kcos-set_pairs (kco ∷ kcos) s =
    simp (set_kcos-set_pairs kcos, set_pairs-append kco.fvs (kcos_pairs kcos))

serialize_buffer-set_pairs :
    (size : ℕ) (d t : Bytes) (kcos : List Kco)
    → serialize_buffer size d t kcos
      ≡ (set_pairs (message_pairs d t kcos) (reset_serializer size) >>= λ s. ok (finalize s))
unfolding serialize_buffer set_pairs message_pairs
serialize_buffer-set_pairs size d t kcos = simp set_kcos-set_pairs (
    sym
      (bind_assoc (set_key_and_value d t (reset_serializer size)) (set_pairs (kcos_pairs kcos)) _))

set_pairs_too_small :
    (d t : Bytes) (fvs : List FieldValue) (size : ℕ)
    → 8 + pairs_size ((d, t) ∷ fvs) < 2 ^ 64
    → size < 8 + pairs_size ((d, t) ∷ fvs)
    → set_pairs ((d, t) ∷ fvs) (reset_serializer size) ≡ err buffer_full
unfolding reset_serializer
set_pairs_too_small d t fvs size h full = elim (dec_lt size 8) [
  | yes tiny ↦
      unfold set_pairs pairs_size in
      rw (set_key_and_value_full d t (reset_serializer size) (omega arith) (omega arith))
  | no room ↦
      set_pairs_full ((d, t) ∷ fvs) (reset_serializer size) (omega arith) (omega arith)
        (omega arith)
]

finalize-with_pairs :
    (fvs : List FieldValue) (size : ℕ)
    → 8 + pairs_size fvs < 2 ^ 64
    → finalize (with_pairs fvs (reset_serializer size)) ≡ message fvs
unfolding finalize message reset_serializer
finalize-with_pairs fvs size h =
    let (n, e) = length-le-pairs_size fvs in
    let count : (0 + length fvs) % 2 ^ 64 ≡ length fvs = omega (arith, e) in rw count

module _ (size : ℕ) (d t : Bytes) (kcos : List Kco) (h : serialized_size d t kcos < 2 ^ 64) where
  serialize_full :
      size < serialized_size d t kcos → serialize_buffer size d t kcos ≡ err buffer_full
  unfolding message_pairs
  serialize_full full = rw (
    serialize_buffer-set_pairs size d t kcos,
    set_pairs_too_small d t (kcos_pairs kcos) size (omega (arith, serialized_size-pairs d t kcos))
        (omega (arith, serialized_size-pairs d t kcos)),
  )

  pub serialize_fit :
      serialized_size d t kcos ≤ size
      → serialize_buffer size d t kcos ≡ ok (message (message_pairs d t kcos))
  unfolding reset_serializer
  serialize_fit fits =
      rw
        (
          serialize_buffer-set_pairs size d t kcos,
          set_pairs_fit (message_pairs d t kcos) (reset_serializer size) (omega arith)
              (omega (arith, serialized_size-pairs d t kcos))
              (omega (arith, serialized_size-pairs d t kcos)),
        )
        (ap ok (
          finalize-with_pairs (message_pairs d t kcos) size
            (omega (arith, serialized_size-pairs d t kcos))))

-- `serializeBuffer` succeeds exactly when the buffer has `serializedSize` bytes, and then it writes
-- the message; otherwise it throws. The sizes must be smaller than 2^64.
pub serialize_buffer_lem :
    (size : ℕ) (db_name table_name : Bytes) (kcos : List Kco)
    → serialized_size db_name table_name kcos < 2 ^ 64
    → serialize_buffer size db_name table_name kcos ≡ (
        if leb (serialized_size db_name table_name kcos) size
        then ok (message (message_pairs db_name table_name kcos))
        else err buffer_full)
serialize_buffer_lem size d t kcos h = elim (dec_lt size (serialized_size d t kcos)) [
  | yes full ↦ ground (arith, serialize_full size d t kcos h full)
  | no fits ↦ ground (arith, serialize_fit size d t kcos h (omega arith))
]

-- The message that is returned has the length `serializedSize`.
pub length-message :
    (db_name table_name : Bytes) (kcos : List Kco)
    → length (message (message_pairs db_name table_name kcos))
      ≡ serialized_size db_name table_name kcos
unfolding message
length-message d t kcos =
    simp (length-append, length-pairs_bytes, serialized_size-pairs)
      (omega (arith, length-size_bytes (length (message_pairs d t kcos))))
