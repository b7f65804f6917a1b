-- ===== src/Serializer/RoundTrip.antt =====
-- `deserializeBuffer` undoes `serializeBuffer`.
use sonic_swss_common.Prelude.{
  ℕ, ◌^◌, ◌<◌, ◌≤◌, ◌≡◌, refl, List, [], ◌∷◌, ◌++◌, Bytes, length, map, arith, append_assoc,
  append-nil, ap, ◌∙◌, All,
}
use sonic_swss_common.Kco.{FieldValue, Kco, set_command, del_command}
use sonic_swss_common.Decimal.{pos, to_string}
use sonic_swss_common.Decimal.RoundTrip.{stoi-to_string}
use sonic_swss_common.Serializer.{
  ok, ◌>>=◌, deserialize_buffer, serialized_size, Progress, push_if_done, take_pair, take_pairs,
  serialize_buffer,
}
use sonic_swss_common.Serializer.Message.{kcos_pairs, message_pairs, message, serialized_size-pairs}
use sonic_swss_common.Serializer.Writing.{serialize_fit}
use sonic_swss_common.Serializer.Reading.{deserialize_pairs-message}

-- The operation is not sent: a request without attributes comes back as a DEL, any other as a SET.
unfoldable pub received : Kco → Kco
received kco = record kco { op = elim kco.fvs [ [] ↦ del_command | _ ∷ _ ↦ set_command ] }

-- `fvs_size` is a C++ `int`.
abbrev pub CountFits : Kco → Type 0
CountFits kco = length kco.fvs < 2 ^ 31

-- Between two requests.
abbrev between : Bytes → Bytes → Kco → List Kco → Progress
between d t kco kcos = record {
  fvs_size = pos 0;
  db_name = d;
  table_name = t;
  kco = kco;
  kcos = kcos;
}

-- Inside a request, with the attributes `fvs` still to come.
abbrev inside : Bytes → Bytes → Kco → List Kco → List FieldValue → Progress
inside d t kco kcos fvs = record {
  fvs_size = pos (length fvs);
  db_name = d;
  table_name = t;
  kco = kco;
  kcos = kcos;
}

abbrev with_fvs : Kco → List FieldValue → Kco
with_fvs kco fvs = record kco { fvs = kco.fvs ++ fvs }

take_attributes :
    (fv : FieldValue) (fvs rest : List FieldValue) (d t : Bytes) (kco : Kco) (kcos : List Kco)
    → take_pairs ((fv ∷ fvs) ++ rest) (inside d t kco kcos (fv ∷ fvs))
      ≡ take_pairs rest
          (between d t (with_fvs kco (fv ∷ fvs)) (kcos ++ with_fvs kco (fv ∷ fvs) ∷ []))
unfolding take_pairs take_pair push_if_done
take_attributes fv [] rest d t kco kcos = refl
take_attributes fv (fv' ∷ fvs) rest d t kco kcos =
    take_attributes fv' fvs rest d t (with_fvs kco (fv ∷ [])) kcos ∙ simp append_assoc

take_request :
    (key op : Bytes) (fvs rest : List FieldValue) (d t : Bytes) (prev : Kco) (kcos : List Kco)
    → length fvs < 2 ^ 31
    → take_pairs ((key, to_string (length fvs)) ∷ (fvs ++ rest)) (between d t prev kcos) ≡ (
        let kco = received (record { key = key; op = op; fvs = fvs }) in
        take_pairs rest (between d t kco (kcos ++ kco ∷ [])))
unfolding received take_pairs take_pair
take_request key op [] rest d t prev kcos h =
    rw (stoi-to_string 0 (omega arith)) (unfold push_if_done in refl)
take_request key op (fv ∷ fvs) rest d t prev kcos h = rw (stoi-to_string (length (fv ∷ fvs)) h) (
    unfold push_if_done in
    take_attributes fv fvs rest d t (record { key = key; op = set_command; fvs = [] }) kcos)

take_kcos :
    (kcos : List Kco) (d t : Bytes) (prev : Kco) (done : List Kco)
    → All CountFits kcos
    → (last : Kco) × (take_pairs (kcos_pairs kcos) (between d t prev done)
        ≡ ok (between d t last (done ++ map received kcos)))
unfolding kcos_pairs
take_kcos [] d t prev done h = (prev, unfold take_pairs in rw append-nil)
take_kcos (kco ∷ kcos) d t prev done (h, hs) =
    let (last, e) = take_kcos kcos d t (received kco) (done ++ received kco ∷ []) hs in
    (
      last,
      take_request kco.key kco.op kco.fvs (kcos_pairs kcos) d t prev done h
          ∙ e
          ∙ ap (λ l. ok (between d t last l))
              (append_assoc done (received kco ∷ []) (map received kcos)),
    )

deserialize_buffer-message :
    (size : ℕ) (db_name table_name : Bytes) (kcos : List Kco)
    → size < 2 ^ 64
    → serialized_size db_name table_name kcos ≤ size
    → All CountFits kcos
    → deserialize_buffer size (message (message_pairs db_name table_name kcos))
      ≡ ok (db_name, table_name, map received kcos)
unfolding deserialize_buffer
deserialize_buffer-message size d t kcos h fits counts =
    let (last, e) = take_kcos kcos d t (record { key = []; op = []; fvs = [] }) [] counts in
    rw
      (deserialize_pairs-message (message_pairs d t kcos) size h
        (omega (arith, serialized_size-pairs d t kcos)))
      (unfold take_pairs message_pairs take_pair in rw e)

-- What the producer serializes, the consumer reads back: the names of the database and the table
-- and every request in order, with its key and its attributes; the operation is DEL for a request
-- without attributes and SET for any other. Both buffers must have room for the message, the
-- consumer's size must fit a `size_t`, and each request must have fewer than 2^31 attributes.
pub deserialize-serialize :
    (size room : ℕ) (db_name table_name : Bytes) (kcos : List Kco)
    → room < 2 ^ 64
    → serialized_size db_name table_name kcos ≤ size
    → serialized_size db_name table_name kcos ≤ room
    → All CountFits kcos
    → (serialize_buffer size db_name table_name kcos >>= deserialize_buffer room)
      ≡ ok (db_name, table_name, map received kcos)
deserialize-serialize size room d t kcos h fits fits' counts =
    rw (serialize_fit size d t kcos (omega arith) fits)
      (deserialize_buffer-message room d t kcos h fits' counts)
