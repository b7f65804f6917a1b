-- ===== src/Serializer/Examples.antt =====
-- Tests of the binary serializer, and its theorems at concrete inputs.
use sonic_swss_common.Prelude.{
  ◌≡◌, refl, List, [], ◌∷◌, ◌++◌, map, codes, arith, leb, if◌then◌else◌,
}
use sonic_swss_common.Decimal.{to_string, stoi}
use sonic_swss_common.Kco.{Kco, set_command, del_command}
use sonic_swss_common.Serializer.{
  ok, err, buffer_full, out_of_bounds, ◌>>=◌, serialized_size, serialize_buffer, deserialize_buffer,
  deserialize_pairs, set_key_and_value, set_data, set_kcos, set_pairs, reset_serializer, finalize,
  read_size, read_item, read_pairs, take_pairs, take_pair,
}
use sonic_swss_common.Serializer.Words.{size_bytes, size_value}
use sonic_swss_common.Serializer.Message.{message, message_pairs}
use sonic_swss_common.Serializer.Writing.{serialize_buffer_lem}
use sonic_swss_common.Serializer.RoundTrip.{received, deserialize-serialize}
use sonic_swss_common.Serializer.Overrun.{deserialize_pairs_short}

abbrev requests : List Kco
requests =
    record { key = codes "k"; op = set_command; fvs = (codes "f", codes "v") ∷ [] }
    ∷ record { key = codes "gone"; op = set_command; fvs = [] }
    ∷ []

round_trip_test :
    (serialize_buffer 200 (codes "db") (codes "t") requests >>= deserialize_buffer 200)
    ≡ ok (
      codes "db",
      codes "t",
      record { key = codes "k"; op = set_command; fvs = (codes "f", codes "v") ∷ [] }
          ∷ record { key = codes "gone"; op = del_command; fvs = [] }
          ∷ [],
    )
unfolding serialize_buffer deserialize_buffer set_key_and_value set_data set_kcos set_pairs
    reset_serializer finalize size_bytes size_value read_size read_item read_pairs deserialize_pairs
    take_pairs take_pair to_string stoi
round_trip_test = refl

serialize_buffer_lem_example : serialize_buffer 200 (codes "db") (codes "t") requests ≡ (
    if leb (serialized_size (codes "db") (codes "t") requests) 200
    then ok (message (message_pairs (codes "db") (codes "t") requests))
    else err buffer_full)
serialize_buffer_lem_example =
    serialize_buffer_lem 200 (codes "db") (codes "t") requests
      (unfold serialized_size to_string in omega arith)

deserialize-serialize_example :
    (serialize_buffer 200 (codes "db") (codes "t") requests >>= deserialize_buffer 300)
    ≡ ok (codes "db", codes "t", map received requests)
deserialize-serialize_example =
    deserialize-serialize 200 300 (codes "db") (codes "t") requests (omega arith)
      (unfold serialized_size to_string in omega arith)
      (unfold serialized_size to_string in omega arith) (omega arith)

deserialize_pairs_short_example :
    deserialize_pairs 100 (size_bytes 1 ++ codes "abc") ≡ err out_of_bounds
deserialize_pairs_short_example =
    deserialize_pairs_short 100 1 (codes "abc") (omega arith) (omega arith) (omega arith)
