-- ===== src/Serializer/Overrun.antt =====
-- Where `deserializeBuffer` reads past the end of its buffer.
use sonic_swss_common.Prelude.{ℕ, zero, suc, ◌+◌, ◌^◌, ◌<◌, ◌≤◌, ◌≡◌, ◌++◌, Bytes, length, arith}
use sonic_swss_common.Serializer.Words.{size_bytes}
use sonic_swss_common.Serializer.{
  err, out_of_bounds, read_size, read_string, read_item, read_pairs, deserialize_pairs,
}
use sonic_swss_common.Serializer.Reading.{read_size_lem}

read_size_short : (s : Bytes) → length s < 8 → read_size s ≡ err out_of_bounds
unfolding read_size
read_size_short s h = ground arith

-- The length of a key is read before any check: a buffer that announces a pair, by a count that
-- fits a `size_t`, and ends less than 8 bytes later is read past its end, whatever its size is
-- said to be.
pub deserialize_pairs_short :
    (size kvp_count : ℕ) (s : Bytes)
    → 0 < kvp_count
    → kvp_count < 2 ^ 64
    → length s < 8
    → deserialize_pairs size (size_bytes kvp_count ++ s) ≡ err out_of_bounds
unfolding deserialize_pairs read_pairs read_item
deserialize_pairs_short size zero s pos h short = absurd (omega arith)
deserialize_pairs_short size (suc n) s pos h short =
    rw (read_size_lem (suc n) s h, read_size_short s short)

-- The check on a key's length is made modulo 2^64: a length so large that the sum wraps around to at
-- most the buffer size passes it, and the text is taken from beyond the end of the buffer.
pub deserialize_pairs_wrap :
    (size kvp_count klen : ℕ) (s : Bytes)
    → 0 < kvp_count
    → kvp_count < 2 ^ 64
    → klen < 2 ^ 64
    → 2 ^ 64 ≤ 16 + klen
    → klen + 16 ≤ 2 ^ 64 + size
    → length s < klen
    → deserialize_pairs size (size_bytes kvp_count ++ (size_bytes klen ++ s)) ≡ err out_of_bounds
unfolding deserialize_pairs read_pairs read_item read_string
deserialize_pairs_wrap size zero klen s pos h k wraps passes short = absurd (omega arith)
deserialize_pairs_wrap size (suc n) klen s pos h k wraps passes short =
    rw (read_size_lem (suc n) (size_bytes klen ++ s) h, read_size_lem klen s k) (ground arith)
