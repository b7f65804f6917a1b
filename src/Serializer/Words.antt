-- ===== src/Serializer/Words.antt =====
-- A `size_t` in memory: 8 bytes, the lowest first.
use sonic_swss_common.Prelude.{
  ℕ, zero, suc, ◌+◌, ◌*◌, ◌/◌, ◌%◌, ◌^◌, ◌<◌, ◌≡◌, refl, [], ◌∷◌, Bytes, length, arith,
}

unfoldable pub le_bytes : ℕ → ℕ → Bytes
le_bytes zero n = []
le_bytes (suc k) n = (n % 256) ∷ le_bytes k (n / 256)

unfoldable pub size_value : Bytes → ℕ
size_value [] = 0
size_value (b ∷ s) = b + 256 * size_value s

unfoldable pub size_bytes : ℕ → Bytes
unfolding le_bytes
size_bytes n = le_bytes 8 n

pub length-size_bytes : (n : ℕ) → length (size_bytes n) ≡ 8
unfolding size_bytes
length-size_bytes n = refl

pub size_value-size_bytes : (n : ℕ) → n < 2 ^ 64 → size_value (size_bytes n) ≡ n
unfolding size_bytes size_value
size_value-size_bytes n h = omega arith
