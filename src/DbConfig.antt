-- ===== src/DbConfig.antt =====
-- common/dbconnector.h and common/dbconnector.cpp: SonicDBConfig, where the databases are.
pub mod Parse
pub mod Load
pub mod Find
pub mod Numbered
pub mod Valid
pub mod Asked
mod Examples
use sonic_swss_common.Prelude.{
  ℕ, zero, suc, Bool, true, false, ◌&&◌, ◌||◌, not, List, [], ◌∷◌, ◌++◌, Option, none, some, Bytes,
  codes, lookup, insert, ◌==◌, nat_eq, bytes_eq, Equality, eq_iff, if◌then◌else◌, ◌≡◌, ◌↔◌, arith,
}
use sonic_swss_common.Decimal.{ℤ, pos, negsuc}

pub record RedisInstInfo : Type 0 where
  pub unix_socket_path : Bytes
  pub hostname : Bytes
  pub port : ℤ

pub record SonicDbInfo : Type 0 where
  pub inst_name : Bytes
  pub db_id : ℤ
  pub separator : Bytes

pub record SonicDbKey : Type 0 where
  pub container_name : Bytes
  pub netns : Bytes

abbrev pub empty_key : SonicDbKey
empty_key = record { container_name = []; netns = [] }

-- `SonicDBKey::operator==`
unfoldable pub same_key : SonicDbKey → SonicDbKey → Bool
same_key k other = k.container_name == other.container_name && k.netns == other.netns

pub same_key_iff : (k other : SonicDbKey) → (same_key k other ≡ true) ↔ (k ≡ other)
unfolding same_key
same_key_iff k other =
    ground (arith, eq_iff k.container_name other.container_name, eq_iff k.netns other.netns)

instance abbrev pub key_eq : Equality SonicDbKey
key_eq = record { test = same_key; test_iff = same_key_iff }

unfoldable pub is_empty : SonicDbKey → Bool
is_empty k = k.container_name == [] && k.netns == []

unfoldable pub int_test : ℤ → ℤ → Bool
int_test (pos m) (pos n) = m == n
int_test (negsuc m) (negsuc n) = m == n
int_test _ _ = false

pub int_test_iff : (x y : ℤ) → (int_test x y ≡ true) ↔ (x ≡ y)
unfolding int_test
int_test_iff (pos m) (pos n) = ground (arith, eq_iff m n)
int_test_iff (negsuc m) (negsuc n) = ground (arith, eq_iff m n)
int_test_iff (pos m) (negsuc n) = ground arith
int_test_iff (negsuc m) (pos n) = ground arith

instance abbrev pub int_eq : Equality ℤ
int_eq = record { test = int_test; test_iff = int_test_iff }

abbrev pub Instances : Type 0
Instances = List (Bytes × RedisInstInfo)

abbrev pub Databases : Type 0
Databases = List (Bytes × SonicDbInfo)

abbrev pub Separators : Type 0
Separators = List (ℤ × Bytes)

-- The static members. The two flags are `m_init` and `m_global_init`.
pub record Config : Type 0 where
  pub inst_info : List (SonicDbKey × Instances)
  pub db_info : List (SonicDbKey × Databases)
  pub db_separator : List (SonicDbKey × Separators)
  pub init : Bool
  pub global_init : Bool

-- `emplace`, which keeps what is there.
unfoldable pub emplace_at {ℓ κ} :
    {K : Type ℓ} {V : Type κ} ⦃e : Equality K⦄ → Option V → K → V → List (K × V) → List (K × V)
emplace_at none key value map = insert key value map
emplace_at (some old) key value map = map

unfoldable pub emplace {ℓ κ} :
    {K : Type ℓ} {V : Type κ} ⦃e : Equality K⦄ → K → V → List (K × V) → List (K × V)
unfolding emplace_at
emplace key value map = emplace_at (lookup key map) key value map
