-- ===== src/Redis.antt =====
-- What the source relies on of the Redis server: the commands that its scripts and clients send,
-- with their documented behaviour. The server is not part of the repository, so it is a parameter.
-- A key holds a hash or a set; Redis refuses a command on a key of the other kind, and the source
-- never sends one (StateTable/Names shows that its names differ). `keys p` is `KEYS p*`, for a
-- prefix without glob characters.
pub mod Loops
pub mod Memory
pub mod Model
use sonic_swss_common.Prelude.{
  ℕ, ◌≤◌, ◌<◌, Bool, true, false, ◌&&◌, List, [], ◌∷◌, ◌++◌, Option, none, some, ◌≡◌, Bytes,
  bytes_eq, ◌==◌, if◌then◌else◌, contains, lookup, length, starts_with, Distinct,
}
use sonic_swss_common.Kco.{FieldValue}

pub record Redis : Type 1 where
  pub Db : Type 0
  -- HGETALL, HGET, SISMEMBER, KEYS and SCARD change nothing.
  pub hgetall : Bytes → Db → List FieldValue
  pub hget : Bytes → Bytes → Db → Option Bytes
  pub sismember : Bytes → Bytes → Db → Bool
  pub keys : Bytes → Db → List Bytes
  pub scard : Bytes → Db → ℕ
  -- All messages so far, each with its channel.
  pub published : Db → List (Bytes × Bytes)
  pub hset : Bytes → Bytes → Bytes → Db → Db
  pub hdel : Bytes → Bytes → Db → Db
  -- SADD and SREM reply with the number of members that are new, or gone.
  pub sadd : Bytes → Bytes → Db → ℕ × Db
  pub srem : Bytes → Bytes → Db → ℕ × Db
  pub spop : Bytes → ℕ → Db → List Bytes × Db
  pub del : Bytes → Db → Db
  pub publish : Bytes → Bytes → Db → Db
  pub lookup-hgetall : (k f : Bytes) (db : Db) → lookup f (hgetall k db) ≡ hget k f db
  pub hgetall-Distinct : (k : Bytes) (db : Db) → Distinct (hgetall k db)
  pub keys-starts_with :
      (p k : Bytes) (db : Db) → contains (keys p db) k ≡ true → starts_with p k ≡ true
  pub contains-keys :
      (p k f v : Bytes) (db : Db)
      → hget k f db ≡ some v
      → starts_with p k ≡ true
      → contains (keys p db) k ≡ true
  pub sadd_reply : (k m : Bytes) (db : Db) → (sadd k m db).0 ≡ (if sismember k m db then 0 else 1)
  pub srem_reply : (k m : Bytes) (db : Db) → (srem k m db).0 ≡ (if sismember k m db then 1 else 0)
  -- SPOP takes distinct members, and all of them if there are no more than asked for.
  pub spop-sismember :
      (k : Bytes) (n : ℕ) (m : Bytes) (db : Db)
      → contains (spop k n db).0 m ≡ true
      → sismember k m db ≡ true
  pub spop_all :
      (k : Bytes) (n : ℕ) (m : Bytes) (db : Db)
      → length (spop k n db).0 < n
      → sismember k m db ≡ true
      → contains (spop k n db).0 m ≡ true
  pub hget-hset :
      (k f v j g : Bytes) (db : Db)
      → hget j g (hset k f v db) ≡ (if k == j && f == g then some v else hget j g db)
  pub hget-hdel :
      (k f j g : Bytes) (db : Db)
      → hget j g (hdel k f db) ≡ (if k == j && f == g then none else hget j g db)
  pub hget-sadd : (k m j g : Bytes) (db : Db) → hget j g (sadd k m db).1 ≡ hget j g db
  pub hget-srem : (k m j g : Bytes) (db : Db) → hget j g (srem k m db).1 ≡ hget j g db
  pub hget-spop :
      (k : Bytes) (n : ℕ) (j g : Bytes) (db : Db) → hget j g (spop k n db).1 ≡ hget j g db
  pub hget-del :
      (k j g : Bytes) (db : Db) → hget j g (del k db) ≡ (if k == j then none else hget j g db)
  pub hget-publish : (c m j g : Bytes) (db : Db) → hget j g (publish c m db) ≡ hget j g db
  pub sismember-hset :
      (k f v j n : Bytes) (db : Db) → sismember j n (hset k f v db) ≡ sismember j n db
  pub sismember-hdel : (k f j n : Bytes) (db : Db) → sismember j n (hdel k f db) ≡ sismember j n db
  pub sismember-sadd :
      (k m j n : Bytes) (db : Db)
      → sismember j n (sadd k m db).1 ≡ (if k == j && m == n then true else sismember j n db)
  pub sismember-srem :
      (k m j n : Bytes) (db : Db)
      → sismember j n (srem k m db).1 ≡ (if k == j && m == n then false else sismember j n db)
  pub sismember-spop :
      (k : Bytes) (c : ℕ) (j n : Bytes) (db : Db)
      → sismember j n (spop k c db).1
        ≡ (if k == j && contains (spop k c db).0 n then false else sismember j n db)
  pub sismember-del :
      (k j n : Bytes) (db : Db)
      → sismember j n (del k db) ≡ (if k == j then false else sismember j n db)
  pub sismember-publish :
      (c m j n : Bytes) (db : Db) → sismember j n (publish c m db) ≡ sismember j n db
  pub published-hset : (k f v : Bytes) (db : Db) → published (hset k f v db) ≡ published db
  pub published-hdel : (k f : Bytes) (db : Db) → published (hdel k f db) ≡ published db
  pub published-sadd : (k m : Bytes) (db : Db) → published (sadd k m db).1 ≡ published db
  pub published-srem : (k m : Bytes) (db : Db) → published (srem k m db).1 ≡ published db
  pub published-spop : (k : Bytes) (n : ℕ) (db : Db) → published (spop k n db).1 ≡ published db
  pub published-del : (k : Bytes) (db : Db) → published (del k db) ≡ published db
  pub published-publish :
      (c m : Bytes) (db : Db) → published (publish c m db) ≡ published db ++ (c, m) ∷ []
