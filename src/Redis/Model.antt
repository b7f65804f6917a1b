-- ===== src/Redis/Model.antt =====
-- The Redis in memory keeps the laws of the interface.
use sonic_swss_common.Prelude.{
  ℕ, ◌<◌, Bool, true, false, ◌&&◌, List, [], ◌∷◌, ◌++◌, Option, none, some, ◌≡◌, refl, Bytes,
  bytes_eq, ◌==◌, bytes_beq, starts_with, if◌then◌else◌, contains, lookup, insert, erase,
  lookup-insert, lookup-erase, Distinct, length, take, arith, eq_iff, inl, inr, Option-cases,
}
use sonic_swss_common.Kco.{FieldValue}
use sonic_swss_common.Redis.{Redis}
use sonic_swss_common.Redis.Memory.{
  Memory, hash, members, fields, names, hset, hdel, sadd, srem, spop, del, publish, without,
  is_empty, lookup-fields, fields-Distinct, contains-without, names-starts_with, contains-names,
  contains-append, contains-take, take_short,
}

unfoldable pub hget : Bytes → Bytes → Memory → Option Bytes
unfolding hash
hget k f db = lookup f (hash k db)

unfoldable pub sismember : Bytes → Bytes → Memory → Bool
unfolding members
sismember k m db = contains (members k db) m

unfoldable pub hgetall : Bytes → Memory → List FieldValue
unfolding hash fields
hgetall k db = fields (hash k db)

unfoldable pub keys : Bytes → Memory → List Bytes
unfolding names
keys p db = names p db.hashes ++ names p db.sets

pub keys_prefix :
    (p k : Bytes) (db : Memory) → contains (keys p db) k ≡ true → starts_with p k ≡ true
unfolding keys
keys_prefix p k db h = ground (
  arith,
  contains-append (names p db.hashes) (names p db.sets) k,
  names-starts_with p k db.hashes,
  names-starts_with p k db.sets,
)

pub keys_found :
    (p k f v : Bytes) (db : Memory)
    → hget k f db ≡ some v
    → starts_with p k ≡ true
    → contains (keys p db) k ≡ true
unfolding keys hget
keys_found p k f v db h s = elim (Option-cases (lookup k db.hashes)) [
  | inl e ↦ unfold lookup in ground arith
  | inr (l, e) ↦
      let full : is_empty l ≡ false = unfold lookup is_empty in ground arith in
      ground (
        arith,
        contains-append (names p db.hashes) (names p db.sets) k,
        contains-names p k db.hashes l e full s,
      )
]

pub spop_found :
    (k : Bytes) (n : ℕ) (m : Bytes) (db : Memory)
    → length (spop k n db).0 < n
    → sismember k m db ≡ true
    → contains (spop k n db).0 m ≡ true
unfolding spop sismember
spop_found k n m db h e = rw (take_short n (members k db) h) e

module _ (k f v j g : Bytes) (db : Memory) where
  pub hget_hset : hget j g (hset k f v db) ≡ (if k == j && f == g then some v else hget j g db)
  unfolding hget hset
  hget_hset = ground (
    arith,
    lookup-insert k j (insert f v (hash k db)) db.hashes,
    lookup-insert f g v (hash k db),
    eq_iff k j,
  )

  pub hget_hdel : hget j g (hdel k f db) ≡ (if k == j && f == g then none else hget j g db)
  unfolding hget hdel
  hget_hdel = ground (
    arith,
    lookup-insert k j (erase f (hash k db)) db.hashes,
    lookup-erase f g (hash k db),
    eq_iff k j,
  )

  pub hget_del : hget j g (del k db) ≡ (if k == j then none else hget j g db)
  unfolding hget del lookup
  hget_del = ground (arith, lookup-erase k j db.hashes)

  pub sismember_del : sismember j g (del k db) ≡ (if k == j then false else sismember j g db)
  unfolding sismember del contains
  sismember_del = ground (arith, lookup-erase k j db.sets)

  pub sismember_sadd :
      sismember j g (sadd k f db).1 ≡ (if k == j && f == g then true else sismember j g db)
  unfolding sismember sadd contains
  sismember_sadd =
      ground (arith, lookup-insert k j (f ∷ members k db) db.sets, eq_iff k j, eq_iff f g)

  pub sismember_srem :
      sismember j g (srem k f db).1 ≡ (if k == j && f == g then false else sismember j g db)
  unfolding sismember srem
  sismember_srem = ground (
    arith,
    lookup-insert k j (without (bytes_beq f) (members k db)) db.sets,
    contains-without (bytes_beq f) (members k db) g,
    eq_iff k j,
    eq_iff f g,
  )

pub sismember_spop :
    (k : Bytes) (c : ℕ) (j n : Bytes) (db : Memory)
    → sismember j n (spop k c db).1
      ≡ (if k == j && contains (spop k c db).0 n then false else sismember j n db)
unfolding sismember spop
sismember_spop k c j n db =
    let taken = take c (members k db) in
    ground (
      arith,
      lookup-insert k j (without (contains taken) (members k db)) db.sets,
      contains-without (contains taken) (members k db) n,
      eq_iff k j,
    )

pub sadd_replies :
    (k m : Bytes) (db : Memory) → (sadd k m db).0 ≡ (if sismember k m db then 0 else 1)
unfolding sismember sadd
sadd_replies k m db = ground arith

pub srem_replies :
    (k m : Bytes) (db : Memory) → (srem k m db).0 ≡ (if sismember k m db then 1 else 0)
unfolding sismember srem
srem_replies k m db = ground arith

pub hget_sadd : (k m j g : Bytes) (db : Memory) → hget j g (sadd k m db).1 ≡ hget j g db
unfolding hget sadd
hget_sadd k m j g db = ground arith

pub log_sadd : (k m : Bytes) (db : Memory) → (sadd k m db).1.log ≡ db.log
unfolding sadd
log_sadd k m db = ground arith

pub hget_srem : (k m j g : Bytes) (db : Memory) → hget j g (srem k m db).1 ≡ hget j g db
unfolding hget srem
hget_srem k m j g db = refl

pub hget_spop :
    (k : Bytes) (n : ℕ) (j g : Bytes) (db : Memory) → hget j g (spop k n db).1 ≡ hget j g db
unfolding hget spop
hget_spop k n j g db = refl

pub hget_publish : (c m j g : Bytes) (db : Memory) → hget j g (publish c m db) ≡ hget j g db
unfolding hget publish
hget_publish c m j g db = refl

pub sismember_hset :
    (k f v j n : Bytes) (db : Memory) → sismember j n (hset k f v db) ≡ sismember j n db
unfolding sismember hset
sismember_hset k f v j n db = refl

pub sismember_hdel :
    (k f j n : Bytes) (db : Memory) → sismember j n (hdel k f db) ≡ sismember j n db
unfolding sismember hdel
sismember_hdel k f j n db = refl

pub sismember_publish :
    (c m j n : Bytes) (db : Memory) → sismember j n (publish c m db) ≡ sismember j n db
unfolding sismember publish
sismember_publish c m j n db = refl

pub log_hset : (k f v : Bytes) (db : Memory) → (hset k f v db).log ≡ db.log
unfolding hset
log_hset k f v db = refl

pub log_hdel : (k f : Bytes) (db : Memory) → (hdel k f db).log ≡ db.log
unfolding hdel
log_hdel k f db = refl

pub log_srem : (k m : Bytes) (db : Memory) → (srem k m db).1.log ≡ db.log
unfolding srem
log_srem k m db = refl

pub log_spop : (k : Bytes) (n : ℕ) (db : Memory) → (spop k n db).1.log ≡ db.log
unfolding spop
log_spop k n db = refl

pub log_del : (k : Bytes) (db : Memory) → (del k db).log ≡ db.log
unfolding del
log_del k db = refl

pub log_publish : (c m : Bytes) (db : Memory) → (publish c m db).log ≡ db.log ++ (c, m) ∷ []
unfolding publish
log_publish c m db = refl

pub lookup_hgetall : (k f : Bytes) (db : Memory) → lookup f (hgetall k db) ≡ hget k f db
unfolding hget hgetall
lookup_hgetall k f db = lookup-fields f (hash k db)

pub hgetall-Distinct : (k : Bytes) (db : Memory) → Distinct (hgetall k db)
unfolding hgetall
hgetall-Distinct k db = fields-Distinct (hash k db)

pub spop_members :
    (k : Bytes) (n : ℕ) (m : Bytes) (db : Memory)
    → contains (spop k n db).0 m ≡ true
    → sismember k m db ≡ true
unfolding spop sismember
spop_members k n m db h = contains-take n (members k db) m h

abbrev pub memory_redis : Redis
memory_redis = record {
  Db = Memory;
  hgetall = hgetall;
  hget = hget;
  sismember = sismember;
  keys = keys;
  scard = λ k db. length (members k db);
  published = λ db. db.log;
  hset = hset;
  hdel = hdel;
  sadd = sadd;
  srem = srem;
  spop = spop;
  del = del;
  publish = publish;
  lookup-hgetall = lookup_hgetall;
  hgetall-Distinct = hgetall-Distinct;
  keys-starts_with = keys_prefix;
  contains-keys = keys_found;
  sadd_reply = sadd_replies;
  srem_reply = srem_replies;
  spop-sismember = spop_members;
  spop_all = spop_found;
  hget-hset = hget_hset;
  hget-hdel = λ k f j g db. hget_hdel k f [] j g db;
  hget-sadd = hget_sadd;
  hget-srem = hget_srem;
  hget-spop = hget_spop;
  hget-del = λ k j g db. hget_del k [] [] j g db;
  hget-publish = hget_publish;
  sismember-hset = sismember_hset;
  sismember-hdel = sismember_hdel;
  sismember-sadd = λ k m j n db. sismember_sadd k m [] j n db;
  sismember-srem = λ k m j n db. sismember_srem k m [] j n db;
  sismember-spop = sismember_spop;
  sismember-del = λ k j n db. sismember_del k [] [] j n db;
  sismember-publish = sismember_publish;
  published-hset = log_hset;
  published-hdel = log_hdel;
  published-sadd = log_sadd;
  published-srem = log_srem;
  published-spop = log_spop;
  published-del = log_del;
  published-publish = log_publish;
}
