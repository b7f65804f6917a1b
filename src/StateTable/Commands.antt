-- ===== src/StateTable/Commands.antt =====
-- What the producer's commands do to Redis: the arguments that are assembled for a script give back,
-- in the script, the names and values that the operation was called with.
use sonic_swss_common.Prelude.{
  ℕ, zero, suc, ◌+◌, ◌*◌, Bool, List, [], ◌∷◌, ◌++◌, Bytes, bytes_eq, ◌≡◌, refl, arith, length,
  replicate, take, drop, map, codes, take-append, drop-append, ap, append_assoc,
}
use sonic_swss_common.Kco.{FieldValue, Kco}
use sonic_swss_common.Decimal.RoundTrip.{scan-to_string}
use sonic_swss_common.Redis.{Redis}
use sonic_swss_common.Redis.Loops.{hset_all}
use sonic_swss_common.StateTable.View.{pend_set, pend_del}
use sonic_swss_common.StateTable.Names.{
  Table, key_name, state_name, state_hash_prefix, key_set_name, del_key_set_name, channel_name,
}
use sonic_swss_common.StateTable.Scripts.{
  evalsha, lua_pub, hset_each, lua_set, lua_del, hset_count, batched_set_each, batched_del_each,
  lua_batched_set, lua_batched_del,
}
use sonic_swss_common.StateTable.Producer.{
  flatten, flatten_kcos, set_args, del_args, batched_set_args, batched_del_args,
}

take-replicate {ℓ} :
    {A : Type ℓ} (n : ℕ) (a : A) (ys : List A) → take n (replicate n a ++ ys) ≡ replicate n a
take-replicate zero a ys = refl
take-replicate (suc n) a ys = ap (λ l. a ∷ l) (take-replicate n a ys)

drop-replicate {ℓ} : {A : Type ℓ} (n : ℕ) (a : A) (ys : List A) → drop n (replicate n a ++ ys) ≡ ys
drop-replicate zero a ys = refl
drop-replicate (suc n) a ys = drop-replicate n a ys

pub take-map {ℓ κ} :
    {A : Type ℓ} {B : Type κ} (f : A → B) (xs : List A) (ys : List B)
    → take (length xs) (map f xs ++ ys) ≡ map f xs
take-map f [] ys = refl
take-map f (x ∷ xs) ys = ap (λ l. f x ∷ l) (take-map f xs ys)

pub drop-map {ℓ κ} :
    {A : Type ℓ} {B : Type κ} (f : A → B) (xs : List A) (ys : List B)
    → drop (length xs) (map f xs ++ ys) ≡ ys
drop-map f [] ys = refl
drop-map f (x ∷ xs) ys = drop-map f xs ys

pub drop-flatten :
    (fvs : List FieldValue) (ys : List Bytes) → drop (length fvs * 2) (flatten fvs ++ ys) ≡ ys
unfolding flatten
drop-flatten [] ys = refl
drop-flatten ((f, v) ∷ fvs) ys =
    let two : suc (length fvs) * 2 ≡ suc (suc (length fvs * 2)) = omega arith in
    rw two (drop-flatten fvs ys)

module _ (r : Redis) where
  open r use {Db, hset, sadd, del}

  hset_each-replicate :
      (hash : Bytes) (fvs : List FieldValue) (db : Db)
      → hset_each r (replicate (length fvs) hash) (flatten fvs) db ≡ hset_all r hash fvs db
  unfolding hset_each flatten hset_all
  hset_each-replicate hash [] db = refl
  hset_each-replicate hash ((f, v) ∷ fvs) db = hset_each-replicate hash fvs (hset hash f v db)

  -- SADD of the key, HSET of the values, and the notification if the key is new.
  pub run_set :
      (with_pub : Bool) (t : Table) (db_id : ℕ) (key : Bytes) (fvs : List FieldValue) (db : Db)
      → evalsha r (lua_set r with_pub) (set_args t db_id key fvs) db
        ≡ lua_pub r with_pub
            (sadd (key_set_name t) key db).0
            (channel_name t db_id)
            (codes "G")
            (hset_all r (state_hash_prefix ++ key_name t key) fvs (sadd (key_set_name t) key db).1)
  unfolding evalsha set_args lua_set
  run_set with_pub t db_id key fvs db =
      let two : length fvs + 2 ≡ suc (suc (length fvs)) = omega arith in
      rw two (simp (take-replicate, drop-replicate, hset_each-replicate))

  -- SADD to both sets, DEL of the pending values, and the notification if the key is new.
  pub run_del :
      (with_pub : Bool) (t : Table) (db_id : ℕ) (key : Bytes) (db : Db)
      → evalsha r (lua_del r with_pub) (del_args t db_id key) db
        ≡ lua_pub r with_pub (sadd (key_set_name t) key db).0 (channel_name t db_id) (codes "G") (
            del
              (state_hash_prefix ++ key_name t key)
              (sadd (del_key_set_name t) key (sadd (key_set_name t) key db).1).1)
  unfolding evalsha del_args lua_del
  run_del with_pub t db_id key db = refl

  pub hset_count-flatten :
      (hash : Bytes) (fvs : List FieldValue) (rest : List Bytes) (db : Db)
      → hset_count r hash (length fvs) (flatten fvs ++ rest) db ≡ hset_all r hash fvs db
  unfolding hset_count flatten hset_all
  hset_count-flatten hash [] rest db = refl
  hset_count-flatten hash ((f, v) ∷ fvs) rest db =
      hset_count-flatten hash fvs rest (hset hash f v db)

  -- What the batched script does for each request, one after another.
  unfoldable pub pend_set_all : Table → List Kco → Db → Db
  unfolding pend_set
  pend_set_all t [] db = db
  pend_set_all t (kco ∷ kcos) db = pend_set_all t kcos (pend_set r t kco.key kco.fvs db)

  unfoldable pub pend_del_all : Table → List Bytes → Db → Db
  unfolding pend_del
  pend_del_all t [] db = db
  pend_del_all t (key ∷ ks) db = pend_del_all t ks (pend_del r t key db)

  abbrev keys_of : List Kco → List Bytes
  keys_of = map (λ (v : Kco). v.key)

  batched_set_each_lem :
      (t : Table) (kcos : List Kco) (added : ℕ) (db : Db)
      → (batched_set_each r
          (key_set_name t)
          (state_hash_prefix ++ (t.table_name ++ t.separator))
          (keys_of kcos)
          (flatten_kcos kcos)
          added
          db).1
        ≡ pend_set_all t kcos db
  unfolding batched_set_each flatten_kcos pend_set_all state_name
  batched_set_each_lem t [] added db = refl
  batched_set_each_lem t (kco ∷ kcos) added db =
      simp (
        scan-to_string,
        drop-flatten,
        hset_count-flatten,
        append_assoc,
        batched_set_each_lem t kcos,
      )

  batched_del_each_lem :
      (t : Table) (ks : List Bytes) (added : ℕ) (db : Db)
      → (batched_del_each r
          (key_set_name t)
          (del_key_set_name t)
          (state_hash_prefix ++ (t.table_name ++ t.separator))
          ks
          added
          db).1
        ≡ pend_del_all t ks db
  unfolding batched_del_each pend_del_all state_name
  batched_del_each_lem t [] added db = refl
  batched_del_each_lem t (key ∷ ks) added db = simp (append_assoc, batched_del_each_lem t ks)

  -- The batched scripts are the single ones in a row, with one notification at the end.
  pub run_batched_set :
      (with_pub : Bool) (t : Table) (db_id : ℕ) (kcos : List Kco) (db : Db)
      → (added : ℕ) × (evalsha r (lua_batched_set r with_pub) (batched_set_args t db_id kcos) db
          ≡ lua_pub r with_pub added (channel_name t db_id) (codes "G") (pend_set_all t kcos db))
  unfolding evalsha batched_set_args lua_batched_set
  run_batched_set with_pub t db_id kcos db =
      let three : length kcos + 3 ≡ suc (suc (suc (length kcos))) = omega arith in
      (
        (batched_set_each r (key_set_name t) (state_hash_prefix ++ (t.table_name ++ t.separator))
            (keys_of kcos) (flatten_kcos kcos) 0 db).0,
        rw three (simp (take-map, drop-map, batched_set_each_lem)),
      )

  pub run_batched_del :
      (with_pub : Bool) (t : Table) (db_id : ℕ) (ks : List Bytes) (db : Db)
      → (added : ℕ) × (evalsha r (lua_batched_del r with_pub) (batched_del_args t db_id ks) db
          ≡ lua_pub r with_pub added (channel_name t db_id) (codes "G") (pend_del_all t ks db))
  unfolding evalsha batched_del_args lua_batched_del
  run_batched_del with_pub t db_id ks db =
      let four : length ks + 4 ≡ suc (suc (suc (suc (length ks)))) = omega arith in
      (
        (batched_del_each r (key_set_name t) (del_key_set_name t)
            (state_hash_prefix ++ (t.table_name ++ t.separator)) ks 0 db).0,
        rw four (simp (take-append, drop-append, batched_del_each_lem)),
      )
