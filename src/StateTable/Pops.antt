-- ===== src/StateTable/Pops.antt =====
-- What a consumer's pop does, over all the keys that it takes.
use sonic_swss_common.Prelude.{
  false, List, [], ◌∷◌, ◌++◌, none, Bytes, bytes_eq, nat_eq, ◌≡◌, refl, arith, if◌then◌else◌, ◌∙◌,
  contains,
}
use sonic_swss_common.Kco.{FieldValue}
use sonic_swss_common.Redis.{Redis}
use sonic_swss_common.StateTable.Names.{
  Table, IsNamed, row_name, state_name, state_hash_prefix, key_set_name, del_key_set_name,
}
use sonic_swss_common.StateTable.Scripts.{pop_keys}
use sonic_swss_common.StateTable.View.{view}
use sonic_swss_common.StateTable.Pop.{
  round, view-round, hget-round-state, hget-round-row, sismember-round, sismember-round-key_set,
}

module _ (r : Redis) where
  open r use {
    Db, hgetall, hget, sismember, spop, spop-sismember, spop_all, hget-spop, sismember-spop,
  }

  -- The script's loop.
  abbrev pub rounds : Table → List Bytes → Db → List (Bytes × List FieldValue) × Db
  rounds t = pop_keys r (t.table_name ++ t.separator) (del_key_set_name t) state_hash_prefix

  module _ (t : Table) (n : IsNamed t) where
    pub view-rounds :
        (ks : List Bytes) (j g : Bytes) (db : Db)
        → view r t j g (rounds t ks db).1 ≡ view r t j g db
    unfolding pop_keys
    view-rounds [] j g db = refl
    view-rounds (key ∷ ks) j g db =
        view-rounds ks j g (round r t key db).1 ∙ view-round r t n key db j g

    pub hget-rounds-state :
        (ks : List Bytes) (j g : Bytes) (db : Db)
        → hget (state_name t j) g (rounds t ks db).1
          ≡ (if contains ks j then none else hget (state_name t j) g db)
    unfolding pop_keys contains
    hget-rounds-state [] j g db = refl
    hget-rounds-state (key ∷ ks) j g db =
        ground
          (arith, hget-rounds-state ks j g (round r t key db).1, hget-round-state r t n key db j g)

    pub hget-rounds-row :
        (ks : List Bytes) (j g : Bytes) (db : Db)
        → hget (row_name t j) g (rounds t ks db).1
          ≡ (if contains ks j then view r t j g db else hget (row_name t j) g db)
    unfolding pop_keys contains
    hget-rounds-row [] j g db = refl
    hget-rounds-row (key ∷ ks) j g db = ground (
      arith,
      hget-rounds-row ks j g (round r t key db).1,
      hget-round-row r t n key db j g,
      view-round r t n key db j g,
    )

    pub sismember-rounds :
        (ks : List Bytes) (j : Bytes) (db : Db)
        → sismember (del_key_set_name t) j (rounds t ks db).1
          ≡ (if contains ks j then false else sismember (del_key_set_name t) j db)
    unfolding pop_keys contains
    sismember-rounds [] j db = refl
    sismember-rounds (key ∷ ks) j db =
        ground (arith, sismember-rounds ks j (round r t key db).1, sismember-round r t n key db j)

    pub sismember-rounds-key_set :
        (ks : List Bytes) (j : Bytes) (db : Db)
        → sismember (key_set_name t) j (rounds t ks db).1 ≡ sismember (key_set_name t) j db
    unfolding pop_keys
    sismember-rounds-key_set [] j db = refl
    sismember-rounds-key_set (key ∷ ks) j db =
        sismember-rounds-key_set ks j (round r t key db).1 ∙ sismember-round-key_set r t n key db j
