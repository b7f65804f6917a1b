-- ===== src/Redis/Loops.antt =====
-- The loops of scripts and clients over one command, and what they leave behind.
use sonic_swss_common.Prelude.{
  false, List, [], ◌∷◌, Option, none, some, ◌≡◌, refl, Bytes, bytes_eq, ◌==◌, if◌then◌else◌,
  contains, lookup, arith, eq_iff, ◌∙◌, Distinct,
}
use sonic_swss_common.Kco.{FieldValue}
use sonic_swss_common.Redis.{Redis}

-- The value that the last pair for a field carries.
unfoldable pub last_value : Bytes → List FieldValue → Option Bytes
last_value f [] = none
last_value f ((g, v) ∷ fvs) = elim (last_value f fvs) [
  | some w ↦ some w
  | none ↦ if g == f then some v else none
]

abbrev pub or_else {ℓ} : {A : Type ℓ} → Option A → Option A → Option A
or_else (some a) o = some a
or_else none o = o

module _ (r : Redis) where
  open r use {
    Db, hgetall, hget, sismember, published, hset, del, hget-hset, hget-del, sismember-hset,
    sismember-del, published-hset,
  }

  -- HSET for each pair, in order.
  unfoldable pub hset_all : Bytes → List FieldValue → Db → Db
  hset_all k [] db = db
  hset_all k ((f, v) ∷ fvs) db = hset_all k fvs (hset k f v db)

  -- DEL for each key.
  unfoldable pub del_all : List Bytes → Db → Db
  del_all [] db = db
  del_all (k ∷ ks) db = del_all ks (del k db)

  pub hget-hset_all :
      (k : Bytes) (fvs : List FieldValue) (j g : Bytes) (db : Db)
      → hget j g (hset_all k fvs db)
        ≡ (if k == j then or_else (last_value g fvs) (hget j g db) else hget j g db)
  unfolding hset_all last_value
  hget-hset_all k [] j g db = ground arith
  hget-hset_all k ((f, v) ∷ fvs) j g db =
      ground (arith, hget-hset_all k fvs j g (hset k f v db), hget-hset k f v j g db)

  pub sismember-hset_all :
      (k : Bytes) (fvs : List FieldValue) (j m : Bytes) (db : Db)
      → sismember j m (hset_all k fvs db) ≡ sismember j m db
  unfolding hset_all
  sismember-hset_all k [] j m db = refl
  sismember-hset_all k ((f, v) ∷ fvs) j m db =
      sismember-hset_all k fvs j m (hset k f v db) ∙ sismember-hset k f v j m db

  pub published-hset_all :
      (k : Bytes) (fvs : List FieldValue) (db : Db) → published (hset_all k fvs db) ≡ published db
  unfolding hset_all
  published-hset_all k [] db = refl
  published-hset_all k ((f, v) ∷ fvs) db =
      published-hset_all k fvs (hset k f v db) ∙ published-hset k f v db

  pub hget-del_all :
      (ks : List Bytes) (j g : Bytes) (db : Db)
      → hget j g (del_all ks db) ≡ (if contains ks j then none else hget j g db)
  unfolding del_all contains
  hget-del_all [] j g db = refl
  hget-del_all (k ∷ ks) j g db = ground (arith, hget-del_all ks j g (del k db), hget-del k j g db)

  pub sismember-del_all :
      (ks : List Bytes) (j m : Bytes) (db : Db)
      → sismember j m (del_all ks db) ≡ (if contains ks j then false else sismember j m db)
  unfolding del_all contains
  sismember-del_all [] j m db = refl
  sismember-del_all (k ∷ ks) j m db =
      ground (arith, sismember-del_all ks j m (del k db), sismember-del k j m db)

last_value-none :
    (f : Bytes) (fvs : List FieldValue) → lookup f fvs ≡ none → last_value f fvs ≡ none
unfolding last_value lookup
last_value-none f [] h = refl
last_value-none f ((g, v) ∷ fvs) h = ground (arith, last_value-none f fvs)

-- The last value of a list without repeated fields is the only one.
pub last_value-lookup :
    (f : Bytes) (fvs : List FieldValue) → Distinct fvs → last_value f fvs ≡ lookup f fvs
unfolding last_value lookup
last_value-lookup f [] d = refl
last_value-lookup f ((g, v) ∷ fvs) (fresh, d) =
    ground (arith, last_value-lookup f fvs d, last_value-none f fvs, eq_iff g f)
