-- ===== src/WarmStart/Stored.antt =====
-- What is read back from the tables of a warm start.
use mathlib.Core.Bool.{◌&&◌}
use mathlib.Core.Option
use sonic_swss_common.Prelude.{
  ℕ, [], length, length-append, bytes_beq, ◌∷◌, ◌++◌, some, Bytes, bytes_eq, ◌≡◌, ◌≢◌, refl, ap,
  ◌∙◌, arith, ◌==◌, eq_iff, eq_refl, if◌then◌else◌,
}
use sonic_swss_common.Redis.{Redis}
use sonic_swss_common.RedisPipeline
use sonic_swss_common.StateTable.Names.{Table, key_name, key_name-row_name, row-row}
use sonic_swss_common.PlainTable.{strip_special_sym}
use sonic_swss_common.PlainTable.Writes.{field-hset, hget-field}
use sonic_swss_common.WarmStart.{text_of, client, read_field, write_field}

module _ (r : Redis) (separator : Bytes) where
  open r use {Db}

  settled-client :
      (t : Table) (db : Db) → RedisPipeline.settled r (client r separator t db).pipe ≡ db
  unfolding RedisPipeline.settled
  settled-client t db = refl

  pub read_field-hget :
      (t : Table) (key f : Bytes) (db : Db)
      → read_field r separator t key f db
        ≡ text_of r separator (Option.map strip_special_sym (r.hget (key_name t key) f db))
  unfolding read_field
  read_field-hget t key f db = ap (text_of r separator) (
      hget-field r key f (client r separator t db)
      ∙ ap (λ (d : Db). Option.map strip_special_sym (r.hget (key_name t key) f d))
          (settled-client t db))

  pub hget-write_field :
      (t : Table) (key f v j g : Bytes) (db : Db)
      → r.hget j g (write_field r separator t key f v db)
        ≡ (if key_name t key == j && f == g then some v else r.hget j g db)
  unfolding write_field
  hget-write_field t key f v j g db =
      field-hset r key f v j g (client r separator t db)
      ∙ ap (λ (d : Db). if key_name t key == j && f == g then some v else r.hget j g d)
          (settled-client t db)

  -- A field reads as what was written last, if its key and its name are those of the write.
  pub read-write :
      (t t' : Table) (key f v key' f' : Bytes) (db : Db)
      → read_field r separator t' key' f' (write_field r separator t key f v db) ≡ (
          if key_name t key == key_name t' key' && f == f'
          then strip_special_sym v
          else read_field r separator t' key' f' db)
  unfolding text_of
  read-write t t' key f v key' f' db = ground (
    arith,
    read_field-hget t' key' f' (write_field r separator t key f v db),
    hget-write_field t key f v (key_name t' key') f' db,
    read_field-hget t' key' f' db,
  )

longer : (name separator k : Bytes) (c : ℕ) → name ≢ name ++ (separator ++ c ∷ k)
longer name separator k c e =
    omega
      (arith, ap length e, length-append name (separator ++ c ∷ k), length-append separator (c ∷ k))

-- The keys of one table differ as what they are made from.
pub key_name-key_name : (t : Table) (k j : Bytes) → (key_name t k == key_name t j) ≡ (k == j)
key_name-key_name t [] [] = rw (eq_refl (key_name t []), eq_refl {T = Bytes} []) refl
key_name-key_name t [] (c ∷ j) =
    unfold key_name bytes_beq in
    ground (
      arith,
      longer t.table_name t.separator j c,
      eq_iff t.table_name (t.table_name ++ (t.separator ++ c ∷ j)),
    )
key_name-key_name t (c ∷ k) [] =
    unfold key_name bytes_beq in
    ground (
      arith,
      longer t.table_name t.separator k c,
      eq_iff (t.table_name ++ (t.separator ++ c ∷ k)) t.table_name,
    )
key_name-key_name t (c ∷ k) (d ∷ j) =
    rw (key_name-row_name t (c ∷ k) (λ e. cc), key_name-row_name t (d ∷ j) (λ e. cc))
      (row-row t (c ∷ k) (d ∷ j))
