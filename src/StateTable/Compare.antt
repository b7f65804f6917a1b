-- ===== src/StateTable/Compare.antt =====
-- The comparison of an object's old fields with its new ones.
use sonic_swss_common.Prelude.{
  ◌+◌, ◌≤◌, ◌≢◌, Bool, true, false, [], ◌∷◌, none, some, Bytes, bytes_eq, eq_iff, eq_refl, length,
  lookup, erase, lookup-erase, Distinct, ◌≡◌, refl, arith, sym, ◌∙◌, Option-cases, inl, inr,
}
use sonic_swss_common.Kco.{TableMap}
use sonic_swss_common.StateTable.TempView.{compare_fields, need_del, need_set}

-- When no deletion is needed, the new object has every old field.
kept_field :
    (old new : TableMap) (b : Bool) (f v : Bytes)
    → (compare_fields old new b).0 ≡ false
    → lookup f old ≡ some v
    → lookup f new ≢ none
unfolding compare_fields lookup
kept_field [] new b f v h found = ground arith
kept_field ((k, x) ∷ old) new b f v h found =
    ground (arith, kept_field old new true f v, kept_field old new b f v, eq_iff k f)

changed_stays : (old new : TableMap) → (compare_fields old new true).1 ≡ true
unfolding compare_fields
changed_stays [] new = refl
changed_stays ((k, x) ∷ old) new = ground (arith, changed_stays old new)

del_sets :
    (old new : TableMap) (b : Bool)
    → (compare_fields old new b).0 ≡ true
    → (compare_fields old new b).1 ≡ true
unfolding compare_fields
del_sets [] new b h = ground arith
del_sets ((k, x) ∷ old) new b h = ground (arith, del_sets old new true, del_sets old new b)

pub need_del-need_set : (old new : TableMap) → need_del old new ≡ true → need_set old new ≡ true
unfolding need_del need_set
need_del-need_set old new h = ground (arith, del_sets old new false)

same_field :
    (old new : TableMap) (b : Bool) (f v : Bytes)
    → (compare_fields old new b).1 ≡ false
    → lookup f old ≡ some v
    → lookup f new ≡ some v
unfolding compare_fields lookup
same_field [] new b f v h found = ground arith
same_field ((k, x) ∷ old) new b f v h found = elim (Option-cases (lookup k new)) [
  | inl e ↦ ground (arith, e)
  | inr (w, e) ↦
      ground (arith, e, changed_stays old new, same_field old new b f v, eq_iff k f, eq_iff w x)
]

erase_short : (k : Bytes) (m : TableMap) → length (erase k m) ≤ length m
unfolding erase
erase_short k [] = omega arith
erase_short k ((j, w) ∷ m) = ground (arith, erase_short k m)

length-erase :
    (k v : Bytes) (m : TableMap) → lookup k m ≡ some v → length (erase k m) + 1 ≤ length m
unfolding lookup erase
length-erase k v [] h = ground arith
length-erase k v ((j, w) ∷ m) h = ground (arith, length-erase k v m, erase_short k m)

-- A map that has all fields of another and is no longer has no more.
pigeonhole :
    (old new : TableMap)
    → Distinct old
    → ((f v : Bytes) → lookup f old ≡ some v → lookup f new ≡ some v)
    → length new ≤ length old
    → (g w : Bytes) → lookup g new ≡ some w
    → lookup g old ≡ some w
unfolding lookup
pigeonhole [] [] d sub short g w h = h
pigeonhole [] (x ∷ new) d sub short g w h = absurd (omega arith)
pigeonhole ((f, v) ∷ old) new (fresh, d) sub short g w h =
    let there : lookup f new ≡ some v = sub f v (ground (arith, eq_refl f)) in
    let ih =
      pigeonhole old (erase f new) d
        (λ k x e. ground (arith, sub k x, lookup-erase f k new, eq_iff f k, fresh, e))
        (omega (arith, length-erase f v new there)) g w in
    ground (arith, ih, lookup-erase f g new, eq_iff f g, there, h)

-- When the object need not be set, old and new agree in every field.
pub same_objects :
    (old new : TableMap)
    → Distinct old
    → need_set old new ≡ false
    → (g : Bytes) → lookup g new ≡ lookup g old
unfolding need_set
same_objects old new d h g =
    let sub =
      λ (f v : Bytes) (e : lookup f old ≡ some v). same_field old new false f v (ground arith) e in
    elim (Option-cases (lookup g new)) [
      | inr (w, e) ↦ e ∙ sym (pigeonhole old new d sub (ground arith) g w e)
      | inl e ↦ elim (Option-cases (lookup g old)) [
        | inl o ↦ e ∙ sym o
        | inr (v, o) ↦ ground (arith, sub g v o, e)
      ]
    ]

pub kept_fields :
    (old new : TableMap) (g : Bytes)
    → need_del old new ≡ false
    → lookup g new ≡ none
    → lookup g old ≡ none
unfolding need_del
kept_fields old new g h gone = elim (Option-cases (lookup g old)) [
  | inl e ↦ e
  | inr (v, e) ↦ absurd (kept_field old new false g v h e gone)
]
