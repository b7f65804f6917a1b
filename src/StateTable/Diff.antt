-- ===== src/StateTable/Diff.antt =====
-- The comparison of the current view with the temporary one.
use sonic_swss_common.Prelude.{
  Bool, true, false, ◌||◌, List, [], ◌∷◌, ◌++◌, Option, none, some, Bytes, bytes_eq, ◌==◌, eq_iff,
  if◌then◌else◌, lookup, lookup-erase, erase-Distinct, contains, Distinct, ◌≡◌, refl, arith,
}
use sonic_swss_common.Kco.{TableMap, TableDump}
use sonic_swss_common.StateTable.TempView.{
  need_del, need_set, Changes, compare_object, compare_objects, new_keys, changes,
}

-- What the comparison decides for a key by its old and its new object.
unfoldable pub deletes : Option TableMap → Option TableMap → Bool
deletes none new = false
deletes (some old) none = true
deletes (some old) (some new) = need_del old new

unfoldable pub sets : Option TableMap → Option TableMap → Bool
sets none new = false
sets (some old) none = true
sets (some old) (some new) = need_set old new

unfoldable pub left : Option TableMap → Option TableMap → Option TableMap
left none new = new
left (some old) none = none
left (some old) (some new) = if need_set old new then some new else none

contains-snoc :
    (ks : List Bytes) (k j : Bytes) → contains (ks ++ k ∷ []) j ≡ (contains ks j || k == j)
unfolding contains
contains-snoc [] k j = ground arith
contains-snoc (i ∷ ks) k j = ground (arith, contains-snoc ks k j)

contains-append :
    (ks ms : List Bytes) (j : Bytes) → contains (ks ++ ms) j ≡ (contains ks j || contains ms j)
unfolding contains
contains-append [] ms j = refl
contains-append (i ∷ ks) ms j = ground (arith, contains-append ks ms j)

module _ (key : Bytes) (old : TableMap) (d : Changes) (j : Bytes) where
  object_del : contains (compare_object key old d).keys_to_del j ≡ (
      contains d.keys_to_del j
      || (if key == j then deletes (some old) (lookup j d.temp) else false))
  unfolding compare_object deletes
  object_del = ground (arith, contains-snoc d.keys_to_del key j, eq_iff key j)

  object_set : contains (compare_object key old d).keys_to_set j ≡ (
      contains d.keys_to_set j || (if key == j then sets (some old) (lookup j d.temp) else false))
  unfolding compare_object sets
  object_set = ground (arith, contains-snoc d.keys_to_set key j, eq_iff key j)

  object_temp :
      lookup j (compare_object key old d).temp
      ≡ (if key == j then left (some old) (lookup j d.temp) else lookup j d.temp)
  unfolding compare_object left
  object_temp = ground (arith, lookup-erase key j d.temp, eq_iff key j)

objects_del :
    (current : TableDump) (d : Changes) (j : Bytes)
    → Distinct current
    → contains (compare_objects current d).keys_to_del j
      ≡ (contains d.keys_to_del j || deletes (lookup j current) (lookup j d.temp))
unfolding compare_objects lookup deletes
objects_del [] d j h = ground arith
objects_del ((key, old) ∷ current) d j (fresh, h) = ground (
  arith,
  objects_del current (compare_object key old d) j h,
  object_del key old d j,
  object_temp key old d j,
  eq_iff key j,
  fresh,
)

objects_set :
    (current : TableDump) (d : Changes) (j : Bytes)
    → Distinct current
    → contains (compare_objects current d).keys_to_set j
      ≡ (contains d.keys_to_set j || sets (lookup j current) (lookup j d.temp))
unfolding compare_objects lookup sets
objects_set [] d j h = ground arith
objects_set ((key, old) ∷ current) d j (fresh, h) = ground (
  arith,
  objects_set current (compare_object key old d) j h,
  object_set key old d j,
  object_temp key old d j,
  eq_iff key j,
  fresh,
)

objects_temp :
    (current : TableDump) (d : Changes) (j : Bytes)
    → Distinct current
    → lookup j (compare_objects current d).temp ≡ left (lookup j current) (lookup j d.temp)
unfolding compare_objects lookup left
objects_temp [] d j h = refl
objects_temp ((key, old) ∷ current) d j (fresh, h) = ground (
  arith,
  objects_temp current (compare_object key old d) j h,
  object_temp key old d j,
  eq_iff key j,
  fresh,
)

pub contains-new_keys :
    (current temp : TableDump) (j : Bytes)
    → contains (new_keys current temp) j ≡ elim (lookup j current) [
      | some old ↦ false
      | none ↦ elim (lookup j temp) [ none ↦ false | some new ↦ true ]
    ]
unfolding contains new_keys lookup
contains-new_keys current [] j = ground arith
contains-new_keys current ((k, m) ∷ temp) j =
    ground (arith, contains-new_keys current temp j, eq_iff k j)

module _ (current temp : TableDump) (j : Bytes) (h : Distinct current) where
  pub changes_del :
      contains (changes current temp).keys_to_del j ≡ deletes (lookup j current) (lookup j temp)
  unfolding changes contains
  changes_del = objects_del current (record { keys_to_set = []; keys_to_del = []; temp = temp }) j h

  pub changes_temp : lookup j (changes current temp).temp ≡ left (lookup j current) (lookup j temp)
  unfolding changes
  changes_temp =
      objects_temp current (record { keys_to_set = []; keys_to_del = []; temp = temp }) j h

  -- Every key that is deleted or written is among those to set.
  pub changes_set : contains (changes current temp).keys_to_set j ≡ (
      sets (lookup j current) (lookup j temp)
      || contains (new_keys current (changes current temp).temp) j)
  unfolding changes contains
  changes_set =
      let d : Changes = record { keys_to_set = []; keys_to_del = []; temp = temp } in
      ground (
        arith,
        objects_set current d j h,
        contains-append (compare_objects current d).keys_to_set
            (new_keys current (compare_objects current d).temp) j,
      )

object-Distinct :
    (key : Bytes) (old : TableMap) (d : Changes)
    → Distinct d.temp
    → Distinct (compare_object key old d).temp
unfolding compare_object
object-Distinct key old d h = ground (arith, h, erase-Distinct key d.temp h)

objects-Distinct :
    (current : TableDump) (d : Changes)
    → Distinct d.temp
    → Distinct (compare_objects current d).temp
unfolding compare_objects
objects-Distinct [] d h = h
objects-Distinct ((key, old) ∷ current) d h =
    objects-Distinct current (compare_object key old d) (object-Distinct key old d h)

pub changes-Distinct :
    (current temp : TableDump) → Distinct temp → Distinct (changes current temp).temp
unfolding changes
changes-Distinct current temp h = objects-Distinct current _ h
