-- ===== src/StateTable/Names.antt =====
-- The Redis keys of a table: `TableBase` and `TableName_KeySet` of common/table.h.
use mathlib.Core.List.{append_cancel_left}
use sonic_swss_common.Prelude.{
  ℕ, ◌≢◌, ◌⊎◌, Bool, false, ◌||◌, not, [], ◌∷◌, ◌++◌, Option, none, some, ◌≡◌, refl, Bytes,
  bytes_eq, ◌==◌, if◌then◌else◌, arith, eq_iff, ◌∙◌, sym, ap, codes, Lacks, length, length-append,
  append_assoc,
}
use sonic_swss_common.Decimal.{to_string}

pub record Table : Type 0 where
  pub table_name : Bytes
  pub separator : Bytes

-- `legalSeparators.find(tableSeparator) == npos` makes the constructor throw: the substrings of ":|"
-- are legal.
unfoldable pub legal_separator : Bytes → Bool
legal_separator s = s == [] || s == codes ":" || s == codes "|" || s == codes ":|"

unfoldable pub make_table : Bytes → Bytes → Option Table
unfolding legal_separator
make_table table_name separator =
    if not (legal_separator separator)
    then none
    else some (record { table_name = table_name; separator = separator })

-- `getKeyName`
unfoldable pub key_name : Table → Bytes → Bytes
key_name t key = if key == [] then t.table_name else t.table_name ++ (t.separator ++ key)

-- `getTableName() + getTableNameSeparator() + key`, as scripts build it.
unfoldable pub row_name : Table → Bytes → Bytes
row_name t key = t.table_name ++ (t.separator ++ key)

-- `getStateHashPrefix()`
abbrev pub state_hash_prefix : Bytes
state_hash_prefix = codes "_"

-- The hash of a key's pending values.
unfoldable pub state_name : Table → Bytes → Bytes
unfolding row_name
state_name t key = state_hash_prefix ++ row_name t key

unfoldable pub key_set_name : Table → Bytes
key_set_name t = t.table_name ++ codes "_KEY_SET"

unfoldable pub del_key_set_name : Table → Bytes
del_key_set_name t = t.table_name ++ codes "_DEL_SET"

-- `getChannelName(int tag)`
unfoldable pub channel_name : Table → ℕ → Bytes
channel_name t tag = t.table_name ++ (codes "_CHANNEL" ++ (codes "@" ++ to_string tag))

pub key_name-row_name : (t : Table) (key : Bytes) → key ≢ [] → key_name t key ≡ row_name t key
unfolding key_name row_name
key_name-row_name t key h = ground (arith, eq_iff key [])

-- The separator is one of those that the databases are configured with, and not part of the table's
-- name.
pub record IsNamed (t : Table) : Type 0 where
  pub sep : ℕ
  pub single : t.separator ≡ sep ∷ []
  pub free : Lacks sep t.table_name
  pub legal : (sep ≡ b':') ⊎ (sep ≡ b'|')

-- Where two texts first show a byte they agree up to there.
split_at_first :
    (c : ℕ) (x y p q : Bytes) → Lacks c x → Lacks c y → x ++ (c ∷ p) ≡ y ++ (c ∷ q) → x ≡ y
split_at_first c [] [] p q hx hy e = refl
split_at_first c [] (b ∷ y) p q hx hy e = ground arith
split_at_first c (a ∷ x) [] p q hx hy e = ground arith
split_at_first c (a ∷ x) (b ∷ y) p q hx hy e = ground (arith, split_at_first c x y p q hx.1 hy.1)

same_length : (x y p q : Bytes) → length x ≡ length y → x ++ p ≡ y ++ q → p ≡ q
same_length [] [] p q h e = e
same_length [] (b ∷ y) p q h e = absurd (omega arith)
same_length (a ∷ x) [] p q h e = absurd (omega arith)
same_length (a ∷ x) (b ∷ y) p q h e = ground (arith, same_length x y p q)

-- A text that is pushed back by an underscore.
shifted : (x p q : Bytes) → x ++ (b'_' ∷ p) ≡ b'_' ∷ (x ++ q) → p ≡ q
shifted x p q e =
    same_length (x ++ b'_' ∷ []) (b'_' ∷ x) p q (omega (arith, length-append x (b'_' ∷ [])))
      (append_assoc x (b'_' ∷ []) p ∙ e)

bool_eq : (a b c d : Bytes) → (a ≡ b → c ≡ d) → (c ≡ d → a ≡ b) → (a == b) ≡ (c == d)
bool_eq a b c d to from = ground (arith, eq_iff a b, eq_iff c d)

eq_false : (a b : Bytes) → a ≢ b → (a == b) ≡ false
eq_false a b h = ground (arith, eq_iff a b)

pub row-row : (t : Table) (k j : Bytes) → (row_name t k == row_name t j) ≡ (k == j)
unfolding row_name
row-row t k j =
    bool_eq _ _ k j
      (λ e. append_cancel_left t.separator k j (append_cancel_left t.table_name _ _ e)) (λ e. rw e)

pub state-state : (t : Table) (k j : Bytes) → (state_name t k == state_name t j) ≡ (k == j)
unfolding state_name
state-state t k j =
    bool_eq _ _ k j
      (λ e.
        append_cancel_left t.separator k j
          (append_cancel_left t.table_name _ _ (append_cancel_left state_hash_prefix _ _ e)))
      (λ e. rw e)

module _ (t : Table) (n : IsNamed t) where
  state-ne-row : (k j : Bytes) → state_name t k ≢ row_name t j
  unfolding state_name
  state-ne-row k j e =
      let e' : (b'_' ∷ t.table_name) ++ (n.sep ∷ k) ≡ t.table_name ++ (n.sep ∷ j) =
        rw n.single at e in
      let same =
        split_at_first n.sep (b'_' ∷ t.table_name) t.table_name k j (omega (arith, n.legal), n.free)
          n.free e' in
      absurd (omega (arith, ap length same))

  key_set-ne-row : (k : Bytes) → key_set_name t ≢ row_name t k
  unfolding row_name key_set_name
  key_set-ne-row k e =
      let e' = rw n.single at (append_cancel_left t.table_name _ _ e) in ground (arith, n.legal)

  del_set-ne-row : (k : Bytes) → del_key_set_name t ≢ row_name t k
  unfolding row_name del_key_set_name
  del_set-ne-row k e =
      let e' = rw n.single at (append_cancel_left t.table_name _ _ e) in ground (arith, n.legal)

  key_set-ne-state : (k : Bytes) → key_set_name t ≢ state_name t k
  unfolding row_name state_name key_set_name
  key_set-ne-state k e =
      let e' = rw n.single at (shifted t.table_name _ _ e) in ground (arith, n.legal)

  del_set-ne-state : (k : Bytes) → del_key_set_name t ≢ state_name t k
  unfolding row_name state_name del_key_set_name
  del_set-ne-state k e =
      let e' = rw n.single at (shifted t.table_name _ _ e) in ground (arith, n.legal)

  -- No two of a table's Redis keys are one: the tests that compare them are decided by the keys of
  -- the table alone.
  pub state-row : (k j : Bytes) → (state_name t k == row_name t j) ≡ false
  state-row k j = eq_false _ _ (state-ne-row k j)

  pub row-state : (k j : Bytes) → (row_name t k == state_name t j) ≡ false
  row-state k j = eq_false _ _ (λ e. state-ne-row j k (sym e))

  pub row-key_set : (k : Bytes) → (row_name t k == key_set_name t) ≡ false
  row-key_set k = eq_false _ _ (λ e. key_set-ne-row k (sym e))

  pub row-del_set : (k : Bytes) → (row_name t k == del_key_set_name t) ≡ false
  row-del_set k = eq_false _ _ (λ e. del_set-ne-row k (sym e))

  pub state-key_set : (k : Bytes) → (state_name t k == key_set_name t) ≡ false
  state-key_set k = eq_false _ _ (λ e. key_set-ne-state k (sym e))

  pub state-del_set : (k : Bytes) → (state_name t k == del_key_set_name t) ≡ false
  state-del_set k = eq_false _ _ (λ e. del_set-ne-state k (sym e))

pub key_set-del_set : (t : Table) → (key_set_name t == del_key_set_name t) ≡ false
unfolding key_set_name del_key_set_name
key_set-del_set t =
    eq_false _ _ (λ e. let e' = append_cancel_left t.table_name _ _ e in ground arith)

pub del_set-key_set : (t : Table) → (del_key_set_name t == key_set_name t) ≡ false
unfolding key_set_name del_key_set_name
del_set-key_set t =
    eq_false _ _ (λ e. let e' = append_cancel_left t.table_name _ _ e in ground arith)
