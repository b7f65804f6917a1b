-- ===== src/Tokenize/Join.antt =====
-- The tokens put together again.
use sonic_swss_common.Prelude.{
  ℕ, zero, suc, ◌+◌, ◌≤◌, ◌≢◌, List, [], ◌∷◌, ◌++◌, some, Bytes, bytes_eq, ◌==◌, eq_iff, nat_eq,
  if◌then◌else◌, length, take, drop, find, starts_with, ◌≡◌, refl, arith, ap, sym, ◌∙◌, Bool-cases,
  Option-cases, inl, inr,
}
use sonic_swss_common.Tokenize.{getline, tokenize_lines, tokenize, tokenize_first, tokenize_n}

-- Every token with the separator behind it.
unfoldable pub terminate : ℕ → List Bytes → Bytes
terminate token [] = []
terminate token (t ∷ ts) = t ++ (token ∷ terminate token ts)

-- The tokens with the separator between them.
unfoldable pub join : ℕ → List Bytes → Bytes
join token [] = []
join token (t ∷ []) = t
join token (t ∷ (u ∷ ts)) = t ++ (token ∷ join token (u ∷ ts))

-- A text that is not empty and does not end with the separator is ended with it.
unfoldable pub ended : ℕ → Bytes → Bytes
ended token [] = []
ended token (c ∷ []) = if c == token then c ∷ [] else c ∷ token ∷ []
ended token (c ∷ (d ∷ s)) = c ∷ ended token (d ∷ s)

getline-ended :
    (token : ℕ) (c : ℕ) (s : Bytes)
    → ended token (c ∷ s)
      ≡ (getline token (c ∷ s)).0 ++ (token ∷ ended token (getline token (c ∷ s)).1)
unfolding getline ended
getline-ended token c [] = ground (arith, eq_iff c token)
getline-ended token c (d ∷ s) = ground (arith, getline-ended token d s, eq_iff c token)

getline-shorter : (token : ℕ) (c : ℕ) (s : Bytes) → length (getline token (c ∷ s)).1 ≤ length s
unfolding getline
getline-shorter token c [] = ground arith
getline-shorter token c (d ∷ s) = ground (arith, getline-shorter token d s)

lines-ended :
    (token fuel : ℕ) (s : Bytes)
    → length s ≤ fuel
    → terminate token (tokenize_lines token fuel s) ≡ ended token s
unfolding terminate tokenize_lines ended
lines-ended token zero [] h = refl
lines-ended token zero (c ∷ s) h = absurd (omega arith)
lines-ended token (suc fuel) [] h = refl
lines-ended token (suc fuel) (c ∷ s) h = ground (
  arith,
  lines-ended token fuel (getline token (c ∷ s)).1 (omega (arith, getline-shorter token c s)),
  getline-ended token c s,
)

-- The empty text has no tokens. The tokens of another text, each with the separator behind it, are the
-- text, ended with the separator if it does not end with it: `tokenize` loses nothing but whether
-- there is a separator at the end.
pub terminate-tokenize :
    (s : Bytes) (token : ℕ)
    → (tokenize [] token ≡ []) × (terminate token (tokenize s token) ≡ ended token s)
unfolding tokenize tokenize_lines
terminate-tokenize s token = (refl, lines-ended token (length s) s (omega arith))

cut_at :
    (token : ℕ) (s : Bytes) (pos : ℕ)
    → find (token ∷ []) s ≡ some pos
    → s ≡ take pos s ++ (token ∷ drop (pos + 1) s)
unfolding find starts_with
cut_at token [] pos h = ground arith
cut_at token (c ∷ s) pos h = elim (Bool-cases (token == c)) [
  | inl e ↦ let here : pos ≡ 0 = ground (arith, e, h) in rw here (ground (arith, e, eq_iff token c))
  | inr e ↦ elim (Option-cases (find (token ∷ []) s)) [
    | inl e' ↦ ground (arith, e, e', h)
    | inr (p, e') ↦
        let later : pos ≡ suc p = ground (arith, e, e', h) in
        let next : suc p + 1 ≡ suc (p + 1) = omega arith in
        rw (later, next) (ap (λ l. c ∷ l) (cut_at token s p e'))
  ]
]

join-cons :
    (token : ℕ) (t : Bytes) (ts : List Bytes)
    → ts ≢ []
    → join token (t ∷ ts) ≡ t ++ (token ∷ join token ts)
unfolding join
join-cons token t [] h = absurd (h refl)
join-cons token t (u ∷ ts) h = refl

first-nonempty : (token n : ℕ) (s : Bytes) → tokenize_first token n s ≢ []
unfolding tokenize_first
first-nonempty token zero s h = ground arith
first-nonempty token (suc n) s h = ground arith

join-first : (token n : ℕ) (s : Bytes) → join token (tokenize_first token n s) ≡ s
unfolding tokenize_first join
join-first token zero s = refl
join-first token (suc n) s = elim (Option-cases (find (token ∷ []) s)) [
  | inl e ↦ rw (tokenize_first, e)
  | inr (pos, e) ↦
      rw (tokenize_first, e)
        (join-cons token (take pos s) (tokenize_first token n (drop (pos + 1) s))
            (first-nonempty token n (drop (pos + 1) s))
          ∙ ap (λ x. take pos s ++ (token ∷ x)) (join-first token n (drop (pos + 1) s))
          ∙ sym (cut_at token s pos e))
]

length-first : (token n : ℕ) (s : Bytes) → length (tokenize_first token n s) ≤ n + 1
unfolding tokenize_first
length-first token zero s = omega arith
length-first token (suc n) s = elim (Option-cases (find (token ∷ []) s)) [
  | inl e ↦ rw (tokenize_first, e) (omega arith)
  | inr (pos, e) ↦ rw (tokenize_first, e) (omega (arith, length-first token n (drop (pos + 1) s)))
]

-- With a limit the tokens with the separator between them are the text again, and there are at most
-- one more than the limit.
pub join-tokenize_n :
    (s : Bytes) (token first_n : ℕ)
    → (join token (tokenize_n s token first_n) ≡ s)
      × (length (tokenize_n s token first_n) ≤ first_n + 1)
unfolding tokenize_n
join-tokenize_n s token n = (join-first token n s, length-first token n s)
