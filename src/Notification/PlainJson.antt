-- ===== src/Notification/PlainJson.antt =====
-- A JSON library for the tests: arrays of plain strings, the others being refused.
use mathlib.Core.Bool.{Bool, true, ◌&&◌, not}
use sonic_swss_common.Prelude.{
  List, [], ◌∷◌, ◌++◌, Option, none, some, Bytes, codes, ◌≡◌, refl, ap, ◌∙◌, sym, arith,
  if◌then◌else◌, ◌==◌, nat_eq, bytes_eq, bytes_beq, ltb, Bool-cases, inl, inr,
}
use sonic_swss_common.Prelude.Maybe.{◌>>=◌}
use sonic_swss_common.Notification.Producer.{Json, IsPlain}

unfoldable pub plain_text : Bytes → Bool
plain_text [] = true
plain_text (c ∷ t) = ltb 31 c && ltb c 127 && not (c == b'"') && not (c == 92) && plain_text t

unfoldable pub plain_texts : List Bytes → Bool
plain_texts [] = true
plain_texts (t ∷ ts) = plain_text t && plain_texts ts

unfoldable pub write_more : List Bytes → Bytes
write_more [] = b']' ∷ []
write_more (t ∷ ts) = b',' ∷ b'"' ∷ t ++ b'"' ∷ write_more ts

unfoldable pub write : List Bytes → Bytes
unfolding write_more
write [] = codes "[]"
write (t ∷ ts) = codes "[\"" ++ t ++ b'"' ∷ write_more ts

-- The rest of a string with the strings behind it; what follows a string; what follows a comma.
unfoldable mutual
  pub in_string : Bytes → Option (Bytes × List Bytes)
  in_string [] = none
  in_string (c ∷ s) =
      let last : Option (Bytes × List Bytes) = behind s >>= λ ts. some ([], ts) in
      let more : Option (Bytes × List Bytes) = in_string s >>= λ r. some (c ∷ r.0, r.1) in
      if c == b'"' then last else more

  pub behind : Bytes → Option (List Bytes)
  behind [] = none
  behind (c ∷ s) =
      let next : Option (List Bytes) = opening s in
      if c == b']' then some [] else if c == b',' then next else none

  pub opening : Bytes → Option (List Bytes)
  opening [] = none
  opening (c ∷ s) =
      let text : Option (List Bytes) = in_string s >>= λ r. some (r.0 ∷ r.1) in
      if c == b'"' then text else none

unfoldable pub parse_plain : Bytes → Option (List Bytes)
unfolding in_string
parse_plain [] = none
parse_plain (c ∷ s) = if c == b'[' then (if s == codes "]" then some [] else opening s) else none

unfoldable pub dump_plain_texts : List Bytes → Option Bytes
unfolding plain_text plain_texts write
dump_plain_texts ts = if plain_texts ts then some (write ts) else none

in_string-append :
    (t s : Bytes) (ts : List Bytes)
    → plain_text t ≡ true
    → behind s ≡ some ts
    → in_string (t ++ b'"' ∷ s) ≡ some (t, ts)
unfolding plain_text in_string
in_string-append [] s ts plain e = ground arith
in_string-append (c ∷ t) s ts plain e = ground (arith, in_string-append t s ts)

behind-write_more : (ts : List Bytes) → plain_texts ts ≡ true → behind (write_more ts) ≡ some ts
unfolding plain_texts write_more in_string
behind-write_more [] plain = refl
behind-write_more (t ∷ ts) plain =
    ground (arith, in_string-append t (write_more ts) ts, behind-write_more ts)

parse-write : (ts : List Bytes) → plain_texts ts ≡ true → parse_plain (write ts) ≡ some ts
unfolding plain_texts write parse_plain in_string bytes_beq
parse-write [] plain = refl
parse-write (t ∷ ts) plain =
    ground (arith, in_string-append t (write_more ts) ts, behind-write_more ts)

pub parse-dump :
    (ts : List Bytes) (text : Bytes) → dump_plain_texts ts ≡ some text → parse_plain text ≡ some ts
unfolding dump_plain_texts
parse-dump ts text h = elim (Bool-cases (plain_texts ts)) [
  | inl plain ↦
      let e : write ts ≡ text = ground arith in ap parse_plain (sym e) ∙ parse-write ts plain
  | inr other ↦ ground arith
]

pub dump_plain :
    (t : Bytes) (ts : List Bytes) (text : Bytes)
    → IsPlain t
    → dump_plain_texts (t ∷ ts) ≡ some text
    → (rest : Bytes) × (text ≡ codes "[\"" ++ t ++ b'"' ∷ rest)
unfolding dump_plain_texts write
dump_plain t ts text plain h = (write_more ts, ground arith)

abbrev pub plain_json : Json
plain_json = record {
  dump = dump_plain_texts;
  parse = parse_plain;
  parse-dump = parse-dump;
  dump_plain = dump_plain;
}
