-- ===== src/Tokenize.antt =====
-- common/tokenize.cpp
pub mod Join
mod Examples
use sonic_swss_common.Prelude.{
  ℕ, zero, suc, ◌+◌, List, [], ◌∷◌, Option, none, some, Bytes, ◌==◌, nat_eq, if◌then◌else◌, length,
  take, drop, find,
}

-- `getline`: the text before the first `token`, and the text behind it.
unfoldable pub getline : ℕ → Bytes → Bytes × Bytes
getline token [] = ([], [])
getline token (c ∷ s) =
    let (line, rest) = getline token s in if c == token then ([], s) else (c ∷ line, rest)

-- `while (getline(iss, tmp, token))`: at the end of the text `getline` fails. Every round uses up a
-- byte.
unfoldable pub tokenize_lines : ℕ → ℕ → Bytes → List Bytes
unfolding getline
tokenize_lines token zero s = []
tokenize_lines token (suc fuel) [] = []
tokenize_lines token (suc fuel) (c ∷ s) =
    let (line, rest) = getline token (c ∷ s) in line ∷ tokenize_lines token fuel rest

unfoldable pub tokenize : Bytes → ℕ → List Bytes
unfolding tokenize_lines
tokenize s token = tokenize_lines token (length s) s

-- `while (pos != string::npos && i++ < firstN)`, with `left` rounds to go.
unfoldable pub tokenize_first : ℕ → ℕ → Bytes → List Bytes
tokenize_first token zero tmp = tmp ∷ []
tokenize_first token (suc left) tmp = elim (find (token ∷ []) tmp) [
  | none ↦ tmp ∷ []
  | some pos ↦ take pos tmp ∷ tokenize_first token left (drop (pos + 1) tmp)
]

-- `tokenize` with `firstN`
unfoldable pub tokenize_n : Bytes → ℕ → ℕ → List Bytes
unfolding tokenize_first
tokenize_n s token first_n = tokenize_first token first_n s
