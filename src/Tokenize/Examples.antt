-- ===== src/Tokenize/Examples.antt =====
-- Tests of tokenize, and its theorems at concrete inputs.
use sonic_swss_common.Prelude.{[], ◌∷◌, codes, find, starts_with, ◌≡◌, refl}
use sonic_swss_common.Tokenize.{tokenize, tokenize_n}
use sonic_swss_common.Tokenize.Join.{terminate, ended, terminate-tokenize}

tests :
    (tokenize (codes "a,,b,") b',' ≡ codes "a" ∷ [] ∷ codes "b" ∷ [])
    × (tokenize [] b',' ≡ [])
    × (tokenize_n (codes "a,b,c") b',' 1 ≡ codes "a" ∷ codes "b,c" ∷ [])
    × (tokenize_n [] b',' 1 ≡ [] ∷ [])
unfolding tokenize tokenize_n find starts_with
tests = (refl, refl, refl, refl)

terminate-tokenize_example :
    (tokenize [] b',' ≡ [])
    × (terminate b',' (tokenize (codes "a,,b") b',') ≡ ended b',' (codes "a,,b"))
terminate-tokenize_example = terminate-tokenize (codes "a,,b") b','
