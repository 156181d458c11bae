-- ===== src/GovernanceDecision/Glob.antt =====
-- `fnmatch.fnmatch` for patterns of `*`, `?` and plain characters, on the code points.
pub mod Matching
pub mod Prefix
use ledger_sdk.Prelude.{
  ℕ, String, Bool, true, false, ◌&&◌, ◌||◌, List, [], ◌∷◌, eqb, is_nil, codes, if◌then◌else◌, ◌≡◌,
  refl,
}

-- One pattern character in front of `rest`, which says how the rest of the pattern matches.
after_star : (List ℕ → Bool) → List ℕ → Bool
after_star rest [] = rest []
after_star rest (c ∷ cs) = rest (c ∷ cs) || after_star rest cs

one_char : (ℕ → Bool) → (List ℕ → Bool) → List ℕ → Bool
one_char test rest [] = false
one_char test rest (c ∷ cs) = test c && rest cs

unfoldable pub glob : List ℕ → List ℕ → Bool
unfolding after_star one_char
glob [] = is_nil
glob (p ∷ ps) =
    if eqb p b'*' then after_star (glob ps) else one_char (λ c. eqb p b'?' || eqb p c) (glob ps)

unfoldable pub fnmatch : String → String → Bool
unfolding glob codes
fnmatch name pattern = glob (codes pattern) (codes name)

fnmatch_tests :
    (fnmatch "file.read" "file.*" ≡ true)
    × (fnmatch "db.drop" "file.*" ≡ false)
    × (fnmatch "a1" "a?" ≡ true)
    × (fnmatch "a" "a?" ≡ false)
unfolding fnmatch
fnmatch_tests = (refl, refl, refl, refl)
