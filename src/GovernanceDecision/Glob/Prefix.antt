-- ===== src/GovernanceDecision/Glob/Prefix.antt =====
-- A pattern with a star at its end matches what the patterns with the same front match.
use ledger_sdk.Prelude.{
  ℕ, Bool, true, false, ◌||◌, List, [], ◌∷◌, ◌++◌, ◌≡◌, arith, inl, inr, Bool-cases, and_right, eqb,
  if◌then◌else◌,
}
use ledger_sdk.GovernanceDecision.Glob.{glob, after_star, one_char}
use ledger_sdk.GovernanceDecision.Glob.Matching.{Matches-glob, star_all}

-- A pattern that matches where another does, in front of which the same stands.
after_star_mono :
    (f g : List ℕ → Bool)
    → ((cs : List ℕ) → f cs ≡ true → g cs ≡ true)
    → (cs : List ℕ) → after_star f cs ≡ true
    → after_star g cs ≡ true
unfolding after_star
after_star_mono f g h [] e = h [] e
after_star_mono f g h (c ∷ cs) e = elim (Bool-cases (f (c ∷ cs))) [
  | inl q ↦ ground (arith, h (c ∷ cs) q)
  | inr q ↦ ground (arith, after_star_mono f g h cs (ground (arith, e, q)))
]

one_char_mono :
    (test : ℕ → Bool) (f g : List ℕ → Bool)
    → ((cs : List ℕ) → f cs ≡ true → g cs ≡ true)
    → (cs : List ℕ) → one_char test f cs ≡ true
    → one_char test g cs ≡ true
unfolding one_char
one_char_mono test f g h [] e = e
one_char_mono test f g h (c ∷ cs) e = ground (arith, e, h cs (and_right (test c) (f cs) e))

pub glob_prefix :
    (pre rest cs : List ℕ) → glob (pre ++ rest) cs ≡ true → glob (pre ++ b'*' ∷ []) cs ≡ true
unfolding glob
glob_prefix [] rest cs h = Matches-glob (star_all cs)
glob_prefix (p ∷ pre) rest cs h = step (glob_prefix pre rest) (eqb p b'*') h
  where
    step :
        ((cs : List ℕ) → glob (pre ++ rest) cs ≡ true → glob (pre ++ b'*' ∷ []) cs ≡ true)
        → (b : Bool)
        → (if b
              then after_star (glob (pre ++ rest))
              else one_char (λ c. eqb p b'?' || eqb p c) (glob (pre ++ rest)))
            cs
          ≡ true
        → (if b
              then after_star (glob (pre ++ b'*' ∷ []))
              else one_char (λ c. eqb p b'?' || eqb p c) (glob (pre ++ b'*' ∷ [])))
            cs
          ≡ true
    step rec true e = after_star_mono _ _ rec cs e
    step rec false e = one_char_mono _ _ _ rec cs e
