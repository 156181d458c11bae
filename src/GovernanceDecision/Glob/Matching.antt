-- ===== src/GovernanceDecision/Glob/Matching.antt =====
-- What the glob match of `fnmatch` decides, as a relation on the code points.
use ledger_sdk.Prelude.{
  ℕ, Bool, true, false, ◌||◌, List, [], ◌∷◌, eqb, ◌≡◌, refl, sym, ap, ◌∙◌, if_true, if_false, arith,
  inl, inr, Bool-cases, false_elim,
}
use mathlib.Core.Path.{subst}
use ledger_sdk.GovernanceDecision.Glob.{glob, after_star, one_char}

pub data Matches : List ℕ → List ℕ → Type 0 where
  finish : Matches [] []
  star_none : {ps cs : List ℕ} → Matches ps cs → Matches (b'*' ∷ ps) cs
  star_more : {c : ℕ} {ps cs : List ℕ} → Matches (b'*' ∷ ps) cs → Matches (b'*' ∷ ps) (c ∷ cs)
  question : {c : ℕ} {ps cs : List ℕ} → Matches ps cs → Matches (b'?' ∷ ps) (c ∷ cs)
  same : {c : ℕ} {ps cs : List ℕ} → Matches ps cs → Matches (c ∷ ps) (c ∷ cs)

eqb-true : (a b : ℕ) → eqb a b ≡ true → a ≡ b
eqb-true a b h = ground (arith, h)

eqb_refl : (a : ℕ) → eqb a a ≡ true
eqb_refl a = ground arith

after_star-here : (rest : List ℕ → Bool) (cs : List ℕ) → rest cs ≡ true → after_star rest cs ≡ true
unfolding after_star
after_star-here rest [] h = h
after_star-here rest (c ∷ cs) h = ground (arith, h)

after_star-there :
    (rest : List ℕ → Bool) (c : ℕ) (cs : List ℕ)
    → after_star rest cs ≡ true
    → after_star rest (c ∷ cs) ≡ true
unfolding after_star
after_star-there rest c cs h = ground (arith, h)

glob-star :
    (p : ℕ) (ps cs : List ℕ) → eqb p b'*' ≡ true → glob (p ∷ ps) cs ≡ after_star (glob ps) cs
unfolding glob
glob-star p ps cs e = ap (λ (f : List ℕ → Bool). f cs) (if_true (eqb p b'*') _ _ e)

glob-char :
    (p : ℕ) (ps cs : List ℕ)
    → eqb p b'*' ≡ false
    → glob (p ∷ ps) cs ≡ one_char (λ c. eqb p b'?' || eqb p c) (glob ps) cs
unfolding glob
glob-char p ps cs e = ap (λ (f : List ℕ → Bool). f cs) (if_false (eqb p b'*') _ _ e)

one_same :
    (c : ℕ) (ps cs : List ℕ)
    → glob ps cs ≡ true
    → one_char (λ d. eqb c b'?' || eqb c d) (glob ps) (c ∷ cs) ≡ true
unfolding one_char
one_same c ps cs h = ground (arith, h, eqb_refl c)

same-glob : (c : ℕ) (ps cs : List ℕ) → glob ps cs ≡ true → glob (c ∷ ps) (c ∷ cs) ≡ true
same-glob c ps cs h = elim (Bool-cases (eqb c b'*')) [
  | inl e ↦
      glob-star c ps (c ∷ cs) e ∙ after_star-there (glob ps) c cs (after_star-here (glob ps) cs h)
  | inr e ↦ glob-char c ps (c ∷ cs) e ∙ one_same c ps cs h
]

pub Matches-glob : {ps cs : List ℕ} → Matches ps cs → glob ps cs ≡ true
unfolding glob one_char
Matches-glob finish = refl
Matches-glob (star_none {ps} {cs} m) = after_star-here (glob ps) cs (Matches-glob m)
Matches-glob (star_more {c} {ps} {cs} m) = after_star-there (glob ps) c cs (Matches-glob m)
Matches-glob (question m) = Matches-glob m
Matches-glob (same {c} {ps} {cs} m) = same-glob c ps cs (Matches-glob m)

star_found :
    (ps : List ℕ)
    → ((cs : List ℕ) → glob ps cs ≡ true → Matches ps cs)
    → (cs : List ℕ) → after_star (glob ps) cs ≡ true
    → Matches (b'*' ∷ ps) cs
unfolding after_star
star_found ps sound [] h = star_none (sound [] h)
star_found ps sound (c ∷ cs) h = elim (Bool-cases (glob ps (c ∷ cs))) [
  | inl e ↦ star_none (sound (c ∷ cs) e)
  | inr e ↦ star_more (star_found ps sound cs (ground (arith, e, h)))
]

char_found :
    (p : ℕ) (ps : List ℕ)
    → ((cs : List ℕ) → glob ps cs ≡ true → Matches ps cs)
    → (cs : List ℕ) → one_char (λ c. eqb p b'?' || eqb p c) (glob ps) cs ≡ true
    → Matches (p ∷ ps) cs
unfolding one_char
char_found p ps sound [] h = false_elim h
char_found p ps sound (c ∷ cs) h = elim (Bool-cases (eqb p b'?')) [
  | inl e ↦
      subst (λ q. Matches (q ∷ ps) (c ∷ cs)) (sym (eqb-true p b'?' e))
        (question (sound cs (ground (arith, e, h))))
  | inr e ↦ elim (Bool-cases (eqb p c)) [
    | inl f ↦
        subst (λ q. Matches (q ∷ ps) (c ∷ cs)) (sym (eqb-true p c f))
          (same (sound cs (ground (arith, e, f, h))))
    | inr f ↦ absurd (ground (arith, e, f, h))
  ]
]

pub glob-Matches : (ps cs : List ℕ) → glob ps cs ≡ true → Matches ps cs
unfolding glob
glob-Matches [] [] h = finish
glob-Matches [] (c ∷ cs) h = false_elim h
glob-Matches (p ∷ ps) cs h = elim (Bool-cases (eqb p b'*')) [
  | inl e ↦
      subst (λ q. Matches (q ∷ ps) cs) (sym (eqb-true p b'*' e))
        (star_found ps (glob-Matches ps) cs (sym (glob-star p ps cs e) ∙ h))
  | inr e ↦ char_found p ps (glob-Matches ps) cs (sym (glob-char p ps cs e) ∙ h)
]

pub star_all : (cs : List ℕ) → Matches (b'*' ∷ []) cs
star_all [] = star_none finish
star_all (c ∷ cs) = star_more (star_all cs)
