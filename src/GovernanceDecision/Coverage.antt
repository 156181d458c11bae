-- ===== src/GovernanceDecision/Coverage.antt =====
-- apps/runtime/citadel/tokens/governance_decision.py, DecisionScope.covers: the scope as a
-- relation between patterns and names.
use ledger_sdk.Prelude.{
  String, true, ◌==◌, Option, none, some, List, [], ◌∷◌, any, Any, here, there, codes, is_nil, ◌≡◌,
  ◌↔◌, ◌⊎◌, refl, sym, ap, arith, inl, inr, Bool-cases, false_elim, eq_iff,
}
use mathlib.Core.Path.{subst}
use ledger_sdk.GovernanceDecision.Glob.{fnmatch}
use ledger_sdk.GovernanceDecision.Glob.Matching.{Matches, star_all, Matches-glob, glob-Matches}
use ledger_sdk.GovernanceDecision.{DecisionScope, covers, covers_resource, pattern_matches}

-- A pattern names a text where the glob relation holds of their code points.
abbrev pub Names : String → String → Type 0
Names name p = Matches (codes p) (codes name)

-- A scope covers an action by one of its patterns; a resource that is given and not empty is asked
-- of the resource patterns, where there is one.
unfoldable pub Covered : DecisionScope → String → Option String → Type 0
Covered s action none = Any (Names action) s.actions
Covered s action (some r) =
    Any (Names action) s.actions × ((r ≡ "") ⊎ (s.resources ≡ []) ⊎ Any (Names r) s.resources)

pattern_matches-Names : (name p : String) → pattern_matches name p ≡ true → Names name p
unfolding fnmatch codes
pattern_matches-Names name p h = elim (Bool-cases (p == "*")) [
  | inl e ↦ subst (Names name) (sym ((eq_iff p "*").0 e)) (star_all (codes name))
  | inr e ↦ glob-Matches (codes p) (codes name) (ground (arith, e, h))
]

Names-pattern_matches : (name p : String) → Names name p → pattern_matches name p ≡ true
unfolding fnmatch
Names-pattern_matches name p m = ground (arith, Matches-glob m)

any-Names :
    (name : String) (ps : List String) → any (pattern_matches name) ps ≡ true → Any (Names name) ps
any-Names name [] h = false_elim h
any-Names name (p ∷ ps) h = elim (Bool-cases (pattern_matches name p)) [
  | inl e ↦ here (pattern_matches-Names name p e)
  | inr e ↦ there (any-Names name ps (ground (arith, e, h)))
]

Names-any :
    (name : String) (ps : List String) → Any (Names name) ps → any (pattern_matches name) ps ≡ true
Names-any name [] a = elim a [ ]
Names-any name (p ∷ ps) (here m) = ground (arith, Names-pattern_matches name p m)
Names-any name (p ∷ ps) (there a) = ground (arith, Names-any name ps a)

abbrev Asked : DecisionScope → String → Type 0
Asked s r = (r ≡ "") ⊎ (s.resources ≡ []) ⊎ Any (Names r) s.resources

no_patterns : (ps : List String) → is_nil ps ≡ true → ps ≡ []
no_patterns [] h = refl
no_patterns (p ∷ ps) h = false_elim h

covers_resource-Asked :
    (s : DecisionScope) (r : String) → covers_resource s (some r) ≡ true → Asked s r
unfolding covers_resource
covers_resource-Asked s r h = elim (Bool-cases (r == "")) [
  | inl e ↦ inl ((eq_iff r "").0 e)
  | inr e ↦ elim (Bool-cases (is_nil s.resources)) [
    | inl f ↦ inr (inl (no_patterns s.resources f))
    | inr f ↦ inr (inr (any-Names r s.resources (ground (arith, e, f, h))))
  ]
]

Asked-covers_resource :
    (s : DecisionScope) (r : String) → Asked s r → covers_resource s (some r) ≡ true
unfolding covers_resource
Asked-covers_resource s r (inl e) = ground (arith, (eq_iff r "").1 e)
Asked-covers_resource s r (inr (inl e)) = ground (arith, ap is_nil e)
Asked-covers_resource s r (inr (inr a)) = ground (arith, Names-any r s.resources a)

-- A scope covers an action and a resource exactly where the glob relation, given for patterns of
-- stars, question marks and plain characters, holds between one of its action patterns and the
-- action and, for a resource that is given and not empty and a scope with resource patterns,
-- between one of these and the resource; the shortcut for the pattern of one star adds nothing.
pub covers-Covered :
    (s : DecisionScope) (action : String) (resource : Option String)
    → (covers s action resource ≡ true) ↔ Covered s action resource
unfolding covers covers_resource Covered
covers-Covered s action none = (
  λ h. any-Names action s.actions (ground (arith, h)),
  λ a. ground (arith, Names-any action s.actions a),
)
covers-Covered s action (some r) = (
  λ h. (
    any-Names action s.actions (ground (arith, h)),
    covers_resource-Asked s r (ground (arith, h)),
  ),
  λ c. ground (arith, Names-any action s.actions c.0, Asked-covers_resource s r c.1),
)
