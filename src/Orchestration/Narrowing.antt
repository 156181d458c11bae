-- ===== src/Orchestration/Narrowing.antt =====
-- apps/runtime/citadel/execution/orchestration.py, _is_narrower_scope: what a child that passes may
-- do that its parent may not.
use ledger_sdk.Prelude.{
  String, ℤ, Option, none, some, ap, ◌∙◌, eq_refl, Bool, true, false, ◌&&◌, ◌||◌, List, [], ◌∷◌,
  any, all, Any, here, there, is_nil, plain_pattern, mem_str, ◌==◌, eq_iff, ends_with, drop_last,
  starts_with, ◌≡◌, ◌⊎◌, refl, sym, arith, inl, inr, Bool-cases, and_left, and_right, false_elim,
}
use ledger_sdk.Prelude.Suffix.{drop_star, drop_colon_star}
use mathlib.Core.Path.{subst}
use ledger_sdk.GovernanceDecision.Coverage.{Names, Covered, covers-Covered}
use ledger_sdk.GovernanceDecision.{DecisionScope, covers}
use ledger_sdk.GovernanceDecision.Prefix.{Names-star, Names-prefix}
use ledger_sdk.Orchestration.Scope.{
  is_narrower_scope, actions_narrower, resources_narrower, action_passes, resource_passes,
  amount_narrower,
}

starred : (name c p : String) → p == "*" ≡ true → Names name p
starred name c p h = subst (Names name) (sym ((eq_iff p "*").0 h)) (Names-star name)

equal : (name c p : String) → p == c ≡ true → Names name c → Names name p
equal name c p h n = subst (Names name) (sym ((eq_iff p c).0 h)) n

or_cases : (a b c : Bool) → a || b || c ≡ true → (a ≡ true) ⊎ (b ≡ true) ⊎ (c ≡ true)
or_cases true b c h = inl refl
or_cases false true c h = inr (inl refl)
or_cases false false c h = inr (inr h)

-- What the child's pattern names, the parent's that lets it pass names too.
Names-action : (name c p : String) → action_passes c p ≡ true → Names name c → Names name p
Names-action name c p h n = by_case (or_cases _ _ _ h)
  where
    by_case :
        (p == "*" ≡ true)
          ⊎ (ends_with p ":*" && starts_with c (drop_last 1 p) ≡ true)
          ⊎ (p == c ≡ true)
        → Names name p
    by_case (inl e) = starred name c p e
    by_case (inr (inl e)) =
        Names-prefix name c p (and_right _ _ e) (drop_colon_star p (and_left _ _ e)) n
    by_case (inr (inr e)) = equal name c p e n

Names-resource : (name c p : String) → resource_passes c p ≡ true → Names name c → Names name p
Names-resource name c p h n = by_case (or_cases _ _ _ h)
  where
    by_case :
        (p == "*" ≡ true)
          ⊎ (ends_with p "*" && starts_with c (drop_last 1 p) ≡ true)
          ⊎ (p == c ≡ true)
        → Names name p
    by_case (inl e) = starred name c p e
    by_case (inr (inl e)) = Names-prefix name c p (and_right _ _ e) (drop_star p (and_left _ _ e)) n
    by_case (inr (inr e)) = equal name c p e n

module _ (name : String) (passes : String → String → Bool)
    (through : (c p : String) → passes c p ≡ true → Names name c → Names name p) where
  one_passes :
      (c : String) (ps : List String)
      → any (passes c) ps ≡ true
      → Names name c
      → Any (Names name) ps
  one_passes c [] h n = false_elim h
  one_passes c (p ∷ ps) h n = elim (Bool-cases (passes c p)) [
    | inl e ↦ here (through c p e n)
    | inr e ↦ there (one_passes c ps (ground (arith, e, h)) n)
  ]

  all_pass :
      (ps cs : List String)
      → all (λ c. any (passes c) ps) cs ≡ true
      → Any (Names name) cs
      → Any (Names name) ps
  all_pass ps [] h a = elim a [ ]
  all_pass ps (c ∷ cs) h (here n) = one_passes c ps (and_left _ _ h) n
  all_pass ps (c ∷ cs) h (there a) = all_pass ps cs (and_right _ _ h) a

Any-star : (name : String) (ps : List String) → mem_str "*" ps ≡ true → Any (Names name) ps
Any-star name [] h = false_elim h
Any-star name (p ∷ ps) h = elim (Bool-cases (p == "*")) [
  | inl e ↦ here (starred name name p e)
  | inr e ↦ there (Any-star name ps (ground (arith, e, h)))
]

Any-actions :
    (name : String) (ps cs : List String)
    → actions_narrower ps cs ≡ true
    → is_nil ps ≡ false
    → Any (Names name) cs
    → Any (Names name) ps
unfolding actions_narrower
Any-actions name ps [] h e a = elim a [ ]
Any-actions name ps (c ∷ cs) h e a = elim (Bool-cases (mem_str "*" ps)) [
  | inl s ↦ Any-star name ps s
  | inr s ↦ all_pass name action_passes (Names-action name) ps (c ∷ cs) (ground (arith, h, e, s)) a
]

Any-resources :
    (name : String) (ps cs : List String)
    → resources_narrower ps cs ≡ true
    → is_nil ps ≡ false
    → Any (Names name) cs
    → Any (Names name) ps
unfolding resources_narrower
Any-resources name ps [] h e a = elim a [ ]
Any-resources name ps (c ∷ cs) h e a =
    all_pass name resource_passes (Names-resource name) ps (c ∷ cs) (ground (arith, h, e)) a

-- The resource side of coverage, where the child has resources.
covered_resource :
    (parent child : DecisionScope) (r : String)
    → resources_narrower parent.resources child.resources ≡ true
    → is_nil child.resources ≡ false
    → (r ≡ "") ⊎ (child.resources ≡ []) ⊎ Any (Names r) child.resources
    → (r ≡ "") ⊎ (parent.resources ≡ []) ⊎ Any (Names r) parent.resources
covered_resource parent child r h c (inl e) = inl e
covered_resource parent child r h c (inr (inl e)) = absurd (ground (arith, sym (ap is_nil e) ∙ c))
covered_resource parent child r h c (inr (inr a)) = by_parent parent.resources h
  where
    by_parent :
        (ps : List String)
        → resources_narrower ps child.resources ≡ true
        → (r ≡ "") ⊎ (ps ≡ []) ⊎ Any (Names r) ps
    by_parent [] h = inr (inl refl)
    by_parent (p ∷ ps) h = inr (inr (Any-resources r (p ∷ ps) child.resources h refl a))

narrower_parts :
    (parent child : DecisionScope)
    → is_narrower_scope parent child ≡ true
    → (actions_narrower parent.actions child.actions ≡ true)
      × (resources_narrower parent.resources child.resources ≡ true)
unfolding is_narrower_scope
narrower_parts parent child h = ground (arith, h)

-- No pattern of the scope has a bracket, which starts a class of characters in fnmatch.
abbrev pub IsPlain : DecisionScope → Type 0
IsPlain s = (all plain_pattern s.actions ≡ true) × (all plain_pattern s.resources ≡ true)

-- A child scope that passes as narrower, and that names resources, covers nothing that its parent
-- does not cover, where the parent names an action and no pattern of either has a bracket: every
-- pattern of the child that a pattern of the parent lets pass names only what that pattern names.
pub narrower-covers :
    (parent child : DecisionScope) (action : String) (resource : Option String)
    → IsPlain parent
    → IsPlain child
    → is_narrower_scope parent child ≡ true
    → is_nil parent.actions ≡ false
    → is_nil child.resources ≡ false
    → covers child action resource ≡ true
    → covers parent action resource ≡ true
unfolding Covered
narrower-covers parent child action none pp pc h p c k = (covers-Covered parent action none).1 (
    Any-actions action parent.actions child.actions (narrower_parts parent child h).0 p
      ((covers-Covered child action none).0 k))
narrower-covers parent child action (some r) pp pc h p c k =
    let (a, b) = (covers-Covered child action (some r)).0 k in
    (covers-Covered parent action (some r)).1 (
      Any-actions action parent.actions child.actions (narrower_parts parent child h).0 p a,
      covered_resource parent child r (narrower_parts parent child h).1 c b,
    )

-- The scope of a child that takes over the actions of its parent and nothing else.
abbrev pub unrestricted : DecisionScope → DecisionScope
unrestricted parent = record {
  actions = parent.actions;
  resources = [];
  max_spend = none;
  rate_limit = none;
}

passes_self :
    (c : String) (ps : List String) → mem_str c ps ≡ true → any (action_passes c) ps ≡ true
passes_self c [] h = h
passes_self c (p ∷ ps) h = elim (Bool-cases (p == c)) [
  | inl e ↦ ground (arith, e)
  | inr e ↦ ground (arith, passes_self c ps (ground (arith, e, h)))
]

all_self :
    (f : String → Bool) (cs : List String)
    → ((c : String) → mem_str c cs ≡ true → f c ≡ true)
    → all f cs ≡ true
all_self f [] h = refl
all_self f (c ∷ cs) h =
    ground (arith, h c (ground (arith, eq_refl c)), all_self f cs (λ d e. h d (ground (arith, e))))

actions_narrower_self : (ps : List String) → actions_narrower ps ps ≡ true
unfolding actions_narrower
actions_narrower_self ps =
    ground (arith, all_self (λ c. any (action_passes c) ps) ps (λ c h. passes_self c ps h))

amount_narrower-none : (p : Option ℤ) → amount_narrower p none ≡ true
amount_narrower-none none = refl
amount_narrower-none (some n) = refl

-- For every parent scope, the child with the same actions and with no resources, spend limit or
-- rate limit passes as narrower, and covers each action that the parent covers, on whatever
-- resource.
pub unrestricted-widens :
    (parent : DecisionScope) (action : String) (resource other : Option String)
    → covers parent action resource ≡ true
    → (is_narrower_scope parent (unrestricted parent) ≡ true)
      × (covers (unrestricted parent) action other ≡ true)
unfolding is_narrower_scope resources_narrower Covered
unrestricted-widens parent action resource other h = (
  ground (
    arith,
    actions_narrower_self parent.actions,
    amount_narrower-none parent.max_spend,
    amount_narrower-none parent.rate_limit,
  ),
  (covers-Covered (unrestricted parent) action other).1
      (any_resource other (action_named resource ((covers-Covered parent action resource).0 h))),
)
  where
    action_named :
        (resource : Option String)
        → Covered parent action resource
        → Any (Names action) parent.actions
    action_named none a = a
    action_named (some r) a = a.0

    any_resource :
        (other : Option String)
        → Any (Names action) parent.actions
        → Covered (unrestricted parent) action other
    any_resource none a = a
    any_resource (some r) a = (a, inr (inl refl))
