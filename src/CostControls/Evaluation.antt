-- ===== src/CostControls/Evaluation.antt =====
-- apps/runtime/citadel/commercial/cost_controls.py: the decision on one budget, and on all that
-- match.
use ledger_sdk.Prelude.{
  String, ℤ, true, false, Option, none, some, List, [], ◌∷◌, ltb_ℤ, ltb_ℤ→lt, ltb_ℤ→le, ◌+ℤ◌, ◌≤ℤ◌,
  ◌<ℤ◌, any, sort_by, All, Any, here, there, All-sort_by, Any-sort_by, ◌≡◌, refl, sym, ap, ◌⊎◌, inl,
  inr, Bool-cases, if_true, if_false,
}
use mathlib.Core.Path.{subst}
use ledger_sdk.Exec.{Result, ok, raised}
use ledger_sdk.Exec.Returns.{Holds}
use ledger_sdk.Budgets.{CostBudget, BudgetDecision}
use ledger_sdk.Db.{Env}
use ledger_sdk.CostControls.{
  evaluate_budget, validate_budget, current_period_window, judge, evaluate_ordered,
  evaluate_budget_set, by_priority, more_specific, unknown_scope, budget_key, spent_for, first_or,
  stop_at,
}

-- The decision on a budget: allowed where the spend with the projected cost stays within the amount,
-- and else denied with the budget's own enforcement action.
pub Decides : CostBudget → ℤ → ℤ → BudgetDecision → Type 0
Decides b spent projected d =
    ((d.is_allowed ≡ true) × (spent +ℤ projected ≤ℤ b.amount_cents))
    ⊎ ((d.is_allowed ≡ false)
        × (b.amount_cents <ℤ spent +ℤ projected)
        × (d.enforcement_action ≡ b.enforcement_action)
        × (d.budget ≡ some b))

judge-Decides :
    (env : Env) (b : CostBudget) (spent projected : ℤ) (window : Result _)
    → Holds (Decides b spent projected) (judge env b spent projected window)
unfolding Decides
judge-Decides env b spent projected (raised e) = tt
judge-Decides env b spent projected (ok window) =
    elim (Bool-cases (ltb_ℤ b.amount_cents (spent +ℤ projected))) [
      | inl h ↦
          subst (Holds _) (sym (if_true (ltb_ℤ b.amount_cents (spent +ℤ projected)) _ _ h))
            (inr (refl, ltb_ℤ→lt b.amount_cents (spent +ℤ projected) h, refl, refl))
      | inr h ↦
          subst (Holds _) (sym (if_false (ltb_ℤ b.amount_cents (spent +ℤ projected)) _ _ h))
            (inl (refl, ltb_ℤ→le b.amount_cents (spent +ℤ projected) h))
    ]

pub evaluate_budget-Decides :
    (env : Env) (b : CostBudget) (spent projected : ℤ)
    → Holds (Decides b spent projected) (evaluate_budget env b spent projected)
unfolding evaluate_budget
evaluate_budget-Decides env b spent projected = step (validate_budget b)
  where
    step :
        (v : Result (Unit {0}))
        → Holds (Decides b spent projected) (elim v [
          | raised e ↦ raised e
          | ok _ ↦ judge env b spent projected (current_period_window b.reset_period env.now)
        ])
    step (raised e) = tt
    step (ok _) = judge-Decides env b spent projected _

module _ (env : Env) (spend : List (String × ℤ)) (projected : ℤ) where
  -- The budget's spend with the projected cost stays within its amount.
  abbrev pub Fits : CostBudget → Type 0
  Fits b = spent_for (budget_key b) spend +ℤ projected ≤ℤ b.amount_cents

  -- The decision is the denial of the budget.
  abbrev pub Denies : BudgetDecision → CostBudget → Type 0
  Denies d b =
      (d.budget ≡ some b)
      × (b.amount_cents <ℤ spent_for (budget_key b) spend +ℤ projected)
      × (d.enforcement_action ≡ b.enforcement_action)

  -- The decision on a set of budgets: allowed where each of them fits, and else the denial of one
  -- of them.
  pub SetDecides : List CostBudget → BudgetDecision → Type 0
  SetDecides bs d =
      ((d.is_allowed ≡ true) × All Fits bs) ⊎ ((d.is_allowed ≡ false) × Any (Denies d) bs)

  abbrev FirstAllowed : Option BudgetDecision → Type 0
  FirstAllowed none = Unit
  FirstAllowed (some d) = d.is_allowed ≡ true

  abbrev decide : CostBudget → Result BudgetDecision
  decide b = evaluate_budget env b (spent_for (budget_key b) spend) projected

  extend :
      (b : CostBudget) (bs : List CostBudget) (r : Result BudgetDecision)
      → Fits b
      → Holds (SetDecides bs) r
      → Holds (SetDecides (b ∷ bs)) r
  unfolding SetDecides
  extend b bs (raised e) f h = tt
  extend b bs (ok d) f (inl (a, all)) = inl (a, (f, all))
  extend b bs (ok d) f (inr (a, some_of)) = inr (a, there some_of)

  first_allowed :
      (first : Option BudgetDecision) (d : BudgetDecision)
      → FirstAllowed first
      → d.is_allowed ≡ true
      → FirstAllowed (first_or first (ok d))
  first_allowed none d f a = a
  first_allowed (some e) d f a = f

  ordered-step :
      (b : CostBudget) (bs : List CostBudget) (first : Option BudgetDecision)
      (r : Result BudgetDecision)
      → Holds (Decides b (spent_for (budget_key b) spend) projected) r
      → FirstAllowed first
      → ((f : Option BudgetDecision)
          → FirstAllowed f
          → Holds (SetDecides bs) (evaluate_ordered env spend projected f bs))
      → Holds
          (SetDecides (b ∷ bs))
          (stop_at r (evaluate_ordered env spend projected (first_or first r) bs))
  unfolding SetDecides Decides
  ordered-step b bs first (raised e) h f ih = tt
  ordered-step b bs first (ok d) (inl (a, fits)) f ih =
      subst (Holds (SetDecides (b ∷ bs))) (sym (if_true d.is_allowed _ _ a))
        (extend b bs _ fits (ih (first_or first (ok d)) (first_allowed first d f a)))
  ordered-step b bs first (ok d) (inr (a, over, action, of)) f ih =
      subst (Holds (SetDecides (b ∷ bs))) (sym (if_false d.is_allowed _ _ a))
        (inr (a, here (of, over, action)))

  ordered-SetDecides :
      (bs : List CostBudget) (first : Option BudgetDecision)
      → FirstAllowed first
      → Holds (SetDecides bs) (evaluate_ordered env spend projected first bs)
  unfolding SetDecides evaluate_ordered
  ordered-SetDecides [] none f = inl (refl, tt)
  ordered-SetDecides [] (some d) f = inl (f, tt)
  ordered-SetDecides (b ∷ bs) first f =
      ordered-step b bs first (decide b)
        (evaluate_budget-Decides env b (spent_for (budget_key b) spend) projected) f
        (ordered-SetDecides bs)

  unsorted :
      (bs : List CostBudget) (r : Result BudgetDecision)
      → Holds (SetDecides (sort_by more_specific bs)) r
      → Holds (SetDecides bs) r
  unfolding SetDecides
  unsorted bs (raised e) h = tt
  unsorted bs (ok d) (inl (a, all)) = inl (a, All-sort_by Fits more_specific bs all)
  unsorted bs (ok d) (inr (a, one)) = inr (a, Any-sort_by (Denies d) more_specific bs one)

  set-Holds :
      (bs : List CostBudget) → Holds (SetDecides bs) (evaluate_budget_set env bs spend projected)
  unfolding evaluate_budget_set by_priority SetDecides
  set-Holds [] = inl (refl, tt)
  set-Holds (b ∷ bs) = elim (Bool-cases (any unknown_scope (b ∷ bs))) [
    | inl h ↦
        subst (Holds (SetDecides (b ∷ bs)))
          (sym (ap judged (if_true (any unknown_scope (b ∷ bs)) _ _ h))) tt
    | inr h ↦
        subst (Holds (SetDecides (b ∷ bs)))
          (sym (ap judged (if_false (any unknown_scope (b ∷ bs)) _ _ h)))
          (unsorted (b ∷ bs) _ (ordered-SetDecides (sort_by more_specific (b ∷ bs)) none tt))
  ]
    where
      judged : Result (List CostBudget) → Result BudgetDecision
      judged (raised e) = raised e
      judged (ok ordered) = evaluate_ordered env spend projected none ordered

  -- A decision on a set of budgets allows exactly where every one of them stays within its amount,
  -- and is otherwise the denial of one that would be exceeded, with that budget's own action.
  pub evaluate_budget_set-SetDecides :
      (bs : List CostBudget) (d : BudgetDecision)
      → evaluate_budget_set env bs spend projected ≡ ok d
      → SetDecides bs d
  evaluate_budget_set-SetDecides bs d e = subst (Holds (SetDecides bs)) e (set-Holds bs)
