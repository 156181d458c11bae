-- ===== src/CostControls/TopUp.antt =====
-- apps/runtime/citadel/commercial/cost_controls.py: the top-up of a tenant's budget is all or
-- nothing, and exact.
use ledger_sdk.Prelude.{
  String, List, false_elim, and_left, and_right, opt_eq, Each, Each-update_where, find_by-test, ◌⊎◌,
  ℤ, pos, not, true, Option, none, some, ◌∷◌, find_by, update_where, ◌+ℤ◌, ◌<ℤ◌, ◌≡◌, refl, sym, ap,
  inl, inr, Bool-cases, arith, eq_iff, ◌==◌, if_true, if_false, +ℤ_parts,
}
use mathlib.Core.Path.{subst}
use ledger_sdk.Exec.{Result, ok, raised, lift, ◌>>=◌}
use ledger_sdk.Budgets.{CostBudget, BudgetTopUp, BudgetAdjustment}
use ledger_sdk.Db.{Env, App, World}
use ledger_sdk.CostControls.{
  top_up_tenant_budget, validate_top_up, apply_top_up, top_up_row, updated_row, set_amount,
}

-- An amount that passes validation is positive.
validated_amount : (t : BudgetTopUp) → validate_top_up t ≡ ok tt → pos 0 <ℤ t.amount_cents
unfolding validate_top_up
validated_amount t h = ground (arith, h)

-- The row is the budget that the request names.
abbrev pub IsNamed : BudgetTopUp → CostBudget → Type 0
IsNamed t b = (b.budget_id ≡ some t.budget_id) × (b.tenant_id ≡ t.tenant_id)

-- The row of the named budget has the amount and nothing else new; any other row is as it was.
abbrev pub Raised : BudgetTopUp → ℤ → CostBudget → CostBudget → Type 0
Raised t amount before after =
    (IsNamed t before × (after ≡ record before { amount_cents = amount }))
    ⊎ ((¬ IsNamed t before) × (after ≡ before))

-- What a top-up that succeeds has done: the active tenant budget that the request names has an
-- amount larger by the request's, and one adjustment records both amounts.
pub ToppedUp : Env → BudgetTopUp → World → BudgetAdjustment → World → Type 0
ToppedUp env t w a w' =
    (b : CostBudget) × (find_by (top_up_row t) w.db.budgets ≡ some b)
    × IsNamed t b
    × (b.is_active ≡ true)
    × (b.scope_type ≡ "tenant")
    × (a.previous_amount_cents ≡ b.amount_cents)
    × (a.resulting_amount_cents ≡ b.amount_cents +ℤ t.amount_cents)
    × (b.amount_cents <ℤ a.resulting_amount_cents)
    × Each (Raised t (b.amount_cents +ℤ t.amount_cents)) w.db.budgets w'.db.budgets
    × (w'.db.adjustments ≡ a ∷ w.db.adjustments)
    × (w'.db.spend_events ≡ w.db.spend_events)

pub Outcome : Env → BudgetTopUp → World → Result BudgetAdjustment × World → Type 0
unfolding ToppedUp
Outcome env t w (ok a, w') = ToppedUp env t w a w'
Outcome env t w (raised e, w') =
    (w' ≡ w)
    × ((validate_top_up t ≡ raised e)
        ⊎ (find_by (top_up_row t) w.db.budgets ≡ none)
        ⊎ ((b : CostBudget) × (find_by (top_up_row t) w.db.budgets ≡ some b)
            × ¬ (b.scope_type ≡ "tenant")))

opt_eq-some : (o : Option String) (s : String) → opt_eq o (some s) ≡ true → o ≡ some s
opt_eq-some none s h = false_elim h
opt_eq-some (some x) s h = ap some ((eq_iff x s).0 h)

some-opt_eq : (o : Option String) (s : String) → o ≡ some s → opt_eq o (some s) ≡ true
some-opt_eq none s h = absurd (ground (arith, h))
some-opt_eq (some x) s h = (eq_iff x s).1 (ground (arith, h))

updated_row-IsNamed : (t : BudgetTopUp) (b : CostBudget) → updated_row t b ≡ true → IsNamed t b
updated_row-IsNamed t b h = (
  opt_eq-some b.budget_id t.budget_id (and_left _ _ h),
  (eq_iff b.tenant_id t.tenant_id).0 (and_right _ _ h),
)

IsNamed-updated_row : (t : BudgetTopUp) (b : CostBudget) → IsNamed t b → updated_row t b ≡ true
IsNamed-updated_row t b (h, k) =
    ground (arith, some-opt_eq b.budget_id t.budget_id h, (eq_iff b.tenant_id t.tenant_id).1 k)

Raised-update_where :
    (t : BudgetTopUp) (amount : ℤ) (rows : List CostBudget)
    → Each (Raised t amount) rows (update_where (updated_row t) (set_amount amount) rows)
Raised-update_where t amount =
    Each-update_where (Raised t amount) (updated_row t) (set_amount amount)
      (λ b h. inl (updated_row-IsNamed t b h, refl))
      λ b h. inr (λ n. absurd (ground (arith, IsNamed-updated_row t b n, h)), refl)

top_up_row-found :
    (t : BudgetTopUp) (b : CostBudget) → top_up_row t b ≡ true → IsNamed t b × (b.is_active ≡ true)
top_up_row-found t b h = (
  (
    opt_eq-some b.budget_id t.budget_id (and_left _ _ (and_left _ _ h)),
    (eq_iff b.tenant_id t.tenant_id).0 (and_right _ _ (and_left _ _ h)),
  ),
  and_right _ _ h,
)

grows : (a b : ℤ) → pos 0 <ℤ b → a <ℤ a +ℤ b
grows a b h = ground (arith, +ℤ_parts a b, h)

applied :
    (env : Env) (t : BudgetTopUp) (w : World) (row : Option CostBudget)
    → find_by (top_up_row t) w.db.budgets ≡ row
    → pos 0 <ℤ t.amount_cents
    → Outcome env t w (apply_top_up env t row w)
unfolding apply_top_up Outcome ToppedUp ◌>>=◌
applied env t w none f h = (refl, inr (inl f))
applied env t w (some b) f h = elim (Bool-cases (b.scope_type == "tenant")) [
  | inl e ↦
      subst (λ (m : App BudgetAdjustment). Outcome env t w (m w))
        (sym (if_false (not (b.scope_type == "tenant")) _ _ (ap not e)))
        (
          b,
          f,
          (top_up_row-found t b (find_by-test (top_up_row t) w.db.budgets b f)).0,
          (top_up_row-found t b (find_by-test (top_up_row t) w.db.budgets b f)).1,
          (eq_iff b.scope_type "tenant").0 e,
          refl,
          refl,
          grows b.amount_cents t.amount_cents h,
          Raised-update_where t (b.amount_cents +ℤ t.amount_cents) w.db.budgets,
          refl,
          refl,
        )
  | inr e ↦
      subst (λ (m : App BudgetAdjustment). Outcome env t w (m w))
        (sym (if_true (not (b.scope_type == "tenant")) _ _ (ap not e)))
        (
          refl,
          inr (inr (b, f, λ q. absurd (ground (arith, (eq_iff b.scope_type "tenant").1 q, e)))),
        )
]

-- A top-up that raises changes nothing, and the request was invalid or named no active budget of
-- the tenant, or one that is not of tenant scope; one that succeeds has raised the amount of the
-- named budget by exactly the requested positive amount, left every other budget as it was,
-- recorded both amounts in one adjustment, and left the spend alone.
pub top_up-Outcome :
    (env : Env) (t : BudgetTopUp) (w : World) → Outcome env t w (top_up_tenant_budget env t w)
unfolding top_up_tenant_budget ◌>>=◌ Outcome
top_up-Outcome env t w = step (validate_top_up t) refl
  where
    step :
        (v : Result (Unit {0}))
        → validate_top_up t ≡ v
        → Outcome env t w (
            (lift v >>= λ _. (λ w. (apply_top_up env t (find_by (top_up_row t) w.db.budgets) w))) w)
    step (raised e) h = (refl, inl h)
    step (ok _) h = applied env t w _ refl (validated_amount t h)
