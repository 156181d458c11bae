-- ===== src/Scenarios/Costs.antt =====
-- A budget that is checked and topped up.
use ledger_sdk.Prelude.{ℕ, ◌*◌, ◌+◌, ◌≤◌, ◌<◌, ◌+ℤ◌, String, ℤ, pos, some, List, [], ◌∷◌, ◌≡◌, refl}
use ledger_sdk.Values.{end}
use ledger_sdk.Exec.{ok}
use ledger_sdk.Exec.Returns.{Holds}
use ledger_sdk.Budgets.{BudgetDecision, BudgetTopUp}
use ledger_sdk.Db.{World}
use ledger_sdk.CostControls.{
  evaluate_budget, evaluate_budget_set, evaluate_ordered, by_priority, validate_budget, exceeded,
  top_up_tenant_budget, current_period_window, spent_for,
}
use ledger_sdk.CostControls.Evaluation.{
  Decides, SetDecides, evaluate_budget-Decides, evaluate_budget_set-SetDecides,
}
use ledger_sdk.CostControls.TopUp.{Outcome, top_up-Outcome}
use ledger_sdk.Calendar.{
  day, day_start, year_of, month_of, month_start, days_before_year, days_before_month, days_in_year,
  days_in_month,
}
use ledger_sdk.CostControls.Periods.{current_period_window-HoldsNow}
use ledger_sdk.Scenarios.{env, empty_db, world_of, budget}

evaluate_budget-Decides_example :
    Holds (Decides budget (pos 450) (pos 60)) (evaluate_budget env budget (pos 450) (pos 60))
evaluate_budget-Decides_example = evaluate_budget-Decides env budget (pos 450) (pos 60)

abbrev spend : List (String × ℤ)
spend = ("b1", pos 450) ∷ []

abbrev denial : BudgetDecision
denial = exceeded env budget (pos 450) (pos 60) (0, day)

denied_test : evaluate_budget_set env (budget ∷ []) spend (pos 60) ≡ ok denial
unfolding evaluate_budget_set evaluate_ordered by_priority evaluate_budget validate_budget
    current_period_window day_start spent_for ◌+ℤ◌
denied_test = refl

evaluate_budget_set-SetDecides_example : SetDecides env spend (pos 60) (budget ∷ []) denial
evaluate_budget_set-SetDecides_example =
    evaluate_budget_set-SetDecides env spend (pos 60) (budget ∷ []) denial denied_test

abbrev top_up : BudgetTopUp
top_up = record {
  budget_id = "b1";
  tenant_id = "acme";
  amount_cents = pos 100;
  reason = " launch ";
  actor_id = "alice";
  actor_role = some "executive";
  metadata = end;
}

abbrev funded : World
funded = world_of (record empty_db { budgets = budget ∷ [] })

top_up-Outcome_example : Outcome env top_up funded (top_up_tenant_budget env top_up funded)
top_up-Outcome_example = top_up-Outcome env top_up funded

-- The tenth of February of the year 1.
abbrev february : ℕ
february = 40 * day + 1000

month_test : current_period_window "monthly" february ≡ ok (31 * day, 59 * day)
unfolding current_period_window year_of month_of month_start days_before_year days_before_month
    days_in_year days_in_month
month_test = refl

current_period_window-HoldsNow_example : (31 * day ≤ february) × (february < 59 * day)
current_period_window-HoldsNow_example =
    current_period_window-HoldsNow "monthly" february (31 * day) (59 * day) month_test
