-- ===== src/CostControls/LogKept.antt =====
-- apps/runtime/citadel/commercial/cost_controls.py: the budget check leaves the audit log alone.
use ledger_sdk.Prelude.{String, ℤ, List, [], ◌∷◌}
use ledger_sdk.Exec.Keeps.{Keeps, keeps_rules}
use ledger_sdk.Db.{World, Env}
use ledger_sdk.Budgets.{CostBudget, CostAttribution}
use ledger_sdk.Repository.Frame.{Framed, Keeps-read_db, Keeps-set_db}
use ledger_sdk.CostControls.{
  check_budget, spend_of, matching_budgets, record_enforcement, current_spend,
}

module _ {env : Env} {I : World → Type 0} (frame : Framed env I) where
  Keeps-matching_budgets : (a : CostAttribution) → Keeps I (matching_budgets a)
  unfolding matching_budgets
  Keeps-matching_budgets a = search (keeps_rules, Keeps-read_db frame)

  Keeps-spend_of : (bs : List CostBudget) (acc : List (String × ℤ)) → Keeps I (spend_of env bs acc)
  unfolding spend_of current_spend
  Keeps-spend_of [] acc = search (keeps_rules)
  Keeps-spend_of (b ∷ bs) acc =
      search (keeps_rules, Keeps-read_db frame, Keeps-spend_of bs) depth 20

  pub Keeps-check_budget : (a : CostAttribution) → Keeps I (check_budget env a)
  unfolding check_budget record_enforcement
  Keeps-check_budget a =
      search (keeps_rules, Keeps-matching_budgets, Keeps-spend_of, Keeps-set_db frame) depth 20
