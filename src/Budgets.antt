-- ===== src/Budgets.antt =====
-- apps/runtime/citadel/commercial/cost_controls.py: the budget, the attribution of a cost, and the
-- decision. Amounts are integers of cents.
use ledger_sdk.Prelude.{String, ℤ, ℕ, Bool, Option, ◌==◌}
use ledger_sdk.Values.{Fields}

pub record CostBudget : Type 0 where
  pub tenant_id : String
  pub name : String
  pub scope_type : String
  pub scope_value : String
  pub amount_cents : ℤ
  pub reset_period : String
  pub enforcement_action : String
  pub currency : String
  pub warning_threshold_percent : ℤ
  pub is_active : Bool
  pub budget_id : Option String

pub record CostAttribution : Type 0 where
  pub tenant_id : String
  pub projected_cost_cents : ℤ
  pub actual_cost_cents : ℤ
  pub actor_id : Option String
  pub project_id : Option String
  pub api_key_id : Option String
  pub provider : Option String
  pub model : Option String
  pub input_tokens : ℤ
  pub output_tokens : ℤ
  pub request_id : Option String
  pub decision_id : Option String
  pub metadata : Fields

pub record BudgetDecision : Type 0 where
  pub is_allowed : Bool
  pub enforcement_action : String
  pub reason : String
  pub projected_cost_cents : ℤ
  pub current_spend_cents : ℤ
  pub budget_amount_cents : Option ℤ
  pub period_start : ℕ
  pub period_end : ℕ
  pub budget : Option CostBudget
  pub warning : Bool

-- The properties `requires_approval` and `throttled`.
unfoldable pub needs_approval : BudgetDecision → Bool
needs_approval d = d.enforcement_action == "require_approval"

unfoldable pub throttled : BudgetDecision → Bool
throttled d = d.enforcement_action == "throttle"

pub record BudgetTopUp : Type 0 where
  pub budget_id : String
  pub tenant_id : String
  pub amount_cents : ℤ
  pub reason : String
  pub actor_id : String
  pub actor_role : Option String
  pub metadata : Fields

-- A row of cost_spend_events; the columns that the module reads back.
pub record SpendEvent : Type 0 where
  pub tenant_id : String
  pub cost_cents : ℤ
  pub actor_id : Option String
  pub project_id : Option String
  pub api_key_id : Option String
  pub event_ts : ℕ
  pub attribution : CostAttribution

-- A row of cost_enforcement_events.
pub record EnforcementEvent : Type 0 where
  pub tenant_id : String
  pub budget_id : Option String
  pub scope_type : String
  pub scope_value : String
  pub decision : BudgetDecision
  pub attribution : CostAttribution

-- A row of cost_budget_adjustments.
pub record BudgetAdjustment : Type 0 where
  pub adjustment_id : String
  pub budget_id : String
  pub tenant_id : String
  pub amount_cents : ℤ
  pub previous_amount_cents : ℤ
  pub resulting_amount_cents : ℤ
  pub reason : String
  pub actor_id : String
  pub actor_role : Option String
