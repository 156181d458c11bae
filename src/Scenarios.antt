-- ===== src/Scenarios.antt =====
-- A small tenant to run the program on: an environment, an empty database, an agent's action, and
-- the rows that the tests below add.
mod Kernels
mod Switches
mod Tokens
mod Approvals
mod Costs
mod Trust
mod Orchestrations
mod Limits
mod Scores
mod Engines
use ledger_sdk.Prelude.{String, ℤ, pos, Bool, true, false, Option, none, some, List, [], ◌∷◌}
use ledger_sdk.Values.{end}
use ledger_sdk.Actions.{Action}
use ledger_sdk.GovernanceDecision.{GovernanceDecision, new_decision, allow, DecisionScope}
use ledger_sdk.Budgets.{CostBudget}
use ledger_sdk.Db.{Db, Env, World, KillSwitchRow, CapabilityRow, ApprovalRow, TokenRow}

abbrev env : Env
env = record {
  uuid4 = λ n. "id";
  now = 1000;
  utcnow_iso = "0001-01-01T00:00:00";
  sha256 = λ s. s;
  dumps = λ d. "{}";
  dumps_snapshot = λ s. "{}";
  loads = λ s. none;
  search = λ p s. false;
  str_value = λ v. "value";
  str_texts = λ ts. "[]";
  percent_of = λ a p. a;
  others = λ n w. w;
  now_text = "0001-01-01 00:00:00";
  jsonb_text = λ d. "{}";
  burned = λ n. 0;
  audit_refusal = λ e w. none;
}

abbrev empty_db : Db
empty_db = record {
  actors = [];
  actions = [];
  decisions = [];
  approvals = [];
  capabilities = [];
  kill_switches = [];
  policies = [];
  policy_snapshots = [];
  audit_events = [];
  execution_results = [];
  budgets = [];
  spend_events = [];
  enforcement_events = [];
  adjustments = [];
  governance_decisions = [];
  governance_tokens = [];
  governance_audit_log = [];
}

abbrev world_of : Db → World
world_of db = record { db = db; drawn = 0 }

abbrev action : Action
action = record {
  action_id = "a1";
  actor_id = "agent";
  actor_type = "agent";
  action_name = "file.read";
  resource = "file:report";
  tenant_id = some "acme";
  payload = end;
  context = end;
  session_id = none;
  request_id = none;
  idempotency_key = none;
  created_at = 1000;
  root_decision_id = none;
  parent_decision_id = none;
  trace_id = none;
  parent_actor_id = none;
  workflow_id = none;
}

abbrev global_switch : KillSwitchRow
global_switch = record {
  scope_type = "global";
  scope_value = "*";
  tenant_id = none;
  enabled = true;
  reason = some "incident";
}

abbrev capability : CapabilityRow
capability = record {
  token_id = "cap";
  actor_id = "agent";
  action_scope = "file:*";
  resource_scope = "*";
  expires_at = 2000;
  uses = 1;
  max_uses = 3;
  is_revoked = false;
}

abbrev approval : ApprovalRow
approval = record {
  approval_id = "ap";
  action_id = "a1";
  status = "pending";
  priority = "high";
  requested_by = "agent";
  reason = "review";
  expires_at = 900;
  created_at = 100;
  tenant_id = some "acme";
  reviewed_by = none;
  decided_at = none;
  decision_reason = none;
}

abbrev decision : GovernanceDecision
decision =
    record (new_decision "d1" allow "acme" "agent" "file.read"
      (record { actions = "file.*" ∷ []; resources = []; max_spend = none; rate_limit = none })
      900) { expiry = some 2000 }

abbrev token : TokenRow
token = record {
  token_id = "gt_cap_1";
  decision_id = "d1";
  tenant_id = "acme";
  actor_id = "agent";
  workspace_id = some "acme";
  tool = none;
  action = some "file.read";
  resource_scope = none;
  risk_level = "low";
  not_before = some 900;
  trace_id = none;
  approval_ref = none;
  scope_actions = "file.*" ∷ [];
  scope_resources = [];
  expiry = some 2000;
  chain_hash = "hash";
  parent_decision_id = none;
  parent_actor_id = none;
  workflow_id = none;
  revoked_at = none;
  revoked_reason = none;
}

abbrev budget : CostBudget
budget = record {
  tenant_id = "acme";
  name = "monthly";
  scope_type = "tenant";
  scope_value = "acme";
  amount_cents = pos 500;
  reset_period = "daily";
  enforcement_action = "block";
  currency = "USD";
  warning_threshold_percent = pos 80;
  is_active = true;
  budget_id = some "b1";
}
