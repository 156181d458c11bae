-- ===== src/Actions.antt =====
-- apps/runtime/citadel/actions/models.py: the statuses, the action, the decision and the result of
-- the kernel.
use ledger_sdk.Prelude.{String, ℕ, ℤ, Bool, Option}
use ledger_sdk.Values.{Value, Fields}

pub data KernelStatus : Type 0 where
  blocked_schema blocked_emergency blocked_capability blocked_policy rate_limited : KernelStatus
  pending_approval rejected_approval expired_approval : KernelStatus
  allowed executed failed_execution failed_audit dry_run : KernelStatus

-- `status.value`
unfoldable pub value : KernelStatus → String
value blocked_schema = "BLOCKED_SCHEMA"
value blocked_emergency = "BLOCKED_EMERGENCY"
value blocked_capability = "BLOCKED_CAPABILITY"
value blocked_policy = "BLOCKED_POLICY"
value rate_limited = "RATE_LIMITED"
value pending_approval = "PENDING_APPROVAL"
value rejected_approval = "REJECTED_APPROVAL"
value expired_approval = "EXPIRED_APPROVAL"
value allowed = "ALLOWED"
value executed = "EXECUTED"
value failed_execution = "FAILED_EXECUTION"
value failed_audit = "FAILED_AUDIT"
value dry_run = "DRY_RUN"

pub record Action : Type 0 where
  pub action_id : String
  pub actor_id : String
  pub actor_type : String
  pub action_name : String
  pub resource : String
  pub tenant_id : Option String
  pub payload : Fields
  pub context : Fields
  pub session_id : Option String
  pub request_id : Option String
  pub idempotency_key : Option String
  pub created_at : ℕ
  pub root_decision_id : Option String
  pub parent_decision_id : Option String
  pub trace_id : Option String
  pub parent_actor_id : Option String
  pub workflow_id : Option String

pub record Decision : Type 0 where
  pub decision_id : String
  pub action_id : String
  pub status : KernelStatus
  pub winning_rule : String
  pub reason : String
  pub policy_snapshot_id : Option String
  pub capability_token : Option String
  pub risk_level : Option String
  pub risk_score : Option ℤ
  pub path_taken : Option String
  pub created_at : ℕ
  pub tenant_id : Option String
  pub root_decision_id : Option String
  pub parent_decision_id : Option String
  pub trace_id : Option String
  pub parent_actor_id : Option String
  pub workflow_id : Option String

-- `decision` is None when a duplicate is still in flight.
pub record KernelResult : Type 0 where
  pub action : Action
  pub decision : Option Decision
  pub was_executed : Bool
  pub result : Option Value
  pub error : Option String
