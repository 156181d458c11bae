-- ===== src/Orchestration/Lineage.antt =====
-- apps/runtime/citadel/execution/orchestration.py: the action of a child under its parent's lineage,
-- and the decision of the vault that a kernel decision becomes.
use ledger_sdk.Prelude.{
  String, Bool, true, false, Option, none, some, opt_or, or_else, str_or, truthy, ◌==◌,
  if◌then◌else◌, ◌<>◌,
}
use ledger_sdk.Values.{Fields}
use ledger_sdk.Exec.{pure, ◌>>=◌}
use ledger_sdk.Actions.{Action, Decision, KernelStatus, allowed, executed}
use ledger_sdk.GovernanceDecision.{GovernanceDecision, DecisionScope, new_decision, allow, deny}
use ledger_sdk.Db.{App, Env, fresh}
use ledger_sdk.Orchestration.Introspection.{IntrospectionStatus}

-- What the caller asks for: the parameters that delegation and handoff share.
pub record Request : Type 0 where
  pub actor_id : String
  pub action_name : String
  pub resource : String
  pub scope : DecisionScope
  pub payload : Fields
  pub context : Fields
  pub tenant_id : Option String
  pub trace_id : Option String
  pub workflow_id : Option String

abbrev pub is_allowed : KernelStatus → Bool
is_allowed allowed = true
is_allowed _ = false

-- `status in (ALLOWED, EXECUTED)`
abbrev pub is_permitted : KernelStatus → Bool
is_permitted allowed = true
is_permitted executed = true
is_permitted _ = false

-- The decision that the vault resolved, where it is the caller's; else the caller's own object.
unfoldable pub resolved : IntrospectionStatus → GovernanceDecision → GovernanceDecision
resolved s given = elim s.decision [
  | none ↦ given
  | some d ↦ if d.decision_id == given.decision_id then d else given
]

-- `trace_id or parent.trace_id or f"trace_{uuid.uuid4().hex}"`
unfoldable pub trace_for : Env → Option String → GovernanceDecision → App String
trace_for env asked parent =
    if truthy (opt_or asked parent.trace_id)
    then pure (or_else (opt_or asked parent.trace_id) "")
    else do id ← fresh env; pure ("trace_" <> id)

-- The root of the lineage of a decision.
abbrev pub root_of : GovernanceDecision → String
root_of d = str_or d.root_decision_id d.decision_id

-- The action of a request under a parent; `link` is the decision that it names as its parent.
unfoldable pub child_action : Env → Request → GovernanceDecision → Option String → App Action
unfolding trace_for
child_action env q parent link = do
  id ← fresh env
  trace ← trace_for env q.trace_id parent
  pure (record {
    action_id = id;
    actor_id = q.actor_id;
    actor_type = "agent";
    action_name = q.action_name;
    resource = q.resource;
    tenant_id = some (str_or q.tenant_id parent.tenant_id);
    payload = q.payload;
    context = q.context;
    session_id = none;
    request_id = none;
    idempotency_key = none;
    created_at = env.now;
    root_decision_id = some (root_of parent);
    parent_decision_id = link;
    trace_id = some trace;
    parent_actor_id = some parent.actor_id;
    workflow_id = opt_or q.workflow_id parent.workflow_id;
  })

-- `_kernel_to_governance_decision`
unfoldable pub kernel_to_governance_decision :
    Env → Decision → Action → DecisionScope → GovernanceDecision
kernel_to_governance_decision env d action scope =
    record (new_decision d.decision_id (if is_permitted d.status then allow else deny)
      (str_or action.tenant_id "default") action.actor_id action.action_name scope env.now) {
        resource = some action.resource;
        request_id = action.request_id;
        trace_id = action.trace_id;
        workspace_id = action.tenant_id;
        agent_id = some action.actor_id;
        risk_level = str_or d.risk_level "low";
        root_decision_id = action.root_decision_id;
        parent_decision_id = action.parent_decision_id;
        parent_actor_id = action.parent_actor_id;
        workflow_id = action.workflow_id;
      }
