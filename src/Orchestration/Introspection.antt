-- ===== src/Orchestration/Introspection.antt =====
-- apps/runtime/citadel/execution/orchestration.py, introspect: whether a token or a decision still
-- gives authority, and why not.
use ledger_sdk.Prelude.{
  String, Bool, true, false, not, ◌&&◌, ◌||◌, Option, none, some, [], opt_eq, or_else, str_or,
  is_some, truthy, nonempty, if◌then◌else◌, ◌<>◌,
}
use ledger_sdk.Exec.{pure, ◌>>=◌}
use ledger_sdk.GovernanceDecision.{GovernanceDecision, is_expired, is_revoked, covers}
use ledger_sdk.Db.{App, Env, TokenRow}
use ledger_sdk.Vault.{resolve_token, resolve_decision, check_ancestry}
use ledger_sdk.Orchestration.{OrchestrationRuntime, switch_reason}

pub record IntrospectionStatus : Type 0 where
  pub active : Bool
  pub reason : Option String
  pub kill_switched : Bool
  pub expired : Bool
  pub revoked : Bool
  pub scope_valid : Bool
  pub actor_boundary_valid : Bool
  pub decision : Option GovernanceDecision
  pub token : Option TokenRow

abbrev pub refused : String → Option GovernanceDecision → Option TokenRow → IntrospectionStatus
refused reason d t = record {
  active = false;
  reason = some reason;
  kill_switched = false;
  expired = false;
  revoked = false;
  scope_valid = false;
  actor_boundary_valid = true;
  decision = d;
  token = t;
}

abbrev pub granted : Bool → GovernanceDecision → Option TokenRow → IntrospectionStatus
granted valid d t = record {
  active = true;
  reason = none;
  kill_switched = false;
  expired = false;
  revoked = false;
  scope_valid = valid;
  actor_boundary_valid = true;
  decision = some d;
  token = t;
}

-- `_dict_to_governance_decision` on a row of the vault.
abbrev pub from_row : GovernanceDecision → GovernanceDecision
from_row row = record row {
  workspace_id = some (str_or row.workspace_id row.tenant_id);
  agent_id = some (str_or row.agent_id row.actor_id);
  subject_id = some (str_or row.subject_id row.actor_id);
  audit_entry_ids = [];
  trust_snapshot_id = none;
}

abbrev other_workspace : Option String → GovernanceDecision → Bool
other_workspace workspace d =
    truthy workspace && truthy d.workspace_id && not (opt_eq d.workspace_id workspace)

-- The checks on the decision alone, in order.
unfoldable pub decision_status :
    Env → Option String → Option TokenRow → GovernanceDecision → Option IntrospectionStatus
unfolding is_expired
decision_status env workspace t d =
    if other_workspace workspace d
    then some (record (refused "Workspace mismatch" (some d) t) { actor_boundary_valid = false })
    else if is_expired env.now d
    then some (record (refused "Decision expired" (some d) t) { expired = true })
    else if is_revoked d.decision_type || is_some d.revoked_at
    then some (record (refused "Decision revoked" (some d) t) { revoked = true })
    else if is_some d.superseded_at
    then some
        (record (refused ("Authority superseded: " <> or_else d.superseded_reason "None") (some d)
          t) { actor_boundary_valid = false })
    else none

-- The scope, where an action is required, and then the kill switch.
unfoldable pub use_status :
    OrchestrationRuntime
    → String
    → Option String
    → Option TokenRow
    → GovernanceDecision
    → IntrospectionStatus
unfolding switch_reason
use_status rt action resource t d =
    if nonempty action && not (covers d.scope action resource)
    then refused "Scope mismatch" (some d) t
    else elim (switch_reason rt d) [
      | some r ↦ record (refused ("Kill switch active: " <> r) (some d) t) {
        kill_switched = true;
        scope_valid = true;
      }
      | none ↦ granted true d t
    ]

unfoldable pub judge :
    Env
    → OrchestrationRuntime
    → Option String
    → String
    → Option String
    → Option TokenRow
    → Option GovernanceDecision
    → App IntrospectionStatus
unfolding decision_status use_status
judge env rt workspace action resource t none =
    pure (refused "Decision or token not found" none none)
judge env rt workspace action resource t (some row) =
    let d = from_row row in
    elim (decision_status env workspace t d) [
      | some s ↦ pure s
      | none ↦ do
        fault ← check_ancestry env d
        elim fault [
          | some r ↦
              pure (record (refused ("Ancestry revoked: " <> r) (some d) t) { revoked = true })
          | none ↦ pure (use_status rt action resource t d)
        ]
    ]

-- A lookup that is skipped where there is no identifier.
abbrev token_for : Option String → Option String → App (Option TokenRow)
token_for id tid = if truthy id then resolve_token (or_else id "") tid else pure none

abbrev decision_for : Option String → Option String → App (Option GovernanceDecision)
decision_for id tid = if truthy id then resolve_decision (or_else id "") tid else pure none

unfoldable pub introspect :
    Env
    → OrchestrationRuntime
    → Option String
    → Option String
    → String
    → Option String
    → Option String
    → Option String
    → App IntrospectionStatus
unfolding judge
introspect env rt token_id decision_id action resource workspace tid = do
  t ← token_for token_id tid
  row ← decision_for (elim t [ none ↦ decision_id | some t ↦ some t.decision_id ]) tid
  judge env rt workspace action resource t row

unfoldable pub introspect_decision :
    Env
    → OrchestrationRuntime
    → GovernanceDecision
    → String
    → Option String
    → App IntrospectionStatus
unfolding introspect
introspect_decision env rt d action resource =
    introspect env rt none (some d.decision_id) action resource none (some d.tenant_id)
