-- ===== src/Orchestration/Delegation.antt =====
-- apps/runtime/citadel/execution/orchestration.py, delegate: a child grant under an active parent.
use ledger_sdk.Prelude.{
  String, Bool, true, false, not, ◌&&◌, Option, none, some, or_else, if◌then◌else◌, ◌<>◌,
}
use ledger_sdk.Values.{text, field, end, of_option}
use ledger_sdk.Exec.{
  Exn, Result, ok, raised, pure, raise, try_except, runtime_error, other_error, ◌>>=◌, ◌>>◌,
}
use ledger_sdk.Actions.{Action, Decision}
use ledger_sdk.GovernanceDecision.{GovernanceDecision}
use ledger_sdk.Db.{App, Env}
use ledger_sdk.Vault.{issue_token_for_decision, revoke_decision}
use ledger_sdk.AuditService.{log}
use ledger_sdk.Kernel.{handle}
use ledger_sdk.Orchestration.{OrchestrationRuntime, switch_reason}
use ledger_sdk.Orchestration.Scope.{is_narrower_scope}
use ledger_sdk.Orchestration.Introspection.{introspect_decision}
use ledger_sdk.Orchestration.Lineage.{
  Request, is_allowed, is_permitted, resolved, child_action, kernel_to_governance_decision,
}

pub record DelegationResult : Type 0 where
  pub success : Bool
  pub child_action : Option Action
  pub child_decision : Option Decision
  pub child_grant : Option String
  pub reason : String
  pub error : Option String

abbrev pub refused : String → DelegationResult
refused reason = record {
  success = false;
  child_action = none;
  child_decision = none;
  child_grant = none;
  reason = reason;
  error = none;
}

abbrev pub failed : Action → Decision → String → Option String → DelegationResult
failed action d reason error = record {
  success = false;
  child_action = some action;
  child_decision = some d;
  child_grant = none;
  reason = reason;
  error = error;
}

abbrev pub delegated : Action → Decision → Option String → DelegationResult
delegated action d grant = record {
  success = true;
  child_action = some action;
  child_decision = some d;
  child_grant = grant;
  reason = "Delegated successfully";
  error = none;
}

-- The outcome of a method as a value, for an `except` that goes on differently.
unfoldable pub attempt : {A : Type 0} → App A → App (Result A)
unfolding try_except
attempt m = try_except (m >>= λ a. pure (ok a)) (λ e. pure (raised e))

unfoldable pub audit_delegate_created :
    Env → GovernanceDecision → Action → Decision → Option String → App Unit
audit_delegate_created env parent action d grant = do
  log env action "delegate_created"
      (field "parent_decision_id" (text parent.decision_id) (
        field "child_decision_id" (text d.decision_id) (
          field "child_action_id" (text action.action_id) (
            field "child_actor_id" (text action.actor_id) (
              field "child_grant" (of_option grant)
                (field "trace_id" (of_option action.trace_id) end))))))
      none
  pure tt

unfoldable pub created :
    Env → GovernanceDecision → Action → Decision → Option String → App DelegationResult
unfolding audit_delegate_created
created env parent action d grant = do
  audit_delegate_created env parent action d grant
  pure (delegated action d grant)

-- A failed issue: the child's decision is revoked, and where that fails too the call raises.
unfoldable pub compensate :
    Env → Action → Decision → GovernanceDecision → Exn → App DelegationResult
unfolding attempt
compensate env action d child e = do
  revoke ← attempt (revoke_decision env child.decision_id child.tenant_id "token_issuance_failed")
  elim revoke [
    | raised e' ↦ raise runtime_error (
        "Token issuance failed and compensating revoke failed for decision " <> child.decision_id
        <> ". Original error: " <> e.message <> "; Revoke error: " <> e'.message)
    | ok _ ↦ pure (failed action d ("Token issuance failed: " <> e.message) (some e.message))
  ]

-- Step 6, where the child gets a token.
unfoldable pub issue_grant :
    Env
    → OrchestrationRuntime
    → GovernanceDecision
    → Action
    → Decision
    → GovernanceDecision
    → App DelegationResult
unfolding attempt compensate created
issue_grant env rt parent action d child = do
  issued ← attempt (issue_token_for_decision env rt.content_hash child 3600 none)
  elim issued [
    | raised e ↦ compensate env action d child e
    | ok token ↦ created env parent action d (some token.token_id)
  ]

-- From the kernel's answer on.
unfoldable pub after_kernel :
    Env
    → OrchestrationRuntime
    → GovernanceDecision
    → Request
    → Bool
    → Action
    → Option Decision
    → App DelegationResult
unfolding issue_grant created
after_kernel env rt parent q dry action none =
    raise other_error "'NoneType' object has no attribute 'status'"
after_kernel env rt parent q dry action (some d) =
    if not (is_permitted d.status)
    then pure (failed action d ("Governance blocked: " <> d.reason) none)
    else if not dry && is_allowed d.status
    then issue_grant env rt parent action d (kernel_to_governance_decision env d action q.scope)
    else created env parent action d none

-- Steps 2 to 5, under the parent that the vault knows. The audit names the caller's own parent.
unfoldable pub delegate_under :
    Env
    → OrchestrationRuntime
    → GovernanceDecision
    → GovernanceDecision
    → Request
    → Bool
    → App DelegationResult
unfolding after_kernel child_action
delegate_under env rt given parent q dry = elim (switch_reason rt parent) [
  | some r ↦ pure (refused ("Kill switch active: " <> r))
  | none ↦
      if not (is_narrower_scope parent.scope q.scope)
      then pure (refused "Child scope exceeds parent authority")
      else do
        action ← child_action env q parent (some parent.decision_id)
        governed ← handle env rt.kernel action none dry
        after_kernel env rt given q dry action governed.decision
]

unfoldable pub delegate :
    Env → OrchestrationRuntime → GovernanceDecision → Request → Bool → App DelegationResult
unfolding delegate_under
delegate env rt parent q dry = do
  s ← introspect_decision env rt parent parent.action parent.resource
  if not s.active
      then pure (refused ("Parent authority not active: " <> or_else s.reason "None"))
      else delegate_under env rt parent (resolved s parent) q dry
