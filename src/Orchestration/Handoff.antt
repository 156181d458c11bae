-- ===== src/Orchestration/Handoff.antt =====
-- apps/runtime/citadel/execution/orchestration.py, handoff: authority moves to another actor, and
-- the old decision is superseded once the kernel has approved the new action.
use ledger_sdk.Prelude.{
  String, Bool, true, false, not, ◌&&◌, Option, none, some, or_else, str_or, if◌then◌else◌, ◌<>◌,
}
use ledger_sdk.Values.{text, field, end, of_option}
use ledger_sdk.Exec.{pure, raise, other_error, ◌>>=◌, ◌>>◌}
use ledger_sdk.Actions.{Action, Decision}
use ledger_sdk.GovernanceDecision.{GovernanceDecision}
use ledger_sdk.Db.{App, Env}
use ledger_sdk.Vault.{issue_token_for_decision, store_decision}
use ledger_sdk.AuditService.{log}
use ledger_sdk.Kernel.{handle}
use ledger_sdk.Orchestration.{OrchestrationRuntime}
use ledger_sdk.Orchestration.Scope.{is_narrower_scope}
use ledger_sdk.Orchestration.Introspection.{introspect_decision}
use ledger_sdk.Orchestration.Lineage.{
  Request, is_allowed, is_permitted, resolved, child_action, kernel_to_governance_decision,
}

pub record HandoffResult : Type 0 where
  pub success : Bool
  pub new_decision : Option Decision
  pub new_grant : Option String
  pub previous_authority_superseded : Bool
  pub reason : String
  pub error : Option String

abbrev pub refused : String → HandoffResult
refused reason = record {
  success = false;
  new_decision = none;
  new_grant = none;
  previous_authority_superseded = false;
  reason = reason;
  error = none;
}

abbrev pub handed_over : Request → Decision → Option String → HandoffResult
handed_over q d grant = record {
  success = true;
  new_decision = some d;
  new_grant = grant;
  previous_authority_superseded = true;
  reason = "Handoff to " <> q.actor_id <> " successful";
  error = none;
}

-- A new object with the fields of the current decision; `trust_snapshot_id` is not among them.
abbrev pub superseded : Env → Request → String → GovernanceDecision → GovernanceDecision
superseded env q reason d = record d {
  superseded_at = some env.now;
  superseded_reason = some (str_or (some reason) ("Handoff to " <> q.actor_id));
  trust_snapshot_id = none;
}

unfoldable pub audit_handoff_performed :
    Env → GovernanceDecision → Action → Decision → Option String → String → App Unit
audit_handoff_performed env old action d grant reason = do
  log env action "handoff_performed"
      (field "old_decision_id" (text old.decision_id) (
        field "old_actor_id" (text old.actor_id) (
          field "new_decision_id" (text d.decision_id) (
            field "new_actor_id" (text action.actor_id) (
              field "new_grant" (of_option grant) (
                field "reason" (text reason)
                  (field "trace_id" (of_option action.trace_id) end)))))))
      none
  pure tt

-- Step 5: an exception of the issue goes to the caller.
unfoldable pub new_grant :
    Env → OrchestrationRuntime → Request → Bool → Action → Decision → App (Option String)
new_grant env rt q dry action d = if not (not dry && is_allowed d.status) then pure none else do
  token ←
      issue_token_for_decision env rt.content_hash
        (kernel_to_governance_decision env d action q.scope) 3600 none
  pure (some token.token_id)

-- From the kernel's approval on.
unfoldable pub take_over :
    Env
    → OrchestrationRuntime
    → GovernanceDecision
    → GovernanceDecision
    → Request
    → String
    → Bool
    → Action
    → Decision
    → App HandoffResult
unfolding new_grant audit_handoff_performed
take_over env rt given current q reason dry action d = do
  store_decision (superseded env q reason current)
  grant ← new_grant env rt q dry action d
  audit_handoff_performed env given action d grant reason
  pure (handed_over q d grant)

unfoldable pub after_kernel :
    Env
    → OrchestrationRuntime
    → GovernanceDecision
    → GovernanceDecision
    → Request
    → String
    → Bool
    → Action
    → Option Decision
    → App HandoffResult
unfolding take_over
after_kernel env rt given current q reason dry action none =
    raise other_error "'NoneType' object has no attribute 'status'"
after_kernel env rt given current q reason dry action (some d) =
    if not (is_permitted d.status)
    then pure (refused ("Governance blocked: " <> d.reason))
    else take_over env rt given current q reason dry action d

-- Steps 3 to 5. The new action names the parent of the old decision, which is superseded.
unfoldable pub handoff_from :
    Env
    → OrchestrationRuntime
    → GovernanceDecision
    → GovernanceDecision
    → Request
    → String
    → Bool
    → App HandoffResult
unfolding after_kernel child_action
handoff_from env rt given current q reason dry =
    if not (is_narrower_scope current.scope q.scope)
    then pure (refused "Handoff scope exceeds current authority")
    else do
      action ← child_action env q current current.parent_decision_id
      governed ← handle env rt.kernel action none dry
      after_kernel env rt given current q reason dry action governed.decision

unfoldable pub handoff :
    Env → OrchestrationRuntime → GovernanceDecision → Request → String → Bool → App HandoffResult
unfolding handoff_from
handoff env rt current q reason dry = do
  s ← introspect_decision env rt current current.action current.resource
  if not s.active
      then pure (refused ("Current authority not active: " <> or_else s.reason "None"))
      else handoff_from env rt current (resolved s current) q reason dry
