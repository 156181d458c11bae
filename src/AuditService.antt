-- ===== src/AuditService.antt =====
-- apps/runtime/citadel/services/audit_service.py: one append to the hash-chained log for each
-- governance event of the kernel. The ISO text of an instant stands as the instant.
use ledger_sdk.Prelude.{ℕ, String, ℤ, pos, true, Option, none, some, or_else}
use ledger_sdk.Values.{
  Value, Fields, null, boolean, number, text, array, end, field, keys, type_name, of_option,
  take_chars,
}
use ledger_sdk.Actions.{Action, Decision, value}
use ledger_sdk.Budgets.{BudgetDecision}
use ledger_sdk.Db.{App, Env}
use ledger_sdk.PolicyResolver.{PolicySnapshot}
use ledger_sdk.Repository.{save_audit_event}

unfoldable pub log : Env → Action → String → Fields → Option String → App ℕ
log env action event_type payload override =
    save_audit_event env (or_else override action.action_id) event_type payload
      (some action.actor_id) action.tenant_id

unfoldable pub action_received : Env → Action → App ℕ
action_received env action =
    log env action "action_received"
      (field "action_name" (text action.action_name) (
        field "resource" (text action.resource)
          (field "payload_keys" (array (keys action.payload)) end)))
      none

abbrev snapshot_text : (PolicySnapshot → String) → Option PolicySnapshot → Value
snapshot_text f none = null
snapshot_text f (some s) = text (f s)

unfoldable pub policy_evaluated : Env → Action → Option PolicySnapshot → App ℕ
policy_evaluated env action snapshot =
    log env action "policy_evaluated"
      (field "snapshot_id" (snapshot_text (λ s. s.snapshot_id) snapshot)
        (field "policy_version" (snapshot_text (λ s. s.policy_version) snapshot) end))
      none

unfoldable pub approval_requested : Env → Action → String → App ℕ
approval_requested env action approval_id =
    log env action "approval_requested" (field "approval_id" (text approval_id) end) none

unfoldable pub approval_granted : Env → Action → String → String → App ℕ
approval_granted env action approval_id reviewer =
    log env action "approval_granted"
      (field "approval_id" (text approval_id) (field "reviewed_by" (text reviewer) end)) none

unfoldable pub approval_denied : Env → Action → String → String → String → App ℕ
approval_denied env action approval_id reviewer reason =
    log env action "approval_denied"
      (field "approval_id" (text approval_id)
        (field "reviewed_by" (text reviewer) (field "reason" (text reason) end)))
      none

unfoldable pub decision_made : Env → Action → Decision → App ℕ
decision_made env action d =
    log env action "decision_made"
      (field "decision_id" (text d.decision_id) (
        field "status" (text (value d.status)) (
          field "winning_rule" (text d.winning_rule)
            (field "reason" (text d.reason) (field "path_taken" (of_option d.path_taken) end)))))
      none

unfoldable pub action_executed : Env → Action → Value → App ℕ
action_executed env action result =
    log env action "action_executed"
      (field "success" (boolean true) (field "result_type" (text (type_name result)) end)) none

unfoldable pub action_failed : Env → Action → String → App ℕ
action_failed env action error =
    log env action "action_failed" (field "error" (text (take_chars 500 error)) end) none

unfoldable pub idempotent_return : Env → Action → Decision → App ℕ
idempotent_return env action cached =
    log env action "action_received"
      (field "idempotent" (boolean true) (
        field "cached_decision_id" (text cached.decision_id)
          (field "cached_status" (text (value cached.status)) end)))
      (some cached.action_id)

abbrev int_or_null : Option ℤ → Value
int_or_null none = null
int_or_null (some n) = number n

unfoldable pub spend_limit_exceeded : Env → Action → BudgetDecision → App ℕ
spend_limit_exceeded env action d =
    log env action "spend_limit_exceeded"
      (field "enforcement_action" (text d.enforcement_action) (
        field "reason" (text d.reason) (
          field "projected_cost_cents" (number d.projected_cost_cents) (
            field "current_spend_cents" (number d.current_spend_cents) (
              field "budget_amount_cents" (int_or_null d.budget_amount_cents) (
                field "budget_id" (elim d.budget [ none ↦ null | some b ↦ of_option b.budget_id ])
                  (field "budget_name" (elim d.budget [ none ↦ null | some b ↦ text b.name ])
                    (field "scope_type" (elim d.budget [ none ↦ null | some b ↦ text b.scope_type ])
                      (field "scope_value"
                        (elim d.budget [ none ↦ null | some b ↦ text b.scope_value ])
                        (field "period_start" (number (pos d.period_start))
                          (field "period_end" (number (pos d.period_end)) end)))))))))))
      none

unfoldable pub escalation_triggered : Env → Action → ℤ → String → App ℕ
escalation_triggered env action level reason =
    log env action "escalation_triggered"
      (field "escalation_level" (number level) (field "reason" (text reason) end)) none
