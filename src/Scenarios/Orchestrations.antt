-- ===== src/Scenarios/Orchestrations.antt =====
-- A delegation, a handoff and a gather under one decision, and a scope that widens.
use ledger_sdk.Prelude.{
  String, List, any, is_some, not, mem_str, ◌&&◌, if◌then◌else◌, plain_pattern, true, false, none,
  some, [], ◌∷◌, ◌≡◌, ◌↔◌, ◌==◌, refl,
}
use ledger_sdk.Values.{Fields, field, end, get, get_text, text}
use ledger_sdk.Exec.{Exn, exn, other_error, Result, ok, raised, ◌>>=◌, try_except}
use ledger_sdk.GovernanceDecision.{
  GovernanceDecision, DecisionScope, new_decision, allow, covers, is_expired, fnmatch,
}
use ledger_sdk.Db.{Env, World, TokenRow}
use ledger_sdk.PromptInjection.{scan, flatten_payload, parts, joined}
use ledger_sdk.PolicyResolver.{resolve, resolve_specific, tenant_policy, snapshot_of, risk_score_of}
use ledger_sdk.Repository.{
  get_active_policy, check_kill_switch, save_action, save_decision, save_execution_result,
  save_audit_event,
}
use ledger_sdk.Approvals.{check_required, risk_check}
use ledger_sdk.AuditService.{action_received, policy_evaluated, decision_made, action_executed, log}
use ledger_sdk.Precedence
use ledger_sdk.Kernel
use ledger_sdk.Vault
use ledger_sdk.Vault.{
  resolve_token, resolve_decision, check_ancestry, store_decision, upsert_decision,
}
use ledger_sdk.Orchestration.{OrchestrationRuntime, switch_reason}
use ledger_sdk.Orchestration.Scope.{is_narrower_scope}
use ledger_sdk.Orchestration.Narrowing.{narrower-covers, unrestricted-widens, unrestricted}
use ledger_sdk.Orchestration.Introspection.{
  IntrospectionStatus, introspect_decision, introspect, judge, decision_status, use_status,
  from_row,
}
use ledger_sdk.Orchestration.Active.{introspect_decision-Active, Active, row_of, HasAuthority}
use ledger_sdk.Orchestration.Lineage.{Request, resolved, child_action, trace_for}
use ledger_sdk.Orchestration.Delegation
use ledger_sdk.Orchestration.Delegated.{delegate-Ran, Ran}
use ledger_sdk.Orchestration.Handoff
use ledger_sdk.Orchestration.Transfer.{handoff-Ended, Ended, verify-handoff}
use ledger_sdk.Orchestration.Gather
use ledger_sdk.Verifier
use ledger_sdk.Scenarios.{env, empty_db, world_of, decision, token}

abbrev runtime : OrchestrationRuntime
runtime = record {
  kernel = record {
    precedence = record { token_verifier = none; governance_kill_switch = none };
    has_cost_service = false;
    executor = λ a. ok (text "done");
  };
  kill_switch = none;
  content_hash = λ d n. "hash";
}

abbrev scope : DecisionScope
scope = record {
  actions = "file:*" ∷ [];
  resources = "report" ∷ [];
  max_spend = none;
  rate_limit = none;
}

abbrev parent : GovernanceDecision
parent = new_decision "p1" allow "acme" "agent" "file:read" scope 900

abbrev world : World
world = world_of (record empty_db {
  governance_decisions = parent ∷ decision ∷ [];
  governance_tokens = token ∷ [];
})

abbrev request : Request
request = record {
  actor_id = "helper";
  action_name = "file:read";
  resource = "report";
  scope = record scope { actions = "file:read" ∷ [] };
  payload = end;
  context = end;
  tenant_id = none;
  trace_id = some "trace";
  workflow_id = none;
}

abbrev or_failed : Result Delegation.DelegationResult → Delegation.DelegationResult
or_failed (ok r) = r
or_failed (raised e) = Delegation.refused "raised"

abbrev child : Delegation.DelegationResult
child = or_failed (Delegation.delegate env runtime parent request false world).0

delegate_test :
    ((Delegation.delegate env runtime parent request false world).0 ≡ ok child)
    × (child.success ≡ true)
unfolding Delegation.delegate Delegation.delegate_under Delegation.after_kernel Delegation.created
    Delegation.audit_delegate_created introspect_decision introspect judge decision_status
    use_status resolved child_action trace_for switch_reason is_narrower_scope resolve_decision
    check_ancestry covers is_expired fnmatch Kernel.handle Kernel.find_cached Kernel.process
    Kernel.resolve_policy Kernel.audited_policy Kernel.govern Kernel.enforce_spend Kernel.decide
    Kernel.run_action Kernel.after_run Kernel.succeeded Kernel.terminal_decision scan
    flatten_payload parts joined resolve resolve_specific tenant_policy snapshot_of
    get_active_policy Precedence.evaluate_chain Precedence.check_kill_switches
    Precedence.check_repository Precedence.switch_or check_kill_switch Precedence.capability_stage
    Precedence.policy_stage Precedence.select_path Precedence.path_for Precedence.is_irreversible
    Precedence.is_structured risk_score_of get check_required risk_check save_action save_decision
    save_execution_result save_audit_event action_received policy_evaluated decision_made
    action_executed log ◌>>=◌ try_except
delegate_test = (refl, refl)

delegate-Ran_example :
    (row : GovernanceDecision) × HasAuthority env runtime parent world row
    × (is_narrower_scope row.scope request.scope ≡ true)
    × Ran env runtime (from_row row) request false world child
delegate-Ran_example =
    delegate-Ran env runtime parent request false world child refl delegate_test.0 delegate_test.1

abbrev or_stopped : Result Handoff.HandoffResult → Handoff.HandoffResult
or_stopped (ok r) = r
or_stopped (raised e) = Handoff.refused "raised"

abbrev transfer : Handoff.HandoffResult
transfer = or_stopped (Handoff.handoff env runtime parent request "done here" false world).0

handoff_test :
    ((Handoff.handoff env runtime parent request "done here" false world).0 ≡ ok transfer)
    × (transfer.success ≡ true)
unfolding Handoff.handoff Handoff.handoff_from Handoff.after_kernel Handoff.take_over
    Handoff.new_grant Handoff.audit_handoff_performed store_decision upsert_decision
    introspect_decision introspect judge decision_status use_status resolved child_action trace_for
    switch_reason is_narrower_scope resolve_decision check_ancestry covers is_expired fnmatch
    Kernel.handle Kernel.find_cached Kernel.process Kernel.resolve_policy Kernel.audited_policy
    Kernel.govern Kernel.enforce_spend Kernel.decide Kernel.run_action Kernel.after_run
    Kernel.succeeded Kernel.terminal_decision scan flatten_payload parts joined resolve
    resolve_specific tenant_policy snapshot_of get_active_policy Precedence.evaluate_chain
    Precedence.check_kill_switches Precedence.check_repository Precedence.switch_or
    check_kill_switch Precedence.capability_stage Precedence.policy_stage Precedence.select_path
    Precedence.path_for Precedence.is_irreversible Precedence.is_structured risk_score_of get
    check_required risk_check save_action save_decision save_execution_result save_audit_event
    action_received policy_evaluated decision_made action_executed log ◌>>=◌ try_except
handoff_test = (refl, refl)

-- The CHECK on the event types in db/schema.sql.
abbrev schema_types : List String
schema_types =
    "action_received" ∷ "policy_evaluated" ∷ "kill_switch_checked" ∷ "capability_checked"
    ∷ "risk_assessed" ∷ "approval_requested" ∷ "approval_granted" ∷ "approval_denied"
    ∷ "decision_made" ∷ "action_executed" ∷ "action_failed" ∷ "escalation_triggered"
    ∷ "kill_switch_activated" ∷ []

abbrev violation : Exn
violation = exn other_error "violates check constraint"

abbrev deployed : Env
deployed = record env {
  audit_refusal = λ e w. if mem_str e.event_type schema_types then none else some violation;
}

abbrev stranded : Result Handoff.HandoffResult × World
stranded = Handoff.handoff deployed runtime parent request "done here" false world

-- Under that check the same handoff raises, with the old decision superseded.
stranded_test :
    (stranded.0 ≡ raised violation)
    × (any
          (λ d. d.decision_id == "p1" && not (is_some d.superseded_at))
          stranded.1.db.governance_decisions
        ≡ false)
unfolding Handoff.handoff Handoff.handoff_from Handoff.after_kernel Handoff.take_over
    Handoff.new_grant Handoff.audit_handoff_performed store_decision upsert_decision
    introspect_decision introspect judge decision_status use_status resolved child_action trace_for
    switch_reason is_narrower_scope resolve_decision check_ancestry covers is_expired fnmatch
    Kernel.handle Kernel.find_cached Kernel.process Kernel.resolve_policy Kernel.audited_policy
    Kernel.govern Kernel.enforce_spend Kernel.decide Kernel.run_action Kernel.after_run
    Kernel.succeeded Kernel.terminal_decision scan flatten_payload parts joined resolve
    resolve_specific tenant_policy snapshot_of get_active_policy Precedence.evaluate_chain
    Precedence.check_kill_switches Precedence.check_repository Precedence.switch_or
    check_kill_switch Precedence.capability_stage Precedence.policy_stage Precedence.select_path
    Precedence.path_for Precedence.is_irreversible Precedence.is_structured risk_score_of get
    check_required risk_check save_action save_decision save_execution_result save_audit_event
    action_received policy_evaluated decision_made action_executed log ◌>>=◌ try_except
stranded_test = (refl, refl)

handoff-Ended_example :
    Ended env runtime parent request false world
      (Handoff.handoff env runtime parent request "done here" false world)
handoff-Ended_example = handoff-Ended env runtime parent request "done here" false world refl

-- The token of the other decision stays valid after the handoff.
abbrev verifier : Verifier.TokenVerifier
verifier = record { kill_switch = none; has_audit = false }

abbrev context : Fields
context = field "tenant_id" (text "acme") end

abbrev handed : World
handed = (Handoff.handoff env runtime parent request "done here" false world).1

abbrev answer : Verifier.VerificationResult
answer = Verifier.accepted (Verifier.rebuilt token decision)

verify_test :
    (Verifier.verify_token env verifier "gt_cap_1" context "file.read" none handed).0 ≡ ok answer
unfolding Verifier.verify_token Verifier.verify_row Verifier.verify_linked
    Verifier.verify_decision_row Verifier.verify_use Verifier.accept
    Verifier.audit_token_verification Verifier.token_fault Verifier.decision_fault resolve_token
    Vault.check_kill_switch get_text Handoff.handoff Handoff.handoff_from Handoff.after_kernel
    Handoff.take_over Handoff.new_grant Handoff.audit_handoff_performed store_decision
    upsert_decision introspect_decision introspect judge decision_status use_status resolved
    child_action trace_for switch_reason is_narrower_scope resolve_decision check_ancestry covers
    is_expired fnmatch Kernel.handle Kernel.find_cached Kernel.process Kernel.resolve_policy
    Kernel.audited_policy Kernel.govern Kernel.enforce_spend Kernel.decide Kernel.run_action
    Kernel.after_run Kernel.succeeded Kernel.terminal_decision scan flatten_payload parts joined
    resolve resolve_specific tenant_policy snapshot_of get_active_policy Precedence.evaluate_chain
    Precedence.check_kill_switches Precedence.check_repository Precedence.switch_or
    check_kill_switch Precedence.capability_stage Precedence.policy_stage Precedence.select_path
    Precedence.path_for Precedence.is_irreversible Precedence.is_structured risk_score_of get
    check_required risk_check save_action save_decision save_execution_result save_audit_event
    action_received policy_evaluated decision_made action_executed log ◌>>=◌ try_except
verify_test = refl

verify-handoff_example :
    (t : TokenRow) × (row : GovernanceDecision) × ((resolve_token "gt_cap_1" (some "acme") handed).0
      ≡ ok (some t))
    × ((resolve_decision t.decision_id (some "acme") handed).0 ≡ ok (some row))
    × (row.decision_id == "p1" ≡ false)
unfolding get_text get
verify-handoff_example =
    verify-handoff env env runtime parent request "done here" false world transfer verifier
      "gt_cap_1" context "file.read" none answer refl handoff_test.0 handoff_test.1 verify_test refl

abbrev branch : Gather.Branch
branch = record {
  action = "file:list";
  resource = "report";
  actor_id = some "helper";
  actor_type = none;
  payload = end;
  context = end;
}

abbrev or_none : Result Gather.GatherResult → Gather.GatherResult
or_none (ok r) = r
or_none (raised e) = Gather.refused "raised"

abbrev both : Gather.GatherResult
both =
    or_none
      (Gather.gather env runtime parent (branch ∷ branch ∷ []) none (some "trace") none end false
        world).0

introspect_decision-Active_example :
    (s : IntrospectionStatus) × (introspect_decision env runtime parent "file:read"
        (some "report")
        world
      ≡ (ok s, world))
    × ((s.active ≡ true) ↔ (
        (row : GovernanceDecision) × (row_of parent world ≡ some row)
        × Active env runtime "file:read" (some "report") world (from_row row)))
introspect_decision-Active_example =
    introspect_decision-Active env runtime parent "file:read" (some "report") world refl

narrow_test :
    (is_narrower_scope scope request.scope ≡ true)
    × (covers request.scope "file:read" (some "report") ≡ true)
    × (covers scope "file:read" (some "report") ≡ true)
unfolding is_narrower_scope covers fnmatch
narrow_test = (refl, refl, refl)

narrower-covers_example : covers scope "file:read" (some "report") ≡ true
unfolding plain_pattern
narrower-covers_example =
    narrower-covers scope request.scope "file:read" (some "report") (refl, refl) (refl, refl)
      narrow_test.0 refl refl narrow_test.1

unrestricted-widens_example :
    (is_narrower_scope scope (unrestricted scope) ≡ true)
    × (covers (unrestricted scope) "file:read" (some "secrets") ≡ true)
unrestricted-widens_example =
    unrestricted-widens scope "file:read" (some "report") (some "secrets") narrow_test.2
