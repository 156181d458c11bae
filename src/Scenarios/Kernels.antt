-- ===== src/Scenarios/Kernels.antt =====
-- Runs of the kernel and of the precedence chain.
use ledger_sdk.Prelude.{List, true, false, none, some, [], ◌∷◌, ◌≡◌, refl}
use ledger_sdk.Values.{end, text, get}
use ledger_sdk.Exec.{ok, ◌>>=◌, try_except}
use ledger_sdk.PromptInjection.{scan, flatten_payload, parts, joined}
use ledger_sdk.PolicyResolver.{resolve, resolve_specific, tenant_policy, snapshot_of, risk_score_of}
use ledger_sdk.PolicyRules.{Rule, condition_text}
use ledger_sdk.Repository.{
  get_active_policy, check_kill_switch, save_action, save_decision, save_execution_result,
  save_audit_event,
}
use ledger_sdk.Approvals.{check_required, risk_check}
use ledger_sdk.AuditService.{action_received, policy_evaluated, decision_made, action_executed, log}
use ledger_sdk.Actions.{executed, KernelResult, blocked_emergency}
use ledger_sdk.Db.{World}
use ledger_sdk.Repository.Chain.{IsChained}
use ledger_sdk.Precedence
use ledger_sdk.PolicyResolver.Resolution.{resolve_specific-first, first_some, candidates}
use ledger_sdk.Precedence.Order.{evaluate_chain-global}
use ledger_sdk.Kernel
use ledger_sdk.Kernel.Execution.{handle-Permitted, Permitted, RanWith}
use ledger_sdk.Kernel.Terminal.{handle-Consistent, Consistent}
use ledger_sdk.Kernel.LogKept.{handle-IsChained}
use ledger_sdk.Scenarios.{env, empty_db, world_of, action, global_switch}

abbrev kernel : Kernel.Kernel
kernel = record {
  precedence = record { token_verifier = none; governance_kill_switch = none };
  has_cost_service = false;
  executor = λ a. ok (text "done");
}

abbrev stopped_world : World
stopped_world = world_of (record empty_db { kill_switches = global_switch ∷ [] })

handle-IsChained_example :
    IsChained env (Kernel.handle env kernel action none false (world_of empty_db)).1.db.audit_events
unfolding IsChained
handle-IsChained_example =
    handle-IsChained env action (λ n w h. h) kernel none false (world_of empty_db) tt

evaluate_chain-global_example :
    (r : Precedence.PrecedenceResult) × (Precedence.evaluate_chain env kernel.precedence action none
        none end stopped_world
      ≡ (ok r, stopped_world))
    × (r.blocked ≡ true)
    × (r.status ≡ some blocked_emergency)
evaluate_chain-global_example =
    evaluate_chain-global env kernel.precedence action none none end stopped_world refl

abbrev result : KernelResult
result = record {
  action = action;
  decision = some (
      Kernel.decision_of env action executed "execution_complete" "Action executed successfully"
        (record {
          policy_snapshot_id = none;
          capability_token = none;
          risk_level = none;
          path_taken = some "fast";
        })
        "id");
  was_executed = true;
  result = some (text "done");
  error = none;
}

run_test : (Kernel.handle env kernel action none false (world_of empty_db)).0 ≡ ok result
unfolding Kernel.handle Kernel.find_cached Kernel.process Kernel.resolve_policy
    Kernel.audited_policy Kernel.govern Kernel.enforce_spend Kernel.decide Kernel.run_action
    Kernel.after_run Kernel.succeeded Kernel.terminal_decision scan flatten_payload parts joined
    resolve resolve_specific tenant_policy snapshot_of get_active_policy Precedence.evaluate_chain
    Precedence.check_kill_switches Precedence.check_repository Precedence.switch_or
    check_kill_switch Precedence.capability_stage Precedence.policy_stage Precedence.select_path
    Precedence.path_for Precedence.is_irreversible Precedence.is_structured risk_score_of get
    check_required risk_check save_action save_decision save_execution_result save_audit_event
    action_received policy_evaluated decision_made action_executed log ◌>>=◌ try_except
run_test = refl

handle-Permitted_example :
    Permitted env kernel action none false (world_of empty_db) × RanWith kernel action result
handle-Permitted_example =
    handle-Permitted env kernel action none false (world_of empty_db) result run_test refl

resolve_specific-first_example :
    resolve_specific action stopped_world
    ≡ (ok (first_some (candidates stopped_world action)), stopped_world)
resolve_specific-first_example = resolve_specific-first action stopped_world

abbrev blocking : Rule
blocking = record {
  name = some "no reads";
  condition = some (condition_text "action_name == 'file.read'");
  effect = some "BLOCK";
  reason = none;
  risk_level = none;
  risk_score = none;
  requires_approval = none;
  approval_priority = none;
  approval_expiry_hours = none;
}

abbrev rules : List Rule
rules = record blocking { condition = some (condition_text "false") } ∷ blocking ∷ []

handle-Consistent_example :
    Consistent result (Kernel.handle env kernel action none false (world_of empty_db)).1
handle-Consistent_example =
    handle-Consistent env kernel action none false (world_of empty_db) result refl run_test
