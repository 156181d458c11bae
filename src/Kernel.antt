-- ===== src/Kernel.antt =====
-- apps/runtime/citadel/execution/kernel.py: the lifecycle of one action, from the idempotency check
-- to the audited result. The stages are the numbered steps of `handle`.
pub mod LogKept
pub mod Execution
pub mod Terminal
use ledger_sdk.Prelude.{
  ℕ, zero, suc, String, ℤ, pos, Bool, true, false, not, ◌&&◌, Option, none, some, List, ◌==◌, ◌<>◌,
  or_else, truthy, str_or, is_nil, length, show, int_of, if◌then◌else◌,
}
use ledger_sdk.Values.{Value, Fields, number, boolean, text, end, get, get_text, is_truthy}
use ledger_sdk.Exec.{
  Result, ok, raised, Exn, ExnKind, exn, value_error, type_error, key_error, runtime_error,
  connection_error, timeout_error, other_error, pure, raise, lift, try_except, ◌>>=◌, ◌>>◌,
}
use ledger_sdk.Actions.{
  Action, Decision, KernelResult, KernelStatus, blocked_schema, blocked_policy, pending_approval,
  dry_run, executed, failed_execution,
}
use ledger_sdk.Budgets.{CostAttribution, BudgetDecision}
use ledger_sdk.Db.{App, Env, fresh}
use ledger_sdk.Repository.{
  find_decision_by_idempotency, save_action, save_decision, save_execution_result,
}
use ledger_sdk.PolicyResolver.{PolicySnapshot, resolve}
use ledger_sdk.Precedence.{Precedence, PrecedenceResult, evaluate_chain}
use ledger_sdk.Approvals.{ApprovalCheck, check_required, create_pending}
use ledger_sdk.CostControls.{check_budget}
use ledger_sdk.PromptInjection.{scan}
use ledger_sdk.AuditService.{
  action_received, action_failed, action_executed, policy_evaluated, approval_requested,
  decision_made, idempotent_return, spend_limit_exceeded,
}

-- The collaborators that the constructor receives beside the services over the database.
pub record Kernel : Type 0 where
  pub precedence : Precedence
  pub has_cost_service : Bool
  pub executor : Action → Result Value

-- `KernelResult(action=action, decision=..., ...)`
abbrev pub answer : Action → Option Decision → Bool → Option Value → Option String → KernelResult
answer action decision was_executed result error = record {
  action = action;
  decision = decision;
  was_executed = was_executed;
  result = result;
  error = error;
}

abbrev pub stopped : Action → Decision → Option String → KernelResult
stopped action d error = answer action (some d) false none error

-- The keyword arguments of `_terminal_decision`; the kernel never gives a risk score.
pub record Details : Type 0 where
  pub policy_snapshot_id : Option String
  pub capability_token : Option String
  pub risk_level : Option String
  pub path_taken : Option String

abbrev no_details : Details
no_details = record {
  policy_snapshot_id = none;
  capability_token = none;
  risk_level = none;
  path_taken = none;
}

abbrev pub decision_of : Env → Action → KernelStatus → String → String → Details → String → Decision
decision_of env action status rule reason details id = record {
  decision_id = id;
  action_id = action.action_id;
  status = status;
  winning_rule = rule;
  reason = reason;
  policy_snapshot_id = details.policy_snapshot_id;
  capability_token = details.capability_token;
  risk_level = details.risk_level;
  risk_score = none;
  path_taken = details.path_taken;
  created_at = env.now;
  tenant_id = action.tenant_id;
  root_decision_id = action.root_decision_id;
  parent_decision_id = action.parent_decision_id;
  trace_id = action.trace_id;
  parent_actor_id = action.parent_actor_id;
  workflow_id = action.workflow_id;
}

unfoldable pub terminal_decision :
    Env → Action → KernelStatus → String → String → Details → App Decision
terminal_decision env action status rule reason details = do
  id ← fresh env
  let decision = decision_of env action status rule reason details id
  save_decision decision
  decision_made env action decision
  pure decision

-- A stage goes on with a value, or ends the lifecycle with its result.
pub data Stage (A : Type 0) : Type 0 where
  go_on : A → Stage A
  stop : KernelResult → Stage A

abbrev pub snapshot_id_of : Option PolicySnapshot → Option String
snapshot_id_of none = none
snapshot_id_of (some s) = some s.snapshot_id

-- Step 1: the decision of an earlier request with the key.
unfoldable pub find_cached : Action → App (Option Decision)
find_cached action =
    if truthy action.idempotency_key
    then find_decision_by_idempotency action.actor_id (or_else action.idempotency_key "")
        action.tenant_id
    else pure none

unfoldable pub return_cached : Env → Action → Decision → App KernelResult
return_cached env action cached = do
  idempotent_return env action cached
  pure (stopped action cached none)

-- `asyncio.sleep`: the other requests go on.
sleep : Env → ℕ → App Unit
sleep env n w = (ok tt, env.others n w)

-- Step 2, for the loser of a race: the remaining rounds of the poll.
unfoldable pub poll : Env → Action → ℕ → App KernelResult
unfolding find_cached return_cached sleep
poll env action zero = pure (
    answer action none false none
      (some "Idempotency conflict: duplicate action in flight, decision not yet available"))
poll env action (suc rounds) = do
  cached ← find_cached action
  elim cached [
    | some d ↦ return_cached env action d
    | none ↦ do sleep env rounds; poll env action rounds
  ]

-- Step 2.5
unfoldable pub block_injection : Env → Action → List String → App KernelResult
unfolding terminal_decision show
block_injection env action matched = do
  decision ←
      terminal_decision env action blocked_schema "prompt_injection_detected"
        ("Prompt injection patterns detected: " <> show (length matched) <> " match(es)") no_details
  action_failed env action ("Prompt injection blocked: " <> env.str_texts matched)
  pure (stopped action decision (some "Prompt injection detected"))

-- The exceptions that steps 3 and 4.5 catch, and those that step 6 catches.
unfoldable pub is_service_error : ExnKind → Bool
is_service_error value_error = true
is_service_error type_error = true
is_service_error key_error = true
is_service_error connection_error = true
is_service_error timeout_error = true
is_service_error _ = false

unfoldable pub is_run_error : ExnKind → Bool
is_run_error value_error = true
is_run_error type_error = true
is_run_error runtime_error = true
is_run_error connection_error = true
is_run_error timeout_error = true
is_run_error _ = false

-- Step 3
unfoldable pub policy_failed : Env → Action → Exn → App (Stage (Option PolicySnapshot))
unfolding terminal_decision
policy_failed env action e = if not (is_service_error e.kind) then raise e.kind e.message else do
  action_failed env action ("Policy resolution failed: " <> e.message)
  decision ←
      terminal_decision env action blocked_schema "policy_resolution_failed" e.message no_details
  pure (stop (stopped action decision (some e.message)))

unfoldable pub audited_policy : Env → Action → App (Stage (Option PolicySnapshot))
audited_policy env action = do
  snapshot ← resolve env action
  policy_evaluated env action snapshot
  pure (go_on snapshot)

unfoldable pub resolve_policy : Env → Action → App (Stage (Option PolicySnapshot))
unfolding policy_failed audited_policy
resolve_policy env action = try_except (audited_policy env action) (policy_failed env action)

-- Step 4, for a result that blocks: its status is read when the decision is saved.
unfoldable pub block_action :
    Env → Action → Option PolicySnapshot → Option String → PrecedenceResult → App KernelResult
unfolding terminal_decision
block_action env action snapshot token r = elim r.status [
  | none ↦ raise other_error "'NoneType' object has no attribute 'value'"
  | some status ↦ do
    decision ← terminal_decision env action status r.winning_rule r.reason (record {
      policy_snapshot_id = snapshot_id_of snapshot;
      capability_token = token;
      risk_level = none;
      path_taken = none;
    })
    pure (stopped action decision (some r.reason))
]

-- `int(v or 0)`
abbrev int_of_value : Value → Result ℤ
int_of_value (number n) = ok n
int_of_value (boolean true) = ok (pos 1)
int_of_value (text s) = elim (int_of s) [
  | none ↦ raised (exn value_error "invalid literal for int() with base 10")
  | some n ↦ ok n
]
int_of_value v = raised (exn type_error "int() argument must be a string or a number")

unfoldable pub int_at : String → Fields → Result ℤ
unfolding get is_truthy int_of
int_at k context = elim (get k context) [
  | none ↦ ok (pos 0)
  | some v ↦ if is_truthy v then int_of_value v else ok (pos 0)
]

-- The attribution of the action; the identifiers of the context are texts.
abbrev attribution : Action → ℤ → ℤ → ℤ → CostAttribution
attribution action projected input output = record {
  tenant_id = or_else action.tenant_id "";
  projected_cost_cents = projected;
  actual_cost_cents = pos 0;
  actor_id = some action.actor_id;
  project_id = get_text "project_id" action.context;
  api_key_id = get_text "api_key_id" action.context;
  provider = get_text "provider" action.context;
  model = get_text "model" action.context;
  input_tokens = input;
  output_tokens = output;
  request_id = action.request_id;
  decision_id = some action.action_id;
  metadata = end;
}

ask_budget : Env → Action → ℤ → App (Option BudgetDecision)
unfolding int_at get_text
ask_budget env action projected = do
  input ← lift (int_at "input_tokens" action.context)
  output ← lift (int_at "output_tokens" action.context)
  decision ← check_budget env (attribution action projected input output)
  pure (some decision)

-- A failure of the service lets the request pass.
fail_open : Exn → App (Option BudgetDecision)
fail_open e = if is_service_error e.kind then pure none else raise e.kind e.message

-- `_check_spend_budget`
unfoldable pub check_spend_budget : Env → Action → App (Option BudgetDecision)
unfolding ask_budget fail_open
check_spend_budget env action = do
  projected ← lift (int_at "projected_cost_cents" action.context)
  try_except (ask_budget env action projected) fail_open

abbrev pub over_budget : BudgetDecision → Bool
over_budget d = not d.is_allowed && d.enforcement_action == "block"

block_spend :
    Env → Action → Option PolicySnapshot → Option String → BudgetDecision → App (Stage Unit)
unfolding terminal_decision
block_spend env action snapshot token d = if not (over_budget d) then pure (go_on tt) else do
  spend_limit_exceeded env action d
  decision ← terminal_decision env action blocked_policy "spend_limit_exceeded" d.reason (record {
    policy_snapshot_id = snapshot_id_of snapshot;
    capability_token = token;
    risk_level = none;
    path_taken = none;
  })
  pure (stop (stopped action decision (some d.reason)))

-- Step 4.5
unfoldable pub enforce_spend :
    Env → Kernel → Action → Option PolicySnapshot → Option String → App (Stage Unit)
unfolding check_spend_budget block_spend
enforce_spend env k action snapshot token =
    if not (k.has_cost_service && truthy action.tenant_id) then pure (go_on tt) else do
      decision ← check_spend_budget env action
      elim decision [ none ↦ pure (go_on tt) | some d ↦ block_spend env action snapshot token d ]

-- Step 5, where approval is required.
unfoldable pub request_approval :
    Env → Action → Option PolicySnapshot → ApprovalCheck → App KernelResult
unfolding terminal_decision
request_approval env action snapshot check = do
  approval_id ← create_pending env action check
  approval_requested env action approval_id
  decision ←
      terminal_decision env action pending_approval "approval_required" check.reason (record {
        policy_snapshot_id = snapshot_id_of snapshot;
        capability_token = none;
        risk_level = check.risk_level;
        path_taken = none;
      })
  pure (stopped action decision none)

abbrev run_details : Option PolicySnapshot → Option String → PrecedenceResult → Details
run_details snapshot token r = record {
  policy_snapshot_id = snapshot_id_of snapshot;
  capability_token = token;
  risk_level = none;
  path_taken = r.path_taken;
}

-- Step 5.5
unfoldable pub finish_dry_run :
    Env → Action → Option PolicySnapshot → Option String → PrecedenceResult → App KernelResult
unfolding terminal_decision
finish_dry_run env action snapshot token r = do
  decision ←
      terminal_decision env action dry_run "dry_run"
        "Dry run — policies evaluated but action not executed" (run_details snapshot token r)
  pure (stopped action decision none)

unfoldable pub succeeded : Env → Action → Details → Value → App KernelResult
unfolding terminal_decision
succeeded env action details result = do
  decision ←
      terminal_decision env action executed "execution_complete" "Action executed successfully"
        details
  save_execution_result action.action_id true (some result) none action.tenant_id
  action_executed env action result
  pure (answer action (some decision) true (some result) none)

unfoldable pub failed : Env → Action → Details → String → App KernelResult
unfolding terminal_decision
failed env action details error = do
  decision ←
      terminal_decision env action failed_execution "execution_failed"
        (str_or (some error) "Action executed successfully") details
  save_execution_result action.action_id false none (some error) action.tenant_id
  action_failed env action error
  pure (answer action (some decision) false none (some error))

unfoldable pub after_run : Env → Action → Details → Result Value → App KernelResult
unfolding succeeded failed
after_run env action details (ok result) = succeeded env action details result
after_run env action details (raised e) =
    if is_run_error e.kind then failed env action details e.message else raise e.kind e.message

-- Steps 6 to 8
unfoldable pub run_action :
    Env
    → Kernel
    → Action
    → Option PolicySnapshot
    → Option String
    → PrecedenceResult
    → App KernelResult
unfolding after_run
run_action env k action snapshot token r =
    after_run env action (run_details snapshot token r) (k.executor action)

-- From step 5 on: approval, dry run, execution.
unfoldable pub decide :
    Env
    → Kernel
    → Action
    → Option String
    → Bool
    → Option PolicySnapshot
    → PrecedenceResult
    → App KernelResult
unfolding request_approval finish_dry_run run_action
decide env k action token dry snapshot r =
    let check = check_required action snapshot none none in
    if check.required
    then request_approval env action snapshot check
    else if dry
    then finish_dry_run env action snapshot token r
    else run_action env k action snapshot token r

-- From step 4 on, with the snapshot.
unfoldable pub govern :
    Env → Kernel → Action → Option String → Bool → Option PolicySnapshot → App KernelResult
unfolding block_action enforce_spend decide
govern env k action token dry snapshot = do
  r ← evaluate_chain env k.precedence action snapshot token action.context
  if r.blocked then block_action env action snapshot token r else do
    spend ← enforce_spend env k action snapshot token
    elim spend [ stop result ↦ pure result | go_on _ ↦ decide env k action token dry snapshot r ]

-- From the audit of the receipt on.
unfoldable pub process : Env → Kernel → Action → Option String → Bool → App KernelResult
unfolding block_injection resolve_policy govern
process env k action token dry = do
  action_received env action
  if not (is_nil (scan env action.payload))
      then block_injection env action (scan env action.payload)
      else do
        policy ← resolve_policy env action
        elim policy [
          | stop result ↦ pure result
          | go_on snapshot ↦ govern env k action token dry snapshot
        ]

-- `Kernel.handle`; the poll is of 50 rounds.
unfoldable pub handle : Env → Kernel → Action → Option String → Bool → App KernelResult
unfolding find_cached return_cached poll process
handle env k action token dry = do
  cached ← find_cached action
  elim cached [
    | some d ↦ return_cached env action d
    | none ↦ do
      inserted ← save_action action
      if not inserted && truthy action.idempotency_key
          then poll env action 50
          else process env k action token dry
  ]
