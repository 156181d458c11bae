-- ===== src/Orchestration/Gather.antt =====
-- apps/runtime/citadel/execution/orchestration.py, gather: branches under one parent. The branches
-- run one after the other here; asyncio.gather may interleave them.
use ledger_sdk.Prelude.{
  ℕ, suc, ◌-◌, String, pos, Bool, true, false, not, eqb, leb, Option, none, some, List, [], ◌∷◌,
  or_else, opt_or, str_or, length, count_where, show, if◌then◌else◌, ◌<>◌, ◌==◌,
}
use ledger_sdk.Values.{
  Value, Values, Fields, boolean, number, text, array, object, nil, cons, end, field, of_option,
}
use ledger_sdk.Exec.{Result, ok, raised, pure, raise, other_error, ◌>>=◌, ◌>>◌}
use ledger_sdk.Actions.{Action, Decision, KernelResult}
use ledger_sdk.GovernanceDecision.{GovernanceDecision, DecisionScope}
use ledger_sdk.Db.{App, Env, fresh}
use ledger_sdk.AuditService.{log}
use ledger_sdk.Kernel.{handle}
use ledger_sdk.Orchestration.{OrchestrationRuntime, switch_reason}
use ledger_sdk.Orchestration.Scope.{is_narrower_scope}
use ledger_sdk.Orchestration.Introspection.{introspect_decision}
use ledger_sdk.Orchestration.Lineage.{is_allowed, is_permitted, resolved, trace_for, root_of}
use ledger_sdk.Orchestration.Delegation.{attempt}

-- The dictionary of a branch, whose keys "action" and "resource" are there.
pub record Branch : Type 0 where
  pub action : String
  pub resource : String
  pub actor_id : Option String
  pub actor_type : Option String
  pub payload : Fields
  pub context : Fields

pub record BranchResult : Type 0 where
  pub branch_index : ℕ
  pub success : Bool
  pub action : Action
  pub decision : Option Decision
  pub result : Option Value
  pub error : Option String

pub record GatherResult : Type 0 where
  pub success : Bool
  pub branches : List BranchResult
  pub completed : ℕ
  pub failed : ℕ
  pub reason : String

abbrev pub refused : String → GatherResult
refused reason = record {
  success = false;
  branches = [];
  completed = 0;
  failed = 0;
  reason = reason;
}

-- `len` of a list and of a dictionary.
unfoldable pub size_of_values : Values → ℕ
size_of_values nil = 0
size_of_values (cons v vs) = suc (size_of_values vs)

unfoldable pub size_of_fields : Fields → ℕ
size_of_fields end = 0
size_of_fields (field k v d) = suc (size_of_fields d)

-- The values that a branch's context keeps: plain ones, and short lists and dictionaries.
unfoldable pub is_light : Value → Bool
unfolding size_of_values size_of_fields
is_light (array vs) = leb (size_of_values vs) 16
is_light (object d) = leb (size_of_fields d) 8
is_light v = true

-- `d[key] = v`
unfoldable pub put : String → Value → Fields → Fields
put k v end = field k v end
put k v (field j u d) = if j == k then field j v d else field j u (put k v d)

-- `for k, v in source.items(): ...`
unfoldable pub copy_light : Fields → Fields → Fields
unfolding put is_light
copy_light end d = d
copy_light (field k v source) d = copy_light source (if is_light v then put k v d else d)

-- `_distill_branch_context`
unfoldable pub distill_branch_context : Fields → Fields → Fields
unfolding copy_light
distill_branch_context branch shared = copy_light branch (copy_light shared end)

abbrev pub branch_scope : Branch → DecisionScope
branch_scope b = record {
  actions = b.action ∷ [];
  resources = b.resource ∷ [];
  max_spend = none;
  rate_limit = none;
}

-- The first branch whose scope is not a part of the parent's, counted from `i`.
unfoldable pub first_wider : DecisionScope → ℕ → List Branch → Option ℕ
first_wider parent i [] = none
first_wider parent i (b ∷ bs) =
    if not (is_narrower_scope parent (branch_scope b))
    then some i
    else first_wider parent (suc i) bs

-- The parameters that the branches share.
pub record Shared : Type 0 where
  pub tenant_id : Option String
  pub workflow_id : Option String
  pub shared_context : Fields
  pub trace : String

unfoldable pub branch_action : Env → GovernanceDecision → Shared → Branch → App Action
branch_action env parent sh b = do
  id ← fresh env
  pure (record {
    action_id = id;
    actor_id = or_else b.actor_id parent.actor_id;
    actor_type = or_else b.actor_type "agent";
    action_name = b.action;
    resource = b.resource;
    tenant_id = some (str_or sh.tenant_id parent.tenant_id);
    payload = b.payload;
    context = distill_branch_context b.context sh.shared_context;
    session_id = none;
    request_id = none;
    idempotency_key = none;
    created_at = env.now;
    root_decision_id = some (root_of parent);
    parent_decision_id = some parent.decision_id;
    trace_id = some sh.trace;
    parent_actor_id = some parent.actor_id;
    workflow_id = opt_or sh.workflow_id parent.workflow_id;
  })

unfoldable pub branch_actions : Env → GovernanceDecision → Shared → List Branch → App (List Action)
unfolding branch_action
branch_actions env parent sh [] = pure []
branch_actions env parent sh (b ∷ bs) = do
  action ← branch_action env parent sh b
  rest ← branch_actions env parent sh bs
  pure (action ∷ rest)

abbrev without_status : {A : Type 0} → App A
without_status = raise other_error "'NoneType' object has no attribute 'status'"

-- A dry branch counts as a success where the status is ALLOWED.
unfoldable pub dry_result : ℕ → Action → KernelResult → App BranchResult
dry_result i action r = elim r.decision [
  | none ↦ without_status
  | some d ↦ pure (record {
    branch_index = i;
    success = is_allowed d.status;
    action = action;
    decision = some d;
    result = none;
    error = none;
  })
]

unfoldable pub run_dry : Env → OrchestrationRuntime → ℕ → List Action → App (List BranchResult)
unfolding dry_result
run_dry env rt i [] = pure []
run_dry env rt i (a ∷ actions) = do
  governed ← handle env rt.kernel a none true
  first ← dry_result i a governed
  rest ← run_dry env rt (suc i) actions
  pure (first ∷ rest)

-- `asyncio.gather(..., return_exceptions=True)`
unfoldable pub run_all :
    Env → OrchestrationRuntime → List Action → App (List (Action × Result KernelResult))
unfolding attempt
run_all env rt [] = pure []
run_all env rt (a ∷ actions) = do
  governed ← attempt (handle env rt.kernel a none false)
  rest ← run_all env rt actions
  pure ((a, governed) ∷ rest)

unfoldable pub branch_result : ℕ → Action → Result KernelResult → App BranchResult
branch_result i action (raised e) = pure (record {
  branch_index = i;
  success = false;
  action = action;
  decision = none;
  result = none;
  error = some e.message;
})
branch_result i action (ok r) = elim r.decision [
  | none ↦ without_status
  | some d ↦ pure (record {
    branch_index = i;
    success = is_permitted d.status;
    action = action;
    decision = some d;
    result = r.result;
    error = r.error;
  })
]

unfoldable pub branch_results : ℕ → List (Action × Result KernelResult) → App (List BranchResult)
unfolding branch_result
branch_results i [] = pure []
branch_results i ((a, r) ∷ runs) = do
  first ← branch_result i a r
  rest ← branch_results (suc i) runs
  pure (first ∷ rest)

-- `_audit_branches_completed_batch`: with this audit service, one event for each branch.
unfoldable pub audit_branches_completed : Env → GovernanceDecision → List BranchResult → App Unit
audit_branches_completed env parent [] = pure tt
audit_branches_completed env parent (b ∷ bs) = do
  log env b.action "branch_completed"
      (field "parent_decision_id" (text parent.decision_id) (
        field "branch_index" (number (pos b.branch_index))
          (field "success" (boolean b.success) (field "error" (of_option b.error) end))))
      none
  audit_branches_completed env parent bs

abbrev pub succeeded : BranchResult → Bool
succeeded b = b.success

abbrev pub gathered : ℕ → List BranchResult → GatherResult
gathered n results = record {
  success = eqb (length results - count_where succeeded results) 0;
  branches = results;
  completed = count_where succeeded results;
  failed = length results - count_where succeeded results;
  reason =
      "Gather complete: " <> show (count_where succeeded results) <> "/" <> show n <> " succeeded";
}

unfoldable pub run_branches :
    Env → OrchestrationRuntime → Bool → List Action → App (List BranchResult)
unfolding run_dry run_all branch_results
run_branches env rt dry actions =
    if dry
    then run_dry env rt 0 actions
    else do runs ← run_all env rt actions; branch_results 0 runs

-- From the checks on the parent on. The audit names the caller's own parent.
unfoldable pub gather_under :
    Env
    → OrchestrationRuntime
    → GovernanceDecision
    → GovernanceDecision
    → List Branch
    → Shared
    → Bool
    → App GatherResult
unfolding first_wider branch_actions run_branches audit_branches_completed show
gather_under env rt given parent branches sh dry = elim (first_wider parent.scope 0 branches) [
  | some i ↦ pure (refused ("Branch " <> show i <> " scope exceeds parent authority"))
  | none ↦ do
    actions ← branch_actions env parent sh branches
    results ← run_branches env rt dry actions
    audit_branches_completed env given results
    pure (gathered (length branches) results)
]

unfoldable pub gather :
    Env
    → OrchestrationRuntime
    → GovernanceDecision
    → List Branch
    → Option String
    → Option String
    → Option String
    → Fields
    → Bool
    → App GatherResult
unfolding gather_under trace_for
gather env rt given branches tid trace_id workflow_id shared_context dry = do
  s ← introspect_decision env rt given given.action given.resource
  if not s.active
      then pure (refused ("Parent authority not active: " <> or_else s.reason "None"))
      else elim (switch_reason rt (resolved s given)) [
        | some r ↦ pure (refused ("Kill switch active: " <> r))
        | none ↦ do
          trace ← trace_for env trace_id (resolved s given)
          gather_under env rt given (resolved s given) branches
              (record {
                tenant_id = tid;
                workflow_id = workflow_id;
                shared_context = shared_context;
                trace = trace;
              })
              dry
      ]
