-- ===== src/Kernel/LogKept.antt =====
-- apps/runtime/citadel/execution/kernel.py: the whole lifecycle keeps what the reads and writes of
-- the repository keep, the chain of audit events among it, whichever way it ends.
use ledger_sdk.Prelude.{
  ℕ, zero, suc, String, Bool, true, false, any, ◌∷◌, if◌then◌else◌, List, Option, ◌≡◌, refl, sym,
  not, ◌&&◌, truthy, if_false, arith,
}
use mathlib.Core.Path.{subst}
use ledger_sdk.Values.{Value}
use ledger_sdk.Exec.{Exn, Result, ok, raised, pure}
use ledger_sdk.Exec.Keeps.{
  Keeps, Keeps-bind, Keeps-pure, Keeps-raise, Keeps-try, Keeps-if, Keeps-option, keeps_rules,
}
use ledger_sdk.Actions.{Action, Decision, KernelStatus}
use ledger_sdk.Budgets.{BudgetDecision}
use ledger_sdk.Db.{Env, App, World}
use ledger_sdk.Repository.{
  same_key, save_decision, save_action, save_execution_result, find_decision_by_idempotency,
  create_approval,
}
use ledger_sdk.Repository.Chain.{audit_frame, IsChained}
use ledger_sdk.Repository.Frame.{
  Framed, Keeps-save_audit_event, Keeps-fresh, Keeps-read_db, Keeps-set_db,
}
use ledger_sdk.AuditService.{
  action_received, action_failed, action_executed, policy_evaluated, approval_requested,
  decision_made, idempotent_return, spend_limit_exceeded, log,
}
use ledger_sdk.PolicyResolver.{PolicySnapshot}
use ledger_sdk.PolicyResolver.LogKept.{Keeps-resolve}
use ledger_sdk.Precedence.{PrecedenceResult}
use ledger_sdk.Precedence.LogKept.{Keeps-evaluate_chain}
use ledger_sdk.Approvals.{ApprovalCheck, create_pending}
use ledger_sdk.CostControls.LogKept.{Keeps-check_budget}
use ledger_sdk.PromptInjection.{scan}
use ledger_sdk.Kernel

module _ {env : Env} {I : World → Type 0} (frame : Framed env I) (action : Action) where
  Keeps-terminal_decision :
      (status : KernelStatus) (rule reason : String) (details : Kernel.Details)
      → Keeps I (Kernel.terminal_decision env action status rule reason details)
  unfolding Kernel.terminal_decision save_decision decision_made log
  Keeps-terminal_decision status rule reason details =
      search (keeps_rules, Keeps-fresh frame, Keeps-save_audit_event frame, Keeps-set_db frame)
        depth 20

  Keeps-find_cached : Keeps I (Kernel.find_cached action)
  unfolding Kernel.find_cached find_decision_by_idempotency
  Keeps-find_cached = search (keeps_rules, Keeps-read_db frame) depth 20

  Keeps-return_cached : (d : Decision) → Keeps I (Kernel.return_cached env action d)
  unfolding Kernel.return_cached idempotent_return log
  Keeps-return_cached d = search (keeps_rules, Keeps-save_audit_event frame) depth 20

  Keeps-block_injection :
      (matched : List String) → Keeps I (Kernel.block_injection env action matched)
  unfolding Kernel.block_injection action_failed log
  Keeps-block_injection matched =
      search (keeps_rules, Keeps-save_audit_event frame, Keeps-terminal_decision) depth 20

  Keeps-policy_failed : (e : Exn) → Keeps I (Kernel.policy_failed env action e)
  unfolding Kernel.policy_failed action_failed log
  Keeps-policy_failed e =
      search (keeps_rules, Keeps-save_audit_event frame, Keeps-terminal_decision) depth 20

  Keeps-audited_policy : Keeps I (Kernel.audited_policy env action)
  unfolding Kernel.audited_policy policy_evaluated log
  Keeps-audited_policy =
      search (keeps_rules, Keeps-save_audit_event frame, Keeps-resolve frame) depth 20

  Keeps-resolve_policy : Keeps I (Kernel.resolve_policy env action)
  unfolding Kernel.resolve_policy
  Keeps-resolve_policy = Keeps-try _ _ Keeps-audited_policy Keeps-policy_failed

  Keeps-block_action :
      (s : Option PolicySnapshot) (token : Option String) (r : PrecedenceResult)
      → Keeps I (Kernel.block_action env action s token r)
  unfolding Kernel.block_action
  Keeps-block_action s token r =
      Keeps-option r.status _ _ (Keeps-raise _ _)
        λ status. search (keeps_rules, Keeps-terminal_decision) depth 10

  Keeps-fail_open : (e : Exn) → Keeps I (Kernel.fail_open e)
  unfolding Kernel.fail_open
  Keeps-fail_open e = search (keeps_rules)

  Keeps-check_spend_budget : Keeps I (Kernel.check_spend_budget env action)
  unfolding Kernel.check_spend_budget Kernel.ask_budget
  Keeps-check_spend_budget =
      search (keeps_rules, Keeps-check_budget frame, Keeps-fail_open) depth 20

  Keeps-block_spend :
      (s : Option PolicySnapshot) (token : Option String) (d : BudgetDecision)
      → Keeps I (Kernel.block_spend env action s token d)
  unfolding Kernel.block_spend spend_limit_exceeded log
  Keeps-block_spend s token d =
      search (keeps_rules, Keeps-save_audit_event frame, Keeps-terminal_decision) depth 20

  Keeps-enforce_spend :
      (k : Kernel.Kernel) (s : Option PolicySnapshot) (token : Option String)
      → Keeps I (Kernel.enforce_spend env k action s token)
  unfolding Kernel.enforce_spend
  Keeps-enforce_spend k s token = Keeps-if _ _ _ (Keeps-pure _) (
      Keeps-bind _ _ Keeps-check_spend_budget
        λ d. Keeps-option d _ _ (Keeps-pure _) λ d. search (Keeps-block_spend))

  Keeps-request_approval :
      (s : Option PolicySnapshot) (check : ApprovalCheck)
      → Keeps I (Kernel.request_approval env action s check)
  unfolding Kernel.request_approval approval_requested log create_pending create_approval
  Keeps-request_approval s check =
      search
        (
          keeps_rules,
          Keeps-save_audit_event frame,
          Keeps-fresh frame,
          Keeps-set_db frame,
          Keeps-terminal_decision,
        )
        depth 20

  Keeps-finish_dry_run :
      (s : Option PolicySnapshot) (token : Option String) (r : PrecedenceResult)
      → Keeps I (Kernel.finish_dry_run env action s token r)
  unfolding Kernel.finish_dry_run
  Keeps-finish_dry_run s token r = search (keeps_rules, Keeps-terminal_decision) depth 20

  Keeps-after_run :
      (details : Kernel.Details) (r : Result Value)
      → Keeps I (Kernel.after_run env action details r)
  unfolding Kernel.after_run Kernel.succeeded Kernel.failed save_execution_result action_executed
      action_failed log
  Keeps-after_run details (ok v) =
      search
        (keeps_rules, Keeps-save_audit_event frame, Keeps-set_db frame, Keeps-terminal_decision)
        depth 20
  Keeps-after_run details (raised e) =
      search
        (keeps_rules, Keeps-save_audit_event frame, Keeps-set_db frame, Keeps-terminal_decision)
        depth 20

  Keeps-decide :
      (k : Kernel.Kernel) (token : Option String) (dry : Bool) (s : Option PolicySnapshot)
      (r : PrecedenceResult)
      → Keeps I (Kernel.decide env k action token dry s r)
  unfolding Kernel.decide Kernel.run_action
  Keeps-decide k token dry s r =
      search (keeps_rules, Keeps-request_approval, Keeps-finish_dry_run, Keeps-after_run) depth 20

  Keeps-stage :
      {A : Type 0} (stage : Kernel.Stage A) (f : A → App _)
      → ((a : A) → Keeps I (f a))
      → Keeps I (elim stage [ Kernel.stop result ↦ pure result | Kernel.go_on a ↦ f a ])
  Keeps-stage (Kernel.stop result) f h = Keeps-pure _
  Keeps-stage (Kernel.go_on a) f h = h a

  Keeps-govern :
      (k : Kernel.Kernel) (token : Option String) (dry : Bool) (s : Option PolicySnapshot)
      → Keeps I (Kernel.govern env k action token dry s)
  unfolding Kernel.govern
  Keeps-govern k token dry s =
      Keeps-bind _ _ (Keeps-evaluate_chain frame k.precedence action s token action.context) λ r.
        Keeps-if r.blocked _ _ (Keeps-block_action s token r) (
          Keeps-bind _ _ (Keeps-enforce_spend k s token)
            λ spend. Keeps-stage spend _ λ _. Keeps-decide k token dry s r)

  Keeps-process :
      (k : Kernel.Kernel) (token : Option String) (dry : Bool)
      → Keeps I (Kernel.process env k action token dry)
  unfolding Kernel.process action_received log
  Keeps-process k token dry = Keeps-bind _ _ (Keeps-save_audit_event frame _ _ _ _ _) λ _.
      Keeps-if _ _ _ (Keeps-block_injection (scan env action.payload)) (
        Keeps-bind _ _ Keeps-resolve_policy
          λ policy. Keeps-stage policy _ λ s. Keeps-govern k token dry s)

  Keeps-save_action : Keeps I (save_action action)
  unfolding save_action
  Keeps-save_action = record { kept = λ w h. saved w (any (same_key action) w.db.actions) h }
    where
      saved :
          (w : World) (b : Bool)
          → I w
          → I
              (if◌then◌else◌ {A = Result Bool × World} b
                (ok false, w)
                (ok true, record w { db = record w.db { actions = action ∷ w.db.actions } })).1
      saved w true h = h
      saved w false h = frame.wrote w _ (refl, refl, refl) h

  -- A run of an action without an idempotency key does not wait for other requests.
  pub Keeps-handle_keyless :
      (k : Kernel.Kernel) (token : Option String) (dry : Bool)
      → truthy action.idempotency_key ≡ false
      → Keeps I (Kernel.handle env k action token dry)
  unfolding Kernel.handle
  Keeps-handle_keyless k token dry keyless = Keeps-bind _ _ Keeps-find_cached λ cached.
      Keeps-option cached _ _
        (Keeps-bind _ _ Keeps-save_action λ inserted.
          subst (Keeps I)
            (sym (
              if_false (not inserted && truthy action.idempotency_key) _ _
                (ground (arith, keyless))))
            (Keeps-process k token dry))
        Keeps-return_cached

  -- What the others commit during a sleep keeps the predicate.
  module _ (others : (n : ℕ) (w : World) → I w → I (env.others n w)) where
    Keeps-poll : (rounds : ℕ) → Keeps I (Kernel.poll env action rounds)
    unfolding Kernel.poll Kernel.sleep
    Keeps-poll zero = Keeps-pure _
    Keeps-poll (suc rounds) = Keeps-bind _ _ Keeps-find_cached λ cached.
        Keeps-option cached _ _
          (Keeps-bind _ _ (record { kept = others rounds }) λ _. Keeps-poll rounds)
          Keeps-return_cached

    pub Keeps-handle :
        (k : Kernel.Kernel) (token : Option String) (dry : Bool)
        → Keeps I (Kernel.handle env k action token dry)
    unfolding Kernel.handle
    Keeps-handle k token dry = Keeps-bind _ _ Keeps-find_cached λ cached.
        Keeps-option cached _ _
          (Keeps-bind _ _ Keeps-save_action
            λ inserted. Keeps-if _ _ _ (Keeps-poll 50) (Keeps-process k token dry))
          Keeps-return_cached

-- Every run of the kernel, whether it returns or raises, leaves the audit log a hash chain with
-- increasing numbers, where it was one and the other requests that run during a sleep keep it one:
-- each event holds the hash of the event before it, and its own hash is that of its fields, the
-- previous hash among them.
pub handle-IsChained :
    (env : Env) (action : Action)
    (others : (n : ℕ) (w : World)
      → IsChained env w.db.audit_events
      → IsChained env (env.others n w).db.audit_events)
    (k : Kernel.Kernel) (token : Option String) (dry : Bool) (w : World)
    → IsChained env w.db.audit_events
    → IsChained env (Kernel.handle env k action token dry w).1.db.audit_events
handle-IsChained env action others k token dry w h =
    (Keeps-handle (audit_frame env) action others k token dry).kept w h
