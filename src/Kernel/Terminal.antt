-- ===== src/Kernel/Terminal.antt =====
-- apps/runtime/citadel/execution/kernel.py: the statuses with which the lifecycle of a new action
-- ends.
use ledger_sdk.Prelude.{
  suc, Any, here, String, Bool, true, false, not, ◌&&◌, List, Option, none, some, ◌≡◌, refl, sym,
  ◌∙◌, ap, truthy, is_nil, false_elim, and_right, if_false, arith,
}
use mathlib.Core.Path.{subst}
use ledger_sdk.Values.{Value, Fields}
use ledger_sdk.Exec.{Exn, Result, ok, raised, pure, ◌>>=◌}
use ledger_sdk.Exec.Returns.{Returns, Returns-pure, Returns-bind, returned}
use ledger_sdk.Exec.Keeps.{Keeps}
use ledger_sdk.Exec.Leaves.{
  Left, Leaves, Leaves-pure, Leaves-raise, Leaves-if, Leaves-try, Leaves-run, Leaves-bind,
  Leaves-then, Left-bind, Leaves-option,
}
use ledger_sdk.Repository.{save_decision, save_audit_event, insert_event, save_execution_result}
use ledger_sdk.AuditService.{log, decision_made, action_failed, action_executed}
use ledger_sdk.Actions.{
  Action, Decision, KernelResult, KernelStatus, blocked_schema, blocked_emergency,
  blocked_capability, blocked_policy, pending_approval, dry_run, executed, failed_execution,
}
use ledger_sdk.Budgets.{BudgetDecision}
use ledger_sdk.Db.{Env, App, World, AuditEvent}
use ledger_sdk.PolicyResolver.{PolicySnapshot}
use ledger_sdk.Approvals.{check_required}
use ledger_sdk.PromptInjection.{scan}
use ledger_sdk.Precedence.{PrecedenceResult}
use ledger_sdk.Precedence.Status.{Blocking, BlockingStatus, is_blocking, evaluate_chain-Blocking}
use ledger_sdk.Kernel

-- The statuses that a lifecycle ends with. ALLOWED is not one of them.
abbrev pub is_final : KernelStatus → Bool
is_final blocked_schema = true
is_final blocked_emergency = true
is_final blocked_capability = true
is_final blocked_policy = true
is_final pending_approval = true
is_final dry_run = true
is_final executed = true
is_final failed_execution = true
is_final _ = false

abbrev pub is_executed : KernelStatus → Bool
is_executed executed = true
is_executed _ = false

-- The decision is a row of the decisions table, but for its capability token, which the table holds
-- only where it is no governance token.
abbrev pub Stored : Decision → World → Type 0
Stored d w = Any (λ row. row ≡ record d { capability_token = row.capability_token }) w.db.decisions

-- The result has a decision of a final status, which says whether the action was executed, and
-- which is stored in the state.
abbrev pub Consistent : KernelResult → World → Type 0
Consistent r w =
    (d : Decision) × (r.decision ≡ some d)
    × (is_final d.status ≡ true)
    × (r.was_executed ≡ is_executed d.status)
    × Stored d w

blocking_final :
    (s : KernelStatus) → is_blocking s ≡ true → (is_final s ≡ true) × (is_executed s ≡ false)
blocking_final blocked_emergency h = (refl, refl)
blocking_final blocked_capability h = (refl, refl)
blocking_final blocked_policy h = (refl, refl)
blocking_final _ h = false_elim h

abbrev ConsistentStage : {A : Type 0} → Kernel.Stage A → World → Type 0
ConsistentStage (Kernel.go_on a) w = Unit
ConsistentStage (Kernel.stop r) w = Consistent r w

module _ (env : Env) (action : Action) where
  pub terminal-status :
      (status : KernelStatus) (rule reason : String) (details : Kernel.Details)
      → Returns
          (λ d. d.status ≡ status)
          (Kernel.terminal_decision env action status rule reason details)
  unfolding Kernel.terminal_decision
  terminal-status status rule reason details =
      Returns-bind _ _
        λ s id e. Returns-bind _ _ λ s u e. Returns-bind _ _ λ s n e. Returns-pure _ refl

  -- The log and the results do not touch the decisions.
  Keeps-logged :
      (d : Decision) (action_id event_type : String) (payload : Fields) (actor tid : Option String)
      → Keeps (Stored d) (save_audit_event env action_id event_type payload actor tid)
  unfolding save_audit_event ◌>>=◌
  Keeps-logged d action_id event_type payload actor tid = record {
    kept = λ w h. inserted (record w { drawn = suc w.drawn }) _ _ h;
  }
    where
      inserted :
          (w : World) (e : AuditEvent) (o : Option Exn)
          → Stored d w
          → Stored d (insert_event e o w).1
      inserted w e none h = h
      inserted w e (some x) h = h

  Keeps-action_failed : (d : Decision) (e : String) → Keeps (Stored d) (action_failed env action e)
  unfolding action_failed log
  Keeps-action_failed d e = Keeps-logged d _ _ _ _ _

  Keeps-action_executed :
      (d : Decision) (v : Value) → Keeps (Stored d) (action_executed env action v)
  unfolding action_executed log
  Keeps-action_executed d v = Keeps-logged d _ _ _ _ _

  Keeps-save_execution_result :
      (d : Decision) (id : String) (b : Bool) (v : Option Value) (e tid : Option String)
      → Keeps (Stored d) (save_execution_result id b v e tid)
  unfolding save_execution_result
  Keeps-save_execution_result d id b v e tid = record { kept = λ w h. h }

  -- A decision of the status that is stored.
  abbrev Decided : KernelStatus → Decision → World → Type 0
  Decided status d w = (d.status ≡ status) × Stored d w

  Decided-terminal_decision :
      (status : KernelStatus) (rule reason : String) (details : Kernel.Details)
      → Leaves (Decided status) (Kernel.terminal_decision env action status rule reason details)
  unfolding Kernel.terminal_decision save_decision decision_made log
  Decided-terminal_decision status rule reason details = Leaves-bind _ _ λ id.
      let d = Kernel.decision_of env action status rule reason details id in
      Leaves-run _ _ λ w u w' e.
        Left-bind (Decided status) {I = Stored d} _ _ w' (Keeps-logged d _ _ _ _ _)
          (subst (λ (o : Result (Unit {0}) × World). Stored d o.1) e (here refl))
          λ n w'' h. (refl, h)

  -- What follows the terminal decision answers with it.
  ended :
      {A : Type 0} {Q : A → World → Type 0} (status : KernelStatus) (rule reason : String)
      (details : Kernel.Details) (f : Decision → App A)
      → ((d : Decision) → d.status ≡ status → (w : World) → Stored d w → Left Q (f d w))
      → Leaves Q (Kernel.terminal_decision env action status rule reason details >>= f)
  ended status rule reason details f h =
      Leaves-then {P = Decided status} _ f (Decided-terminal_decision status rule reason details)
        λ d w k. h d k.0 w k.1

  consistent :
      (status : KernelStatus) (d : Decision) (b : Bool) (v : Option Value) (e : Option String)
      (w : World)
      → d.status ≡ status
      → is_final status ≡ true
      → b ≡ is_executed status
      → Stored d w
      → Consistent (Kernel.answer action (some d) b v e) w
  consistent status d b v e w q f x k = (d, refl, ap is_final q ∙ f, x ∙ sym (ap is_executed q), k)

  Ends-block_injection : (m : List String) → Leaves Consistent (Kernel.block_injection env action m)
  unfolding Kernel.block_injection
  Ends-block_injection m = ended blocked_schema _ _ _ _ λ d q w k.
      Left-bind _ {I = Stored d} _ _ w (Keeps-action_failed d _) k λ n w' k'.
        consistent blocked_schema d false none (some "Prompt injection detected") w' q refl refl k'

  Ends-policy_failed : (e : Exn) → Leaves ConsistentStage (Kernel.policy_failed env action e)
  unfolding Kernel.policy_failed
  Ends-policy_failed e =
      Leaves-if (not (Kernel.is_service_error e.kind)) _ _ (λ _. Leaves-raise _ _)
        λ _. Leaves-bind _ _ λ n.
          ended blocked_schema _ _ _ _
            λ d q w k. consistent blocked_schema d false none (some e.message) w q refl refl k

  Ends-resolve_policy : Leaves ConsistentStage (Kernel.resolve_policy env action)
  unfolding Kernel.resolve_policy Kernel.audited_policy
  Ends-resolve_policy =
      Leaves-try _ _ (Leaves-bind _ _ λ a. Leaves-bind _ _ λ u. Leaves-pure _ λ w. tt)
        Ends-policy_failed

  Ends-block_action :
      (s : Option PolicySnapshot) (token : Option String) (r : PrecedenceResult)
      → Blocking r
      → Leaves Consistent (Kernel.block_action env action s token r)
  unfolding Kernel.block_action
  Ends-block_action s token r b =
      Leaves-option r.status _ _ (λ _. Leaves-raise _ _)
        λ status e.
          let (f, x) = blocking_final status (subst BlockingStatus e b) in
          ended status _ _ _ _
            λ d q w k. consistent status d false none (some r.reason) w q f (sym x) k

  Ends-block_spend :
      (s : Option PolicySnapshot) (token : Option String) (b : BudgetDecision)
      → Leaves ConsistentStage (Kernel.block_spend env action s token b)
  unfolding Kernel.block_spend
  Ends-block_spend s token b =
      Leaves-if (not (Kernel.over_budget b)) _ _ (λ _. Leaves-pure _ λ w. tt)
        λ _. Leaves-bind _ _ λ u.
          ended blocked_policy _ _ _ _
            λ d q w k. consistent blocked_policy d false none (some b.reason) w q refl refl k

  Ends-enforce_spend :
      (k : Kernel.Kernel) (s : Option PolicySnapshot) (token : Option String)
      → Leaves ConsistentStage (Kernel.enforce_spend env k action s token)
  unfolding Kernel.enforce_spend
  Ends-enforce_spend k s token =
      Leaves-if (not (k.has_cost_service && truthy action.tenant_id)) _ _
        (λ _. Leaves-pure _ λ w. tt)
        λ _.
          Leaves-bind _ _
            λ d. Leaves-option d _ _ (λ _. Leaves-pure _ λ w. tt) λ b _. Ends-block_spend s token b

  Ends-after_run :
      (details : Kernel.Details) (r : Result Value)
      → Leaves Consistent (Kernel.after_run env action details r)
  unfolding Kernel.after_run Kernel.succeeded Kernel.failed
  Ends-after_run details (ok v) = ended executed _ _ _ _ λ d q w k.
      Left-bind _ {I = Stored d} _ _ w (Keeps-save_execution_result d _ _ _ _ _) k λ u w1 k1.
        Left-bind _ {I = Stored d} _ _ w1 (Keeps-action_executed d v) k1
          λ n w2 k2. consistent executed d true (some v) none w2 q refl refl k2
  Ends-after_run details (raised x) =
      Leaves-if (Kernel.is_run_error x.kind) _ _
        (λ _. ended failed_execution _ _ _ _ λ d q w k.
          Left-bind _ {I = Stored d} _ _ w (Keeps-save_execution_result d _ _ _ _ _) k λ u w1 k1.
            Left-bind _ {I = Stored d} _ _ w1 (Keeps-action_failed d _) k1 λ n w2 k2.
              consistent failed_execution d false none (some x.message) w2 q refl refl k2)
        λ _. Leaves-raise _ _

  Ends-decide :
      (k : Kernel.Kernel) (token : Option String) (dry : Bool) (s : Option PolicySnapshot)
      (r : PrecedenceResult)
      → Leaves Consistent (Kernel.decide env k action token dry s r)
  unfolding Kernel.decide Kernel.run_action Kernel.request_approval Kernel.finish_dry_run
  Ends-decide k token dry s r =
      Leaves-if (check_required action s none none).required _ _
        (λ _. Leaves-bind _ _ λ id. Leaves-bind _ _ λ u.
          ended pending_approval _ _ _ _
            λ d q w k. consistent pending_approval d false none none w q refl refl k)
        λ _.
          Leaves-if dry _ _
            (λ _.
              ended dry_run _ _ _ _ λ d q w k. consistent dry_run d false none none w q refl refl k)
            λ _. Ends-after_run _ (k.executor action)

  Ends-stage :
      {A : Type 0} (stage : Kernel.Stage A) (f : A → App KernelResult) (w : World)
      → ConsistentStage stage w
      → ((a : A) → Leaves Consistent (f a))
      → let m : App KernelResult = elim stage [
        | Kernel.stop result ↦ pure result
        | Kernel.go_on a ↦ f a
      ] in
        Left Consistent (m w)
  Ends-stage (Kernel.stop result) f w c h = c
  Ends-stage (Kernel.go_on a) f w c h = (h a).from w

  Ends-process :
      (k : Kernel.Kernel) (token : Option String) (dry : Bool)
      → Leaves Consistent (Kernel.process env k action token dry)
  unfolding Kernel.process Kernel.govern
  Ends-process k token dry = Leaves-bind _ _ λ n.
      Leaves-if (not (is_nil (scan env action.payload))) _ _
        (λ _. Ends-block_injection (scan env action.payload))
        λ _. Leaves-then {P = ConsistentStage} _ _ Ends-resolve_policy λ policy w q.
          Ends-stage policy _ w q λ s. Leaves-run _ _ λ w1 r w2 e.
            (Leaves-if r.blocked _ _
                (λ _. Ends-block_action s token r (
                  returned w1 r
                    (evaluate_chain-Blocking env k.precedence action s token action.context)
                    (ap (λ (o : Result PrecedenceResult × World). o.0) e)))
                λ _.
                  Leaves-then {P = ConsistentStage} _ _ (Ends-enforce_spend k s token)
                    λ spend w3 q. Ends-stage spend _ w3 q λ _. Ends-decide k token dry s r).from
              w2

uncached :
    (action : Action) (w : World) (cached : Option Decision)
    → truthy action.idempotency_key ≡ false
    → (Kernel.find_cached action w).0 ≡ ok cached
    → cached ≡ none
unfolding Kernel.find_cached
uncached action w cached keyless e = ground (
  arith,
  sym (
        ap (λ (m : App (Option Decision)). (m w).0)
          (if_false (truthy action.idempotency_key) _ _ keyless))
      ∙ e,
)

Ends-handle :
    (env : Env) (k : Kernel.Kernel) (action : Action) (token : Option String) (dry : Bool)
    → truthy action.idempotency_key ≡ false
    → Leaves Consistent (Kernel.handle env k action token dry)
unfolding Kernel.handle
Ends-handle env k action token dry keyless = Leaves-run _ _ λ w cached w1 e.
    (Leaves-option cached _ _
        (λ _. Leaves-bind _ _ λ inserted.
          Leaves-if (not inserted && truthy action.idempotency_key) _ _
            (λ t. false_elim (sym keyless ∙ and_right (not inserted) _ t))
            λ _. Ends-process env action k token dry)
        λ d q. absurd (
          ground (
            arith,
            sym (
                  uncached action w cached keyless
                    (ap (λ (o : Result (Option Decision) × World). o.0) e))
                ∙ q,
          ))).from
      w1

left_ok :
    {A : Type 0} (Q : A → World → Type 0) (o : Result A × World) (a : A)
    → Left Q o
    → o.0 ≡ ok a
    → Q a o.1
left_ok Q (ok b, w) a h e = subst (λ c. Q c w) (ground (arith, e)) h
left_ok Q (raised x, w) a h e = absurd (ground (arith, e))

-- A run for an action without an idempotency key that returns answers with a decision of a final
-- status, never ALLOWED, which is a row of the decisions table in the state that the run leaves,
-- and the action was executed exactly where the status says EXECUTED.
pub handle-Consistent :
    (env : Env) (k : Kernel.Kernel) (action : Action) (token : Option String) (dry : Bool)
    (w : World) (r : KernelResult)
    → truthy action.idempotency_key ≡ false
    → (Kernel.handle env k action token dry w).0 ≡ ok r
    → Consistent r (Kernel.handle env k action token dry w).1
handle-Consistent env k action token dry w r keyless =
    left_ok Consistent (Kernel.handle env k action token dry w) r
      ((Ends-handle env k action token dry keyless).from w)
