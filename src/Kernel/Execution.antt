-- ===== src/Kernel/Execution.antt =====
-- apps/runtime/citadel/execution/kernel.py: what has passed when an action is executed.
use ledger_sdk.Prelude.{
  ℕ, if◌then◌else◌, zero, suc, String, Bool, true, false, not, ◌&&◌, List, Option, none, some, ◌≡◌,
  ◌⊎◌, inl, inr, truthy, is_nil, refl, sym, ◌∙◌, false_elim, true_by_not, false_by_not, ap,
}
use ledger_sdk.Values.{Value}
use ledger_sdk.Exec.{Exn, Result, ok, raised, pure, ◌>>=◌}
use ledger_sdk.Exec.Returns.{
  Returns, Returns-pure, Returns-raise, Returns-if, Returns-bind, Returns-option, returned, Holds,
}
use ledger_sdk.Exec.Post.{post_bind, post_if, post_try}
use mathlib.Core.Path.{subst}
use ledger_sdk.Repository.{save_action}
use ledger_sdk.AuditService.{action_received, policy_evaluated}
use ledger_sdk.Actions.{Action, Decision, KernelResult, executed}
use ledger_sdk.Budgets.{BudgetDecision}
use ledger_sdk.Db.{Env, App, World}
use ledger_sdk.PolicyResolver.{PolicySnapshot, resolve}
use ledger_sdk.Precedence.{PrecedenceResult, evaluate_chain}
use ledger_sdk.Approvals.{check_required}
use ledger_sdk.PromptInjection.{scan}
use ledger_sdk.Kernel
use ledger_sdk.Kernel.Terminal.{terminal-status}

-- A budget decision, where there is one, stops the action.
abbrev pub stops : Option BudgetDecision → Bool
stops none = false
stops (some b) = Kernel.over_budget b

-- The spend check is off, or finds from the state no budget that blocks.
pub SpendPassed : Env → Kernel.Kernel → Action → World → Type 0
SpendPassed env k action w =
    (k.has_cost_service && truthy action.tenant_id ≡ false)
    ⊎ ((d : Option BudgetDecision) × ((Kernel.check_spend_budget env action w).0 ≡ ok d)
        × (stops d ≡ false))

-- From the first state the action has no earlier decision, is stored, and its receipt is logged;
-- that leads to the second state.
pub Received : Env → Action → World → World → Type 0
Received env action w w1 =
    (v : World) × (u : World) × (inserted : Bool) × (Kernel.find_cached action w ≡ (ok none, v))
    × (save_action action v ≡ (ok inserted, u))
    × ((id : ℕ) × (action_received env action u ≡ (ok id, w1)))

-- The resolver gives the snapshot from the first state; with its audit that leads to the second.
pub ResolvedBy : Env → Action → Option PolicySnapshot → World → World → Type 0
ResolvedBy env action s w1 w3 =
    (w2 : World) × (resolve env action w1 ≡ (ok s, w2))
    × ((id : ℕ) × (policy_evaluated env action s w2 ≡ (ok id, w3)))

-- The checks, each in the state that the one before it left: the snapshot is resolved, the
-- precedence chain does not block with it, the spend check passes, and no approval is required
-- under it.
pub Checked : Env → Kernel.Kernel → Action → Option String → World → Type 0
unfolding SpendPassed ResolvedBy
Checked env k action token w1 =
    (s : Option PolicySnapshot) × (w3 : World) × ResolvedBy env action s w1 w3
    × ((r : PrecedenceResult) × (w4 : World) × (evaluate_chain env k.precedence action s token
            action.context w3
          ≡ (ok r, w4))
        × (r.blocked ≡ false)
        × SpendPassed env k action w4)
    × ((check_required action s none none).required ≡ false)

-- From the state, the action passes all the checks of its lifecycle.
pub Permitted : Env → Kernel.Kernel → Action → Option String → Bool → World → Type 0
unfolding Received Checked
Permitted env k action token dry w =
    (is_nil (scan env action.payload) ≡ true)
    × (dry ≡ false)
    × ((w1 : World) × Received env action w w1 × Checked env k action token w1)

-- The executor returned the result, and the decision says so.
pub RanWith : Kernel.Kernel → Action → KernelResult → Type 0
RanWith k action r =
    (v : Value) × (k.executor action ≡ ok v)
    × (r.result ≡ some v)
    × ((d : Decision) × (r.decision ≡ some d) × (d.status ≡ executed))

module _ (env : Env) (k : Kernel.Kernel) (action : Action) (token : Option String) (dry : Bool)
    (w0 : World) where
  Good : KernelResult → Type 0
  Good r = r.was_executed ≡ true → Permitted env k action token dry w0 × RanWith k action r

  Good-answer :
      (d : Option Decision) (v : Option Value) (e : Option String)
      → Good (Kernel.answer action d false v e)
  unfolding Good
  Good-answer d v e h = false_elim h

  -- A stage that ends the lifecycle has not executed.
  GoodStage : {A : Type 0} → Kernel.Stage A → Type 0
  unfolding Good
  GoodStage (Kernel.go_on a) = Unit
  GoodStage (Kernel.stop r) = r.was_executed ≡ false

  ends :
      {A : Type 0} (m : App A) (f : A → KernelResult)
      → ((a : A) → (f a).was_executed ≡ false)
      → Returns Good (m >>= λ a. pure (f a))
  unfolding Good
  ends m f h = Returns-bind m _ λ s a e. Returns-pure _ λ t. false_elim (sym (h a) ∙ t)

  -- The methods that end by not executing return good results.
  Good-return_cached : (d : Decision) → Returns Good (Kernel.return_cached env action d)
  unfolding Kernel.return_cached
  Good-return_cached d = ends _ _ λ _. refl

  Good-poll : (rounds : ℕ) → Returns Good (Kernel.poll env action rounds)
  unfolding Kernel.poll
  Good-poll zero = Returns-pure _ (Good-answer _ _ _)
  Good-poll (suc rounds) = Returns-bind _ _ λ s cached e.
      Returns-option cached _ _ (λ _. Returns-bind _ _ λ s u e. Good-poll rounds)
        (λ d _. Good-return_cached d)

  Good-block_injection : (m : List String) → Returns Good (Kernel.block_injection env action m)
  unfolding Kernel.block_injection
  Good-block_injection m = Returns-bind _ _ λ s d e. ends _ _ λ _. refl

  Good-block_action :
      (s : Option PolicySnapshot) (r : PrecedenceResult)
      → Returns Good (Kernel.block_action env action s token r)
  unfolding Kernel.block_action
  Good-block_action s r =
      Returns-option r.status _ _ (λ _. Returns-raise _ _) λ status e. ends _ _ λ _. refl

  -- Without a snapshot the lifecycle ends.
  Stopped : Kernel.Stage (Option PolicySnapshot) → Type 0
  Stopped (Kernel.go_on s) = ⊥
  Stopped (Kernel.stop r) = r.was_executed ≡ false

  Stopped-policy_failed : (e : Exn) → Returns Stopped (Kernel.policy_failed env action e)
  unfolding Kernel.policy_failed Stopped
  Stopped-policy_failed e =
      Returns-if (not (Kernel.is_service_error e.kind)) _ _ (λ _. Returns-raise _ _)
        λ _. Returns-bind _ _ λ s u h. Returns-bind _ _ λ s d h. Returns-pure _ refl

  -- What the stage that resolves the policy gives from a state.
  Resolves : World → Result (Kernel.Stage (Option PolicySnapshot)) × World → Type 0
  Resolves w (ok (Kernel.go_on s), w3) = ResolvedBy env action s w w3
  Resolves w (ok (Kernel.stop r), w3) = r.was_executed ≡ false
  Resolves w (raised e, w3) = Unit

  Resolves-audited_policy : (w : World) → Resolves w (Kernel.audited_policy env action w)
  unfolding Kernel.audited_policy Resolves ResolvedBy
  Resolves-audited_policy w =
      post_bind (Resolves w) (resolve env action) _ w
        (λ s w2 e.
          post_bind (Resolves w) (policy_evaluated env action s) _ w2
            (λ id w3 e'. (w2, e, (id, e'))) λ x w3 e'. tt)
        λ x w2 e. tt

  Resolves-Stopped :
      (w : World) (o : Result (Kernel.Stage (Option PolicySnapshot)) × World)
      → Holds Stopped o.0
      → Resolves w o
  unfolding Stopped Resolves
  Resolves-Stopped w (ok (Kernel.go_on s), w3) h = absurd h
  Resolves-Stopped w (ok (Kernel.stop r), w3) h = h
  Resolves-Stopped w (raised e, w3) h = tt

  Resolves-resolve_policy : (w : World) → Resolves w (Kernel.resolve_policy env action w)
  unfolding Kernel.resolve_policy
  Resolves-resolve_policy w =
      post_try (Resolves w) (Kernel.audited_policy env action) _ w
        (λ stage w3 e. subst (Resolves w) e (Resolves-audited_policy w))
        λ x w3 e.
          Resolves-Stopped w (Kernel.policy_failed env action x w3)
            ((Stopped-policy_failed x).from w3)

  Good-request_approval :
      (s : Option PolicySnapshot) (c : _) → Returns Good (Kernel.request_approval env action s c)
  unfolding Kernel.request_approval
  Good-request_approval s c =
      Returns-bind _ _ λ w id e. Returns-bind _ _ λ w u e. ends _ _ λ _. refl

  Good-finish_dry_run :
      (s : Option PolicySnapshot) (r : PrecedenceResult)
      → Returns Good (Kernel.finish_dry_run env action s token r)
  unfolding Kernel.finish_dry_run
  Good-finish_dry_run s r = ends _ _ λ _. refl

  -- The stage goes on only when the spend check has passed.
  GoodSpend : World → Kernel.Stage Unit → Type 0
  unfolding SpendPassed
  GoodSpend w (Kernel.go_on _) = SpendPassed env k action w
  GoodSpend w (Kernel.stop r) = r.was_executed ≡ false

  Good-block_spend :
      (s : Option PolicySnapshot) (b : BudgetDecision)
      → (w : World) → (Kernel.check_spend_budget env action w).0 ≡ ok (some b)
      → Returns (GoodSpend w) (Kernel.block_spend env action s token b)
  unfolding Kernel.block_spend GoodSpend SpendPassed
  Good-block_spend s b w e =
      Returns-if (not (Kernel.over_budget b)) _ _
        (λ h. Returns-pure _ (inr (some b, e, false_by_not (Kernel.over_budget b) h)))
        λ _. Returns-bind _ _ λ s u h. Returns-bind _ _ λ s d h. Returns-pure _ refl

  Good-enforce_spend :
      (s : Option PolicySnapshot) (w : World)
      → Holds (GoodSpend w) (Kernel.enforce_spend env k action s token w).0
  unfolding Kernel.enforce_spend GoodSpend SpendPassed
  Good-enforce_spend s w =
      post_if Here (not (k.has_cost_service && truthy action.tenant_id)) _ _ w
        (λ h. inl (false_by_not _ h))
        λ _.
          post_bind Here (Kernel.check_spend_budget env action) _ w
            (λ d w' e.
              by_decision d w' (ap (λ (o : Result (Option BudgetDecision) × World). o.0) e))
            λ x w' e. tt
    where
      Here : Result (Kernel.Stage Unit) × World → Type 0
      Here o = Holds (GoodSpend w) o.0

      by_decision :
          (d : Option BudgetDecision) (w' : World)
          → (Kernel.check_spend_budget env action w).0 ≡ ok d
          → let stage : App (Kernel.Stage Unit) = elim d [
            | none ↦ pure (Kernel.go_on tt)
            | some b ↦ Kernel.block_spend env action s token b
          ] in
            Here (stage w')
      by_decision none w' e = inr (none, e, refl)
      by_decision (some b) w' e = (Good-block_spend s b w e).from w'

  module _ (clean : is_nil (scan env action.payload) ≡ true) (w1 : World)
      (arrived : Received env action w0 w1) (s : Option PolicySnapshot)
      (checked : (check_required action s none none).required ≡ false
        → Checked env k action token w1) where
    Good-after_run :
        (details : Kernel.Details)
        → dry ≡ false
        → (check_required action s none none).required ≡ false
        → (r : Result Value) → k.executor action ≡ r
        → Returns Good (Kernel.after_run env action details r)
    unfolding Kernel.after_run Kernel.succeeded Kernel.failed Good Permitted RanWith
        Kernel.terminal_decision
    Good-after_run details d c (ok v) e = Returns-bind _ _ λ w decision q.
        Returns-bind _ _ λ w u e'. Returns-bind _ _ λ w u e'. Returns-pure _ λ _. (
          (clean, d, (w1, arrived, checked c)),
          (
            v,
            e,
            refl,
            (decision, refl, returned _ decision (terminal-status env action _ _ _ _) q),
          ),
        )
    Good-after_run details d c (raised x) e =
        Returns-if (Kernel.is_run_error x.kind) _ _
          (λ _. Returns-bind _ _ λ w d e. Returns-bind _ _ λ w u e. ends _ _ λ _. refl)
          λ _. Returns-raise _ _

    Good-decide : (r : PrecedenceResult) → Returns Good (Kernel.decide env k action token dry s r)
    unfolding Kernel.decide Kernel.run_action
    Good-decide r =
        Returns-if (check_required action s none none).required _ _ (λ _. Good-request_approval s _)
          λ c.
            Returns-if dry _ _ (λ _. Good-finish_dry_run s r)
              λ d. Good-after_run _ d c (k.executor action) refl

  GoodStage→Good : (r : KernelResult) → r.was_executed ≡ false → Good r
  unfolding Good
  GoodStage→Good r e h = false_elim (sym e ∙ h)

  -- The result has the property in this outcome.
  Outcome : Result KernelResult × World → Type 0
  Outcome o = Holds Good o.0

  Good-govern :
      (clean : is_nil (scan env action.payload) ≡ true) (w1 : World)
      (arrived : Received env action w0 w1) (s : Option PolicySnapshot) (w3 : World)
      → ResolvedBy env action s w1 w3
      → Outcome (Kernel.govern env k action token dry s w3)
  unfolding Kernel.govern GoodSpend Checked Outcome
  Good-govern clean w1 arrived s w3 resolved =
      post_bind Outcome (evaluate_chain env k.precedence action s token action.context) _ w3
        (λ r w4 e.
          post_if Outcome r.blocked _ _ w4 (λ _. (Good-block_action s r).from w4)
            λ free.
              post_bind Outcome (Kernel.enforce_spend env k action s token) _ w4
                (λ spend w5 q. after r w4 e free spend w5 (
                  subst (λ (o : Result (Kernel.Stage Unit) × World). Holds (GoodSpend w4) o.0) q
                    (Good-enforce_spend s w4)))
                λ x w5 q. tt)
        λ x w4 e. tt
    where
      after :
          (r : PrecedenceResult) (w4 : World)
          → evaluate_chain env k.precedence action s token action.context w3 ≡ (ok r, w4)
          → r.blocked ≡ false
          → (spend : Kernel.Stage Unit) (w5 : World) → GoodSpend w4 spend
          → let rest : App KernelResult = elim spend [
            | Kernel.stop result ↦ pure result
            | Kernel.go_on _ ↦ Kernel.decide env k action token dry s r
          ] in
            Outcome (rest w5)
      after r w4 e free (Kernel.stop result) w5 g = GoodStage→Good result g
      after r w4 e free (Kernel.go_on _) w5 g =
          (Good-decide clean w1 arrived s (λ c. (s, w3, resolved, (r, w4, e, free, g), c)) r).from
            w5

  Good-process :
      (v u : World) (inserted : Bool)
      → Kernel.find_cached action w0 ≡ (ok none, v)
      → save_action action v ≡ (ok inserted, u)
      → Outcome (Kernel.process env k action token dry u)
  unfolding Kernel.process Outcome Received Resolves
  Good-process v u inserted fresh_key saved =
      post_bind Outcome (action_received env action) _ u
        (λ n w1 e.
          let arrived : Received env action w0 w1 = (v, u, inserted, fresh_key, saved, (n, e)) in
          post_if Outcome (not (is_nil (scan env action.payload))) _ _ w1
            (λ _. (Good-block_injection (scan env action.payload)).from w1)
            λ clean.
              post_bind Outcome (Kernel.resolve_policy env action) _ w1
                (λ policy w3 q.
                  after w1 arrived policy w3 (subst (Resolves w1) q (Resolves-resolve_policy w1))
                    (true_by_not _ clean))
                λ x w3 q. tt)
        λ x w1 e. tt
    where
      after :
          (w1 : World)
          → Received env action w0 w1
          → (policy : Kernel.Stage (Option PolicySnapshot)) (w3 : World)
          → Resolves w1 (ok policy, w3)
          → is_nil (scan env action.payload) ≡ true
          → let rest : App KernelResult = elim policy [
            | Kernel.stop result ↦ pure result
            | Kernel.go_on s ↦ Kernel.govern env k action token dry s
          ] in
            Outcome (rest w3)
      after w1 arrived (Kernel.stop result) w3 g c = GoodStage→Good result g
      after w1 arrived (Kernel.go_on s) w3 g c = Good-govern c w1 arrived s w3 g

  Good-handle : Outcome (Kernel.handle env k action token dry w0)
  unfolding Kernel.handle Outcome
  Good-handle =
      post_bind Outcome (Kernel.find_cached action) _ w0 (λ cached v e. by_cached cached v e)
        λ x v e. tt
    where
      by_cached :
          (cached : Option Decision) (v : World)
          → Kernel.find_cached action w0 ≡ (ok cached, v)
          → let rest : App KernelResult = elim cached [
            | some d ↦ Kernel.return_cached env action d
            | none ↦ do
              inserted ← save_action action
              if not inserted && truthy action.idempotency_key
                  then Kernel.poll env action 50
                  else Kernel.process env k action token dry
          ] in
            Outcome (rest v)
      by_cached (some d) v e = (Good-return_cached d).from v
      by_cached none v e =
          post_bind Outcome (save_action action) _ v
            (λ inserted u q.
              post_if Outcome (not inserted && truthy action.idempotency_key) _ _ u
                (λ _. (Good-poll 50).from u) λ _. Good-process v u inserted e q)
            λ x u q. tt

-- An action that the kernel executed was not a dry run, had a clean payload and no earlier
-- decision under its key; the resolver gave a policy snapshot for it in the state that its receipt
-- left, the precedence chain did not block it with that snapshot, the spend check did not block
-- it, and it needed no approval under that snapshot, each asked in the state that the one before
-- it left; the executor returned the result, and the decision says that it was executed.
pub handle-Permitted :
    (env : Env) (k : Kernel.Kernel) (action : Action) (token : Option String) (dry : Bool)
    (w : World) (r : KernelResult)
    → (Kernel.handle env k action token dry w).0 ≡ ok r
    → r.was_executed ≡ true
    → Permitted env k action token dry w × RanWith k action r
unfolding Good Outcome
handle-Permitted env k action token dry w r e =
    subst (Holds (Good env k action token dry w)) e (Good-handle env k action token dry w)
