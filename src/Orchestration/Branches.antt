-- ===== src/Orchestration/Branches.antt =====
-- apps/runtime/citadel/execution/orchestration.py, gather: what the runs of the branches give.
use ledger_sdk.Prelude.{
  ℕ, suc, Bool, true, false, none, some, List, [], ◌∷◌, All, length, ◌≡◌, ◌⊎◌, inl, inr, Bool-cases,
  refl, ap, arith,
}
use mathlib.Core.Path.{subst}
use ledger_sdk.Exec.{Result, ok, raised, pure, try_except, ◌>>=◌, handle_with, continue}
use ledger_sdk.Exec.Returns.{
  Returns, Returns-bind, Returns-pure, Returns-option, Returns-raise, returned,
}
use ledger_sdk.Actions.{Action, Decision, KernelResult, KernelStatus}
use ledger_sdk.GovernanceDecision.{GovernanceDecision}
use ledger_sdk.Db.{Env, World}
use ledger_sdk.Kernel.{handle}
use ledger_sdk.Kernel.Terminal.{is_executed}
use ledger_sdk.Kernel.Execution.{Permitted}
use ledger_sdk.Orchestration.{OrchestrationRuntime}
use ledger_sdk.Orchestration.Lineage.{is_allowed, is_permitted}
use ledger_sdk.Orchestration.Governed.{governed_lem}
use ledger_sdk.Orchestration.Delegation.{attempt}
use ledger_sdk.Orchestration.Gather.{
  Branch, BranchResult, Shared, branch_action, branch_actions, dry_result, run_dry, run_all,
  branch_result, branch_results, run_branches,
}

abbrev Keyless : Action → Type 0
Keyless a = a.idempotency_key ≡ none

-- A branch that succeeded was executed by the kernel: a run of its action from some state gave the
-- decision, after all the checks from that state.
abbrev pub RanBranch : Env → OrchestrationRuntime → Bool → BranchResult → Type 0
RanBranch env rt dry b =
    (d : Decision) × (b.decision ≡ some d)
    × (is_executed d.status ≡ true)
    × ((w : World) × (g : KernelResult) × ((handle env rt.kernel b.action none dry w).0 ≡ ok g)
        × (g.decision ≡ some d)
        × Permitted env rt.kernel b.action none dry w)

-- As many results as branches, of which those that succeeded ran.
abbrev pub Sound : Env → OrchestrationRuntime → Bool → ℕ → List BranchResult → Type 0
Sound env rt dry n results =
    (length results ≡ n) × All (λ b. (b.success ≡ false) ⊎ RanBranch env rt dry b) results

pub branch_actions-Keyless :
    (env : Env) (parent : GovernanceDecision) (sh : Shared) (bs : List Branch)
    → Returns
        (λ actions. (length actions ≡ length bs) × All Keyless actions)
        (branch_actions env parent sh bs)
unfolding branch_actions branch_action
branch_actions-Keyless env parent sh [] = Returns-pure _ (refl, tt)
branch_actions-Keyless env parent sh (b ∷ bs) = Returns-bind _ _ λ w a e.
    Returns-bind _ _ λ w' rest e'.
      let (n, keyless) = returned w' rest (branch_actions-Keyless env parent sh bs) e' in
      Returns-pure (a ∷ rest) (ap suc n, (returned w a keyless_action e, keyless))
  where
    keyless_action : Returns Keyless (branch_action env parent sh b)
    keyless_action = Returns-bind _ _ λ w id e. Returns-pure _ refl

permitted_of_allowed : (s : KernelStatus) → is_allowed s ≡ true → is_permitted s ≡ true
permitted_of_allowed s h = ground (arith, h)

ok_injective : {A : Type 0} (a b : A) → ok a ≡ ok b → a ≡ b
ok_injective a b h = cc

module _ (env : Env) (rt : OrchestrationRuntime) where
  abbrev Settled : Bool → BranchResult → Type 0
  Settled dry b = (b.success ≡ false) ⊎ RanBranch env rt dry b

  allowed_never :
      (a : Action) (dry : Bool) (w : World) (g : KernelResult) (d : Decision)
      → Keyless a
      → (handle env rt.kernel a none dry w).0 ≡ ok g
      → g.decision ≡ some d
      → is_allowed d.status ≡ false
  allowed_never a dry w g d key e q = elim (Bool-cases (is_allowed d.status)) [
    | inr n ↦ n
    | inl y ↦ (governed_lem env rt.kernel a dry w g d key e q (permitted_of_allowed d.status y)).1
  ]

  Settled-dry :
      (i : ℕ) (a : Action) (w : World) (g : KernelResult)
      → Keyless a
      → (handle env rt.kernel a none true w).0 ≡ ok g
      → Returns (Settled true) (dry_result i a g)
  unfolding dry_result
  Settled-dry i a w g key e =
      Returns-option g.decision _ _ (λ _. Returns-raise _ _)
        λ d q. Returns-pure _ (inl (allowed_never a true w g d key e q))

  Sound-run_dry :
      (i : ℕ) (actions : List Action)
      → All Keyless actions
      → Returns (Sound env rt true (length actions)) (run_dry env rt i actions)
  unfolding run_dry
  Sound-run_dry i [] k = Returns-pure _ (refl, tt)
  Sound-run_dry i (a ∷ actions) (key, k) = Returns-bind _ _ λ w g e. Returns-bind _ _ λ w1 first e1.
      Returns-bind _ _ λ w2 rest e2.
        let (n, all) = returned w2 rest (Sound-run_dry (suc i) actions k) e2 in
        Returns-pure (first ∷ rest)
          (ap suc n, (returned w1 first (Settled-dry i a w g key e) e1, all))

  -- A run that returned is one of the kernel, from some state.
  abbrev FromKernel : Action × Result KernelResult → Type 0
  FromKernel (a, ok g) = (w : World) × ((handle env rt.kernel a none false w).0 ≡ ok g)
  FromKernel (a, raised e) = Unit

  abbrev Run : Action × Result KernelResult → Type 0
  Run (a, r) = Keyless a × FromKernel (a, r)

  from_attempt :
      (a : Action) (w : World) (r : Result KernelResult)
      → (attempt (handle env rt.kernel a none false) w).0 ≡ ok r
      → FromKernel (a, r)
  unfolding attempt try_except ◌>>=◌
  from_attempt a w r e = by_outcome (handle env rt.kernel a none false w) refl e
    where
      by_outcome :
          (o : Result KernelResult × World)
          → handle env rt.kernel a none false w ≡ o
          → (handle_with (λ x. pure (raised x)) (continue (λ g. pure (ok g)) o)).0 ≡ ok r
          → FromKernel (a, r)
      by_outcome (ok g, s) q h =
          subst (λ r. FromKernel (a, r)) (ok_injective (ok g) r h)
            (w, ap (λ (o : Result KernelResult × World). o.0) q)
      by_outcome (raised x, s) q h = subst (λ r. FromKernel (a, r)) (ok_injective (raised x) r h) tt

  Runs-run_all :
      (actions : List Action)
      → All Keyless actions
      → Returns (λ runs. (length runs ≡ length actions) × All Run runs) (run_all env rt actions)
  unfolding run_all
  Runs-run_all [] k = Returns-pure _ (refl, tt)
  Runs-run_all (a ∷ actions) (key, k) = Returns-bind _ _ λ w g e. Returns-bind _ _ λ w1 rest e1.
      let (n, all) = returned w1 rest (Runs-run_all actions k) e1 in
      Returns-pure ((a, g) ∷ rest) (ap suc n, ((key, from_attempt a w g e), all))

  Settled-branch_result :
      (i : ℕ) (a : Action) (r : Result KernelResult)
      → Run (a, r)
      → Returns (Settled false) (branch_result i a r)
  unfolding branch_result
  Settled-branch_result i a (raised e) run = Returns-pure _ (inl refl)
  Settled-branch_result i a (ok g) (key, (w, e)) =
      Returns-option g.decision _ _ (λ _. Returns-raise _ _) λ d q. Returns-pure _ (by_status d q)
    where
      by_status :
          (d : Decision)
          → g.decision ≡ some d
          → Settled false (record {
            branch_index = i;
            success = is_permitted d.status;
            action = a;
            decision = some d;
            result = g.result;
            error = g.error;
          })
      by_status d q = elim (Bool-cases (is_permitted d.status)) [
        | inr n ↦ inl n
        | inl p ↦
            let (x, other, permitted) = governed_lem env rt.kernel a false w g d key e q p in
            inr (d, refl, x, (w, g, e, q, permitted))
      ]

  Sound-branch_results :
      (i : ℕ) (runs : List (Action × Result KernelResult))
      → All Run runs
      → Returns (Sound env rt false (length runs)) (branch_results i runs)
  unfolding branch_results
  Sound-branch_results i [] k = Returns-pure _ (refl, tt)
  Sound-branch_results i ((a, r) ∷ runs) (run, k) = Returns-bind _ _ λ w first e.
      Returns-bind _ _ λ w1 rest e1.
        let (n, all) = returned w1 rest (Sound-branch_results (suc i) runs k) e1 in
        Returns-pure (first ∷ rest)
          (ap suc n, (returned w first (Settled-branch_result i a r run) e, all))

  pub Sound-run_branches :
      (dry : Bool) (actions : List Action)
      → All Keyless actions
      → Returns (Sound env rt dry (length actions)) (run_branches env rt dry actions)
  unfolding run_branches
  Sound-run_branches true actions k = Sound-run_dry 0 actions k
  Sound-run_branches false actions k = Returns-bind _ _ λ w runs e.
      let (n, all) = returned w runs (Runs-run_all actions k) e in
      subst (λ m. Returns (Sound env rt false m) (branch_results 0 runs)) n
        (Sound-branch_results 0 runs all)
