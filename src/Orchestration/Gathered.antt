-- ===== src/Orchestration/Gathered.antt =====
-- apps/runtime/citadel/execution/orchestration.py, gather: what holds when a gather succeeds.
use ledger_sdk.Prelude.{ℕ, Bool, true, false, some, List, All, length, plain_pattern, ◌≡◌, ◌⊎◌}
use ledger_sdk.Exec.{◌>>=◌}
use ledger_sdk.Exec.Returns.{Returns}
use ledger_sdk.GovernanceDecision.{GovernanceDecision, DecisionScope, covers}
use ledger_sdk.Db.{Env}
use ledger_sdk.Orchestration.{OrchestrationRuntime}
use ledger_sdk.Orchestration.Active.{Active}
use ledger_sdk.Orchestration.Gather.{Branch, GatherResult}
use ledger_sdk.Orchestration.Branches.{RanBranch}

-- The scope lets the action of a branch on its resource pass.
abbrev pub InScope : DecisionScope → Branch → Type 0
InScope s b = covers s b.action (some b.resource) ≡ true

-- One result for each branch, and each of them says that the kernel executed its action.
pub AllRan : Env → OrchestrationRuntime → Bool → ℕ → GatherResult → Type 0
AllRan env rt dry n r = (length r.branches ≡ n) × All (RanBranch env rt dry) r.branches

-- The action and the resource of the branch, which become patterns, have no bracket.
abbrev pub IsPlainBranch : Branch → Type 0
IsPlainBranch b = (plain_pattern b.action ≡ true) × (plain_pattern b.resource ≡ true)

-- What a gather under an active parent gives, if it succeeds.
abbrev Good :
    Env → OrchestrationRuntime → GovernanceDecision → List Branch → Bool → GatherResult → Type 0
Good env rt parent branches dry r =
    (r.success ≡ false)
    ⊎ (All (InScope parent.scope) branches × AllRan env rt dry (length branches) r)
