-- ===== src/Orchestration.antt =====
-- apps/runtime/citadel/execution/orchestration.py: delegation, handoff, gather and introspection on
-- top of the kernel and the vault. The audit service is the one that api/dependencies.py passes,
-- services/audit_service.py: it has no `record` and no method of its own for these events, so that
-- what is blocked is not logged and what is done goes through `_log`.
pub mod Scope
pub mod Introspection
pub mod Lineage
pub mod Delegation
pub mod Handoff
pub mod Gather
pub mod Narrowing
pub mod Active
pub mod Governed
pub mod Delegated
pub mod HandedOver
pub mod Transfer
pub mod Branches
pub mod Gathered
use ledger_sdk.Prelude.{String, ℕ, true, Bool, Option, none, some, if◌then◌else◌}
use ledger_sdk.GovernanceDecision.{GovernanceDecision}
use ledger_sdk.KillSwitch.{KillSwitch, KillSwitchCheck, check}
use ledger_sdk.Kernel.{Kernel}

-- The collaborators of the constructor; the hash of a token's decision is the vault's parameter.
pub record OrchestrationRuntime : Type 0 where
  pub kernel : Kernel
  pub kill_switch : Option KillSwitch
  pub content_hash : GovernanceDecision → ℕ → String

abbrev reason_if_active : KillSwitchCheck → Option String
reason_if_active c = if c.active then some c.reason else none

-- The in-memory switch that stops the decision, if there is one.
unfoldable pub switch_reason : OrchestrationRuntime → GovernanceDecision → Option String
unfolding check
switch_reason rt d = elim rt.kill_switch [
  | none ↦ none
  | some k ↦ reason_if_active (check k d.actor_id (some d.tenant_id) (some d.decision_id))
]
