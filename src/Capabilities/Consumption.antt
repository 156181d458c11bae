-- ===== src/Capabilities/Consumption.antt =====
-- apps/runtime/citadel/services/capability_service.py: the validation of a capability against the
-- condition under which it can be consumed.
use ledger_sdk.Prelude.{true, ◌≡◌, ◌↔◌, arith, eq_iff}
use ledger_sdk.Actions.{Action}
use ledger_sdk.Db.{Env, CapabilityRow}
use ledger_sdk.Repository.Consume.{MayUse}
use ledger_sdk.Capabilities.{validate_row, matches_scope}

-- A capability is valid for an action exactly where the actor of the action may use it now and its
-- scope matches the action: the condition under which its consumption succeeds, and the scope.
pub validate_row-valid :
    (env : Env) (action : Action) (c : CapabilityRow)
    → ((validate_row env action c).valid ≡ true)
      ↔ (MayUse env action.actor_id c × (matches_scope c action ≡ true))
unfolding validate_row MayUse
validate_row-valid env action c = (
  λ h. grind (arith, eq_iff c.actor_id action.actor_id),
  λ h. grind (arith, h.0.0, h.0.1, h.0.2, h.0.3, h.1, eq_iff c.actor_id action.actor_id),
)
