-- ===== src/Capabilities.antt =====
-- apps/runtime/citadel/services/capability_service.py: validation, consumption and scope of
-- capability tokens.
pub mod Consumption
use ledger_sdk.Prelude.{
  ℕ, ◌-◌, String, Bool, true, false, not, ◌&&◌, Option, none, some, ◌==◌, ltb, leb, starts_with,
  ends_with, drop_last, if◌then◌else◌, ◌<>◌,
}
use ledger_sdk.Values.{end}
use ledger_sdk.Exec.{Exec, Result, ok, pure, ◌>>=◌}
use ledger_sdk.Actions.{Action}
use ledger_sdk.Db.{App, Env, CapabilityRow}
use ledger_sdk.Repository.{get_capability, consume_capability, ConsumeResult}

pub record CapabilityCheck : Type 0 where
  pub valid : Bool
  pub reason : Option String
  pub remaining_uses : ℕ
  pub scope : Option String

abbrev invalid : String → CapabilityCheck
invalid r = record { valid = false; reason = some r; remaining_uses = 0; scope = none }

-- `prefix:*` covers the actions below `prefix.`.
unfoldable pub action_in_scope : String → String → Bool
action_in_scope scope name =
    if scope == "*"
    then true
    else if ends_with scope ":*"
    then starts_with name (drop_last 2 scope <> ".")
    else name == scope

abbrev pub resource_in_scope : String → String → Bool
resource_in_scope scope resource = if scope == "*" then true else scope == resource

unfoldable pub matches_scope : CapabilityRow → Action → Bool
unfolding action_in_scope
matches_scope cap action =
    action_in_scope cap.action_scope action.action_name
    && resource_in_scope cap.resource_scope action.resource

unfoldable pub validate_row : Env → Action → CapabilityRow → CapabilityCheck
unfolding matches_scope
validate_row env action cap =
    if not (cap.actor_id == action.actor_id)
    then invalid "Capability not issued to this actor"
    else if cap.is_revoked
    then invalid "Capability revoked"
    else if ltb cap.expires_at env.now
    then invalid "Capability expired"
    else if leb cap.max_uses cap.uses
    then invalid "Capability exhausted"
    else if not (matches_scope cap action)
    then invalid "Capability scope doesn't match action"
    else record {
      valid = true;
      reason = some "Valid";
      remaining_uses = cap.max_uses - cap.uses;
      scope = some (cap.action_scope <> ":" <> cap.resource_scope);
    }

abbrev or_not_found : (CapabilityRow → CapabilityCheck) → Option CapabilityRow → CapabilityCheck
or_not_found f none = invalid "Capability not found"
or_not_found f (some cap) = f cap

unfoldable pub validate : Env → String → Action → App CapabilityCheck
unfolding validate_row
validate env token action = do
  cap ← get_capability token action.tenant_id
  pure (or_not_found (validate_row env action) cap)

abbrev consumed : ConsumeResult → CapabilityCheck
consumed r =
    if r.success
    then record {
      valid = true;
      reason = some "Consumed successfully";
      remaining_uses = r.remaining_uses;
      scope = none;
    }
    else record { valid = false; reason = r.error; remaining_uses = 0; scope = none }

unfoldable pub consume : Env → String → Action → App CapabilityCheck
consume env token action = do r ← consume_capability env token action.actor_id; pure (consumed r)

-- Uses may exceed the maximum only in a row that the service did not write; the source's answer is
-- then negative, the model's is 0.
unfoldable pub get_remaining_uses : String → Option String → App ℕ
get_remaining_uses token tid = do
  cap ← get_capability token tid
  pure (elim cap [ none ↦ 0 | some c ↦ c.max_uses - c.uses ])

unfoldable pub is_valid_for_action : Env → String → String → String → Option String → App Bool
unfolding matches_scope
is_valid_for_action env token action_name resource tid = do
  cap ← get_capability token tid
  pure (elim cap [
    | none ↦ false
    | some c ↦
        action_in_scope c.action_scope action_name && resource_in_scope c.resource_scope resource
  ])
