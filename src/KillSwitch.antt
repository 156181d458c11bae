-- ===== src/KillSwitch.antt =====
-- apps/runtime/citadel/tokens/kill_switch.py: the in-memory switches of four scopes. The dictionary
-- of active switches is keyed by the scope and the target, which is what the text
-- "scope.value:target_id" stands for: no scope value holds a colon.
pub mod Laws
use ledger_sdk.Prelude.{
  ℕ, suc, String, Bool, true, false, not, ◌&&◌, Option, none, some, List, [], ◌∷◌, ◌==◌, truthy,
  is_some, if◌then◌else◌, ◌<>◌,
}
use ledger_sdk.Values.{Fields, text, number, field, end}
use ledger_sdk.GovernanceDecision.{KillSwitchScope, request, agent, tenant, everywhere}
use ledger_sdk.Prelude.{pos}

pub record KillSwitchRecord : Type 0 where
  pub record_id : String
  pub scope : KillSwitchScope
  pub target_id : String
  pub triggered_by : String
  pub triggered_by_type : String
  pub reason : String
  pub timestamp : ℕ
  pub actions_stopped : ℕ
  pub cascade_depth : ℕ

pub record KillSwitchCheck : Type 0 where
  pub active : Bool
  pub reason : String
  pub switch : Option KillSwitchRecord

-- An event that `audit.record` receives.
pub record AuditRecord : Type 0 where
  pub event_type : String
  pub tenant_id : String
  pub actor_id : String
  pub scope : KillSwitchScope
  pub target_id : String
  pub reason : String

pub record KillSwitch : Type 0 where
  pub switches : List (KillSwitchScope × String × KillSwitchRecord)
  pub audit : List AuditRecord
  pub drawn : ℕ

abbrev pub same_scope : KillSwitchScope → KillSwitchScope → Bool
same_scope request request = true
same_scope agent agent = true
same_scope tenant tenant = true
same_scope everywhere everywhere = true
same_scope _ _ = false

abbrev Switches : Type 0
Switches = List (KillSwitchScope × String × KillSwitchRecord)

-- `self._active.get(key)`
unfoldable pub lookup : KillSwitchScope → String → Switches → Option KillSwitchRecord
lookup s t [] = none
lookup s t ((s', t', r) ∷ m) = if same_scope s s' && t == t' then some r else lookup s t m

-- `self._active[key] = record`
unfoldable pub insert : KillSwitchScope → String → KillSwitchRecord → Switches → Switches
insert s t r [] = (s, t, r) ∷ []
insert s t r ((s', t', r') ∷ m) =
    if same_scope s s' && t == t' then (s, t, r) ∷ m else (s', t', r') ∷ insert s t r m

-- `del self._active[key]`
unfoldable pub remove : KillSwitchScope → String → Switches → Switches
remove s t [] = []
remove s t ((s', t', r') ∷ m) =
    let rest = remove s t m in if same_scope s s' && t == t' then rest else (s', t', r') ∷ rest

-- The tenant of an audit event.
abbrev audit_tenant : KillSwitchScope → String → String
audit_tenant tenant t = t
audit_tenant everywhere t = t
audit_tenant _ t = "system"

unfoldable pub trigger :
    (ℕ → String)
    → ℕ
    → KillSwitchScope
    → String
    → String
    → String
    → String
    → KillSwitch
    → KillSwitchRecord × KillSwitch
unfolding insert
trigger uuid4 now scope target by by_type reason k =
    let entry : KillSwitchRecord = record {
      record_id = "ks_" <> uuid4 k.drawn;
      scope = scope;
      target_id = target;
      triggered_by = by;
      triggered_by_type = by_type;
      reason = reason;
      timestamp = now;
      actions_stopped = 0;
      cascade_depth = 0;
    } in
    (
      entry,
      record {
        switches = insert scope target entry k.switches;
        audit =
            record {
              event_type = "kill_switch.triggered";
              tenant_id = audit_tenant scope target;
              actor_id = by;
              scope = scope;
              target_id = target;
              reason = reason;
            }
            ∷ k.audit;
        drawn = suc k.drawn;
      },
    )

unfoldable pub release : KillSwitchScope → String → String → String → KillSwitch → Bool × KillSwitch
unfolding lookup remove
release scope target by reason k =
    if is_some (lookup scope target k.switches)
    then (
      true,
      record k {
        switches = remove scope target k.switches;
        audit =
            record {
              event_type = "kill_switch.released";
              tenant_id = audit_tenant scope target;
              actor_id = by;
              scope = scope;
              target_id = target;
              reason = reason;
            }
            ∷ k.audit;
      },
    )
    else (false, k)

abbrev pub inactive : KillSwitchCheck
inactive = record { active = false; reason = ""; switch = none }

abbrev hit : String → Option KillSwitchRecord → KillSwitchCheck → KillSwitchCheck
hit why none next = next
hit why (some r) next = record { active = true; reason = why; switch = some r }

-- The request's own switch is looked up only where there is a request id.
abbrev request_switch : Option String → Switches → Option KillSwitchRecord
request_switch none m = none
request_switch (some r) m = if truthy (some r) then lookup request r m else none

-- A tenant of None is printed into the key as "None".
abbrev tenant_switch : Option String → Switches → Option KillSwitchRecord
tenant_switch none m = lookup tenant "None" m
tenant_switch (some t) m = lookup tenant t m

-- From the most specific scope to the global one.
unfoldable pub check : KillSwitch → String → Option String → Option String → KillSwitchCheck
unfolding lookup
check k actor tid rid = hit "Request kill switch active" (request_switch rid k.switches) (
    hit "Agent kill switch active" (lookup agent actor k.switches) (
      hit "Tenant kill switch active" (tenant_switch tid k.switches)
        (hit "Global kill switch active" (lookup everywhere "*" k.switches) inactive)))

unfoldable pub check_decision : KillSwitch → String → String → String → KillSwitchCheck
unfolding check
check_decision k decision_id actor tid = check k actor (some tid) (some decision_id)
