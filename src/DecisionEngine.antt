-- ===== src/DecisionEngine.antt =====
-- apps/runtime/citadel/tokens/decision_engine.py: the decision on an action, from the kill switch,
-- the trust engine and the policy backend. The last two are parameters, and may raise. A multiplier
-- is in hundredths, and a limit in the smallest unit, rounded towards zero as `int` does.
pub mod Tightening
use ledger_sdk.Prelude.{
  ℕ, suc, ◌+◌, ◌*◌, ◌/◌, String, Bool, true, false, not, ◌&&◌, Option, none, some, List, [], ◌∷◌,
  ◌==◌, ◌<>◌, ℤ, pos, negsuc, sub_ℕ, ltb, eqb, truthy, nonempty, or_else, find_by, if◌then◌else◌,
}
use ledger_sdk.Values.{Value, Fields, end, field}
use ledger_sdk.Exec.{
  Exec, Result, ok, raised, exn, value_error, ◌>>=◌, ◌>>◌, pure, raise, lift, gets, modify,
}
use ledger_sdk.GovernanceDecision.{
  GovernanceDecision, DecisionType, allow, deny, require_approval, is_allow, DecisionScope,
  empty_scope, new_decision, request,
}
use ledger_sdk.KillSwitch.{KillSwitch, KillSwitchCheck, check}

-- What the trust engine answers.
pub record TrustResult : Type 0 where
  pub max_spend_multiplier : ℕ
  pub rate_limit_multiplier : ℕ
  pub requires_approval : Bool
  pub action_blocked : Bool
  pub block_reason : Option String
  pub approval_reason : Option String
  pub trust_snapshot_id : Option String

-- What the policy backend answers; a key that is missing is an absent limit, the action itself, or
-- no resources.
pub record PolicyResult : Type 0 where
  pub allowed : Bool
  pub reason : String
  pub actions : Option (List String)
  pub resources : List String
  pub max_spend : Option ℤ
  pub rate_limit : Option ℤ
  pub constraints : Fields

pub record DecisionEngine : Type 0 where
  pub evaluate : String → Fields → Result PolicyResult
  pub kill_switch : KillSwitch
  pub trust_engine : Option (String → String → String → Fields → Result TrustResult)
  -- `trust_result.to_dict()`
  pub to_dict : TrustResult → Value
  pub default_ttl : ℕ

-- A row of the decisions table, as `_get_decision` reads it.
pub record DecisionRow : Type 0 where
  pub decision_id : String
  pub status : String
  pub winning_rule : String
  pub reason : String

pub record EngineEvent : Type 0 where
  pub event_type : String
  pub tenant_id : String
  pub actor_id : String
  pub decision_id : String
  pub decision_type : Option DecisionType
  pub action : Option String
  pub reason : String
  pub context : Fields

pub record EngineWorld : Type 0 where
  pub decisions : List DecisionRow
  pub records : List EngineEvent
  pub drawn : ℕ

-- The instant in seconds, and `uuid.uuid4().hex`.
pub record EngineEnv : Type 0 where
  pub now : ℕ
  pub hex : ℕ → String

unfoldable pub gen_id : EngineEnv → Exec EngineWorld String
unfolding ◌>>=◌
gen_id env = do
  n ← gets (λ (w : EngineWorld). w.drawn)
  modify (λ (w : EngineWorld). record w { drawn = suc n })
  pure ("gd_" <> env.hex n)

abbrev pub record_event : EngineEvent → Exec EngineWorld (Unit {0})
record_event e = modify (λ (w : EngineWorld). record w { records = e ∷ w.records })

abbrev pub audit_decision : GovernanceDecision → Fields → Exec EngineWorld (Unit {0})
audit_decision d context = record_event (record {
  event_type = "governance.decision";
  tenant_id = d.tenant_id;
  actor_id = d.actor_id;
  decision_id = d.decision_id;
  decision_type = some d.decision_type;
  action = some d.action;
  reason = d.reason;
  context = context;
})

abbrev audit_revocation : GovernanceDecision → String → Exec EngineWorld (Unit {0})
audit_revocation d reason = record_event (record {
  event_type = "governance.decision.revoked";
  tenant_id = d.tenant_id;
  actor_id = d.actor_id;
  decision_id = d.decision_id;
  decision_type = none;
  action = none;
  reason = reason;
  context = end;
})

-- `context[key] = value`
unfoldable pub put : String → Value → Fields → Fields
put key v end = field key v end
put key v (field k w rest) = if k == key then field k v rest else field k w (put key v rest)

abbrev pub policy_context : DecisionEngine → Fields → Option TrustResult → Fields
policy_context eng context none = context
policy_context eng context (some t) = put "trust" (eng.to_dict t) context

-- `int(limit * multiplier)`
abbrev pub scaled : ℕ → ℤ → ℤ
scaled m (pos n) = pos (n * m / 100)
scaled m (negsuc n) = sub_ℕ 0 (suc n * m / 100)

-- A multiplier below one reduces a limit; any other leaves it.
unfoldable pub reduced : ℕ → Option ℤ → Option ℤ
reduced m none = none
reduced m (some limit) = if ltb m 100 then some (scaled m limit) else some limit

unfoldable pub max_spend_of : Option TrustResult → PolicyResult → Option ℤ
unfolding reduced
max_spend_of none p = p.max_spend
max_spend_of (some t) p = reduced t.max_spend_multiplier p.max_spend

unfoldable pub rate_limit_of : Option TrustResult → PolicyResult → Option ℤ
unfolding reduced
rate_limit_of none p = p.rate_limit
rate_limit_of (some t) p = reduced t.rate_limit_multiplier p.rate_limit

unfoldable pub type_of : Option TrustResult → PolicyResult → DecisionType
type_of none p = if p.allowed then allow else deny
type_of (some t) p =
    if t.action_blocked
    then deny
    else if p.allowed
    then (if t.requires_approval then require_approval else allow)
    else deny

abbrev joined : String → String → String → String
joined reason label why = if nonempty reason then reason <> label <> why else why

unfoldable pub reason_of : Option TrustResult → PolicyResult → String
reason_of none p = p.reason
reason_of (some t) p =
    if truthy t.block_reason
    then joined p.reason " | Trust block: " (or_else t.block_reason "")
    else if truthy t.approval_reason
    then joined p.reason " | Trust approval required: " (or_else t.approval_reason "")
    else p.reason

abbrev pub scope_of : String → Option TrustResult → PolicyResult → DecisionScope
scope_of action trust p = record {
  actions = or_else p.actions (action ∷ []);
  resources = p.resources;
  max_spend = max_spend_of trust p;
  rate_limit = rate_limit_of trust p;
}

abbrev expiry_of : EngineEnv → DecisionEngine → DecisionType → Option ℕ
expiry_of env eng type =
    if is_allow type && not (eqb eng.default_ttl 0) then some (env.now + eng.default_ttl) else none

abbrev snapshot_of : Option TrustResult → Option String
snapshot_of none = none
snapshot_of (some t) = if truthy t.trust_snapshot_id then t.trust_snapshot_id else none

-- Steps 4 and 5: the trust result merged into the policy's.
unfoldable pub merged :
    EngineEnv
    → DecisionEngine
    → String
    → String
    → String
    → String
    → Option TrustResult
    → PolicyResult
    → GovernanceDecision
unfolding max_spend_of rate_limit_of type_of reason_of
merged env eng id action tenant actor trust p =
    record (new_decision id (type_of trust p) tenant actor action (scope_of action trust p)
      env.now) {
        constraints = p.constraints;
        expiry = expiry_of env eng (type_of trust p);
        kill_switch_scope = request;
        reason = reason_of trust p;
        trust_snapshot_id = snapshot_of trust;
      }

-- The decision while a switch is active.
abbrev pub stopped : EngineEnv → String → String → String → String → String → GovernanceDecision
stopped env id action tenant actor why =
    record (new_decision id deny tenant actor action empty_scope env.now) {
      reason = "Kill switch active: " <> why;
    }

abbrev pub asked : Result TrustResult → Result (Option TrustResult)
asked (ok t) = ok (some t)
asked (raised e) = raised e

abbrev pub trust_step :
    DecisionEngine → String → String → String → Fields → Result (Option TrustResult)
trust_step eng action actor tenant context = elim eng.trust_engine [
  | none ↦ ok none
  | some evaluate ↦ asked (evaluate action actor tenant context)
]

unfoldable pub decide_open :
    EngineEnv
    → DecisionEngine
    → String
    → Fields
    → String
    → String
    → String
    → Exec EngineWorld GovernanceDecision
unfolding merged put ◌>>=◌
decide_open env eng action context tenant actor id = do
  trust ← lift (trust_step eng action actor tenant context)
  p ← lift (eng.evaluate action (policy_context eng context trust))
  audit_decision (merged env eng id action tenant actor trust p) context
  pure (merged env eng id action tenant actor trust p)

unfoldable pub decide_with :
    EngineEnv
    → DecisionEngine
    → String
    → Fields
    → String
    → String
    → String
    → Exec EngineWorld GovernanceDecision
unfolding decide_open check ◌>>=◌
decide_with env eng action context tenant actor id =
    let found = check eng.kill_switch actor (some tenant) (some id) in
    if found.active
    then (audit_decision (stopped env id action tenant actor found.reason) context
        >> pure (stopped env id action tenant actor found.reason))
    else decide_open env eng action context tenant actor id

unfoldable pub decide :
    EngineEnv
    → DecisionEngine
    → String
    → Fields
    → String
    → String
    → Exec EngineWorld GovernanceDecision
unfolding gen_id decide_with ◌>>=◌
decide env eng action context tenant actor = do
  id ← gen_id env
  decide_with env eng action context tenant actor id

-- `_get_decision`
abbrev from_row : EngineEnv → DecisionRow → GovernanceDecision
from_row env r =
    record (new_decision r.decision_id (if r.status == "ALLOWED" then allow else deny) "" ""
      r.winning_rule empty_scope env.now) { reason = r.reason }

unfoldable pub revoke : EngineEnv → String → String → Exec EngineWorld GovernanceDecision
unfolding ◌>>=◌
revoke env id reason = do
  row ← gets (λ (w : EngineWorld). find_by (λ (r : DecisionRow). r.decision_id == id) w.decisions)
  elim row [
    | none ↦ raise value_error ("Decision " <> id <> " not found")
    | some r ↦ do
      audit_revocation
          (record (from_row env r) {
            decision_type = DecisionType.revoked;
            reason = "Revoked: " <> reason;
          })
          reason
      pure (record (from_row env r) {
        decision_type = DecisionType.revoked;
        reason = "Revoked: " <> reason;
      })
  ]
