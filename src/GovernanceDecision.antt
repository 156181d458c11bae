-- ===== src/GovernanceDecision.antt =====
-- apps/runtime/citadel/tokens/governance_decision.py: the governance decision, its scope and its
-- state tests. `fnmatch` is the standard library's glob match, modelled for the patterns of `*` and
-- `?` (a bracket class is not).
mod Glob
pub mod Coverage
pub mod Prefix
use ledger_sdk.Prelude.{
  ℕ, String, ℤ, Bool, true, false, not, ◌&&◌, ◌||◌, Option, none, some, List, [], ◌∷◌, ◌==◌, ltb,
  any, is_nil, truthy, is_some, if◌then◌else◌,
}
use ledger_sdk.Values.{Fields, end}
unfoldable pub use Glob.{fnmatch}

pub data DecisionType : Type 0 where
  allow deny escalate require_approval pending revoked : DecisionType

unfoldable pub type_value : DecisionType → String
type_value allow = "allow"
type_value deny = "deny"
type_value escalate = "escalate"
type_value require_approval = "require_approval"
type_value pending = "pending"
type_value revoked = "revoked"

abbrev pub is_allow : DecisionType → Bool
is_allow allow = true
is_allow _ = false

abbrev pub is_revoked : DecisionType → Bool
is_revoked revoked = true
is_revoked _ = false

pub data KillSwitchScope : Type 0 where
  request agent tenant everywhere : KillSwitchScope

-- Amounts are in the smallest unit, so a number stands for the source's float.
pub record DecisionScope : Type 0 where
  pub actions : List String
  pub resources : List String
  pub max_spend : Option ℤ
  pub rate_limit : Option ℤ

abbrev pub empty_scope : DecisionScope
empty_scope = record { actions = []; resources = []; max_spend = none; rate_limit = none }

abbrev pattern_matches : String → String → Bool
pattern_matches name p = p == "*" || fnmatch name p

-- `DecisionScope.covers`: an absent or empty resource, or a scope with no resources, asks only for
-- the action.
covers_resource : DecisionScope → Option String → Bool
covers_resource s none = true
covers_resource s (some r) =
    if not (r == "") && not (is_nil s.resources) then any (pattern_matches r) s.resources else true

unfoldable pub covers : DecisionScope → String → Option String → Bool
unfolding covers_resource
covers s action resource =
    if any (pattern_matches action) s.actions then covers_resource s resource else false

pub record GovernanceDecision : Type 0 where
  pub decision_id : String
  pub decision_type : DecisionType
  pub tenant_id : String
  pub actor_id : String
  pub action : String
  pub scope : DecisionScope
  pub request_id : Option String
  pub trace_id : Option String
  pub workspace_id : Option String
  pub agent_id : Option String
  pub subject_type : String
  pub subject_id : Option String
  pub resource : Option String
  pub risk_level : String
  pub policy_version : String
  pub approval_state : String
  pub approved_by : Option String
  pub approved_at : Option ℕ
  pub constraints : Fields
  pub expiry : Option ℕ
  pub kill_switch_scope : KillSwitchScope
  pub created_at : Option ℕ
  pub gt_token : Option String
  pub issued_token_id : Option String
  pub revoked_at : Option ℕ
  pub revoked_reason : Option String
  pub audit_entry_ids : List String
  pub reason : String
  pub root_decision_id : Option String
  pub parent_decision_id : Option String
  pub parent_actor_id : Option String
  pub workflow_id : Option String
  pub trust_snapshot_id : Option String
  pub superseded_at : Option ℕ
  pub superseded_reason : Option String

-- The constructor call with the required fields alone: every other field has its default.
abbrev pub new_decision :
    String → DecisionType → String → String → String → DecisionScope → ℕ → GovernanceDecision
new_decision id type tid actor act sc now = record {
  decision_id = id;
  decision_type = type;
  tenant_id = tid;
  actor_id = actor;
  action = act;
  scope = sc;
  request_id = none;
  trace_id = none;
  workspace_id = none;
  agent_id = none;
  subject_type = "agent";
  subject_id = none;
  resource = none;
  risk_level = "low";
  policy_version = "unknown";
  approval_state = "auto_approved";
  approved_by = none;
  approved_at = none;
  constraints = end;
  expiry = none;
  kill_switch_scope = request;
  created_at = some now;
  gt_token = none;
  issued_token_id = none;
  revoked_at = none;
  revoked_reason = none;
  audit_entry_ids = [];
  reason = "";
  root_decision_id = none;
  parent_decision_id = none;
  parent_actor_id = none;
  workflow_id = none;
  trust_snapshot_id = none;
  superseded_at = none;
  superseded_reason = none;
}

-- `is_expired`, at the instant that `datetime.now` answers.
unfoldable pub is_expired : ℕ → GovernanceDecision → Bool
is_expired now d = elim d.expiry [ none ↦ false | some e ↦ ltb e now ]

unfoldable pub is_active : ℕ → GovernanceDecision → Bool
unfolding is_expired
is_active now d = is_allow d.decision_type && not (is_expired now d) && not (is_some d.revoked_at)
