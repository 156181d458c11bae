-- ===== src/Db.antt =====
-- The tables that apps/runtime/citadel/core/repository.py, tokens/token_vault.py and
-- commercial/cost_controls.py read and write, and what lies outside the program.
-- Every table lists its newest row first, which is the order of the queries' ORDER BY ... DESC
-- LIMIT 1. Primary keys, foreign keys and connection failures are PostgreSQL's and are not modelled.
use ledger_sdk.Prelude.{String, ℤ, ℕ, suc, Bool, Option, List}
use ledger_sdk.Values.{Value, Fields}
use ledger_sdk.Actions.{Action, Decision}
use ledger_sdk.GovernanceDecision.{GovernanceDecision}
use ledger_sdk.PolicyRules.{Rule, RulesJson}
use ledger_sdk.Budgets.{CostBudget, SpendEvent, EnforcementEvent, BudgetAdjustment}
use ledger_sdk.Exec.{Exn, Exec, ok}

pub record ActorRow : Type 0 where
  pub actor_id : String
  pub actor_type : String
  pub tenant_id : Option String

pub record ApprovalRow : Type 0 where
  pub approval_id : String
  pub action_id : String
  pub status : String
  pub priority : String
  pub requested_by : String
  pub reason : String
  pub expires_at : ℕ
  pub created_at : ℕ
  pub tenant_id : Option String
  pub reviewed_by : Option String
  pub decided_at : Option ℕ
  pub decision_reason : Option String

pub record CapabilityRow : Type 0 where
  pub token_id : String
  pub actor_id : String
  pub action_scope : String
  pub resource_scope : String
  pub expires_at : ℕ
  pub uses : ℕ
  pub max_uses : ℕ
  pub is_revoked : Bool

pub record KillSwitchRow : Type 0 where
  pub scope_type : String
  pub scope_value : String
  pub tenant_id : Option String
  pub enabled : Bool
  pub reason : Option String

pub record PolicyRow : Type 0 where
  pub policy_id : String
  pub name : String
  pub version : String
  pub scope_type : String
  pub scope_value : String
  pub tenant_id : Option String
  pub status : String
  pub rules_json : RulesJson

pub record SnapshotJson : Type 0 where
  pub policy_id : String
  pub name : String
  pub version : String
  pub scope_type : String
  pub scope_value : String
  pub rules : List Rule
  pub resolved_at : String

pub record SnapshotRow : Type 0 where
  pub snapshot_id : String
  pub policy_id : String
  pub policy_version : String
  pub snapshot_hash : String
  pub snapshot_json : SnapshotJson

-- A row of audit_events: the hash-chained log of the kernel.
pub record AuditEvent : Type 0 where
  pub event_id : ℕ
  pub action_id : String
  pub event_type : String
  pub payload : Fields
  pub prev_hash : String
  pub event_hash : String
  pub actor_id : Option String
  pub tenant_id : Option String

pub record ExecutionResultRow : Type 0 where
  pub action_id : String
  pub success : Bool
  pub result : Option Value
  pub error_message : Option String
  pub tenant_id : Option String

-- A row of governance_tokens: the capability token of tokens/governance_token.py, and the columns
-- that a revocation writes.
pub record TokenRow : Type 0 where
  pub token_id : String
  pub decision_id : String
  pub tenant_id : String
  pub actor_id : String
  pub workspace_id : Option String
  pub tool : Option String
  pub action : Option String
  pub resource_scope : Option String
  pub risk_level : String
  pub not_before : Option ℕ
  pub trace_id : Option String
  pub approval_ref : Option String
  pub scope_actions : List String
  pub scope_resources : List String
  pub expiry : Option ℕ
  pub chain_hash : String
  pub parent_decision_id : Option String
  pub parent_actor_id : Option String
  pub workflow_id : Option String
  pub revoked_at : Option ℕ
  pub revoked_reason : Option String

-- A row of governance_audit_log, whose hashes a trigger of the database computes.
pub record GovernanceAuditRow : Type 0 where
  pub event_type : String
  pub tenant_id : Option String
  pub actor_id : Option String
  pub decision_id : Option String
  pub token_id : Option String
  pub payload : Fields

pub record Db : Type 0 where
  pub actors : List ActorRow
  pub actions : List Action
  pub decisions : List Decision
  pub approvals : List ApprovalRow
  pub capabilities : List CapabilityRow
  pub kill_switches : List KillSwitchRow
  pub policies : List PolicyRow
  pub policy_snapshots : List SnapshotRow
  pub audit_events : List AuditEvent
  pub execution_results : List ExecutionResultRow
  pub budgets : List CostBudget
  pub spend_events : List SpendEvent
  pub enforcement_events : List EnforcementEvent
  pub adjustments : List BudgetAdjustment
  pub governance_decisions : List GovernanceDecision
  pub governance_tokens : List TokenRow
  pub governance_audit_log : List GovernanceAuditRow

-- The database, and how many identifiers `uuid.uuid4` has given out.
pub record World : Type 0 where
  pub db : Db
  pub drawn : ℕ

-- What the program takes from outside: the identifier of each draw, the instant at which the
-- operation runs, `hashlib.sha256(...).hexdigest()`, `json.dumps` of an audit payload and of a
-- snapshot, the ISO form of the instant, `json.loads` of a rules text (`none` is a ValueError),
-- `re.search` of a pattern in a text, `str` of a value and of a list of texts, the truncated
-- floating-point product `int(amount * (percent / 100))`, and what other requests commit during one
-- `asyncio.sleep`; and, of the database, `NOW()::text`, `payload_json::text`, how many serial
-- numbers refused inserts have used up since the newest event, and the exception with which the
-- deployed constraints of audit_events refuse a row.
pub record Env : Type 0 where
  pub uuid4 : ℕ → String
  pub now : ℕ
  pub utcnow_iso : String
  pub sha256 : String → String
  pub dumps : Fields → String
  pub dumps_snapshot : SnapshotJson → String
  pub loads : String → Option (List Rule)
  pub search : String → String → Bool
  pub str_value : Value → String
  pub str_texts : List String → String
  pub percent_of : ℤ → ℤ → ℤ
  pub others : ℕ → World → World
  pub now_text : String
  pub jsonb_text : Fields → String
  pub burned : ℕ → ℕ
  pub audit_refusal : AuditEvent → World → Option Exn

abbrev pub App : Type 0 → Type 0
App = Exec World

-- `uuid.uuid4()`
abbrev pub fresh : Env → App String
fresh env w = (ok (env.uuid4 w.drawn), record w { drawn = suc w.drawn })

abbrev pub set_db : (Db → Db) → App Unit
set_db f w = (ok tt, record w { db = f w.db })

abbrev pub read_db : {A : Type 0} → (Db → A) → App A
read_db f w = (ok (f w.db), w)
