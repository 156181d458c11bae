-- ===== src/Repository.antt =====
-- apps/runtime/citadel/core/repository.py: the reads and writes of the kernel's tables, and the
-- function consume_capability of db/schema.sql.
pub mod Frame
pub mod Chain
pub mod Consume
use ledger_sdk.Prelude.{
  or_else, ℕ, suc, ◌+◌, ◌-◌, String, Bool, true, false, not, ◌&&◌, ◌||◌, Option, none, some, List,
  [], ◌∷◌, ◌==◌, ltb, leb, eqb, opt_eq, is_some, truthy, str_or, starts_with, find_by, any, keep,
  update_where, take, sort_by, if◌then◌else◌, ◌<>◌,
}
use ledger_sdk.Values.{Value, Fields}
use ledger_sdk.Exec.{Exn, Exec, Result, ok, raised, pure, ◌>>=◌, ◌>>◌}
use ledger_sdk.Actions.{Action, Decision}
use ledger_sdk.Db.{
  Db, World, Env, App, fresh, set_db, read_db, ActorRow, ApprovalRow, CapabilityRow, KillSwitchRow,
  PolicyRow, SnapshotJson, AuditEvent,
}

-- `($n::text IS NULL OR tenant_id = $n)`: a row with no tenant is seen only with no filter.
abbrev pub in_tenant : Option String → Option String → Bool
in_tenant none row = true
in_tenant (some t) none = false
in_tenant (some t) (some r) = r == t

-- The unique index on (actor_id, idempotency_key) where the key is not null.
abbrev pub same_key : Action → Action → Bool
same_key a b =
    a.actor_id == b.actor_id
    && is_some a.idempotency_key
    && opt_eq a.idempotency_key b.idempotency_key

unfoldable pub save_action : Action → App Bool
save_action action w =
    if any (same_key action) w.db.actions
    then (ok false, w)
    else (ok true, record w { db = record w.db { actions = action ∷ w.db.actions } })

abbrev action_row : String → Option String → Action → Bool
action_row id tid a = a.action_id == id && in_tenant tid a.tenant_id

unfoldable pub get_action : String → Option String → App (Option Action)
get_action id tid = read_db (λ db. find_by (action_row id tid) db.actions)

-- Governance tokens are not stored in the capability column.
unfoldable pub stored_token : Option String → Option String
stored_token none = none
stored_token (some t) = if starts_with t "gt_cap_" then none else some t

unfoldable pub save_decision : Decision → App Unit
unfolding stored_token
save_decision d = set_db λ db. record db {
  decisions = record d { capability_token = stored_token d.capability_token } ∷ db.decisions;
}

-- The action that a decision belongs to has the actor and the key.
abbrev keyed_action : String → String → Option String → Decision → Action → Bool
keyed_action actor key tid d a =
    a.action_id == d.action_id
    && a.actor_id == actor
    && opt_eq a.idempotency_key (some key)
    && in_tenant tid a.tenant_id

unfoldable pub find_decision_by_idempotency :
    String → String → Option String → App (Option Decision)
find_decision_by_idempotency actor key tid =
    read_db (λ db. find_by (λ d. any (keyed_action actor key tid d) db.actions) db.decisions)

unfoldable pub get_decision : String → Option String → App (Option Decision)
get_decision id tid =
    read_db
      λ db. find_by (λ d. d.action_id == id && any (action_row id tid) db.actions) db.decisions

unfoldable pub create_approval :
    Env → String → String → String → String → ℕ → Option String → App String
create_approval env action_id priority reason requested_by expires_at tid = do
  approval_id ← fresh env
  set_db λ db. record db {
    approvals =
        record {
          approval_id = approval_id;
          action_id = action_id;
          status = "pending";
          priority = priority;
          requested_by = requested_by;
          reason = reason;
          expires_at = expires_at;
          created_at = env.now;
          tenant_id = tid;
          reviewed_by = none;
          decided_at = none;
          decision_reason = none;
        }
        ∷ db.approvals;
  }
  pure approval_id

abbrev pub joined_approval : Option String → List Action → ApprovalRow → Bool
joined_approval tid actions ap = any (action_row ap.action_id tid) actions

unfoldable pub get_approval : String → Option String → App (Option ApprovalRow)
get_approval id tid =
    read_db
      λ db. find_by (λ ap. ap.approval_id == id && joined_approval tid db.actions ap) db.approvals

-- The CASE expression of the queue's ORDER BY.
unfoldable pub priority_rank : String → ℕ
priority_rank p =
    if p == "critical" then 1 else if p == "high" then 2 else if p == "medium" then 3 else 4

abbrev pub queue_before : ApprovalRow → ApprovalRow → Bool
queue_before a b =
    ltb (priority_rank a.priority) (priority_rank b.priority)
    || (eqb (priority_rank a.priority) (priority_rank b.priority) && leb a.created_at b.created_at)

unfoldable pub get_pending_approvals : ℕ → Option String → App (List ApprovalRow)
unfolding sort_by priority_rank
get_pending_approvals limit tid = read_db λ db. take limit (
    sort_by queue_before
      (keep (λ ap. ap.status == "pending" && joined_approval tid db.actions ap) db.approvals))

abbrev actor_in : String → Option String → ActorRow → Bool
actor_in id tid a = a.actor_id == id && in_tenant tid a.tenant_id

unfoldable pub get_capability : String → Option String → App (Option CapabilityRow)
get_capability token tid = read_db λ db.
    find_by (λ c. c.token_id == token && any (actor_in c.actor_id tid) db.actors) db.capabilities

-- The row that the SQL function returns: success, remaining_uses and error.
pub record ConsumeResult : Type 0 where
  pub success : Bool
  pub remaining_uses : ℕ
  pub error : Option String

abbrev pub refusal : String → ConsumeResult
refusal e = record { success = false; remaining_uses = 0; error = some e }

abbrev pub has_token : String → CapabilityRow → Bool
has_token token c = c.token_id == token

abbrev pub use_once : CapabilityRow → CapabilityRow
use_once c = record c { uses = c.uses + 1 }

-- The checks of consume_capability on the locked row, in its order.
unfoldable pub consume_row : Env → String → CapabilityRow → Option String
consume_row env actor c =
    if not (c.actor_id == actor)
    then some "actor_mismatch"
    else if c.is_revoked
    then some "capability_revoked"
    else if ltb c.expires_at env.now
    then some "capability_expired"
    else if leb c.max_uses c.uses
    then some "capability_exhausted"
    else none

-- The UPDATE of the row, and the answer.
abbrev pub use_found : String → CapabilityRow → App ConsumeResult
use_found token c w = (
  ok (record { success = true; remaining_uses = c.max_uses - c.uses - 1; error = none }),
  record w {
    db = record w.db { capabilities = update_where (has_token token) use_once w.db.capabilities };
  },
)

consume_found : Env → String → String → Option CapabilityRow → App ConsumeResult
consume_found env token actor none w = (ok (refusal "capability_not_found"), w)
consume_found env token actor (some c) w = elim (consume_row env actor c) [
  | some e ↦ (ok (refusal e), w)
  | none ↦ use_found token c w
]

unfoldable pub consume_capability : Env → String → String → App ConsumeResult
unfolding consume_found
consume_capability env token actor w =
    consume_found env token actor (find_by (has_token token) w.db.capabilities) w

abbrev pub switch_row : String → String → Option String → KillSwitchRow → Bool
switch_row type val tid k =
    k.scope_type == type && k.scope_value == val && in_tenant tid k.tenant_id && k.enabled

abbrev pub global_row : KillSwitchRow → Bool
global_row k = k.scope_type == "global" && k.enabled

-- The scope's own switch, and else any global one.
unfoldable pub check_kill_switch : String → String → Option String → App (Option KillSwitchRow)
check_kill_switch type val tid = read_db λ db.
    elim (find_by (switch_row type val tid) db.kill_switches) [
      | some k ↦ some k
      | none ↦ find_by global_row db.kill_switches
    ]

abbrev pub policy_row : String → String → Option String → PolicyRow → Bool
policy_row type val tid p =
    p.scope_type == type
    && p.scope_value == val
    && p.status == "active"
    && in_tenant tid p.tenant_id

unfoldable pub get_active_policy : String → String → Option String → App (Option PolicyRow)
get_active_policy type val tid = read_db (λ db. find_by (policy_row type val tid) db.policies)

unfoldable pub save_policy_snapshot : Env → String → String → String → SnapshotJson → App String
save_policy_snapshot env policy_id version hash json = do
  snapshot_id ← fresh env
  set_db λ db. record db {
    policy_snapshots =
        record {
          snapshot_id = snapshot_id;
          policy_id = policy_id;
          policy_version = version;
          snapshot_hash = hash;
          snapshot_json = json;
        }
        ∷ db.policy_snapshots;
  }
  pure snapshot_id

-- `'0' * 64`
abbrev pub genesis_hash : String
genesis_hash = "0000000000000000000000000000000000000000000000000000000000000000"

-- The hash of the newest event, or the genesis hash.
abbrev pub last_hash : List AuditEvent → String
last_hash [] = genesis_hash
last_hash (e ∷ es) = e.event_hash

abbrev pub last_id : List AuditEvent → ℕ
last_id [] = 0
last_id (e ∷ es) = e.event_id

-- The text that is hashed: the fields one after another, with the instant's ISO form and a nonce.
unfoldable pub event_data :
    (Fields → String) → String → String → String → String → Fields → String → Option String → String
event_data dumps iso nonce action_id event_type payload prev actor =
    action_id <> event_type <> iso <> dumps payload <> prev <> str_or actor "" <> nonce

-- The text that `calculate_event_hash` hashes.
unfoldable pub row_text : (Fields → String) → String → AuditEvent → String
row_text jsonb_text ts e =
    e.action_id
    <> e.event_type
    <> ts
    <> jsonb_text e.payload
    <> e.prev_hash
    <> or_else e.actor_id ""

-- The triggers before an insert, in the order of their names: the event's hash is computed from the
-- row as it is given, and then its previous hash is set.
abbrev pub calculate_event_hash : Env → AuditEvent → AuditEvent
calculate_event_hash env e = record e {
  event_hash = env.sha256 (row_text env.jsonb_text env.now_text e);
}

abbrev pub set_audit_prev_hash : List AuditEvent → AuditEvent → AuditEvent
set_audit_prev_hash events e = record e { prev_hash = last_hash events }

-- The serial column `event_id`, which skips the numbers that refused inserts have used up.
abbrev pub numbered : Env → ℕ → List AuditEvent → AuditEvent → AuditEvent
numbered env drawn events e = record e { event_id = last_id events + suc (env.burned drawn) }

-- The row that the triggers hand on to the table.
abbrev pub stamped : Env → World → AuditEvent → AuditEvent
stamped env w e =
    set_audit_prev_hash w.db.audit_events
      (calculate_event_hash env (numbered env w.drawn w.db.audit_events e))

-- The INSERT: the constraints of the table refuse the row, or it is stored.
abbrev pub insert_event : AuditEvent → Option Exn → App ℕ
insert_event e (some x) w = (raised x, w)
insert_event e none w =
    (ok e.event_id, record w { db = record w.db { audit_events = e ∷ w.db.audit_events } })

unfoldable pub save_audit_event :
    Env → String → String → Fields → Option String → Option String → App ℕ
save_audit_event env action_id event_type payload actor tid = do
  nonce ← fresh env
  events ← read_db (λ db. db.audit_events)
  let prev = last_hash events
  let given : AuditEvent = record {
    event_id = 0;
    action_id = action_id;
    event_type = event_type;
    payload = payload;
    prev_hash = prev;
    event_hash =
        env.sha256
          (event_data env.dumps env.utcnow_iso nonce action_id event_type payload prev actor);
    actor_id = actor;
    tenant_id = tid;
  }
  (λ w. insert_event (stamped env w given) (env.audit_refusal (stamped env w given) w) w)

unfoldable pub save_execution_result :
    String → Bool → Option Value → Option String → Option String → App Unit
save_execution_result action_id success result error tid = set_db λ db. record db {
  execution_results =
      record {
        action_id = action_id;
        success = success;
        result = result;
        error_message = error;
        tenant_id = tid;
      }
      ∷ db.execution_results;
}

unfoldable pub get_actor : String → App (Option ActorRow)
get_actor id = read_db (λ db. find_by (λ a. a.actor_id == id) db.actors)

unfoldable pub ensure_actor : String → String → Option String → App Unit
ensure_actor id type tid = set_db λ db.
    if any (λ a. a.actor_id == id) db.actors then db else record db {
      actors = record { actor_id = id; actor_type = type; tenant_id = tid } ∷ db.actors;
    }
