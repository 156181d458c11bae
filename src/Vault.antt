-- ===== src/Vault.antt =====
-- apps/runtime/citadel/tokens/token_vault.py and the derivation of tokens/governance_token.py: the
-- decisions and tokens of a tenant, their revocation, and the ancestry check. Row-level security is
-- the filter by the tenant that the vault sets as context.
pub mod LogKept
pub mod Revocation
pub mod Issue
pub mod Ancestry
pub mod Authority
use ledger_sdk.Prelude.{
  ℕ, ◌+◌, ◌*◌, String, Bool, true, false, not, ◌&&◌, ◌||◌, Option, none, some, List, [], ◌∷◌, ◌==◌,
  ltb, or_else, str_or, opt_or, opt_eq, is_some, truthy, find_by, any, update_where, if◌then◌else◌,
  ◌<>◌,
}
use ledger_sdk.Values.{Fields, get_text}
use ledger_sdk.Exec.{
  Exec, Result, ok, raised, pure, raise, lift, gets, exn, value_error, ◌>>=◌, ◌>>◌,
}
use ledger_sdk.GovernanceDecision.{
  GovernanceDecision, DecisionType, revoked, is_allow, is_revoked, type_value,
}
use ledger_sdk.Db.{App, Env, Db, World, fresh, set_db, read_db, TokenRow, KillSwitchRow}

-- A second, in the microseconds of an instant.
abbrev pub second : ℕ
second = 1_000_000

abbrev first_of_list : List String → Option String
first_of_list [] = none
first_of_list (x ∷ xs) = some x

abbrev expiry_of : Env → Option ℕ → GovernanceDecision → ℕ
expiry_of env lifetime d = or_else d.expiry (env.now + or_else lifetime 120 * second)

-- `CapabilityToken.derive` without a previous hash: only from a decision that allows. `content_hash`
-- is the hash of the canonical form of the decision's reference.
unfoldable pub derive :
    Env
    → (GovernanceDecision → ℕ → String)
    → GovernanceDecision
    → Option ℕ
    → Option String
    → App TokenRow
unfolding type_value get_text
derive env content_hash d lifetime tool =
    if not (is_allow d.decision_type)
    then raise value_error
        ("Cannot derive token from " <> type_value d.decision_type <> " decision")
    else do
      random ← fresh env
      let expiry = expiry_of env lifetime d
      pure (record {
        token_id = "gt_cap_" <> random;
        decision_id = d.decision_id;
        tenant_id = d.tenant_id;
        actor_id = d.actor_id;
        workspace_id = some (str_or d.workspace_id d.tenant_id);
        tool = opt_or tool (get_text "tool" d.constraints);
        action = some d.action;
        resource_scope = opt_or d.resource (first_of_list d.scope.resources);
        risk_level = d.risk_level;
        not_before = some env.now;
        trace_id = d.trace_id;
        approval_ref = d.approved_by;
        scope_actions = d.scope.actions;
        scope_resources = d.scope.resources;
        expiry = some expiry;
        chain_hash = content_hash d expiry;
        parent_decision_id = d.parent_decision_id;
        parent_actor_id = d.parent_actor_id;
        workflow_id = d.workflow_id;
        revoked_at = none;
        revoked_reason = none;
      })

-- The row that an insert writes: defaults for the workspace, the agent and the subject.
abbrev pub as_row : GovernanceDecision → GovernanceDecision
as_row d = record d {
  workspace_id = some (str_or d.workspace_id d.tenant_id);
  agent_id = some (str_or d.agent_id d.actor_id);
  subject_id = some (str_or d.subject_id d.actor_id);
  issued_token_id = opt_or d.issued_token_id d.gt_token;
  gt_token = none;
  audit_entry_ids = [];
  trust_snapshot_id = none;
}

-- `ON CONFLICT (decision_id) DO UPDATE`: the columns that an existing row takes over.
abbrev pub merged : GovernanceDecision → GovernanceDecision → GovernanceDecision
merged d row = record row {
  decision_type = d.decision_type;
  issued_token_id = elim (opt_or d.issued_token_id d.gt_token) [
    | some t ↦ some t
    | none ↦ row.issued_token_id
  ];
  revoked_at = d.revoked_at;
  revoked_reason = d.revoked_reason;
  superseded_at = d.superseded_at;
  superseded_reason = d.superseded_reason;
  scope = d.scope;
  reason = d.reason;
}

abbrev pub has_decision_id : String → GovernanceDecision → Bool
has_decision_id id d = d.decision_id == id

unfoldable pub upsert_decision :
    GovernanceDecision → List GovernanceDecision → List GovernanceDecision
upsert_decision d rows =
    if any (has_decision_id d.decision_id) rows
    then update_where (has_decision_id d.decision_id) (merged d) rows
    else as_row d ∷ rows

unfoldable pub store_decision : GovernanceDecision → App Unit
unfolding upsert_decision
store_decision d =
    set_db λ db. record db { governance_decisions = upsert_decision d db.governance_decisions }

abbrev unlinked : String → GovernanceDecision → Bool
unlinked id d = d.decision_id == id && not (is_some d.issued_token_id)

abbrev link : String → GovernanceDecision → GovernanceDecision
link token d = record d { issued_token_id = some token }

unfoldable pub store_token : TokenRow → App Unit
store_token t = set_db λ db. record db {
  governance_tokens = t ∷ db.governance_tokens;
  governance_decisions =
      update_where (unlinked t.decision_id) (link t.token_id) db.governance_decisions;
}

-- One transaction: the decision is stored with its token, or neither is.
unfoldable pub issue_token_for_decision :
    Env → (GovernanceDecision → ℕ → String) → GovernanceDecision → ℕ → Option String → App TokenRow
unfolding derive store_decision store_token
issue_token_for_decision env content_hash d lifetime tool = do
  token ← derive env content_hash d (some lifetime) tool
  store_decision d
  store_token token
  pure token

-- Rows that the tenant context lets through.
abbrev visible : Option String → String → Bool
visible tid row = opt_eq tid (some row)

unfoldable pub resolve_token : String → Option String → App (Option TokenRow)
resolve_token id tid =
    read_db λ db. find_by (λ t. t.token_id == id && visible tid t.tenant_id) db.governance_tokens

abbrev pub decision_at : String → Option String → GovernanceDecision → Bool
decision_at id tid d = d.decision_id == id && visible tid d.tenant_id

unfoldable pub resolve_decision : String → Option String → App (Option GovernanceDecision)
resolve_decision id tid = read_db (λ db. find_by (decision_at id tid) db.governance_decisions)

unfoldable pub verify_chain : String → Option String → App Bool
verify_chain id tid = do
  token ← resolve_token id tid
  elim token [
    | none ↦ pure false
    | some t ↦ do d ← resolve_decision t.decision_id tid; pure (is_some d)
  ]

abbrev live_token : String → String → TokenRow → Bool
live_token id tid t = t.token_id == id && t.tenant_id == tid && not (is_some t.revoked_at)

abbrev revoke_row : Env → String → TokenRow → TokenRow
revoke_row env reason t = record t { revoked_at = some env.now; revoked_reason = some reason }

-- Whether a row was updated is the answer; token ids are unique.
unfoldable pub revoke_token : Env → String → String → String → App Bool
revoke_token env id tid reason w = (
  ok (any (live_token id tid) w.db.governance_tokens),
  record w {
    db = record w.db {
      governance_tokens =
          update_where (live_token id tid) (revoke_row env reason) w.db.governance_tokens;
    };
  },
)

abbrev pub revoke_to : Env → String → GovernanceDecision → GovernanceDecision
revoke_to env reason d = record d {
  decision_type = revoked;
  revoked_at = some env.now;
  revoked_reason = some reason;
}

abbrev pub itself : String → String → GovernanceDecision → Bool
itself id tid d = d.decision_id == id && d.tenant_id == tid && not (is_some d.revoked_at)

-- A decision that names the revoked one as its parent or as its root.
abbrev pub below : String → GovernanceDecision → Bool
below id d = opt_eq d.parent_decision_id (some id) || opt_eq d.root_decision_id (some id)

abbrev pub descendant : String → String → GovernanceDecision → Bool
descendant id tid d =
    below id d
    && d.tenant_id == tid
    && not (is_some d.revoked_at)
    && not (is_revoked d.decision_type)

-- The decision of a token is among those that were revoked.
abbrev revoked_below : String → String → String → GovernanceDecision → Bool
revoked_below id tid token_decision d =
    d.decision_id == token_decision
    && d.tenant_id == tid
    && (below id d || d.decision_id == id)
    && is_some d.revoked_at

abbrev cascaded_token : String → String → List GovernanceDecision → TokenRow → Bool
cascaded_token id tid rows t =
    any (revoked_below id tid t.decision_id) rows
    && t.tenant_id == tid
    && not (is_some t.revoked_at)

-- The two updates of governance_decisions.
unfoldable pub revoke_rows :
    Env → String → String → String → List GovernanceDecision → List GovernanceDecision
revoke_rows env id tid reason rows =
    update_where (descendant id tid) (revoke_to env ("cascaded: " <> reason))
      (update_where (itself id tid) (revoke_to env reason) rows)

unfoldable pub revoke_decision : Env → String → String → String → App Bool
unfolding revoke_rows
revoke_decision env id tid reason w =
    let rows = revoke_rows env id tid reason w.db.governance_decisions in
    (
      ok (any (itself id tid) w.db.governance_decisions),
      record w {
        db = record w.db {
          governance_decisions = rows;
          governance_tokens =
              update_where (cascaded_token id tid rows) (revoke_row env ("cascaded: " <> reason))
                w.db.governance_tokens;
        };
      },
    )

-- One ancestor: what is wrong with it, under the prefix `parent` or `root`.
unfoldable pub ancestor_fault : Env → String → Option GovernanceDecision → Option String
ancestor_fault env who none = some (who <> "_decision_not_found")
ancestor_fault env who (some a) =
    if is_some a.revoked_at || is_revoked a.decision_type
    then some (who <> "_revoked")
    else elim a.expiry [
      | none ↦ none
      | some e ↦ if ltb e env.now then some (who <> "_expired") else none
    ]

check_one : Env → String → Option String → Option String → App (Option String)
unfolding ancestor_fault
check_one env who none tid = pure none
check_one env who (some id) tid = do
  ancestor ← resolve_decision id tid
  pure (ancestor_fault env who ancestor)

-- The parent to look up: one that is named and is not the decision itself.
abbrev pub parent_to_check : GovernanceDecision → Option String
parent_to_check d =
    if truthy d.parent_decision_id && not (opt_eq d.parent_decision_id (some d.decision_id))
    then d.parent_decision_id
    else none

-- The root, unless it is the decision itself or its parent.
abbrev pub root_to_check : GovernanceDecision → Option String
root_to_check d =
    if truthy d.root_decision_id
      && not (opt_eq d.root_decision_id (some d.decision_id))
      && not (opt_eq d.root_decision_id d.parent_decision_id)
    then d.root_decision_id
    else none

-- `check_ancestry`: `none` where the parent and the root are active.
unfoldable pub check_ancestry : Env → GovernanceDecision → App (Option String)
unfolding check_one
check_ancestry env d = do
  fault ← check_one env "parent" (parent_to_check d) (some d.tenant_id)
  elim fault [
    | some reason ↦ pure (some reason)
    | none ↦ check_one env "root" (root_to_check d) (some d.tenant_id)
  ]

-- The WHERE clause of the query.
abbrev pub switch_applies :
    String → String → String → Option String → Option String → String → KillSwitchRow → Bool
switch_applies tid actor action resource tool decision_id k =
    k.enabled
    && (k.scope_type == "global"
        || (k.scope_type == "tenant" && k.scope_value == tid)
        || (k.scope_type == "actor" && k.scope_value == actor)
        || (k.scope_type == "request" && k.scope_value == decision_id)
        || (k.scope_type == "action"
            && (k.scope_value == action || k.scope_value == or_else tool action))
        || (k.scope_type == "resource" && opt_eq resource (some k.scope_value)))

-- `check_kill_switch`: the callers ask only whether a switch was found, so the order among those
-- that apply is left out.
unfoldable pub check_kill_switch :
    String → String → String → Option String → Option String → String → App (Option KillSwitchRow)
check_kill_switch tid actor action resource tool decision_id =
    read_db
      λ db. find_by (switch_applies tid actor action resource tool decision_id) db.kill_switches
