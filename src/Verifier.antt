-- ===== src/Verifier.antt =====
-- apps/runtime/citadel/tokens/token_verifier.py: a token is valid while its linked decision is, and
-- every verification is audited where there is an audit logger. The audit rows are those of
-- tokens/audit_trail.py.
pub mod LogKept
pub mod Soundness
pub mod Revoked
use ledger_sdk.Prelude.{
  ℕ, String, Bool, true, false, not, ◌&&◌, ◌||◌, Option, none, some, List, [], ◌∷◌, ◌==◌, ltb,
  or_else, str_or, opt_or, opt_eq, is_some, truthy, show, if◌then◌else◌, ◌<>◌,
}
use ledger_sdk.Values.{Value, Fields, boolean, text, object, end, field, get, get_text}
use ledger_sdk.Exec.{Exec, Result, ok, pure, ◌>>=◌, ◌>>◌}
use ledger_sdk.GovernanceDecision.{
  GovernanceDecision, DecisionType, is_allow, is_revoked, type_value, covers, is_expired,
}
use ledger_sdk.KillSwitch.{KillSwitch, check}
use ledger_sdk.Db.{App, Env, World, set_db, TokenRow}
use ledger_sdk.Vault.{resolve_token, resolve_decision, check_ancestry, check_kill_switch}

pub record VerificationResult : Type 0 where
  pub valid : Bool
  pub reason : String
  pub decision : Option GovernanceDecision

-- The collaborators that the constructor receives: the in-memory kill switch may be absent, and so
-- may the audit logger.
pub record TokenVerifier : Type 0 where
  pub kill_switch : Option KillSwitch
  pub has_audit : Bool

-- `context.get(key, "unknown")`
abbrev pub or_unknown : String → Fields → Option String
or_unknown k context = elim (get k context) [
  | none ↦ some "unknown"
  | some (text s) ↦ some s
  | some v ↦ none
]

abbrev verification_payload : Bool → String → Fields → Fields
verification_payload valid reason context =
    field "valid" (boolean valid)
      (field "reason" (text reason) (field "context" (object context) end))

unfoldable pub audit_token_verification :
    TokenVerifier
    → String
    → Bool
    → String
    → Fields
    → Option GovernanceDecision
    → Option String
    → App Unit
unfolding get
audit_token_verification v token_id valid reason context decision decision_id =
    if v.has_audit
    then set_db (λ db. record db {
      governance_audit_log =
          record {
            event_type = "token.verification";
            tenant_id = elim decision [
              | some d ↦ some d.tenant_id
              | none ↦ or_unknown "tenant_id" context
            ];
            actor_id = elim decision [
              | some d ↦ some d.actor_id
              | none ↦ or_unknown "actor_id" context
            ];
            decision_id = elim decision [ some d ↦ some d.decision_id | none ↦ decision_id ];
            token_id = some token_id;
            payload = verification_payload valid reason context;
          }
          ∷ db.governance_audit_log;
    })
    else pure tt

unfoldable pub audit_decision_verification :
    TokenVerifier → GovernanceDecision → Bool → String → Fields → App Unit
audit_decision_verification v d valid reason context =
    if v.has_audit
    then set_db (λ db. record db {
      governance_audit_log =
          record {
            event_type = "decision.verification";
            tenant_id = some d.tenant_id;
            actor_id = some d.actor_id;
            decision_id = some d.decision_id;
            token_id = none;
            payload = verification_payload valid reason context;
          }
          ∷ db.governance_audit_log;
    })
    else pure tt

-- The checks on the token alone, in order.
unfoldable pub token_fault : Env → TokenRow → Option String
token_fault env t =
    if elim t.not_before [ none ↦ false | some nbf ↦ ltb env.now nbf ]
    then some "token_not_yet_valid"
    else if elim t.expiry [ none ↦ false | some e ↦ ltb e env.now ]
    then some "token_expired"
    else if is_some t.revoked_at
    then some "token_revoked"
    else if t.decision_id == ""
    then some "no_linked_decision"
    else none

-- The decision rebuilt from its row: the amounts of the scope are not read back.
abbrev pub rebuilt : TokenRow → GovernanceDecision → GovernanceDecision
rebuilt t row = record row {
  scope = record {
    actions = row.scope.actions;
    resources = row.scope.resources;
    max_spend = none;
    rate_limit = none;
  };
  trace_id = opt_or row.trace_id t.trace_id;
  workspace_id = some (str_or row.workspace_id row.tenant_id);
  agent_id = some (str_or row.agent_id row.actor_id);
  subject_id = some (str_or row.subject_id row.actor_id);
  gt_token = none;
}

abbrev in_workspace : String → TokenRow → GovernanceDecision → Bool
in_workspace w t d =
    opt_eq d.workspace_id (some w) || d.tenant_id == w || str_or t.workspace_id t.tenant_id == w

-- What the audit logs, and what the caller is told.
pub record Fault : Type 0 where
  pub logged : String
  pub told : String

abbrev pub plain : String → Fault
plain r = record { logged = r; told = r }

-- The checks on the decision alone, in order.
unfoldable pub decision_fault : Env → Option String → TokenRow → GovernanceDecision → Option Fault
unfolding is_expired type_value show
decision_fault env workspace t d =
    if truthy workspace && not (in_workspace (or_else workspace "") t d)
    then some (plain "workspace_mismatch")
    else if is_expired env.now d
    then some (plain "decision_expired")
    else if is_revoked d.decision_type || is_some d.revoked_at
    then some (plain "decision_revoked")
    else if is_some d.superseded_at
    then some (record {
      logged = "decision_superseded";
      told =
          "Decision superseded at "
          <> show (or_else d.superseded_at 0)
          <> " — authority transferred";
    })
    else if not (is_allow d.decision_type)
    then some (record {
      logged = "decision_not_allowed";
      told = "Decision type is " <> type_value d.decision_type <> " — not allowed";
    })
    else none

abbrev pub in_memory_active : TokenVerifier → GovernanceDecision → Bool
in_memory_active v d = elim v.kill_switch [
  | none ↦ false
  | some k ↦ (check k d.actor_id (some d.tenant_id) (some d.decision_id)).active
]

abbrev pub invalid : String → Option GovernanceDecision → VerificationResult
invalid r d = record { valid = false; reason = r; decision = d }

abbrev pub accepted : GovernanceDecision → VerificationResult
accepted d = record { valid = true; reason = ""; decision = some d }

module _ (env : Env) (v : TokenVerifier) (token_id : String) (context : Fields) where
  -- Audit, and answer.
  unfoldable pub deny : Fault → Option GovernanceDecision → Option String → App VerificationResult
  unfolding audit_token_verification
  deny f d id = do
    audit_token_verification v token_id false f.logged context d id
    pure (invalid f.told d)

  unfoldable pub accept : GovernanceDecision → App VerificationResult
  unfolding audit_token_verification
  accept d = do
    audit_token_verification v token_id true "verified" context (some d) none
    pure (accepted d)

  -- The scope, the in-memory switch and the switches of the database.
  unfoldable pub verify_use :
      String → Option String → TokenRow → GovernanceDecision → App VerificationResult
  unfolding deny accept
  verify_use action resource t d =
      if not (covers d.scope action resource)
      then deny (plain "scope_mismatch") (some d) none
      else if in_memory_active v d
      then deny (plain "kill_switch_active") (some d) none
      else do
        switch ←
            check_kill_switch d.tenant_id d.actor_id action resource
              (opt_or (get_text "tool" context) t.tool) d.decision_id
        if is_some switch then deny (plain "kill_switch_active") (some d) none else accept d

  -- The decision's own state, and then its ancestors.
  unfoldable pub verify_decision_row :
      String → Option String → TokenRow → GovernanceDecision → App VerificationResult
  unfolding verify_use deny
  verify_decision_row action resource t d =
      elim (decision_fault env (get_text "workspace_id" context) t d) [
        | some f ↦ deny f (some d) none
        | none ↦ do
          fault ← check_ancestry env d
          elim fault [
            | some r ↦ deny (plain r) (some d) none
            | none ↦ verify_use action resource t d
          ]
      ]

  unfoldable pub verify_linked :
      String → Option String → TokenRow → Option GovernanceDecision → App VerificationResult
  unfolding verify_decision_row deny
  verify_linked action resource t none = deny (plain "decision_not_found") none (some t.decision_id)
  verify_linked action resource t (some row) = verify_decision_row action resource t (rebuilt t row)

  unfoldable pub verify_row : String → Option String → Option TokenRow → App VerificationResult
  unfolding verify_linked deny
  verify_row action resource none = deny (plain "token_not_found") none none
  verify_row action resource (some t) = elim (token_fault env t) [
    | some r ↦ deny (plain r) none none
    | none ↦ do
      d ← resolve_decision t.decision_id (get_text "tenant_id" context)
      verify_linked action resource t d
  ]

  unfoldable pub verify_token : String → Option String → App VerificationResult
  unfolding verify_row
  verify_token action resource =
      if token_id == "" then pure (invalid "token_id_invalid" none) else do
        t ← resolve_token token_id (get_text "tenant_id" context)
        verify_row action resource t

pub record IntrospectionResult : Type 0 where
  pub active : Bool
  pub reason : Option String
  pub kill_switch : Bool
  pub decision : Option GovernanceDecision
  pub token : Option TokenRow

abbrev with_workspace : Option String → Fields → Fields
with_workspace w context = elim (opt_or w (get_text "workspace_id" context)) [
  | none ↦ context
  | some s ↦ field "workspace_id" (text s) context
]

-- `introspect_token`: the workspace of the call replaces that of the context.
unfoldable pub introspect_token :
    Env
    → TokenVerifier
    → String
    → String
    → Option String
    → Option String
    → Fields
    → App IntrospectionResult
introspect_token env v token_id action resource workspace context = do
  let context' = with_workspace workspace context
  r ← verify_token env v token_id context' action resource
  token ← resolve_token token_id (get_text "tenant_id" context')
  pure (record {
    active = r.valid;
    reason = if r.valid then none else some r.reason;
    kill_switch = r.reason == "kill_switch_active";
    decision = r.decision;
    token = token;
  })

-- `verify_decision`: no token.
module _ (env : Env) (v : TokenVerifier) (d : GovernanceDecision) (context : Fields) where
  refuse : String → String → App VerificationResult
  unfolding audit_decision_verification
  refuse logged told = do
    audit_decision_verification v d false logged context
    pure (invalid told (some d))

  unfoldable pub verify_decision : String → Option String → App VerificationResult
  unfolding refuse
  verify_decision action resource =
      if is_expired env.now d
      then refuse "expired" "decision_expired"
      else if is_revoked d.decision_type
      then refuse "revoked" "decision_revoked"
      else if not (covers d.scope action resource)
      then refuse "scope_mismatch" "scope_mismatch"
      else if in_memory_active v d
      then refuse "kill_switch" "kill_switch"
      else do
        fault ← check_ancestry env d
        elim fault [
          | some r ↦ refuse r r
          | none ↦ do audit_decision_verification v d true "verified" context; pure (accepted d)
        ]
