-- ===== src/ExecutionMiddleware.antt =====
-- apps/runtime/citadel/tokens/execution_middleware.py: a credential is verified before an action
-- runs, and the outcome recorded. The audit logger is that of tokens/audit_trail.py; the rate
-- limiter is a parameter.
use ledger_sdk.Prelude.{String, Bool, not, Option, none, some, ◌∷◌, if◌then◌else◌}
use ledger_sdk.Values.{Fields, text, end, field, of_option}
use ledger_sdk.Exec.{pure, raise, other_error, ◌>>=◌, ◌>>◌}
use ledger_sdk.GovernanceDecision.{GovernanceDecision}
use ledger_sdk.Db.{App, Env, set_db}
use ledger_sdk.Verifier.{
  VerificationResult, TokenVerifier, or_unknown, invalid, verify_token, verify_decision,
}

-- A token's identifier, or a decision itself.
pub data Credential : Type 0 where
  token : String → Credential
  decision : GovernanceDecision → Credential

-- `type(credential).__name__`
abbrev credential_type : Credential → String
credential_type (token id) = "str"
credential_type (decision d) = "GovernanceDecision"

pub record ExecutionMiddleware : Type 0 where
  pub verifier : TokenVerifier
  pub rate_limiter : Option (GovernanceDecision → Fields → App Bool)

-- `GovernanceAuditTrail.record`
unfoldable pub record_audit :
    String → Option String → Option String → Option String → Fields → App Unit
record_audit event_type tenant_id actor_id decision_id payload = set_db (λ db. record db {
  governance_audit_log =
      record {
        event_type = event_type;
        tenant_id = tenant_id;
        actor_id = actor_id;
        decision_id = decision_id;
        token_id = none;
        payload = payload;
      }
      ∷ db.governance_audit_log;
})

abbrev decision_id_of : Option GovernanceDecision → Option String
decision_id_of none = none
decision_id_of (some d) = some d.decision_id

unfoldable pub record_execution_blocked :
    Credential → String → Option String → Fields → VerificationResult → App Unit
unfolding record_audit of_option
record_execution_blocked credential action resource context result =
    record_audit "execution.blocked" (or_unknown "tenant_id" context)
      (or_unknown "actor_id" context) (decision_id_of result.decision)
      (field "action" (text action) (
        field "resource" (of_option resource) (
          field "reason" (text result.reason)
            (field "credential_type" (text (credential_type credential)) end))))

unfoldable pub record_execution_rate_limited : GovernanceDecision → String → App Unit
unfolding record_audit
record_execution_rate_limited d action =
    record_audit "execution.rate_limited" (some d.tenant_id) (some d.actor_id) (some d.decision_id)
      (field "action" (text action) end)

unfoldable pub record_execution_allowed : GovernanceDecision → String → Option String → App Unit
unfolding record_audit of_option
record_execution_allowed d action resource =
    record_audit "execution.allowed" (some d.tenant_id) (some d.actor_id) (some d.decision_id)
      (field "action" (text action) (field "resource" (of_option resource) end))

unfoldable pub verify :
    Env → TokenVerifier → Credential → String → Option String → Fields → App VerificationResult
unfolding verify_token verify_decision
verify env v (token id) action resource context = verify_token env v id context action resource
verify env v (decision d) action resource context = verify_decision env v d context action resource

-- The rate limit, and the event of what is allowed, for the decision behind a valid result.
unfoldable pub admit :
    ExecutionMiddleware
    → String
    → Option String
    → Fields
    → VerificationResult
    → GovernanceDecision
    → App VerificationResult
unfolding record_execution_rate_limited record_execution_allowed ◌>>=◌
admit m action resource context result d = elim m.rate_limiter [
  | none ↦ do record_execution_allowed d action resource; pure result
  | some limiter ↦ do
    allowed ← limiter d context
    if allowed
        then (record_execution_allowed d action resource >> pure result)
        else (record_execution_rate_limited d action >> pure (invalid "rate_limited" none))
]

-- A valid result without a decision, on whose fields the source raises.
unfoldable pub settle :
    ExecutionMiddleware
    → Credential
    → String
    → Option String
    → Fields
    → VerificationResult
    → App VerificationResult
unfolding record_execution_blocked admit ◌>>=◌
settle m credential action resource context result =
    if not result.valid
    then (record_execution_blocked credential action resource context result >> pure result)
    else elim result.decision [
      | some d ↦ admit m action resource context result d
      | none ↦ raise other_error "'NoneType' object has no attribute 'tenant_id'"
    ]

unfoldable pub check :
    Env
    → ExecutionMiddleware
    → Credential
    → String
    → Option String
    → Fields
    → App VerificationResult
unfolding verify settle ◌>>=◌
check env m credential action resource context = do
  result ← verify env m.verifier credential action resource context
  settle m credential action resource context result
