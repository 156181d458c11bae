-- ===== src/Scenarios/Scores.antt =====
-- Two agents whose trust is computed and overridden.
use ledger_sdk.Prelude.{
  ◌<>◌, sort_by, Bool, ◌==◌, ◌||◌, if◌then◌else◌, Option, none, ℕ, ◌≡◌, refl, String, true, false,
  none, some, List, [], ◌∷◌, ◌+ℤ◌, ◌-ℤ◌, pos, arith,
}
use ledger_sdk.Exec.{Exn, exn, other_error, ok, raised, Result, Exec, ◌>>=◌, ◌>>◌}
use ledger_sdk.IdentityManager.{
  AgentIdentity, Identities, IdentityEnv, register_agent, revoke_agent, verify_agent,
  authenticate_agent,
}
use ledger_sdk.TrustBands.{trusted, highly_trusted}
use ledger_sdk.TrustScore.{AgentRow, TrustDb, TrustEnv}
use ledger_sdk.TrustScore.Store.{compute_and_store}
use ledger_sdk.TrustScore.Batch.{evaluate_all, batch_cause}
use ledger_sdk.TrustScore.Expiry.{OneCurrent}
use ledger_sdk.TrustScore.Current.{
  TrustCall, compute, override, batch, after_calls, after_calls-OneCurrent,
}

abbrev agent_row : String → AgentRow
agent_row id = record {
  agent_id = id;
  health_score = pos 90;
  quarantined = false;
  actions_today = pos 10;
  token_spend = pos 95_000;
  token_budget = pos 100_000;
  compliance = [];
  created_at = 0;
  trust_band = none;
  probation_until = none;
  probation_reason = none;
  updated_at = 0;
}

abbrev trust_db : TrustDb
trust_db = record {
  agents = agent_row "b" ∷ agent_row "a" ∷ [];
  identities =
      record {
        agent_id = "a";
        verification_status = "verified";
        created_at = 0;
        failed_challenges = 0;
        challenge_count = 1;
      }
      ∷ [];
  snapshots = [];
  events = [];
  drawn = 0;
}

abbrev trust_env : ℕ → TrustEnv
trust_env now = record {
  db_pool = true;
  now = now;
  gen_random_uuid = λ n. "uuid";
  snapshot_refusal = λ s. none;
  band_refusal = λ b. none;
  event_refusal = λ e. none;
}

-- The tables of 017_trust_score_model.sql: bands in upper case.
abbrev is_schema_band : String → Bool
is_schema_band b =
    b == "REVOKED" || b == "PROBATION" || b == "STANDARD" || b == "TRUSTED" || b == "HIGHLY_TRUSTED"

abbrev check_violation : Exn
check_violation = exn other_error "violates check constraint"

abbrev deployed : ℕ → TrustEnv
deployed now = record (trust_env now) {
  snapshot_refusal = λ s. if is_schema_band s.band then none else some check_violation;
}

-- Under that check the first agent's snapshot is refused.
test_refused : (evaluate_all 3 (deployed 100) "acme" 1 trust_db).0 ≡ raised check_violation
unfolding evaluate_all sort_by ◌+ℤ◌ ◌-ℤ◌
test_refused = refl

-- Verified, health 90, and a budget that is nearly spent: 0.30 + 0.315 + 0.25.
test_level :
    (compute_and_store (trust_env 100) "a" "acme" batch_cause trust_db).0
    ≡ ok (record {
      agent_id = "a";
      score = pos 865_000;
      level = highly_trusted;
      factors =
          ("identity_verification", pos 300_000)
          ∷ ("operational_health", pos 315_000)
          ∷ ("governance_record", pos 250_000)
          ∷ [];
      snapshot_id = some "uuid";
    })
unfolding compute_and_store ◌+ℤ◌ ◌-ℤ◌
test_level = refl

abbrev calls : List TrustCall
calls =
    compute (trust_env 100) "a" "acme" batch_cause
    ∷ override (trust_env 200) "a" "acme" "op" trusted "review"
    ∷ batch 3 (trust_env 300) "acme" 1
    ∷ []

after_calls-OneCurrent_example : OneCurrent (after_calls calls trust_db)
after_calls-OneCurrent_example = after_calls-OneCurrent calls trust_db (λ actor. omega arith)

abbrev identity_env : IdentityEnv
identity_env = record {
  now = 50;
  generate_keypair = λ n. ("public", "secret");
  hash_secret = λ n s. "hmac$salt$" <> s;
  generate_api_key = λ n a t. "ak_key";
  hmac = λ salt s. s;
  checkpw = none;
}

-- Registered, revoked, and then verified as any other.
abbrev reinstated : Exec Identities (Option AgentIdentity)
reinstated = do
  register_agent identity_env "a" "acme" "reader" "op-1"
  revoke_agent "a" "leak"
  verify_agent identity_env "a" "op-2"
  authenticate_agent identity_env "a" "secret"

abbrev identity_status : Result (Option AgentIdentity) → Option String
identity_status (ok (some i)) = some i.verification_status
identity_status (ok none) = none
identity_status (raised e) = none

test_reinstated :
    identity_status (reinstated (record { identities = []; agents = []; drawn = 0 })).0
    ≡ some "verified"
unfolding register_agent revoke_agent verify_agent authenticate_agent ◌>>=◌
test_reinstated = refl
