-- ===== src/IdentityManager/Auth.antt =====
-- apps/runtime/citadel/agent_identity/auth.py: challenges, request signatures and the check of an
-- agent's trust level before a token is issued. The digests and base64 are parameters.
use Prim.Native.String.{len}
use ledger_sdk.Prelude.{
  is_some, ℕ, suc, ◌+◌, String, Bool, true, false, not, ◌&&◌, ◌||◌, Option, none, some, List, [],
  ◌∷◌, ◌==◌, ℤ, pos, negsuc, ◌-ℤ◌, any, find_by, update_where, ltb, leb, ltb_ℤ, eqb, mem_str,
  int_of, ◌≡◌, refl, if◌then◌else◌,
}
use ledger_sdk.Exec.{pure, raise, other_error, Exec, ok, ◌>>=◌, gets}
use ledger_sdk.IdentityManager.{AgentIdentity, is_identity}

-- A row of agent_challenges.
pub record Challenge : Type 0 where
  pub agent_id : String
  pub challenge : String
  pub expires_at : ℕ
  pub created_at : ℕ

pub record AuthWorld : Type 0 where
  pub identities : List AgentIdentity
  pub challenges : List Challenge
  pub drawn : ℕ

pub record AuthEnv : Type 0 where
  pub now : ℕ
  -- `sha256(f"{agent_id}:{time.time()}:{token_hex(16)}")`
  pub nonce : ℕ → String → String
  -- The length of `base64.b64decode(signature)`, or none where it raises.
  pub decoded_length : String → Option ℕ

abbrev is_challenge : String → Challenge → Bool
is_challenge id c = c.agent_id == id

unfoldable pub upsert_challenge : Challenge → List Challenge → List Challenge
upsert_challenge c rows =
    if any (is_challenge c.agent_id) rows
    then update_where (is_challenge c.agent_id) (λ (r : Challenge). c) rows
    else c ∷ rows

unfoldable pub generate_challenge : AuthEnv → String → Exec AuthWorld String
unfolding upsert_challenge
generate_challenge env id w =
    let challenge = env.nonce w.drawn id in
    (
      ok challenge,
      record w {
        challenges =
            upsert_challenge
              (record {
                agent_id = id;
                challenge = challenge;
                expires_at = env.now + 300;
                created_at = env.now;
              })
              w.challenges;
        drawn = suc w.drawn;
      },
    )

-- The response is compared with the challenge itself.
unfoldable pub verify_challenge : AuthEnv → String → String → Exec AuthWorld Bool
verify_challenge env id response = gets (λ (w : AuthWorld).
    elim (find_by (λ (c : Challenge). is_challenge id c && ltb env.now c.expires_at) w.challenges) [
      | none ↦ false
      | some c ↦ eqb (len response) (len c.challenge) && response == c.challenge
    ])

-- `abs(now - timestamp) > 300`
abbrev too_far : ℕ → ℤ → Bool
too_far now t = ltb_ℤ (pos 300) (pos now -ℤ t) || ltb_ℤ (pos 300) (t -ℤ pos now)

abbrev not_revoked : Option AgentIdentity → Bool
not_revoked none = false
not_revoked (some i) = not (i.verification_status == "revoked")

-- The message is built and not used.
unfoldable pub verify_request_signature : AuthEnv → String → String → String → Exec AuthWorld Bool
verify_request_signature env id signature timestamp = gets (λ (w : AuthWorld).
    elim (int_of timestamp) [
      | none ↦ false
      | some t ↦
          if too_far env.now t
          then false
          else if not (not_revoked (find_by (is_identity id) w.identities))
          then false
          else elim (env.decoded_length signature) [ none ↦ false | some n ↦ leb 32 n ]
    ])

-- `trust_levels.index(level)`, and -1 for another text.
unfoldable pub level_index : String → ℤ
level_index level =
    if level == "unverified"
    then pos 0
    else if level == "standard"
    then pos 1
    else if level == "trusted"
    then pos 2
    else if level == "highly_trusted"
    then pos 3
    else negsuc 0

unfoldable pub required_level : String → String
required_level action =
    if mem_str action ("execute" ∷ "deploy" ∷ [])
    then "trusted"
    else if mem_str action ("delete" ∷ "admin" ∷ [])
    then "highly_trusted"
    else "standard"

abbrev level_reached : String → AgentIdentity → Bool
level_reached action i =
    not (ltb_ℤ (level_index i.trust_level) (level_index (required_level action)))

abbrev allowed_level : String → AgentIdentity → Option String
allowed_level action i =
    if i.verification_status == "revoked"
    then none
    else if not (level_reached action i)
    then none
    else some i.trust_level

-- The level of an identity that may act; with a vault, the module that the method then imports
-- does not exist.
unfoldable pub verify_and_issue_token : Bool → String → String → Exec AuthWorld (Option String)
unfolding level_index required_level ◌>>=◌
verify_and_issue_token has_vault id action = do
  row ← gets (λ (w : AuthWorld). find_by (is_identity id) w.identities)
  let level : Option String = elim row [ none ↦ none | some i ↦ allowed_level action i ]
  if has_vault && is_some level
      then raise other_error "No module named 'citadel.execution.governance_token'"
      else pure level

abbrev test_env : AuthEnv
test_env = record { now = 10; nonce = λ n id. "nonce"; decoded_length = λ s. none }

abbrev echo : Exec AuthWorld Bool
echo = do challenge ← generate_challenge test_env "a"; verify_challenge test_env "a" challenge

-- Whoever sends the challenge back is let in.
test_echo : (echo (record { identities = []; challenges = []; drawn = 0 })).0 ≡ ok true
unfolding generate_challenge verify_challenge ◌>>=◌
test_echo = refl
