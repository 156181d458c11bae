-- ===== src/Verifier/Revoked.antt =====
-- apps/runtime/citadel/tokens/token_verifier.py after token_vault.py's revoke_decision: a revoked
-- decision verifies no token.
use ledger_sdk.Prelude.{
  ◌⊎◌, inl, inr, ℕ, String, Bool, true, false, ◌||◌, Option, some, is_some, All-find_by, ◌≡◌, arith,
}
use ledger_sdk.Values.{Fields, get_text}
use ledger_sdk.Exec.{ok}
use ledger_sdk.GovernanceDecision.{GovernanceDecision, is_allow, is_revoked, DecisionType}
use ledger_sdk.Db.{Env, World, TokenRow}
use ledger_sdk.Vault.{resolve_token, resolve_decision, revoke_decision, decision_at}
use ledger_sdk.Vault.Revocation.{in_reach, Dead, is_dead, revoke_rows-Dead}
use ledger_sdk.Verifier.{VerificationResult, TokenVerifier, verify_token, rebuilt}
use ledger_sdk.Verifier.Soundness.{Current, Verified, verify_token-Verified}

-- A current decision is not dead.
Current-alive :
    (env : Env) (t : TokenRow) (d : GovernanceDecision)
    → Current env (rebuilt t d)
    → is_dead d ≡ false
unfolding Current
Current-alive env t d (a, e, r, s) = alive d.decision_type d.revoked_at a r
  where
    alive :
        (k : DecisionType) (r : Option ℕ)
        → is_allow k ≡ true
        → is_some r ≡ false
        → is_some r || is_revoked k ≡ false
    alive k r a e = ground (arith, a, e)

contrary : (b c : Bool) → (b ≡ false) ⊎ (c ≡ true) → c ≡ false → b ≡ false
contrary b c (inl h) e = h
contrary b c (inr h) e = ground (arith, h, e)

-- In the state after the revocation of a decision, a token that is still found valid has a
-- decision out of the revocation's reach: neither the revoked one nor one of the tenant that names
-- it as its parent or root.
pub verify-revoke_decision :
    (env : Env) (id tid reason : String) (w : World) (v : TokenVerifier) (token : String)
    (context : Fields) (action : String) (resource : Option String) (r : VerificationResult)
    → let w' = (revoke_decision env id tid reason w).1 in
      (verify_token env v token context action resource w').0 ≡ ok r
      → r.valid ≡ true
      → (t : TokenRow) × (row : GovernanceDecision) × ((resolve_token token
            (get_text "tenant_id" context)
            w').0
          ≡ ok (some t))
        × ((resolve_decision t.decision_id (get_text "tenant_id" context) w').0 ≡ ok (some row))
        × (in_reach id tid row ≡ false)
unfolding Verified resolve_decision revoke_decision
verify-revoke_decision env id tid reason w v token context action resource r e valid =
    let w' = (revoke_decision env id tid reason w).1 in
    let (t, row, found_token, usable, found, current, ancestry, free) =
      verify_token-Verified env v token context action resource w' r e valid in
    (t, row, found_token, found, out_of_reach t row found current)
  where
    out_of_reach :
        (t : TokenRow) (row : GovernanceDecision)
        → (resolve_decision t.decision_id
            (get_text "tenant_id" context)
            (revoke_decision env id tid reason w).1).0
          ≡ ok (some row)
        → Current env (rebuilt t row)
        → in_reach id tid row ≡ false
    out_of_reach t row found current =
        contrary (in_reach id tid row) (is_dead row)
          (All-find_by (Dead id tid) (decision_at t.decision_id (get_text "tenant_id" context)) _
            row (revoke_rows-Dead env id tid reason w.db.governance_decisions)
            (ground (arith, found)))
          (Current-alive env t row current)
