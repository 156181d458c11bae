-- ===== src/Scenarios/Tokens.antt =====
-- A token that verifies, and its decision after a revocation.
use ledger_sdk.Prelude.{◌↔◌, true, false, none, some, [], ◌∷◌, All, ◌≡◌, refl}
use ledger_sdk.Values.{Fields, field, end, text, get_text, get}
use ledger_sdk.Exec.{ok, ◌>>=◌}
use ledger_sdk.GovernanceDecision.{covers, is_expired, fnmatch, GovernanceDecision}
use ledger_sdk.GovernanceDecision.Coverage.{Covered, covers-Covered}
use ledger_sdk.Db.{World, TokenRow}
use ledger_sdk.Vault.{
  issue_token_for_decision, resolve_token, resolve_decision, revoke_decision, revoke_rows,
  check_ancestry, check_kill_switch,
}
use ledger_sdk.Vault.Issue.{Issued, issue_token-Issued}
use ledger_sdk.Vault.Revocation.{Dead, in_reach, revoke_rows-Dead}
use ledger_sdk.Verifier
use ledger_sdk.Verifier.Soundness.{verify_token-Verified, Verified}
use ledger_sdk.Verifier.Revoked.{verify-revoke_decision}
use ledger_sdk.Scenarios.{env, empty_db, world_of, decision, token}

abbrev verifier : Verifier.TokenVerifier
verifier = record { kill_switch = none; has_audit = true }

abbrev context : Fields
context = field "tenant_id" (text "acme") end

abbrev issued : World
issued =
    world_of
      (record empty_db { governance_decisions = decision ∷ []; governance_tokens = token ∷ [] })

abbrev answer : Verifier.VerificationResult
answer = Verifier.accepted (Verifier.rebuilt token decision)

verify_test :
    (Verifier.verify_token env verifier "gt_cap_1" context "file.read" none issued).0 ≡ ok answer
unfolding Verifier.verify_token Verifier.verify_row Verifier.verify_linked
    Verifier.verify_decision_row Verifier.verify_use Verifier.accept
    Verifier.audit_token_verification Verifier.token_fault Verifier.decision_fault resolve_token
    resolve_decision check_ancestry check_kill_switch covers is_expired get_text get ◌>>=◌ fnmatch
verify_test = refl

verify_token-Verified_example : Verified env verifier "gt_cap_1" context "file.read" none issued
verify_token-Verified_example =
    verify_token-Verified env verifier "gt_cap_1" context "file.read" none issued answer verify_test
      refl

revoke_rows-Dead_example :
    All (Dead "d1" "acme") (revoke_rows env "d1" "acme" "incident" (decision ∷ []))
revoke_rows-Dead_example = revoke_rows-Dead env "d1" "acme" "incident" (decision ∷ [])

-- The revocation of another decision leaves this one valid.
abbrev elsewhere : World
elsewhere = (revoke_decision env "d9" "acme" "incident" issued).1

verify_elsewhere :
    (Verifier.verify_token env verifier "gt_cap_1" context "file.read" none elsewhere).0 ≡ ok answer
unfolding Verifier.verify_token Verifier.verify_row Verifier.verify_linked
    Verifier.verify_decision_row Verifier.verify_use Verifier.accept
    Verifier.audit_token_verification Verifier.token_fault Verifier.decision_fault resolve_token
    resolve_decision check_ancestry check_kill_switch covers is_expired get_text get ◌>>=◌ fnmatch
    revoke_decision revoke_rows
verify_elsewhere = refl

verify-revoke_decision_example :
    (t : TokenRow) × (row : GovernanceDecision) × ((resolve_token "gt_cap_1"
        (get_text "tenant_id" context)
        elsewhere).0
      ≡ ok (some t))
    × ((resolve_decision t.decision_id (get_text "tenant_id" context) elsewhere).0 ≡ ok (some row))
    × (in_reach "d9" "acme" row ≡ false)
verify-revoke_decision_example =
    verify-revoke_decision env "d9" "acme" "incident" issued verifier "gt_cap_1" context "file.read"
      none answer verify_elsewhere refl

issue_token-Issued_example :
    Issued decision issued (issue_token_for_decision env (λ d n. "hash") decision 120 none issued)
issue_token-Issued_example = issue_token-Issued env (λ d n. "hash") decision 120 none issued

covers-Covered_example :
    (covers decision.scope "file.read" (some "notes") ≡ true)
    ↔ Covered decision.scope "file.read" (some "notes")
covers-Covered_example = covers-Covered decision.scope "file.read" (some "notes")
