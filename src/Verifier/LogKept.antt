-- ===== src/Verifier/LogKept.antt =====
-- apps/runtime/citadel/tokens/token_verifier.py: a verification writes the governance log only, and
-- leaves the audit log of the kernel alone.
use ledger_sdk.Prelude.{String, Option, none, some}
use ledger_sdk.Values.{Fields, get_text}
use ledger_sdk.Exec.Keeps.{Keeps-option, Keeps-bind, Keeps, keeps_rules}
use ledger_sdk.GovernanceDecision.{GovernanceDecision}
use ledger_sdk.Db.{World, Env, TokenRow}
use ledger_sdk.Repository.Frame.{Framed, Keeps-read_db, Keeps-set_db}
use ledger_sdk.Vault.{resolve_token, resolve_decision, check_kill_switch}
use ledger_sdk.Vault.LogKept.{Keeps-check_ancestry}
use ledger_sdk.Verifier.{
  token_fault, decision_fault, TokenVerifier, Fault, audit_token_verification, deny, accept,
  verify_use, verify_decision_row, verify_linked, verify_row, verify_token,
}

module _ {env : Env} {I : World → Type 0} (frame : Framed env I) (v : TokenVerifier) (id : String)
    (context : Fields) where
  Keeps-deny :
      (f : Fault) (d : Option GovernanceDecision) (decision_id : Option String)
      → Keeps I (deny env v id context f d decision_id)
  unfolding deny audit_token_verification
  Keeps-deny f d decision_id = search (keeps_rules, Keeps-set_db frame) depth 10

  Keeps-accept : (d : GovernanceDecision) → Keeps I (accept env v id context d)
  unfolding accept audit_token_verification
  Keeps-accept d = search (keeps_rules, Keeps-set_db frame) depth 10

  Keeps-verify_use :
      (action : String) (resource : Option String) (t : TokenRow) (d : GovernanceDecision)
      → Keeps I (verify_use env v id context action resource t d)
  unfolding verify_use check_kill_switch
  Keeps-verify_use action resource t d =
      search (keeps_rules, Keeps-deny, Keeps-accept, Keeps-read_db frame) depth 12

  Keeps-verify_decision_row :
      (action : String) (resource : Option String) (t : TokenRow) (d : GovernanceDecision)
      → Keeps I (verify_decision_row env v id context action resource t d)
  unfolding verify_decision_row
  Keeps-verify_decision_row action resource t d =
      Keeps-option (decision_fault env (get_text "workspace_id" context) t d) _ _
        (Keeps-bind _ _ (Keeps-check_ancestry frame env d) λ fault.
          Keeps-option fault _ _ (Keeps-verify_use action resource t d) λ r. search (Keeps-deny))
        λ f. search (Keeps-deny)

  Keeps-verify_linked :
      (action : String) (resource : Option String) (t : TokenRow) (d : Option GovernanceDecision)
      → Keeps I (verify_linked env v id context action resource t d)
  unfolding verify_linked
  Keeps-verify_linked action resource t none = search (Keeps-deny)
  Keeps-verify_linked action resource t (some d) = search (Keeps-verify_decision_row)

  Keeps-verify_row :
      (action : String) (resource : Option String) (t : Option TokenRow)
      → Keeps I (verify_row env v id context action resource t)
  unfolding verify_row resolve_decision
  Keeps-verify_row action resource none = search (Keeps-deny)
  Keeps-verify_row action resource (some t) =
      Keeps-option (token_fault env t) _ _
        (Keeps-bind _ _ (Keeps-read_db frame _) λ d. Keeps-verify_linked action resource t d)
        λ r. search (Keeps-deny)

  pub Keeps-verify_token :
      (action : String) (resource : Option String)
      → Keeps I (verify_token env v id context action resource)
  unfolding verify_token resolve_token
  Keeps-verify_token action resource =
      search (keeps_rules, Keeps-read_db frame, Keeps-verify_row) depth 12
