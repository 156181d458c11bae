-- ===== src/Vault/Issue.antt =====
-- apps/runtime/citadel/tokens/token_vault.py, issue_token_for_decision: a token comes from a
-- decision that allows, or nothing is written.
use ledger_sdk.Prelude.{
  ℕ, String, true, false, not, ◌&&◌, ◌==◌, Option, some, List, ◌∷◌, opt_eq, ◌≡◌, refl, sym, ap,
  arith, eq_refl, Bool-cases, inl, inr, if_true, if_false, find_by,
}
use mathlib.Core.Path.{subst}
use ledger_sdk.Exec.{Result, ok, raised, ◌>>=◌, ◌>>◌, pure}
use ledger_sdk.GovernanceDecision.{GovernanceDecision, is_allow}
use ledger_sdk.Db.{Env, App, World, TokenRow}
use ledger_sdk.Vault.{derive, issue_token_for_decision, store_decision, store_token, resolve_token}

-- What an issue gives: the token of the decision, which its tenant can resolve, or an exception and
-- no change.
pub Issued : GovernanceDecision → World → Result TokenRow × World → Type 0
Issued d w (ok t, w') =
    (is_allow d.decision_type ≡ true)
    × (t.decision_id ≡ d.decision_id)
    × (t.tenant_id ≡ d.tenant_id)
    × (t.scope_actions ≡ d.scope.actions)
    × (t.scope_resources ≡ d.scope.resources)
    × ((resolve_token t.token_id (some d.tenant_id) w').0 ≡ ok (some t))
Issued d w (raised e, w') = (is_allow d.decision_type ≡ false) × (w' ≡ w)

newest :
    (t : TokenRow) (rows : List TokenRow)
    → find_by
        (λ row. row.token_id == t.token_id && opt_eq (some t.tenant_id) (some row.tenant_id))
        (t ∷ rows)
      ≡ some t
newest t rows = ground (arith, eq_refl t.token_id, eq_refl t.tenant_id)

-- An issue from a decision that allows gives a token with the tenant, the decision and the scope
-- of that decision, which its tenant can then resolve; from any other decision it raises and
-- changes nothing.
pub issue_token-Issued :
    (env : Env) (content_hash : GovernanceDecision → ℕ → String) (d : GovernanceDecision)
    (lifetime : ℕ) (tool : Option String) (w : World)
    → Issued d w (issue_token_for_decision env content_hash d lifetime tool w)
unfolding issue_token_for_decision derive store_decision store_token resolve_token Issued ◌>>=◌
issue_token-Issued env content_hash d lifetime tool w =
    elim (Bool-cases (is_allow d.decision_type)) [
      | inl e ↦
          subst (λ (m : App TokenRow). Issued d w ((m >>= store) w))
            (sym (if_false (not (is_allow d.decision_type)) _ _ (ap not e)))
            (e, refl, refl, refl, refl, ap ok (newest _ w.db.governance_tokens))
      | inr e ↦
          subst (λ (m : App TokenRow). Issued d w ((m >>= store) w))
            (sym (if_true (not (is_allow d.decision_type)) _ _ (ap not e))) (e, refl)
    ]
  where
    store : TokenRow → App TokenRow
    store token = do store_decision d; store_token token; pure token
