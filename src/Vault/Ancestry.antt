-- ===== src/Vault/Ancestry.antt =====
-- apps/runtime/citadel/tokens/token_vault.py, check_ancestry: what it answers, as a function of the
-- state that it leaves alone.
use ledger_sdk.Prelude.{String, Option, none, some, find_by, ◌≡◌, refl, ◌∙◌}
use ledger_sdk.Exec.{ok, ◌>>=◌, pure, bind_ok}
use ledger_sdk.GovernanceDecision.{GovernanceDecision}
use ledger_sdk.Db.{App, Env, World}
use ledger_sdk.Vault.{
  check_ancestry, check_one, resolve_decision, ancestor_fault, decision_at, parent_to_check,
  root_to_check,
}

-- What is wrong with the ancestor that is named, if one is.
ancestor_state : Env → String → Option String → String → World → Option String
ancestor_state env who none tid w = none
ancestor_state env who (some id) tid w =
    ancestor_fault env who (find_by (decision_at id (some tid)) w.db.governance_decisions)

or_root : Env → GovernanceDecision → World → Option String → Option String
or_root env d w (some r) = some r
or_root env d w none = ancestor_state env "root" (root_to_check d) d.tenant_id w

unfoldable pub ancestry_fault : Env → GovernanceDecision → World → Option String
unfolding ancestor_state or_root
ancestry_fault env d w =
    or_root env d w (ancestor_state env "parent" (parent_to_check d) d.tenant_id w)

check_one-ancestor_state :
    (env : Env) (who : String) (id : Option String) (tid : String) (w : World)
    → check_one env who id (some tid) w ≡ (ok (ancestor_state env who id tid w), w)
unfolding check_one ancestor_state resolve_decision ◌>>=◌
check_one-ancestor_state env who none tid w = refl
check_one-ancestor_state env who (some id) tid w = refl

pub check_ancestry-ancestry_fault :
    (env : Env) (d : GovernanceDecision) (w : World)
    → check_ancestry env d w ≡ (ok (ancestry_fault env d w), w)
unfolding check_ancestry ancestry_fault or_root
check_ancestry-ancestry_fault env d w =
    bind_ok (check_one env "parent" (parent_to_check d) (some d.tenant_id)) go_on w w _
      (check_one-ancestor_state env "parent" (parent_to_check d) d.tenant_id w)
    ∙ after (ancestor_state env "parent" (parent_to_check d) d.tenant_id w)
  where
    go_on : Option String → App (Option String)
    go_on fault = elim fault [
      | some reason ↦ pure (some reason)
      | none ↦ check_one env "root" (root_to_check d) (some d.tenant_id)
    ]

    after : (o : Option String) → go_on o w ≡ (ok (or_root env d w o), w)
    after none = check_one-ancestor_state env "root" (root_to_check d) d.tenant_id w
    after (some r) = refl
