-- ===== src/Vault/Revocation.antt =====
-- apps/runtime/citadel/tokens/token_vault.py, revoke_decision: what is dead after a revocation.
use ledger_sdk.Prelude.{
  ◌⊎◌, inl, inr, Bool-cases, String, Bool, true, false, ◌&&◌, ◌||◌, List, [], ◌∷◌, All, is_some,
  ◌==◌, ◌≡◌, refl, arith, if◌then◌else◌, ◌<>◌,
}
use ledger_sdk.GovernanceDecision.{GovernanceDecision, is_revoked}
use ledger_sdk.Db.{Env}
use ledger_sdk.Vault.{revoke_rows, revoke_to, itself, descendant, below}

-- The decision is the revoked one, or names it as its parent or as its root.
abbrev pub in_reach : String → String → GovernanceDecision → Bool
in_reach id tid d = (d.decision_id == id || below id d) && d.tenant_id == tid

abbrev pub is_dead : GovernanceDecision → Bool
is_dead d = is_some d.revoked_at || is_revoked d.decision_type

abbrev pub Dead : String → String → GovernanceDecision → Type 0
Dead id tid d = (in_reach id tid d ≡ false) ⊎ (is_dead d ≡ true)

abbrev first_update : Env → String → String → String → GovernanceDecision → GovernanceDecision
first_update env id tid reason d = if itself id tid d then revoke_to env reason d else d

abbrev second_update : Env → String → String → String → GovernanceDecision → GovernanceDecision
second_update env id tid reason d =
    if descendant id tid d then revoke_to env ("cascaded: " <> reason) d else d

dead_kept :
    (env : Env) (id tid reason : String) (d : GovernanceDecision)
    → is_dead d ≡ true
    → is_dead (second_update env id tid reason d) ≡ true
dead_kept env id tid reason d h = after (descendant id tid d)
  where
    after : (b : Bool) → is_dead (if b then revoke_to env ("cascaded: " <> reason) d else d) ≡ true
    after true = refl
    after false = h

reached :
    (id tid : String) (d : GovernanceDecision)
    → itself id tid d ≡ false
    → descendant id tid d ≡ false
    → in_reach id tid d ≡ true
    → is_dead d ≡ true
reached id tid d i c h = ground (arith, i, c, h)

untouched :
    (id tid : String) (d : GovernanceDecision)
    → itself id tid d ≡ false
    → descendant id tid d ≡ false
    → Dead id tid d
untouched id tid d i c = elim (Bool-cases (in_reach id tid d)) [
  | inl e ↦ inr (reached id tid d i c e)
  | inr e ↦ inl e
]

Dead-row :
    (env : Env) (id tid reason : String) (d : GovernanceDecision)
    → Dead id tid (second_update env id tid reason (first_update env id tid reason d))
Dead-row env id tid reason d = first (itself id tid d) refl
  where
    second :
        (b : Bool)
        → descendant id tid d ≡ b
        → itself id tid d ≡ false
        → Dead id tid (if b then revoke_to env ("cascaded: " <> reason) d else d)
    second true e i = inr refl
    second false e i = untouched id tid d i e

    first :
        (b : Bool)
        → itself id tid d ≡ b
        → Dead id tid (second_update env id tid reason (if b then revoke_to env reason d else d))
    first true e = inr (dead_kept env id tid reason (revoke_to env reason d) refl)
    first false e = second (descendant id tid d) refl e

-- After the revocation of a decision, the decision itself and every decision of the tenant that
-- names it as its parent or as its root is revoked, whatever the rows were.
pub revoke_rows-Dead :
    (env : Env) (id tid reason : String) (rows : List GovernanceDecision)
    → All (Dead id tid) (revoke_rows env id tid reason rows)
unfolding revoke_rows
revoke_rows-Dead env id tid reason [] = tt
revoke_rows-Dead env id tid reason (d ∷ rows) =
    (Dead-row env id tid reason d, revoke_rows-Dead env id tid reason rows)
