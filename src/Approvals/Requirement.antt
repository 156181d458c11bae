-- ===== src/Approvals/Requirement.antt =====
-- apps/runtime/citadel/services/approval_service.py, check_required: when an approval is asked for.
use ledger_sdk.Prelude.{
  String, ℤ, true, Option, some, List, [], ◌∷◌, any, find_by, ◌≡◌, inl, inr, Bool-cases, arith,
  false_elim,
}
use ledger_sdk.Actions.{Action}
use ledger_sdk.PolicyRules.{Rule}
use ledger_sdk.PolicyResolver.{PolicySnapshot, get_rules}
use ledger_sdk.Approvals.{check_required, asks_approval}

asking :
    (rules : List Rule)
    → any asks_approval rules ≡ true
    → (r : Rule) × (find_by asks_approval rules ≡ some r)
asking [] h = false_elim h
asking (r ∷ rules) h = elim (Bool-cases (asks_approval r)) [
  | inl e ↦ (r, ground (arith, e))
  | inr e ↦ (let (q, f) = asking rules (ground (arith, e, h)) in (q, ground (arith, e, f)))
]

-- One rule of the snapshot that asks for approval makes it required for every action, whatever the
-- action, the rule's condition and the risk.
pub check_required-any :
    (action : Action) (s : PolicySnapshot) (level : Option String) (score : Option ℤ)
    → any asks_approval (get_rules s) ≡ true
    → (check_required action (some s) level score).required ≡ true
unfolding check_required
check_required-any action s level score h = let (r, e) = asking (get_rules s) h in ground (arith, e)
