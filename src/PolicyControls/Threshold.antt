-- ===== src/PolicyControls/Threshold.antt =====
-- apps/runtime/citadel/services/policy_controls.py: what the rules of the threshold control do to
-- the approval check.
use ledger_sdk.Prelude.{String, ℤ, Option, true, some, List, ◌≡◌, arith}
use ledger_sdk.Exec.{ok}
use ledger_sdk.Actions.{Action}
use ledger_sdk.PolicyRules.{Rule}
use ledger_sdk.PolicyResolver.{PolicySnapshot, get_rules}
use ledger_sdk.Approvals.{check_required}
use ledger_sdk.Approvals.Requirement.{check_required-any}
use ledger_sdk.PolicyControls.{
  ApprovalThresholdControl, build_approval_threshold_rules, threshold_rule,
}

-- A snapshot of the rules of a valid threshold control makes every action wait for an approval,
-- also those whose risk score is at most the threshold.
pub threshold-check_required :
    (c : ApprovalThresholdControl) (rules : List Rule) (s : PolicySnapshot) (action : Action)
    (level : Option String) (score : Option ℤ)
    → build_approval_threshold_rules c ≡ ok rules
    → get_rules s ≡ rules
    → (check_required action (some s) level score).required ≡ true
unfolding build_approval_threshold_rules threshold_rule
threshold-check_required c rules s action level score built of =
    check_required-any action s level score (ground (arith, built, of))
