-- ===== src/Scenarios/Approvals.antt =====
-- The approval queue, and the threshold control.
use ledger_sdk.Prelude.{pos, true, none, some, [], ◌∷◌, All, Each, ◌≡◌, refl}
use ledger_sdk.Exec.{ok}
use ledger_sdk.Db.{World}
use ledger_sdk.PolicyResolver.{PolicySnapshot}
use ledger_sdk.Approvals.{resolve_approval, process_expirations, check_required}
use ledger_sdk.Approvals.Queue.{
  is_raised, resolve_approval-once, process_expirations-Unexpired, Unexpired, Expired,
}
use ledger_sdk.Approvals.Pending.{ShowsQueue, get_pending_queue-ShowsQueue}
use ledger_sdk.Approvals.Requirement.{check_required-any}
use ledger_sdk.PolicyControls.{
  ApprovalThresholdControl, build_approval_threshold_rules, threshold_rule,
  validate_approval_threshold,
}
use ledger_sdk.PolicyControls.Threshold.{threshold-check_required}
use ledger_sdk.Scenarios.{env, empty_db, world_of, action, approval}

abbrev waiting : World
waiting = world_of (record empty_db { approvals = approval ∷ [] })

abbrev settled : World
settled = (resolve_approval env "ap" "alice" "approved" none waiting).1

approved_test :
    (resolve_approval env "ap" "alice" "approved" none waiting).0
    ≡ ok (record {
      approval_id = "ap";
      status = "approved";
      reviewed_by = some "alice";
      reason = some "Decision: approved";
    })
unfolding resolve_approval
approved_test = refl

resolve_approval-once_example :
    (is_raised (resolve_approval env "ap" "bob" "rejected" none settled).0 ≡ true)
    × ((resolve_approval env "ap" "bob" "rejected" none settled).1 ≡ settled)
resolve_approval-once_example =
    resolve_approval-once env env "ap" "alice" "approved" none waiting _ refl approved_test "bob"
      "rejected" none

process_expirations-Unexpired_example :
    All (Unexpired env) (process_expirations env waiting).1.db.approvals
    × Each (Expired env) (approval ∷ []) (process_expirations env waiting).1.db.approvals
    × (process_expirations env (process_expirations env waiting).1
        ≡ (ok 0, (process_expirations env waiting).1))
process_expirations-Unexpired_example = process_expirations-Unexpired env waiting

abbrev control : ApprovalThresholdControl
control = record {
  risk_score_threshold = pos 70;
  approval_priority = "high";
  approval_expiry_hours = 24;
  reason = none;
}

abbrev snapshot : PolicySnapshot
snapshot = record {
  snapshot_id = "s";
  policy_id = "p";
  policy_version = "v";
  snapshot_hash = "h";
  snapshot_json = record {
    policy_id = "p";
    name = "No-code Approval Threshold";
    version = "v";
    scope_type = "tenant";
    scope_value = "acme";
    rules = threshold_rule control ∷ [];
    resolved_at = "r";
  };
}

built : build_approval_threshold_rules control ≡ ok (threshold_rule control ∷ [])
unfolding build_approval_threshold_rules validate_approval_threshold
built = refl

check_required-any_example : (check_required action (some snapshot) none none).required ≡ true
unfolding threshold_rule
check_required-any_example = check_required-any action snapshot none none refl

threshold-check_required_example :
    (check_required action (some snapshot) none (some (pos 1))).required ≡ true
threshold-check_required_example =
    threshold-check_required control (threshold_rule control ∷ []) snapshot action none
      (some (pos 1)) built refl

get_pending_queue-ShowsQueue_example : ShowsQueue 10 (some "acme") waiting
get_pending_queue-ShowsQueue_example = get_pending_queue-ShowsQueue 10 (some "acme") waiting
