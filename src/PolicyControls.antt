-- ===== src/PolicyControls.antt =====
-- apps/runtime/citadel/services/policy_controls.py: the no-code threshold above which an action
-- needs approval, compiled to the rules of an ordinary policy.
pub mod Threshold
use ledger_sdk.Prelude.{
  ℕ, String, ℤ, pos, Bool, true, false, not, ◌&&◌, ◌||◌, Option, none, some, List, [], ◌∷◌, ◌==◌,
  ltb_ℤ, leb_ℤ, ltb, str_or, show_ℤ, ◌+ℤ◌, update_where, find_by, opt_eq, mem_str, if◌then◌else◌,
  ◌<>◌,
}
use ledger_sdk.Exec.{Exec, Result, ok, raised, exn, value_error, pure, lift, ◌>>=◌, ◌>>◌}
use ledger_sdk.PolicyRules.{Rule, condition_text, parsed}
use ledger_sdk.Db.{App, Env, World, fresh, set_db, read_db, PolicyRow}

pub record ApprovalThresholdControl : Type 0 where
  pub risk_score_threshold : ℤ
  pub approval_priority : String
  pub approval_expiry_hours : ℕ
  pub reason : Option String

abbrev pub allowed_priorities : List String
allowed_priorities = "low" ∷ "medium" ∷ "high" ∷ "critical" ∷ []

unfoldable pub validate_approval_threshold : ApprovalThresholdControl → Result (Unit {0})
validate_approval_threshold c =
    if ltb_ℤ c.risk_score_threshold (pos 0) || ltb_ℤ (pos 100) c.risk_score_threshold
    then raised (exn value_error "risk_score_threshold must be between 0 and 100")
    else if not (mem_str c.approval_priority allowed_priorities)
    then raised (exn value_error "approval_priority must be one of: critical, high, low, medium")
    else if ltb c.approval_expiry_hours 1 || ltb 168 c.approval_expiry_hours
    then raised (exn value_error "approval_expiry_hours must be between 1 and 168")
    else ok tt

unfoldable pub risk_level_for_threshold : ℤ → String
risk_level_for_threshold t =
    if leb_ℤ (pos 90) t
    then "critical"
    else if leb_ℤ (pos 70) t
    then "high"
    else if leb_ℤ (pos 40) t
    then "medium"
    else "low"

unfoldable pub threshold_rule : ApprovalThresholdControl → Rule
unfolding risk_level_for_threshold show_ℤ
threshold_rule c =
    let t = c.risk_score_threshold in
    record {
      name = some ("approval_threshold_risk_score_gt_" <> show_ℤ t);
      effect = some "PENDING_APPROVAL";
      condition = some (condition_text ("risk_score > " <> show_ℤ t));
      requires_approval = some true;
      approval_priority = some c.approval_priority;
      approval_expiry_hours = some c.approval_expiry_hours;
      reason =
          some (str_or c.reason ("Risk score above " <> show_ℤ t <> " requires human approval"));
      risk_level = some (risk_level_for_threshold t);
      risk_score = some (if ltb_ℤ t (pos 100) then t +ℤ pos 1 else pos 100);
    }

-- The value under the key `rules`; the keys `generated_by` and `control` are not read back.
unfoldable pub build_approval_threshold_rules : ApprovalThresholdControl → Result (List Rule)
unfolding validate_approval_threshold threshold_rule
build_approval_threshold_rules c = elim (validate_approval_threshold c) [
  | ok _ ↦ ok (threshold_rule c ∷ [])
  | raised e ↦ raised e
]

abbrev pub policy_name : String
policy_name = "No-code Approval Threshold"

abbrev control_policy : String → PolicyRow → Bool
control_policy tid p =
    opt_eq p.tenant_id (some tid)
    && p.name == policy_name
    && p.scope_type == "tenant"
    && p.scope_value == tid
    && p.status == "active"

unfoldable pub get_active_approval_threshold : String → App (Option PolicyRow)
get_active_approval_threshold tid = read_db (λ db. find_by (control_policy tid) db.policies)

abbrev retire : PolicyRow → PolicyRow
retire p = record p { status = "retired" }

-- `apply_approval_threshold`: validation, then one transaction that retires the active version and
-- inserts the new one. `stamp` is the instant as `strftime` prints it.
unfoldable pub apply_approval_threshold :
    Env → String → String → ApprovalThresholdControl → App PolicyRow
unfolding build_approval_threshold_rules
apply_approval_threshold env stamp tid control = do
  rules ← lift (build_approval_threshold_rules control)
  policy_id ← fresh env
  let row : PolicyRow = record {
    policy_id = policy_id;
    name = policy_name;
    version = "approval-threshold-" <> stamp;
    scope_type = "tenant";
    scope_value = tid;
    tenant_id = some tid;
    status = "active";
    rules_json = parsed rules;
  }
  set_db λ db. record db { policies = row ∷ update_where (control_policy tid) retire db.policies }
  pure row
