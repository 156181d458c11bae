-- ===== src/Approvals.antt =====
-- apps/runtime/citadel/services/approval_service.py: when a human must approve, and the queue of
-- pending approvals.
pub mod Requirement
pub mod Queue
pub mod Pending
use ledger_sdk.Prelude.{
  ℕ, ◌+◌, ◌*◌, String, ℤ, pos, Bool, true, false, ◌&&◌, ◌||◌, Option, none, some, List, [], ◌∷◌,
  ◌==◌, ltb, ltb_ℤ, or_else, str_or, opt_eq, find_by, update_where, count_where, show_ℤ,
  if◌then◌else◌, ◌<>◌,
}
use ledger_sdk.Exec.{Exec, Result, ok, raised, exn, value_error, pure, raise, lift, ◌>>=◌, ◌>>◌}
use ledger_sdk.Actions.{Action, KernelStatus, allowed, rejected_approval, expired_approval}
use ledger_sdk.PolicyRules.{Rule}
use ledger_sdk.Db.{App, Env, World, set_db, ApprovalRow}
use ledger_sdk.Repository.{create_approval, get_approval, get_pending_approvals}
use ledger_sdk.PolicyResolver.{PolicySnapshot, get_rules}

pub record ApprovalCheck : Type 0 where
  pub required : Bool
  pub priority : String
  pub reason : String
  pub expires_hours : ℕ
  pub risk_level : Option String

pub record ApprovalResult : Type 0 where
  pub approval_id : String
  pub status : String
  pub reviewed_by : Option String
  pub reason : Option String

-- The test on one rule: whether the rule matches the action is not asked.
abbrev pub asks_approval : Rule → Bool
asks_approval r = or_else r.requires_approval false || opt_eq r.effect (some "PENDING_APPROVAL")

abbrev pub by_rule : Rule → ApprovalCheck
by_rule r = record {
  required = true;
  priority = or_else r.approval_priority "high";
  reason = or_else r.reason "Approval required by policy";
  expires_hours = or_else r.approval_expiry_hours 24;
  risk_level = none;
}

abbrev pub asking_rule : Option PolicySnapshot → Option Rule
asking_rule none = none
asking_rule (some s) = find_by asks_approval (get_rules s)

-- `risk_score and risk_score > 70`
abbrev pub is_high : Option ℤ → Bool
is_high none = false
is_high (some n) = ltb_ℤ (pos 70) n

unfoldable pub risk_check : Option String → Option ℤ → ApprovalCheck
unfolding show_ℤ
risk_check level score =
    if is_high score
    then record {
      required = true;
      priority = "high";
      reason = "High risk action (score: " <> show_ℤ (or_else score (pos 0)) <> ")";
      expires_hours = 12;
      risk_level = none;
    }
    else if opt_eq level (some "critical")
    then record {
      required = true;
      priority = "critical";
      reason = "Critical risk action";
      expires_hours = 4;
      risk_level = none;
    }
    else record {
      required = false;
      priority = "low";
      reason = "No approval required";
      expires_hours = 24;
      risk_level = none;
    }

unfoldable pub check_required :
    Action → Option PolicySnapshot → Option String → Option ℤ → ApprovalCheck
unfolding risk_check
check_required action snapshot level score = elim (asking_rule snapshot) [
  | some r ↦ by_rule r
  | none ↦ risk_check level score
]

-- Instants are in microseconds.
abbrev pub hour : ℕ
hour = 3_600_000_000

unfoldable pub create_pending : Env → Action → ApprovalCheck → App String
create_pending env action check =
    create_approval env action.action_id check.priority check.reason action.actor_id
      (env.now + check.expires_hours * hour) action.tenant_id

abbrev pub pending_row : String → ApprovalRow → Bool
pending_row id ap = ap.approval_id == id && ap.status == "pending"

abbrev pub decided : Env → String → String → String → ApprovalRow → ApprovalRow
decided env reviewer decision reason ap = record ap {
  status = decision;
  reviewed_by = some reviewer;
  decided_at = some env.now;
  decision_reason = some reason;
}

-- Why no row was updated: the approval does not exist, or is no longer pending.
refused : String → Option ApprovalRow → App ApprovalResult
refused id none = raise value_error ("Approval " <> id <> " not found")
refused id (some ap) = raise value_error ("Approval already " <> ap.status)

-- `resolve_approval`: one UPDATE of the row that is still pending.
unfoldable pub resolve_approval :
    Env → String → String → String → Option String → App ApprovalResult
unfolding refused
resolve_approval env id reviewer decision reason w =
    let why = str_or reason ("Decision: " <> decision) in
    elim (find_by (pending_row id) w.db.approvals) [
      | some ap ↦ (
        ok (record {
          approval_id = id;
          status = decision;
          reviewed_by = some reviewer;
          reason = some why;
        }),
        record w {
          db = record w.db {
            approvals =
                update_where (pending_row id) (decided env reviewer decision why) w.db.approvals;
          };
        },
      )
      | none ↦ (get_approval id none >>= refused id) w
    ]

unfoldable pub approve : Env → String → String → Option String → App ApprovalResult
unfolding resolve_approval
approve env id reviewer reason = resolve_approval env id reviewer "approved" reason

unfoldable pub reject : Env → String → String → String → App ApprovalResult
unfolding resolve_approval
reject env id reviewer reason = resolve_approval env id reviewer "rejected" (some reason)

abbrev pub past_expiry : Env → ApprovalRow → Bool
past_expiry env ap = ap.status == "pending" && ltb ap.expires_at env.now

unfoldable pub check_expired : Env → String → App Bool
check_expired env id = do
  ap ← get_approval id none
  pure (elim ap [ none ↦ false | some row ↦ past_expiry env row ])

abbrev pub expire : ApprovalRow → ApprovalRow
expire ap = record ap { status = "expired" }

-- `process_expirations`; the count that the driver reports is the number of rows updated.
unfoldable pub process_expirations : Env → App ℕ
process_expirations env w = (
  ok (count_where (past_expiry env) w.db.approvals),
  record w {
    db = record w.db { approvals = update_where (past_expiry env) expire w.db.approvals };
  },
)

unfoldable pub get_pending_queue : ℕ → Option String → App (List ApprovalRow)
get_pending_queue limit tid = get_pending_approvals limit tid

unfoldable pub resolve_approval_to_decision : ApprovalResult → Result KernelStatus
resolve_approval_to_decision r =
    if r.status == "approved"
    then ok allowed
    else if r.status == "rejected"
    then ok rejected_approval
    else if r.status == "expired"
    then ok expired_approval
    else raised (exn value_error ("Unknown approval status: " <> r.status))
