-- ===== src/Precedence.antt =====
-- apps/runtime/citadel/utils/precedence.py: kill switch, then capability, then policy, then the
-- choice of the execution path.
pub mod LogKept
pub mod Order
pub mod Status
use ledger_sdk.Prelude.{
  ℕ, String, ℤ, pos, Bool, true, false, not, ◌&&◌, ◌||◌, Option, none, some, List, [], ◌∷◌, ◌==◌,
  ltb_ℤ, or_else, str_or, opt_or, opt_eq, is_some, truthy, any, mem_str, starts_with, ends_with,
  drop_last, if◌then◌else◌, ◌<>◌,
}
use ledger_sdk.Values.{Fields, text, null, end, field, of_option}
use ledger_sdk.Exec.{Exec, Result, ok, raised, pure, lift, ◌>>=◌}
use ledger_sdk.Actions.{Action, KernelStatus, blocked_emergency, blocked_capability, blocked_policy}
use ledger_sdk.KillSwitch.{KillSwitch, check}
use ledger_sdk.Db.{App, Env, World, CapabilityRow, KillSwitchRow}
use ledger_sdk.Repository.{get_capability, consume_capability, check_kill_switch, ConsumeResult}
use ledger_sdk.PolicyResolver.{PolicySnapshot, PolicyEvaluationResult, evaluate, risk_score_of}
use ledger_sdk.Verifier.{TokenVerifier, VerificationResult, verify_token}

pub record PrecedenceResult : Type 0 where
  pub blocked : Bool
  pub status : Option KernelStatus
  pub winning_rule : String
  pub reason : String
  pub path_taken : Option String
  pub risk_level : Option String
  pub risk_score : Option ℤ

pub record KillSwitchStatus : Type 0 where
  pub active : Bool
  pub reason : Option String

pub record CapabilityStatus : Type 0 where
  pub valid : Bool
  pub reason : Option String
  pub remaining_uses : ℕ

-- The collaborators that the constructor receives beside the repository and the policy evaluator.
pub record Precedence : Type 0 where
  pub token_verifier : Option TokenVerifier
  pub governance_kill_switch : Option KillSwitch

abbrev switch_off : KillSwitchStatus
switch_off = record { active = false; reason = none }

-- A switch that was found is active; else the next lookup is made.
unfoldable pub switch_or : Option KillSwitchRow → App KillSwitchStatus → App KillSwitchStatus
switch_or (some k) next = pure (record { active = true; reason = k.reason })
switch_or none next = next

unfoldable pub check_repository : Action → App KillSwitchStatus
unfolding switch_or
check_repository action = do
  global ← check_kill_switch "global" "*" action.tenant_id
  switch_or global do
    by_action ← check_kill_switch "action" action.action_name action.tenant_id
    switch_or by_action do
      by_resource ← check_kill_switch "resource" action.resource action.tenant_id
      switch_or by_resource do
        by_actor ← check_kill_switch "actor" action.actor_id action.tenant_id
        switch_or by_actor (pure switch_off)

-- The in-memory switch for the request id, or else the idempotency key, of the action.
abbrev memory_switch : Precedence → Action → KillSwitchStatus
memory_switch p action = elim p.governance_kill_switch [
  | none ↦ switch_off
  | some k ↦
      let c =
        check k action.actor_id action.tenant_id
          (opt_or action.request_id action.idempotency_key) in
      record { active = c.active; reason = some c.reason }
]

unfoldable pub check_kill_switches : Precedence → Action → App KillSwitchStatus
unfolding check_repository
check_kill_switches p action =
    let m = memory_switch p action in if m.active then pure m else check_repository action

-- `prefix:*` and `prefix.*` cover the actions below `prefix.`.
unfoldable pub action_covered : String → String → Bool
action_covered scope name =
    if scope == "*"
    then true
    else if ends_with scope ":*" || ends_with scope ".*"
    then starts_with name (drop_last 2 scope <> ".")
    else name == scope

unfoldable pub capability_matches_scope : CapabilityRow → Action → Bool
unfolding action_covered
capability_matches_scope cap action =
    action_covered cap.action_scope action.action_name
    && (if cap.resource_scope == "*" then true else cap.resource_scope == action.resource)

abbrev unusable : String → CapabilityStatus
unusable r = record { valid = false; reason = some r; remaining_uses = 0 }

consumed_status : ConsumeResult → CapabilityStatus
consumed_status r =
    if r.success
    then record { valid = true; reason = none; remaining_uses = r.remaining_uses }
    else record { valid = false; reason = r.error; remaining_uses = 0 }

-- A capability of the repository: its scope, and then the atomic consumption.
use_capability : Env → Action → String → Option CapabilityRow → App CapabilityStatus
unfolding consumed_status
use_capability env action token none = pure (unusable "Capability not found")
use_capability env action token (some cap) =
    if not (capability_matches_scope cap action)
    then pure (
        unusable (
          "Capability scope " <> cap.action_scope <> " doesn't match action "
          <> action.action_name))
    else do r ← consume_capability env token action.actor_id; pure (consumed_status r)

verified_status : VerificationResult → CapabilityStatus
verified_status r =
    if r.valid
    then record { valid = true; reason = none; remaining_uses = 1 }
    else record { valid = false; reason = some r.reason; remaining_uses = 0 }

abbrev verifier_context : Action → Fields
verifier_context action =
    field "tenant_id" (of_option action.tenant_id) (field "actor_id" (text action.actor_id) end)

-- Governance tokens go to the verifier where there is one.
abbrev verifier_for : Precedence → String → Option TokenVerifier
verifier_for p token = if starts_with token "gt_cap_" then p.token_verifier else none

unfoldable pub check_capability : Env → Precedence → Action → String → App CapabilityStatus
unfolding use_capability verified_status
check_capability env p action token = elim (verifier_for p token) [
  | some v ↦ do
    r ← verify_token env v token (verifier_context action) action.action_name (some action.resource)
    pure (verified_status r)
  | none ↦ do cap ← get_capability token none; use_capability env action token cap
]

abbrev pub irreversible_actions : List String
irreversible_actions =
    "stripe.charge" ∷ "stripe.refund" ∷ "db.delete" ∷ "db.drop" ∷ "email.send" ∷ "email.bulk"
    ∷ "github.commit" ∷ "github.merge" ∷ []

unfoldable pub is_irreversible : Action → Bool
is_irreversible action = mem_str action.action_name irreversible_actions

abbrev pub structured_prefixes : List String
structured_prefixes = "plan." ∷ "deploy." ∷ "migrate." ∷ []

unfoldable pub is_structured : Action → Bool
is_structured action = any (λ p. starts_with action.action_name p) structured_prefixes

-- `_select_path` and `_is_fast_path`, on the score of the context.
unfoldable pub path_for : Action → ℤ → String
unfolding is_irreversible is_structured
path_for action score =
    if ltb_ℤ (pos 70) score
    then "high_risk"
    else if is_irreversible action
    then "high_risk"
    else if is_structured action
    then "structured"
    else if ltb_ℤ (pos 30) score
    then "standard"
    else "fast"

abbrev path_result : Action → Result ℤ → Result String
path_result action (ok score) = ok (path_for action score)
path_result action (raised e) = raised e

unfoldable pub select_path : Action → Fields → Result String
unfolding path_for
select_path action context = path_result action (risk_score_of context)

abbrev pub blocked_by : KernelStatus → String → String → Option String → Option ℤ → PrecedenceResult
blocked_by status rule reason level score = record {
  blocked = true;
  status = some status;
  winning_rule = rule;
  reason = reason;
  path_taken = some "blocked";
  risk_level = level;
  risk_score = score;
}

-- `score or 75`
abbrev score_or_75 : Option ℤ → ℤ
score_or_75 none = pos 75
score_or_75 (some n) = if ltb_ℤ n (pos 0) || ltb_ℤ (pos 0) n then n else pos 75

abbrev needs_approval : PolicyEvaluationResult → PrecedenceResult
needs_approval r = record {
  blocked = false;
  status = none;
  winning_rule = str_or r.rule_name "approval_required";
  reason = str_or r.reason "Approval required";
  path_taken = some "approval_required";
  risk_level = some (str_or r.risk_level "high");
  risk_score = some (score_or_75 r.risk_score);
}

abbrev all_passed : String → PrecedenceResult
all_passed path = record {
  blocked = false;
  status = none;
  winning_rule = "allowed";
  reason = "All checks passed";
  path_taken = some path;
  risk_level = some "none";
  risk_score = some (pos 0);
}

abbrev passed : Result String → Result PrecedenceResult
passed (ok path) = ok (all_passed path)
passed (raised e) = raised e

-- What the evaluation of the policy means, or that no snapshot applies.
abbrev by_policy : Result PolicyEvaluationResult → Action → Fields → Result PrecedenceResult
by_policy (raised e) action context = raised e
by_policy (ok r) action context =
    if opt_eq r.effect (some "BLOCK")
    then ok (
        blocked_by blocked_policy (str_or r.rule_name "policy_block")
          (str_or r.reason "Blocked by policy") r.risk_level r.risk_score)
    else if opt_eq r.effect (some "PENDING_APPROVAL") || r.requires_approval
    then ok (needs_approval r)
    else passed (select_path action context)

unfoldable pub policy_stage : Action → Option PolicySnapshot → Fields → Result PrecedenceResult
policy_stage action none context = passed (select_path action context)
policy_stage action (some s) context = by_policy (evaluate s action context) action context

-- The capability is checked, and consumed, only where a token was given.
unfoldable pub capability_stage :
    Env → Precedence → Action → Option String → App (Option CapabilityStatus)
capability_stage env p action none = pure none
capability_stage env p action (some token) =
    if token == "" then pure none else do c ← check_capability env p action token; pure (some c)

abbrev refused : Option CapabilityStatus → Option String
refused none = none
refused (some c) = if c.valid then none else some (str_or c.reason "Invalid or expired capability")

-- `Precedence.evaluate`
unfoldable pub evaluate_chain :
    Env
    → Precedence
    → Action
    → Option PolicySnapshot
    → Option String
    → Fields
    → App PrecedenceResult
evaluate_chain env p action snapshot token context = do
  kill ← check_kill_switches p action
  if kill.active
      then pure (
          blocked_by blocked_emergency "kill_switch_active"
            (str_or kill.reason "Emergency kill switch active") none none)
      else do
        cap ← capability_stage env p action token
        elim (refused cap) [
          | some reason ↦ pure (blocked_by blocked_capability "capability_invalid" reason none none)
          | none ↦ lift (policy_stage action snapshot context)
        ]
