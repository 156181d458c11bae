-- ===== src/PolicyResolver.antt =====
-- apps/runtime/citadel/services/policy_resolver.py: the policy that applies to an action, its
-- immutable snapshot, and the evaluation of its rules.
pub mod LogKept
pub mod Resolution
pub mod Evaluation
use ledger_sdk.Prelude.{
  ℕ, String, ℤ, pos, Bool, true, false, ◌||◌, Option, none, some, List, [], ◌∷◌, ◌==◌, ltb_ℤ,
  or_else, truthy, starts_with, has_text, split_second, int_of, unquoted, same_codes, codes,
  if◌then◌else◌, ◌<>◌,
}
use ledger_sdk.Values.{Value, Fields, boolean, number, get}
use ledger_sdk.Exec.{Exec, Result, ok, raised, exn, value_error, type_error, pure, lift, ◌>>=◌}
use ledger_sdk.Actions.{Action}
use ledger_sdk.PolicyRules.{
  Rule, Condition, condition_text, condition_dict, RulesJson, parsed, unparsed,
}
use ledger_sdk.Db.{App, Env, World, fresh, PolicyRow, SnapshotJson}
use ledger_sdk.Repository.{get_active_policy, save_policy_snapshot}

pub record PolicySnapshot : Type 0 where
  pub snapshot_id : String
  pub policy_id : String
  pub policy_version : String
  pub snapshot_hash : String
  pub snapshot_json : SnapshotJson

abbrev pub get_rules : PolicySnapshot → List Rule
get_rules s = s.snapshot_json.rules

rule_named : String → List Rule → Option Rule
rule_named n [] = none
rule_named n (r ∷ rs) = elim r.name [
  | none ↦ rule_named n rs
  | some m ↦ if m == n then some r else rule_named n rs
]

unfoldable pub get_rule : String → PolicySnapshot → Option Rule
unfolding rule_named
get_rule n s = rule_named n (get_rules s)

-- `if policy: return policy` in front of the next lookup.
abbrev pub or_next : {A : Type 0} → App (Option A) → App (Option A) → App (Option A)
or_next m next = m >>= elim [ none ↦ next | some a ↦ pure (some a) ]

-- The tenant's own policy is looked up only for a non-empty tenant.
unfoldable pub tenant_policy : Option String → App (Option PolicyRow)
tenant_policy none = pure none
tenant_policy (some t) =
    if truthy (some t) then get_active_policy "tenant" t (some t) else pure none

-- From the most specific scope to the global one.
unfoldable pub resolve_specific : Action → App (Option PolicyRow)
unfolding tenant_policy
resolve_specific action =
    let tid = action.tenant_id in
    or_next (get_active_policy "action" action.action_name tid) (
      or_next (get_active_policy "resource" action.resource tid) (
        or_next (get_active_policy "actor" action.actor_id tid)
          (or_next (tenant_policy tid) (get_active_policy "global" "*" none))))

-- `json.loads` where the column is a text.
unfoldable pub load_rules : Env → RulesJson → Result (List Rule)
load_rules env (parsed rules) = ok rules
load_rules env (unparsed s) = elim (env.loads s) [
  | some rules ↦ ok rules
  | none ↦ raised (exn value_error "Expecting value")
]

unfoldable pub create_snapshot : Env → PolicyRow → App PolicySnapshot
unfolding load_rules
create_snapshot env policy = do
  let version = policy.name <> ":" <> policy.version
  rules ← lift (load_rules env policy.rules_json)
  resolved_at ← fresh env
  let json : SnapshotJson = record {
    policy_id = policy.policy_id;
    name = policy.name;
    version = policy.version;
    scope_type = policy.scope_type;
    scope_value = policy.scope_value;
    rules = rules;
    resolved_at = resolved_at;
  }
  let hash = env.sha256 (env.dumps_snapshot json)
  snapshot_id ← save_policy_snapshot env policy.policy_id version hash json
  pure (record {
    snapshot_id = snapshot_id;
    policy_id = policy.policy_id;
    policy_version = version;
    snapshot_hash = hash;
    snapshot_json = json;
  })

unfoldable pub snapshot_of : Env → Option PolicyRow → App (Option PolicySnapshot)
snapshot_of env none = pure none
snapshot_of env (some policy) = do s ← create_snapshot env policy; pure (some s)

-- `none` where no policy applies, which allows by default.
unfoldable pub resolve : Env → Action → App (Option PolicySnapshot)
unfolding snapshot_of
resolve env action = do policy ← resolve_specific action; snapshot_of env policy

pub record PolicyEvaluationResult : Type 0 where
  pub matched : Bool
  pub effect : Option String
  pub rule_name : Option String
  pub reason : Option String
  pub risk_level : Option String
  pub risk_score : Option ℤ
  pub requires_approval : Bool

-- A value in an integer comparison: Booleans are integers, and others raise TypeError.
abbrev as_int : Value → Result ℤ
as_int (number n) = ok n
as_int (boolean true) = ok (pos 1)
as_int (boolean false) = ok (pos 0)
as_int v = raised (exn type_error "comparison not supported between instances")

-- `context.get('risk_score', 0)`
unfoldable pub risk_score_of : Fields → Result ℤ
unfolding get
risk_score_of context = elim (get "risk_score" context) [ none ↦ ok (pos 0) | some v ↦ as_int v ]

abbrev compare_with : (ℤ → ℤ → Bool) → ℤ → Result ℤ → Result Bool
compare_with test threshold (ok score) = ok (test score threshold)
compare_with test threshold (raised e) = raised e

-- A threshold that does not parse does not match; the comparison itself may raise.
unfoldable pub eval_threshold : (ℤ → ℤ → Bool) → String → String → Fields → Result Bool
eval_threshold test sep condition context = elim (split_second condition sep) [
  | none ↦ ok false
  | some part ↦ elim (int_of part) [
    | none ↦ ok false
    | some threshold ↦ compare_with test threshold (risk_score_of context)
  ]
]

-- The right-hand side of a name pattern, stripped of white space and then of quotes, against the
-- name; `split` always has a second part where the pattern begins with the operator.
unfoldable pub names : String → String → Bool
unfolding unquoted same_codes codes
names condition name = elim (split_second condition "==") [
  | none ↦ false
  | some part ↦ same_codes (codes name) (unquoted part)
]

unfoldable pub eval_text : String → Action → Fields → Result Bool
unfolding eval_threshold names
eval_text condition action context =
    if condition == "true"
    then ok true
    else if condition == "false"
    then ok false
    else if has_text condition "risk_score >"
    then eval_threshold (λ score t. ltb_ℤ t score) ">" condition context
    else if has_text condition "risk_score <"
    then eval_threshold (λ score t. ltb_ℤ score t) "<" condition context
    else if starts_with condition "action_name =="
    then ok (names condition action.action_name)
    else if starts_with condition "resource =="
    then ok (names condition action.resource)
    else ok false

-- `_eval_condition`; a dictionary of an unknown shape does not match.
unfoldable pub eval_condition : Condition → Action → Fields → Result Bool
unfolding eval_text
eval_condition (condition_dict always) action context = ok (or_else always false)
eval_condition (condition_text s) action context = eval_text s action context

abbrev no_match : PolicyEvaluationResult
no_match = record {
  matched = false;
  effect = none;
  rule_name = none;
  reason = none;
  risk_level = none;
  risk_score = none;
  requires_approval = false;
}

unfoldable pub rule_result : Rule → PolicyEvaluationResult
rule_result rule = record {
  matched = true;
  effect = some (or_else rule.effect "ALLOW");
  rule_name = some (or_else rule.name "unnamed");
  reason = some (or_else rule.reason "Rule matched");
  risk_level = some (or_else rule.risk_level "none");
  risk_score = some (or_else rule.risk_score (pos 0));
  requires_approval = or_else rule.requires_approval false;
}

abbrev pub if_matched : Rule → Result Bool → Result PolicyEvaluationResult
if_matched rule (ok true) = ok (rule_result rule)
if_matched rule (ok false) = ok no_match
if_matched rule (raised e) = raised e

unfoldable pub evaluate_rule : Rule → Action → Fields → Result PolicyEvaluationResult
evaluate_rule rule action context =
    if_matched rule
      (eval_condition (or_else rule.condition (condition_text "false")) action context)

abbrev pub default_allow : PolicyEvaluationResult
default_allow = record {
  matched = true;
  effect = some "ALLOW";
  rule_name = some "default_allow";
  reason = some "No blocking rules matched";
  risk_level = some "none";
  risk_score = some (pos 0);
  requires_approval = false;
}

-- The loop's body on the result of one rule, with what the other rules give.
abbrev pub first_match :
    Result PolicyEvaluationResult → Result PolicyEvaluationResult → Result PolicyEvaluationResult
first_match (ok r) rest = if r.matched then ok r else rest
first_match (raised e) rest = raised e

unfoldable pub evaluate_rules : List Rule → Action → Fields → Result PolicyEvaluationResult
evaluate_rules [] action context = ok default_allow
evaluate_rules (rule ∷ rules) action context =
    first_match (evaluate_rule rule action context) (evaluate_rules rules action context)

-- `PolicyEvaluator.evaluate`: the first rule that matches.
unfoldable pub evaluate : PolicySnapshot → Action → Fields → Result PolicyEvaluationResult
unfolding evaluate_rules
evaluate snapshot action context = evaluate_rules (get_rules snapshot) action context
