-- ===== src/Orchestration/Scope.antt =====
-- apps/runtime/citadel/execution/orchestration.py, _is_narrower_scope: when the scope of a child
-- counts as a part of its parent's.
use ledger_sdk.Prelude.{
  String, ℤ, Bool, true, ◌&&◌, ◌||◌, Option, some, List, any, all, mem_str, is_nil, ends_with,
  drop_last, starts_with, leb_ℤ, ◌==◌, if◌then◌else◌,
}
use ledger_sdk.GovernanceDecision.{DecisionScope}

-- An action of the parent that lets the action of the child pass: equal, or of the form "prefix:*".
abbrev pub action_passes : String → String → Bool
action_passes child p =
    p == "*" || (ends_with p ":*" && starts_with child (drop_last 1 p)) || p == child

unfoldable pub actions_narrower : List String → List String → Bool
actions_narrower parent child =
    if is_nil child || is_nil parent || mem_str "*" parent
    then true
    else all (λ c. any (action_passes c) parent) child

-- A resource of the parent, which may end in a star.
abbrev pub resource_passes : String → String → Bool
resource_passes child p =
    p == "*" || (ends_with p "*" && starts_with child (drop_last 1 p)) || p == child

unfoldable pub resources_narrower : List String → List String → Bool
resources_narrower parent child =
    if is_nil child || is_nil parent then true else all (λ c. any (resource_passes c) parent) child

-- An amount is compared only where both sides have one.
abbrev pub amount_narrower : Option ℤ → Option ℤ → Bool
amount_narrower (some p) (some c) = leb_ℤ c p
amount_narrower _ _ = true

unfoldable pub is_narrower_scope : DecisionScope → DecisionScope → Bool
unfolding actions_narrower resources_narrower
is_narrower_scope parent child =
    actions_narrower parent.actions child.actions
    && resources_narrower parent.resources child.resources
    && amount_narrower parent.max_spend child.max_spend
    && amount_narrower parent.rate_limit child.rate_limit
