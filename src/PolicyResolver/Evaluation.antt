-- ===== src/PolicyResolver/Evaluation.antt =====
-- apps/runtime/citadel/services/policy_resolver.py, PolicyEvaluator: the first rule that matches
-- decides.
use ledger_sdk.Prelude.{Bool, true, false, List, ◌∷◌, ◌++◌, or_else, All, ◌≡◌, ◌⊎◌}
use ledger_sdk.Values.{Fields}
use ledger_sdk.Exec.{Result, ok}
use ledger_sdk.Actions.{Action}
use ledger_sdk.PolicyRules.{Rule, condition_text}
use ledger_sdk.PolicyResolver.{eval_condition, rule_result, default_allow, PolicyEvaluationResult}

module _ (action : Action) (context : Fields) where
  -- What a rule's condition evaluates to; an absent condition is the text "false".
  abbrev pub condition_of : Rule → Result Bool
  condition_of r = eval_condition (or_else r.condition (condition_text "false")) action context

  -- The rules before the first that matches are passed over.
  pub Decided : List Rule → PolicyEvaluationResult → Type 0
  Decided rules d =
      (All (λ r. condition_of r ≡ ok false) rules × (d ≡ default_allow))
      ⊎ ((before : List Rule) × (r : Rule) × (after : List Rule) × (rules ≡ before ++ r ∷ after)
          × All (λ q. condition_of q ≡ ok false) before
          × (condition_of r ≡ ok true)
          × (d ≡ rule_result r))
