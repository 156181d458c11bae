-- ===== src/Precedence/Status.antt =====
-- apps/runtime/citadel/utils/precedence.py: the statuses with which the chain blocks.
use ledger_sdk.Prelude.{String, Bool, true, false, ◌||◌, Option, none, some, opt_eq, ◌≡◌, refl}
use ledger_sdk.Values.{Fields}
use ledger_sdk.Exec.{Result, ok, raised}
use ledger_sdk.Exec.Returns.{
  Returns, Holds, Holds-if, Returns-pure, Returns-if, Returns-bind, Returns-option, Returns-lift,
}
use ledger_sdk.Actions.{Action, KernelStatus, blocked_emergency, blocked_capability, blocked_policy}
use ledger_sdk.Db.{Env}
use ledger_sdk.PolicyResolver.{PolicySnapshot, PolicyEvaluationResult, evaluate}
use ledger_sdk.Precedence.{
  Precedence, PrecedenceResult, evaluate_chain, policy_stage, by_policy, passed, refused,
  select_path,
}

abbrev pub is_blocking : KernelStatus → Bool
is_blocking blocked_emergency = true
is_blocking blocked_capability = true
is_blocking blocked_policy = true
is_blocking _ = false

abbrev pub BlockingStatus : Option KernelStatus → Type 0
BlockingStatus none = Unit
BlockingStatus (some s) = is_blocking s ≡ true

-- A status, where the result has one, is one of the three that block.
abbrev pub Blocking : PrecedenceResult → Type 0
Blocking r = BlockingStatus r.status

passed-Blocking : (r : Result String) → Holds Blocking (passed r)
passed-Blocking (ok path) = tt
passed-Blocking (raised e) = tt

by_policy-Blocking :
    (r : Result PolicyEvaluationResult) (action : Action) (context : Fields)
    → Holds Blocking (by_policy r action context)
by_policy-Blocking (raised e) action context = tt
by_policy-Blocking (ok r) action context =
    Holds-if Blocking (opt_eq r.effect (some "BLOCK")) _ _ refl (
      Holds-if Blocking (opt_eq r.effect (some "PENDING_APPROVAL") || r.requires_approval) _ _ tt
        (passed-Blocking (select_path action context)))

policy_stage-Blocking :
    (action : Action) (s : Option PolicySnapshot) (context : Fields)
    → Holds Blocking (policy_stage action s context)
unfolding policy_stage
policy_stage-Blocking action none context = passed-Blocking (select_path action context)
policy_stage-Blocking action (some s) context =
    by_policy-Blocking (evaluate s action context) action context

pub evaluate_chain-Blocking :
    (env : Env) (p : Precedence) (action : Action) (s : Option PolicySnapshot)
    (token : Option String) (context : Fields)
    → Returns Blocking (evaluate_chain env p action s token context)
unfolding evaluate_chain
evaluate_chain-Blocking env p action s token context = Returns-bind _ _ λ w kill e.
    Returns-if kill.active _ _ (λ _. Returns-pure _ refl)
      λ _. Returns-bind _ _ λ w cap e.
        Returns-option (refused cap) _ _
          (λ _. Returns-lift _ (policy_stage-Blocking action s context)) λ r _. Returns-pure _ refl
