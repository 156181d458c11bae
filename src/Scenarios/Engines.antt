-- ===== src/Scenarios/Engines.antt =====
-- A decision engine with a backend that allows with limits, and a trust engine that halves them.
use ledger_sdk.Prelude.{◌≡◌, refl, true, false, none, some, [], ◌∷◌, pos, arith}
use mathlib.Core.Path.{subst}
use ledger_sdk.Values.{text, end}
use ledger_sdk.Exec.{Result, ok}
use ledger_sdk.GovernanceDecision.{
  GovernanceDecision, new_decision, allow, deny, covers, fnmatch, is_expired,
}
use ledger_sdk.DecisionEngine.{
  TrustResult, PolicyResult, DecisionEngine, EngineEnv, EngineWorld, decide,
}
use ledger_sdk.ExecutionMiddleware
use ledger_sdk.ExecutionMiddleware.{ExecutionMiddleware, decision}
use ledger_sdk.Verifier.{accepted}
use ledger_sdk.Vault.{check_ancestry}
use ledger_sdk.Scenarios.{env, world_of, empty_db}
use ledger_sdk.DecisionEngine.Tightening.{Use, HasLimits, SaneBackend, Backed, decide-Backed}

abbrev trust_result : TrustResult
trust_result = record {
  max_spend_multiplier = 50;
  rate_limit_multiplier = 50;
  requires_approval = false;
  action_blocked = false;
  block_reason = none;
  approval_reason = none;
  trust_snapshot_id = some "s1";
}

abbrev policy_result : PolicyResult
policy_result = record {
  allowed = true;
  reason = "allowed";
  actions = none;
  resources = [];
  max_spend = some (pos 900);
  rate_limit = some (pos 11);
  constraints = end;
}

abbrev engine : DecisionEngine
engine = record {
  evaluate = λ action context. ok policy_result;
  kill_switch = record { switches = []; audit = []; drawn = 0 };
  trust_engine = some (λ action actor tenant context. ok trust_result);
  to_dict = λ t. text "trust";
  default_ttl = 3_600;
}

abbrev engine_env : EngineEnv
engine_env = record { now = 1_000; hex = λ n. "0a" }

abbrev engine_world : EngineWorld
engine_world = record { decisions = []; records = []; drawn = 0 }

-- The decision with the limits 450 and 5.
abbrev decided : GovernanceDecision
decided =
    record (new_decision "gd_0a" allow "acme" "agent" "file.read"
      (record {
        actions = "file.read" ∷ [];
        resources = [];
        max_spend = some (pos 450);
        rate_limit = some (pos 5);
      })
      1_000) { expiry = some 4_600; reason = "allowed"; trust_snapshot_id = some "s1" }

abbrev small_use : Use
small_use = record { action = "file.read"; resource = none; spend = pos 400; rate = pos 5 }

test_decide : (decide engine_env engine "file.read" end "acme" "agent" engine_world).0 ≡ ok decided
unfolding decide
test_decide = refl

test_covers : covers decided.scope "file.read" none ≡ true
unfolding covers fnmatch
test_covers = refl

ok_inj : (p q : PolicyResult) → ◌≡◌ {A = Result PolicyResult} (ok p) (ok q) → p ≡ q
ok_inj p q e = cc

engine-SaneBackend : SaneBackend engine
engine-SaneBackend action context p e =
    subst (λ (q : PolicyResult). HasLimits q) (ok_inj policy_result p e) (omega arith)

decide-Backed_example : Backed engine "file.read" end "acme" "agent" decided small_use
decide-Backed_example =
    decide-Backed engine_env engine "file.read" end "acme" "agent" small_use engine_world decided
      engine-SaneBackend test_decide (refl, test_covers, omega arith, omega arith)

-- A decision of the type that denies, which verifies as if it allowed.
abbrev denial : GovernanceDecision
denial = record decided { decision_type = deny }

abbrev middleware : ExecutionMiddleware
middleware = record {
  verifier = record { kill_switch = none; has_audit = true };
  rate_limiter = none;
}

test_denial :
    (ExecutionMiddleware.check env middleware
      (decision denial)
      "file.read"
      none
      end
      (world_of empty_db)).0
    ≡ ok (accepted denial)
unfolding ExecutionMiddleware.check fnmatch is_expired covers check_ancestry
test_denial = refl
