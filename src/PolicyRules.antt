-- ===== src/PolicyRules.antt =====
-- The rules of a policy, as `rules_json` holds them: the keys that apps/runtime/citadel/services/
-- policy_resolver.py and approval_service.py read. `none` is an absent key.
use ledger_sdk.Prelude.{String, ℤ, Bool, ℕ, Option, List}

-- A condition is a text, or a dictionary of which only the key `always` is read: `always` is what
-- `condition.get("always")` answers when that is a Boolean, and `none` otherwise.
pub data Condition : Type 0 where
  condition_text : String → Condition
  condition_dict : Option Bool → Condition

pub record Rule : Type 0 where
  pub name : Option String
  pub condition : Option Condition
  pub effect : Option String
  pub reason : Option String
  pub risk_level : Option String
  pub risk_score : Option ℤ
  pub requires_approval : Option Bool
  pub approval_priority : Option String
  pub approval_expiry_hours : Option ℕ

-- The column `rules_json`: parsed by the driver already, or still a text.
pub data RulesJson : Type 0 where
  parsed : List Rule → RulesJson
  unparsed : String → RulesJson
