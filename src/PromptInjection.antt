-- ===== src/PromptInjection.antt =====
-- apps/runtime/citadel/security/prompt_injection.py: the scan of an action's payload. `re.search`
-- with IGNORECASE is a parameter of the environment.
use ledger_sdk.Prelude.{String, List, [], ◌∷◌, ◌++◌, keep, ◌<>◌}
use ledger_sdk.Values.{Value, Values, Fields, text, object, array, nil, cons, end, field}
use ledger_sdk.Db.{Env}

abbrev pub patterns : List String
patterns =
    "ignore\\s+(?:all\\s+)?(?:previous\\s+)?instructions"
    ∷ "system\\s*[\\:\\-]\\s*(?:you\\s+are|ignore|override|disregard)"
    ∷ "developer\\s*[\\:\\-]\\s*(?:you\\s+are|ignore|override|disregard)"
    ∷ "DAN\\s*[\\:\\-]\\s*(?:mode|prompt|enabled)"
    ∷ "jailbreak\\s*[\\:\\-]\\s*(?:enabled|mode|prompt)" ∷ "\\bignore\\s+above\\s+constraints\\b"
    ∷ "\\bdisregard\\s+(?:the\\s+)?(?:previous|above)\\s+(?:instructions|rules|constraints)\\b"
    ∷ "\\bnew\\s+instruction[s]?\\s*[\\:\\-]\\s*"
    ∷ "\\boverride\\s+(?:the\\s+)?(?:previous|above)\\s+(?:instructions|rules|constraints)\\b" ∷ []

-- `" ".join(parts)`
unfoldable pub joined : List String → String
joined [] = ""
joined (s ∷ []) = s
joined (s ∷ t ∷ ts) = s <> " " <> joined (t ∷ ts)

unfoldable pub items : Env → Values → List String
items env nil = []
items env (cons v vs) = env.str_value v ∷ items env vs

-- The parts of `_flatten_payload`: a nested dictionary is one part, and other values than texts,
-- dictionaries and lists are left out.
unfoldable mutual
  pub parts : Env → Fields → List String
  parts env end = []
  parts env (field k v d) = k ∷ (value_parts env v ++ parts env d)

  value_parts : Env → Value → List String
  value_parts env (text s) = s ∷ []
  value_parts env (object d) = joined (parts env d) ∷ []
  value_parts env (array vs) = items env vs
  value_parts env v = []

unfoldable pub flatten_payload : Env → Fields → String
flatten_payload env payload = joined (parts env payload)

-- `scan`: the patterns that match; the payload is clean where there is none.
unfoldable pub scan : Env → Fields → List String
unfolding flatten_payload
scan env payload = keep (λ p. env.search p (flatten_payload env payload)) patterns
