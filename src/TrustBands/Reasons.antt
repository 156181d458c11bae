-- ===== src/TrustBands/Reasons.antt =====
-- apps/runtime/citadel/agent_identity/trust_bands.py: the texts of the bands and
-- `get_transition_reason_code`, which compares the texts as Python does. A factor's value is in
-- millionths.
use Prim.Native.Char.{code}
use Prim.Native.String.{slice, compare}
use Prim.Native.Nat.{Ordering}
use ledger_sdk.Prelude.{
  ◌≡◌, refl, ℕ, ◌-◌, String, Bool, true, false, ◌&&◌, Option, none, some, List, [], ◌∷◌, ◌==◌, ◌<>◌,
  ℤ, pos, ltb_ℤ, leb, keep, if◌then◌else◌,
}
use ledger_sdk.TrustBands.{
  TrustBand, revoked, probation, standard, trusted, highly_trusted, is_revoked, is_probation,
}

abbrev pub value : TrustBand → String
value revoked = "revoked"
value probation = "probation"
value standard = "standard"
value trusted = "trusted"
value highly_trusted = "highly_trusted"

-- `TrustBand(text)`; `none` is the ValueError.
unfoldable pub band_of : String → Option TrustBand
band_of text =
    if text == "revoked"
    then some revoked
    else if text == "probation"
    then some probation
    else if text == "standard"
    then some standard
    else if text == "trusted"
    then some trusted
    else if text == "highly_trusted"
    then some highly_trusted
    else none

abbrev pub Factors : Type 0
Factors = List (String × ℤ)

-- The order of Python's texts.
unfoldable pub text_ltb : String → String → Bool
text_ltb s t = elim (compare s t) [ Ordering.lt ↦ true | _ ↦ false ]

abbrev letter : ℕ → String
letter c = slice "ABCDEFGHIJKLMNOPQRSTUVWXYZ" (c - 97) (c - 96)

-- `s.upper()` of ASCII letters.
unfoldable pub upper : String → String
upper String.[] = ""
upper (String.◌∷◌ c s) =
    let rest = upper s in
    if leb 97 (code c) && leb (code c) 122 then letter (code c) <> rest else String.◌∷◌ c rest

-- `min(factors, key=factors.get)`: the first of the smallest, with its value.
unfoldable pub smallest : Factors → Option (String × ℤ)
smallest [] = none
smallest ((k, v) ∷ rest) = elim (smallest rest) [
  | none ↦ some (k, v)
  | some (k', v') ↦ if ltb_ℤ v' v then some (k', v') else some (k, v)
]

unfoldable pub largest : Factors → Option (String × ℤ)
largest [] = none
largest ((k, v) ∷ rest) = elim (largest rest) [
  | none ↦ some (k, v)
  | some (k', v') ↦ if ltb_ℤ v v' then some (k', v') else some (k, v)
]

abbrev named : String → Option (String × ℤ) → String
named verb none = verb <> "_GENERAL"
named verb (some (k, v)) = verb <> "_" <> upper k

unfoldable pub get_transition_reason_code : TrustBand → TrustBand → Factors → String
unfolding text_ltb upper smallest largest
get_transition_reason_code source target factors =
    if is_revoked target
    then "EMERGENCY_REVOKE"
    else if is_revoked source && is_probation target
    then "RESTORED_TO_PROBATION"
    else if text_ltb (value target) (value source)
    then named "DEGRADED" (smallest (keep (λ (e : String × ℤ). ltb_ℤ e.1 (pos 0)) factors))
    else if text_ltb (value source) (value target)
    then named "ELEVATED" (largest (keep (λ (e : String × ℤ). ltb_ℤ (pos 0) e.1) factors))
    else "NO_CHANGE"

-- A rise that the order of the texts reports as a fall.
test_reason :
    get_transition_reason_code standard highly_trusted (("identity_verification", pos 300_000) ∷ [])
    ≡ "DEGRADED_GENERAL"
unfolding get_transition_reason_code
test_reason = refl

test_reason_upper :
    get_transition_reason_code probation standard (("identity_verification", pos 300_000) ∷ [])
    ≡ "ELEVATED_IDENTITY_VERIFICATION"
unfolding get_transition_reason_code
test_reason_upper = refl
