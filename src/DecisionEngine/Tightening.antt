-- ===== src/DecisionEngine/Tightening.antt =====
-- apps/runtime/citadel/tokens/decision_engine.py: a decision permits no more than the policy does,
-- and nothing under an active switch; the trust engine only takes away.
use ledger_sdk.Prelude.{
  ℕ, ◌*◌, ◌/◌, ◌≤◌, ◌<◌, ◌≡◌, refl, sym, ◌∙◌, String, Bool, true, false, Option, none, some, ℤ, pos,
  negsuc, ◌≤ℤ◌, ltb, arith, Bool-cases, inl, inr, false_elim,
}
use ledger_sdk.Values.{Fields}
use ledger_sdk.Exec.{Result, ok, pure, lift}
use ledger_sdk.Exec.Returns.{Returns, Returns-bind, Returns-if, Returns-pure, returned}
use ledger_sdk.GovernanceDecision.{GovernanceDecision, DecisionScope, is_allow, covers}
use ledger_sdk.KillSwitch.{check}
use ledger_sdk.DecisionEngine.{
  TrustResult, PolicyResult, DecisionEngine, EngineEnv, EngineWorld, gen_id, policy_context,
  reduced, max_spend_of, rate_limit_of, type_of, scope_of, merged, stopped, trust_step,
  audit_decision, decide_open, decide_with, decide,
}

-- What is asked of an authority: an action on a resource, an amount and a rate.
pub record Use : Type 0 where
  pub action : String
  pub resource : Option String
  pub spend : ℤ
  pub rate : ℤ

abbrev pub WithinLimit : Option ℤ → ℤ → Type 0
WithinLimit none x = Unit
WithinLimit (some limit) x = x ≤ℤ limit

-- An authority is a verdict and a scope.
abbrev pub Permits : Bool → DecisionScope → Use → Type 0
Permits allowed scope u =
    (allowed ≡ true)
    × (covers scope u.action u.resource ≡ true)
    × WithinLimit scope.max_spend u.spend
    × WithinLimit scope.rate_limit u.rate

abbrev pub DecisionPermits : GovernanceDecision → Use → Type 0
DecisionPermits d u = Permits (is_allow d.decision_type) d.scope u

abbrev pub PolicyPermits : String → PolicyResult → Use → Type 0
PolicyPermits action p u = Permits p.allowed (scope_of action none p) u

-- The trust engine, where it is asked, neither blocks the action nor wants an approval.
abbrev pub Consents : Option TrustResult → Type 0
Consents none = Unit
Consents (some t) = (t.action_blocked ≡ false) × (t.requires_approval ≡ false)

abbrev NotNegative : Option ℤ → Type 0
NotNegative none = Unit
NotNegative (some l) = pos 0 ≤ℤ l

-- A policy backend whose limits are not negative.
abbrev pub HasLimits : PolicyResult → Type 0
HasLimits p = NotNegative p.max_spend × NotNegative p.rate_limit

scaled-le : (n m : ℕ) → m < 100 → n * m / 100 ≤ n
scaled-le n m h = grind arith

below : (m : ℕ) → ltb m 100 ≡ true → m < 100
below m h = ground arith

reduced-le :
    (m : ℕ) (l : Option ℤ) (x : ℤ) → NotNegative l → WithinLimit (reduced m l) x → WithinLimit l x
unfolding reduced
reduced-le m none x h w = tt
reduced-le m (some (negsuc n)) x h w = absurd (omega arith)
reduced-le m (some (pos n)) x h w = elim (Bool-cases (ltb m 100)) [
  | inl e ↦ omega (arith, scaled-le n m (below m e), (rw e at w))
  | inr e ↦ rw e at w
]

spend-le :
    (t : Option TrustResult) (p : PolicyResult) (x : ℤ)
    → NotNegative p.max_spend
    → WithinLimit (max_spend_of t p) x
    → WithinLimit p.max_spend x
unfolding max_spend_of
spend-le none p x h w = w
spend-le (some t) p x h w = reduced-le t.max_spend_multiplier p.max_spend x h w

rate-le :
    (t : Option TrustResult) (p : PolicyResult) (x : ℤ)
    → NotNegative p.rate_limit
    → WithinLimit (rate_limit_of t p) x
    → WithinLimit p.rate_limit x
unfolding rate_limit_of
rate-le none p x h w = w
rate-le (some t) p x h w = reduced-le t.rate_limit_multiplier p.rate_limit x h w

type_of-allow :
    (t : Option TrustResult) (p : PolicyResult)
    → is_allow (type_of t p) ≡ true
    → (p.allowed ≡ true) × Consents t
unfolding type_of
type_of-allow none p h = ground (arith, h)
type_of-allow (some t) p h = ground (arith, h)

covers_limits :
    (action : String) (t : Option TrustResult) (p : PolicyResult) (a : String) (r : Option String)
    → covers (scope_of action t p) a r ≡ covers (scope_of action none p) a r
unfolding covers
covers_limits action t p a none = refl
covers_limits action t p a (some r) = refl

merged_permits :
    (env : EngineEnv) (eng : DecisionEngine) (id action tenant actor : String)
    (t : Option TrustResult) (p : PolicyResult) (u : Use)
    → HasLimits p
    → DecisionPermits (merged env eng id action tenant actor t p) u
    → Consents t × PolicyPermits action p u
unfolding merged
merged_permits env eng id action tenant actor t p u (spends, rates)
      (allowed, covered, spend, rate) =
    let (policy, consents) = type_of-allow t p allowed in
    (
      consents,
      (
        policy,
        sym (covers_limits action t p u.action u.resource) ∙ covered,
        spend-le t p u.spend spends spend,
        rate-le t p u.rate rates rate,
      ),
    )

-- What lies behind a decision that permits a use: no active switch, a trust engine that consents,
-- and a policy that permits the use.
abbrev pub Backed :
    DecisionEngine → String → Fields → String → String → GovernanceDecision → Use → Type 0
Backed eng action context tenant actor d u =
    ((check eng.kill_switch actor (some tenant) (some d.decision_id)).active ≡ false)
    × (t : Option TrustResult) × (p : PolicyResult) × (trust_step eng action actor tenant context
        ≡ ok t)
    × (eng.evaluate action (policy_context eng context t) ≡ ok p)
    × (Consents t × PolicyPermits action p u)

-- The policy backend answers with limits that are not negative.
abbrev pub SaneBackend : DecisionEngine → Type 0
SaneBackend eng =
    (action : String) (context : Fields) (p : PolicyResult)
    → eng.evaluate action context ≡ ok p
    → HasLimits p

module _ (env : EngineEnv) (eng : DecisionEngine) (action : String) (context : Fields)
    (tenant actor : String) (u : Use) (sane : SaneBackend eng) where
  abbrev Refines : GovernanceDecision → Type 0
  Refines d = DecisionPermits d u → Backed eng action context tenant actor d u

  lifted : {A : Type 0} {r : Result A} {a : A} (w : EngineWorld) → (lift r w).0 ≡ ok a → r ≡ ok a
  lifted w e = e

  open-Refines :
      (id : String)
      → (check eng.kill_switch actor (some tenant) (some id)).active ≡ false
      → Returns Refines (decide_open env eng action context tenant actor id)
  unfolding decide_open
  open-Refines id off =
      Returns-bind (lift (trust_step eng action actor tenant context)) _ (λ w t et.
        Returns-bind (lift (eng.evaluate action (policy_context eng context t))) _ (λ w' p ep.
          Returns-bind (audit_decision (merged env eng id action tenant actor t p) context) _
            (λ w'' _ _. Returns-pure (merged env eng id action tenant actor t p) (λ permits. (
              off,
              t,
              p,
              et,
              ep,
              merged_permits env eng id action tenant actor t p u
                  (sane action (policy_context eng context t) p ep) permits,
            )))))

  with-Refines :
      (id : String) → Returns Refines (decide_with env eng action context tenant actor id)
  unfolding decide_with
  with-Refines id =
      let d : GovernanceDecision =
        stopped env id action tenant actor
          (check eng.kill_switch actor (some tenant) (some id)).reason in
      Returns-if (check eng.kill_switch actor (some tenant) (some id)).active _ _
        (λ _.
          Returns-bind (audit_decision d context) (λ _. pure d)
            (λ w _ _. Returns-pure d (λ permits. false_elim permits.0)))
        (λ off. open-Refines id off)

-- With a policy backend whose limits are never negative, a decision of the engine that permits a
-- use, by its type, its scope and its limits on an amount and a rate, is backed: no kill switch is
-- active for it, the trust engine, where there is one, neither blocks the action nor asks for
-- approval, and the answer of the policy backend, in the context that the engine gave it, permits
-- the same use.
pub decide-Backed :
    (env : EngineEnv) (eng : DecisionEngine) (action : String) (context : Fields)
    (tenant actor : String) (u : Use) (w : EngineWorld) (d : GovernanceDecision)
    → SaneBackend eng
    → (decide env eng action context tenant actor w).0 ≡ ok d
    → DecisionPermits d u
    → Backed eng action context tenant actor d u
unfolding decide
decide-Backed env eng action context tenant actor u w d sane e =
    returned {Q = Refines env eng action context tenant actor u sane} w d
      (Returns-bind (gen_id env) (decide_with env eng action context tenant actor)
        (λ w' id _. with-Refines env eng action context tenant actor u sane id))
      e
