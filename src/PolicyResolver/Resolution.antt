-- ===== src/PolicyResolver/Resolution.antt =====
-- apps/runtime/citadel/services/policy_resolver.py, PolicyResolver: which policy applies.
use ledger_sdk.Prelude.{
  String, List, [], ◌∷◌, Option, none, some, truthy, find_by, ◌≡◌, refl, sym, ap, ◌∙◌,
  if◌then◌else◌, Bool-cases, inl, inr, if_true, if_false,
}
use ledger_sdk.Exec.{ok, bind_ok}
use ledger_sdk.Actions.{Action}
use ledger_sdk.Db.{App, World, PolicyRow}
use ledger_sdk.Repository.{get_active_policy, policy_row}
use ledger_sdk.PolicyResolver.{resolve_specific, or_next, tenant_policy}

-- The first policy that is there.
abbrev pub first_some : {A : Type 0} → List (Option A) → Option A
first_some [] = none
first_some (none ∷ os) = first_some os
first_some (some a ∷ os) = some a

-- The newest active policy of a scope, for a tenant.
abbrev pub active_in : World → String → String → Option String → Option PolicyRow
active_in w type val tid = find_by (policy_row type val tid) w.db.policies

abbrev pub active_of_tenant : World → Option String → Option PolicyRow
active_of_tenant w none = none
active_of_tenant w (some t) = if truthy (some t) then active_in w "tenant" t (some t) else none

-- The order of the scopes, from the most specific one.
abbrev pub candidates : World → Action → List (Option PolicyRow)
candidates w a =
    active_in w "action" a.action_name a.tenant_id
    ∷ active_in w "resource" a.resource a.tenant_id
    ∷ active_in w "actor" a.actor_id a.tenant_id
    ∷ active_of_tenant w a.tenant_id
    ∷ active_in w "global" "*" none
    ∷ []

or_next_lem :
    {A : Type 0} (m next : App (Option A)) (w : World) (o : Option A) (os : List (Option A))
    → m w ≡ (ok o, w)
    → next w ≡ (ok (first_some os), w)
    → or_next m next w ≡ (ok (first_some (o ∷ os)), w)
or_next_lem m next w none os e f = bind_ok m _ w w none e ∙ f
or_next_lem m next w (some a) os e f = bind_ok m _ w w (some a) e

tenant_lem :
    (tid : Option String) (w : World) → tenant_policy tid w ≡ (ok (active_of_tenant w tid), w)
unfolding tenant_policy get_active_policy
tenant_lem none w = refl
tenant_lem (some t) w = elim (Bool-cases (truthy (some t))) [
  | inl e ↦
      ap (λ (m : App (Option PolicyRow)). m w) (if_true (truthy (some t)) _ _ e)
      ∙ sym (ap (λ o. (ok o, w)) (if_true (truthy (some t)) _ _ e))
  | inr e ↦
      ap (λ (m : App (Option PolicyRow)). m w) (if_false (truthy (some t)) _ _ e)
      ∙ sym (ap (λ o. (ok o, w)) (if_false (truthy (some t)) _ _ e))
]

-- The policy that applies is the first that is active among those of the action, the resource, the
-- actor, the tenant and everyone, in this order; nothing is written.
pub resolve_specific-first :
    (action : Action) (w : World)
    → resolve_specific action w ≡ (ok (first_some (candidates w action)), w)
unfolding resolve_specific get_active_policy
resolve_specific-first a w =
    or_next_lem _ _ w (active_in w "action" a.action_name a.tenant_id) _ refl (
      or_next_lem _ _ w (active_in w "resource" a.resource a.tenant_id) _ refl (
        or_next_lem _ _ w (active_in w "actor" a.actor_id a.tenant_id) _ refl (
          or_next_lem _ _ w (active_of_tenant w a.tenant_id) (active_in w "global" "*" none ∷ [])
            (tenant_lem a.tenant_id w)
            (ap (λ o. (ok o, w)) (last (active_in w "global" "*" none))))))
  where
    last : (o : Option PolicyRow) → o ≡ first_some (o ∷ [])
    last none = refl
    last (some p) = refl
