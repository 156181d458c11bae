-- ===== src/KillSwitch/Laws.antt =====
-- apps/runtime/citadel/tokens/kill_switch.py: what a trigger, a release and a check do to each
-- other.
use ledger_sdk.Prelude.{
  ◌⊎◌, inl, inr, Option-cases, ℕ, String, true, false, ◌&&◌, Option, none, some, List, [], ◌∷◌,
  ◌==◌, truthy, ◌≡◌, refl, sym, ◌∙◌, ap, arith, eq_refl, eq_iff, false_elim, and_left, and_right,
}
use ledger_sdk.GovernanceDecision.{KillSwitchScope, request, agent, tenant, everywhere}
use ledger_sdk.KillSwitch.{
  KillSwitch, KillSwitchRecord, lookup, insert, remove, same_scope, trigger, release, check,
  request_switch, tenant_switch,
}

abbrev Switches : Type 0
Switches = List (KillSwitchScope × String × KillSwitchRecord)

same_scope_refl : (s : KillSwitchScope) → same_scope s s ≡ true
same_scope_refl request = refl
same_scope_refl agent = refl
same_scope_refl tenant = refl
same_scope_refl everywhere = refl

same_key : (s : KillSwitchScope) (t : String) → same_scope s s && t == t ≡ true
same_key s t = ground (arith, same_scope_refl s, eq_refl t)

pub lookup-insert :
    (s : KillSwitchScope) (t : String) (r : KillSwitchRecord) (m : Switches)
    → lookup s t (insert s t r m) ≡ some r
unfolding lookup insert
lookup-insert s t r [] = ground (arith, same_key s t)
lookup-insert s t r ((s', t', r') ∷ m) = ground (arith, same_key s t, lookup-insert s t r m)

pub lookup-remove :
    (s : KillSwitchScope) (t : String) (m : Switches) → lookup s t (remove s t m) ≡ none
unfolding lookup remove
lookup-remove s t [] = refl
lookup-remove s t ((s', t', r') ∷ m) = ground (arith, lookup-remove s t m)

remove-insert :
    (s : KillSwitchScope) (t : String) (r : KillSwitchRecord) (m : Switches)
    → lookup s t m ≡ none
    → remove s t (insert s t r m) ≡ m
unfolding lookup insert remove
remove-insert s t r [] h = ground (arith, same_key s t)
remove-insert s t r ((s', t', r') ∷ m) h = ground (arith, remove-insert s t r m)

scope_eq : (a b : KillSwitchScope) → same_scope a b ≡ true → a ≡ b
scope_eq request request h = refl
scope_eq agent agent h = refl
scope_eq tenant tenant h = refl
scope_eq everywhere everywhere h = refl
scope_eq _ _ h = false_elim h

key_eq :
    (s s' : KillSwitchScope) (t t' : String)
    → same_scope s s' && t == t' ≡ true
    → (s ≡ s') × (t ≡ t')
key_eq s s' t t' h = (scope_eq s s' (and_left _ _ h), (eq_iff t t').0 (and_right _ _ h))

other :
    (s s' s'' : KillSwitchScope) (t t' t'' : String)
    → same_scope s s' && t == t' ≡ false
    → same_scope s' s'' && t' == t'' ≡ true
    → same_scope s s'' && t == t'' ≡ false
other s s' s'' t t' t'' h k = cc (h, (key_eq s' s'' t' t'' k).0, (key_eq s' s'' t' t'' k).1)

-- A key that is not the one removed keeps its switch.
lookup-remove_other :
    (s s' : KillSwitchScope) (t t' : String) (m : Switches)
    → same_scope s s' && t == t' ≡ false
    → lookup s t (remove s' t' m) ≡ lookup s t m
unfolding lookup remove
lookup-remove_other s s' t t' [] h = refl
lookup-remove_other s s' t t' ((s'', t'', r) ∷ m) h =
    ground (arith, lookup-remove_other s s' t t' m h, other s s' s'' t t' t'' h)

-- A trigger adds the switch that a check of the scope and the target asks for.
unfoldable pub Asks : KillSwitchScope → String → String → Option String → Option String → Type 0
Asks request target actor tid rid = (rid ≡ some target) × (truthy rid ≡ true)
Asks agent target actor tid rid = actor ≡ target
Asks tenant target actor tid rid = tid ≡ some target
Asks everywhere target actor tid rid = target ≡ "*"

-- What the check finds under the scope.
found_in :
    KillSwitchScope → Switches → String → Option String → Option String → Option KillSwitchRecord
found_in request m actor tid rid = request_switch rid m
found_in agent m actor tid rid = lookup agent actor m
found_in tenant m actor tid rid = tenant_switch tid m
found_in everywhere m actor tid rid = lookup everywhere "*" m

-- The check is active when some scope holds a switch.
check_found :
    (k : KillSwitch) (s : KillSwitchScope) (r : KillSwitchRecord) (actor : String)
    (tid rid : Option String)
    → found_in s k.switches actor tid rid ≡ some r
    → (check k actor tid rid).active ≡ true
unfolding check found_in
check_found k request r actor tid rid h = ground arith
check_found k agent r actor tid rid h = ground arith
check_found k tenant r actor tid rid h = ground arith
check_found k everywhere r actor tid rid h = ground arith

asked :
    (s : KillSwitchScope) (m : Switches) (target actor : String) (tid rid : Option String)
    → Asks s target actor tid rid
    → found_in s m actor tid rid ≡ lookup s target m
unfolding Asks found_in
asked request m target actor tid rid (e, h) = ground (arith, e, h)
asked agent m target actor tid rid e = ap (λ a. lookup agent a m) e
asked tenant m target actor tid rid e = ap (λ t. tenant_switch t m) e
asked everywhere m target actor tid rid e = ap (λ t. lookup everywhere t m) (sym e)

-- After a trigger, every check that asks for the scope and the target is active, and the switch
-- that was triggered is the one stored under them.
pub trigger-check :
    (uuid4 : ℕ → String) (now : ℕ) (s : KillSwitchScope) (target by by_type reason : String)
    (k : KillSwitch) (actor : String) (tid rid : Option String)
    → Asks s target actor tid rid
    → let after = (trigger uuid4 now s target by by_type reason k).1 in
      ((check after actor tid rid).active ≡ true)
      × (lookup s target after.switches ≡ some (trigger uuid4 now s target by by_type reason k).0)
unfolding trigger
trigger-check uuid4 now s target by by_type reason k actor tid rid h =
    let after = (trigger uuid4 now s target by by_type reason k).1 in
    (
      check_found after s _ actor tid rid
          (asked s after.switches target actor tid rid h ∙ lookup-insert s target _ k.switches),
      lookup-insert s target _ k.switches,
    )

-- A release of an active switch answers true, removes that switch, and leaves the switch of any
-- other scope and target as it was; without the switch it answers false and changes nothing.
pub release_lem :
    (s : KillSwitchScope) (target by reason : String) (k : KillSwitch) (s' : KillSwitchScope)
    (t' : String)
    → same_scope s' s && t' == target ≡ false
    → let (answer, after) = release s target by reason k in
      ((lookup s target k.switches ≡ none) × (answer ≡ false) × (after ≡ k))
      ⊎ ((r : KillSwitchRecord) × (lookup s target k.switches ≡ some r)
          × (answer ≡ true)
          × (lookup s target after.switches ≡ none)
          × (lookup s' t' after.switches ≡ lookup s' t' k.switches))
unfolding release
release_lem s target by reason k s' t' h = elim (Option-cases (lookup s target k.switches)) [
  | inl n ↦ inl (n, ground (arith, n), ground (arith, n))
  | inr (r, e) ↦ inr (
    r,
    e,
    ground (arith, e),
    ground (arith, e, lookup-remove s target k.switches),
    ground (arith, e, lookup-remove_other s' s t' target k.switches h),
  )
]

released :
    (s : KillSwitchScope) (target by reason : String) (k : KillSwitch) (r : KillSwitchRecord)
    → lookup s target k.switches ≡ some r
    → (release s target by reason k).1.switches ≡ remove s target k.switches
unfolding release
released s target by reason k r h = ground arith

-- A trigger of a switch that was not active, and then its release, restore the switches.
pub release-trigger :
    (uuid4 : ℕ → String) (now : ℕ) (s : KillSwitchScope) (target by by_type reason : String)
    (k : KillSwitch)
    → lookup s target k.switches ≡ none
    → let after = (trigger uuid4 now s target by by_type reason k).1 in
      (release s target by reason after).1.switches ≡ k.switches
unfolding trigger
release-trigger uuid4 now s target by by_type reason k h =
    released s target by reason _ _ (lookup-insert s target _ k.switches)
    ∙ remove-insert s target _ k.switches h
