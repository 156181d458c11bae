-- ===== src/Orchestration/Active.antt =====
-- apps/runtime/citadel/execution/orchestration.py, introspect: exactly when a decision is found to
-- give authority. Nothing is written and nothing is raised.
use ledger_sdk.Prelude.{
  String, true, false, not, ◌&&◌, Option, none, some, is_some, find_by, find_by-test, and_left,
  Bool-cases, ◌==◌, nonempty, ◌<>◌, if_true, ◌≡◌, ◌⊎◌, ◌↔◌, refl, sym, ap, ◌∙◌, inl, inr, arith,
  false_elim,
}
use mathlib.Core.Path.{subst}
use ledger_sdk.Exec.{ok, pure, ◌>>=◌, bind_ok}
use ledger_sdk.GovernanceDecision.{GovernanceDecision, is_expired, is_revoked, covers}
use ledger_sdk.Db.{App, Env, World, TokenRow}
use ledger_sdk.Vault.{resolve_decision, check_ancestry, decision_at}
use ledger_sdk.Vault.Ancestry.{ancestry_fault, check_ancestry-ancestry_fault}
use ledger_sdk.Orchestration.{OrchestrationRuntime, switch_reason}
use ledger_sdk.Orchestration.Lineage.{resolved}
use ledger_sdk.Orchestration.Introspection.{
  IntrospectionStatus, from_row, decision_status, use_status, refused, judge, introspect,
  introspect_decision,
}

-- The decision gives authority for the action on the resource in the state.
unfoldable pub Active :
    Env → OrchestrationRuntime → String → Option String → World → GovernanceDecision → Type 0
Active env rt action resource w d =
    (is_expired env.now d ≡ false)
    × (is_revoked d.decision_type ≡ false)
    × (is_some d.revoked_at ≡ false)
    × (is_some d.superseded_at ≡ false)
    × (ancestry_fault env d w ≡ none)
    × (nonempty action && not (covers d.scope action resource) ≡ false)
    × (switch_reason rt d ≡ none)

-- What `judge` answers for a decision of the vault.
verdict :
    Env
    → OrchestrationRuntime
    → Option String
    → String
    → Option String
    → Option TokenRow
    → World
    → GovernanceDecision
    → IntrospectionStatus
verdict env rt workspace action resource t w d = elim (decision_status env workspace t d) [
  | some s ↦ s
  | none ↦ elim (ancestry_fault env d w) [
    | some r ↦ record (refused ("Ancestry revoked: " <> r) (some d) t) { revoked = true }
    | none ↦ use_status rt action resource t d
  ]
]

judge-verdict :
    (env : Env) (rt : OrchestrationRuntime) (workspace : Option String) (action : String)
    (resource : Option String) (t : Option TokenRow) (row : GovernanceDecision) (w : World)
    → judge env rt workspace action resource t (some row) w
      ≡ (ok (verdict env rt workspace action resource t w (from_row row)), w)
unfolding judge verdict
judge-verdict env rt workspace action resource t row w = start (decision_status env workspace t d)
  where
    d : GovernanceDecision
    d = from_row row

    go_on : Option String → App IntrospectionStatus
    go_on fault = elim fault [
      | some r ↦ pure (record (refused ("Ancestry revoked: " <> r) (some d) t) { revoked = true })
      | none ↦ pure (use_status rt action resource t d)
    ]

    answered : Option String → IntrospectionStatus
    answered fault = elim fault [
      | some r ↦ record (refused ("Ancestry revoked: " <> r) (some d) t) { revoked = true }
      | none ↦ use_status rt action resource t d
    ]

    after : (o : Option String) → go_on o w ≡ (ok (answered o), w)
    after none = refl
    after (some r) = refl

    start :
        (o : Option IntrospectionStatus)
        → (elim o as (λ _. App IntrospectionStatus) [
          | some s ↦ pure s
          | none ↦ check_ancestry env d >>= go_on
        ])
            w
          ≡ (ok (elim o [ some s ↦ s | none ↦ answered (ancestry_fault env d w) ]), w)
    start (some s) = refl
    start none =
        bind_ok (check_ancestry env d) go_on w w _ (check_ancestry-ancestry_fault env d w)
        ∙ after (ancestry_fault env d w)

verdict-active :
    (env : Env) (rt : OrchestrationRuntime) (action : String) (resource : Option String) (w : World)
    (d : GovernanceDecision)
    → (verdict env rt none action resource none w d).active ≡ true
    → Active env rt action resource w d
unfolding verdict Active decision_status use_status
verdict-active env rt action resource w d h = ground (arith, h)

active-verdict :
    (env : Env) (rt : OrchestrationRuntime) (action : String) (resource : Option String) (w : World)
    (d : GovernanceDecision)
    → Active env rt action resource w d
    → (verdict env rt none action resource none w d).active ≡ true
unfolding verdict Active decision_status use_status
active-verdict env rt action resource w d (e, k, r, s, a, c, n) =
    ground (arith, e, k, r, s, a, c, n)

answer_for :
    Env
    → OrchestrationRuntime
    → String
    → Option String
    → World
    → Option GovernanceDecision
    → IntrospectionStatus
answer_for env rt action resource w none = refused "Decision or token not found" none none
answer_for env rt action resource w (some row) =
    verdict env rt none action resource none w (from_row row)

-- The row of the decision, among those of its tenant.
abbrev pub row_of : GovernanceDecision → World → Option GovernanceDecision
row_of given w =
    find_by (decision_at given.decision_id (some given.tenant_id)) w.db.governance_decisions

introspect-answer_for :
    (env : Env) (rt : OrchestrationRuntime) (given : GovernanceDecision) (action : String)
    (resource : Option String) (w : World)
    → nonempty given.decision_id ≡ true
    → introspect_decision env rt given action resource w
      ≡ (ok (answer_for env rt action resource w (row_of given w)), w)
unfolding introspect_decision introspect resolve_decision answer_for judge ◌>>=◌
introspect-answer_for env rt given action resource w h =
    subst
      (λ (m : App (Option GovernanceDecision)).
        (m >>= judge env rt none action resource none) w
        ≡ (ok (answer_for env rt action resource w (row_of given w)), w))
      (sym (if_true (nonempty given.decision_id) _ _ h)) (by_row (row_of given w))
  where
    by_row :
        (o : Option GovernanceDecision)
        → judge env rt none action resource none o w
          ≡ (ok (answer_for env rt action resource w o), w)
    by_row none = refl
    by_row (some row) = judge-verdict env rt none action resource none row w

-- The introspection of a decision with an identifier neither raises nor writes, and it answers
-- active exactly where the tenant's vault has a row for the decision that is neither expired,
-- revoked nor superseded, whose ancestry is active, whose scope covers the required action, if one
-- is named, on the resource, and that no in-memory switch stops.
pub introspect_decision-Active :
    (env : Env) (rt : OrchestrationRuntime) (given : GovernanceDecision) (action : String)
    (resource : Option String) (w : World)
    → nonempty given.decision_id ≡ true
    → (s : IntrospectionStatus) × (introspect_decision env rt given action resource w ≡ (ok s, w))
      × ((s.active ≡ true) ↔ (
          (row : GovernanceDecision) × (row_of given w ≡ some row)
          × Active env rt action resource w (from_row row)))
unfolding answer_for
introspect_decision-Active env rt given action resource w h = (
  answer_for env rt action resource w (row_of given w),
  introspect-answer_for env rt given action resource w h,
  exactly (row_of given w),
)
  where
    exactly :
        (o : Option GovernanceDecision)
        → ((answer_for env rt action resource w o).active ≡ true) ↔ (
            (row : GovernanceDecision) × (o ≡ some row)
            × Active env rt action resource w (from_row row))
    exactly none = (λ e. false_elim e, λ p. absurd (ground (arith, p.1)))
    exactly (some row) = (
      λ e. (row, refl, verdict-active env rt action resource w (from_row row) e),
      λ p. same (p.0) (ground (arith, p.1)) p.2,
    )
      where
        same :
            (row' : GovernanceDecision)
            → row ≡ row'
            → Active env rt action resource w (from_row row')
            → (verdict env rt none action resource none w (from_row row)).active ≡ true
        same row' q a =
            active-verdict env rt action resource w (from_row row)
              (subst (λ r. Active env rt action resource w (from_row r)) (sym q) a)

verdict-decision :
    (env : Env) (rt : OrchestrationRuntime) (action : String) (resource : Option String) (w : World)
    (d : GovernanceDecision)
    → (verdict env rt none action resource none w d).active ≡ true
    → (verdict env rt none action resource none w d).decision ≡ some d
unfolding verdict decision_status use_status
verdict-decision env rt action resource w d h = ground (arith, h)

-- The row of the caller's decision gives authority, and is what the caller goes on with.
abbrev pub HasAuthority :
    Env → OrchestrationRuntime → GovernanceDecision → World → GovernanceDecision → Type 0
HasAuthority env rt given w row =
    (row_of given w ≡ some row) × Active env rt given.action given.resource w (from_row row)

abbrev pub Consulted :
    Env → OrchestrationRuntime → GovernanceDecision → World → IntrospectionStatus → Type 0
Consulted env rt given w s =
    (s.active ≡ false)
    ⊎ ((row : GovernanceDecision) × HasAuthority env rt given w row
        × (resolved s given ≡ from_row row)
        × (s.active ≡ true))

pub same_id :
    (given row : GovernanceDecision) (w : World)
    → row_of given w ≡ some row
    → row.decision_id == given.decision_id ≡ true
same_id given row w e = and_left _ _ (
    find_by-test (decision_at given.decision_id (some given.tenant_id)) w.db.governance_decisions
      row e)

pub consult :
    (env : Env) (rt : OrchestrationRuntime) (given : GovernanceDecision) (w : World)
    → nonempty given.decision_id ≡ true
    → (s : IntrospectionStatus) × (introspect_decision env rt given given.action given.resource w
        ≡ (ok s, w))
      × Consulted env rt given w s
unfolding answer_for resolved
consult env rt given w h = (
  answer_for env rt given.action given.resource w (row_of given w),
  introspect-answer_for env rt given given.action given.resource w h,
  by_row (row_of given w) refl,
)
  where
    by_row :
        (o : Option GovernanceDecision)
        → row_of given w ≡ o
        → Consulted env rt given w (answer_for env rt given.action given.resource w o)
    by_row none e = inl refl
    by_row (some row) e =
        by_answer (verdict env rt none given.action given.resource none w (from_row row)) refl
      where
        by_answer :
            (s : IntrospectionStatus)
            → verdict env rt none given.action given.resource none w (from_row row) ≡ s
            → Consulted env rt given w s
        by_answer s q = elim (Bool-cases s.active) [
          | inr i ↦ inl i
          | inl a ↦ inr (
            row,
            (
              e,
              verdict-active env rt given.action given.resource w (from_row row)
                  (ap (λ (s : IntrospectionStatus). s.active) q ∙ a),
            ),
            ground (
              arith,
              same_id given row w e,
              sym (ap (λ (s : IntrospectionStatus). s.decision) q)
                  ∙ verdict-decision env rt given.action given.resource w (from_row row)
                      (ap (λ (s : IntrospectionStatus). s.active) q ∙ a),
            ),
            a,
          )
        ]
