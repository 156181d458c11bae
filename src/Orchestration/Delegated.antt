-- ===== src/Orchestration/Delegated.antt =====
-- apps/runtime/citadel/execution/orchestration.py, delegate: what holds when a delegation succeeds.
use ledger_sdk.Prelude.{
  String, or_else, ◌<>◌, Bool, true, not, ◌&&◌, Option, none, some, nonempty, ◌≡◌, refl, sym, ap,
  ◌∙◌, inl, inr, arith, if◌then◌else◌, false_elim, true_by_not, if_false, if_true,
}
use ledger_sdk.Exec.{◌>>=◌, pure, bind_ok, ok, Result, raised}
use ledger_sdk.Exec.Returns.{
  Returns, Returns-bind, Returns-pure, Returns-if, Returns-raise, returned, Holds,
}
use ledger_sdk.Exec.Post.{post_bind, post_if}
use mathlib.Core.Path.{subst}
use ledger_sdk.Actions.{Action, Decision, KernelResult}
use ledger_sdk.GovernanceDecision.{GovernanceDecision}
use ledger_sdk.Db.{App, Env, World}
use ledger_sdk.Kernel.{handle}
use ledger_sdk.Kernel.Terminal.{is_executed}
use ledger_sdk.Kernel.Execution.{Permitted}
use ledger_sdk.Orchestration.{OrchestrationRuntime, switch_reason}
use ledger_sdk.Orchestration.Scope.{is_narrower_scope}
use ledger_sdk.Orchestration.Lineage.{
  Request, child_action, resolved, is_allowed, is_permitted, kernel_to_governance_decision,
}
use ledger_sdk.Orchestration.Governed.{ChildOf, child_action-ChildOf, governed_lem}
use ledger_sdk.Orchestration.Active.{HasAuthority, Consulted, consult}
use ledger_sdk.Orchestration.Introspection.{IntrospectionStatus, from_row}
use ledger_sdk.Orchestration.Delegation.{
  refused, DelegationResult, created, issue_grant, after_kernel, delegate_under, delegate,
  audit_delegate_created, delegated,
}

-- The kernel executed the child's action, with a status that is not ALLOWED: no token is issued.
pub Ran :
    Env
    → OrchestrationRuntime
    → GovernanceDecision
    → Request
    → Bool
    → World
    → DelegationResult
    → Type 0
Ran env rt parent q dry v r =
    (action : Action) × (d : Decision) × (r.child_action ≡ some action)
    × (r.child_decision ≡ some d)
    × (r.child_grant ≡ none)
    × ChildOf q parent (some parent.decision_id) action
    × (is_executed d.status ≡ true)
    × ((w : World) × (child_action env q parent (some parent.decision_id) v ≡ (ok action, w))
        × Permitted env rt.kernel action none dry w)

module _ (env : Env) (rt : OrchestrationRuntime) (given parent : GovernanceDecision) (q : Request)
    (dry : Bool) (v : World) where
  Ran-after_kernel :
      (action : Action) (g : KernelResult) (w : World)
      → ChildOf q parent (some parent.decision_id) action
      → child_action env q parent (some parent.decision_id) v ≡ (ok action, w)
      → (handle env rt.kernel action none dry w).0 ≡ ok g
      → Returns
          (λ r. r.success ≡ true → Ran env rt parent q dry v r)
          (after_kernel env rt given q dry action g.decision)
  unfolding after_kernel created Ran
  Ran-after_kernel action g w c made e = by_decision g.decision refl
    where
      done :
          (d : Decision)
          → g.decision ≡ some d
          → is_permitted d.status ≡ true
          → Returns
              (λ r. r.success ≡ true → Ran env rt parent q dry v r)
              (if not dry && is_allowed d.status
                then issue_grant env rt given action d
                    (kernel_to_governance_decision env d action q.scope)
                else created env given action d none)
      done d h p =
          let (x, a, permitted) = governed_lem env rt.kernel action dry w g d c.7 e h p in
          Returns-if (not dry && is_allowed d.status)
            (issue_grant env rt given action d (kernel_to_governance_decision env d action q.scope))
            (created env given action d none) (λ y. absurd (ground (arith, y, a)))
            λ _. Returns-bind (audit_delegate_created env given action d none) _ λ s u e.
              Returns-pure (delegated action d none)
                (λ _. (action, d, refl, refl, refl, c, x, (w, made, permitted)))

      by_decision :
          (o : Option Decision)
          → g.decision ≡ o
          → Returns
              (λ r. r.success ≡ true → Ran env rt parent q dry v r)
              (after_kernel env rt given q dry action o)
      by_decision none h = Returns-raise _ _
      by_decision (some d) h =
          Returns-if _ _ _ (λ y. Returns-pure _ λ s. false_elim s) λ y. done d h (true_by_not _ y)

  Started : DelegationResult → Type 0
  Started r =
      r.success ≡ true
      → (switch_reason rt parent ≡ none)
        × (is_narrower_scope parent.scope q.scope ≡ true)
        × Ran env rt parent q dry v r

  Outcome : Result DelegationResult × World → Type 0
  Outcome o = Holds Started o.0

  Started-Ran :
      switch_reason rt parent ≡ none
      → is_narrower_scope parent.scope q.scope ≡ true
      → (r : Result DelegationResult)
      → Holds (λ r. r.success ≡ true → Ran env rt parent q dry v r) r
      → Holds Started r
  unfolding Started
  Started-Ran f n (ok r) h = λ s. (f, n, h s)
  Started-Ran f n (raised e) h = tt

  Started-delegate_under : Outcome (delegate_under env rt given parent q dry v)
  unfolding delegate_under Started Outcome
  Started-delegate_under = by_switch (switch_reason rt parent) refl
    where
      narrowed :
          switch_reason rt parent ≡ none
          → Outcome (
              (if not (is_narrower_scope parent.scope q.scope)
                  then pure (refused "Child scope exceeds parent authority")
                  else do
                    action ← child_action env q parent (some parent.decision_id)
                    governed ← handle env rt.kernel action none dry
                    after_kernel env rt given q dry action governed.decision)
                v)
      narrowed free =
          post_if Outcome (not (is_narrower_scope parent.scope q.scope)) _ _ v
            (λ y. λ s. false_elim s)
            λ narrow.
              post_bind Outcome (child_action env q parent (some parent.decision_id)) _ v
                (λ action w e.
                  post_bind Outcome (handle env rt.kernel action none dry) _ w
                    (λ g w' e'. Started-Ran free (true_by_not _ narrow) _ (
                      (Ran-after_kernel action g w
                          (returned v action
                            (child_action-ChildOf env q parent (some parent.decision_id))
                            (ap (λ (o : Result Action × World). o.0) e))
                          e (ap (λ (o : Result KernelResult × World). o.0) e')).from
                        w'))
                    λ x w' e'. tt)
                λ x w e. tt

      by_switch :
          (o : Option String)
          → switch_reason rt parent ≡ o
          → let m : App DelegationResult = elim o [
            | some r ↦ pure (refused ("Kill switch active: " <> r))
            | none ↦
                if not (is_narrower_scope parent.scope q.scope)
                then pure (refused "Child scope exceeds parent authority")
                else do
                  action ← child_action env q parent (some parent.decision_id)
                  governed ← handle env rt.kernel action none dry
                  after_kernel env rt given q dry action governed.decision
          ] in
            Outcome (m v)
      by_switch (some r) e = λ s. false_elim s
      by_switch none e = narrowed e

-- A delegation that succeeds started from a row of the vault for the parent that gives authority
-- for the parent's own action, and from a child scope that passes as narrower than that row's; the
-- child's action is in the lineage of the row, it was no dry run, and the kernel executed it under
-- all its checks. No grant is issued, since the status is never ALLOWED.
pub delegate-Ran :
    (env : Env) (rt : OrchestrationRuntime) (parent : GovernanceDecision) (q : Request) (dry : Bool)
    (w : World) (r : DelegationResult)
    → nonempty parent.decision_id ≡ true
    → (delegate env rt parent q dry w).0 ≡ ok r
    → r.success ≡ true
    → (row : GovernanceDecision) × HasAuthority env rt parent w row
      × (is_narrower_scope row.scope q.scope ≡ true)
      × Ran env rt (from_row row) q dry w r
unfolding delegate Started Outcome
delegate-Ran env rt parent q dry w r h e s =
    let (status, run, told) = consult env rt parent w h in
    by_status status told
      (ap (λ (p : Result DelegationResult × World). p.0) (sym (bind_ok _ go_on w w status run)) ∙ e)
  where
    go_on : IntrospectionStatus → App DelegationResult
    go_on s =
        if not s.active
        then pure (refused ("Parent authority not active: " <> or_else s.reason "None"))
        else delegate_under env rt parent (resolved s parent) q dry

    by_status :
        (status : IntrospectionStatus)
        → Consulted env rt parent w status
        → (go_on status w).0 ≡ ok r
        → (row : GovernanceDecision) × HasAuthority env rt parent w row
          × (is_narrower_scope row.scope q.scope ≡ true)
          × Ran env rt (from_row row) q dry w r
    by_status status (inl i) e = absurd (
        ground (
          arith,
          s,
          sym (
                ap (λ (m : App DelegationResult). (m w).0)
                  (if_true (not status.active) _ _ (ap not i)))
              ∙ e,
        ))
    by_status status (inr (row, authority, same, a)) e =
        let (free, narrow, ran) =
          subst (Holds (Started env rt parent (from_row row) q dry w))
            (sym (
                ap (λ (m : App DelegationResult). (m w).0)
                  (if_false (not status.active) _ _ (ap not a)
                    ∙ ap (λ d. delegate_under env rt parent d q dry) same))
              ∙ e)
            (Started-delegate_under env rt parent (from_row row) q dry w) s in
        (row, authority, narrow, ran)
