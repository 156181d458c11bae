-- ===== src/Orchestration/HandedOver.antt =====
-- apps/runtime/citadel/execution/orchestration.py, handoff: authority moves, or nothing of it
-- does, or the log refuses to say that it moved.
use ledger_sdk.Prelude.{
  String, Bool, true, false, not, ◌&&◌, ◌==◌, Option, none, some, List, [], ◌∷◌, All, any, is_some,
  update_where, truthy, ◌≡◌, ◌⊎◌, refl, sym, ap, ◌∙◌, inl, inr, arith, if◌then◌else◌, true_by_not,
  if_true,
}
use mathlib.Core.Path.{subst}
use ledger_sdk.Exec.{Exn, Result, ok, raised, pure, ◌>>=◌, ◌>>◌}
use ledger_sdk.Exec.Keeps.{Keeps, keeps_rules}
use ledger_sdk.Exec.Post.{post_bind, post_if}
use ledger_sdk.Exec.Returns.{returned}
use ledger_sdk.Actions.{Action, Decision, KernelResult}
use ledger_sdk.GovernanceDecision.{GovernanceDecision}
use ledger_sdk.Db.{App, Env, World, AuditEvent}
use ledger_sdk.Values.{Fields}
use ledger_sdk.Vault.Authority.{SameAuthority, Logs, save_audit_event-Logs, authority_frame}
use ledger_sdk.Repository.Frame.{Keeps-fresh}
use ledger_sdk.AuditService.{log}
use ledger_sdk.Vault.{upsert_decision, store_decision, has_decision_id, merged, as_row}
use ledger_sdk.Kernel.{handle}
use ledger_sdk.Kernel.LogKept.{Keeps-handle_keyless}
use ledger_sdk.Kernel.Terminal.{is_executed}
use ledger_sdk.Kernel.Execution.{Permitted}
use ledger_sdk.Orchestration.{OrchestrationRuntime}
use ledger_sdk.Orchestration.Scope.{is_narrower_scope}
use ledger_sdk.Orchestration.Lineage.{Request, is_allowed, is_permitted, child_action, trace_for}
use ledger_sdk.Orchestration.Governed.{ChildOf, child_action-ChildOf, governed_lem}
use ledger_sdk.Orchestration.Handoff.{
  HandoffResult, handed_over, superseded, audit_handoff_performed, new_grant, take_over,
  after_kernel,
}

-- Every row of the decision is superseded.
abbrev pub Superseded : String → List GovernanceDecision → Type 0
Superseded id rows =
    All (λ d. (d.decision_id == id ≡ false) ⊎ (is_some d.superseded_at ≡ true)) rows

update-Superseded :
    (d : GovernanceDecision) (rows : List GovernanceDecision)
    → is_some d.superseded_at ≡ true
    → Superseded d.decision_id (update_where (has_decision_id d.decision_id) (merged d) rows)
update-Superseded d [] h = tt
update-Superseded d (x ∷ rows) h =
    (row (x.decision_id == d.decision_id) refl, update-Superseded d rows h)
  where
    row :
        (b : Bool)
        → x.decision_id == d.decision_id ≡ b
        → ((if b then merged d x else x).decision_id == d.decision_id ≡ false)
          ⊎ (is_some (if b then merged d x else x).superseded_at ≡ true)
    row true e = inr h
    row false e = inl e

absent-Superseded :
    (id : String) (rows : List GovernanceDecision)
    → any (has_decision_id id) rows ≡ false
    → Superseded id rows
absent-Superseded id [] h = tt
absent-Superseded id (x ∷ rows) h =
    (inl (ground (arith, h)), absent-Superseded id rows (ground (arith, h)))

upsert-Superseded :
    (d : GovernanceDecision) (rows : List GovernanceDecision)
    → is_some d.superseded_at ≡ true
    → Superseded d.decision_id (upsert_decision d rows)
unfolding upsert_decision
upsert-Superseded d rows h = by_presence (any (has_decision_id d.decision_id) rows) refl
  where
    by_presence :
        (b : Bool)
        → any (has_decision_id d.decision_id) rows ≡ b
        → Superseded d.decision_id (
            if b
            then update_where (has_decision_id d.decision_id) (merged d) rows
            else as_row d ∷ rows)
    by_presence true e = update-Superseded d rows h
    by_presence false e = (inr h, absent-Superseded d.decision_id rows e)

-- The kernel executed the new actor's action, in the lineage of the old decision, with a decision.
abbrev pub NewRan :
    Env → OrchestrationRuntime → GovernanceDecision → Request → Bool → World → Decision → Type 0
NewRan env rt current q dry v d =
    (action : Action) × ChildOf q current current.parent_decision_id action
    × (is_executed d.status ≡ true)
    × ((u : World) × (child_action env q current current.parent_decision_id v ≡ (ok action, u))
        × Permitted env rt.kernel action none dry u)

-- Authority has moved: the old decision is superseded, the tokens are untouched and no grant is
-- made, and the kernel executed the new actor's action.
unfoldable pub Moved :
    Env
    → OrchestrationRuntime
    → GovernanceDecision
    → Request
    → Bool
    → World
    → HandoffResult
    → World
    → Type 0
Moved env rt current q dry v r w =
    (r.success ≡ true)
    × (is_narrower_scope current.scope q.scope ≡ true)
    × Superseded current.decision_id w.db.governance_decisions
    × (w.db.governance_tokens ≡ v.db.governance_tokens)
    × (r.new_grant ≡ none)
    × ((d : Decision) × (r.new_decision ≡ some d) × NewRan env rt current q dry v d)

-- The handoff stopped at its last step: the old decision is superseded and the new action was
-- executed, but the table of audit events refused the row that says so.
unfoldable pub Stranded :
    Env → OrchestrationRuntime → GovernanceDecision → Request → Bool → World → Exn → World → Type 0
Stranded env rt current q dry v x w =
    Superseded current.decision_id w.db.governance_decisions
    × (w.db.governance_tokens ≡ v.db.governance_tokens)
    × ((d : Decision) × NewRan env rt current q dry v d)
    × ((e : AuditEvent) × (u : World) × (e.event_type ≡ "handoff_performed")
        × (env.audit_refusal e u ≡ some x))

-- Either authority has moved, or nothing of it has changed, or the move was not logged.
unfoldable pub Outcome :
    Env
    → OrchestrationRuntime
    → GovernanceDecision
    → Request
    → Bool
    → World
    → Result HandoffResult × World
    → Type 0
Outcome env rt current q dry v (ok r, w) =
    Moved env rt current q dry v r w ⊎ ((r.success ≡ false) × SameAuthority v w)
Outcome env rt current q dry v (raised e, w) =
    SameAuthority v w ⊎ Stranded env rt current q dry v e w

module _ (env : Env) (rt : OrchestrationRuntime) (given current : GovernanceDecision) (q : Request)
    (reason : String) (dry : Bool) (v : World)
    (narrow : is_narrower_scope current.scope q.scope ≡ true) where
  new_grant-none :
      (action : Action) (d : Decision)
      → is_allowed d.status ≡ false
      → new_grant env rt q dry action d ≡ pure none
  unfolding new_grant
  new_grant-none action d a = if_true (not (not dry && is_allowed d.status)) _ _ (ground (arith, a))

  Logs-audit_handoff_performed :
      (action : Action) (d : Decision) (grant : Option String) (w : World)
      → Logs env "handoff_performed" w (audit_handoff_performed env given action d grant reason w)
  unfolding audit_handoff_performed log
  Logs-audit_handoff_performed action d grant w =
      let logged : (payload : Fields)
          → Logs env "handoff_performed" w (log env action "handoff_performed" payload none w) =
        λ payload.
          save_audit_event-Logs env action.action_id "handoff_performed" payload
            (some action.actor_id) action.tenant_id w in
      post_bind (Logs env "handoff_performed" w) _ _ w
        (λ n w' e. subst (Logs env "handoff_performed" w) e (logged _))
        λ x w' e. subst (Logs env "handoff_performed" w) e (logged _)

  Outcome-take_over :
      (action : Action) (d : Decision) (u w : World)
      → SameAuthority v w
      → is_allowed d.status ≡ false
      → ChildOf q current current.parent_decision_id action
      → is_executed d.status ≡ true
      → child_action env q current current.parent_decision_id v ≡ (ok action, u)
      → Permitted env rt.kernel action none dry u
      → Outcome env rt current q dry v (take_over env rt given current q reason dry action d w)
  unfolding take_over store_decision Moved Stranded Outcome ◌>>=◌
  Outcome-take_over action d u w same a c x made p =
      subst
        (λ (m : App (Option String)). Outcome env rt current q dry v (
          (store_decision (superseded env q reason current)
              >> (m >>= λ grant.
                  audit_handoff_performed env given action d grant reason
                  >> pure (handed_over q d grant)))
            w))
        (sym (new_grant-none action d a))
        (post_bind (Outcome env rt current q dry v)
          (audit_handoff_performed env given action d none reason)
          (λ _. pure (handed_over q d none)) w1
          (λ n w2 e.
            let kept =
              subst (Logs env "handoff_performed" w1) e
                (Logs-audit_handoff_performed action d none w1) in
            inl (refl, narrow, gone w2 kept.0, kept.1 ∙ same.1, refl, (d, refl, ran)))
          λ y w2 e.
            let (kept, refused) =
              subst (Logs env "handoff_performed" w1) e
                (Logs-audit_handoff_performed action d none w1) in
            inr (gone w2 kept.0, kept.1 ∙ same.1, (d, ran), refused))
    where
      w1 : World
      w1 = (store_decision (superseded env q reason current) w).1

      ran : NewRan env rt current q dry v d
      ran = (action, c, x, (u, made, p))

      gone :
          (w2 : World)
          → w2.db.governance_decisions
            ≡ upsert_decision (superseded env q reason current) w.db.governance_decisions
          → Superseded current.decision_id w2.db.governance_decisions
      gone w2 e =
          subst (Superseded current.decision_id) (sym e)
            (upsert-Superseded (superseded env q reason current) w.db.governance_decisions refl)

  Outcome-after_kernel :
      (action : Action) (g : KernelResult) (w w' : World)
      → SameAuthority v w'
      → ChildOf q current current.parent_decision_id action
      → child_action env q current current.parent_decision_id v ≡ (ok action, w)
      → (handle env rt.kernel action none dry w).0 ≡ ok g
      → Outcome env rt current q dry v
          (after_kernel env rt given current q reason dry action g.decision w')
  unfolding after_kernel Outcome
  Outcome-after_kernel action g w w' same c made e = by_decision g.decision refl
    where
      by_decision :
          (o : Option Decision)
          → g.decision ≡ o
          → Outcome env rt current q dry v
              (after_kernel env rt given current q reason dry action o w')
      by_decision none h = inl same
      by_decision (some d) h =
          post_if (Outcome env rt current q dry v) (not (is_permitted d.status)) _ _ w'
            (λ y. inr (refl, same))
            λ y.
              let (x, a, p) =
                governed_lem env rt.kernel action dry w g d c.7 e h (true_by_not _ y) in
              Outcome-take_over action d w w' same a c x made p

  Keeps-child_action :
      Keeps (SameAuthority v) (child_action env q current current.parent_decision_id)
  unfolding child_action trace_for
  Keeps-child_action = search (keeps_rules, Keeps-fresh (authority_frame env v)) depth 12

  -- The steps up to the kernel's answer leave the authority alone.
  pub Outcome-run : Outcome env rt current q dry v (
      (child_action env q current current.parent_decision_id >>= λ action.
      handle env rt.kernel action none dry >>= λ governed.
      after_kernel env rt given current q reason dry action governed.decision)
        v)
  unfolding Outcome
  Outcome-run =
      post_bind (Outcome env rt current q dry v) _ _ v
        (λ action w1 e1.
          let c : ChildOf q current current.parent_decision_id action =
            returned v action (child_action-ChildOf env q current current.parent_decision_id)
              (ap (λ (p : Result Action × World). p.0) e1) in
          let same1 : SameAuthority v w1 =
            subst (λ (p : Result Action × World). SameAuthority v p.1) e1
              (Keeps-child_action.kept v (refl, refl)) in
          let run =
            Keeps-handle_keyless (authority_frame env v) action rt.kernel none dry
              (ap truthy c.7) in
          post_bind (Outcome env rt current q dry v) _ _ w1
            (λ g w2 e2.
              Outcome-after_kernel action g w1 w2
                (subst (λ (p : Result KernelResult × World). SameAuthority v p.1) e2
                  (run.kept w1 same1))
                c e1 (ap (λ (p : Result KernelResult × World). p.0) e2))
            (λ x w2 e2. inl (
              subst (λ (p : Result KernelResult × World). SameAuthority v p.1) e2
                (run.kept w1 same1))))
        (λ x w1 e1. inl (
          subst (λ (p : Result Action × World). SameAuthority v p.1) e1
            (Keeps-child_action.kept v (refl, refl))))
