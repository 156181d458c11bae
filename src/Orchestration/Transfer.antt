-- ===== src/Orchestration/Transfer.antt =====
-- apps/runtime/citadel/execution/orchestration.py, handoff: what a whole handoff comes to, and that
-- the old authority verifies no token afterwards.
use ledger_sdk.Prelude.{
  String, Bool, true, false, not, ◌==◌, Option, some, All-find_by, eq_iff, or_else, ◌<>◌, nonempty,
  is_some, ◌≡◌, ◌⊎◌, refl, sym, ap, ◌∙◌, inl, inr, arith, if◌then◌else◌, true_by_not, if_false,
  if_true,
}
use mathlib.Core.Path.{subst}
use ledger_sdk.Values.{Fields, get_text}
use ledger_sdk.Exec.{Result, ok, raised, pure, bind_ok}
use ledger_sdk.Exec.Post.{post_if}
use ledger_sdk.GovernanceDecision.{GovernanceDecision}
use ledger_sdk.Db.{App, Env, World, TokenRow}
use ledger_sdk.Vault.{resolve_token, resolve_decision, decision_at}
use ledger_sdk.Verifier.{VerificationResult, TokenVerifier, verify_token, rebuilt}
use ledger_sdk.Verifier.Soundness.{Current, Verified, verify_token-Verified}
use ledger_sdk.Vault.Authority.{SameAuthority}
use ledger_sdk.Orchestration.{OrchestrationRuntime}
use ledger_sdk.Orchestration.Scope.{is_narrower_scope}
use ledger_sdk.Orchestration.Introspection.{IntrospectionStatus, from_row}
use ledger_sdk.Orchestration.Active.{same_id, HasAuthority, Consulted, consult}
use ledger_sdk.Orchestration.Lineage.{Request, resolved}
use ledger_sdk.Orchestration.HandedOver.{Superseded, Moved, Stranded, Outcome, Outcome-run}
use ledger_sdk.Orchestration.Handoff.{HandoffResult, refused, handoff_from, handoff}

-- What becomes of a handoff: only a decision that gives authority is handed over.
pub Ended :
    Env
    → OrchestrationRuntime
    → GovernanceDecision
    → Request
    → Bool
    → World
    → Result HandoffResult × World
    → Type 0
Ended env rt given q dry v (ok r, w) =
    ((row : GovernanceDecision) × HasAuthority env rt given v row
      × Moved env rt (from_row row) q dry v r w)
    ⊎ ((r.success ≡ false) × SameAuthority v w)
Ended env rt given q dry v (raised e, w) =
    SameAuthority v w
    ⊎ ((row : GovernanceDecision) × HasAuthority env rt given v row
        × Stranded env rt (from_row row) q dry v e w)

ended :
    (env : Env) (rt : OrchestrationRuntime) (given row : GovernanceDecision) (q : Request)
    (dry : Bool) (v : World)
    → HasAuthority env rt given v row
    → (o : Result HandoffResult × World) → Outcome env rt (from_row row) q dry v o
    → Ended env rt given q dry v o
unfolding Outcome Ended
ended env rt given row q dry v a (ok r, w) (inl m) = inl (row, a, m)
ended env rt given row q dry v a (ok r, w) (inr k) = inr k
ended env rt given row q dry v a (raised e, w) (inl k) = inl k
ended env rt given row q dry v a (raised e, w) (inr k) = inr (row, a, k)

-- A handoff, of a decision with an identifier, either succeeds, from a row of the vault that gives
-- authority, with a scope that passes as narrower, after the kernel executed the new action, and
-- leaves every row of the decision superseded and the tokens as they were; or it answers without
-- success or raises, and no decision and no token of the vault has changed; or it raises with the
-- refusal of the audit event "handoff_performed" by the table, and then every row of the decision
-- is already superseded and the new action was executed.
pub handoff-Ended :
    (env : Env) (rt : OrchestrationRuntime) (current : GovernanceDecision) (q : Request)
    (reason : String) (dry : Bool) (w : World)
    → nonempty current.decision_id ≡ true
    → Ended env rt current q dry w (handoff env rt current q reason dry w)
unfolding handoff handoff_from Ended
handoff-Ended env rt current q reason dry w h =
    let (status, run, told) = consult env rt current w h in
    subst (Ended env rt current q dry w) (sym (bind_ok _ go_on w w status run))
      (by_status status told)
  where
    go_on : IntrospectionStatus → App HandoffResult
    go_on s =
        if not s.active
        then pure (refused ("Current authority not active: " <> or_else s.reason "None"))
        else handoff_from env rt current (resolved s current) q reason dry

    by_status :
        (status : IntrospectionStatus)
        → Consulted env rt current w status
        → Ended env rt current q dry w (go_on status w)
    by_status status (inl i) =
        subst (λ (m : App HandoffResult). Ended env rt current q dry w (m w))
          (sym (if_true (not status.active) _ _ (ap not i))) (inr (refl, (refl, refl)))
    by_status status (inr (row, a, same, active)) =
        subst (λ (m : App HandoffResult). Ended env rt current q dry w (m w))
          (sym (
            if_false (not status.active) _ _ (ap not active)
            ∙ ap (λ d. handoff_from env rt current d q reason dry) same))
          (post_if (Ended env rt current q dry w) (not (is_narrower_scope row.scope q.scope)) _ _ w
            (λ y. inr (refl, (refl, refl)))
            λ y.
              ended env rt current row q dry w a _
                (Outcome-run env rt current (from_row row) q reason dry w (true_by_not _ y)))

-- After a handoff that succeeded, all rows of the decision are superseded.
success-Superseded :
    (env : Env) (rt : OrchestrationRuntime) (current : GovernanceDecision) (q : Request)
    (dry : Bool) (v : World) (o : Result HandoffResult × World) (r : HandoffResult)
    → Ended env rt current q dry v o
    → o.0 ≡ ok r
    → r.success ≡ true
    → Superseded current.decision_id o.1.db.governance_decisions
unfolding Ended Moved
success-Superseded env rt current q dry v (ok r, w) r' (inl (row, a, m)) e s =
    subst (λ id. Superseded id w.db.governance_decisions)
      ((eq_iff row.decision_id current.decision_id).0 (same_id current row v a.0)) m.2
success-Superseded env rt current q dry v (ok r, w) r' (inr k) e s =
    absurd (ground (arith, k.0, e, s))
success-Superseded env rt current q dry v (raised x, w) r' k e s = absurd (ground (arith, e))

other_decision :
    (env : Env) (t : TokenRow) (row : GovernanceDecision) (id : String)
    → Current env (rebuilt t row)
    → (row.decision_id == id ≡ false) ⊎ (is_some row.superseded_at ≡ true)
    → row.decision_id == id ≡ false
unfolding Current
other_decision env t row id c (inl h) = h
other_decision env t row id (a, e, r, s) (inr h) = absurd (ground (arith, h, s))

-- In the state after a handoff that succeeded, a token that is found valid, by any verifier at any
-- instant, is linked to another decision than the one handed over.
pub verify-handoff :
    (env env' : Env) (rt : OrchestrationRuntime) (current : GovernanceDecision) (q : Request)
    (reason : String) (dry : Bool) (w : World) (r : HandoffResult) (v : TokenVerifier)
    (token : String) (context : Fields) (action : String) (resource : Option String)
    (x : VerificationResult)
    → nonempty current.decision_id ≡ true
    → (handoff env rt current q reason dry w).0 ≡ ok r
    → r.success ≡ true
    → let w' = (handoff env rt current q reason dry w).1 in
      (verify_token env' v token context action resource w').0 ≡ ok x
      → x.valid ≡ true
      → (t : TokenRow) × (row : GovernanceDecision) × ((resolve_token token
            (get_text "tenant_id" context)
            w').0
          ≡ ok (some t))
        × ((resolve_decision t.decision_id (get_text "tenant_id" context) w').0 ≡ ok (some row))
        × (row.decision_id == current.decision_id ≡ false)
unfolding Verified resolve_decision
verify-handoff env env' rt current q reason dry w r v token context action resource x h e s f
      valid =
    let w' = (handoff env rt current q reason dry w).1 in
    let (t, row, found_token, usable, found, current_now, ancestry, free) =
      verify_token-Verified env' v token context action resource w' x f valid in
    (t, row, found_token, found, other t row found current_now)
  where
    other :
        (t : TokenRow) (row : GovernanceDecision)
        → (resolve_decision t.decision_id
            (get_text "tenant_id" context)
            (handoff env rt current q reason dry w).1).0
          ≡ ok (some row)
        → Current env' (rebuilt t row)
        → row.decision_id == current.decision_id ≡ false
    other t row found c = other_decision env' t row current.decision_id c (
        found_row (handoff env rt current q reason dry w).1 t row
          (success-Superseded env rt current q dry w _ r
            (handoff-Ended env rt current q reason dry w h) e s)
          found)
      where
        found_row :
            (w' : World) (t : TokenRow) (row : GovernanceDecision)
            → Superseded current.decision_id w'.db.governance_decisions
            → (resolve_decision t.decision_id (get_text "tenant_id" context) w').0 ≡ ok (some row)
            → (row.decision_id == current.decision_id ≡ false) ⊎ (is_some row.superseded_at ≡ true)
        found_row w' t row a found =
            All-find_by _ (decision_at t.decision_id (get_text "tenant_id" context)) _ row a
              (ground (arith, found))
