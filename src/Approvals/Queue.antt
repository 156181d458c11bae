-- ===== src/Approvals/Queue.antt =====
-- apps/runtime/citadel/services/approval_service.py: the life of an approval in the queue.
use ledger_sdk.Prelude.{
  String, Bool, true, false, ◌&&◌, ◌==◌, Option, none, some, List, [], ◌∷◌, All, find_by,
  update_where, count_where, str_or, if◌then◌else◌, ◌<>◌, ◌≡◌, refl, sym, ◌∙◌, ap, inl, inr,
  Option-cases, arith, Each, Each-update_where, ◌<◌, ◌≤◌, eq_iff, Bool-cases, and_left, ◌⊎◌,
}
use mathlib.Core.Path.{subst}
use ledger_sdk.Exec.{Result, ok, raised, ◌>>=◌}
use ledger_sdk.Db.{Env, World, ApprovalRow}
use ledger_sdk.Repository.{get_approval, joined_approval}
use ledger_sdk.Approvals.{
  resolve_approval, pending_row, decided, process_expirations, past_expiry, expire, refused,
  ApprovalResult,
}

-- Whether a call raised.
abbrev pub is_raised {ℓ} : {A : Type ℓ} → Result A → Bool
is_raised (ok a) = false
is_raised (raised e) = true

none_pending :
    (env : Env) (id reviewer decision why : String) (rows : List ApprovalRow)
    → decision == "pending" ≡ false
    → find_by
        (pending_row id)
        (update_where (pending_row id) (decided env reviewer decision why) rows)
      ≡ none
none_pending env id reviewer decision why [] h = refl
none_pending env id reviewer decision why (x ∷ xs) h =
    ground (arith, h, none_pending env id reviewer decision why xs h)

-- Without a pending row, a decision raises and changes nothing.
resolve-none :
    (env : Env) (id reviewer decision : String) (reason : Option String) (w : World)
    → find_by (pending_row id) w.db.approvals ≡ none
    → (is_raised (resolve_approval env id reviewer decision reason w).0 ≡ true)
      × ((resolve_approval env id reviewer decision reason w).1 ≡ w)
unfolding resolve_approval refused get_approval ◌>>=◌
resolve-none env id reviewer decision reason w h = subst Settled (sym (ap outcome h)) (
    raises
      (find_by (λ ap. ap.approval_id == id && joined_approval none w.db.actions ap) w.db.approvals))
  where
    Settled : Result ApprovalResult × World → Type 0
    Settled (r, w') = (is_raised r ≡ true) × (w' ≡ w)

    why : String
    why = str_or reason ("Decision: " <> decision)

    outcome : Option ApprovalRow → Result ApprovalResult × World
    outcome none = (get_approval id none >>= refused id) w
    outcome (some ap) = (
      ok (record {
        approval_id = id;
        status = decision;
        reviewed_by = some reviewer;
        reason = some why;
      }),
      record w {
        db = record w.db {
          approvals =
              update_where (pending_row id) (decided env reviewer decision why) w.db.approvals;
        };
      },
    )

    raises : (o : Option ApprovalRow) → Settled (refused id o w)
    raises none = (refl, refl)
    raises (some ap) = (refl, refl)

resolve-some :
    (env : Env) (id reviewer decision : String) (reason : Option String) (w : World)
    (row : ApprovalRow)
    → find_by (pending_row id) w.db.approvals ≡ some row
    → (resolve_approval env id reviewer decision reason w).1.db.approvals
      ≡ update_where
          (pending_row id)
          (decided env reviewer decision (str_or reason ("Decision: " <> decision)))
          w.db.approvals
unfolding resolve_approval
resolve-some env id reviewer decision reason w row f = ground (arith, f)

-- A decision other than the text "pending" that succeeds settles the approval: whatever decision
-- is tried next, by whomever and whenever, it raises and changes nothing.
pub resolve_approval-once :
    (env env' : Env) (id reviewer decision : String) (reason : Option String) (w : World)
    (result : ApprovalResult)
    → decision == "pending" ≡ false
    → (resolve_approval env id reviewer decision reason w).0 ≡ ok result
    → (reviewer' decision' : String) (reason' : Option String)
    → let w' = (resolve_approval env id reviewer decision reason w).1 in
      (is_raised (resolve_approval env' id reviewer' decision' reason' w').0 ≡ true)
      × ((resolve_approval env' id reviewer' decision' reason' w').1 ≡ w')
resolve_approval-once env env' id reviewer decision reason w result h e reviewer' decision'
      reason' =
    elim (Option-cases (find_by (pending_row id) w.db.approvals)) [
      | inl n ↦
          absurd
            (ground (arith, ap is_raised e, (resolve-none env id reviewer decision reason w n).0))
      | inr (row, f) ↦ resolve-none env' id reviewer' decision' reason' _ (
          ap (λ rows. find_by (pending_row id) rows)
            (resolve-some env id reviewer decision reason w row f)
          ∙ none_pending env id reviewer decision (str_or reason ("Decision: " <> decision))
              w.db.approvals h)
    ]

abbrev pub Unexpired : Env → ApprovalRow → Type 0
Unexpired env ap = past_expiry env ap ≡ false

unexpired :
    (env : Env) (rows : List ApprovalRow)
    → All (Unexpired env) (update_where (past_expiry env) expire rows)
unexpired env [] = tt
unexpired env (x ∷ xs) = (after (past_expiry env x) refl, unexpired env xs)
  where
    after : (b : Bool) → past_expiry env x ≡ b → Unexpired env (if b then expire x else x)
    after true e = refl
    after false e = e

idle_count :
    (env : Env) (rows : List ApprovalRow)
    → All (Unexpired env) rows
    → (count_where (past_expiry env) rows ≡ 0) × (update_where (past_expiry env) expire rows ≡ rows)
idle_count env [] a = (refl, refl)
idle_count env (x ∷ xs) (e, a) =
    let (c, u) = idle_count env xs a in (ground (arith, e, c), ground (arith, e, u))

-- An approval that is pending past its expiry expires, and nothing else of it changes; any other is
-- as it was.
abbrev pub Expired : Env → ApprovalRow → ApprovalRow → Type 0
Expired env before after =
    ((before.status ≡ "pending")
      × (before.expires_at < env.now)
      × (after ≡ record before { status = "expired" }))
    ⊎ ((¬ (before.status ≡ "pending")) × (after ≡ before))
    ⊎ ((env.now ≤ before.expires_at) × (after ≡ before))

Expired-update_where :
    (env : Env) (rows : List ApprovalRow)
    → Each (Expired env) rows (update_where (past_expiry env) expire rows)
Expired-update_where env =
    Each-update_where (Expired env) (past_expiry env) expire
      (λ ap h. inl ((eq_iff ap.status "pending").0 (and_left _ _ h), ground (arith, h), refl))
      λ ap h. elim (Bool-cases (ap.status == "pending")) [
        | inl e ↦ inr (inr (ground (arith, e, h), refl))
        | inr e ↦
            inr (inl (λ q. absurd (ground (arith, (eq_iff ap.status "pending").1 q, e)), refl))
      ]

-- After the expirations are processed, every approval that was pending past its expiry is expired
-- and otherwise as it was, every other row is as it was, at its place, no approval is pending past
-- its expiry, and a second run finds nothing to do.
pub process_expirations-Unexpired :
    (env : Env) (w : World)
    → let w' = (process_expirations env w).1 in
      All (Unexpired env) w'.db.approvals
      × Each (Expired env) w.db.approvals w'.db.approvals
      × (process_expirations env w' ≡ (ok 0, w'))
unfolding process_expirations
process_expirations-Unexpired env w = (
  unexpired env w.db.approvals,
  Expired-update_where env w.db.approvals,
  (let (c, u) = idle_count env _ (unexpired env w.db.approvals) in cc (c, u)),
)
