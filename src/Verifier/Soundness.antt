-- ===== src/Verifier/Soundness.antt =====
-- apps/runtime/citadel/tokens/token_verifier.py: what holds when a token is found valid.
use ledger_sdk.Prelude.{
  ℕ, String, Bool, true, false, not, ◌==◌, Option, none, some, is_some, ◌≡◌, refl, sym, ◌∙◌, ap,
  false_elim, true_by_not, arith, opt_or, if◌then◌else◌, ◌≤◌,
}
use mathlib.Core.Path.{subst}
use ledger_sdk.Values.{Fields, get_text}
use ledger_sdk.Exec.{Result, ok, raised, ◌>>=◌, continue}
use ledger_sdk.Exec.Returns.{Returns, Holds, Returns-bind, Returns-pure}
use ledger_sdk.GovernanceDecision.{GovernanceDecision, covers, is_allow, is_expired}
use ledger_sdk.Db.{Env, App, World, TokenRow}
use ledger_sdk.Vault.{resolve_token, resolve_decision, check_ancestry, check_kill_switch}
use ledger_sdk.Vault.LogKept.{ReadOnly-check_ancestry}
use ledger_sdk.Verifier.{
  VerificationResult, TokenVerifier, Fault, deny, accept, verify_use, verify_decision_row,
  verify_linked, verify_row, verify_token, token_fault, decision_fault, in_memory_active, rebuilt,
  plain,
}

-- A run in the state that returns a valid answer has the property.
abbrev Then : Type 0 → App VerificationResult → World → Type 0
Then P m w = Holds (λ r. r.valid ≡ true → P) (m w).0

module _ (P : Type 0) (w : World) where
  Then-if :
      (b : Bool) (m n : App VerificationResult)
      → (b ≡ true → Then P m w)
      → (b ≡ false → Then P n w)
      → Then P (if b then m else n) w
  Then-if true m n f g = f refl
  Then-if false m n f g = g refl

  Then-option :
      {A : Type 0} (o : Option A) (m : App VerificationResult) (f : A → App VerificationResult)
      → (o ≡ none → Then P m w)
      → ((a : A) → o ≡ some a → Then P (f a) w)
      → Then P (elim o [ none ↦ m | some a ↦ f a ]) w
  Then-option none m f g h = g refl
  Then-option (some a) m f g h = h a refl

  bound :
      {A : Type 0} (f : A → App VerificationResult) (r : Result A) (w' : World)
      → w' ≡ w
      → ((a : A) → r ≡ ok a → Then P (f a) w)
      → Holds (λ r. r.valid ≡ true → P) (continue f (r, w')).0
  bound f (ok a) w' e h = subst (Then P (f a)) (sym e) (h a refl)
  bound f (raised x) w' e h = tt

  -- The first part only reads.
  Then-bind :
      {A : Type 0} (m : App A) (f : A → App VerificationResult)
      → (m w).1 ≡ w
      → ((a : A) → (m w).0 ≡ ok a → Then P (f a) w)
      → Then P (m >>= f) w
  unfolding ◌>>=◌
  Then-bind m f e h = bound f (m w).0 (m w).1 e h

  refused :
      (r : Result VerificationResult)
      → Holds (λ r. r.valid ≡ false) r
      → Holds (λ r. r.valid ≡ true → P) r
  refused (ok r) e = λ h. false_elim (sym e ∙ h)
  refused (raised x) e = tt

-- The decision may be used now: it allows, and is neither expired, revoked nor superseded.
unfoldable pub Current : Env → GovernanceDecision → Type 0
Current env d =
    (is_allow d.decision_type ≡ true)
    × (is_expired env.now d ≡ false)
    × (is_some d.revoked_at ≡ false)
    × (is_some d.superseded_at ≡ false)

decision_fault-none :
    (env : Env) (workspace : Option String) (t : TokenRow) (d : GovernanceDecision)
    → decision_fault env workspace t d ≡ none
    → Current env d
unfolding decision_fault Current
decision_fault-none env workspace t d h = ground (arith, h)

-- A bound of a window, where there is one, is kept.
abbrev pub Started : Option ℕ → ℕ → Type 0
Started none now = Unit
Started (some n) now = n ≤ now

abbrev pub Unended : Option ℕ → ℕ → Type 0
Unended none now = Unit
Unended (some n) now = now ≤ n

-- The token may be used now: it is revoked by nobody, and its window holds the instant.
unfoldable pub Usable : Env → TokenRow → Type 0
Usable env t =
    (is_some t.revoked_at ≡ false) × Started t.not_before env.now × Unended t.expiry env.now

token_fault-none : (env : Env) (t : TokenRow) → token_fault env t ≡ none → Usable env t
unfolding token_fault Usable
token_fault-none env t h = (ground (arith, h), started t.not_before refl, unended t.expiry refl)
  where
    started : (o : Option ℕ) → t.not_before ≡ o → Started o env.now
    started none e = tt
    started (some n) e = ground (arith, h, e)

    unended : (o : Option ℕ) → t.expiry ≡ o → Unended o env.now
    unended none e = tt
    unended (some n) e = ground (arith, h, e)

module _ (env : Env) (v : TokenVerifier) (id : String) (context : Fields) where
  Returns-deny :
      (f : Fault) (d : Option GovernanceDecision) (decision_id : Option String)
      → Returns (λ r. r.valid ≡ false) (deny env v id context f d decision_id)
  unfolding deny
  Returns-deny f d decision_id = Returns-bind _ _ λ s u e. Returns-pure _ refl

  Then-deny :
      (P : Type 0) (w : World) (f : Fault) (d : Option GovernanceDecision)
      (decision_id : Option String)
      → Then P (deny env v id context f d decision_id) w
  Then-deny P w f d decision_id = refused P w _ ((Returns-deny f d decision_id).from w)

  -- A property that holds whatever is answered.
  Then-any : (P : Type 0) (m : App VerificationResult) (w : World) → P → Then P m w
  Then-any P m w p = any_answer (m w).0
    where
      any_answer : (r : Result VerificationResult) → Holds (λ r. r.valid ≡ true → P) r
      any_answer (ok r) = λ _. p
      any_answer (raised e) = tt

  module _ (action : String) (resource : Option String) (w : World) where
    -- The use that was asked for is within the scope, and no switch stops it.
    unfoldable pub Unstopped : TokenRow → GovernanceDecision → Type 0
    Unstopped t d =
        (covers d.scope action resource ≡ true)
        × (in_memory_active v d ≡ false)
        × ((check_kill_switch d.tenant_id d.actor_id action resource
              (opt_or (get_text "tool" context) t.tool) d.decision_id w).0
            ≡ ok none)

    -- The whole of what a valid answer means, in the state of the call.
    unfoldable pub Verified : Type 0
    unfolding Unstopped Current Usable
    Verified =
        (t : TokenRow) × (row : GovernanceDecision) × ((resolve_token id
            (get_text "tenant_id" context) w).0
          ≡ ok (some t))
        × Usable env t
        × ((resolve_decision t.decision_id (get_text "tenant_id" context) w).0 ≡ ok (some row))
        × Current env (rebuilt t row)
        × ((check_ancestry env (rebuilt t row) w).0 ≡ ok none)
        × Unstopped t (rebuilt t row)

    Then-verify_use :
        (t : TokenRow) (d : GovernanceDecision)
        → Then (Unstopped t d) (verify_use env v id context action resource t d) w
    unfolding verify_use Unstopped check_kill_switch
    Then-verify_use t d =
        Then-if (Unstopped t d) w (not (covers d.scope action resource)) _ _
          (λ _. Then-deny (Unstopped t d) w (plain "scope_mismatch") (some d) none)
          λ c.
            Then-if (Unstopped t d) w (in_memory_active v d) _ _
              (λ _. Then-deny (Unstopped t d) w (plain "kill_switch_active") (some d) none)
              λ m. Then-bind (Unstopped t d) w _ _ refl λ k e.
                Then-if (Unstopped t d) w (is_some k) _ _
                  (λ _. Then-deny (Unstopped t d) w (plain "kill_switch_active") (some d) none)
                  λ n.
                    Then-any (Unstopped t d) (accept env v id context d) w
                      (false_by_not' c, m, e ∙ ap ok (nothing k n))
      where
        false_by_not' :
            not (covers d.scope action resource) ≡ false → covers d.scope action resource ≡ true
        false_by_not' h = true_by_not _ h

        nothing : {A : Type 0} (o : Option A) → is_some o ≡ false → o ≡ none
        nothing none h = refl
        nothing (some a) h = false_elim (sym h)

    -- From the facts of one stage to those of the whole.
    Then-map : (P Q : Type 0) → (P → Q) → (m : App VerificationResult) → Then P m w → Then Q m w
    Then-map P Q f m h = mapped (m w).0 h
      where
        mapped :
            (r : Result VerificationResult)
            → Holds (λ r. r.valid ≡ true → P) r
            → Holds (λ r. r.valid ≡ true → Q) r
        mapped (ok r) h = λ e. f (h e)
        mapped (raised e) h = tt

    Admitted : TokenRow → GovernanceDecision → Type 0
    unfolding Unstopped Current
    Admitted t d = Current env d × ((check_ancestry env d w).0 ≡ ok none) × Unstopped t d

    Then-verify_decision_row :
        (t : TokenRow) (d : GovernanceDecision)
        → Then (Admitted t d) (verify_decision_row env v id context action resource t d) w
    unfolding verify_decision_row Admitted
    Then-verify_decision_row t d =
        Then-option (Admitted t d) w (decision_fault env (get_text "workspace_id" context) t d) _ _
          (λ n.
            Then-bind (Admitted t d) w (check_ancestry env d) _
              ((ReadOnly-check_ancestry w env d).kept w refl)
              λ fault e.
                Then-option (Admitted t d) w fault _ _
                  (λ q.
                    Then-map (Unstopped t d) (Admitted t d)
                      (λ u. (
                        decision_fault-none env (get_text "workspace_id" context) t d n,
                        e ∙ ap ok q,
                        u,
                      ))
                      (verify_use env v id context action resource t d) (Then-verify_use t d))
                  λ r q. Then-deny (Admitted t d) w (plain r) (some d) none)
          λ f q. Then-deny (Admitted t d) w f (some d) none

    Then-verify_row :
        (t : Option TokenRow)
        → (resolve_token id (get_text "tenant_id" context) w).0 ≡ ok t
        → Then Verified (verify_row env v id context action resource t) w
    unfolding verify_row verify_linked resolve_decision Verified Admitted
    Then-verify_row none e = Then-deny Verified w (plain "token_not_found") none none
    Then-verify_row (some t) e =
        Then-option Verified w (token_fault env t) _ _
          (λ n. Then-bind Verified w _ _ refl λ d q. linked d q n)
          λ r q. Then-deny Verified w (plain r) none none
      where
        admitted :
            (row : GovernanceDecision)
            → (resolve_decision t.decision_id (get_text "tenant_id" context) w).0 ≡ ok (some row)
            → token_fault env t ≡ none
            → Admitted t (rebuilt t row)
            → Verified
        admitted row q n (current, ancestry, unstopped) =
            (t, row, e, token_fault-none env t n, q, current, ancestry, unstopped)

        linked :
            (d : Option GovernanceDecision)
            → (resolve_decision t.decision_id (get_text "tenant_id" context) w).0 ≡ ok d
            → token_fault env t ≡ none
            → Then Verified (verify_linked env v id context action resource t d) w
        linked none q n =
            Then-deny Verified w (plain "decision_not_found") none (some t.decision_id)
        linked (some row) q n =
            Then-map (Admitted t (rebuilt t row)) Verified (admitted row q n)
              (verify_decision_row env v id context action resource t (rebuilt t row))
              (Then-verify_decision_row t (rebuilt t row))

    -- A valid answer means that the token exists, is not revoked and is in its window; that its
    -- decision exists, allows, and is neither expired, revoked nor superseded; that its ancestry
    -- is active; that the scope covers the action on the resource; and that no kill switch stops
    -- it, in memory or in the database.
    pub verify_token-Verified :
        (r : VerificationResult)
        → (verify_token env v id context action resource w).0 ≡ ok r
        → r.valid ≡ true
        → Verified
    unfolding verify_token resolve_token
    verify_token-Verified r e valid = subst (Holds (λ r. r.valid ≡ true → Verified)) e whole valid
      where
        whole : Then Verified (verify_token env v id context action resource) w
        whole =
            Then-if Verified w (id == "") _ _ (λ _. λ h. false_elim h)
              λ _. Then-bind Verified w _ _ refl λ t q. Then-verify_row t q
