-- ===== src/TrustScore/Current.antt =====
-- apps/runtime/citadel/agent_identity/trust_score.py: an actor has at most one snapshot that is
-- valid now, whatever is computed or overridden.
use ledger_sdk.Prelude.{
  ℕ, zero, suc, ◌+◌, inl, inr, String, Option, none, some, List, [], ◌∷◌, Bool-cases,
}
use ledger_sdk.Exec.{Exn, Exec, Result, ok, raised, ◌>>=◌, pure, lift, gets}
use ledger_sdk.Exec.Keeps.{
  Keeps, keeps_rules, bind_kept, Keeps-read, Keeps-bind, Keeps-gets, Keeps-if, Keeps-pure,
}
use ledger_sdk.TrustBands.{TrustBand}
use ledger_sdk.TrustScore.{SnapshotRow, TrustEvent, TrustDb, TrustEnv, RawInputs}
use ledger_sdk.TrustScore.Batch.{
  Scores, with_score, batch_cause, score_rows, pages, evaluate_all, next_page, page,
}
use ledger_sdk.TrustScore.Expiry.{OneCurrent, create-OneCurrent}
use ledger_sdk.TrustScore.Snapshots.{
  Cause, NewSnapshot, id_of, get_previous_snapshot, create_snapshot, update_agent_cache,
  write_cache, write_event, record_event, log_band_transition, log_score_computed,
  log_operator_override, audit_transition,
}
use ledger_sdk.TrustScore.Store.{
  store, compute_and_store, operator_override, old_band, finish_store, store_over, store_computed,
  finish_override, override_over, override_snapshot, override_cause,
}

-- What leaves the snapshots alone.
Keeps-update_agent_cache :
    (env : TrustEnv) (agent band : String) (until : Option ℕ)
    → Keeps OneCurrent (update_agent_cache env agent band until)
unfolding update_agent_cache
Keeps-update_agent_cache env agent band until = elim (Bool-cases env.db_pool) [
  | inl e ↦ rw e (record { kept = λ db one. written _ db one })
  | inr e ↦ rw e (record { kept = λ db one. one })
]
  where
    written :
        (o : Option Exn) (db : TrustDb)
        → OneCurrent db
        → OneCurrent (write_cache env agent band until o db).1
    written none db one = one
    written (some x) db one = one

Keeps-record_event : (env : TrustEnv) (e : TrustEvent) → Keeps OneCurrent (record_event env e)
unfolding record_event
Keeps-record_event env event = elim (Bool-cases env.db_pool) [
  | inl e ↦ rw e (record { kept = λ db one. written _ db one })
  | inr e ↦ rw e (record { kept = λ db one. one })
]
  where
    written :
        (o : Option Exn) (db : TrustDb) → OneCurrent db → OneCurrent (write_event event o db).1
    written none db one = one
    written (some x) db one = one

Keeps-audit_transition :
    (env : TrustEnv) (cause : Cause) (n : NewSnapshot) (id : String) (previous : Option SnapshotRow)
    → Keeps OneCurrent (audit_transition env cause n id previous)
unfolding audit_transition log_band_transition
Keeps-audit_transition env cause n id none = search (keeps_rules)
Keeps-audit_transition env cause n id (some s) = search (keeps_rules, Keeps-record_event)

Keeps-finish_store :
    (env : TrustEnv) (n : NewSnapshot) (cause : Cause) (previous : Option SnapshotRow) (id : String)
    → Keeps OneCurrent (finish_store env n cause previous id)
unfolding finish_store log_score_computed
Keeps-finish_store env n cause previous id =
    search (keeps_rules, Keeps-update_agent_cache, Keeps-audit_transition, Keeps-record_event)

Keeps-store :
    (env : TrustEnv) (n : NewSnapshot) (cause : Cause) → Keeps OneCurrent (store env n cause)
unfolding store store_over
Keeps-store env n cause =
    Keeps-read (get_previous_snapshot env n.agent_id) (store_over env n cause) (λ db one.
      let previous = get_previous_snapshot env n.agent_id db in
      bind_kept (create_snapshot env n cause (id_of previous)) (finish_store env n cause previous)
        db (create-OneCurrent env n cause db one) (Keeps-finish_store env n cause previous))

Keeps-store_computed :
    (env : TrustEnv) (agent tenant : String) (cause : Cause) (raw : Option RawInputs)
    → Keeps OneCurrent (store_computed env agent tenant cause raw)
unfolding store_computed
Keeps-store_computed env agent tenant cause none = search (keeps_rules)
Keeps-store_computed env agent tenant cause (some r) = search (keeps_rules, Keeps-store)

pub Keeps-compute_and_store :
    (env : TrustEnv) (agent tenant : String) (cause : Cause)
    → Keeps OneCurrent (compute_and_store env agent tenant cause)
unfolding compute_and_store
Keeps-compute_and_store env agent tenant cause = search (keeps_rules, Keeps-store_computed)

Keeps-finish_override :
    (env : TrustEnv) (n : NewSnapshot) (operator_id reason : String) (source : TrustBand)
    (id : String)
    → Keeps OneCurrent (finish_override env n operator_id reason source id)
unfolding finish_override log_operator_override
Keeps-finish_override env n operator_id reason source id =
    search (keeps_rules, Keeps-update_agent_cache, Keeps-record_event)

override_over-OneCurrent :
    (env : TrustEnv) (n : NewSnapshot) (operator_id reason : String) (db : TrustDb)
    (source : Result TrustBand)
    → OneCurrent db
    → OneCurrent
        ((lift source >>= λ source.
            create_snapshot env n
              (override_cause operator_id reason)
              (id_of (get_previous_snapshot env n.agent_id db))
            >>= finish_override env n operator_id reason source)
          db).1
unfolding ◌>>=◌
override_over-OneCurrent env n operator_id reason db (raised e) one = one
override_over-OneCurrent env n operator_id reason db (ok source) one =
    bind_kept
      (create_snapshot env n (override_cause operator_id reason)
        (id_of (get_previous_snapshot env n.agent_id db)))
      (finish_override env n operator_id reason source) db
      (create-OneCurrent env n (override_cause operator_id reason) db one)
      (Keeps-finish_override env n operator_id reason source)

pub Keeps-operator_override :
    (env : TrustEnv) (agent tenant operator_id : String) (target : TrustBand) (reason : String)
    → Keeps OneCurrent (operator_override env agent tenant operator_id target reason)
unfolding operator_override override_over
Keeps-operator_override env agent tenant operator_id target reason =
    let n = override_snapshot agent tenant operator_id target reason in
    Keeps-read (get_previous_snapshot env agent) (override_over env n operator_id reason) (λ db one.
      override_over-OneCurrent env n operator_id reason db
        (old_band (get_previous_snapshot env agent db)) one)

-- What writes the snapshots: a computation, an override or a batch, each at its own instant.
pub data TrustCall : Type 0 where
  compute : TrustEnv → String → String → Cause → TrustCall
  override : TrustEnv → String → String → String → TrustBand → String → TrustCall
  batch : ℕ → TrustEnv → String → ℕ → TrustCall

pub after_call : TrustCall → TrustDb → TrustDb
after_call (compute env agent tenant cause) db = (compute_and_store env agent tenant cause db).1
after_call (override env agent tenant operator_id target reason) db =
    (operator_override env agent tenant operator_id target reason db).1
after_call (batch fuel env tenant size) db = (evaluate_all fuel env tenant size db).1

pub after_calls : List TrustCall → TrustDb → TrustDb
after_calls [] db = db
after_calls (c ∷ cs) db = after_calls cs (after_call c db)

Keeps-score_rows :
    (env : TrustEnv) (tenant : String) (rows : List String) (scores : Scores)
    → Keeps OneCurrent (score_rows env tenant rows scores)
unfolding score_rows
Keeps-score_rows env tenant [] scores = search (keeps_rules)
Keeps-score_rows env tenant (agent ∷ rows) scores =
    Keeps-bind (compute_and_store env agent tenant batch_cause) _
      (Keeps-compute_and_store env agent tenant batch_cause)
      (λ score. Keeps-score_rows env tenant rows (with_score agent score scores))

Keeps-next_page :
    (more : Scores → Exec TrustDb (Option Scores)) (env : TrustEnv) (tenant : String)
    (scores : Scores) (rows : List String)
    → ((s : Scores) → Keeps OneCurrent (more s))
    → Keeps OneCurrent (next_page more env tenant scores rows)
unfolding next_page
Keeps-next_page more env tenant scores [] keeps = search (keeps_rules)
Keeps-next_page more env tenant scores (agent ∷ rows) keeps =
    Keeps-bind (score_rows env tenant (agent ∷ rows) scores) more
      (Keeps-score_rows env tenant (agent ∷ rows) scores) keeps

Keeps-pages :
    (fuel : ℕ) (env : TrustEnv) (tenant : String) (size offset : ℕ) (scores : Scores)
    → Keeps OneCurrent (pages fuel env tenant size offset scores)
unfolding pages
Keeps-pages zero env tenant size offset scores = search (keeps_rules)
Keeps-pages (suc fuel) env tenant size offset scores =
    Keeps-bind (gets (page size offset)) _ (Keeps-gets (page size offset)) (λ rows.
      Keeps-next_page (pages fuel env tenant size (offset + size)) env tenant scores rows
        (Keeps-pages fuel env tenant size (offset + size)))

after_call-OneCurrent :
    (c : TrustCall) (db : TrustDb) → OneCurrent db → OneCurrent (after_call c db)
unfolding after_call evaluate_all
after_call-OneCurrent (compute env agent tenant cause) db one =
    (Keeps-compute_and_store env agent tenant cause).kept db one
after_call-OneCurrent (override env agent tenant operator_id target reason) db one =
    (Keeps-operator_override env agent tenant operator_id target reason).kept db one
after_call-OneCurrent (batch fuel env tenant size) db one =
    (Keeps-if env.db_pool (pages fuel env tenant size 0 []) (pure (some []))
        (Keeps-pages fuel env tenant size 0 []) (Keeps-pure (some []))).kept
      db one

-- Where every actor has at most one snapshot without an end of validity, that is still so after
-- any sequence of computations, operator overrides and batches, whether they return or raise.
pub after_calls-OneCurrent :
    (cs : List TrustCall) (db : TrustDb) → OneCurrent db → OneCurrent (after_calls cs db)
unfolding after_calls
after_calls-OneCurrent [] db one = one
after_calls-OneCurrent (c ∷ cs) db one =
    after_calls-OneCurrent cs (after_call c db) (after_call-OneCurrent c db one)
