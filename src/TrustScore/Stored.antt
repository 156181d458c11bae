-- ===== src/TrustScore/Stored.antt =====
-- apps/runtime/citadel/agent_identity/trust_score.py: where every snapshot has a band's text, a
-- computation raises only what the tables refuse, and leaves the agents' identifiers and that property as they are.
use ledger_sdk.Prelude.{
  any, ◌⊎◌, inl, inr, ℕ, ◌≡◌, refl, sym, ap, ◌∙◌, String, Bool, true, false, Option, none, some,
  List, [], ◌∷◌, ◌==◌, map, All, All-update_where, update_where, is_some, lowered, leb,
  if◌then◌else◌, false_elim, not,
}
use mathlib.Core.Path.{subst}
use ledger_sdk.Exec.{Exn, Result, ok, pure, lift, gets, ◌>>=◌}
use ledger_sdk.Exec.Ends.{Ends, Finishes, Ends-bind, Ends-pure, Ends-gets, Ends-if}
use ledger_sdk.TrustBands.{
  TrustBand, from_score, revoked, probation, standard, trusted, highly_trusted,
}
use ledger_sdk.TrustBands.Reasons.{value}
use ledger_sdk.TrustScore.{
  newer, AgentRow, SnapshotRow, TrustEvent, TrustDb, TrustEnv, RawInputs, latest, is_agent,
  is_current, fetch_raw_inputs, compute_score,
}
use ledger_sdk.TrustScore.Bounds.{compute_score-band}
use ledger_sdk.TrustScore.Snapshots.{
  Cause, NewSnapshot, id_of, get_previous_snapshot, expired, create_snapshot, cached,
  update_agent_cache, record_event, log_band_transition, log_score_computed, band_lowered,
  snapshot_row, insert_snapshot, write_cache, write_event, audit_transition, as_band, no_trust,
  same_band,
}
use ledger_sdk.TrustScore.Store.{
  finish_store, store_over, store, store_computed, compute_and_store, new_snapshot, score_of,
}
use ledger_sdk.TrustScore.Batch.{agent_ids}

abbrev pub HasBand : SnapshotRow → Type 0
HasBand s = is_some (band_lowered s.band) ≡ true

-- The identifiers of the agents are these, and the snapshots have bands.
abbrev pub Known : List String → TrustDb → Type 0
Known ids db = (agent_ids db ≡ ids) × All HasBand db.snapshots

-- The exception is the refusal of a row or of a band by one of the tables.
abbrev pub Refusal : TrustEnv → Exn → Type 0
Refusal env x =
    ((row : SnapshotRow) × (env.snapshot_refusal row ≡ some x))
    ⊎ ((band : String) × (env.band_refusal band ≡ some x))
    ⊎ ((e : TrustEvent) × (env.event_refusal e ≡ some x))

abbrev HasBand? : Option SnapshotRow → Type 0
HasBand? none = Unit
HasBand? (some s) = HasBand s

latest-HasBand :
    (actor : String) (rows : List SnapshotRow) → All HasBand rows → HasBand? (latest actor rows)
unfolding latest
latest-HasBand actor [] all = tt
latest-HasBand actor (s ∷ rows) (here, all) =
    newest (is_current actor s) (latest actor rows) (latest-HasBand actor rows all)
  where
    newest :
        (b : Bool) (found : Option SnapshotRow)
        → HasBand? found
        → HasBand? (if b then some (newer s found) else found)
    newest false found h = h
    newest true none h = here
    newest true (some t) h =
        elim (leb t.computed_at s.computed_at) as (λ (b : Bool). HasBand (if b then s else t)) [
          | true ↦ here
          | false ↦ h
        ]

value-band : (b : TrustBand) → is_some (band_lowered (value b)) ≡ true
unfolding band_lowered lowered
value-band revoked = refl
value-band probation = refl
value-band standard = refl
value-band trusted = refl
value-band highly_trusted = refl

agent_ids-update :
    (agent band : String) (now : ℕ) (until : Option ℕ) (rows : List AgentRow)
    → map
        (λ (a : AgentRow). a.agent_id)
        (update_where (is_agent agent) (cached now band until) rows)
      ≡ map (λ (a : AgentRow). a.agent_id) rows
agent_ids-update agent band now until [] = refl
agent_ids-update agent band now until (a ∷ rows) =
    elim (is_agent agent a)
      as (λ (b : Bool).
        (if b then cached now band until a else a).agent_id
          ∷ map (λ (a : AgentRow). a.agent_id)
              (update_where (is_agent agent) (cached now band until) rows)
        ≡ a.agent_id ∷ map (λ (a : AgentRow). a.agent_id) rows) [
          | true ↦
              ap (λ (l : List String). a.agent_id ∷ l) (agent_ids-update agent band now until rows)
          | false ↦
              ap (λ (l : List String). a.agent_id ∷ l) (agent_ids-update agent band now until rows)
        ]

expired-HasBand :
    (env : TrustEnv) (cause : Cause) (o : Option SnapshotRow) (rows : List SnapshotRow)
    → All HasBand rows
    → All HasBand (expired env cause (id_of o) rows)
expired-HasBand env cause none rows all = all
expired-HasBand env cause (some s) rows all =
    All-update_where HasBand (λ (x : SnapshotRow). x.snapshot_id == s.snapshot_id) _ (λ x h e. h)
      rows all

module _ (env : TrustEnv) (ids : List String) (pool : env.db_pool ≡ true) where
  Ends-create :
      (n : NewSnapshot) (cause : Cause) (previous : Option SnapshotRow)
      → Ends (Refusal env) (Known ids) (λ _. Unit) (create_snapshot env n cause (id_of previous))
  unfolding create_snapshot
  Ends-create n cause previous = rw pool (record { ends = λ db k. inserted db k _ refl })
    where
      inserted :
          (db : TrustDb)
          → Known ids db
          → (o : Option Exn)
          → env.snapshot_refusal
              (snapshot_row env n cause (id_of previous) (env.gen_random_uuid db.drawn))
            ≡ o
          → Finishes
              (Refusal env)
              (Known ids)
              (λ _. Unit)
              (insert_snapshot env n cause (id_of previous) o db)
      inserted db k none e =
          (tt, (k.0, (value-band n.band, expired-HasBand env cause previous db.snapshots k.1)))
      inserted db k (some x) e = inl (_, e)

  Ends-cache :
      (agent band : String) (until : Option ℕ)
      → Ends (Refusal env) (Known ids) (λ _. Unit) (update_agent_cache env agent band until)
  unfolding update_agent_cache
  Ends-cache agent band until =
      rw pool (record { ends = λ db k. written db k (any (is_agent agent) db.agents) _ refl })
    where
      written :
          (db : TrustDb)
          → Known ids db
          → (b : Bool) (o : Option Exn) → env.band_refusal band ≡ o
          → Finishes
              (Refusal env)
              (Known ids)
              (λ _. Unit)
              (write_cache env agent band until (if b then o else none) db)
      written db k true (some x) e = inr (inl (band, e))
      written db k true none e =
          (tt, (agent_ids-update agent band env.now until db.agents ∙ k.0, k.1))
      written db k false o e =
          (tt, (agent_ids-update agent band env.now until db.agents ∙ k.0, k.1))

  Ends-event : (e : TrustEvent) → Ends (Refusal env) (Known ids) (λ _. Unit) (record_event env e)
  unfolding record_event
  Ends-event e = rw pool (record { ends = λ db k. written db k _ refl })
    where
      written :
          (db : TrustDb)
          → Known ids db
          → (o : Option Exn) → env.event_refusal e ≡ o
          → Finishes (Refusal env) (Known ids) (λ _. Unit) (write_event e o db)
      written db k none q = (tt, k)
      written db k (some x) q = inr (inr (e, q))

  Ends-as_band :
      (o : Option TrustBand)
      → is_some o ≡ true
      → Ends (Refusal env) (Known ids) (λ _. Unit) (lift (as_band o))
  Ends-as_band (some b) h = record { ends = λ db k. (tt, k) }
  Ends-as_band none h = false_elim h

  Ends-transition :
      (cause : Cause) (n : NewSnapshot) (id : String) (previous : Option SnapshotRow)
      → HasBand? previous
      → Ends (Refusal env) (Known ids) (λ _. Unit) (audit_transition env cause n id previous)
  unfolding audit_transition log_band_transition
  Ends-transition cause n id none h = Ends-pure tt tt
  Ends-transition cause n id (some s) h =
      Ends-bind (lift (as_band (band_lowered s.band))) _ (Ends-as_band (band_lowered s.band) h)
        (λ source _. Ends-if (same_band source n.band) _ _ (Ends-pure tt tt) (Ends-event _))

  Ends-store :
      (n : NewSnapshot) (cause : Cause)
      → Ends (Refusal env) (Known ids) (λ _. Unit) (store env n cause)
  unfolding store store_over finish_store log_score_computed get_previous_snapshot
  Ends-store n cause =
      Ends-bind (gets (get_previous_snapshot env n.agent_id)) (store_over env n cause)
        (Ends-gets _ (λ db k. rw pool (latest-HasBand n.agent_id db.snapshots k.1)))
        (λ previous h.
          Ends-bind (create_snapshot env n cause (id_of previous))
            (finish_store env n cause previous) (Ends-create n cause previous)
            (λ id _.
              Ends-bind (update_agent_cache env n.agent_id (value n.band) n.probation_until) _
                (Ends-cache n.agent_id (value n.band) n.probation_until)
                (λ _ _.
                  Ends-bind (audit_transition env cause n id previous) _
                    (Ends-transition cause n id previous h)
                    (λ _ _.
                      Ends-bind (record_event env _) _ (Ends-event _)
                        (λ _ _. Ends-pure (score_of n id) tt)))))

  Ends-lift :
      {r : Result TrustBand} (band : TrustBand)
      → r ≡ ok band
      → Ends (Refusal env) (Known ids) (λ _. Unit) (lift r)
  Ends-lift band e = rw e (record { ends = λ db k. (tt, k) })

  Ends-store_computed :
      (agent tenant : String) (cause : Cause) (raw : Option RawInputs)
      → Ends (Refusal env) (Known ids) (λ _. Unit) (store_computed env agent tenant cause raw)
  unfolding store_computed
  Ends-store_computed agent tenant cause none = Ends-pure (no_trust agent) tt
  Ends-store_computed agent tenant cause (some r) =
      Ends-bind (lift (from_score (compute_score r).0)) _
        (Ends-lift (compute_score-band r).0 (compute_score-band r).1)
        (λ band _. Ends-store (new_snapshot env agent tenant r band) cause)

  pub Ends-compute_and_store :
      (agent tenant : String) (cause : Cause)
      → Ends (Refusal env) (Known ids) (λ _. Unit) (compute_and_store env agent tenant cause)
  unfolding compute_and_store
  Ends-compute_and_store agent tenant cause =
      subst
        (λ (b : Bool).
          Ends (Refusal env) (Known ids) (λ _. Unit)
            (if not b
              then pure (no_trust agent)
              else gets (fetch_raw_inputs env agent) >>= store_computed env agent tenant cause))
        (sym pool)
        (Ends-bind (gets (fetch_raw_inputs env agent)) (store_computed env agent tenant cause)
          (Ends-gets {Q = λ _. Unit} (fetch_raw_inputs env agent) (λ db k. tt))
          (λ raw _. Ends-store_computed agent tenant cause raw))
