-- ===== src/TrustScore/Store.antt =====
-- apps/runtime/citadel/agent_identity/trust_score.py and trust_audit.py: `compute_and_store` and
-- `operator_override`. `str(snapshot_id)` is the identifier itself.
use ledger_sdk.Prelude.{
  String, Bool, false, not, Option, none, some, [], ◌∷◌, ◌<>◌, pos, ◌+ℤ◌, ltb, if◌then◌else◌,
}
use ledger_sdk.Exec.{Exec, Result, ok, ◌>>=◌, ◌>>◌, pure, lift, gets}
use ledger_sdk.TrustBands.{TrustBand, probation, standard, from_score, min_score}
use ledger_sdk.TrustBands.Reasons.{value, band_of}
use ledger_sdk.TrustScore.{
  SnapshotRow, TrustDb, TrustEnv, RawInputs, computed, operator, fetch_raw_inputs, compute_score,
}
use ledger_sdk.TrustScore.Snapshots.{
  TrustScore, no_trust, Cause, id_of, get_previous_snapshot, NewSnapshot, create_snapshot,
  update_agent_cache, log_score_computed, log_operator_override, as_band, audit_transition,
}

-- The snapshot for computed inputs; a probation that still runs decides the band.
abbrev on_probation : TrustEnv → RawInputs → Bool
on_probation env r = elim r.probation_until [ none ↦ false | some until ↦ ltb env.now until ]

abbrev pub new_snapshot : TrustEnv → String → String → RawInputs → TrustBand → NewSnapshot
new_snapshot env agent tenant r band = record {
  agent_id = agent;
  tenant_id = tenant;
  score = (compute_score r).0;
  band = if on_probation env r then probation else band;
  probation_until = r.probation_until;
  probation_reason = r.probation_reason;
  factors = (compute_score r).1;
  raw_inputs = computed r;
}

abbrev pub score_of : NewSnapshot → String → TrustScore
score_of n id = record {
  agent_id = n.agent_id;
  score = n.score;
  level = n.band;
  factors = n.factors;
  snapshot_id = some id;
}

-- The steps after the new snapshot.
unfoldable pub finish_store :
    TrustEnv → NewSnapshot → Cause → Option SnapshotRow → String → Exec TrustDb TrustScore
unfolding update_agent_cache audit_transition log_score_computed ◌>>=◌
finish_store env n cause previous id = do
  update_agent_cache env n.agent_id (value n.band) n.probation_until
  audit_transition env cause n id previous
  log_score_computed env n id
  pure (score_of n id)

unfoldable pub store_over :
    TrustEnv → NewSnapshot → Cause → Option SnapshotRow → Exec TrustDb TrustScore
unfolding create_snapshot finish_store ◌>>=◌
store_over env n cause previous = do
  id ← create_snapshot env n cause (id_of previous)
  finish_store env n cause previous id

-- From the previous snapshot on.
unfoldable pub store : TrustEnv → NewSnapshot → Cause → Exec TrustDb TrustScore
unfolding get_previous_snapshot store_over ◌>>=◌
store env n cause = do
  previous ← gets (get_previous_snapshot env n.agent_id)
  store_over env n cause previous

unfoldable pub store_computed :
    TrustEnv → String → String → Cause → Option RawInputs → Exec TrustDb TrustScore
unfolding store compute_score from_score ◌>>=◌
store_computed env agent tenant cause none = pure (no_trust agent)
store_computed env agent tenant cause (some r) = do
  band ← lift (from_score (compute_score r).0)
  store env (new_snapshot env agent tenant r band) cause

unfoldable pub compute_and_store : TrustEnv → String → String → Cause → Exec TrustDb TrustScore
unfolding fetch_raw_inputs store_computed ◌>>=◌
compute_and_store env agent tenant cause =
    if not env.db_pool
    then pure (no_trust agent)
    else do raw ← gets (fetch_raw_inputs env agent); store_computed env agent tenant cause raw

abbrev pub override_snapshot : String → String → String → TrustBand → String → NewSnapshot
override_snapshot agent tenant operator_id target reason = record {
  agent_id = agent;
  tenant_id = tenant;
  score = min_score target +ℤ pos 10_000;
  band = target;
  probation_until = none;
  probation_reason = some ("Operator override: " <> reason);
  factors = ("operator_override", pos 1_000_000) ∷ [];
  raw_inputs = operator operator_id reason;
}

abbrev pub override_cause : String → String → Cause
override_cause operator_id reason = record {
  computation_method = "override";
  triggering_event = none;
  triggering_event_id = none;
  operator_id = some operator_id;
  operator_reason = some reason;
}

abbrev pub old_band : Option SnapshotRow → Result TrustBand
old_band none = ok standard
old_band (some s) = as_band (band_of s.band)

unfoldable pub finish_override :
    TrustEnv → NewSnapshot → String → String → TrustBand → String → Exec TrustDb TrustScore
unfolding update_agent_cache log_operator_override ◌>>=◌
finish_override env n operator_id reason source id = do
  update_agent_cache env n.agent_id (value n.band) none
  log_operator_override env n.agent_id n.tenant_id operator_id source n.band reason
  pure (record (score_of n id) { factors = [] })

unfoldable pub override_over :
    TrustEnv → NewSnapshot → String → String → Option SnapshotRow → Exec TrustDb TrustScore
unfolding create_snapshot finish_override band_of ◌>>=◌
override_over env n operator_id reason previous = do
  source ← lift (old_band previous)
  id ← create_snapshot env n (override_cause operator_id reason) (id_of previous)
  finish_override env n operator_id reason source id

unfoldable pub operator_override :
    TrustEnv → String → String → String → TrustBand → String → Exec TrustDb TrustScore
unfolding get_previous_snapshot override_over ◌>>=◌
operator_override env agent tenant operator_id target reason = do
  previous ← gets (get_previous_snapshot env agent)
  override_over env (override_snapshot agent tenant operator_id target reason) operator_id reason
      previous
