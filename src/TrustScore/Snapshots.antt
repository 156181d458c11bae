-- ===== src/TrustScore/Snapshots.antt =====
-- apps/runtime/citadel/agent_identity/trust_score.py and trust_audit.py: the snapshots of a score,
-- the cache on the agent's row and the audit of transitions. `str(snapshot_id)` is the identifier itself.
use ledger_sdk.Prelude.{
  ℕ, suc, String, Bool, Option, none, some, List, [], ◌∷◌, ◌==◌, ◌<>◌, any, ℤ, pos, update_where,
  lowered, if◌then◌else◌,
}
use ledger_sdk.Exec.{
  Exn, Exec, Result, ok, raised, exn, value_error, runtime_error, ◌>>=◌, pure, lift,
}
use ledger_sdk.TrustBands.{TrustBand, revoked, probation, standard}
use ledger_sdk.TrustBands.Reasons.{Factors, value, get_transition_reason_code}
use ledger_sdk.TrustScore.{
  AgentRow, SnapshotRow, TrustEvent, TrustDb, TrustEnv, Inputs, is_agent, latest,
}

pub record TrustScore : Type 0 where
  pub agent_id : String
  pub score : ℤ
  pub level : TrustBand
  pub factors : Factors
  pub snapshot_id : Option String

abbrev pub no_trust : String → TrustScore
no_trust agent = record {
  agent_id = agent;
  score = pos 0;
  level = revoked;
  factors = [];
  snapshot_id = none;
}

-- What caused a computation: its method, the triggering event and the operator.
pub record Cause : Type 0 where
  pub computation_method : String
  pub triggering_event : Option String
  pub triggering_event_id : Option String
  pub operator_id : Option String
  pub operator_reason : Option String

abbrev pub id_of : Option SnapshotRow → Option String
id_of none = none
id_of (some s) = some s.snapshot_id

unfoldable pub get_previous_snapshot : TrustEnv → String → TrustDb → Option SnapshotRow
unfolding latest
get_previous_snapshot env agent db = if env.db_pool then latest agent db.snapshots else none

-- `UPDATE actor_trust_snapshots SET valid_until = NOW() ... WHERE snapshot_id = $1`
abbrev pub expire : ℕ → String → String → List SnapshotRow → List SnapshotRow
expire now reason id =
    update_where (λ (s : SnapshotRow). s.snapshot_id == id)
      (λ (s : SnapshotRow). record s { valid_until = some now; superseded_reason = some reason })

abbrev pub expired : TrustEnv → Cause → Option String → List SnapshotRow → List SnapshotRow
expired env cause none rows = rows
expired env cause (some id) rows =
    expire env.now ("Superseded by new computation (" <> cause.computation_method <> ")") id rows

-- What a new snapshot holds beside its identifier, its instants and its cause.
pub record NewSnapshot : Type 0 where
  pub agent_id : String
  pub tenant_id : String
  pub score : ℤ
  pub band : TrustBand
  pub probation_until : Option ℕ
  pub probation_reason : Option String
  pub factors : Factors
  pub raw_inputs : Inputs

abbrev pub snapshot_row : TrustEnv → NewSnapshot → Cause → Option String → String → SnapshotRow
snapshot_row env n cause supersedes id = record {
  snapshot_id = id;
  actor_id = n.agent_id;
  tenant_id = n.tenant_id;
  score = n.score;
  band = value n.band;
  probation_until = n.probation_until;
  probation_reason = n.probation_reason;
  factors = n.factors;
  raw_inputs = n.raw_inputs;
  computation_method = cause.computation_method;
  triggering_event = cause.triggering_event;
  triggering_event_id = cause.triggering_event_id;
  operator_id = cause.operator_id;
  operator_reason = cause.operator_reason;
  supersedes_snapshot_id = supersedes;
  superseded_reason = none;
  computed_at = env.now;
  valid_until = none;
}

abbrev pub add_snapshot : TrustEnv → NewSnapshot → Cause → Option String → TrustDb → TrustDb
add_snapshot env n cause supersedes db = record db {
  snapshots =
      snapshot_row env n cause supersedes (env.gen_random_uuid db.drawn)
      ∷ expired env cause supersedes db.snapshots;
  drawn = suc db.drawn;
}

-- The two statements commit one by one, so that a refused insert leaves the old snapshot expired.
abbrev pub insert_snapshot :
    TrustEnv → NewSnapshot → Cause → Option String → Option Exn → Exec TrustDb String
insert_snapshot env n cause supersedes none db =
    (ok (env.gen_random_uuid db.drawn), add_snapshot env n cause supersedes db)
insert_snapshot env n cause supersedes (some x) db = (
  raised x,
  record db { snapshots = expired env cause supersedes db.snapshots; drawn = suc db.drawn },
)

unfoldable pub create_snapshot :
    TrustEnv → NewSnapshot → Cause → Option String → Exec TrustDb String
create_snapshot env n cause supersedes db =
    if env.db_pool
    then insert_snapshot env n cause supersedes
        (env.snapshot_refusal (snapshot_row env n cause supersedes (env.gen_random_uuid db.drawn)))
        db
    else (raised (exn runtime_error "DB pool required for snapshot creation"), db)

abbrev pub cached : ℕ → String → Option ℕ → AgentRow → AgentRow
cached now band until a = record a {
  trust_band = some band;
  probation_until = until;
  updated_at = now;
}

abbrev pub write_cache :
    TrustEnv → String → String → Option ℕ → Option Exn → Exec TrustDb (Unit {0})
write_cache env agent band until none db = (
  ok tt,
  record db { agents = update_where (is_agent agent) (cached env.now band until) db.agents },
)
write_cache env agent band until (some x) db = (raised x, db)

-- The band is refused only where there is a row to write it to.
unfoldable pub update_agent_cache : TrustEnv → String → String → Option ℕ → Exec TrustDb (Unit {0})
update_agent_cache env agent band until db =
    if env.db_pool
    then write_cache env agent band until
        (if any (is_agent agent) db.agents then env.band_refusal band else none) db
    else (ok tt, db)

abbrev pub write_event : TrustEvent → Option Exn → Exec TrustDb (Unit {0})
write_event e none db = (ok tt, record db { events = e ∷ db.events })
write_event e (some x) db = (raised x, db)

unfoldable pub record_event : TrustEnv → TrustEvent → Exec TrustDb (Unit {0})
record_event env e db = if env.db_pool then write_event e (env.event_refusal e) db else (ok tt, db)

abbrev pub trust_event : TrustEnv → String → String → String → String → TrustEvent
trust_event env type agent tenant action = record {
  event_type = type;
  actor = agent;
  tenant_id = tenant;
  action = action;
  score = none;
  snapshot_id = none;
  previous_snapshot_id = none;
  reason = none;
  operator_id = none;
  severity = none;
  created_at = env.now;
}

unfoldable pub log_band_transition :
    TrustEnv → Cause → NewSnapshot → TrustBand → String → String → String → Exec TrustDb (Unit {0})
unfolding record_event
log_band_transition env cause n source id previous reason_code =
    record_event env
      (record (trust_event env "TRUST_BAND_CHANGED" n.agent_id n.tenant_id
        (value source <> "_to_" <> value n.band)) {
          score = some n.score;
          snapshot_id = some id;
          previous_snapshot_id = some previous;
          reason = some reason_code;
          operator_id = cause.operator_id;
        })

unfoldable pub log_score_computed : TrustEnv → NewSnapshot → String → Exec TrustDb (Unit {0})
unfolding record_event
log_score_computed env n id =
    record_event env
      (record (trust_event env "TRUST_SCORE_COMPUTED" n.agent_id n.tenant_id (value n.band)) {
        score = some n.score;
        snapshot_id = some id;
      })

unfoldable pub log_operator_override :
    TrustEnv → String → String → String → TrustBand → TrustBand → String → Exec TrustDb (Unit {0})
unfolding record_event
log_operator_override env agent tenant operator_id source target reason =
    record_event env
      (record (trust_event env "TRUST_OVERRIDE" agent tenant
        (value source <> "_to_" <> value target)) {
          reason = some reason;
          operator_id = some operator_id;
          severity = some "HIGH";
        })

-- `TrustBand(text)`
abbrev pub as_band : Option TrustBand → Result TrustBand
as_band none = raised (exn value_error "is not a valid TrustBand")
as_band (some b) = ok b

-- `TrustBand(text.lower())`
unfoldable pub band_lowered : String → Option TrustBand
band_lowered text =
    if lowered text "revoked"
    then some revoked
    else if lowered text "probation"
    then some probation
    else if lowered text "standard"
    then some standard
    else if lowered text "trusted"
    then some TrustBand.trusted
    else if lowered text "highly_trusted"
    then some TrustBand.highly_trusted
    else none

abbrev pub same_band : TrustBand → TrustBand → Bool
same_band a b = value a == value b

-- The event of a band that changed.
unfoldable pub audit_transition :
    TrustEnv → Cause → NewSnapshot → String → Option SnapshotRow → Exec TrustDb (Unit {0})
unfolding band_lowered log_band_transition get_transition_reason_code ◌>>=◌
audit_transition env cause n id none = pure tt
audit_transition env cause n id (some previous) = do
  source ← lift (as_band (band_lowered previous.band))
  if same_band source n.band
      then pure tt
      else log_band_transition env cause n source id previous.snapshot_id
          (get_transition_reason_code source n.band n.factors)
