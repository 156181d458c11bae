-- ===== src/TrustScore.antt =====
-- apps/runtime/citadel/agent_identity/trust_score.py: the inputs of a trust score, and
-- `_compute_score`. Scores and factors are in millionths, exact where the source's floats round.
-- The tables have the columns that the statements of trust_score.py and trust_audit.py name.
pub mod Snapshots
pub mod Store
pub mod Batch
pub mod Bounds
pub mod Expiry
pub mod Current
pub mod Stored
pub mod Sweep
use ledger_sdk.Exec.{Exn}
use ledger_sdk.Prelude.{
  ℕ, ◌+◌, ◌-◌, ◌*◌, String, Bool, true, false, ◌&&◌, Option, none, some, List, [], ◌∷◌, ◌==◌, ◌<>◌,
  ℤ, pos, negsuc, sub_ℕ, ◌+ℤ◌, ◌-ℤ◌, ltb, leb, ltb_ℤ, leb_ℤ, pos_part, count_where, find_by,
  has_text, if◌then◌else◌, is_some, or_else,
}
use ledger_sdk.TrustBands.{TrustBand}
use ledger_sdk.TrustBands.Reasons.{Factors}

pub record AgentRow : Type 0 where
  pub agent_id : String
  pub health_score : ℤ
  pub quarantined : Bool
  pub actions_today : ℤ
  pub token_spend : ℤ
  pub token_budget : ℤ
  pub compliance : List String
  pub created_at : ℕ
  pub trust_band : Option String
  pub probation_until : Option ℕ
  pub probation_reason : Option String
  pub updated_at : ℕ

pub record IdentityRow : Type 0 where
  pub agent_id : String
  pub verification_status : String
  pub created_at : ℕ
  pub failed_challenges : ℕ
  pub challenge_count : ℕ

-- What the score is computed from, in the order of the source.
pub record RawInputs : Type 0 where
  pub agent_id : String
  pub health_score : ℤ
  pub quarantined : Bool
  pub actions_today : ℤ
  pub token_spend : ℤ
  pub token_budget : ℤ
  pub compliance_tags : List String
  pub created_at : ℕ
  pub probation_until : Option ℕ
  pub probation_reason : Option String
  pub identity_verified : Bool
  pub identity_created_at : ℕ
  pub failed_challenges : ℕ
  pub challenge_count : ℕ
  pub violations_7d : ℕ
  pub total_events_7d : ℕ
  pub previous_score : Option ℤ
  pub previous_band : Option String

-- The JSON column raw_inputs: of a computation, or of an override.
pub data Inputs : Type 0 where
  computed : RawInputs → Inputs
  operator : String → String → Inputs

pub record SnapshotRow : Type 0 where
  pub snapshot_id : String
  pub actor_id : String
  pub tenant_id : String
  pub score : ℤ
  pub band : String
  pub probation_until : Option ℕ
  pub probation_reason : Option String
  pub factors : Factors
  pub raw_inputs : Inputs
  pub computation_method : String
  pub triggering_event : Option String
  pub triggering_event_id : Option String
  pub operator_id : Option String
  pub operator_reason : Option String
  pub supersedes_snapshot_id : Option String
  pub superseded_reason : Option String
  pub computed_at : ℕ
  pub valid_until : Option ℕ

-- A row of audit_events, with the entries of metadata_json that vary.
pub record TrustEvent : Type 0 where
  pub event_type : String
  pub actor : String
  pub tenant_id : String
  pub action : String
  pub score : Option ℤ
  pub snapshot_id : Option String
  pub previous_snapshot_id : Option String
  pub reason : Option String
  pub operator_id : Option String
  pub severity : Option String
  pub created_at : ℕ

pub record TrustDb : Type 0 where
  pub agents : List AgentRow
  pub identities : List IdentityRow
  pub snapshots : List SnapshotRow
  pub events : List TrustEvent
  pub drawn : ℕ

-- The pool, the instant in seconds, the identifiers that the database draws, and the exceptions with
-- which the deployed tables refuse a snapshot, a band in the agents table and an audit event.
pub record TrustEnv : Type 0 where
  pub db_pool : Bool
  pub now : ℕ
  pub gen_random_uuid : ℕ → String
  pub snapshot_refusal : SnapshotRow → Option Exn
  pub band_refusal : String → Option Exn
  pub event_refusal : TrustEvent → Option Exn

abbrev pub week : ℕ
week = 604_800

abbrev pub recent : ℕ → String → TrustEvent → Bool
recent now agent e = e.actor == agent && ltb now (e.created_at + week)

-- `valid_until IS NULL` for the actor.
abbrev pub is_current : String → SnapshotRow → Bool
is_current actor s = s.actor_id == actor && elim s.valid_until [ none ↦ true | some t ↦ false ]

abbrev pub newer : SnapshotRow → Option SnapshotRow → SnapshotRow
newer s none = s
newer s (some t) = if leb t.computed_at s.computed_at then s else t

-- `ORDER BY computed_at DESC LIMIT 1` of the current ones.
unfoldable pub latest : String → List SnapshotRow → Option SnapshotRow
latest actor [] = none
latest actor (s ∷ rest) =
    let found = latest actor rest in if is_current actor s then some (newer s found) else found

abbrev pub is_agent : String → AgentRow → Bool
is_agent id a = a.agent_id == id

abbrev pub is_identity : String → IdentityRow → Bool
is_identity id i = i.agent_id == id

abbrev inputs_of :
    TrustEnv → TrustDb → AgentRow → Option IdentityRow → Option SnapshotRow → RawInputs
inputs_of env db agent identity previous = record {
  agent_id = agent.agent_id;
  health_score = agent.health_score;
  quarantined = agent.quarantined;
  actions_today = agent.actions_today;
  token_spend = agent.token_spend;
  token_budget = agent.token_budget;
  compliance_tags = agent.compliance;
  created_at = agent.created_at;
  probation_until = agent.probation_until;
  probation_reason = agent.probation_reason;
  identity_verified = elim identity [ none ↦ false | some i ↦ i.verification_status == "verified" ];
  identity_created_at = elim identity [ none ↦ agent.created_at | some i ↦ i.created_at ];
  failed_challenges = elim identity [ none ↦ 0 | some i ↦ i.failed_challenges ];
  challenge_count = elim identity [ none ↦ 0 | some i ↦ i.challenge_count ];
  violations_7d =
      count_where
        (λ (e : TrustEvent). has_text e.action "violation" && recent env.now agent.agent_id e)
        db.events;
  total_events_7d = count_where (recent env.now agent.agent_id) db.events;
  previous_score = elim previous [ none ↦ none | some s ↦ some s.score ];
  previous_band = elim previous [ none ↦ none | some s ↦ some s.band ];
}

unfoldable pub fetch_raw_inputs : TrustEnv → String → TrustDb → Option RawInputs
unfolding latest
fetch_raw_inputs env agent_id db =
    if env.db_pool
    then elim (find_by (is_agent agent_id) db.agents) [
      | none ↦ none
      | some agent ↦ some (
          inputs_of env db agent (find_by (is_identity agent_id) db.identities)
            (latest agent_id db.snapshots))
    ]
    else none

-- `max(low, min(high, x))`
abbrev pub clamp : ℤ → ℤ → ℤ → ℤ
clamp low high x =
    let capped = if ltb_ℤ x high then x else high in if ltb_ℤ low capped then capped else low

abbrev identity_verification : RawInputs → ℤ
identity_verification r = if r.identity_verified then pos 300_000 else pos 0

abbrev health : RawInputs → ℤ
health r = pos (pos_part (clamp (pos 0) (pos 100) r.health_score) * 3_500)

abbrev operational_health : RawInputs → ℤ
operational_health r =
    let quarantine = if r.quarantined then pos 350_000 else pos 0 in
    let busy = if ltb_ℤ (pos 1_000) r.actions_today then pos 150_000 else pos 0 in
    clamp (negsuc 349_999) (pos 350_000) (health r -ℤ quarantine -ℤ busy)

-- `min(0.35, violations * 0.12)`
abbrev violation_cost : ℕ → ℕ
violation_cost n = if ltb (n * 120_000) 350_000 then n * 120_000 else 350_000

-- `token_spend / token_budget > 0.9` of a positive budget.
abbrev near_budget : RawInputs → Bool
near_budget r =
    ltb_ℤ (pos 0) r.token_budget && ltb (pos_part r.token_budget * 9) (pos_part r.token_spend * 10)

abbrev governance_record : RawInputs → ℤ
governance_record r =
    let costly = if near_budget r then pos 100_000 else pos 0 in
    clamp (negsuc 349_999) (pos 350_000)
      (pos 350_000 -ℤ pos (violation_cost r.violations_7d) -ℤ costly)

unfoldable pub factors_of : RawInputs → Factors
factors_of r =
    ("identity_verification", identity_verification r)
    ∷ ("operational_health", operational_health r)
    ∷ ("governance_record", governance_record r)
    ∷ []

unfoldable pub total : Factors → ℤ
total [] = pos 0
total ((name, v) ∷ rest) = v +ℤ total rest

unfoldable pub compute_score : RawInputs → ℤ × Factors
unfolding factors_of total
compute_score r = (clamp (pos 0) (pos 1_000_000) (total (factors_of r)), factors_of r)
