-- ===== src/TrustScore/Sweep.antt =====
-- apps/runtime/citadel/agent_identity/trust_score.py: `evaluate_all` ends, and has scored every
-- agent.
use ledger_sdk.Prelude.{
  ◌≡◌, String, true, Option, none, some, List, [], ◌∷◌, ◌==◌, All, sort_by, is_some, if◌then◌else◌,
}
use ledger_sdk.Exec.{Exec, Result, ok, raised}
use ledger_sdk.Exec.Ends.{Ends}
use ledger_sdk.TrustScore.{TrustDb, TrustEnv}
use ledger_sdk.TrustScore.Snapshots.{TrustScore}
use ledger_sdk.TrustScore.Batch.{Scores, in_order}
use ledger_sdk.TrustScore.Stored.{Known, Refusal}

-- `scores.get(agent)`
abbrev pub score_in : String → Scores → Option TrustScore
score_in agent [] = none
score_in agent ((k, v) ∷ rest) = if k == agent then some v else score_in agent rest

abbrev pub Scored : Scores → String → Type 0
Scored scores agent = is_some (score_in agent scores) ≡ true

-- The agents of a page are scored, and those that were scored before still are.
abbrev Both : List String → List String → Scores → Type 0
Both done rows scores = All (Scored scores) done × All (Scored scores) rows

abbrev Swept : List String → Option Scores → Type 0
Swept ids none = ⊥
Swept ids (some scores) = All (Scored scores) ids

module _ (env : TrustEnv) (tenant : String) (ids : List String) (pool : env.db_pool ≡ true) where
  abbrev Ended : Exec TrustDb (Option Scores) → Type 0
  Ended m = Ends (Refusal env) (Known ids) (Swept (sort_by in_order ids)) m

-- The sweep ended with a score for each of the agents, or at a row that the tables refused.
abbrev pub SweptAll : TrustEnv → List String → Result (Option Scores) → Type 0
SweptAll env ids (ok (some scores)) = All (Scored scores) ids
SweptAll env ids (ok none) = ⊥
SweptAll env ids (raised e) = Refusal env e
