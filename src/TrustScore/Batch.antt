-- ===== src/TrustScore/Batch.antt =====
-- apps/runtime/citadel/agent_identity/trust_score.py: `evaluate_all`, the pages of agents in the
-- order of their identifiers. The loop runs on fuel, one round for each page and one for the end.
use ledger_sdk.Prelude.{
  ℕ, zero, suc, ◌+◌, String, Bool, not, Option, none, some, List, [], ◌∷◌, map, ◌==◌, take, sort_by,
  if◌then◌else◌,
}
use ledger_sdk.Exec.{Exec, ◌>>=◌, pure, gets}
use ledger_sdk.TrustBands.Reasons.{text_ltb}
use ledger_sdk.TrustScore.{AgentRow, TrustDb, TrustEnv}
use ledger_sdk.TrustScore.Snapshots.{TrustScore, Cause}
use ledger_sdk.TrustScore.Store.{compute_and_store}

abbrev pub Scores : Type 0
Scores = List (String × TrustScore)

-- `scores[agent] = score`
abbrev pub with_score : String → TrustScore → Scores → Scores
with_score agent score [] = (agent, score) ∷ []
with_score agent score ((k, v) ∷ rest) =
    if k == agent then (agent, score) ∷ rest else (k, v) ∷ with_score agent score rest

abbrev pub drop {ℓ} : {A : Type ℓ} → ℕ → List A → List A
drop zero xs = xs
drop (suc n) [] = []
drop (suc n) (x ∷ xs) = drop n xs

abbrev pub agent_ids : TrustDb → List String
agent_ids db = map (λ (a : AgentRow). a.agent_id) db.agents

abbrev pub in_order : String → String → Bool
in_order a b = not (text_ltb b a)

-- `SELECT agent_id FROM agents ORDER BY agent_id LIMIT $1 OFFSET $2`
unfoldable pub page : ℕ → ℕ → TrustDb → List String
page batch offset db = take batch (drop offset (sort_by in_order (agent_ids db)))

abbrev pub batch_cause : Cause
batch_cause = record {
  computation_method = "batch";
  triggering_event = none;
  triggering_event_id = none;
  operator_id = none;
  operator_reason = none;
}

unfoldable pub score_rows : TrustEnv → String → List String → Scores → Exec TrustDb Scores
unfolding compute_and_store ◌>>=◌
score_rows env tenant [] scores = pure scores
score_rows env tenant (agent ∷ rows) scores = do
  score ← compute_and_store env agent tenant batch_cause
  score_rows env tenant rows (with_score agent score scores)

-- The round of one page: no rows end the loop, and otherwise `more` is the next round.
unfoldable pub next_page :
    (Scores → Exec TrustDb (Option Scores))
    → TrustEnv
    → String
    → Scores
    → List String
    → Exec TrustDb (Option Scores)
unfolding score_rows ◌>>=◌
next_page more env tenant scores [] = pure (some scores)
next_page more env tenant scores (agent ∷ rows) =
    score_rows env tenant (agent ∷ rows) scores >>= more

-- `while True`; `none` means that the fuel ran out.
unfoldable pub pages : ℕ → TrustEnv → String → ℕ → ℕ → Scores → Exec TrustDb (Option Scores)
unfolding page next_page ◌>>=◌
pages zero env tenant batch offset scores = pure none
pages (suc fuel) env tenant batch offset scores = do
  rows ← gets (page batch offset)
  next_page (pages fuel env tenant batch (offset + batch)) env tenant scores rows

unfoldable pub evaluate_all : ℕ → TrustEnv → String → ℕ → Exec TrustDb (Option Scores)
unfolding pages
evaluate_all fuel env tenant batch =
    if env.db_pool then pages fuel env tenant batch 0 [] else pure (some [])
