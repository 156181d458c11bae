-- ===== src/Scenarios/Trust.antt =====
-- The trust band of a score.
use ledger_sdk.Prelude.{pos, ◌≡◌, ◌↔◌}
use ledger_sdk.Exec.{ok}
use ledger_sdk.TrustBands.{standard, from_score}
use ledger_sdk.TrustBands.Bands.{Within, from_score-Within}

from_score-Within_example : (from_score (pos 450_000) ≡ ok standard) ↔ Within (pos 450_000) standard
from_score-Within_example = from_score-Within (pos 450_000) standard
