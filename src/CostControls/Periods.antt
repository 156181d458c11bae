-- ===== src/CostControls/Periods.antt =====
-- apps/runtime/citadel/commercial/cost_controls.py, current_period_window: the period that holds an
-- instant.
use ledger_sdk.Prelude.{ℕ, String, not, mem_str, ◌==◌, ◌≤◌, ◌<◌, ◌≡◌}
use mathlib.Core.Path.{subst}
use ledger_sdk.Exec.{ok}
use ledger_sdk.Exec.Returns.{Holds, Holds-if}
use ledger_sdk.Calendar.Bounds.{month-holds, day-holds, week-holds}
use ledger_sdk.CostControls.{current_period_window, valid_periods}

abbrev HoldsNow : ℕ → ℕ × ℕ → Type 0
HoldsNow now (start, finish) = (start ≤ now) × (now < finish)

window_lem : (period : String) (now : ℕ) → Holds (HoldsNow now) (current_period_window period now)
unfolding current_period_window
window_lem period now = Holds-if (HoldsNow now) (not (mem_str period valid_periods)) _ _ tt (
    Holds-if (HoldsNow now) (period == "daily") _ _ (day-holds now)
      (Holds-if (HoldsNow now) (period == "weekly") _ _ (week-holds now) (month-holds now)))

-- The window of a period holds the instant it is computed for: it starts no later, and ends after
-- it, whether the period is a day, a week or a month of the calendar.
pub current_period_window-HoldsNow :
    (period : String) (now start finish : ℕ)
    → current_period_window period now ≡ ok (start, finish)
    → (start ≤ now) × (now < finish)
current_period_window-HoldsNow period now start finish e =
    subst (Holds (HoldsNow now)) e (window_lem period now)
