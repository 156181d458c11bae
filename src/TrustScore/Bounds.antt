-- ===== src/TrustScore/Bounds.antt =====
-- apps/runtime/citadel/agent_identity/trust_score.py: the computed score has a band.
use ledger_sdk.Prelude.{
  ℤ, pos, ◌≤ℤ◌, ◌≡◌, ltb_ℤ, if◌then◌else◌, arith, Bool, true, false, ◌||◌, refl,
}
use ledger_sdk.Exec.{ok}
use ledger_sdk.TrustBands.{
  TrustBand, from_score, revoked, probation, standard, trusted, highly_trusted,
}
use ledger_sdk.TrustScore.{RawInputs, clamp, compute_score, total, factors_of}

clamp_range :
    (low high x : ℤ) → low ≤ℤ high → (low ≤ℤ clamp low high x) × (clamp low high x ≤ℤ high)
clamp_range low high x h = ground arith

inside :
    (s : ℤ) → pos 0 ≤ℤ s → s ≤ℤ pos 1_000_000 → (ltb_ℤ s (pos 0) || ltb_ℤ (pos 1_000_000) s) ≡ false
inside s low high = ground arith

picked :
    (a b c d : Bool)
    → (band : TrustBand) × ((if a
          then ok revoked
          else if b
          then ok probation
          else if c
          then ok standard
          else if d
          then ok trusted
          else ok highly_trusted)
        ≡ ok band)
picked true b c d = (revoked, refl)
picked false true c d = (probation, refl)
picked false false true d = (standard, refl)
picked false false false true = (trusted, refl)
picked false false false false = (highly_trusted, refl)

from_score_total :
    (s : ℤ) → pos 0 ≤ℤ s → s ≤ℤ pos 1_000_000 → (b : TrustBand) × (from_score s ≡ ok b)
unfolding from_score
from_score_total s low high = rw (inside s low high) (
    picked (ltb_ℤ s (pos 200_000)) (ltb_ℤ s (pos 400_000)) (ltb_ℤ s (pos 600_000))
      (ltb_ℤ s (pos 800_000)))

pub compute_score-band : (r : RawInputs) → (b : TrustBand) × (from_score (compute_score r).0 ≡ ok b)
unfolding compute_score
compute_score-band r =
    let (low, high) = clamp_range (pos 0) (pos 1_000_000) (total (factors_of r)) (omega arith) in
    from_score_total (compute_score r).0 low high
