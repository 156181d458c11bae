-- ===== src/TrustBands/Bands.antt =====
-- apps/runtime/citadel/agent_identity/trust_bands.py: the bounds of the bands.
use ledger_sdk.Prelude.{ℤ, ◌≤ℤ◌, ◌<ℤ◌, ◌≡◌, ◌↔◌, arith}
use ledger_sdk.Exec.{ok}
use ledger_sdk.TrustBands.{
  TrustBand, revoked, probation, standard, trusted, highly_trusted, from_score, min_score,
  max_score,
}

-- The score lies in the band's interval, whose upper end belongs to the top band alone.
pub Within : ℤ → TrustBand → Type 0
Within score highly_trusted =
    (min_score highly_trusted ≤ℤ score) × (score ≤ℤ max_score highly_trusted)
Within score band = (min_score band ≤ℤ score) × (score <ℤ max_score band)

-- A score gets a band exactly where it lies in the band's interval.
pub from_score-Within :
    (score : ℤ) (band : TrustBand) → (from_score score ≡ ok band) ↔ Within score band
unfolding from_score Within min_score max_score
from_score-Within score revoked = (λ h. grind arith, λ h. grind arith)
from_score-Within score probation = (λ h. grind arith, λ h. grind arith)
from_score-Within score standard = (λ h. grind arith, λ h. grind arith)
from_score-Within score trusted = (λ h. grind arith, λ h. grind arith)
from_score-Within score highly_trusted = (λ h. grind arith, λ h. grind arith)
