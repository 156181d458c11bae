-- ===== src/TrustBands.antt =====
-- apps/runtime/citadel/agent_identity/trust_bands.py: the bands of a trust score, and the
-- transitions between them. A score is in millionths, so an integer stands for the source's float.
pub mod Bands
pub mod Reasons
use ledger_sdk.Prelude.{String, ℤ, pos, Bool, true, false, ltb_ℤ, ◌||◌, if◌then◌else◌}
use ledger_sdk.Exec.{Result, ok, raised, exn, value_error}

pub data TrustBand : Type 0 where
  revoked probation standard trusted highly_trusted : TrustBand

unfoldable pub from_score : ℤ → Result TrustBand
from_score score =
    if ltb_ℤ score (pos 0) || ltb_ℤ (pos 1_000_000) score
    then raised (exn value_error "Trust score must be in [0.0, 1.0]")
    else if ltb_ℤ score (pos 200_000)
    then ok revoked
    else if ltb_ℤ score (pos 400_000)
    then ok probation
    else if ltb_ℤ score (pos 600_000)
    then ok standard
    else if ltb_ℤ score (pos 800_000)
    then ok trusted
    else ok highly_trusted

unfoldable pub min_score : TrustBand → ℤ
min_score revoked = pos 0
min_score probation = pos 200_000
min_score standard = pos 400_000
min_score trusted = pos 600_000
min_score highly_trusted = pos 800_000

unfoldable pub max_score : TrustBand → ℤ
max_score revoked = pos 200_000
max_score probation = pos 400_000
max_score standard = pos 600_000
max_score trusted = pos 800_000
max_score highly_trusted = pos 1_000_000

abbrev pub is_revoked : TrustBand → Bool
is_revoked revoked = true
is_revoked _ = false

abbrev pub is_probation : TrustBand → Bool
is_probation probation = true
is_probation _ = false

abbrev pub is_standard : TrustBand → Bool
is_standard standard = true
is_standard _ = false

unfoldable pub is_band_transition_allowed : TrustBand → TrustBand → Bool
is_band_transition_allowed source target =
    if is_revoked target
    then true
    else if is_revoked source
    then is_probation target
    else if is_probation source
    then is_standard target || is_revoked target
    else true
