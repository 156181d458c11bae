-- ===== src/RateLimit/Retry.antt =====
-- apps/runtime/citadel/middleware/rate_limit.py: a request that the buckets in memory refuse is let
-- pass after the wait that its answer names.
use ledger_sdk.Prelude.{
  ℕ, ◌+◌, ◌*◌, ◌/◌, ◌≤◌, ◌<◌, ◌≡◌, ◌⊎◌, inl, inr, refl, ap, ◌∙◌, String, true, false, none, some,
  List, [], ◌∷◌, ◌==◌, ℤ, pos, pos_part, neg_part, sub_ℕ, ◌+ℤ◌, ◌-ℤ◌, leb_ℤ, arith, Bool-cases, eqb,
  All,
}
use ledger_sdk.Exec.{ok}
use ledger_sdk.RateLimit.{
  RateLimitConfig, TokenBucket, Headers, second, token, take_from, refilled, headers, wait_for,
  config_for, config_in, default_limits, min_ℤ, spend,
}
use ledger_sdk.RateLimit.Refill.{Sound, mul_mono}

rounded_up : (m d : ℕ) → 0 < d → m ≤ (m / d + 1) * d
rounded_up m d h = grind arith

-- A bucket of a configuration that lets something pass.
pub record IsLive (c : RateLimitConfig) : Type 0 where
  pub has_burst : 0 < c.burst
  pub has_requests : 0 < c.requests
  pub has_window : 0 < c.window

pub config_for-IsLive : (category : String) → IsLive (config_for category)
unfolding config_for
config_for-IsLive category = every default_limits (omega arith)
  where
    every :
        (cs : List (String × RateLimitConfig))
        → All (λ (e : String × RateLimitConfig). IsLive e.1) cs
        → IsLive (config_in cs category)
    every [] all = omega arith
    every ((name, c) ∷ cs) (here, all) = elim (Bool-cases (name == category)) [
      | inl e ↦ rw e here
      | inr e ↦ rw e (every cs all)
    ]

-- What a consumption answers: the token is there, or the answer names the wait.
pub take-answers :
    (c : RateLimitConfig) (b : TokenBucket)
    → IsLive c
    → Sound c b
    → ((h : Headers) × ((take_from 1 b).0 ≡ ok (true, h)))
      ⊎ (take_from 1 b ≡ (ok (false, headers b (some (wait_for 1 b))), b))
unfolding take_from
take-answers c b live s = elim (Bool-cases (leb_ℤ (pos (1 * token b)) b.tokens)) [
  | inl e ↦ inl (headers (spend 1 b) none, rw e)
  | inr e ↦ inr (rw (e, some_requests b.requests (omega (arith, s.of_requests, live.has_requests))))
]
  where
    some_requests : (n : ℕ) → 0 < n → eqb n 0 ≡ false
    some_requests n h = ground arith

level_fills :
    (t : ℤ) (cap tok last now : ℕ)
    → neg_part t ≡ 0
    → tok ≤ cap
    → last + pos_part (pos (1 * tok) -ℤ t) ≤ now
    → leb_ℤ (pos (1 * tok)) (min_ℤ (pos cap) (t +ℤ sub_ℕ now last)) ≡ true
unfolding ◌-ℤ◌ ◌+ℤ◌
level_fills t cap tok last now owes fits h = ground arith

waited :
    (m w r last later : ℕ)
    → m ≤ w * (second * r)
    → last + w * second ≤ later
    → last * r + m ≤ later * r
waited m w r last later h k = grind (arith, mul_mono (last + w * second) later r k)

-- The missing tokens come in during the wait.
pub wait_fills :
    (c : RateLimitConfig) (b : TokenBucket) (later : ℕ)
    → IsLive c
    → Sound c b
    → b.last_refill + wait_for 1 b * second ≤ later
    → leb_ℤ (pos (1 * token b)) (refilled later b).tokens ≡ true
unfolding refilled wait_for
wait_fills c b later live s h =
    level_fills b.tokens (b.capacity * token b) (token b) (b.last_refill * b.requests)
      (later * b.requests) s.owes_nothing
      (omega (arith, mul_mono 1 b.capacity (token b) (omega (arith, s.of_burst, live.has_burst))))
      (waited _ (wait_for 1 b) b.requests b.last_refill later
        (rounded_up _ (second * b.requests) (omega (arith, s.of_requests, live.has_requests))) h)

token-refilled : (now : ℕ) (b : TokenBucket) → token (refilled now b) ≡ token b
unfolding refilled
token-refilled now b = refl

take_passes :
    (b : TokenBucket)
    → leb_ℤ (pos (1 * token b)) b.tokens ≡ true
    → (take_from 1 b).0 ≡ ok (true, headers (spend 1 b) none)
unfolding take_from
take_passes b e = rw e

pub wait_passes :
    (c : RateLimitConfig) (b : TokenBucket) (later : ℕ)
    → IsLive c
    → Sound c b
    → b.last_refill + wait_for 1 b * second ≤ later
    → (h : Headers) × ((take_from 1 (refilled later b)).0 ≡ ok (true, h))
wait_passes c b later live s h = (
  headers (spend 1 (refilled later b)) none,
  take_passes (refilled later b) (
      ap (λ (n : ℕ). leb_ℤ (pos (1 * n)) (refilled later b).tokens) (token-refilled later b)
      ∙ wait_fills c b later live s h),
)
