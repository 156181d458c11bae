-- ===== src/RateLimit/Refill.antt =====
-- apps/runtime/citadel/middleware/rate_limit.py: what one `TokenBucket.consume` does to a bucket
-- that never owes tokens, while the clock does not go back.
use ledger_sdk.Prelude.{
  ℕ, ◌+◌, ◌*◌, ◌≤◌, ◌≡◌, refl, ◌∙◌, Bool, true, false, ℤ, pos, sub_ℕ, ◌+ℤ◌, ◌-ℤ◌, pos_part,
  neg_part, arith,
}
use mathlib.Core.Path.{subst}
use ledger_sdk.Exec.{Result, ok, raised}
use ledger_sdk.RateLimit.{
  RateLimitConfig, TokenBucket, Headers, second, token, min_ℤ, refilled, take_from, consume,
}

-- The bucket belongs to the configuration, holds no more than the burst and owes nothing.
pub record Sound (c : RateLimitConfig) (b : TokenBucket) : Type 0 where
  pub of_burst : b.capacity ≡ c.burst
  pub of_requests : b.requests ≡ c.requests
  pub of_window : b.window ≡ c.window
  pub owes_nothing : neg_part b.tokens ≡ 0
  pub within : pos_part b.tokens ≤ c.burst * (c.window * second)

-- The tokens that an answer cost.
abbrev pub gained : Result (Bool × Headers) → ℕ
gained (ok (true, h)) = 1
gained (ok (false, h)) = 0
gained (raised e) = 0

pub mul_mono : (a b r : ℕ) → a ≤ b → a * r ≤ b * r
mul_mono a b r h = grind arith

-- The level after a refill from `last` to `now`, both multiplied by the rate.
refill_level :
    (t : ℤ) (cap last now : ℕ)
    → last ≤ now
    → neg_part t ≡ 0
    → let m = min_ℤ (pos cap) (t +ℤ sub_ℕ now last) in
      (neg_part m ≡ 0) × (pos_part m ≤ cap) × (pos_part m + last ≤ pos_part t + now)
unfolding ◌+ℤ◌
refill_level t cap last now h k = ground arith

capacity_eq :
    {c : RateLimitConfig} {b : TokenBucket}
    → Sound c b
    → b.capacity * token b ≡ c.burst * (c.window * second)
capacity_eq s = rw (s.of_burst, s.of_window)

pub refilled-Sound :
    {c : RateLimitConfig} {b : TokenBucket} (now : ℕ)
    → Sound c b
    → b.last_refill ≤ now
    → Sound c (refilled now b)
      × (pos_part (refilled now b).tokens + b.last_refill * c.requests
          ≤ pos_part b.tokens + now * c.requests)
unfolding refilled
refilled-Sound {c} {b} now s h =
    let (owes, cap, level) =
      refill_level b.tokens (b.capacity * token b) (b.last_refill * b.requests) (now * b.requests)
        (mul_mono b.last_refill now b.requests h) s.owes_nothing in
    (
      record {
        of_burst = s.of_burst;
        of_requests = s.of_requests;
        of_window = s.of_window;
        owes_nothing = owes;
        within = subst (λ (n : ℕ). pos_part (refilled now b).tokens ≤ n) (capacity_eq s) cap;
      },
      subst
          (λ (n : ℕ).
            pos_part (refilled now b).tokens + b.last_refill * n ≤ pos_part b.tokens + now * n)
          s.of_requests level,
    )

pub refilled_at : (now : ℕ) (b : TokenBucket) → (refilled now b).last_refill ≡ now
unfolding refilled
refilled_at now b = refl

-- A consumption of one token that has tokens enough.
take_cases :
    (c : RateLimitConfig) (b : TokenBucket)
    → Sound c b
    → let (r, b') = take_from 1 b in
      Sound c b'
      × (b'.last_refill ≡ b.last_refill)
      × (pos_part b'.tokens + gained r * (c.window * second) ≤ pos_part b.tokens)
unfolding take_from ◌-ℤ◌
take_cases c b s = ground (arith, capacity_eq s)

-- A consumption keeps the bucket sound, and what it takes and leaves was there or came in since.
pub consume-Sound :
    {c : RateLimitConfig} {b : TokenBucket} (now : ℕ)
    → Sound c b
    → b.last_refill ≤ now
    → let (r, b') = consume 1 now b in
      Sound c b'
      × (b'.last_refill ≡ now)
      × (pos_part b'.tokens + gained r * (c.window * second) + b.last_refill * c.requests
          ≤ pos_part b.tokens + now * c.requests)
unfolding consume
consume-Sound {c} {b} now s h =
    let (filled, level) = refilled-Sound now s h in
    let (sound, at, left) = take_cases c (refilled now b) filled in
    (sound, at ∙ refilled_at now b, omega arith)
