-- ===== src/RateLimit/Redis.antt =====
-- apps/runtime/citadel/middleware/rate_limit.py: `_check_redis` and `check`. The Redis client is a
-- parameter: it runs a pipeline, and answers the replies, or raises.
use ledger_sdk.Prelude.{
  ℕ, ◌-◌, ◌*◌, String, Bool, true, false, Option, none, some, List, [], ◌∷◌, ℤ, pos, sub_ℕ, ◌+ℤ◌,
  ◌-ℤ◌, ltb, leb_ℤ, if◌then◌else◌,
}
use ledger_sdk.Exec.{
  Exec, Result, ok, raised, exn, ExnKind, index_error, connection_error, timeout_error,
}
use ledger_sdk.RateLimit.{
  RateLimitConfig, Buckets, Answer, Request, second, truncated, check_memory, get_category, get_key,
  config_for,
}

pub data Command : Type 0 where
  zremrangebyscore : String → ℤ → ℤ → Command
  zcard : String → Command
  zadd : String → ℕ → Command
  expire : String → ℕ → Command

-- The client, whose commands read and write the state of type I.
abbrev pub Redis : Type 0 → Type 0
Redis I = List Command → Exec I (List ℕ)

pub record Limiter (I : Type 0) : Type 0 where
  pub buckets : Buckets
  pub outside : I

abbrev pub pipeline : ℕ → String → RateLimitConfig → List Command
pipeline now key c =
    zremrangebyscore key (pos 0) (sub_ℕ now (c.window * second))
    ∷ zcard key
    ∷ zadd key now
    ∷ expire key c.window
    ∷ []

-- `results[1]`
abbrev second_reply : List ℕ → Option ℕ
second_reply [] = none
second_reply (a ∷ []) = none
second_reply (a ∷ b ∷ rest) = some b

abbrev max_ℤ : ℤ → ℤ → ℤ
max_ℤ a b = if leb_ℤ a b then b else a

-- `int(window_start + config.window - now)`, and at least 1.
unfoldable pub window_wait : ℕ → RateLimitConfig → ℤ
window_wait now c =
    max_ℤ (pos 1)
      (truncated (sub_ℕ now (c.window * second) +ℤ pos (c.window * second) -ℤ pos now) second)

abbrev nat_of : ℤ → ℕ
nat_of (pos n) = n
nat_of _ = 0

unfoldable pub window_answer : ℕ → RateLimitConfig → ℕ → Answer
unfolding window_wait
window_answer now c count =
    if ltb c.requests count
    then (
      false,
      record {
        limit = c.requests;
        remaining = pos 0;
        retry_after = some (nat_of (window_wait now c));
      },
      some 429,
    )
    else (
      true,
      record { limit = c.requests; remaining = pos (c.requests - count - 1); retry_after = none },
      none,
    )

abbrev connection_lost : ExnKind → Bool
connection_lost connection_error = true
connection_lost timeout_error = true
connection_lost _ = false

abbrev with_buckets : {I : Type 0} → I → Result Answer × Buckets → Result Answer × Limiter I
with_buckets i (r, bs) = (r, record { buckets = bs; outside = i })

module _ {I : Type 0} where
  unfoldable pub from_memory : ℕ → String → RateLimitConfig → Exec (Limiter I) Answer
  unfolding check_memory
  from_memory now key c l = with_buckets l.outside (check_memory now key c l.buckets)

  -- What is done with the replies of the pipeline, which left the outside as `i`.
  unfoldable pub after_pipeline :
      ℕ → String → RateLimitConfig → Buckets → Result (List ℕ) × I → Result Answer × Limiter I
  unfolding window_answer from_memory
  after_pipeline now key c bs (ok replies, i) = elim (second_reply replies) [
    | some count ↦ (ok (window_answer now c count), record { buckets = bs; outside = i })
    | none ↦
        (raised (exn index_error "list index out of range"), record { buckets = bs; outside = i })
  ]
  after_pipeline now key c bs (raised e, i) =
      if connection_lost e.kind
      then from_memory now key c (record { buckets = bs; outside = i })
      else (raised e, record { buckets = bs; outside = i })

  unfoldable pub check_redis : Redis I → ℕ → String → RateLimitConfig → Exec (Limiter I) Answer
  unfolding after_pipeline
  check_redis redis now key c l =
      after_pipeline now key c l.buckets (redis (pipeline now key c) l.outside)

  -- With the client if there is one, and otherwise in memory.
  unfoldable pub check_key :
      Option (Redis I) → ℕ → String → RateLimitConfig → Exec (Limiter I) Answer
  unfolding check_redis from_memory
  check_key (some redis) now key c l = check_redis redis now key c l
  check_key none now key c l = from_memory now key c l

  unfoldable pub check : Option (Redis I) → ℕ → Request → Exec (Limiter I) Answer
  unfolding get_category get_key config_for check_key
  check redis now r l =
      let category = get_category r.path in
      check_key redis now (get_key r category) (config_for category) l
