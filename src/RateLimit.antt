-- ===== src/RateLimit.antt =====
-- apps/runtime/citadel/middleware/rate_limit.py: the token bucket, the limiter over the buckets in
-- memory and its categories and keys. Time is in microseconds, and the tokens of a bucket are
-- counted in units of 1 / (window * 1_000_000), so that a refill by `elapsed * requests / window` is
-- exact; a clock that goes back takes tokens away, as in the source.
pub mod Refill
pub mod Steps
pub mod Budget
pub mod Retry
pub mod Answers
pub mod Redis
pub mod Middleware
pub mod Keys
use ledger_sdk.Prelude.{
  ℕ, ◌+◌, ◌*◌, ◌/◌, String, Bool, true, false, ◌&&◌, Option, none, some, List, [], ◌∷◌, ◌==◌, ◌<>◌,
  ℤ, pos, negsuc, suc, zero, sub_ℕ, ◌+ℤ◌, ◌-ℤ◌, leb_ℤ, pos_part, truthy, starts_with, eqb,
  if◌then◌else◌, strip, split_first, or_else, str_or,
}
use ledger_sdk.Exec.{Exec, Result, ok, raised, exn, other_error}

pub record RateLimitConfig : Type 0 where
  pub requests : ℕ
  pub window : ℕ
  pub burst : ℕ

abbrev pub limits : ℕ → ℕ → ℕ → RateLimitConfig
limits requests window burst = record { requests = requests; window = window; burst = burst }

-- `DEFAULT_LIMITS`
abbrev pub default_limits : List (String × RateLimitConfig)
default_limits =
    ("auth", limits 5 60 3)
    ∷ ("api", limits 100 60 20)
    ∷ ("webhook", limits 1000 60 100)
    ∷ ("default", limits 60 60 10)
    ∷ []

-- `PATH_CATEGORIES`
abbrev pub path_categories : List (String × String)
path_categories =
    ("/auth/", "auth")
    ∷ ("/v1/billing/webhooks", "webhook")
    ∷ ("/api/", "api")
    ∷ ("/v1/", "api")
    ∷ ("/dashboard/", "api")
    ∷ []

pub record TokenBucket : Type 0 where
  pub capacity : ℕ
  -- The refill rate is requests / window.
  pub requests : ℕ
  pub window : ℕ
  pub tokens : ℤ
  pub last_refill : ℕ

abbrev pub second : ℕ
second = 1_000_000

-- One token, in the bucket's unit.
abbrev pub token : TokenBucket → ℕ
token b = b.window * second

pub record Headers : Type 0 where
  pub limit : ℕ
  pub remaining : ℤ
  pub retry_after : Option ℕ

abbrev pub min_ℤ : ℤ → ℤ → ℤ
min_ℤ a b = if leb_ℤ a b then a else b

-- `int(x)` of x / n, which rounds towards zero.
abbrev pub truncated : ℤ → ℕ → ℤ
truncated (pos a) n = pos (a / n)
truncated (negsuc a) n = sub_ℕ 0 (suc a / n)

-- A header for a wait is written where it is not zero.
abbrev pub wait_header : Option ℕ → Option ℕ
wait_header none = none
wait_header (some n) = if eqb n 0 then none else some n

unfoldable pub headers : TokenBucket → Option ℕ → Headers
headers b retry = record {
  limit = b.capacity;
  remaining = truncated b.tokens (token b);
  retry_after = wait_header retry;
}

unfoldable pub refilled : ℕ → TokenBucket → TokenBucket
refilled now b = record b {
  tokens =
      min_ℤ (pos (b.capacity * token b))
        (b.tokens +ℤ sub_ℕ (now * b.requests) (b.last_refill * b.requests));
  last_refill = now;
}

-- The whole seconds until the missing tokens are there, and one more.
unfoldable pub wait_for : ℕ → TokenBucket → ℕ
wait_for tokens b = pos_part (pos (tokens * token b) -ℤ b.tokens) / (second * b.requests) + 1

abbrev pub spend : ℕ → TokenBucket → TokenBucket
spend tokens b = record b { tokens = b.tokens -ℤ pos (tokens * token b) }

unfoldable pub take_from : ℕ → Exec TokenBucket (Bool × Headers)
unfolding headers wait_for
take_from tokens b =
    if leb_ℤ (pos (tokens * token b)) b.tokens
    then (ok (true, headers (spend tokens b) none), spend tokens b)
    else if eqb b.requests 0
    then (raised (exn other_error "float division by zero"), b)
    else (ok (false, headers b (some (wait_for tokens b))), b)

unfoldable pub consume : ℕ → ℕ → Exec TokenBucket (Bool × Headers)
unfolding refilled take_from
consume tokens now b = take_from tokens (refilled now b)

unfoldable pub new_bucket : ℕ → RateLimitConfig → TokenBucket
new_bucket now c = record {
  capacity = c.burst;
  requests = c.requests;
  window = c.window;
  tokens = pos (c.burst * (c.window * second));
  last_refill = now;
}

pub record Request : Type 0 where
  pub method : String
  pub path : String
  pub tenant_id : Option String
  pub forwarded_for : Option String
  pub client : Option String

category_in : List (String × String) → String → String
category_in [] path = "default"
category_in ((prefix, category) ∷ rest) path =
    if starts_with path prefix then category else category_in rest path

unfoldable pub get_category : String → String
unfolding category_in
get_category path = category_in path_categories path

config_in : List (String × RateLimitConfig) → String → RateLimitConfig
config_in [] category = limits 60 60 10
config_in ((name, config) ∷ rest) category =
    if name == category then config else config_in rest category

-- `DEFAULT_LIMITS.get(category, DEFAULT_LIMITS["default"])`
unfoldable pub config_for : String → RateLimitConfig
unfolding config_in
config_for category = config_in default_limits category

unfoldable pub client_ip : Request → String
unfolding strip
client_ip r =
    if truthy r.forwarded_for
    then strip (split_first (or_else r.forwarded_for "") ",")
    else or_else r.client "unknown"

unfoldable pub get_key : Request → String → String
unfolding client_ip
get_key r category =
    if truthy r.tenant_id
    then "ratelimit:" <> category <> ":tenant:" <> or_else r.tenant_id ""
    else "ratelimit:" <> category <> ":ip:" <> client_ip r

-- The buckets in memory, and the part of the world that the Redis client and the application read.
abbrev pub Buckets : Type 0
Buckets = List (String × TokenBucket)

unfoldable pub bucket_at : String → Buckets → Option TokenBucket
bucket_at key [] = none
bucket_at key ((k, b) ∷ rest) = if k == key then some b else bucket_at key rest

unfoldable pub put_bucket : String → TokenBucket → Buckets → Buckets
put_bucket key b [] = (key, b) ∷ []
put_bucket key b ((k, c) ∷ rest) =
    if k == key then (key, b) ∷ rest else (k, c) ∷ put_bucket key b rest

-- What a check answers: whether the request may pass, the headers, and the status where not.
abbrev pub Answer : Type 0
Answer = Bool × Headers × Option ℕ

abbrev answered : Bool × Headers → Answer
answered (true, h) = (true, h, none)
answered (false, h) = (false, h, some 429)

abbrev answer_of : Result (Bool × Headers) → Result Answer
answer_of (ok a) = ok (answered a)
answer_of (raised e) = raised e

abbrev stored : String → Buckets → Result (Bool × Headers) × TokenBucket → Result Answer × Buckets
stored key bs (r, b) = (answer_of r, put_bucket key b bs)

unfoldable pub check_memory : ℕ → String → RateLimitConfig → Exec Buckets Answer
unfolding bucket_at put_bucket consume new_bucket
check_memory now key c bs = elim (bucket_at key bs) [
  | some b ↦ stored key bs (consume 1 now b)
  | none ↦
      if eqb c.window 0
      then (raised (exn other_error "division by zero"), bs)
      else stored key bs (consume 1 now (new_bucket now c))
]

-- `check` of a limiter without Redis.
unfoldable pub check_local : ℕ → Request → Exec Buckets Answer
unfolding get_category config_for get_key check_memory
check_local now r =
    let category = get_category r.path in
    check_memory now (get_key r category) (config_for category)
