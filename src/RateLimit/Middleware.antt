-- ===== src/RateLimit/Middleware.antt =====
-- apps/runtime/citadel/middleware/rate_limit.py: the two middlewares, which hand a request to the
-- application or answer it themselves. The application is a parameter.
use ledger_sdk.Prelude.{
  ℕ, String, true, false, not, Option, none, some, List, [], ◌∷◌, ◌==◌, ◌<>◌, mem_str, or_else,
  if◌then◌else◌,
}
use ledger_sdk.Exec.{Exec, Result, ◌>>=◌, pure}
use ledger_sdk.RateLimit.{RateLimitConfig, Headers, Answer, Request, limits, client_ip}
use ledger_sdk.RateLimit.Redis.{Redis, Limiter, check, check_key}

-- A response: what the application or the middleware answers, and the headers of the limits.
pub record Response : Type 0 where
  pub status : ℕ
  pub error : Option String
  pub retry_after : Option ℕ
  pub limits : Option Headers

-- `EXEMPT_PATHS`
abbrev pub exempt_paths : List String
exempt_paths =
    "/health" ∷ "/healthz" ∷ "/v1/health" ∷ "/v1/health/ready" ∷ "/v1/health/live" ∷ "/docs"
    ∷ "/openapi.json" ∷ "/redoc" ∷ "/metrics" ∷ []

-- `AUTH_LIMITS`
unfoldable pub auth_limits : String → Option RateLimitConfig
auth_limits path =
    if path == "/auth/login"
    then some (limits 5 300 3)
    else if path == "/auth/refresh"
    then some (limits 10 60 5)
    else if path == "/auth/keys"
    then some (limits 3 3600 2)
    else none

abbrev pub with_limits : Headers → Response → Response
with_limits h response = record response { limits = some h }

abbrev pub refusal : String → ℕ → Headers → ℕ → Response
refusal error wait h status = record {
  status = status;
  error = some error;
  retry_after = some (or_else h.retry_after wait);
  limits = some h;
}

module _ {I : Type 0} (call_next : Request → Exec I Response) where
  abbrev kept_buckets : Limiter I → Result Response × I → Result Response × Limiter I
  kept_buckets l (r, i) = (r, record l { outside = i })

  -- `call_next`, which leaves the buckets alone.
  unfoldable pub forward : Request → Exec (Limiter I) Response
  forward r l = kept_buckets l (call_next r l.outside)

  unfoldable pub respond : String → ℕ → Request → Answer → Exec (Limiter I) Response
  unfolding forward ◌>>=◌
  respond error wait r (true, h, status) = do response ← forward r; pure (with_limits h response)
  respond error wait r (false, h, status) = pure (refusal error wait h (or_else status 429))

  -- `RateLimitMiddleware.dispatch`
  unfoldable pub dispatch : Option (Redis I) → ℕ → Request → Exec (Limiter I) Response
  unfolding forward respond check ◌>>=◌
  dispatch redis now r =
      if mem_str r.path exempt_paths
      then forward r
      else check redis now r >>= respond "rate_limit_exceeded" 60 r

  abbrev auth_key : Request → String
  auth_key r = "ratelimit:auth:" <> r.path <> ":ip:" <> client_ip r

  abbrev limited :
      Option (Redis I) → ℕ → Request → Option RateLimitConfig → Exec (Limiter I) Response
  limited redis now r none = forward r
  limited redis now r (some c) =
      check_key redis now (auth_key r) c >>= respond "auth_rate_limit_exceeded" 300 r

  -- `AuthRateLimitMiddleware.dispatch`
  unfoldable pub dispatch_auth : Option (Redis I) → ℕ → Request → Exec (Limiter I) Response
  unfolding forward respond check_key auth_limits ◌>>=◌
  dispatch_auth redis now r =
      if not (r.method == "POST") then forward r else limited redis now r (auth_limits r.path)
