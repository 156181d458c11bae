-- ===== src/Scenarios/Limits.antt =====
-- Runs of the rate limiter, and the limits applied to them.
use ledger_sdk.Prelude.{
  ℕ, ◌*◌, ◌+◌, ◌-◌, ◌≤◌, ◌≡◌, refl, true, false, none, some, List, [], ◌∷◌, ◌+ℤ◌, ◌-ℤ◌, pos, arith,
}
use ledger_sdk.Exec.{ok}
use ledger_sdk.RateLimit.{
  Request, Headers, second, check_local, get_category, get_key, config_for, limits,
}
use ledger_sdk.RateLimit.Redis.{window_answer, window_wait}
use ledger_sdk.RateLimit.Steps.{key_of}
use ledger_sdk.RateLimit.Budget.{passed, passed-bound, after}
use ledger_sdk.RateLimit.Answers.{NamesWait, check_local-retry}

abbrev login : Request
login = record {
  method = "POST";
  path = "/auth/login";
  tenant_id = none;
  forwarded_for = some "10.0.0.1, proxy";
  client = none;
}

abbrev health : Request
health = record login { path = "/v1/health"; tenant_id = some "acme" }

abbrev burst_of_logins : List (ℕ × Request)
burst_of_logins =
    (1_000_000, login) ∷ (1_000_000, login) ∷ (1_000_000, health) ∷ (1_500_000, login) ∷ []

abbrev refused_headers : Headers
refused_headers = record { limit = 3; remaining = pos 0; retry_after = some 12 }

test_key : key_of login ≡ "ratelimit:auth:ip:10.0.0.1"
unfolding get_category get_key
test_key = refl

test_refused :
    (check_local 1_500_000 login (after burst_of_logins [])).0
    ≡ ok (false, refused_headers, some 429)
unfolding check_local after ◌+ℤ◌ ◌-ℤ◌
test_refused = refl

passed-bound_example :
    passed (key_of login) burst_of_logins [] * (60 * second)
    ≤ 3 * (60 * second) + (2_000_000 - 1_000_000) * 5
unfolding config_for get_category
passed-bound_example = passed-bound login 1_000_000 2_000_000 burst_of_logins (omega arith)

check_local-retry_example :
    NamesWait refused_headers
    × (h' : Headers) × ((check_local 13_500_000 login (
          after
            ((2_000_000, health) ∷ [])
            (check_local 1_500_000 login (after burst_of_logins [])).1)).0
        ≡ ok (true, h', none))
unfolding get_category get_key
check_local-retry_example =
    check_local-retry login 1_000_000 1_500_000 13_500_000 burst_of_logins
      ((2_000_000, health) ∷ []) refused_headers (omega arith) test_refused (refl, tt) (omega arith)

-- With Redis, a request that finds as many others in its window as there may be is let pass.
test_window : (window_answer 90_000_000 (limits 5 60 3) 5).0 ≡ true
unfolding window_answer
test_window = refl

test_window_wait : window_wait 90_000_000 (limits 5 60 3) ≡ pos 1
unfolding window_wait ◌+ℤ◌ ◌-ℤ◌
test_window_wait = refl
