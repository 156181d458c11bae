-- ===== src/RateLimit/Budget.antt =====
-- apps/runtime/citadel/middleware/rate_limit.py: how many requests of one key the buckets in memory
-- let pass.
use ledger_sdk.Prelude.{
  ℕ, ◌+◌, ◌-◌, ◌*◌, ◌≤◌, ◌≡◌, refl, ap, ◌∙◌, String, false, List, [], ◌∷◌, ◌==◌, if◌then◌else◌,
  arith, All, Bool-cases, inl, inr, eq_iff,
}
use ledger_sdk.RateLimit.{
  RateLimitConfig, Buckets, Request, second, bucket_at, check_local, get_category, config_for,
}
use ledger_sdk.RateLimit.Keys.{get_key-config}
use ledger_sdk.RateLimit.Refill.{mul_mono}
use ledger_sdk.RateLimit.Steps.{
  passes, key_of, Held, tokens_left, grows_from, SameConfig, grows_from_mono, Held-mono,
  grows_from-le, check_local-own, check_local-other,
}

-- How many requests of the key pass, where the requests come one by one.
unfoldable pub passed : String → List (ℕ × Request) → Buckets → ℕ
passed key [] bs = 0
passed key ((now, r) ∷ rest) bs =
    let (answer, bs') = check_local now r bs in
    (if key_of r == key then passes answer else 0) + passed key rest bs'

-- The clock does not go back between `start` and `end`.
abbrev pub InOrder : ℕ → ℕ → List (ℕ × Request) → Type 0
InOrder start stop [] = start ≤ stop
InOrder start stop ((now, r) ∷ rest) = (start ≤ now) × InOrder now stop rest

-- The buckets after a run of requests.
unfoldable pub after : List (ℕ × Request) → Buckets → Buckets
after [] bs = bs
after ((now, r) ∷ rest) bs = after rest (check_local now r bs).1

paid_both :
    (p q unit left grown before tokens after : ℕ)
    → left + p * unit + before ≤ tokens + grown
    → q * unit + grown ≤ left + after
    → (p + q) * unit + before ≤ tokens + after
paid_both p q unit left grown before tokens after h k = grind arith

paid_none : (q unit before after : ℕ) → q * unit + before ≤ after → (0 + q) * unit + before ≤ after
paid_none q unit before after h = grind arith

-- From buckets of any content: what passes is paid from the tokens of the key and their growth.
passed-le :
    (key : String) (c : RateLimitConfig) (start stop : ℕ) (log : List (ℕ × Request)) (bs : Buckets)
    → SameConfig key c
    → InOrder start stop log
    → Held c start (bucket_at key bs)
    → passed key log bs * (c.window * second) + grows_from start (bucket_at key bs) * c.requests
      ≤ tokens_left c (bucket_at key bs) + stop * c.requests
unfolding passed
passed-le key c start stop [] bs same order held = omega (
  arith,
  mul_mono (grows_from start (bucket_at key bs)) stop c.requests
      (grows_from-le c (bucket_at key bs) order held),
)
passed-le key c start stop ((now, r) ∷ log) bs same (le, order) held =
    elim (Bool-cases (key_of r == key)) [
      | inl mine ↦
          let (held', step) =
            check_local-own key c start now r bs same ((eq_iff (key_of r) key).0 mine) le held in
          let rest = passed-le key c now stop log (check_local now r bs).1 same order held' in
          rw mine (
            paid_both (passes (check_local now r bs).0) (passed key log (check_local now r bs).1) _
              _ _ _ _ _ step rest)
      | inr other ↦
          let kept = check_local-other key now r bs other in
          let rest =
            passed-le key c now stop log (check_local now r bs).1 same order
              (rw kept (Held-mono c (bucket_at key bs) le held)) in
          rw other (
            paid_none (passed key log (check_local now r bs).1) (c.window * second) _ _ (
              omega (
                arith,
                ap (λ o. grows_from now o * c.requests) kept,
                ap (tokens_left c) kept,
                mul_mono (grows_from start (bucket_at key bs)) (grows_from now (bucket_at key bs))
                    c.requests (grows_from_mono (bucket_at key bs) start now le),
              )))
    ]

growth :
    (paid burst r start stop : ℕ)
    → start ≤ stop
    → paid + start * r ≤ burst + stop * r
    → paid ≤ burst + (stop - start) * r
growth paid burst r start stop le h = grind arith

InOrder-le : (start stop : ℕ) (log : List (ℕ × Request)) → InOrder start stop log → start ≤ stop
InOrder-le start stop [] order = order
InOrder-le start stop ((now, r) ∷ log) (le, order) = omega (arith, InOrder-le now stop log order)

-- From no buckets and without Redis, in any run of requests at instants in order between a start
-- and a stop, the requests with the key of a given one that the check lets pass are at most the
-- burst of its category plus what the rate of the category gives in that time; the requests of
-- other keys in between do not matter.
pub passed-bound :
    (r : Request) (start stop : ℕ) (log : List (ℕ × Request))
    → InOrder start stop log
    → let c = config_for (get_category r.path) in
      passed (key_of r) log [] * (c.window * second)
      ≤ c.burst * (c.window * second) + (stop - start) * c.requests
unfolding bucket_at
passed-bound r start stop log order =
    let c = config_for (get_category r.path) in
    let h = passed-le (key_of r) c start stop log [] (get_key-config r) order tt in
    growth (passed (key_of r) log [] * (c.window * second)) (c.burst * (c.window * second))
      c.requests start stop (InOrder-le start stop log order) h

-- The bucket of a key after a run belongs to the key's configuration.
pub after-Held :
    (key : String) (c : RateLimitConfig) (start stop : ℕ) (log : List (ℕ × Request)) (bs : Buckets)
    → SameConfig key c
    → InOrder start stop log
    → Held c start (bucket_at key bs)
    → Held c stop (bucket_at key (after log bs))
unfolding after
after-Held key c start stop [] bs same order held = Held-mono c (bucket_at key bs) order held
after-Held key c start stop ((now, r) ∷ log) bs same (le, order) held =
    after-Held key c now stop log (check_local now r bs).1 same order
      (elim (Bool-cases (key_of r == key)) [
        | inl mine ↦
            (check_local-own key c start now r bs same ((eq_iff (key_of r) key).0 mine) le held).0
        | inr other ↦
            rw (check_local-other key now r bs other) (Held-mono c (bucket_at key bs) le held)
      ])

-- Requests of other keys leave the bucket as it was.
pub after-other :
    (key : String) (log : List (ℕ × Request)) (bs : Buckets)
    → All (λ (e : ℕ × Request). (key_of e.1 == key) ≡ false) log
    → bucket_at key (after log bs) ≡ bucket_at key bs
unfolding after
after-other key [] bs all = refl
after-other key ((now, r) ∷ log) bs (here, all) =
    after-other key log (check_local now r bs).1 all ∙ check_local-other key now r bs here
