-- ===== src/RateLimit/Steps.antt =====
-- apps/runtime/citadel/middleware/rate_limit.py: what one check does to the bucket of a key,
-- its own or another's.
use ledger_sdk.Prelude.{
  ℕ, ◌+◌, ◌*◌, ◌≤◌, ◌≡◌, refl, ap, ◌∙◌, String, Bool, true, false, Option, none, some, [], ◌∷◌,
  ◌==◌, pos_part, if◌then◌else◌, arith, Option-cases, if_false, inl, inr, eq_iff, eq_refl, eqb,
}
use ledger_sdk.Exec.{Result, ok, raised, exn, other_error}
use ledger_sdk.RateLimit.{
  RateLimitConfig, TokenBucket, Headers, Answer, Buckets, Request, second, consume, new_bucket,
  bucket_at, put_bucket, check_memory, check_local, get_key, get_category, config_for, answer_of,
  stored,
}
use ledger_sdk.RateLimit.Refill.{Sound, gained, mul_mono, consume-Sound}

-- The requests that pass.
abbrev pub passes : Result Answer → ℕ
passes (ok (true, h, status)) = 1
passes (ok (false, h, status)) = 0
passes (raised e) = 0

abbrev pub key_of : Request → String
key_of r = get_key r (get_category r.path)

pub bucket_at-put_bucket :
    (key k : String) (b : TokenBucket) (bs : Buckets)
    → bucket_at key (put_bucket k b bs) ≡ (if k == key then some b else bucket_at key bs)
unfolding bucket_at put_bucket
bucket_at-put_bucket key k b [] = refl
bucket_at-put_bucket key k b ((j, c) ∷ bs) =
    ground (arith, eq_iff k key, eq_iff j key, eq_iff j k, bucket_at-put_bucket key k b bs)

-- What is known of the bucket of a key, and what it may still let pass: the tokens, and the instant
-- from which they grow.
abbrev pub Held : RateLimitConfig → ℕ → Option TokenBucket → Type 0
Held c now none = Unit
Held c now (some b) = Sound c b × (b.last_refill ≤ now)

abbrev pub tokens_left : RateLimitConfig → Option TokenBucket → ℕ
tokens_left c none = c.burst * (c.window * second)
tokens_left c (some b) = pos_part b.tokens

abbrev pub grows_from : ℕ → Option TokenBucket → ℕ
grows_from now none = now
grows_from now (some b) = b.last_refill

pub new_bucket-Sound : (now : ℕ) (c : RateLimitConfig) → Sound c (new_bucket now c)
unfolding new_bucket
new_bucket-Sound now c = ground arith

pub new_bucket-now : (now : ℕ) (c : RateLimitConfig) → (new_bucket now c).last_refill ≤ now
unfolding new_bucket
new_bucket-now now c = omega arith

passes-gained : (r : Result (Bool × Headers)) → passes (answer_of r) ≡ gained r
passes-gained (ok (true, h)) = refl
passes-gained (ok (false, h)) = refl
passes-gained (raised e) = refl

-- The step of one key: what is true of the bucket it had, or gets, is true of the one it leaves.
abbrev pub Stepped :
    String → RateLimitConfig → ℕ → ℕ → Option TokenBucket → Result Answer × Buckets → Type 0
Stepped key c start now old (answer, bs') =
    Held c now (bucket_at key bs')
    × (tokens_left c (bucket_at key bs')
          + passes answer * (c.window * second)
          + grows_from start old * c.requests
        ≤ tokens_left c old + grows_from now (bucket_at key bs') * c.requests)

step_bucket :
    (key : String) (c : RateLimitConfig) (now : ℕ) (bs : Buckets) (b : TokenBucket)
    → Sound c b
    → b.last_refill ≤ now
    → Stepped key c now now (some b) (stored key bs (consume 1 now b))
step_bucket key c now bs b s h =
    let (sound, at, left) = consume-Sound now s h in
    rw (bucket_at-put_bucket key key (consume 1 now b).1 bs, eq_refl key)
      (
        (sound, omega arith),
        omega (
          arith,
          ap (λ (n : ℕ). n * c.requests) at,
          ap (λ (n : ℕ). n * (c.window * second)) (passes-gained (consume 1 now b).0),
        ),
      )

pub check_memory_old :
    (now : ℕ) (key : String) (c : RateLimitConfig) (bs : Buckets) (b : TokenBucket)
    → bucket_at key bs ≡ some b
    → check_memory now key c bs ≡ stored key bs (consume 1 now b)
unfolding check_memory
check_memory_old now key c bs b e = rw (e, check_memory)

pub check_memory_new :
    (now : ℕ) (key : String) (c : RateLimitConfig) (bs : Buckets)
    → bucket_at key bs ≡ none
    → check_memory now key c bs ≡ (
        if eqb c.window 0
        then (raised (exn other_error "division by zero"), bs)
        else stored key bs (consume 1 now (new_bucket now c)))
unfolding check_memory
check_memory_new now key c bs e = rw (e, check_memory)

-- A new bucket counts as one that has had the burst since any earlier instant.
new_level :
    (c : RateLimitConfig) (now start level paid after : ℕ)
    → level + paid + (new_bucket now c).last_refill * c.requests
      ≤ pos_part (new_bucket now c).tokens + after
    → start * c.requests ≤ now * c.requests
    → level + paid + start * c.requests ≤ c.burst * (c.window * second) + after
unfolding new_bucket
new_level c now start level paid after left le = omega arith

-- A check of the key itself.
check_memory-Stepped :
    (key : String) (c : RateLimitConfig) (start now : ℕ) (bs : Buckets) (old : Option TokenBucket)
    → bucket_at key bs ≡ old
    → start ≤ now
    → Held c start old
    → Stepped key c start now old (check_memory now key c bs)
check_memory-Stepped key c start now bs (some b) e le held =
    rw (check_memory_old now key c bs b e) (step_bucket key c now bs b held.0 (omega arith))
check_memory-Stepped key c start now bs none e le held =
    rw (check_memory_new now key c bs e)
      (elim (eqb c.window 0)
        as (λ (t : Bool). Stepped key c start now none (
          if t
          then (raised (exn other_error "division by zero"), bs)
          else stored key bs (consume 1 now (new_bucket now c)))) [
            | true ↦ rw e (tt, omega (arith, mul_mono start now c.requests le))
            | false ↦
                let (fits, left) =
                  step_bucket key c now bs (new_bucket now c) (new_bucket-Sound now c)
                    (new_bucket-now now c) in
                (fits, new_level c now start _ _ _ left (mul_mono start now c.requests le))
          ])

-- A check of another key.
check_memory-other :
    (key k : String) (c : RateLimitConfig) (now : ℕ) (bs : Buckets)
    → (k == key) ≡ false
    → bucket_at key (check_memory now k c bs).1 ≡ bucket_at key bs
check_memory-other key k c now bs e = elim (Option-cases (bucket_at k bs)) [
  | inr (b, old) ↦ rw (check_memory_old now k c bs b old) (put_elsewhere (consume 1 now b).1)
  | inl new ↦
      rw (check_memory_new now k c bs new)
        (elim (eqb c.window 0)
          as (λ (t : Bool).
            bucket_at key
              (if t
                then (raised (exn other_error "division by zero"), bs)
                else stored k bs (consume 1 now (new_bucket now c))).1
            ≡ bucket_at key bs) [
              | true ↦ refl
              | false ↦ put_elsewhere (consume 1 now (new_bucket now c)).1
            ])
]
  where
    put_elsewhere : (b : TokenBucket) → bucket_at key (put_bucket k b bs) ≡ bucket_at key bs
    put_elsewhere b = bucket_at-put_bucket key k b bs ∙ if_false (k == key) _ _ e

pub grows_from_mono :
    (o : Option TokenBucket) (start now : ℕ) → start ≤ now → grows_from start o ≤ grows_from now o
grows_from_mono none start now h = h
grows_from_mono (some b) start now h = omega arith

pub Held-mono :
    (c : RateLimitConfig) (o : Option TokenBucket) {start now : ℕ}
    → start ≤ now
    → Held c start o
    → Held c now o
Held-mono c none h held = tt
Held-mono c (some b) h held = (held.0, omega arith)

pub grows_from-le :
    (c : RateLimitConfig) (o : Option TokenBucket) {start stop : ℕ}
    → start ≤ stop
    → Held c start o
    → grows_from start o ≤ stop
grows_from-le c none h held = h
grows_from-le c (some b) h held = omega arith

abbrev pub SameConfig : String → RateLimitConfig → Type 0
SameConfig key c = (r : Request) → key_of r ≡ key → config_for (get_category r.path) ≡ c

pub check_local-own :
    (key : String) (c : RateLimitConfig) (start now : ℕ) (r : Request) (bs : Buckets)
    → SameConfig key c
    → key_of r ≡ key
    → start ≤ now
    → Held c start (bucket_at key bs)
    → Stepped key c start now (bucket_at key bs) (check_local now r bs)
unfolding check_local
check_local-own key c start now r bs same mine le held =
    rw (mine, same r mine) (check_memory-Stepped key c start now bs (bucket_at key bs) refl le held)

pub check_local-other :
    (key : String) (now : ℕ) (r : Request) (bs : Buckets)
    → (key_of r == key) ≡ false
    → bucket_at key (check_local now r bs).1 ≡ bucket_at key bs
unfolding check_local
check_local-other key now r bs e =
    check_memory-other key (key_of r) (config_for (get_category r.path)) now bs e
