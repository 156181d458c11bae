-- ===== src/RateLimit/Answers.antt =====
-- apps/runtime/citadel/middleware/rate_limit.py: the limiter's answers, after any run of requests.
use mathlib.Core.Path.{subst}
use ledger_sdk.Prelude.{
  ℕ, ◌+◌, ◌*◌, ◌≤◌, ◌<◌, ◌≡◌, inl, inr, refl, sym, ap, ◌∙◌, String, Bool, true, false, Option, none,
  some, List, [], ◌==◌, arith, eqb, All, or_else, eq_refl, false_elim, if_true,
}
use ledger_sdk.Exec.{Result, ok, raised}
use ledger_sdk.RateLimit.{
  RateLimitConfig, TokenBucket, Headers, Answer, Buckets, Request, second, consume, take_from,
  refilled, headers, wait_for, bucket_at, check_memory, check_local, get_category, config_for,
  new_bucket, stored, answer_of,
}
use ledger_sdk.RateLimit.Keys.{get_key-config}
use ledger_sdk.RateLimit.Refill.{Sound, refilled-Sound, refilled_at}
use ledger_sdk.RateLimit.Retry.{IsLive, config_for-IsLive, take-answers, wait_passes}
use ledger_sdk.RateLimit.Steps.{
  key_of, Held, bucket_at-put_bucket, check_memory_old, check_memory_new, new_bucket-Sound,
  new_bucket-now,
}
use ledger_sdk.RateLimit.Budget.{after, InOrder, after-Held, after-other}

-- The bucket that a check consumes from.
abbrev used : RateLimitConfig → ℕ → Option TokenBucket → TokenBucket
used c now none = new_bucket now c
used c now (some b) = b

used-Sound :
    (c : RateLimitConfig) (now : ℕ) (o : Option TokenBucket)
    → Held c now o
    → Sound c (used c now o) × ((used c now o).last_refill ≤ now)
used-Sound c now none held = (new_bucket-Sound now c, new_bucket-now now c)
used-Sound c now (some b) held = held

check_memory-used :
    (now : ℕ) (key : String) (c : RateLimitConfig) (bs : Buckets) (o : Option TokenBucket)
    → IsLive c
    → bucket_at key bs ≡ o
    → check_memory now key c bs ≡ stored key bs (consume 1 now (used c now o))
check_memory-used now key c bs (some b) live e = check_memory_old now key c bs b e
check_memory-used now key c bs none live e =
    check_memory_new now key c bs e ∙ rw (not_empty c.window live.has_window)
  where
    not_empty : (n : ℕ) → 0 < n → eqb n 0 ≡ false
    not_empty n h = ground arith

-- The wait of an answer, in seconds.
abbrev pub wait_of : Headers → ℕ
wait_of h = or_else h.retry_after 0

retry_after-headers :
    (b : TokenBucket) → (headers b (some (wait_for 1 b))).retry_after ≡ some (wait_for 1 b)
unfolding headers wait_for
retry_after-headers b = ground arith

-- An answer's wait is written in it, and is not zero.
abbrev pub NamesWait : Headers → Type 0
NamesWait h = (h.retry_after ≡ some (wait_of h)) × (0 < wait_of h)

headers-NamesWait : (b : TokenBucket) → NamesWait (headers b (some (wait_for 1 b)))
unfolding wait_for
headers-NamesWait b = rw (retry_after-headers b) (refl, omega arith)

abbrev letting : Bool → Headers → Result (Bool × Headers)
letting allowed h = ok (allowed, h)

letting-allowed : {a b : Bool} {x y : Headers} → letting a x ≡ letting b y → a ≡ b
letting-allowed e = cc

letting-headers : {a b : Bool} {x y : Headers} → letting a x ≡ letting b y → x ≡ y
letting-headers e = cc

take-retry :
    (c : RateLimitConfig) (b : TokenBucket) (now later : ℕ) (h : Headers)
    → IsLive c
    → Sound c b
    → b.last_refill ≡ now
    → (take_from 1 b).0 ≡ letting false h
    → now + wait_of h * second ≤ later
    → NamesWait h × (h' : Headers) × ((consume 1 later (take_from 1 b).1).0 ≡ letting true h')
unfolding consume
take-retry c b now later h live s at refused wait = elim (take-answers c b live s) [
  | inl (h', passed) ↦ false_elim (letting-allowed (sym refused ∙ passed))
  | inr left ↦
      let shown : headers b (some (wait_for 1 b)) ≡ h =
        letting-headers {a = false}
          (sym (ap (λ (x : Result (Bool × Headers) × TokenBucket). x.0) left) ∙ refused) in
      let (h', passes) = wait_passes c b later live s (
        in_time b now later at
          (subst (λ (g : Headers). now + wait_of g * second ≤ later) (sym shown) wait)) in
      (
        subst (λ (g : Headers). NamesWait g) shown (headers-NamesWait b),
        h',
        subst
            (λ (x : Result (Bool × Headers) × TokenBucket).
              (consume 1 later x.1).0 ≡ letting true h')
            (sym left) passes,
      )
]
  where
    in_time :
        (b : TokenBucket) (now later : ℕ)
        → b.last_refill ≡ now
        → now + wait_of (headers b (some (wait_for 1 b))) * second ≤ later
        → b.last_refill + wait_for 1 b * second ≤ later
    in_time b now later at h = rw at (rw (retry_after-headers b) at h)

consume-retry :
    (c : RateLimitConfig) (b : TokenBucket) (now later : ℕ) (h : Headers)
    → IsLive c
    → Sound c b × (b.last_refill ≤ now)
    → (consume 1 now b).0 ≡ letting false h
    → now + wait_of h * second ≤ later
    → NamesWait h × (h' : Headers) × ((consume 1 later (consume 1 now b).1).0 ≡ letting true h')
unfolding consume
consume-retry c b now later h live (s, le) refused wait =
    take-retry c (refilled now b) now later h live (refilled-Sound now s le).0 (refilled_at now b)
      refused wait

answer_of-refused :
    (r : Result (Bool × Headers)) (h : Headers)
    → answer_of r ≡ ok (false, h, some 429)
    → r ≡ letting false h
answer_of-refused (ok (true, g)) h e = cc
answer_of-refused (ok (false, g)) h e = cc
answer_of-refused (raised x) h e = cc

check_local-used :
    (now : ℕ) (r : Request) (bs : Buckets) (o : Option TokenBucket)
    → bucket_at (key_of r) bs ≡ o
    → check_local now r bs
      ≡ stored (key_of r) bs (consume 1 now (used (config_for (get_category r.path)) now o))
unfolding check_local
check_local-used now r bs o e =
    check_memory-used now (key_of r) (config_for (get_category r.path)) bs o
      (config_for-IsLive (get_category r.path)) e

bucket_at-stored :
    (key : String) (bs : Buckets) (x : Result (Bool × Headers) × TokenBucket)
    → bucket_at key (stored key bs x).1 ≡ some x.1
bucket_at-stored key bs (r, b) =
    bucket_at-put_bucket key key b bs ∙ if_true (key == key) _ _ (eq_refl key)

-- Without Redis, after any run of requests at instants in order from no buckets, a request that is
-- refused is told a wait of one second or more, and the same request passes at any instant no
-- earlier than that wait, whatever requests of other keys come in between.
pub check_local-retry :
    (r : Request) (start now later : ℕ) (log between : List (ℕ × Request)) (h : Headers)
    → InOrder start now log
    → (check_local now r (after log [])).0 ≡ ok (false, h, some 429)
    → All (λ (e : ℕ × Request). (key_of e.1 == key_of r) ≡ false) between
    → now + wait_of h * second ≤ later
    → NamesWait h
      × (h' : Headers) × ((check_local later r
            (after between (check_local now r (after log [])).1)).0
          ≡ ok (true, h', none))
unfolding bucket_at
check_local-retry r start now later log between h order refused others wait =
    let c = config_for (get_category r.path) in
    let key = key_of r in
    let bs = after log [] in
    let o = bucket_at key bs in
    let held = after-Held key c start now log [] (get_key-config r) order tt in
    let first = check_local-used now r bs o refl in
    let (named, h', passes) =
      consume-retry c (used c now o) now later h (config_for-IsLive (get_category r.path))
        (used-Sound c now o held)
        (answer_of-refused _ h (sym (ap (λ (x : Result Answer × Buckets). x.0) first) ∙ refused))
        wait in
    let kept =
      after-other key between (check_local now r bs).1 others
      ∙ ap (λ (x : Result Answer × Buckets). bucket_at key x.1) first
      ∙ bucket_at-stored key bs (consume 1 now (used c now o)) in
    let second_check =
      check_local-used later r (after between (check_local now r bs).1)
        (some (consume 1 now (used c now o)).1) kept in
    (named, h', ap (λ (x : Result Answer × Buckets). x.0) second_check ∙ ap answer_of passes)
