-- ===== src/RateLimit.antt =====
-- backend/app/auth/rate_limit.py: the sliding window that throttles guesses of credentials. Times
-- are microseconds of the monotonic clock, which each operation takes as `now`.
pub mod Window
pub mod Failures
pub mod Examples
use mathlib.Core.Option
use css360_syllabus_bot.Prelude.{
  ℕ, ◌+◌, ◌-◌, Bool, true, false, not, String, Option, none, some, List, [], ◌∷◌, ◌++◌, any, length,
  map, ltb, leb, ◌==◌, string_eq, if◌then◌else◌,
}
use css360_syllabus_bot.Table.{find, select, update, insert}

-- An entry of the dictionary of failures: a client's key and the times of its failures.
pub record Bucket : Type 0 where
  pub key : String
  pub times : List ℕ

pub record RateLimiter : Type 0 where
  pub limit : ℕ
  pub window : ℕ
  pub failures : List Bucket

abbrev pub has_key : String → Bucket → Bool
has_key key bucket = bucket.key == key

-- while bucket and bucket[0] <= now - window: bucket.popleft()
unfoldable pub expire : ℕ → ℕ → List ℕ → List ℕ
expire window now [] = []
expire window now (t ∷ times) =
    let rest = expire window now times in if leb (t + window) now then rest else t ∷ times

-- The failures under a key, none where the dictionary has no such key.
unfoldable pub times_of : List Bucket → String → List ℕ
times_of failures key = elim (find (has_key key) failures) [
  | none ↦ []
  | some bucket ↦ bucket.times
]

-- failures[key] = times
unfoldable pub put : String → List ℕ → List Bucket → List Bucket
put key times failures =
    if any (has_key key) failures
    then update (has_key key) (λ bucket. record bucket { times = times }) failures
    else insert (record { key = key; times = times }) failures

-- failures.pop(key, None)
unfoldable pub drop : String → List Bucket → List Bucket
drop key failures = select (λ bucket. not (has_key key bucket)) failures

unfoldable pub prune : RateLimiter → String → ℕ → List ℕ × RateLimiter
unfolding expire times_of put
prune limiter key now =
    let times = expire limiter.window now (times_of limiter.failures key) in
    (times, record limiter { failures = put key times limiter.failures })

abbrev pub is_empty : List ℕ → Bool
is_empty [] = true
is_empty (t ∷ times) = false

-- max(1.0, bucket[0] + window - now); every limit of the code is positive, so the bucket has a first.
abbrev pub wait_for : ℕ → ℕ → List ℕ → ℕ
wait_for window now [] = 1000000
wait_for window now (t ∷ times) =
    let wait = t + window - now in if ltb wait 1000000 then 1000000 else wait

-- None where the client may try now.
unfoldable pub retry_after : RateLimiter → String → ℕ → Option ℕ × RateLimiter
unfolding prune drop
retry_after limiter key now =
    let (times, pruned) = prune limiter key now in
    if ltb (length times) limiter.limit
    then (
      none,
      if is_empty times then record pruned { failures = drop key pruned.failures } else pruned,
    )
    else (some (wait_for limiter.window now times), pruned)

-- Every bucket is pruned, and the empty ones go.
unfoldable pub sweep : RateLimiter → ℕ → RateLimiter
unfolding expire
sweep limiter now = record limiter {
  failures =
      select (λ bucket. not (is_empty bucket.times))
        (map {A = Bucket} {B = Bucket}
          (λ bucket. record bucket { times = expire limiter.window now bucket.times })
          limiter.failures);
}

unfoldable pub record_failure : RateLimiter → String → ℕ → RateLimiter
unfolding prune put sweep
record_failure limiter key now =
    let (times, pruned) = prune limiter key now in
    let failed = record pruned { failures = put key (times ++ now ∷ []) pruned.failures } in
    if ltb 10000 (length failed.failures) then sweep failed now else failed

unfoldable pub reset : RateLimiter → String → RateLimiter
unfolding drop
reset limiter key = record limiter { failures = drop key limiter.failures }

unfoldable pub clear : RateLimiter → RateLimiter
clear limiter = record limiter { failures = [] }
