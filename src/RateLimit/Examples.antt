-- ===== src/RateLimit/Examples.antt =====
-- A client with two failures of a limit of two.
use css360_syllabus_bot.Prelude.{◌+◌, ◌<◌, ◌≡◌, ◌↔◌, refl, arith, none, [], ◌∷◌}
use css360_syllabus_bot.Table.{find, update, count}
use css360_syllabus_bot.RateLimit.{
  RateLimiter, expire, times_of, put, prune, retry_after, record_failure,
}
use css360_syllabus_bot.RateLimit.Window.{is_recent, throttle_exact, wait_enough}
use css360_syllabus_bot.RateLimit.Failures.{failure_counts}

abbrev pub limiter : RateLimiter
limiter = record {
  limit = 2;
  window = 600000000;
  failures = record { key = "10.0.0.7"; times = 100 ∷ 200 ∷ [] } ∷ [];
}

throttle_exact_example :
    ((retry_after limiter "10.0.0.7" 300).0 ≡ none)
    ↔ (count (is_recent limiter.window 300) (times_of limiter.failures "10.0.0.7") < 2)
unfolding times_of find
throttle_exact_example = throttle_exact limiter "10.0.0.7" 300 ((omega arith, tt), (tt, tt))

wait_enough_example :
    (retry_after (retry_after limiter "10.0.0.7" 300).1 "10.0.0.7" (300 + 599999800)).0 ≡ none
unfolding times_of find count retry_after prune expire put update
wait_enough_example =
    wait_enough limiter "10.0.0.7" 300 599999800 (omega arith) ((omega arith, tt), (tt, tt)) refl
      refl

failure_counts_example :
    count
      (is_recent limiter.window 300)
      (times_of (record_failure limiter "10.0.0.7" 300).failures "10.0.0.7")
    ≡ count (is_recent limiter.window 300) (times_of limiter.failures "10.0.0.7") + 1
unfolding count
failure_counts_example = failure_counts limiter "10.0.0.7" 300 (omega arith) (λ key. ground arith)
