-- ===== src/RateLimit/Failures.antt =====
-- A failure that is recorded counts, also where the dictionary is swept.
use css360_syllabus_bot.Prelude.{
  ℕ, ◌+◌, ◌≤◌, ◌≡◌, refl, ◌∙◌, true, false, not, String, List, [], ◌∷◌, ◌++◌, any, length, map, ltb,
  arith, string_eq, eq_iff, Bool-cases, inl, inr,
}
use css360_syllabus_bot.Table.{find, select, count}
use css360_syllabus_bot.Table.Laws.{count-update_same, count-insert, find-none-count}
use css360_syllabus_bot.Table.Members.{any-false-count}
use css360_syllabus_bot.RateLimit.{
  Bucket, RateLimiter, has_key, expire, times_of, put, prune, is_empty, sweep, record_failure,
}
use css360_syllabus_bot.RateLimit.Window.{is_recent, times_of-put}

-- A dictionary has each key once.
abbrev pub IsKeyed : List Bucket → Type 0
IsKeyed failures = (key : String) → count (has_key key) failures ≤ 1

count-expire :
    (window now : ℕ) (times : List ℕ)
    → count (is_recent window now) (expire window now times) ≡ count (is_recent window now) times
unfolding count expire
count-expire window now [] = refl
count-expire window now (t ∷ times) = ground (arith, count-expire window now times)

count-append :
    (window now : ℕ) (times : List ℕ)
    → 1 ≤ window
    → count (is_recent window now) (times ++ now ∷ []) ≡ count (is_recent window now) times + 1
unfolding count
count-append window now [] w = ground arith
count-append window now (t ∷ times) w = ground (arith, count-append window now times w)

put-IsKeyed :
    (key : String) (times : List ℕ) (failures : List Bucket)
    → IsKeyed failures
    → IsKeyed (put key times failures)
unfolding put
put-IsKeyed key times failures u k = elim (Bool-cases (any (has_key key) failures)) [
  | inl there ↦
      rw
        (
          there,
          count-update_same (has_key k) (has_key key) (λ b. record b { times = times }) failures
              (λ b. refl),
        )
        (u k)
  | inr missing ↦ rw missing (
      ground (
        arith,
        count-insert (has_key k) (record { key = key; times = times }) failures,
        u k,
        eq_iff key k,
        any-false-count (has_key key) failures missing,
      ))
]

swept : ℕ → ℕ → List Bucket → List Bucket
swept window now failures =
    select (λ bucket. not (is_empty bucket.times))
      (map {A = Bucket} {B = Bucket}
        (λ bucket. record bucket { times = expire window now bucket.times }) failures)

missing_times :
    (key : String) (failures : List Bucket)
    → count (has_key key) failures ≡ 0
    → times_of failures key ≡ []
unfolding times_of
missing_times key failures h = rw (times_of, find-none-count (has_key key) failures h) refl

here_times :
    (key : String) (b : Bucket) (failures : List Bucket)
    → has_key key b ≡ true
    → times_of (b ∷ failures) key ≡ b.times
unfolding times_of find
here_times key b failures h = rw (times_of, h) refl

other_times :
    (key : String) (b : Bucket) (failures : List Bucket)
    → has_key key b ≡ false
    → times_of (b ∷ failures) key ≡ times_of failures key
unfolding times_of find
other_times key b failures h = rw (times_of, h) refl

no_times : (times : List ℕ) → is_empty times ≡ true → times ≡ []
no_times [] h = refl
no_times (t ∷ times) h = cc

swept_gone :
    (window now : ℕ) (b : Bucket) (failures : List Bucket)
    → is_empty (expire window now b.times) ≡ true
    → swept window now (b ∷ failures) ≡ swept window now failures
unfolding swept select
swept_gone window now b failures h = rw h refl

swept_kept :
    (window now : ℕ) (b : Bucket) (failures : List Bucket)
    → is_empty (expire window now b.times) ≡ false
    → swept window now (b ∷ failures)
      ≡ record b { times = expire window now b.times } ∷ swept window now failures
unfolding swept select
swept_kept window now b failures h = rw h refl

alone :
    (key : String) (b : Bucket) (failures : List Bucket)
    → has_key key b ≡ true
    → count (has_key key) (b ∷ failures) ≤ 1
    → count (has_key key) failures ≡ 0
unfolding count
alone key b failures h u = ground arith

fewer :
    (key : String) (b : Bucket) (failures : List Bucket)
    → count (has_key key) (b ∷ failures) ≤ 1
    → count (has_key key) failures ≤ 1
unfolding count
fewer key b failures u = ground arith

expire_nothing : (window now : ℕ) → expire window now [] ≡ []
unfolding expire
expire_nothing window now = refl

nothing_swept :
    (window now : ℕ) (key : String)
    → times_of (swept window now []) key ≡ expire window now (times_of [] key)
unfolding swept times_of find select expire
nothing_swept window now key = refl

times_of-swept :
    (window now : ℕ) (key : String) (failures : List Bucket)
    → count (has_key key) failures ≤ 1
    → times_of (swept window now failures) key ≡ expire window now (times_of failures key)
times_of-swept window now key [] u = nothing_swept window now key
times_of-swept window now key (b ∷ failures) u =
    let ih = times_of-swept window now key failures (fewer key b failures u) in
    elim (Bool-cases (has_key key b)) [
      | inl here ↦
          rw (here_times key b failures here)
            (elim (Bool-cases (is_empty (expire window now b.times))) [
              | inl gone ↦
                  rw
                    (
                      swept_gone window now b failures gone,
                      no_times (expire window now b.times) gone,
                    )
                    (ih
                      ∙ rw (missing_times key failures (alone key b failures here u))
                          (expire_nothing window now))
              | inr kept ↦ rw (swept_kept window now b failures kept) (
                  here_times key (record b { times = expire window now b.times })
                    (swept window now failures) here)
            ])
      | inr other ↦
          rw (other_times key b failures other)
            (elim (Bool-cases (is_empty (expire window now b.times))) [
              | inl gone ↦ rw (swept_gone window now b failures gone) ih
              | inr kept ↦ rw (swept_kept window now b failures kept) (
                  other_times key (record b { times = expire window now b.times })
                    (swept window now failures) other
                  ∙ ih)
            ])
    ]

-- Where the window is positive and each key has one entry, a failure that is recorded is one more in the window of its client, also where recording it swept
-- the whole dictionary.
pub failure_counts :
    (limiter : RateLimiter) (key : String) (now : ℕ)
    → 1 ≤ limiter.window
    → IsKeyed limiter.failures
    → count (is_recent limiter.window now) (times_of (record_failure limiter key now).failures key)
      ≡ count (is_recent limiter.window now) (times_of limiter.failures key) + 1
unfolding record_failure prune sweep swept
failure_counts limiter key now w u =
    let times = expire limiter.window now (times_of limiter.failures key) in
    let pruned = put key times limiter.failures in
    let failed = put key (times ++ now ∷ []) pruned in
    let keyed =
      put-IsKeyed key (times ++ now ∷ []) pruned (put-IsKeyed key times limiter.failures u) in
    let counted : count (is_recent limiter.window now) (times ++ now ∷ [])
        ≡ count (is_recent limiter.window now) (times_of limiter.failures key) + 1 =
      rw
        (
          count-append limiter.window now times w,
          count-expire limiter.window now (times_of limiter.failures key),
        )
        refl in
    let kept : count (is_recent limiter.window now) (times_of (swept limiter.window now failed) key)
        ≡ count (is_recent limiter.window now) (times_of limiter.failures key) + 1 =
      rw
        (
          times_of-swept limiter.window now key failed (keyed key),
          count-expire limiter.window now (times_of failed key),
          times_of-put key (times ++ now ∷ []) pruned,
        )
        counted in
    elim (Bool-cases (ltb 10000 (length failed))) [
      | inl many ↦ rw many kept
      | inr few ↦ rw (few, times_of-put key (times ++ now ∷ []) pruned) counted
    ]
