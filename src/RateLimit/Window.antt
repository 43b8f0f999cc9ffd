-- ===== src/RateLimit/Window.antt =====
-- The limiter counts the failures of the window, and the wait that it names is enough.
use css360_syllabus_bot.Prelude.{
  ℕ, ◌+◌, ◌<◌, ◌≤◌, ◌≡◌, ◌↔◌, refl, sym, ◌∙◌, Bool, true, false, String, none, some, List, [], ◌∷◌,
  All, any, length, ltb, leb, arith, string_eq, eq_iff, if◌then◌else◌, Bool-cases, Option-cases,
  inl, inr,
}
use css360_syllabus_bot.Table.{find, count}
use css360_syllabus_bot.Table.Laws.{find-update, find-insert, find_passes, count-find-none}
use css360_syllabus_bot.Table.Members.{any_of_find, any-true-count}
use css360_syllabus_bot.RateLimit.{
  Bucket, RateLimiter, has_key, expire, times_of, put, prune, wait_for, retry_after,
}

-- A failure that the window still holds.
abbrev pub is_recent : ℕ → ℕ → ℕ → Bool
is_recent window now t = ltb now (t + window)

-- Oldest first, as a clock that never goes back writes them.
abbrev pub IsSorted : List ℕ → Type 0
IsSorted [] = Unit
IsSorted (t ∷ times) = All (λ u. t ≤ u) times × IsSorted times

full_window :
    (window now t : ℕ) (times : List ℕ)
    → now < t + window
    → All (λ u. t ≤ u) times
    → count (is_recent window now) times ≡ length times
unfolding count
full_window window now t [] h s = refl
full_window window now t (u ∷ times) h (l, s) = ground (arith, full_window window now t times h s)

pub length-expire :
    (window now : ℕ) (times : List ℕ)
    → IsSorted times
    → length (expire window now times) ≡ count (is_recent window now) times
unfolding expire count
length-expire window now [] s = refl
length-expire window now (t ∷ times) (l, s) = elim (Bool-cases (leb (t + window) now)) [
  | inl past ↦ ground (arith, length-expire window now times s)
  | inr held ↦ ground (arith, full_window window now t times)
]

answer :
    (limiter : RateLimiter) (key : String) (now : ℕ)
    → (let times = expire limiter.window now (times_of limiter.failures key) in
        (retry_after limiter key now).0 ≡ (
          if ltb (length times) limiter.limit
          then none
          else some (wait_for limiter.window now times)))
unfolding retry_after prune
answer limiter key now =
    elim (Bool-cases
      (ltb (length (expire limiter.window now (times_of limiter.failures key))) limiter.limit)) [
        | inl free ↦ rw free refl
        | inr full ↦ rw full refl
      ]

-- Where the failures of a client stand oldest first, it may try exactly while fewer than `limit` of
-- them lie in the window.
pub throttle_exact :
    (limiter : RateLimiter) (key : String) (now : ℕ)
    → IsSorted (times_of limiter.failures key)
    → ((retry_after limiter key now).0 ≡ none)
      ↔ (count (is_recent limiter.window now) (times_of limiter.failures key) < limiter.limit)
throttle_exact limiter key now s =
    let n = length-expire limiter.window now (times_of limiter.failures key) s in
    let a = answer limiter key now in (λ h. ground (arith, n, a, h), λ h. ground (arith, n, a, h))

put_old :
    (key : String) (times : List ℕ) (failures : List Bucket) (bucket : Bucket)
    → find (has_key key) failures ≡ some bucket
    → find (has_key key) (put key times failures) ≡ some (record bucket { times = times })
unfolding put
put_old key times failures bucket found = rw (any_of_find (has_key key) failures bucket found) (
    rw
      (
        find-update (has_key key) (has_key key) (λ b. record b { times = times }) failures
            (λ b. refl),
        found,
        find_passes (has_key key) failures bucket found,
      )
      refl)

find-any :
    (key : String) (failures : List Bucket)
    → find (has_key key) failures ≡ none
    → any (has_key key) failures ≡ false
find-any key failures missing = elim (Bool-cases (any (has_key key) failures)) [
  | inl some_one ↦ absurd (
      omega (
        arith,
        any-true-count (has_key key) failures some_one,
        count-find-none (has_key key) failures missing,
      ))
  | inr nobody ↦ nobody
]

put_new :
    (key : String) (times : List ℕ) (failures : List Bucket)
    → find (has_key key) failures ≡ none
    → find (has_key key) (put key times failures) ≡ some (record { key = key; times = times })
unfolding put
put_new key times failures missing = rw (find-any key failures missing) (
    find-insert (has_key key) (record { key = key; times = times }) failures missing
    ∙ rw ((eq_iff key key).1 refl) refl)

pub times_of-put :
    (key : String) (times : List ℕ) (failures : List Bucket)
    → times_of (put key times failures) key ≡ times
unfolding times_of
times_of-put key times failures = elim (Option-cases (find (has_key key) failures)) [
  | inl missing ↦ rw (times_of, put_new key times failures missing) refl
  | inr (bucket, found) ↦ rw (times_of, put_old key times failures bucket found) refl
]

pruned :
    (limiter : RateLimiter) (key : String) (now wait : ℕ)
    → (retry_after limiter key now).0 ≡ some wait
    → (retry_after limiter key now).1 ≡ record limiter {
      failures =
          put key (expire limiter.window now (times_of limiter.failures key)) limiter.failures;
    }
unfolding retry_after prune
pruned limiter key now wait told =
    elim (Bool-cases
      (ltb (length (expire limiter.window now (times_of limiter.failures key))) limiter.limit)) [
        | inl free ↦ absurd (let h : none ≡ some wait = rw free at told in cc)
        | inr full ↦ rw full refl
      ]

length-expire-le :
    (window now : ℕ) (times : List ℕ) → length (expire window now times) ≤ length times
unfolding expire
length-expire-le window now [] = omega arith
length-expire-le window now (t ∷ times) = ground (arith, length-expire-le window now times)

-- The oldest of the failures is past when the wait is over.
after_wait :
    (window limit now wait : ℕ) (times : List ℕ)
    → length times ≡ limit
    → (if ltb (length times) limit then none else some (wait_for window now times)) ≡ some wait
    → 1 ≤ limit
    → ltb (length (expire window (now + wait) times)) limit ≡ true
unfolding expire
after_wait window limit now wait [] n told l = absurd (omega (arith, n, l))
after_wait window limit now wait (t ∷ times) n told l =
    ground (arith, length-expire-le window (now + wait) times)

-- Where the limit is positive and failures stand oldest first, a client that is told to wait, with
-- exactly `limit` failures in the window, may try again after that time.
pub wait_enough :
    (limiter : RateLimiter) (key : String) (now wait : ℕ)
    → 1 ≤ limiter.limit
    → IsSorted (times_of limiter.failures key)
    → count (is_recent limiter.window now) (times_of limiter.failures key) ≡ limiter.limit
    → (retry_after limiter key now).0 ≡ some wait
    → (retry_after (retry_after limiter key now).1 key (now + wait)).0 ≡ none
wait_enough limiter key now wait l s full told =
    let times = expire limiter.window now (times_of limiter.failures key) in
    let n : length times ≡ limiter.limit =
      length-expire limiter.window now (times_of limiter.failures key) s ∙ full in
    let again =
      answer (record limiter { failures = put key times limiter.failures }) key (now + wait) in
    rw (pruned limiter key now wait told) (
      again
      ∙ rw
          (
            times_of-put key times limiter.failures,
            after_wait limiter.window limiter.limit now wait times n
                (sym (answer limiter key now) ∙ told) l,
          )
          refl)
