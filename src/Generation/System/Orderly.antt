-- ===== src/Generation/System/Orderly.antt =====
-- What holds of the queue and the requests that hold a slot, whatever the order of the events.
use css360_syllabus_bot.Prelude.{
  ℕ, suc, ◌+◌, ◌≤◌, ◌≡◌, refl, Bool, true, false, not, ◌&&◌, List, [], ◌∷◌, contains, length, arith,
  Bool-cases, ltb, leb, ◌==◌, nat_eq, inl, inr, FloatOps,
}
use css360_syllabus_bot.Table.{count}
use css360_syllabus_bot.Table.Members.{any-true-count}
use css360_syllabus_bot.Generation.{
  Waiter, GenerationQueue, insert_waiter, remove_waiter, without, is_nil, hand_on, release, abandon,
  interactive_waiting, is_waiting_interactive, rank_of,
}
use css360_syllabus_bot.Generation.System.{has_number}
use css360_syllabus_bot.Generation.System.Lists.{
  IsSorted, occurrences, count-insert_waiter, count-remove_waiter, insert_waiter-IsSorted,
  remove_waiter-IsSorted, length-select, count-select,
}

is_nil-remove_waiter :
    (n : ℕ) (waiters : List Waiter)
    → is_nil (remove_waiter n waiters) ≡ false
    → is_nil waiters ≡ false
unfolding remove_waiter
is_nil-remove_waiter n [] h = h
is_nil-remove_waiter n (w ∷ waiters) h = refl

abbrev pub is_misplaced : Waiter → Bool
is_misplaced w = not (w.rank == rank_of w.priority)

module _ (F : FloatOps) where
  -- How often a number is known: as a waiter's, or as granted.
  abbrev pub times_known : ℕ → GenerationQueue F → ℕ
  times_known n queue = count (has_number n) queue.waiters + occurrences n queue.granted

module _ (F : FloatOps) (capacity room : ℕ) where
  pub record IsOrderly (holders : ℕ) (queue : GenerationQueue F) : Type 0 where
    pub capacity_kept : queue.max_concurrency ≡ capacity
    pub room_kept : queue.max_waiting ≡ room
    -- A slot is held, or is granted to a request that has not resumed.
    pub slots : queue.active ≡ holders + length queue.granted
    pub bounded : queue.active ≤ queue.max_concurrency
    -- Nobody waits beside a free slot.
    pub busy : is_nil queue.waiters ≡ false → queue.active ≡ queue.max_concurrency
    pub sorted : IsSorted queue.waiters
    pub full : interactive_waiting queue.waiters ≤ queue.max_waiting
    pub unique : (n : ℕ) → times_known F n queue ≤ 1
    pub fresh : (n : ℕ) → queue.sequence ≤ n → times_known F n queue ≡ 0
    -- The rank of a waiter is that of its priority.
    pub ranked : count is_misplaced queue.waiters ≡ 0

  pub head_not_done :
      (granted : List ℕ) (w : Waiter) (rest : List Waiter)
      → count (has_number w.sequence) (w ∷ rest) + occurrences w.sequence granted ≤ 1
      → contains granted w.sequence ≡ false
  unfolding count
  head_not_done granted w rest u = elim (Bool-cases (contains granted w.sequence)) [
    | inl done ↦
        let once : 1 ≤ occurrences w.sequence granted =
          any-true-count (λ m. m == w.sequence) granted done in
        absurd (ground arith)
    | inr free ↦ free
  ]

  hand_on-IsOrderly :
      (queue : GenerationQueue F) (waiters : List Waiter) (holders : ℕ)
      → IsOrderly (suc holders) record queue { waiters = waiters }
      → IsOrderly holders (hand_on F queue waiters)
  unfolding hand_on count
  hand_on-IsOrderly queue [] holders o = record {
    capacity_kept = o.capacity_kept;
    room_kept = o.room_kept;
    slots = ground (arith, o.slots);
    bounded = ground (arith, o.bounded);
    busy = λ h. absurd (ground arith);
    sorted = tt;
    full = ground arith;
    unique = λ n. ground (arith, o.unique n);
    fresh = λ n h. ground (arith, o.fresh n h);
    ranked = refl;
  }
  hand_on-IsOrderly queue (w ∷ rest) holders o =
      rw (head_not_done queue.granted w rest (o.unique w.sequence)) record {
        capacity_kept = o.capacity_kept;
        room_kept = o.room_kept;
        slots = ground (arith, o.slots);
        bounded = o.bounded;
        busy = λ h. o.busy refl;
        sorted = let (behind, s) = o.sorted in s;
        full = ground (arith, o.full);
        unique = λ n. ground (arith, o.unique n);
        fresh = λ n h. ground (arith, o.fresh n h);
        ranked = ground (arith, o.ranked);
      }

  pub release-IsOrderly :
      (queue : GenerationQueue F) (holders : ℕ)
      → IsOrderly (suc holders) queue
      → IsOrderly holders (release F queue)
  unfolding release
  release-IsOrderly queue holders o = hand_on-IsOrderly queue queue.waiters holders o

  -- A granted number that is taken out was granted once.
  pub length-without :
      (queue : GenerationQueue F) (n : ℕ)
      → times_known F n queue ≤ 1
      → contains queue.granted n ≡ true
      → length queue.granted ≡ suc (length (without n queue.granted))
  length-without queue n u h = ground (
    arith,
    length-select (λ m. m == n) queue.granted,
    any-true-count (λ m. m == n) queue.granted h,
  )

  removed-IsOrderly :
      (queue : GenerationQueue F) (n holders : ℕ)
      → IsOrderly holders queue
      → IsOrderly holders record queue { waiters = remove_waiter n queue.waiters }
  unfolding remove_waiter count
  removed-IsOrderly queue n holders o = record {
    capacity_kept = o.capacity_kept;
    room_kept = o.room_kept;
    slots = o.slots;
    bounded = o.bounded;
    busy = λ h. o.busy (is_nil-remove_waiter n queue.waiters h);
    sorted = remove_waiter-IsSorted n queue.waiters o.sorted;
    full = ground (arith, o.full, count-remove_waiter is_waiting_interactive n queue.waiters);
    unique = λ m. ground (arith, o.unique m, count-remove_waiter (has_number m) n queue.waiters);
    fresh = λ m h. ground (arith, o.fresh m h, count-remove_waiter (has_number m) n queue.waiters);
    ranked = ground (arith, o.ranked, count-remove_waiter is_misplaced n queue.waiters);
  }

  -- The request with the number takes its slot.
  pub taken-IsOrderly :
      (queue : GenerationQueue F) (n holders : ℕ)
      → contains queue.granted n ≡ true
      → IsOrderly holders queue
      → IsOrderly (suc holders) record queue { granted = without n queue.granted }
  taken-IsOrderly queue n holders h o = record {
    capacity_kept = o.capacity_kept;
    room_kept = o.room_kept;
    slots = ground (arith, o.slots, length-without queue n (o.unique n) h);
    bounded = o.bounded;
    busy = o.busy;
    sorted = o.sorted;
    full = o.full;
    unique = λ m.
        ground (arith, o.unique m, count-select (λ k. k == m) (λ k. not (k == n)) queue.granted);
    fresh = λ m k.
        ground (arith, o.fresh m k, count-select (λ k. k == m) (λ k. not (k == n)) queue.granted);
    ranked = o.ranked;
  }

  pub abandon-IsOrderly :
      (queue : GenerationQueue F) (n holders : ℕ)
      → IsOrderly holders queue
      → IsOrderly holders (abandon F n queue)
  unfolding abandon
  abandon-IsOrderly queue n holders o = elim (Bool-cases (contains queue.granted n)) [
    | inl granted ↦
        let removed = record queue { waiters = remove_waiter n queue.waiters } in
        rw granted (
          release-IsOrderly record removed { granted = without n queue.granted } holders
            (taken-IsOrderly removed n holders granted (removed-IsOrderly queue n holders o)))
    | inr waiting ↦ rw waiting (removed-IsOrderly queue n holders o)
  ]

  pub joined-IsOrderly :
      (queue : GenerationQueue F) (w : Waiter) (holders : ℕ)
      → w.sequence ≡ queue.sequence
      → is_misplaced w ≡ false
      → (ltb queue.active queue.max_concurrency && is_nil queue.waiters) ≡ false
      → (is_waiting_interactive w && leb queue.max_waiting (interactive_waiting queue.waiters))
        ≡ false
      → IsOrderly holders queue
      → IsOrderly holders
          record queue { sequence = queue.sequence + 1; waiters = insert_waiter w queue.waiters }
  joined-IsOrderly queue w holders e placed taken fits o = record {
    capacity_kept = o.capacity_kept;
    room_kept = o.room_kept;
    slots = o.slots;
    bounded = o.bounded;
    busy = λ h. elim (Bool-cases (is_nil queue.waiters)) [
      | inl empty ↦ ground (arith, o.bounded)
      | inr some_wait ↦ o.busy some_wait
    ];
    sorted = insert_waiter-IsSorted w queue.waiters o.sorted;
    full = ground (arith, o.full, count-insert_waiter is_waiting_interactive w queue.waiters);
    unique = λ n.
        ground
          (arith, e, o.unique n, o.fresh n, count-insert_waiter (has_number n) w queue.waiters);
    fresh = λ n h. ground (arith, e, o.fresh n, count-insert_waiter (has_number n) w queue.waiters);
    ranked = ground (arith, o.ranked, placed, count-insert_waiter is_misplaced w queue.waiters);
  }

  -- The queue whose sequence number went on.
  pub drawn-IsOrderly :
      (queue : GenerationQueue F) (holders : ℕ)
      → IsOrderly holders queue
      → IsOrderly holders record queue { sequence = queue.sequence + 1 }
  drawn-IsOrderly queue holders o = record {
    capacity_kept = o.capacity_kept;
    room_kept = o.room_kept;
    slots = o.slots;
    bounded = o.bounded;
    busy = o.busy;
    sorted = o.sorted;
    full = o.full;
    unique = o.unique;
    fresh = λ n h. o.fresh n (omega arith);
    ranked = o.ranked;
  }
