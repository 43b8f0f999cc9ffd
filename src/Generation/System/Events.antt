-- ===== src/Generation/System/Events.antt =====
-- Every event keeps the queue in order, so every sequence of events does.
use css360_syllabus_bot.Prelude.{
  ℕ, suc, ◌+◌, ◌-◌, ◌≡◌, refl, true, false, ◌&&◌, String, Option, none, some, List, [], ◌∷◌,
  contains, arith, Bool-cases, ltb, leb, nat_eq, string_eq, inl, inr, FloatOps,
}
use css360_syllabus_bot.Table.{count}
use css360_syllabus_bot.Generation.{
  Priority, is_interactive, Counters, at_least_one, GenerationQueue, is_nil, release, abandon,
  interactive_waiting, enter, join, group_time, entry_group, new_waiter, new_queue, is_too_long,
  estimate, ahead_of, record_service, reset_estimate,
}
use css360_syllabus_bot.Generation.System.{
  System, Event, entered, count_departure, counted, is_pending, perform, perform_events, served,
}
use css360_syllabus_bot.Generation.System.Orderly.{
  IsOrderly, is_misplaced, release-IsOrderly, taken-IsOrderly, abandon-IsOrderly, joined-IsOrderly,
  drawn-IsOrderly,
}

module _ (F : FloatOps) (capacity room : ℕ) where
  abbrev pub IsOrderlySystem : System F → Type 0
  IsOrderlySystem s = IsOrderly F capacity room s.holders s.queue

  -- The parts that no turn depends on may change.
  marked-IsOrderly :
      (queue marked : GenerationQueue F) (holders : ℕ)
      → marked ≡ record queue {
        comparisons = marked.comparisons;
        service_ewma = marked.service_ewma;
        counters = marked.counters;
      }
      → IsOrderly F capacity room holders queue
      → IsOrderly F capacity room holders marked
  marked-IsOrderly queue marked holders e o = rw e record {
    capacity_kept = o.capacity_kept;
    room_kept = o.room_kept;
    slots = o.slots;
    bounded = o.bounded;
    busy = o.busy;
    sorted = o.sorted;
    full = o.full;
    unique = o.unique;
    fresh = o.fresh;
    ranked = o.ranked;
  }

  rank_of-placed :
      (priority : Priority) (group : ℕ) (queue : GenerationQueue F)
      → is_misplaced (new_waiter F priority group queue) ≡ false
  rank_of-placed Priority.interactive group queue = refl
  rank_of-placed Priority.background group queue = refl

  join-IsOrderly :
      (s : System F) (queue : GenerationQueue F) (priority : Priority) (group : ℕ)
      → (ltb queue.active queue.max_concurrency && is_nil queue.waiters) ≡ false
      → IsOrderly F capacity room s.holders queue
      → IsOrderlySystem (entered F s (join F priority group queue))
  unfolding join
  join-IsOrderly s queue priority group taken o =
      elim (Bool-cases
        (is_interactive priority && leb queue.max_waiting (interactive_waiting queue.waiters))) [
          | inl full ↦ rw full (
              marked-IsOrderly record queue { sequence = queue.sequence + 1 } _ s.holders refl
                (drawn-IsOrderly F capacity room queue s.holders o))
          | inr fits ↦
              elim (Bool-cases (
                is_interactive priority
                && is_too_long F queue (
                    estimate F queue (
                      interactive_waiting
                        (ahead_of (new_waiter F priority group queue) queue.waiters))))) [
                          | inl long ↦
                              rw (fits, long)
                                (marked-IsOrderly record queue { sequence = queue.sequence + 1 } _
                                  s.holders refl
                                  (drawn-IsOrderly F capacity room queue s.holders o))
                          | inr short ↦
                              rw (fits, short)
                                (joined-IsOrderly F capacity room queue
                                  (new_waiter F priority group queue) s.holders refl
                                  (rank_of-placed priority group queue) taken fits o)
                        ]
        ]

  starts-IsOrderly :
      (queue : GenerationQueue F) (holders : ℕ)
      → (ltb queue.active queue.max_concurrency && is_nil queue.waiters) ≡ true
      → IsOrderly F capacity room holders queue
      → IsOrderly F capacity room (holders + 1) record queue { active = queue.active + 1 }
  starts-IsOrderly queue holders free o = record {
    capacity_kept = o.capacity_kept;
    room_kept = o.room_kept;
    slots = ground (arith, o.slots);
    bounded = ground arith;
    busy = λ h. ground arith;
    sorted = o.sorted;
    full = o.full;
    unique = o.unique;
    fresh = o.fresh;
    ranked = o.ranked;
  }

  group_time-IsOrderly :
      (queue : GenerationQueue F) (comparison : Option String) (now holders : ℕ)
      → IsOrderly F capacity room holders queue
      → IsOrderly F capacity room holders (group_time F queue comparison now).1
  unfolding group_time
  group_time-IsOrderly queue none now holders o = o
  group_time-IsOrderly queue (some id) now holders o = marked-IsOrderly queue _ holders refl o

  entry_group-IsOrderly :
      (priority : Priority) (queue : GenerationQueue F) (comparison : Option String)
      (now holders : ℕ)
      → IsOrderly F capacity room holders queue
      → IsOrderly F capacity room holders (entry_group F priority queue comparison now).1
  entry_group-IsOrderly Priority.interactive queue comparison now holders o =
      group_time-IsOrderly queue comparison now holders o
  entry_group-IsOrderly Priority.background queue comparison now holders o = o

  enter-IsOrderly :
      (s : System F) (priority : Priority) (comparison : Option String) (now : ℕ)
      → IsOrderlySystem s
      → IsOrderlySystem (entered F s (enter F priority comparison now s.queue))
  unfolding enter
  enter-IsOrderly s priority comparison now o =
      let (group, grouped) = entry_group F priority s.queue comparison now in
      let orderly : IsOrderly F capacity room s.holders grouped =
        entry_group-IsOrderly priority s.queue comparison now s.holders o in
      elim (Bool-cases (ltb grouped.active grouped.max_concurrency && is_nil grouped.waiters)) [
        | inl free ↦ rw free (starts-IsOrderly grouped s.holders free orderly)
        | inr taken ↦ rw taken (join-IsOrderly s grouped priority group taken orderly)
      ]

  counted-IsOrderly :
      (change : Counters → Counters) (queue : GenerationQueue F) (holders : ℕ)
      → IsOrderly F capacity room holders queue
      → IsOrderly F capacity room holders (counted F change queue)
  counted-IsOrderly change queue holders o = marked-IsOrderly queue _ holders refl o

  served-IsOrderly :
      (priority : Priority) (seconds : F.Float) (queue : GenerationQueue F) (holders : ℕ)
      → IsOrderly F capacity room holders queue
      → IsOrderly F capacity room holders (served F priority seconds queue)
  unfolding record_service
  served-IsOrderly Priority.interactive seconds queue holders o =
      marked-IsOrderly queue _ holders refl o
  served-IsOrderly Priority.background seconds queue holders o = o

  -- A holder hands its slot on, after changes that no turn depends on.
  left-IsOrderly :
      (s : System F) (marked : GenerationQueue F)
      → ltb 0 s.holders ≡ true
      → ((holders : ℕ)
          → IsOrderly F capacity room holders s.queue
          → IsOrderly F capacity room holders marked)
      → IsOrderlySystem s
      → IsOrderly F capacity room (s.holders - 1) (release F marked)
  left-IsOrderly s marked h keeps o =
      let held : s.holders ≡ suc (s.holders - 1) = ground arith in
      release-IsOrderly F capacity room marked (s.holders - 1)
        (keeps (suc (s.holders - 1)) (rw (← held) o))

  pub perform-IsOrderly :
      (event : Event F) (s : System F) → IsOrderlySystem s → IsOrderlySystem (perform F event s)
  unfolding perform reset_estimate
  perform-IsOrderly (Event.arrives priority comparison now) s o =
      enter-IsOrderly s priority comparison now o
  perform-IsOrderly (Event.resumes n) s o = elim (Bool-cases (contains s.queue.granted n)) [
    | inl granted ↦
        let e : s.holders + 1 ≡ suc s.holders = omega arith in
        rw (granted, e) (taken-IsOrderly F capacity room s.queue n s.holders granted o)
    | inr unknown ↦ rw unknown o
  ]
  perform-IsOrderly (Event.gives_up n why) s o = elim (Bool-cases (is_pending F s.queue n)) [
    | inl pending ↦ rw pending (
        counted-IsOrderly (count_departure F why) (abandon F n s.queue) s.holders
          (abandon-IsOrderly F capacity room s.queue n s.holders o))
    | inr unknown ↦ rw unknown o
  ]
  perform-IsOrderly Event.begins s o = elim (Bool-cases (ltb 0 s.holders)) [
    | inl held ↦
        rw held (counted-IsOrderly (λ c. record c { started = c.started + 1 }) s.queue s.holders o)
    | inr none_held ↦ rw none_held o
  ]
  perform-IsOrderly (Event.leaves why) s o = elim (Bool-cases (ltb 0 s.holders)) [
    | inl held ↦
        rw held (left-IsOrderly s _ held (counted-IsOrderly (count_departure F why) s.queue) o)
    | inr none_held ↦ rw none_held o
  ]
  perform-IsOrderly (Event.finishes priority seconds) s o = elim (Bool-cases (ltb 0 s.holders)) [
    | inl held ↦ rw held (
        left-IsOrderly s _ held
          (λ holders q.
            counted-IsOrderly (λ c. record c { completed = c.completed + 1 })
              (served F priority seconds s.queue) holders
              (served-IsOrderly priority seconds s.queue holders q))
          o)
    | inr none_held ↦ rw none_held o
  ]
  perform-IsOrderly Event.forgets_estimate s o = marked-IsOrderly s.queue _ s.holders refl o

  events-IsOrderly :
      (events : List (Event F)) (s : System F)
      → IsOrderlySystem s
      → IsOrderlySystem (perform_events F events s)
  unfolding perform_events
  events-IsOrderly [] s o = o
  events-IsOrderly (e ∷ events) s o =
      events-IsOrderly events (perform F e s) (perform-IsOrderly e s o)

module _ (F : FloatOps) where
  new_queue-IsOrderly :
      (max_concurrency max_waiting queue_timeout : ℕ)
      → IsOrderly F
          (at_least_one max_concurrency)
          (at_least_one max_waiting)
          0
          (new_queue F max_concurrency max_waiting queue_timeout)
  unfolding new_queue count
  new_queue-IsOrderly max_concurrency max_waiting queue_timeout = record {
    capacity_kept = refl;
    room_kept = refl;
    slots = refl;
    bounded = omega arith;
    busy = λ h. absurd (ground arith);
    sorted = tt;
    full = omega arith;
    unique = λ n. omega arith;
    fresh = λ n h. refl;
    ranked = refl;
  }

  -- The system that a new queue starts, after the events.
  unfoldable pub history :
      (max_concurrency max_waiting queue_timeout : ℕ) → List (Event F) → System F
  unfolding perform_events new_queue
  history max_concurrency max_waiting queue_timeout events =
      perform_events F events
        record { queue = new_queue F max_concurrency max_waiting queue_timeout; holders = 0 }

  pub history-IsOrderly :
      (max_concurrency max_waiting queue_timeout : ℕ) (events : List (Event F))
      → IsOrderlySystem F
          (at_least_one max_concurrency)
          (at_least_one max_waiting)
          (history max_concurrency max_waiting queue_timeout events)
  unfolding history
  history-IsOrderly max_concurrency max_waiting queue_timeout events =
      events-IsOrderly F (at_least_one max_concurrency) (at_least_one max_waiting) events _
        (new_queue-IsOrderly max_concurrency max_waiting queue_timeout)
