-- ===== src/Generation/System.antt =====
-- The requests around the queue: every interleaving of their segments between two awaits.
pub mod Lists
pub mod Orderly
pub mod Events
pub mod Turns
use css360_syllabus_bot.Prelude.{
  ℕ, ◌+◌, ◌-◌, Bool, true, false, not, ◌&&◌, ◌||◌, String, Option, none, some, List, [], ◌∷◌, any,
  contains, ltb, ◌==◌, nat_eq, if◌then◌else◌, FloatOps,
}
use css360_syllabus_bot.Generation.{
  Priority, is_interactive, Counters, Waiter, Entry, starts, refused, waits, GenerationQueue,
  without, enter, release, abandon, record_service, reset_estimate,
}

-- Why a waiting request leaves; an exception reaches the task from outside.
pub data Departure : Type 0 where
  queue_timeout client_gone interrupted : Departure

abbrev pub has_number : ℕ → Waiter → Bool
has_number n w = w.sequence == n

module _ (F : FloatOps) where
  -- `holders` counts the requests that hold a slot: they are about to start, or they generate.
  pub record System : Type 0 where
    pub queue : GenerationQueue F
    pub holders : ℕ

  pub data Event : Type 0 where
    arrives : (priority : Priority) (comparison : Option String) (now : ℕ) → Event
    resumes : (sequence : ℕ) → Event
    gives_up : (sequence : ℕ) (why : Departure) → Event
    begins : Event
    leaves : (why : Departure) → Event
    finishes : (priority : Priority) (seconds : F.Float) → Event
    forgets_estimate : Event

  abbrev pub count_departure : Departure → Counters → Counters
  count_departure Departure.queue_timeout c = record c { timed_out = c.timed_out + 1 }
  count_departure Departure.client_gone c = record c { client_gone = c.client_gone + 1 }
  count_departure Departure.interrupted c = c

  abbrev pub counted : (Counters → Counters) → GenerationQueue F → GenerationQueue F
  counted change queue = record queue { counters = change queue.counters }

  -- The request waits for its future, or has it and was not resumed yet.
  abbrev pub is_pending : GenerationQueue F → ℕ → Bool
  is_pending queue n = any (has_number n) queue.waiters || contains queue.granted n

  abbrev pub entered : System → Entry × GenerationQueue F → System
  entered s (starts, queue) = record { queue = queue; holders = s.holders + 1 }
  entered s (refused why, queue) = record s { queue = queue }
  entered s (waits n, queue) = record s { queue = queue }

  abbrev pub served : Priority → F.Float → GenerationQueue F → GenerationQueue F
  served Priority.interactive seconds queue = record_service F queue seconds
  served Priority.background seconds queue = queue

  -- One segment of `slot`; an event that is not enabled changes nothing.
  unfoldable pub perform : Event → System → System
  unfolding enter abandon release record_service reset_estimate
  perform (arrives priority comparison now) s = entered s (enter F priority comparison now s.queue)
  perform (resumes n) s =
      if contains s.queue.granted n
      then record {
        queue = record s.queue { granted = without n s.queue.granted };
        holders = s.holders + 1;
      }
      else s
  perform (gives_up n why) s =
      if is_pending s.queue n
      then record s { queue = counted (count_departure why) (abandon F n s.queue) }
      else s
  perform begins s =
      if ltb 0 s.holders
      then record s { queue = counted (λ c. record c { started = c.started + 1 }) s.queue }
      else s
  perform (leaves why) s =
      if ltb 0 s.holders
      then record {
        queue = release F (counted (count_departure why) s.queue);
        holders = s.holders - 1;
      }
      else s
  perform (finishes priority seconds) s =
      if ltb 0 s.holders
      then record {
        queue = release F (
            counted (λ c. record c { completed = c.completed + 1 })
              (served priority seconds s.queue));
        holders = s.holders - 1;
      }
      else s
  perform forgets_estimate s = record s { queue = reset_estimate F s.queue }

  unfoldable pub perform_events : List Event → System → System
  perform_events [] s = s
  perform_events (e ∷ events) s = perform_events events (perform e s)
