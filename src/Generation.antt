-- ===== src/Generation.antt =====
-- backend/app/generation_queue.py: when a generation may start. Times are microseconds of the
-- monotonic clock; service times are floats.
pub mod System
use mathlib.Core.Option
use css360_syllabus_bot.Prelude.{
  ℕ, ◌+◌, ◌-◌, ◌*◌, Bool, true, false, not, ◌&&◌, ◌||◌, String, Option, none, some, List, [], ◌∷◌,
  contains, ltb, leb, ◌==◌, nat_eq, string_eq, if◌then◌else◌, FloatOps,
}
use css360_syllabus_bot.Table.{find, select, insert, count}

pub data Priority : Type 0 where
  interactive background : Priority

abbrev pub is_interactive : Priority → Bool
is_interactive Priority.interactive = true
is_interactive Priority.background = false

-- A waiter's key is its rank, its group's time and its sequence number, which names its future too.
pub record Waiter : Type 0 where
  pub rank : ℕ
  pub group : ℕ
  pub sequence : ℕ
  pub priority : Priority

-- The order of the keys, compared as tuples.
unfoldable pub key_before : Waiter → Waiter → Bool
key_before a b =
    ltb a.rank b.rank
    || (a.rank == b.rank
        && (ltb a.group b.group || (a.group == b.group && ltb a.sequence b.sequence)))

pub record Comparison : Type 0 where
  pub id : String
  pub seen : ℕ

pub record Counters : Type 0 where
  pub started : ℕ
  pub completed : ℕ
  pub rejected_full : ℕ
  pub rejected_estimate : ℕ
  pub timed_out : ℕ
  pub client_gone : ℕ

abbrev pub comparison_ttl : ℕ
comparison_ttl = 600 * 1000000

abbrev pub is_waiting_interactive : Waiter → Bool
is_waiting_interactive w = is_interactive w.priority

-- bisect.bisect: the place after the waiters whose keys are not larger, on a sorted list.
unfoldable pub insert_waiter : Waiter → List Waiter → List Waiter
insert_waiter w [] = w ∷ []
insert_waiter w (x ∷ waiters) =
    let rest = insert_waiter w waiters in if key_before w x then w ∷ x ∷ waiters else x ∷ rest

-- The waiters before that place.
unfoldable pub ahead_of : Waiter → List Waiter → List Waiter
ahead_of w [] = []
ahead_of w (x ∷ waiters) = let rest = ahead_of w waiters in if key_before w x then [] else x ∷ rest

-- waiters.remove(waiter), which is found by its key
unfoldable pub remove_waiter : ℕ → List Waiter → List Waiter
remove_waiter sequence [] = []
remove_waiter sequence (x ∷ waiters) =
    let rest = remove_waiter sequence waiters in
    if x.sequence == sequence then waiters else x ∷ rest

-- setdefault(id, now)
abbrev pub group_in : List Comparison → String → ℕ → ℕ × List Comparison
group_in comparisons id now = elim (find (λ c. c.id == id) comparisons) [
  | none ↦ (now, insert (record { id = id; seen = now }) comparisons)
  | some c ↦ (c.seen, comparisons)
]

-- Why a request is turned away.
pub data Refusal : Type 0 where
  queue_full estimated_wait : Refusal

-- What a request learns on entry: it has a slot, it is refused, or it waits under a number.
pub data Entry : Type 0 where
  starts : Entry
  refused : Refusal → Entry
  waits : ℕ → Entry

abbrev pub at_least_one : ℕ → ℕ
at_least_one n = if ltb n 1 then 1 else n

abbrev pub interactive_waiting : List Waiter → ℕ
interactive_waiting waiters = count is_waiting_interactive waiters

abbrev pub rank_of : Priority → ℕ
rank_of Priority.interactive = 0
rank_of Priority.background = 1

abbrev pub is_nil {ℓ} : {A : Type ℓ} → List A → Bool
is_nil [] = true
is_nil (a ∷ rest) = false

abbrev pub without : ℕ → List ℕ → List ℕ
without sequence granted = select (λ n. not (n == sequence)) granted

module _ (F : FloatOps) where
  -- `granted` holds the numbers of the waiters whose future has its result and who have not resumed.
  pub record GenerationQueue : Type 0 where
    pub max_concurrency : ℕ
    pub max_waiting : ℕ
    pub queue_timeout : ℕ
    pub active : ℕ
    pub waiters : List Waiter
    pub granted : List ℕ
    pub sequence : ℕ
    pub comparisons : List Comparison
    pub service_ewma : Option F.Float
    pub counters : Counters

  -- GenerationQueue.__init__
  unfoldable pub new_queue : ℕ → ℕ → ℕ → GenerationQueue
  new_queue max_concurrency max_waiting queue_timeout = record {
    max_concurrency = at_least_one max_concurrency;
    max_waiting = at_least_one max_waiting;
    queue_timeout = queue_timeout;
    active = 0;
    waiters = [];
    granted = [];
    sequence = 0;
    comparisons = [];
    service_ewma = none;
    counters = record {
      started = 0;
      completed = 0;
      rejected_full = 0;
      rejected_estimate = 0;
      timed_out = 0;
      client_gone = 0;
    };
  }

  -- (ahead + active) / max_concurrency * service_ewma
  unfoldable pub estimate : GenerationQueue → ℕ → Option F.Float
  estimate queue ahead =
      Option.map
        (λ ewma.
          F.times (F.over (F.decimal (ahead + queue.active) 0) (F.decimal queue.max_concurrency 0))
            ewma)
        queue.service_ewma

  -- estimate is not None and estimate > queue_timeout * ESTIMATE_REFUSAL_MARGIN
  abbrev pub is_too_long : GenerationQueue → Option F.Float → Bool
  is_too_long queue none = false
  is_too_long queue (some estimate) =
      F.below (F.times (F.decimal queue.queue_timeout 6) (F.decimal 15 1)) estimate

  unfoldable pub record_service : GenerationQueue → F.Float → GenerationQueue
  record_service queue seconds = record queue {
    service_ewma = elim queue.service_ewma [
      | none ↦ some seconds
      | some ewma ↦ some (
          F.plus (F.times (F.decimal 3 1) seconds)
            (F.times (F.minus (F.decimal 1 0) (F.decimal 3 1)) ewma))
    ];
  }

  unfoldable pub reset_estimate : GenerationQueue → GenerationQueue
  reset_estimate queue = record queue { service_ewma = none }

  unfoldable pub group_time : GenerationQueue → Option String → ℕ → ℕ × GenerationQueue
  group_time queue none now = (now, queue)
  group_time queue (some id) now =
      let kept = select (λ c. leb now (c.seen + comparison_ttl)) queue.comparisons in
      let (group, comparisons) = group_in kept id now in
      (group, record queue { comparisons = comparisons })

  -- The place that a request enters with; background work has no comparison.
  abbrev pub entry_group : Priority → GenerationQueue → Option String → ℕ → ℕ × GenerationQueue
  entry_group Priority.interactive queue comparison now = group_time queue comparison now
  entry_group Priority.background queue comparison now = (now, queue)

  abbrev pub new_waiter : Priority → ℕ → GenerationQueue → Waiter
  new_waiter priority group queue = record {
    rank = rank_of priority;
    group = group;
    sequence = queue.sequence;
    priority = priority;
  }

  -- The request joins the waiters; its number is drawn whether or not it is refused.
  unfoldable pub join : Priority → ℕ → GenerationQueue → Entry × GenerationQueue
  unfolding insert_waiter ahead_of estimate
  join priority group queue =
      let waiter = new_waiter priority group queue in
      let drawn = record queue { sequence = queue.sequence + 1 } in
      let ahead = interactive_waiting (ahead_of waiter queue.waiters) in
      if is_interactive priority && leb queue.max_waiting (interactive_waiting queue.waiters)
      then (
        refused queue_full,
        record drawn {
          counters = record drawn.counters { rejected_full = drawn.counters.rejected_full + 1 };
        },
      )
      else if is_interactive priority && is_too_long queue (estimate queue ahead)
      then (
        refused estimated_wait,
        record drawn {
          counters = record drawn.counters {
            rejected_estimate = drawn.counters.rejected_estimate + 1;
          };
        },
      )
      else (waits queue.sequence, record drawn { waiters = insert_waiter waiter queue.waiters })

  -- The first part of `slot`, up to the wait.
  unfoldable pub enter : Priority → Option String → ℕ → GenerationQueue → Entry × GenerationQueue
  unfolding group_time join
  enter priority comparison now queue =
      let (group, grouped) = entry_group priority queue comparison now in
      if ltb grouped.active grouped.max_concurrency && is_nil grouped.waiters
      then (starts, record grouped { active = grouped.active + 1 })
      else join priority group grouped

  abbrev pub is_done : GenerationQueue → Waiter → Bool
  is_done queue waiter = contains queue.granted waiter.sequence

  -- The first waiter whose future is not done gets the slot; without one the slot is free.
  unfoldable pub hand_on : GenerationQueue → List Waiter → GenerationQueue
  hand_on queue [] = record queue { waiters = []; active = queue.active - 1 }
  hand_on queue (waiter ∷ waiters) =
      let next = hand_on queue waiters in
      if is_done queue waiter
      then next
      else record queue { waiters = waiters; granted = waiter.sequence ∷ queue.granted }

  unfoldable pub release : GenerationQueue → GenerationQueue
  unfolding hand_on
  release queue = hand_on queue queue.waiters

  -- A waiter that gave up; a slot that reached it is passed on.
  unfoldable pub abandon : ℕ → GenerationQueue → GenerationQueue
  unfolding release remove_waiter
  abandon sequence queue =
      let removed = record queue { waiters = remove_waiter sequence queue.waiters } in
      if contains queue.granted sequence
      then release (record removed { granted = without sequence queue.granted })
      else removed
