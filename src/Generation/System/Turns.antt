-- ===== src/Generation/System/Turns.antt =====
-- Who gets a slot, and when: what the queue promises to the requests.
mod Examples
use css360_syllabus_bot.Prelude.{
  ℕ, suc, ◌+◌, ◌-◌, ◌≤◌, ◌≡◌, ◌⊎◌, ◌∙◌, ap, refl, sym, Bool, true, false, not, ◌&&◌, ◌||◌, String,
  Option, none, some, List, [], ◌∷◌, any, contains, length, All, arith, Bool-cases, ltb, leb, ◌==◌,
  nat_eq, inl, inr, if◌then◌else◌, FloatOps,
}
use css360_syllabus_bot.Table.{select, count}
use css360_syllabus_bot.Table.Members.{any-true-count}
use css360_syllabus_bot.Generation.{
  Priority, is_interactive, Counters, Waiter, at_least_one, GenerationQueue, without, is_nil,
  is_done, hand_on, release, key_before, interactive_waiting, is_waiting_interactive, rank_of,
  record_service,
}
use css360_syllabus_bot.Generation.System.{
  System, has_number, Event, counted, perform, perform_events, served,
}
use css360_syllabus_bot.Generation.System.Lists.{IsSorted, occurrences}
use css360_syllabus_bot.Generation.System.Orderly.{
  IsOrderly, times_known, is_misplaced, head_not_done,
}
use css360_syllabus_bot.Generation.System.Events.{
  IsOrderlySystem, perform-IsOrderly, history, history-IsOrderly,
}

module _ (F : FloatOps) where
  -- From a new queue, whatever events follow in whatever order: the slots that are held or granted
  -- are at most the configured number (at least one), and the interactive requests that wait are at
  -- most the configured number (at least one).
  pub never_over_capacity :
      (max_concurrency max_waiting queue_timeout : ℕ) (events : List (Event F))
      → let s = history F max_concurrency max_waiting queue_timeout events in
        (s.holders + length s.queue.granted ≤ at_least_one max_concurrency)
        × (interactive_waiting s.queue.waiters ≤ at_least_one max_waiting)
  never_over_capacity max_concurrency max_waiting queue_timeout events =
      let o = history-IsOrderly F max_concurrency max_waiting queue_timeout events in
      (ground (arith, o.slots, o.bounded, o.capacity_kept), ground (arith, o.full, o.room_kept))

  -- From a new queue, whatever events follow in whatever order: while some request waits, every slot
  -- is held or granted.
  pub slots_never_idle :
      (max_concurrency max_waiting queue_timeout : ℕ) (events : List (Event F))
      → let s = history F max_concurrency max_waiting queue_timeout events in
        is_nil s.queue.waiters ≡ false
        → s.holders + length s.queue.granted ≡ at_least_one max_concurrency
  slots_never_idle max_concurrency max_waiting queue_timeout events waiting =
      let o = history-IsOrderly F max_concurrency max_waiting queue_timeout events in
      ground (arith, o.slots, o.busy waiting, o.capacity_kept)

  rank_of-interactive :
      (priority : Priority) → rank_of priority ≡ (if is_interactive priority then 0 else 1)
  rank_of-interactive Priority.interactive = refl
  rank_of-interactive Priority.background = refl

  ranked_behind :
      (w : Waiter) (rest : List Waiter)
      → All (λ x. key_before x w ≡ false) rest
      → is_interactive w.priority ≡ false
      → count is_misplaced (w ∷ rest) ≡ 0
      → interactive_waiting rest ≡ 0
  unfolding count key_before
  ranked_behind w [] behind back placed = refl
  ranked_behind w (x ∷ rest) (here, behind) back placed = ground (
    arith,
    rank_of-interactive w.priority,
    rank_of-interactive x.priority,
    ranked_behind w rest behind back,
  )

  release-head :
      (queue : GenerationQueue F) (w : Waiter) (rest : List Waiter)
      → queue.waiters ≡ w ∷ rest
      → contains queue.granted w.sequence ≡ false
      → release F queue ≡ record queue { waiters = rest; granted = w.sequence ∷ queue.granted }
  unfolding release hand_on
  release-head queue w rest e free = rw (e, free) refl

  served_waiters :
      (priority : Priority) (seconds : F.Float) (queue : GenerationQueue F)
      → (served F priority seconds queue).waiters ≡ queue.waiters
  unfolding record_service
  served_waiters Priority.interactive seconds queue = refl
  served_waiters Priority.background seconds queue = refl

  served_granted :
      (priority : Priority) (seconds : F.Float) (queue : GenerationQueue F)
      → (served F priority seconds queue).granted ≡ queue.granted
  unfolding record_service
  served_granted Priority.interactive seconds queue = refl
  served_granted Priority.background seconds queue = refl

  head_free :
      (capacity room : ℕ) (s : System F) (w : Waiter) (rest : List Waiter)
      → IsOrderlySystem F capacity room s
      → s.queue.waiters ≡ w ∷ rest
      → contains s.queue.granted w.sequence ≡ false
  head_free capacity room s w rest o e =
      let unique : count (has_number w.sequence) s.queue.waiters
            + occurrences w.sequence s.queue.granted
          ≤ 1 =
        o.unique w.sequence in
      head_not_done F capacity room s.queue.granted w rest (rw e at unique)

  finish_hands_on :
      (capacity room : ℕ) (s : System F) (priority : Priority) (seconds : F.Float) (w : Waiter)
      (rest : List Waiter)
      → IsOrderlySystem F capacity room s
      → s.queue.waiters ≡ w ∷ rest
      → ltb 0 s.holders ≡ true
      → let t = perform F (Event.finishes priority seconds) s in
        (t.queue.waiters ≡ rest)
        × (t.queue.granted ≡ w.sequence ∷ s.queue.granted)
        × (t.holders ≡ s.holders - 1)
  unfolding perform
  finish_hands_on capacity room s priority seconds w rest o e held =
      let after =
        counted F (λ c. record c { completed = c.completed + 1 })
          (served F priority seconds s.queue) in
      let waiting : after.waiters ≡ w ∷ rest = served_waiters priority seconds s.queue ∙ e in
      let free : contains after.granted w.sequence ≡ false =
        rw (served_granted priority seconds s.queue) (head_free capacity room s w rest o e) in
      rw (held, release-head after w rest waiting free)
        (refl, ap (λ g. w.sequence ∷ g) (served_granted priority seconds s.queue), refl)

  -- From a new queue, whatever events led to it: where a request holds a slot, and the request w
  -- waits at the head of the line, the end of a generation grants the slot to w and to no other. No
  -- waiting request has a smaller key than w, and w is interactive or only background work waits.
  pub turn_of_least :
      (max_concurrency max_waiting queue_timeout : ℕ) (events : List (Event F))
      (priority : Priority) (seconds : F.Float) (w : Waiter) (rest : List Waiter)
      → let s = history F max_concurrency max_waiting queue_timeout events in
        s.queue.waiters ≡ w ∷ rest
        → ltb 0 s.holders ≡ true
        → let t = perform F (Event.finishes priority seconds) s in
          (t.queue.granted ≡ w.sequence ∷ s.queue.granted)
          × (t.queue.waiters ≡ rest)
          × All (λ x. key_before x w ≡ false) rest
          × ((is_interactive w.priority ≡ true) ⊎ (interactive_waiting rest ≡ 0))
  turn_of_least max_concurrency max_waiting queue_timeout events priority seconds w rest e held =
      let s = history F max_concurrency max_waiting queue_timeout events in
      let o = history-IsOrderly F max_concurrency max_waiting queue_timeout events in
      let (waiters, granted, holders) =
        finish_hands_on (at_least_one max_concurrency) (at_least_one max_waiting) s priority seconds
          w rest o e held in
      let line : IsSorted s.queue.waiters = o.sorted in
      let sorted : IsSorted (w ∷ rest) = rw e at line in
      let (behind, deeper) = sorted in
      let misplaced : count is_misplaced s.queue.waiters ≡ 0 = o.ranked in
      (
        granted,
        waiters,
        behind,
        elim (Bool-cases (is_interactive w.priority)) [
          | inl front ↦ inl front
          | inr back ↦ inr (ranked_behind w rest behind back (rw e at misplaced))
        ],
      )

  -- A generation ends and the request that is granted the slot resumes, once for each waiter.
  abbrev pub turns : F.Float → List Waiter → List (Event F)
  turns seconds [] = []
  turns seconds (w ∷ waiters) =
      Event.finishes Priority.interactive seconds ∷ Event.resumes w.sequence ∷ turns seconds waiters

  without_absent :
      (n : ℕ) (granted : List ℕ) → contains granted n ≡ false → without n granted ≡ granted
  unfolding select
  without_absent n [] free = refl
  without_absent n (m ∷ granted) free = ground (arith, without_absent n granted)

  without-head :
      (n : ℕ) (granted : List ℕ) → contains granted n ≡ false → without n (n ∷ granted) ≡ granted
  unfolding select
  without-head n granted free = ground (arith, without_absent n granted free)

  resume_takes :
      (s : System F) (n : ℕ)
      → contains s.queue.granted n ≡ true
      → perform F (Event.resumes n) s ≡ record {
        queue = record s.queue { granted = without n s.queue.granted };
        holders = s.holders + 1;
      }
  unfolding perform
  resume_takes s n h = rw h refl

  one_turn :
      (capacity room : ℕ) (s : System F) (seconds : F.Float) (w : Waiter) (rest : List Waiter)
      → IsOrderlySystem F capacity room s
      → s.queue.waiters ≡ w ∷ rest
      → ltb 0 s.holders ≡ true
      → let t =
          perform F
            (Event.resumes w.sequence)
            (perform F (Event.finishes Priority.interactive seconds) s) in
        (t.queue.waiters ≡ rest) × (t.queue.granted ≡ s.queue.granted) × (t.holders ≡ s.holders)
  one_turn capacity room s seconds w rest o e held =
      let finished = perform F (Event.finishes Priority.interactive seconds) s in
      let (waiters, granted, holders) =
        finish_hands_on capacity room s Priority.interactive seconds w rest o e held in
      let free = head_free capacity room s w rest o e in
      let here : contains finished.queue.granted w.sequence ≡ true = rw granted (ground arith) in
      rw (resume_takes finished w.sequence here) (
        waiters,
        rw granted (without-head w.sequence s.queue.granted free),
        rw holders (ground arith),
      )

  all_turns :
      (capacity room : ℕ) (s : System F) (seconds : F.Float) (waiters : List Waiter)
      → IsOrderlySystem F capacity room s
      → s.queue.waiters ≡ waiters
      → ltb 0 s.holders ≡ true
      → let t = perform_events F (turns seconds waiters) s in
        (t.queue.waiters ≡ []) × (t.queue.granted ≡ s.queue.granted) × (t.holders ≡ s.holders)
  unfolding perform_events
  all_turns capacity room s seconds [] o e held = (e, refl, refl)
  all_turns capacity room s seconds (w ∷ rest) o e held =
      let finished = perform F (Event.finishes Priority.interactive seconds) s in
      let resumed = perform F (Event.resumes w.sequence) finished in
      let (waiters, granted, holders) = one_turn capacity room s seconds w rest o e held in
      let orderly =
        perform-IsOrderly F capacity room (Event.resumes w.sequence) finished
          (perform-IsOrderly F capacity room (Event.finishes Priority.interactive seconds) s o) in
      let (empty, same_granted, same_holders) =
        all_turns capacity room resumed seconds rest orderly waiters (ap (ltb 0) holders ∙ held) in
      (empty, same_granted ∙ granted, same_holders ∙ holders)

  -- From a new queue, whatever events led to it: where a request holds a slot and no more requests
  -- arrive or give up, as many generations end as requests wait, each followed by the resumption of
  -- the waiter next in line; then nobody waits and as many slots are held and granted as before.
  pub everyone_served :
      (max_concurrency max_waiting queue_timeout : ℕ) (events : List (Event F)) (seconds : F.Float)
      → let s = history F max_concurrency max_waiting queue_timeout events in
        ltb 0 s.holders ≡ true
        → let t = perform_events F (turns seconds s.queue.waiters) s in
          (t.queue.waiters ≡ []) × (t.queue.granted ≡ s.queue.granted) × (t.holders ≡ s.holders)
  everyone_served max_concurrency max_waiting queue_timeout events seconds held =
      let s = history F max_concurrency max_waiting queue_timeout events in
      all_turns (at_least_one max_concurrency) (at_least_one max_waiting) s seconds s.queue.waiters
        (history-IsOrderly F max_concurrency max_waiting queue_timeout events) refl held
