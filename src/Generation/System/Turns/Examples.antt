-- ===== src/Generation/System/Turns/Examples.antt =====
-- The promises of the queue at one history: a request generates, background work and an
-- interactive request wait.
use css360_syllabus_bot.Prelude.{
  ℕ, ◌+◌, ◌-◌, ◌*◌, ◌≤◌, ◌≡◌, ◌⊎◌, refl, true, false, none, some, List, [], ◌∷◌, length, All, ltb,
  nat_eq, FloatOps,
}
use css360_syllabus_bot.Table.{count, select, find, insert}
use css360_syllabus_bot.Generation.{
  Priority, is_interactive, Waiter, is_nil, key_before, interactive_waiting, new_queue, enter, join,
  group_time, insert_waiter, ahead_of, estimate,
}
use css360_syllabus_bot.Generation.System.{System, Event, perform, perform_events}
use css360_syllabus_bot.Generation.System.Events.{history}
use css360_syllabus_bot.Generation.System.Turns.{
  never_over_capacity, slots_never_idle, turn_of_least, turns, everyone_served,
}

-- Whole numbers in place of floats.
abbrev whole : FloatOps
whole = record {
  Float = ℕ;
  decimal = λ n k. n;
  plus = λ a b. a + b;
  minus = λ a b. a - b;
  times = λ a b. a * b;
  over = λ a b. a;
  below = ltb;
  same = nat_eq.is_same;
  floor = λ a. a;
  ceil = λ a. a;
  round = λ a k. a;
}

abbrev arrivals : List (Event whole)
arrivals =
    Event.arrives Priority.interactive none 5
    ∷ Event.begins
    ∷ Event.arrives Priority.background none 6
    ∷ Event.arrives Priority.interactive (some "c1") 7
    ∷ []

abbrev student : Waiter
student = record { rank = 0; group = 7; sequence = 1; priority = Priority.interactive }

abbrev background_job : Waiter
background_job = record { rank = 1; group = 6; sequence = 0; priority = Priority.background }

abbrev after_arrivals : System whole
after_arrivals = history whole 1 2 100 arrivals

line : after_arrivals.queue.waiters ≡ student ∷ background_job ∷ []
unfolding history perform_events perform new_queue enter join group_time insert_waiter ahead_of
    estimate key_before count find select insert
line = refl

held : ltb 0 after_arrivals.holders ≡ true
unfolding history perform_events perform new_queue enter join group_time insert_waiter ahead_of
    estimate key_before count find select insert
held = refl

someone_waits : is_nil after_arrivals.queue.waiters ≡ false
someone_waits = rw line refl

never_over_capacity_example :
    (after_arrivals.holders + length after_arrivals.queue.granted ≤ 1)
    × (interactive_waiting after_arrivals.queue.waiters ≤ 2)
never_over_capacity_example = never_over_capacity whole 1 2 100 arrivals

slots_never_idle_example : after_arrivals.holders + length after_arrivals.queue.granted ≡ 1
slots_never_idle_example = slots_never_idle whole 1 2 100 arrivals someone_waits

turn_of_least_example :
    let t = perform whole (Event.finishes Priority.interactive 4) after_arrivals in
    (t.queue.granted ≡ 1 ∷ after_arrivals.queue.granted)
    × (t.queue.waiters ≡ background_job ∷ [])
    × All (λ x. key_before x student ≡ false) (background_job ∷ [])
    × ((is_interactive Priority.interactive ≡ true)
        ⊎ (interactive_waiting (background_job ∷ []) ≡ 0))
turn_of_least_example =
    turn_of_least whole 1 2 100 arrivals Priority.interactive 4 student (background_job ∷ []) line
      held

everyone_served_example :
    let t = perform_events whole (turns whole 4 after_arrivals.queue.waiters) after_arrivals in
    (t.queue.waiters ≡ [])
    × (t.queue.granted ≡ after_arrivals.queue.granted)
    × (t.holders ≡ after_arrivals.holders)
everyone_served_example = everyone_served whole 1 2 100 arrivals 4 held
