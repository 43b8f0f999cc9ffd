-- ===== src/Training/Sound.antt =====
-- The invariant of the run queue, and the moves that its operations make: keys are unique, and a
-- course has at most one outstanding run.
pub mod Invariant
pub mod Requests
pub mod Routes
pub mod Completion
pub mod Queue
pub mod Patches
pub mod Operations
pub mod History
pub mod Once
use mathlib.Core.Option
use css360_syllabus_bot.Prelude.{
  any, ◌≢◌, ℕ, ◌≤◌, ◌≡◌, refl, Bool, true, false, String, Option, none, some, List, arith, ◌==◌,
  string_eq, if◌then◌else◌, Option-cases, inl, inr,
}
use css360_syllabus_bot.Table.{find, update, insert, count}
use css360_syllabus_bot.Table.Laws.{count-update_same, count-update-le, count-insert}
use css360_syllabus_bot.Training.Run.{
  RunState, is_terminal, TrainingRun, RunRecord, map_training_run,
}
use css360_syllabus_bot.Training.Error.{Result, ok, err}
use css360_syllabus_bot.Training.Database.{Database}
use css360_syllabus_bot.Training.Runs.{has_key, is_outstanding, find_run}
use css360_syllabus_bot.Training.Patch.{
  RunPatch, is_given, or_old, apply_patch, is_empty_patch, write_run, update_training_run,
}
use css360_syllabus_bot.Training.Ensures.{
  Ensures, returned, raised, Ensures-guard, Ensures-if, Ensures-bind,
}

pub record IsSound (rows : List TrainingRun) : Type 0 where
  pub keyed : (course_id run_id : String) → count (has_key course_id run_id) rows ≤ 1
  pub one_outstanding : (course_id : String) → count (is_outstanding course_id) rows ≤ 1

infix 40 ◌⟶◌
-- How one operation may move the state of a run.
pub data ◌⟶◌ : RunState → RunState → Type 0 where
  stays : {s : RunState} → s ⟶ s
  requeues : {s : RunState} → is_terminal s ≡ false → s ⟶ RunState.queued
  is_taken : {s : RunState} → is_terminal s ≡ false → s ⟶ RunState.claimed
  is_submitted : {s : RunState} → is_terminal s ≡ false → s ⟶ RunState.submitted
  fails : {s : RunState} → s ≢ RunState.succeeded → s ⟶ RunState.failed
  succeeds : {s : RunState} → s ⟶ RunState.succeeded
  is_patched : {s t : RunState} → is_terminal s ≡ false → s ⟶ t

pub ⟶-terminal : {s t : RunState} → s ⟶ t → is_terminal t ≡ false → is_terminal s ≡ false
⟶-terminal stays h = h
⟶-terminal (requeues u) h = u
⟶-terminal (is_taken u) h = u
⟶-terminal (is_submitted u) h = u
⟶-terminal (fails u) h = cc
⟶-terminal succeeds h = cc
⟶-terminal (is_patched u) h = u

-- The change keeps the key of every row, and so its course.
abbrev pub KeepsKey : (TrainingRun → TrainingRun) → Type 0
KeepsKey change =
    (x : TrainingRun) → ((change x).course_id ≡ x.course_id) × ((change x).run_id ≡ x.run_id)

-- The change leaves no run without a job that had one.
abbrev pub KeepsJob : (TrainingRun → TrainingRun) → Type 0
KeepsJob change = (x : TrainingRun) → is_given x.job_id ≡ true → is_given (change x).job_id ≡ true

-- What operations do to the table of runs: they write one run that they found, moving its state
-- along the diagram, or queue a run under a free key for a course with nothing outstanding.
pub data Moves (start : List TrainingRun) : List TrainingRun → Type 0 where
  still : Moves start start
  writes :
      {rows : List TrainingRun} (course_id run_id : String) (change : TrainingRun → TrainingRun)
      (row : TrainingRun)
      → Moves start rows
      → KeepsKey change
      → KeepsJob change
      → find (has_key course_id run_id) rows ≡ some row
      → row.state ⟶ (change row).state
      → Moves start (update (has_key course_id run_id) change rows)
  queues :
      {rows : List TrainingRun} (row : TrainingRun)
      → Moves start rows
      → row.state ≡ RunState.queued
      → any (is_outstanding row.course_id) rows ≡ false
      → any (has_key row.course_id row.run_id) rows ≡ false
      → Moves start (insert row rows)

-- A patch that moves the run's state along the diagram.
abbrev pub Allowed : RunPatch → TrainingRun → Type 0
Allowed patch row = row.state ⟶ or_old patch.state row.state

-- A patch of the job names one.
abbrev pub keeps_job : Option (Option String) → Bool
keeps_job none = true
keeps_job (some job_id) = is_given job_id

job_kept :
    (job_id : Option (Option String)) (old : Option String)
    → keeps_job job_id ≡ true
    → is_given old ≡ true
    → is_given (or_old job_id old) ≡ true
job_kept none old h g = g
job_kept (some job_id) old h g = h

pub update_training_run-Moves :
    {start : List TrainingRun} (db : Database) (course_id run_id : String) (patch : RunPatch)
    (now : ℕ)
    → Moves start db.runs
    → keeps_job patch.job_id ≡ true
    → ((row : TrainingRun) → find (has_key course_id run_id) db.runs ≡ some row → Allowed patch row)
    → Ensures (λ r. Moves start r.1.runs) (update_training_run db course_id run_id patch now)
unfolding update_training_run
update_training_run-Moves db course_id run_id patch now s keeps allowed =
    Ensures-guard _ _ _ λ valid. elim (Option-cases (find (has_key course_id run_id) db.runs)) [
      | inl missing ↦ rw missing (returned s)
      | inr (row, found) ↦ rw found (
          Ensures-if (is_empty_patch patch) _ _ (λ e. returned s)
            (λ e. returned (
              writes course_id run_id (apply_patch patch now) row s (λ x. (refl, refl))
                (λ x. job_kept patch.job_id x.job_id keeps) found (allowed row found))))
    ]
