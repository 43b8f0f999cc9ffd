-- ===== src/Training/Runs.antt =====
-- backend/app/db_training_runs.py: looking a run up and queueing one.
use mathlib.Core.Option
use css360_syllabus_bot.Prelude.{
  ℕ, Bool, not, ◌&&◌, String, Option, none, any, contains, ◌==◌, nat_eq, string_eq,
}
use css360_syllabus_bot.Table.{find, insert}
use css360_syllabus_bot.CourseId.{is_valid_course_id}
use css360_syllabus_bot.Training.Run.{
  RunState, is_terminal, is_mode, TrainingRun, RunRecord, map_training_run, optional_string,
}
use css360_syllabus_bot.Training.Error.{
  Result, ok, guard, require, ◌>>=◌, ◌>>◌, invalid_course_id, unknown_mode, active_training_run,
  duplicate_key, missing_course,
}
use css360_syllabus_bot.Training.Database.{Database}

-- WHERE course_id = ... AND run_id = ..., the table's primary key
abbrev pub has_key : String → String → TrainingRun → Bool
has_key course_id run_id row = row.course_id == course_id && row.run_id == run_id

-- A row of the course that is not terminal.
abbrev pub is_outstanding : String → TrainingRun → Bool
is_outstanding course_id row = row.course_id == course_id && not (is_terminal row.state)

abbrev pub assert_valid_course_id : String → Result (Unit {0})
assert_valid_course_id course_id = guard (is_valid_course_id course_id) invalid_course_id

unfoldable pub find_run : Database → String → String → Option RunRecord
find_run db course_id run_id = Option.map map_training_run (find (has_key course_id run_id) db.runs)

unfoldable pub get_training_run : Database → String → String → Result (Option RunRecord)
unfolding find_run
get_training_run db course_id run_id = do
  assert_valid_course_id course_id
  ok (find_run db course_id run_id)

-- A fresh row of the queue: no job, no claim, no attempt.
abbrev pub new_run : String → String → String → String → ℕ → ℕ → ℕ → Option String → ℕ → TrainingRun
new_run course_id run_id mode dataset_ref approved train validation dataset_sha256 now = record {
  run_id = run_id;
  course_id = course_id;
  mode = mode;
  state = RunState.queued;
  enqueued_at = now;
  updated_at = now;
  dataset_ref = dataset_ref;
  dataset_sha256 = optional_string dataset_sha256;
  approved_example_count = approved;
  train_examples = train;
  validation_examples = validation;
  attempt = 0;
  job_id = none;
  claim_owner = none;
  claim_claimed_at = none;
  claim_expires_at = none;
  error = none;
  completion = none;
}

-- The conditional INSERT, with the table's foreign key and primary key; `run_id` is the generated identifier and `now` the clock.
unfoldable pub enqueue_training_run :
    Database
    → (course_id run_id mode dataset_ref : String) (approved train validation : ℕ)
    → (dataset_sha256 : Option String) (now : ℕ) → Result (RunRecord × Database)
enqueue_training_run db course_id run_id mode dataset_ref approved train validation sha now = do
  assert_valid_course_id course_id
  guard (is_mode mode) unknown_mode
  guard (not (any (is_outstanding course_id) db.runs)) active_training_run
  guard (contains db.courses course_id) missing_course
  guard (not (any (has_key course_id run_id) db.runs)) duplicate_key
  let row = new_run course_id run_id mode dataset_ref approved train validation sha now
  let db' = record db { runs = insert row db.runs }
  found ← get_training_run db' course_id run_id
  created ← require found active_training_run
  ok (created, db')
