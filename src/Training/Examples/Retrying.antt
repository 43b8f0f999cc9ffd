-- ===== src/Training/Examples/Retrying.antt =====
-- Retries of the example course's run.
use css360_syllabus_bot.Prelude.{
  ◌≡◌, ◌≢◌, refl, true, false, String, eq_iff, none, some, [], ◌∷◌, strip,
}
use css360_syllabus_bot.Table.{find, update, insert}
use css360_syllabus_bot.Training.Run.{map_training_run, optional_string}
use css360_syllabus_bot.Training.Error.{Result, is_ok, guard, require, ◌>>=◌, ◌>>◌}
use css360_syllabus_bot.Training.Database.{Database}
use css360_syllabus_bot.Training.Runs.{find_run, get_training_run, enqueue_training_run}
use css360_syllabus_bot.Training.Patch.{
  write_run, update_training_run, fail_patch, fail_training_run, supersede_training_run,
}
use css360_syllabus_bot.Training.RetryBlock.{block_in, training_run_retry_block}
use css360_syllabus_bot.Training.Requests.{
  map_model_request, find_request, lock_model_request, update_model_request,
}
use css360_syllabus_bot.Training.Retry.{
  carried_count, refuse, retry_request_patch, enqueue_replacement, Retried, retry_training_run,
}
use css360_syllabus_bot.Training.Worker.{
  record_submission, record_submission_failure, record_refusal, record_training_failure,
}
use css360_syllabus_bot.Training.Complete.{CompletionRequest, record_completion}
use css360_syllabus_bot.Training.Overruled.{IsOverruled, overruled, Raises, overruled_reports_raise}
use css360_syllabus_bot.Training.Registration.{NewVersion, register_version}
use css360_syllabus_bot.Training.Replaced.{IsReplaced}
use css360_syllabus_bot.Training.Replaced.Retry.{retry_replaces}
use css360_syllabus_bot.CourseId.{is_valid_course_id}
use css360_syllabus_bot.Training.Examples.{
  course, failed_row, request_for_run, database, database_of, digit, value_of, value_of_lem,
}

pub attempt : Result (Retried × Database)
attempt = retry_training_run (database_of failed_row) course none "run-2" 5000 5000

pub is_let_through : is_ok attempt ≡ true
unfolding attempt retry_training_run is_valid_course_id strip guard require ◌>>=◌ ◌>>◌
    lock_model_request find_request map_model_request optional_string find update insert
    get_training_run find_run map_training_run refuse training_run_retry_block block_in
    supersede_training_run fail_training_run fail_patch update_training_run write_run
    enqueue_replacement enqueue_training_run carried_count retry_request_patch update_model_request
is_let_through = refl

abbrev pub retried : Retried × Database
retried = value_of attempt is_let_through

retry_replaces_example : IsReplaced (database_of failed_row) course "run-2" 5000 retried.1
unfolding attempt
retry_replaces_example =
    retry_replaces (database_of failed_row) retried.1 course none "run-2" 5000 5000 retried.0
      (value_of_lem attempt is_let_through)

abbrev pub report : CompletionRequest
report = record {
  outcome = "succeeded";
  job_id = some "41";
  error = none;
  version = none;
  register_model = true;
  set_current = false;
  artifact_ref = some "runs/run-1";
  base_model = some "llama";
  training_length_satisfied = some true;
  missing_optimizer_steps = some 0;
  train_examples = some 100;
  validation_examples = some 20;
}

-- A registration of a version of the run.
abbrev pub registration : NewVersion
registration = record {
  run_id = some "run-1";
  base_model = "llama";
  training_example_count = 100;
  artifact_ref = "runs/run-1";
  status = "ready";
  deployment = "offline";
  version = none;
  notes = none;
  set_current = false;
}

is_named : ◌≢◌ {A = String} "run-1" ""
is_named e = cc (e, (eq_iff "run-1" "").1 e)

abbrev pub handed_over : Database
handed_over = database (failed_row ∷ []) (request_for_run "run-2" ∷ []) []

ids_differ : ◌≢◌ {A = String} "run-2" "run-1"
ids_differ e = cc (e, (eq_iff "run-2" "run-1").1 e)

late : IsOverruled handed_over course "run-1"
unfolding find_request map_model_request optional_string strip find
late = overruled (request_for_run "run-2") "run-2" refl refl ids_differ

overruled_reports_raise_example :
    Raises (record_submission handed_over course "run-1" "41" 100 20 6000)
    × Raises (record_submission_failure handed_over course "run-1" "late" 6000)
    × Raises (record_refusal handed_over course "run-1" "late" 6000)
    × Raises (record_training_failure handed_over course "run-1" "late" 6000)
    × Raises (record_completion digit handed_over course "run-1" report 6000)
    × Raises (register_version digit handed_over course registration 6000)
overruled_reports_raise_example =
    overruled_reports_raise digit handed_over course "run-1" "41" "late" report registration 100 20
      6000 late refl is_named
