-- ===== src/Training/Worker.antt =====
-- backend/app/training_queue_routes.py: the reports that a cluster worker makes about a run. Each
-- route is one transaction.
use css360_syllabus_bot.Prelude.{ℕ, not, String, Option, none, some, ◌==◌, string_eq, strip}
use css360_syllabus_bot.Training.Run.{is_terminal, RunRecord}
use css360_syllabus_bot.Training.Error.{
  Result, ok, guard, require, ◌>>=◌, ◌>>◌, run_not_found, superseded_run_callback,
  terminal_run_callback, has_slurm_job,
}
use css360_syllabus_bot.Training.Database.{RequestStatus, TrainingJob, ModelRequest, Database}
use css360_syllabus_bot.Training.Runs.{assert_valid_course_id, get_training_run}
use css360_syllabus_bot.Training.Patch.{
  release_training_run, fail_training_run, mark_training_run_submitted,
}
use css360_syllabus_bot.Training.RetryBlock.{text_of}
use css360_syllabus_bot.Training.Requests.{
  RequestPatch, no_request_patch, lock_model_request, update_model_request_for_run,
}

unfoldable pub require_run : Database → String → String → Result RunRecord
require_run db course_id run_id = do
  run ← get_training_run db course_id run_id
  require run run_not_found

-- A current run other than this one owns the request.
unfoldable pub check_owner : String → Option String → Result (Unit {0})
check_owner run_id none = ok tt
check_owner run_id (some current) = guard (current == run_id) (superseded_run_callback current)

unfoldable pub check_request : String → Option ModelRequest → Result (Unit {0})
unfolding check_owner
check_request run_id none = ok tt
check_request run_id (some request) = check_owner run_id request.current_run_id

unfoldable pub require_current_run : Database → String → String → Result (Unit {0})
unfolding check_request
require_current_run db course_id run_id = do
  request ← lock_model_request db course_id
  check_request run_id request

unfoldable pub refuse_terminal : RunRecord → Result (Unit {0})
refuse_terminal run = guard (not (is_terminal run.state)) (terminal_run_callback run.state)

-- POST .../release
unfoldable pub release_run :
    Database
    → String
    → String
    → (error : Option String) (now : ℕ) → Result (Option RunRecord × Database)
release_run db course_id run_id error now = do
  assert_valid_course_id course_id
  run ← require_run db course_id run_id
  refuse_terminal run
  release_training_run db course_id run_id error now

unfoldable pub submission_request_patch : String → TrainingJob → ℕ → RequestPatch
submission_request_patch run_id job submitted_at = record no_request_patch {
  status = some RequestStatus.training;
  updated_at = some submitted_at;
  current_run_id = some (some run_id);
  launch_error = some none;
  training = some (some job);
}

-- The `updatedAt` of the run just written; the write names the moment `now`.
abbrev pub written_at : Option RunRecord → ℕ → ℕ
written_at none now = now
written_at (some run) now = run.updated_at

-- POST .../submitted
unfoldable pub record_submission :
    Database
    → (course_id run_id job_id : String) (train_examples validation_examples now : ℕ)
    → Result ((Option RunRecord × Option ModelRequest) × Database)
record_submission db course_id run_id job_id train_examples validation_examples now = do
  assert_valid_course_id course_id
  run ← require_run db course_id run_id
  require_current_run db course_id run_id
  refuse_terminal run
  (submitted, marked) ←
      mark_training_run_submitted db course_id run_id job_id train_examples validation_examples now
  let submitted_at = written_at submitted now
  let job : TrainingJob = record {
    job_id = strip job_id;
    mode = run.mode;
    submitted_at = submitted_at;
    dataset_ref = run.dataset_ref;
    train_examples = train_examples;
    validation_examples = validation_examples;
  }
  (request, done) ←
      update_model_request_for_run marked course_id run_id
        (submission_request_patch run_id job submitted_at) now
  ok ((submitted, request), done)

-- The admin's half of a run that produced no job; the professor's status does not move.
unfoldable pub launch_error_patch : String → String → ℕ → RequestPatch
launch_error_patch run_id error now = record no_request_patch {
  launch_error = some (some error);
  updated_at = some now;
  current_run_id = some (some run_id);
}

-- POST .../submission-failed
unfoldable pub record_submission_failure :
    Database → (course_id run_id error : String) (now : ℕ) → Result (Option RunRecord × Database)
record_submission_failure db course_id run_id error now = do
  assert_valid_course_id course_id
  run ← require_run db course_id run_id
  require_current_run db course_id run_id
  refuse_terminal run
  (released, db') ← release_training_run db course_id run_id (some error) now
  (request, done) ←
      update_model_request_for_run db' course_id run_id (launch_error_patch run_id error now) now
  ok (released, done)

unfoldable pub refuse_job : String → Result (Unit {0})
refuse_job job_id = guard (job_id == "") (has_slurm_job job_id)

-- POST .../refused
unfoldable pub record_refusal :
    Database → (course_id run_id error : String) (now : ℕ) → Result (Option RunRecord × Database)
record_refusal db course_id run_id error now = do
  assert_valid_course_id course_id
  run ← require_run db course_id run_id
  require_current_run db course_id run_id
  refuse_terminal run
  refuse_job (text_of run.job_id)
  (refused, db') ← fail_training_run db course_id run_id error now
  (request, done) ←
      update_model_request_for_run db' course_id run_id (launch_error_patch run_id error now) now
  ok (refused, done)

abbrev pub failure_message : String
failure_message = "Training did not finish successfully."

unfoldable pub failure_patch : String → String → ℕ → RequestPatch
failure_patch run_id error now = record no_request_patch {
  status = some RequestStatus.failed;
  updated_at = some now;
  current_run_id = some (some run_id);
  failure_message = some (some failure_message);
  launch_error = some (some error);
}

-- POST .../failed
unfoldable pub record_training_failure :
    Database → (course_id run_id error : String) (now : ℕ) → Result (Option RunRecord × Database)
record_training_failure db course_id run_id error now = do
  assert_valid_course_id course_id
  run ← require_run db course_id run_id
  require_current_run db course_id run_id
  refuse_terminal run
  (failed, db') ← fail_training_run db course_id run_id error now
  (request, done) ←
      update_model_request_for_run db' course_id run_id (failure_patch run_id error now) now
  ok (failed, done)
