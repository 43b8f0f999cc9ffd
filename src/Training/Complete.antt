-- ===== src/Training/Complete.antt =====
-- backend/app/training_queue_routes.py: how a job ended, as the job itself reports it.
pub mod Checks
unfoldable pub use Checks.*
use css360_syllabus_bot.Prelude.{
  ℕ, Bool, true, false, not, ◌&&◌, ◌||◌, String, Option, none, some, List, [], ◌∷◌, ltb, codes,
  ◌==◌, nat_eq, string_eq, if◌then◌else◌,
}
use css360_syllabus_bot.Training.Run.{RunState, Completion, RunRecord}
use css360_syllabus_bot.Training.Error.{
  Result, ok, guard, ◌>>=◌, ◌>>◌, terminal_run_callback, job_id_mismatch, bad_outcome, bad_version,
  bad_artifact_ref, missing_base_model, short_run,
}
use css360_syllabus_bot.Training.Database.{RequestStatus, Database}
use css360_syllabus_bot.Training.Runs.{assert_valid_course_id}
use css360_syllabus_bot.Training.Patch.{RunPatch, no_patch, is_given, update_training_run}
use css360_syllabus_bot.Training.RetryBlock.{text_of}
use css360_syllabus_bot.Training.Requests.{update_model_request_for_run}
use css360_syllabus_bot.Training.VersionKey.{match_version}
use css360_syllabus_bot.Training.Worker.{
  require_run, require_current_run, failure_message, failure_patch,
}
use css360_syllabus_bot.Training.Registration.{
  Registered, NewVersion, status_of, succeeded_patch, register_version,
}

unfoldable pub complete_failed :
    Database
    → String
    → String
    → CompletionRequest
    → String
    → Option String
    → ℕ
    → Result (CompletionResponse × Database)
unfolding failed_completion_patch
complete_failed db course_id run_id request recorded job_id now = do
  (run, db') ←
      update_training_run db course_id run_id (failed_completion_patch request recorded job_id now)
        now
  (updated, done) ←
      update_model_request_for_run db' course_id run_id
        (failure_patch run_id (reported_error request.error) now) now
  ok (
    record { run_state = RunState.failed; request_status = status_of updated; registered = none },
    done,
  )

-- The train split that was reported, or else that of the run.
abbrev pub training_example_count : Option ℕ → ℕ → ℕ
training_example_count none queued = queued
training_example_count (some reported) queued = reported

-- A success that is not to be registered ends the run and leaves the registry alone.
unfoldable pub complete_unregistered :
    Database → String → String → ℕ → Result (CompletionResponse × Database)
unfolding succeeded_patch
complete_unregistered db course_id run_id now = do
  (run, done) ← update_training_run db course_id run_id (succeeded_patch now) now
  ok (record { run_state = RunState.succeeded; request_status = none; registered = none }, done)

unfoldable pub version_of_completion : CompletionRequest → String → String → RunRecord → NewVersion
version_of_completion request run_id artifact_ref run = record {
  run_id = some run_id;
  base_model = text_of request.base_model;
  training_example_count = training_example_count request.train_examples run.train_examples;
  artifact_ref = artifact_ref;
  status = "ready";
  deployment = "offline";
  version = request.version;
  notes = none;
  set_current = request.set_current;
}

module _ (digit_value : ℕ → Option ℕ) where
  abbrev pub is_version_or_none : Option String → Bool
  is_version_or_none none = true
  is_version_or_none (some version) = is_given (match_version digit_value version)

  unfoldable pub complete_registered :
      Database
      → String
      → String
      → CompletionRequest
      → String
      → RunRecord
      → ℕ
      → Result (CompletionResponse × Database)
  unfolding version_of_completion
  complete_registered db course_id run_id request artifact_ref run now = do
    (registered, done) ←
        register_version digit_value db course_id
          (version_of_completion request run_id artifact_ref run) now
    ok (
      record {
        run_state = RunState.succeeded;
        request_status = registered.request_status;
        registered = some registered;
      },
      done,
    )

  unfoldable pub complete_succeeded :
      Database
      → String
      → String
      → CompletionRequest
      → String
      → RunRecord
      → String
      → Option String
      → ℕ
      → Result (CompletionResponse × Database)
  unfolding completion_patch complete_unregistered complete_registered
  complete_succeeded db course_id run_id request artifact_ref run recorded job_id now = do
    (written, db') ←
        update_training_run db course_id run_id (completion_patch request recorded job_id now) now
    if will_register request
        then complete_registered db' course_id run_id request artifact_ref run now
        else complete_unregistered db' course_id run_id now

  -- POST .../completed
  unfoldable pub record_completion :
      Database → String → String → CompletionRequest → ℕ → Result (CompletionResponse × Database)
  record_completion db course_id run_id request now = do
    assert_valid_course_id course_id
    guard (request.outcome == "succeeded" || request.outcome == "failed") bad_outcome
    guard (is_version_or_none request.version) bad_version
    artifact_ref ← if will_register request then check_registration request else ok ""
    run ← require_run db course_id run_id
    require_current_run db course_id run_id
    refuse_conflicting_completion run request.outcome
    let recorded = text_of run.job_id
    let reported = text_of request.job_id
    check_job recorded reported
    let job_id = job_of recorded reported
    if request.outcome == "failed"
        then complete_failed db course_id run_id request recorded job_id now
        else complete_succeeded db course_id run_id request artifact_ref run recorded job_id now
