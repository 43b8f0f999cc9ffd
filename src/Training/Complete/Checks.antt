-- ===== src/Training/Complete/Checks.antt =====
-- backend/app/training_queue_routes.py: the request of a completion, what is refused in it, and what
-- it writes on the run.
use css360_syllabus_bot.Prelude.{
  ℕ, Bool, true, false, not, ◌&&◌, ◌||◌, String, Option, none, some, List, [], ◌∷◌, ltb, codes,
  ◌==◌, nat_eq, string_eq, if◌then◌else◌,
}
use css360_syllabus_bot.Training.Run.{RunState, Completion, RunRecord}
use css360_syllabus_bot.Training.Error.{
  Result, ok, guard, ◌>>=◌, ◌>>◌, terminal_run_callback, job_id_mismatch, bad_artifact_ref,
  missing_base_model, short_run,
}
use css360_syllabus_bot.Training.Database.{RequestStatus}
use css360_syllabus_bot.Training.Patch.{RunPatch, no_patch, is_given}
use css360_syllabus_bot.Training.RetryBlock.{text_of}
use css360_syllabus_bot.Training.Worker.{failure_message}
use css360_syllabus_bot.Training.Registration.{Registered}

-- The fields of a completion request that decide what is written.
pub record CompletionRequest : Type 0 where
  pub outcome : String
  pub job_id : Option String
  pub error : Option String
  pub version : Option String
  pub register_model : Bool
  pub set_current : Bool
  pub artifact_ref : Option String
  pub base_model : Option String
  pub training_length_satisfied : Option Bool
  pub missing_optimizer_steps : Option ℕ
  pub train_examples : Option ℕ
  pub validation_examples : Option ℕ

pub record CompletionResponse : Type 0 where
  pub run_state : RunState
  pub request_status : Option RequestStatus
  pub registered : Option Registered

abbrev pub has_ended_as : RunState → String → Bool
has_ended_as RunState.succeeded outcome = outcome == "succeeded"
has_ended_as RunState.failed outcome = outcome == "failed"
has_ended_as _ outcome = true

unfoldable pub refuse_conflicting_completion : RunRecord → String → Result (Unit {0})
refuse_conflicting_completion run outcome =
    guard (has_ended_as run.state outcome) (terminal_run_callback run.state)

-- cleaned.startswith("/")
abbrev pub is_absolute : List ℕ → Bool
is_absolute [] = false
is_absolute (c ∷ cs) = c == b'/'

unfoldable pub validate_artifact_ref : Option String → Result String
unfolding text_of
validate_artifact_ref artifact_ref = do
  let cleaned = text_of artifact_ref
  guard (not (cleaned == "") && not (is_absolute (codes cleaned))) bad_artifact_ref
  ok cleaned

-- trainingLengthSatisfied is false, or optimizer steps are missing.
abbrev pub stopped_short : Option Bool → Option ℕ → Bool
stopped_short (some false) missing = true
stopped_short _ none = false
stopped_short _ (some missing) = ltb 0 missing

-- The checks of a success that is to be registered; the reference to store.
unfoldable pub check_registration : CompletionRequest → Result String
unfolding validate_artifact_ref
check_registration request = do
  artifact_ref ← validate_artifact_ref request.artifact_ref
  guard (not (text_of request.base_model == "")) missing_base_model
  guard (not (stopped_short request.training_length_satisfied request.missing_optimizer_steps))
      short_run
  ok artifact_ref

abbrev pub will_register : CompletionRequest → Bool
will_register request = request.outcome == "succeeded" && request.register_model

abbrev pub or_none : String → Option String
or_none text = if text == "" then none else some text

-- recorded_job_id or reported_job_id or None
abbrev pub job_of : String → String → Option String
job_of recorded reported = if recorded == "" then or_none reported else some recorded

unfoldable pub check_job : String → String → Result (Unit {0})
check_job recorded reported =
    guard (recorded == "" || reported == "" || recorded == reported)
      (job_id_mismatch recorded reported)

-- Recovers a submission report that was lost.
abbrev pub recovered_job : String → Option String → Option (Option String)
recovered_job recorded job_id = if recorded == "" && is_given job_id then some job_id else none

unfoldable pub completion_record : CompletionRequest → Option String → ℕ → Completion
completion_record request job_id received_at = record {
  outcome = request.outcome;
  received_at = received_at;
  job_id = job_id;
  error = request.error;
}

-- request.error or ...
abbrev pub reported_error : Option String → String
reported_error none = failure_message
reported_error (some error) = if error == "" then failure_message else error

unfoldable pub failed_completion_patch : CompletionRequest → String → Option String → ℕ → RunPatch
failed_completion_patch request recorded job_id now = record no_patch {
  state = some RunState.failed;
  updated_at = some now;
  error = some (some (reported_error request.error));
  claim = some none;
  completion = some (completion_record request job_id now);
  job_id = recovered_job recorded job_id;
}

unfoldable pub completion_patch : CompletionRequest → String → Option String → ℕ → RunPatch
completion_patch request recorded job_id now = record no_patch {
  updated_at = some now;
  error = some none;
  claim = some none;
  completion = some (completion_record request job_id now);
  train_examples = request.train_examples;
  validation_examples = request.validation_examples;
  job_id = recovered_job recorded job_id;
}
