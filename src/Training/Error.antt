-- ===== src/Training/Error.antt =====
-- What the queue's operations raise: the exceptions of the repositories and the HTTP errors of the
-- routes, one constructor each, with the values that their messages name.
use css360_syllabus_bot.Prelude.{ℕ, Bool, true, false, String, Option, none, some}
use css360_syllabus_bot.Training.Run.{RunState}

-- The refusals of `training_run_retry_block`.
pub data RetryBlock : Type 0 where
  reported_recently : ℕ → Option String → RetryBlock
  already_succeeded already_queued : RetryBlock
  held_until : Option ℕ → RetryBlock
  unrecognised_state : String → RetryBlock

pub data Error : Type 0 where
  -- db_training_runs.py, db_model_requests.py
  invalid_course_id unknown_mode active_training_run empty_owner bad_lease empty_job_id : Error
  active_model_request duplicate_key missing_course : Error
  -- training_retry.py
  no_request no_current_run run_missing no_dataset : Error
  retry_blocked : RetryBlock → Error
  -- training_queue_routes.py
  run_not_found : Error
  superseded_run_callback : String → Error
  terminal_run_callback : RunState → Error
  has_slurm_job : String → Error
  job_id_mismatch : String → String → Error
  bad_outcome bad_version bad_artifact_ref missing_base_model short_run : Error
  course_not_found : Error
  version_already_registered : String → Error
  -- db_models.py, model_publication.py
  version_not_found version_not_ready service_unavailable not_servable missing_version : Error

-- What an operation comes to: an exception, or the value that it returns.
pub data Result {κ} (Value : Type κ) : Type κ where
  err : Error → Result Value
  ok : Value → Result Value

abbrev pub is_ok {κ} : {Value : Type κ} → Result Value → Bool
is_ok (err raised) = false
is_ok (ok value) = true

-- The value, or an exception where there is none.
unfoldable pub require {κ} : {Value : Type κ} → Option Value → Error → Result Value
require none raised = err raised
require (some value) raised = ok value

-- if not test: raise the exception
unfoldable pub guard : Bool → Error → Result (Unit {0})
guard false raised = err raised
guard true raised = ok tt

infixl 5 ◌>>◌ ◌>>=◌
unfoldable pub ◌>>◌ {κ} : {Value : Type κ} → Result (Unit {0}) → Result Value → Result Value
err raised >> rest = err raised
ok done >> rest = rest

unfoldable pub ◌>>=◌ {ι κ} :
    {First : Type ι} {Second : Type κ} → Result First → (First → Result Second) → Result Second
err raised >>= rest = err raised
ok value >>= rest = rest value
