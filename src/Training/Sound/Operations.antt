-- ===== src/Training/Sound/Operations.antt =====
-- The operations on the queue, by workers and admins, and a history of them: each is one transaction.
use css360_syllabus_bot.Prelude.{ℕ, Bool, true, ◌&&◌, String, Option, List, [], ◌∷◌, string_eq}
use css360_syllabus_bot.Training.Run.{TrainingRun}
use css360_syllabus_bot.Training.Error.{Result, ok, err}
use css360_syllabus_bot.Training.Database.{Database}
use css360_syllabus_bot.Training.Runs.{enqueue_training_run}
use css360_syllabus_bot.Training.Claims.{claim_next_training_run}
use css360_syllabus_bot.Training.Requests.{create_model_request}
use css360_syllabus_bot.Training.Retry.{Described, retry_training_run}
use css360_syllabus_bot.Training.Registration.{NewVersion, register_version}
use css360_syllabus_bot.Training.Complete.{CompletionRequest, record_completion}
use css360_syllabus_bot.Training.AdminPatch.{TrainingRunUpdateRequest, update_course_training_run}
use css360_syllabus_bot.Training.Sound.Patches.{is_orderly}
use css360_syllabus_bot.Training.Worker.{
  release_run, record_submission, record_submission_failure, record_refusal,
  record_training_failure,
}

-- A request to the queue, by an admin or by a worker; `now` is the clock when it is served.
pub data Operation : Type 0 where
  open_request : (course_id : String) (approved now : ℕ) → Operation
  enqueue :
      (course_id run_id mode dataset_ref : String) (approved train validation : ℕ)
      (sha : Option String) (now : ℕ)
      → Operation
  retry :
      (course_id : String) (described : Option Described) (new_id : String) (now queued_at : ℕ)
      → Operation
  claim :
      (owner : String) (lease_seconds now : ℕ) (course_ids : Option (List String))
      (locked : TrainingRun → Bool)
      → Operation
  release : (course_id run_id : String) (error : Option String) (now : ℕ) → Operation
  submitted : (course_id run_id job_id : String) (train validation now : ℕ) → Operation
  submission_failed refused failed : (course_id run_id error : String) (now : ℕ) → Operation
  completed : (course_id run_id : String) (request : CompletionRequest) (now : ℕ) → Operation
  registered : (course_id : String) (new : NewVersion) (now : ℕ) → Operation
  patched : (course_id run_id : String) (request : TrainingRunUpdateRequest) (now : ℕ) → Operation

-- What is committed: the new database, or the old one where the operation raised.
abbrev pub committed {ℓ} : {A : Type ℓ} → Database → Result (A × Database) → Database
committed db (ok r) = r.1
committed db (err e) = db

abbrev pub keeps_order : Database → Operation → Bool
keeps_order db (patched course_id run_id request now) = is_orderly db course_id run_id request
keeps_order db _ = true

module _ (text_before : String → String → Bool) (digit_value : ℕ → Option ℕ) where
  unfoldable pub perform : Database → Operation → Database
  perform db (open_request c approved now) = committed db (create_model_request db c approved now)
  perform db (enqueue c r mode ref approved train validation sha now) =
      committed db (enqueue_training_run db c r mode ref approved train validation sha now)
  perform db (retry c described new_id now queued_at) =
      committed db (retry_training_run db c described new_id now queued_at)
  perform db (claim owner lease now ids locked) =
      committed db (claim_next_training_run text_before db owner lease now ids locked)
  perform db (release c r error now) = committed db (release_run db c r error now)
  perform db (submitted c r job train validation now) =
      committed db (record_submission db c r job train validation now)
  perform db (submission_failed c r error now) =
      committed db (record_submission_failure db c r error now)
  perform db (refused c r error now) = committed db (record_refusal db c r error now)
  perform db (failed c r error now) = committed db (record_training_failure db c r error now)
  perform db (completed c r request now) =
      committed db (record_completion digit_value db c r request now)
  perform db (registered c new now) = committed db (register_version digit_value db c new now)
  perform db (patched c r request now) =
      committed db (update_course_training_run db c r request now)

  unfoldable pub perform_all : Database → List Operation → Database
  perform_all db [] = db
  perform_all db (o ∷ rest) = perform_all (perform db o) rest

  -- Every admin's patch is orderly, on the runs as they stand when it is served.
  unfoldable pub patches_keep_order : Database → List Operation → Bool
  patches_keep_order db [] = true
  patches_keep_order db (o ∷ rest) = keeps_order db o && patches_keep_order (perform db o) rest
