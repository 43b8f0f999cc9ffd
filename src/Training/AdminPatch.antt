-- ===== src/Training/AdminPatch.antt =====
-- backend/app/db_routes.py: the route by which an admin patches a run, with any field of
-- TrainingRunUpdateRequest (backend/app/db_schemas.py).
use css360_syllabus_bot.Prelude.{ℕ, Bool, String, Option, none, some, if◌then◌else◌}
use css360_syllabus_bot.Training.Run.{RunState, Claim, RunRecord}
use css360_syllabus_bot.Training.Error.{Result, ok, require, ◌>>=◌, run_not_found}
use css360_syllabus_bot.Training.Database.{Database}
use css360_syllabus_bot.Training.Patch.{RunPatch, no_patch, update_training_run}

-- `none` is a field that was not sent, `some none` one that was sent as null; the table refuses a
-- null in the columns without a second Option.
pub record TrainingRunUpdateRequest : Type 0 where
  pub state : Option RunState
  pub dataset_ref : Option String
  pub approved_example_count : Option ℕ
  pub train_examples : Option ℕ
  pub validation_examples : Option ℕ
  pub attempt : Option ℕ
  pub job_id : Option (Option String)
  pub claim : Option (Option Claim)
  pub clear_claim : Bool
  pub error : Option (Option String)

-- The fields that were sent; `clearClaim` is an explicit release of the lease.
unfoldable pub patch_fields : TrainingRunUpdateRequest → RunPatch
patch_fields request = record no_patch {
  state = request.state;
  dataset_ref = request.dataset_ref;
  approved_example_count = request.approved_example_count;
  train_examples = request.train_examples;
  validation_examples = request.validation_examples;
  attempt = request.attempt;
  job_id = request.job_id;
  error = request.error;
  claim = if request.clear_claim then some none else request.claim;
}

-- PATCH /courses/{course_id}/training-runs/{run_id}
unfoldable pub update_course_training_run :
    Database → String → String → TrainingRunUpdateRequest → ℕ → Result (RunRecord × Database)
unfolding patch_fields
update_course_training_run db course_id run_id request now = do
  (found, done) ← update_training_run db course_id run_id (patch_fields request) now
  updated ← require found run_not_found
  ok (updated, done)
