-- ===== src/Training/Database.antt =====
-- The tables that the training queue reads and writes (backend/db/schema.sql), one list of rows
-- each. An operation takes the database and returns it anew beside its result; one that raises
-- returns no database, since its transaction is rolled back.
use css360_syllabus_bot.Prelude.{ℕ, Bool, true, false, String, Option, List, string_eq}
use css360_syllabus_bot.Training.Run.{TrainingRun}

-- REQUEST_STATUSES of db_model_requests.py
pub data RequestStatus : Type 0 where
  requested preparing training ready failed : RequestStatus

-- status in ACTIVE_STATUSES
abbrev pub is_active_status : RequestStatus → Bool
is_active_status RequestStatus.requested = true
is_active_status RequestStatus.preparing = true
is_active_status RequestStatus.training = true
is_active_status _ = false

-- The keys of a `preparation` document that a retry reads; an absent count is 0.
pub record Preparation : Type 0 where
  pub dataset_ref : Option String
  pub source_approved_example_count : ℕ
  pub train_examples : ℕ
  pub validation_examples : ℕ

-- The `training` document that a submission writes.
pub record TrainingJob : Type 0 where
  pub job_id : String
  pub mode : String
  pub submitted_at : ℕ
  pub dataset_ref : String
  pub train_examples : ℕ
  pub validation_examples : ℕ

pub record ModelRequest : Type 0 where
  pub course_id : String
  pub status : RequestStatus
  pub requested_at : ℕ
  pub updated_at : ℕ
  pub approved_example_count : ℕ
  pub failure_message : Option String
  pub preparation : Option Preparation
  pub preparation_error : Option String
  pub training : Option TrainingJob
  pub launch_error : Option String
  pub current_run_id : Option String

pub record ModelVersion : Type 0 where
  pub course_id : String
  pub version : String
  pub base_model : String
  pub training_example_count : ℕ
  pub status : String
  pub deployment : String
  pub artifact_ref : String
  pub created_at : ℕ
  pub updated_at : Option ℕ
  pub notes : Option String
  pub run_id : Option String

-- A row of `course_models`.
pub record CourseModel : Type 0 where
  pub course_id : String
  pub current_version : String

pub record Database : Type 0 where
  pub courses : List String
  pub runs : List TrainingRun
  pub requests : List ModelRequest
  pub versions : List ModelVersion
  pub models : List CourseModel
