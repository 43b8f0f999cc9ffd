-- ===== src/Training/Run.antt =====
-- backend/app/db_training_runs.py: a row of `training_runs`, and the record that the API reads.
-- Times are microseconds since a fixed moment.
use css360_syllabus_bot.Prelude.{
  ℕ, ◌*◌, Bool, true, false, String, Option, none, some, ◌==◌, string_eq, strip, if◌then◌else◌,
}

-- RUN_STATES; the column is plain TEXT, so any other value can stand in it.
pub data RunState : Type 0 where
  queued claimed submitted training succeeded failed : RunState
  unrecognised : String → RunState

-- state in TERMINAL_RUN_STATES
abbrev pub is_terminal : RunState → Bool
is_terminal succeeded = true
is_terminal failed = true
is_terminal _ = false

-- MODES
abbrev pub is_mode : String → Bool
is_mode mode = if mode == "smoke" then true else mode == "full"

abbrev pub seconds : ℕ → ℕ
seconds n = n * 1000000

-- SUBMITTED_STALE_AFTER_SECONDS
abbrev pub submitted_stale_after : ℕ
submitted_stale_after = seconds (6 * 60 * 60)

-- DEFAULT_LEASE_SECONDS
abbrev pub default_lease_seconds : ℕ
default_lease_seconds = 900

-- SUPERSEDED_ERROR
abbrev pub superseded_error : String
superseded_error = "Superseded by admin retry"

-- What the completion callback stores of a report, less the fields that nothing reads.
pub record Completion : Type 0 where
  pub outcome : String
  pub received_at : ℕ
  pub job_id : Option String
  pub error : Option String

pub record TrainingRun : Type 0 where
  pub run_id : String
  pub course_id : String
  pub mode : String
  pub state : RunState
  pub enqueued_at : ℕ
  pub updated_at : ℕ
  pub dataset_ref : String
  pub dataset_sha256 : Option String
  pub approved_example_count : ℕ
  pub train_examples : ℕ
  pub validation_examples : ℕ
  pub attempt : ℕ
  pub job_id : Option String
  pub claim_owner : Option String
  pub claim_claimed_at : Option ℕ
  pub claim_expires_at : Option ℕ
  pub error : Option String
  pub completion : Option Completion

pub record Claim : Type 0 where
  pub owner : String
  pub claimed_at : ℕ
  pub expires_at : ℕ

pub record RunRecord : Type 0 where
  pub run_id : String
  pub course_id : String
  pub mode : String
  pub state : RunState
  pub enqueued_at : ℕ
  pub updated_at : ℕ
  pub dataset_ref : String
  pub approved_example_count : ℕ
  pub train_examples : ℕ
  pub validation_examples : ℕ
  pub attempt : ℕ
  pub job_id : Option String
  pub error : Option String
  pub dataset_sha256 : Option String
  pub completion : Option Completion
  pub claim : Option Claim

-- `optional_string` of db_mapping.py at a text or NULL.
unfoldable pub optional_string : Option String → Option String
optional_string none = none
optional_string (some value) =
    let cleaned = strip value in if cleaned == "" then none else some cleaned

-- A claim missing any of its three parts is no claim.
unfoldable pub map_claim : Option String → Option ℕ → Option ℕ → Option Claim
map_claim (some owner) (some claimed_at) (some expires_at) =
    some (record { owner = owner; claimed_at = claimed_at; expires_at = expires_at })
map_claim _ _ _ = none

unfoldable pub map_training_run : TrainingRun → RunRecord
unfolding map_claim
map_training_run row = record {
  run_id = row.run_id;
  course_id = row.course_id;
  mode = row.mode;
  state = row.state;
  enqueued_at = row.enqueued_at;
  updated_at = row.updated_at;
  dataset_ref = row.dataset_ref;
  approved_example_count = row.approved_example_count;
  train_examples = row.train_examples;
  validation_examples = row.validation_examples;
  attempt = row.attempt;
  job_id = optional_string row.job_id;
  error = optional_string row.error;
  dataset_sha256 = optional_string row.dataset_sha256;
  completion = row.completion;
  claim = map_claim (optional_string row.claim_owner) row.claim_claimed_at row.claim_expires_at;
}
