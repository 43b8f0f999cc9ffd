-- ===== src/Training/Patch.antt =====
-- backend/app/db_training_runs.py: patches of one run, and the transitions written by them.
use css360_syllabus_bot.Prelude.{
  ℕ, Bool, true, false, not, ◌||◌, String, Option, none, some, ◌==◌, nat_eq, string_eq, strip,
  if◌then◌else◌,
}
use css360_syllabus_bot.Table.{update}
use css360_syllabus_bot.Training.Run.{
  RunState, superseded_error, Completion, TrainingRun, Claim, RunRecord,
}
use css360_syllabus_bot.Training.Error.{Result, ok, guard, ◌>>◌, empty_job_id}
use css360_syllabus_bot.Training.Database.{Database}
use css360_syllabus_bot.Training.Runs.{has_key, assert_valid_course_id, find_run}

-- The fields of an API patch; `none` is a key that is absent, `some none` one that is null.
pub record RunPatch : Type 0 where
  pub state : Option RunState
  pub updated_at : Option ℕ
  pub dataset_ref : Option String
  pub approved_example_count : Option ℕ
  pub train_examples : Option ℕ
  pub validation_examples : Option ℕ
  pub attempt : Option ℕ
  pub job_id : Option (Option String)
  pub error : Option (Option String)
  pub claim : Option (Option Claim)
  pub completion : Option Completion

abbrev pub no_patch : RunPatch
no_patch = record {
  state = none;
  updated_at = none;
  dataset_ref = none;
  approved_example_count = none;
  train_examples = none;
  validation_examples = none;
  attempt = none;
  job_id = none;
  error = none;
  claim = none;
  completion = none;
}

abbrev pub is_given {ℓ} : {A : Type ℓ} → Option A → Bool
is_given none = false
is_given (some a) = true

abbrev pub or_old {ℓ} : {A : Type ℓ} → Option A → A → A
or_old none old = old
or_old (some new) old = new

abbrev pub is_empty_patch : RunPatch → Bool
is_empty_patch p = not (
    is_given p.state
    || is_given p.updated_at
    || is_given p.dataset_ref
    || is_given p.approved_example_count
    || is_given p.train_examples
    || is_given p.validation_examples
    || is_given p.attempt
    || is_given p.job_id
    || is_given p.error
    || is_given p.claim
    || is_given p.completion)

-- `claim` sets all three columns of the lease together, or clears all three.
abbrev pub patched_claim {ℓ} :
    {A : Type ℓ} → (Claim → A) → Option (Option Claim) → Option A → Option A
patched_claim part none old = old
patched_claim part (some none) old = none
patched_claim part (some (some claim)) old = some (part claim)

abbrev pub apply_patch : RunPatch → ℕ → TrainingRun → TrainingRun
apply_patch p now row = record row {
  state = or_old p.state row.state;
  updated_at = or_old p.updated_at now;
  dataset_ref = or_old p.dataset_ref row.dataset_ref;
  approved_example_count = or_old p.approved_example_count row.approved_example_count;
  train_examples = or_old p.train_examples row.train_examples;
  validation_examples = or_old p.validation_examples row.validation_examples;
  attempt = or_old p.attempt row.attempt;
  job_id = or_old p.job_id row.job_id;
  error = or_old p.error row.error;
  claim_owner = patched_claim (λ c. c.owner) p.claim row.claim_owner;
  claim_claimed_at = patched_claim (λ c. c.claimed_at) p.claim row.claim_claimed_at;
  claim_expires_at = patched_claim (λ c. c.expires_at) p.claim row.claim_expires_at;
  completion = elim p.completion [ none ↦ row.completion | some c ↦ some c ];
}

-- The UPDATE of one row; the repositories reach it with a patch that sets something.
unfoldable pub write_run : Database → String → String → RunPatch → ℕ → Database
write_run db course_id run_id patch now = record db {
  runs = update (has_key course_id run_id) (apply_patch patch now) db.runs;
}

-- None where the course has no such run.
unfoldable pub update_training_run :
    Database → String → String → RunPatch → ℕ → Result (Option RunRecord × Database)
unfolding find_run write_run
update_training_run db course_id run_id patch now = do
  assert_valid_course_id course_id
  elim (find_run db course_id run_id) [
    | none ↦ ok (none, db)
    | some old ↦
        if is_empty_patch patch
        then ok (some old, db)
        else (let db' = write_run db course_id run_id patch now in
            ok (find_run db' course_id run_id, db'))
  ]

unfoldable pub release_patch : Option String → ℕ → RunPatch
release_patch error now = record no_patch {
  state = some RunState.queued;
  updated_at = some now;
  claim = some none;
  error = elim error [ none ↦ none | some e ↦ some (some e) ];
}

-- Back on the queue, unleased.
unfoldable pub release_training_run :
    Database → String → String → Option String → ℕ → Result (Option RunRecord × Database)
unfolding update_training_run release_patch
release_training_run db course_id run_id error now =
    update_training_run db course_id run_id (release_patch error now) now

-- Terminally failed, unleased.
unfoldable pub fail_patch : String → ℕ → RunPatch
fail_patch error now = record no_patch {
  state = some RunState.failed;
  updated_at = some now;
  error = some (some error);
  claim = some none;
}

unfoldable pub fail_training_run :
    Database → String → String → String → ℕ → Result (Option RunRecord × Database)
unfolding update_training_run fail_patch
fail_training_run db course_id run_id error now =
    update_training_run db course_id run_id (fail_patch error now) now

unfoldable pub supersede_training_run :
    Database → String → String → ℕ → Result (Option RunRecord × Database)
unfolding fail_training_run
supersede_training_run db course_id run_id now =
    fail_training_run db course_id run_id superseded_error now

unfoldable pub submitted_patch : String → ℕ → ℕ → ℕ → RunPatch
submitted_patch job_id train_examples validation_examples now = record no_patch {
  state = some RunState.submitted;
  updated_at = some now;
  job_id = some (some job_id);
  train_examples = some train_examples;
  validation_examples = some validation_examples;
  error = some none;
  claim = some none;
}

unfoldable pub mark_training_run_submitted :
    Database → String → String → String → ℕ → ℕ → ℕ → Result (Option RunRecord × Database)
unfolding update_training_run submitted_patch
mark_training_run_submitted db course_id run_id job_id train_examples validation_examples now = do
  let cleaned = strip job_id
  guard (not (cleaned == "")) empty_job_id
  update_training_run db course_id run_id
      (submitted_patch cleaned train_examples validation_examples now) now
