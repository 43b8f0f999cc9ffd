-- ===== src/Training/Retry.antt =====
-- backend/app/training_retry.py: retiring a stale run and queueing its replacement.
use css360_syllabus_bot.Prelude.{
  ℕ, not, String, Option, none, some, ltb, ◌==◌, string_eq, strip, if◌then◌else◌,
}
use css360_syllabus_bot.Training.Run.{RunRecord}
use css360_syllabus_bot.Training.Error.{
  Result, ok, err, guard, require, ◌>>=◌, ◌>>◌, no_request, no_current_run, run_missing, no_dataset,
  retry_blocked,
}
use css360_syllabus_bot.Training.Database.{RequestStatus, Preparation, ModelRequest, Database}
use css360_syllabus_bot.Training.Runs.{
  assert_valid_course_id, get_training_run, enqueue_training_run,
}
use css360_syllabus_bot.Training.Patch.{supersede_training_run}
use css360_syllabus_bot.Training.RetryBlock.{training_run_retry_block}
use css360_syllabus_bot.Training.Requests.{
  RequestPatch, no_request_patch, lock_model_request, update_model_request,
}

-- What `describe_dataset` reports of the prepared files, where they are usable.
pub record Described : Type 0 where
  pub dataset_sha256 : String
  pub train_examples : ℕ
  pub validation_examples : ℕ

-- The first positive count of the files on disk, the retired run and the preparation record.
unfoldable pub carried_count : ℕ → ℕ → ℕ → ℕ
carried_count disk run preparation =
    if ltb 0 disk
    then disk
    else if ltb 0 run
    then run
    else if ltb 0 preparation
    then preparation
    else 0

abbrev pub train_on_disk : Option Described → ℕ
train_on_disk none = 0
train_on_disk (some d) = d.train_examples

abbrev pub validation_on_disk : Option Described → ℕ
validation_on_disk none = 0
validation_on_disk (some d) = d.validation_examples

abbrev pub pinned_to : Option Described → Option String
pinned_to none = none
pinned_to (some d) = some d.dataset_sha256

abbrev pub prepared_ref : Option Preparation → String
prepared_ref none = ""
prepared_ref (some p) = elim p.dataset_ref [ none ↦ "" | some ref ↦ ref ]

abbrev pub prepared_count : (Preparation → ℕ) → Option Preparation → ℕ
prepared_count count none = 0
prepared_count count (some p) = count p

-- a or b, on texts
abbrev pub or_text : String → String → String
or_text a b = if a == "" then b else a

unfoldable pub refuse {ℓ} : {A : Type ℓ} → (A → Result (Unit {0})) → Option A → Result (Unit {0})
refuse raise none = ok tt
refuse raise (some a) = raise a

unfoldable pub retry_request_patch : String → ℕ → RequestPatch
retry_request_patch run_id now = record no_request_patch {
  status = some RequestStatus.preparing;
  updated_at = some now;
  current_run_id = some (some run_id);
  training = some none;
  launch_error = some none;
  failure_message = some none;
}

-- The replacement that a retry of `previous` queues.
unfoldable pub enqueue_replacement :
    Database
    → String
    → Option Described
    → RunRecord
    → Option Preparation
    → (dataset_ref new_id : String) → ℕ
    → Result (RunRecord × Database)
unfolding enqueue_training_run carried_count
enqueue_replacement db course_id described previous preparation dataset_ref new_id queued_at =
    enqueue_training_run db course_id new_id (or_text previous.mode "full") dataset_ref
      (carried_count 0 previous.approved_example_count
        (prepared_count (λ p. p.source_approved_example_count) preparation))
      (carried_count (train_on_disk described) previous.train_examples
        (prepared_count (λ p. p.train_examples) preparation))
      (carried_count (validation_on_disk described) previous.validation_examples
        (prepared_count (λ p. p.validation_examples) preparation))
      (pinned_to described) queued_at

pub record Retried : Type 0 where
  pub superseded : Option RunRecord
  pub run : RunRecord
  pub request : Option ModelRequest

-- `new_id` is the identifier generated for the replacement, `queued_at` the clock at its INSERT.
unfoldable pub retry_training_run :
    Database
    → String
    → Option Described
    → (new_id : String) (now queued_at : ℕ) → Result (Retried × Database)
retry_training_run db course_id described new_id now queued_at = do
  assert_valid_course_id course_id
  locked ← lock_model_request db course_id
  request ← require locked no_request
  run_id ← require request.current_run_id no_current_run
  found ← get_training_run db course_id run_id
  previous ← require found run_missing
  refuse (λ block. err (retry_blocked block))
      (training_run_retry_block previous now (pinned_to described))
  let dataset_ref = or_text previous.dataset_ref (prepared_ref request.preparation)
  guard (not (strip dataset_ref == "")) no_dataset
  (superseded, retired) ← supersede_training_run db course_id run_id now
  (created, queued) ←
      enqueue_replacement retired course_id described previous request.preparation dataset_ref
        new_id queued_at
  (updated, done) ←
      update_model_request queued course_id (retry_request_patch created.run_id now) now
  ok (record { superseded = superseded; run = created; request = updated }, done)
