-- ===== src/Training/Stranded.antt =====
-- A release of a run whose job was submitted: what the queue does with the run from then on.
use css360_syllabus_bot.Prelude.{
  ℕ, ◌≡◌, refl, true, false, String, Option, none, some, List, arith, ◌==◌, string_eq, Bool-cases,
  inl, inr,
}
use css360_syllabus_bot.Table.{find}
use css360_syllabus_bot.Training.Run.{TrainingRun, RunRecord, optional_string, map_training_run}
use css360_syllabus_bot.Training.Error.{RetryBlock, ok}
use css360_syllabus_bot.Training.Database.{Database}
use css360_syllabus_bot.Training.Runs.{has_key}
use css360_syllabus_bot.Training.Patch.{is_given, apply_patch, release_patch, release_training_run}
use css360_syllabus_bot.Training.Claims.{is_claimable}
use css360_syllabus_bot.Training.RetryBlock.{
  text_of, queued_run_is_stale, block_in, training_run_retry_block,
}
use css360_syllabus_bot.Training.Worker.{release_run}
use css360_syllabus_bot.Training.Replaced.{Wrote, update-Wrote}
use css360_syllabus_bot.Training.Replaced.Rows.{retired_row}
use css360_syllabus_bot.Training.Ensures.{
  Ensures, Ensures-eq, Ensures-guard, Ensures-bind_eq, Ensures-step,
}

-- The run is in the queue, no claim takes it and no retry retires it, whenever one is asked for.
pub record IsStranded (db : Database) (course_id run_id : String) : Type 0 where
  pub row : TrainingRun
  pub found : find (has_key course_id run_id) db.runs ≡ some row
  pub unclaimed :
      (now : ℕ) (course_ids : Option (List String)) → is_claimable now course_ids row ≡ false
  pub kept :
      (now : ℕ)
      → training_run_retry_block (map_training_run row) now none ≡ some RetryBlock.already_queued

unclaimed_row :
    (row : TrainingRun) (moment now : ℕ) (course_ids : Option (List String))
    → is_given row.job_id ≡ true
    → is_claimable now course_ids (apply_patch (release_patch none moment) moment row) ≡ false
unfolding is_claimable release_patch
unclaimed_row row moment now course_ids job = ground arith

not_stale : (run : RunRecord) → run.error ≡ none → queued_run_is_stale run none ≡ false
unfolding queued_run_is_stale text_of
not_stale run clean = elim (Bool-cases (text_of run.dataset_sha256 == "")) [
  | inl e ↦ rw (clean, e) refl
  | inr e ↦ rw (clean, e) refl
]

kept_row :
    (row : TrainingRun) (moment now : ℕ)
    → optional_string row.error ≡ none
    → training_run_retry_block
        (map_training_run (apply_patch (release_patch none moment) moment row))
        now
        none
      ≡ some RetryBlock.already_queued
unfolding training_run_retry_block block_in map_training_run release_patch
kept_row row moment now clean =
    rw (not_stale (map_training_run (apply_patch (release_patch none moment) moment row)) clean)
      refl

released-Wrote :
    (db : Database) (course_id run_id : String) (now : ℕ) (row : TrainingRun)
    → find (has_key course_id run_id) db.runs ≡ some row
    → Ensures
        (λ r. Wrote db course_id run_id (release_patch none now) now r.1)
        (release_run db course_id run_id none now)
unfolding release_run release_training_run release_patch
released-Wrote db course_id run_id now row found = Ensures-guard _ _ _ λ _.
    Ensures-bind_eq _ _ λ run _.
      Ensures-step _ _
        λ _. update-Wrote db course_id run_id (release_patch none now) now row refl found

-- A released run with a job and no error is stranded: it stays queued, no claim ever takes it, and a
-- retry without prepared data at hand is refused at every time as of a run already queued.
pub release_strands :
    (db done : Database) (course_id run_id : String) (now : ℕ) (row : TrainingRun)
    (released : Option RunRecord)
    → find (has_key course_id run_id) db.runs ≡ some row
    → is_given row.job_id ≡ true
    → optional_string row.error ≡ none
    → release_run db course_id run_id none now ≡ ok (released, done)
    → IsStranded done course_id run_id
release_strands db done course_id run_id now row released found job clean h =
    let w = Ensures-eq (released-Wrote db course_id run_id now row found) h in
    record {
      row = apply_patch (release_patch none now) now row;
      found = retired_row db done course_id run_id (release_patch none now) now row found w.written;
      unclaimed = λ later ids. unclaimed_row row now later ids job;
      kept = λ later. kept_row row now later clean;
    }
