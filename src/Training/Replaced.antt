-- ===== src/Training/Replaced.antt =====
-- What an admin's retry leaves in the database: the old run retired, a fresh one queued, and the
-- request of the course handed over.
pub mod Rows
pub mod Retry
use mathlib.Core.Option
use css360_syllabus_bot.Prelude.{
  List, ℕ, ◌≡◌, ◌≢◌, refl, sym, ap, ◌∙◌, Bool, true, false, not, ◌&&◌, String, Option, none, some,
  any, arith, strip, ◌==◌, string_eq, eq_iff, if◌then◌else◌, Option-cases, inl, inr,
}
use css360_syllabus_bot.Table.{find, update, insert, count}
use css360_syllabus_bot.Table.Laws.{
  find-update, find-insert, find-insert_old, find_passes, find-none-count,
}
use css360_syllabus_bot.Table.Members.{any-false-count, any_of_find}
use css360_syllabus_bot.Training.Run.{
  RunState, superseded_error, TrainingRun, RunRecord, map_training_run, optional_string,
}
use css360_syllabus_bot.Training.Error.{Result, ok, err, guard, require, ◌>>=◌, ◌>>◌}
use css360_syllabus_bot.Training.Database.{RequestStatus, ModelRequest, Database}
use css360_syllabus_bot.Training.Runs.{
  has_key, is_outstanding, find_run, get_training_run, new_run, enqueue_training_run,
}
use css360_syllabus_bot.Training.Patch.{
  RunPatch, is_empty_patch, apply_patch, fail_patch, write_run, update_training_run,
  fail_training_run, supersede_training_run,
}
use css360_syllabus_bot.Training.Requests.{
  RequestPatch, is_empty_request_patch, has_course, apply_request_patch, find_request,
  lock_model_request, map_model_request, update_model_request,
}
use css360_syllabus_bot.Training.Retry.{
  Described, enqueue_replacement, retry_request_patch, Retried, retry_training_run,
}
use css360_syllabus_bot.Training.Ensures.{
  Ensures, Ensures-eq, returned, raised, Ensures-guard, Ensures-if, Ensures-bind, Ensures-bind_eq,
  Ensures-require, Ensures-step,
}

-- A run that was found is written.
pub record Wrote (db : Database) (course_id run_id : String) (patch : RunPatch) (now : ℕ)
    (done : Database) : Type 0 where
  pub row : TrainingRun
  pub found : find (has_key course_id run_id) db.runs ≡ some row
  pub same_requests : done.requests ≡ db.requests
  pub written : done.runs ≡ update (has_key course_id run_id) (apply_patch patch now) db.runs

pub update-Wrote :
    (db : Database) (course_id run_id : String) (patch : RunPatch) (now : ℕ) (row : TrainingRun)
    → is_empty_patch patch ≡ false
    → find (has_key course_id run_id) db.runs ≡ some row
    → Ensures
        (λ r. Wrote db course_id run_id patch now r.1)
        (update_training_run db course_id run_id patch now)
unfolding update_training_run
update-Wrote db course_id run_id patch now row writes found = Ensures-guard _ _ _ λ _.
    rw (found, writes)
      (returned (record { row = row; found = found; same_requests = refl; written = refl }))

read_run :
    (db : Database) (course_id run_id : String) (found : Option RunRecord) (run : RunRecord)
    → get_training_run db course_id run_id ≡ ok found
    → found ≡ some run
    → run.run_id ≡ run_id
unfolding get_training_run find_run map_training_run guard ◌>>◌
read_run db course_id run_id found run got same =
    elim (Option-cases (find (has_key course_id run_id) db.runs)) [
      | inl missing ↦ absurd (ground arith)
      | inr (row, there) ↦ ground (
        arith,
        got,
        same,
        there,
        find_passes (has_key course_id run_id) db.runs row there,
        eq_iff row.run_id run_id,
      )
    ]

pub found_run :
    (db : Database) (course_id run_id : String) (found : Option RunRecord) (run : RunRecord)
    → get_training_run db course_id run_id ≡ ok found
    → found ≡ some run
    → (row : TrainingRun) × (find (has_key course_id run_id) db.runs ≡ some row)
unfolding get_training_run find_run guard ◌>>◌
found_run db course_id run_id found run got same =
    elim (Option-cases (find (has_key course_id run_id) db.runs)) [
      | inl missing ↦ absurd (ground arith)
      | inr (row, there) ↦ (row, there)
    ]

-- A run that was queued.
pub record Queued (db : Database) (course_id run_id : String) (r : RunRecord × Database)
    : Type 0 where
  pub row : TrainingRun
  pub fresh :
      (row.course_id ≡ course_id)
      × (row.run_id ≡ run_id)
      × (row.state ≡ RunState.queued)
      × (row.job_id ≡ none)
      × (row.claim_owner ≡ none)
      × (row.error ≡ none)
  pub unused : any (has_key course_id run_id) db.runs ≡ false
  pub same_requests : r.1.requests ≡ db.requests
  pub written : r.1.runs ≡ insert row db.runs
  pub named : r.0.run_id ≡ run_id

pub enqueue-Queued :
    (db : Database) (course_id run_id mode dataset_ref : String) (approved train validation : ℕ)
    (sha : Option String) (now : ℕ)
    → Ensures (Queued db course_id run_id) (
        enqueue_training_run db course_id run_id mode dataset_ref approved train validation sha now)
unfolding enqueue_training_run
enqueue-Queued db course_id run_id mode dataset_ref approved train validation sha now =
    Ensures-guard _ _ _ λ _. Ensures-guard _ _ _ λ _. Ensures-guard _ _ _ λ idle.
      Ensures-guard _ _ _ λ _. Ensures-guard _ _ _ λ free. Ensures-bind_eq _ _ λ found got.
        Ensures-require _ _ _ λ created same. returned (record {
          row = new_run course_id run_id mode dataset_ref approved train validation sha now;
          fresh = (refl, refl, refl, refl, refl, refl);
          unused = ground arith;
          same_requests = refl;
          written = refl;
          named = read_run _ course_id run_id found created got same;
        })

pub record Handed (db : Database) (course_id : String) (patch : RequestPatch) (now : ℕ)
    (done : Database) : Type 0 where
  pub same_runs : done.runs ≡ db.runs
  pub written :
      done.requests ≡ update (has_course course_id) (apply_request_patch patch now) db.requests

pub update-Handed :
    (db : Database) (course_id : String) (patch : RequestPatch) (now : ℕ) (row : ModelRequest)
    → is_empty_request_patch patch ≡ false
    → find (has_course course_id) db.requests ≡ some row
    → Ensures (λ r. Handed db course_id patch now r.1) (update_model_request db course_id patch now)
unfolding update_model_request find_request
update-Handed db course_id patch now row writes found =
    Ensures-guard _ _ _
      λ _. rw (found, writes) (returned (record { same_runs = refl; written = refl }))

-- The database after a retry of the course's current run.
pub record IsReplaced (db : Database) (course_id new_id : String) (now : ℕ) (done : Database)
    : Type 0 where
  pub old : String
  pub request : ModelRequest
  pub owned : find_request db course_id ≡ some request
  pub current : request.current_run_id ≡ some old
  pub retired : TrainingRun
  pub was_there : find (has_key course_id old) db.runs ≡ some retired
  pub still_there :
      find (has_key course_id old) done.runs
      ≡ some (record retired {
        state = RunState.failed;
        updated_at = now;
        error = some superseded_error;
        claim_owner = none;
        claim_claimed_at = none;
        claim_expires_at = none;
      })
  pub unused : any (has_key course_id new_id) db.runs ≡ false
  pub different : new_id ≢ old
  pub queued : TrainingRun
  pub is_queued : find (has_key course_id new_id) done.runs ≡ some queued
  pub is_fresh :
      (queued.state ≡ RunState.queued)
      × (queued.job_id ≡ none)
      × (queued.claim_owner ≡ none)
      × (queued.error ≡ none)
  pub handed : ModelRequest
  pub is_handed : find (has_course course_id) done.requests ≡ some handed
  pub points :
      (handed.current_run_id ≡ some new_id)
      × (handed.status ≡ RequestStatus.preparing)
      × (handed.training ≡ none)
