-- ===== src/Training/Sound/Completion.antt =====
-- A completion, with the registration of its model, keeps the invariant of the run queue.
use css360_syllabus_bot.Table.{find}
use css360_syllabus_bot.Prelude.{
  List, ◌≢◌, eq_iff, arith, ℕ, ◌≡◌, refl, Bool, true, false, String, Option, none, some, ◌==◌,
  string_eq,
}
use css360_syllabus_bot.Training.Run.{RunState, TrainingRun, RunRecord, map_training_run}
use css360_syllabus_bot.Training.Error.{ok, require, guard, ◌>>=◌, ◌>>◌}
use css360_syllabus_bot.Training.Database.{ModelVersion, Database}
use css360_syllabus_bot.Training.Runs.{has_key, find_run, get_training_run}
use css360_syllabus_bot.Training.Worker.{require_run}
use css360_syllabus_bot.Training.Patch.{update_training_run}
use css360_syllabus_bot.Training.Requests.{update_model_request}
use css360_syllabus_bot.Training.Registry.{write_version, point_at, upsert_model_version}
use css360_syllabus_bot.Training.Registration.{
  NewVersion, ready_patch, succeeded_patch, settle, register_version,
}
use css360_syllabus_bot.Training.Complete.{
  recovered_job, CompletionRequest, refuse_conflicting_completion, will_register,
  failed_completion_patch, completion_patch, complete_failed, complete_succeeded, record_completion,
}
use css360_syllabus_bot.Training.Ensures.{
  Ensures, Ensures-mono, returned, Ensures-guard, Ensures-if, Ensures-bind, Ensures-bind_eq,
  Ensures-step,
}
use css360_syllabus_bot.Training.Sound.{
  keeps_job, stays, fails, succeeds, Moves, update_training_run-Moves,
}
use css360_syllabus_bot.Training.Sound.Requests.{update_model_request-SameQueue}
use css360_syllabus_bot.Training.Sound.Routes.{SameQueue-Moves, patch_request-Moves}

runs-point_at :
    (db : Database) (course_id key : String) → (point_at db course_id key).runs ≡ db.runs
unfolding point_at
runs-point_at db course_id key = refl

runs-write_version : (db : Database) (row : ModelVersion) → (write_version db row).runs ≡ db.runs
unfolding write_version
runs-write_version db row = refl

upsert-Moves :
    {start : List TrainingRun} (db : Database) (row : ModelVersion) (set_current : Bool)
    → Moves start db.runs
    → Ensures (λ r. Moves start r.1.runs) (upsert_model_version db row set_current)
unfolding upsert_model_version
upsert-Moves db row true s = Ensures-guard _ _ _ λ _. Ensures-guard _ _ _ λ _.
    Ensures-guard _ _ _ λ _. Ensures-guard _ _ _ λ _. returned (
      rw (runs-point_at (write_version db row) row.course_id row.version)
        (rw (runs-write_version db row) s))
upsert-Moves db row false s = Ensures-guard _ _ _ λ _. Ensures-guard _ _ _ λ _.
    Ensures-guard _ _ _ λ _. Ensures-guard _ _ _ λ _. returned (rw (runs-write_version db row) s)

succeeded-Moves :
    {start : List TrainingRun} (db : Database) (course_id run_id : String) (now : ℕ)
    → Moves start db.runs
    → Ensures
        (λ r. Moves start r.1.runs)
        (update_training_run db course_id run_id (succeeded_patch now) now)
unfolding succeeded_patch
succeeded-Moves db course_id run_id now s =
    update_training_run-Moves db course_id run_id (succeeded_patch now) now s refl
      (λ row found. succeeds)

ready-Moves :
    {start : List TrainingRun} (db : Database) (course_id : String) (run_id : Option String)
    (now : ℕ)
    → Moves start db.runs
    → Ensures
        (λ r. Moves start r.1.runs)
        (update_model_request db course_id (ready_patch run_id now) now)
ready-Moves db course_id run_id now s =
    Ensures-mono (λ r q. SameQueue-Moves q s)
      (update_model_request-SameQueue db course_id (ready_patch run_id now) now)

settle-Moves :
    {start : List TrainingRun} (db : Database) (course_id : String) (run_id : Option String)
    (now : ℕ)
    → Moves start db.runs
    → Ensures (λ r. Moves start r.1.runs) (settle db course_id run_id now)
unfolding settle
settle-Moves db course_id none now s = ready-Moves db course_id none now s
settle-Moves db course_id (some run_id) now s =
    Ensures-if (run_id == "") _ _ (λ e. ready-Moves db course_id none now s)
      (λ e.
        Ensures-bind _ _
          (patch_request-Moves db course_id run_id (ready_patch (some run_id) now) now s)
          (λ patched s'.
            Ensures-bind _ _ (succeeded-Moves patched.1 course_id run_id now s')
              (λ ended s''. returned s'')))

-- A failure that does not conflict with the run's record is of a run that has not succeeded.
failure_agrees :
    (db : Database) (course_id run_id outcome : String) (run : RunRecord) (row : TrainingRun)
    → require_run db course_id run_id ≡ ok run
    → refuse_conflicting_completion run outcome ≡ ok tt
    → (outcome == "failed") ≡ true
    → find (has_key course_id run_id) db.runs ≡ some row
    → row.state ≢ RunState.succeeded
unfolding require_run refuse_conflicting_completion get_training_run find_run map_training_run
    require guard ◌>>=◌ ◌>>◌
failure_agrees db course_id run_id outcome run row got agrees failed found done =
    let e : outcome ≡ "failed" = (eq_iff outcome "failed").0 failed in
    let agrees' : refuse_conflicting_completion run "failed" ≡ ok tt = rw e at agrees in
    ground arith

recovered_given :
    (recorded : String) (job_id : Option String) → keeps_job (recovered_job recorded job_id) ≡ true
recovered_given recorded none = ground arith
recovered_given recorded (some job_id) = ground arith

module _ (digit_value : ℕ → Option ℕ) where
  pub register_version-Moves :
      {start : List TrainingRun} (db : Database) (course_id : String) (new : NewVersion) (now : ℕ)
      → Moves start db.runs
      → Ensures (λ r. Moves start r.1.runs) (register_version digit_value db course_id new now)
  unfolding register_version
  register_version-Moves db course_id new now s = Ensures-guard _ _ _ λ known.
      Ensures-step _ _ λ owner. Ensures-bind_eq _ _ λ chosen e.
        Ensures-bind _ _ (upsert-Moves db _ new.set_current s) (λ written s'.
          Ensures-bind _ _
            (Ensures-if (new.status == "ready") _ _
              (λ ready. settle-Moves written.1 course_id new.run_id now s') (λ other. returned s'))
            (λ done s''. returned s''))

  complete_failed-Moves :
      {start : List TrainingRun} (db : Database) (course_id run_id : String)
      (request : CompletionRequest) (recorded : String) (job_id : Option String) (now : ℕ)
      → Moves start db.runs
      → ((row : TrainingRun)
          → find (has_key course_id run_id) db.runs ≡ some row
          → row.state ≢ RunState.succeeded)
      → Ensures
          (λ r. Moves start r.1.runs)
          (complete_failed db course_id run_id request recorded job_id now)
  unfolding complete_failed
  complete_failed-Moves db course_id run_id request recorded job_id now s live =
      Ensures-bind _ _
        (update_training_run-Moves db course_id run_id
          (failed_completion_patch request recorded job_id now) now s
          (recovered_given recorded job_id) (λ row found. fails (live row found)))
        (λ failed s'.
          Ensures-bind _ _ (patch_request-Moves failed.1 course_id run_id _ now s')
            (λ patched s''. returned s''))

  complete_succeeded-Moves :
      {start : List TrainingRun} (db : Database) (course_id run_id : String)
      (request : CompletionRequest) (artifact_ref : String) (run : RunRecord) (recorded : String)
      (job_id : Option String) (now : ℕ)
      → Moves start db.runs
      → Ensures
          (λ r. Moves start r.1.runs)
          (complete_succeeded digit_value db course_id run_id request artifact_ref run recorded
            job_id now)
  unfolding complete_succeeded
  complete_succeeded-Moves db course_id run_id request artifact_ref run recorded job_id now s =
      Ensures-bind _ _
        (update_training_run-Moves db course_id run_id
          (completion_patch request recorded job_id now) now s (recovered_given recorded job_id)
          (λ row found. stays))
        (λ written s'.
          Ensures-if (will_register request) _ _
            (λ registers.
              Ensures-bind _ _ (register_version-Moves written.1 course_id _ now s')
                (λ registered s''. returned s''))
            (λ leaves.
              Ensures-bind _ _ (succeeded-Moves written.1 course_id run_id now s')
                (λ ended s''. returned s'')))

  -- Whatever a completion reports, on every branch.
  pub record_completion-Moves :
      {start : List TrainingRun} (db : Database) (course_id run_id : String)
      (request : CompletionRequest) (now : ℕ)
      → Moves start db.runs
      → Ensures
          (λ r. Moves start r.1.runs)
          (record_completion digit_value db course_id run_id request now)
  unfolding record_completion
  record_completion-Moves db course_id run_id request now s = Ensures-guard _ _ _ λ _.
      Ensures-guard _ _ _ λ _. Ensures-guard _ _ _ λ _. Ensures-bind_eq _ _ λ artifact_ref _.
        Ensures-bind_eq _ _ λ run got. Ensures-step _ _ λ current. Ensures-step _ _ λ agrees.
          Ensures-step _ _ λ job.
            Ensures-if (request.outcome == "failed") _ _
              (λ e. complete_failed-Moves db course_id run_id request _ _ now s (λ row found.
                failure_agrees db course_id run_id request.outcome run row got agrees e found))
              (λ e. complete_succeeded-Moves db course_id run_id request artifact_ref run _ _ now s)
