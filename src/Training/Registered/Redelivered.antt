-- ===== src/Training/Registered/Redelivered.antt =====
-- backend/app/training_queue_routes.py: a completion that is delivered again.
use css360_syllabus_bot.Prelude.{ℕ, ◌≡◌, refl, String, Option, some, strip, ◌==◌, string_eq}
use css360_syllabus_bot.Table.{find}
use css360_syllabus_bot.Training.Run.{RunRecord, optional_string}
use css360_syllabus_bot.Training.Error.{ok}
use css360_syllabus_bot.Training.Database.{ModelVersion, Database}
use css360_syllabus_bot.Training.Registry.{has_version}
use css360_syllabus_bot.Training.Registration.{NewVersion, Registered, version_row}
use css360_syllabus_bot.Training.Complete.{
  CompletionRequest, CompletionResponse, will_register, version_of_completion, complete_failed,
  complete_unregistered, complete_registered, complete_succeeded, record_completion,
}
use css360_syllabus_bot.Training.Ensures.{
  Ensures, Ensures-eq, returned, Ensures-guard, Ensures-if, Ensures-bind, Ensures-bind_eq,
  Ensures-step,
}
use css360_syllabus_bot.Training.Registered.{register_version-Stands}

-- The version that the response names stands in the registry, offline.
abbrev pub LeavesOffline : String → CompletionResponse × Database → Type 0
LeavesOffline course_id (response, db) =
    (registered : Registered)
    → response.registered ≡ some registered
    → (row : ModelVersion) × (find (has_version course_id (strip registered.version)) db.versions
        ≡ some row)
      × (row.deployment ≡ "offline")

written_offline :
    (course_id key : String) (new : NewVersion) (now : ℕ)
    → new.deployment ≡ "offline"
    → (version_row course_id key new now).deployment ≡ "offline"
unfolding optional_string strip
written_offline course_id key new now h = rw h refl

stands_offline :
    (db : Database) (course_id : String) (new : NewVersion) (now : ℕ) (registered : Registered)
    (done : Database)
    → find (has_version course_id (strip registered.version)) done.versions
      ≡ some (version_row course_id (strip registered.version) new now)
    → new.deployment ≡ "offline"
    → (named : Registered) → some registered ≡ some named
    → (row : ModelVersion) × (find (has_version course_id (strip named.version)) done.versions
        ≡ some row)
      × (row.deployment ≡ "offline")
stands_offline db course_id new now registered done s offline named e =
    let same : registered.version ≡ named.version = cc in
    (
      version_row course_id (strip registered.version) new now,
      rw (← same) s,
      written_offline course_id (strip registered.version) new now offline,
    )

module _ (digit_value : ℕ → Option ℕ) where
  registered-offline :
      (db : Database) (course_id run_id : String) (request : CompletionRequest)
      (artifact_ref : String) (run : RunRecord) (now : ℕ)
      → Ensures
          (LeavesOffline course_id)
          (complete_registered digit_value db course_id run_id request artifact_ref run now)
  unfolding complete_registered version_of_completion
  registered-offline db course_id run_id request artifact_ref run now =
      Ensures-bind _ _
        (register_version-Stands digit_value db course_id
          (version_of_completion request run_id artifact_ref run) now)
        (λ registered s. returned (
          stands_offline db course_id (version_of_completion request run_id artifact_ref run) now
            registered.0 registered.1 s refl))

  succeeded-offline :
      (db : Database) (course_id run_id : String) (request : CompletionRequest)
      (artifact_ref : String) (run : RunRecord) (recorded : String) (job_id : Option String)
      (now : ℕ)
      → Ensures (LeavesOffline course_id) (
          complete_succeeded digit_value db course_id run_id request artifact_ref run recorded
            job_id now)
  unfolding complete_succeeded complete_unregistered
  succeeded-offline db course_id run_id request artifact_ref run recorded job_id now =
      Ensures-bind_eq _ _ λ written _.
        Ensures-if (will_register request) _ _
          (λ registers. registered-offline written.1 course_id run_id request artifact_ref run now)
          (λ leaves. Ensures-bind_eq _ _ λ ended _. returned (λ named e. cc))

  failed-offline :
      (db : Database) (course_id run_id : String) (request : CompletionRequest) (recorded : String)
      (job_id : Option String) (now : ℕ)
      → Ensures
          (LeavesOffline course_id)
          (complete_failed db course_id run_id request recorded job_id now)
  unfolding complete_failed
  failed-offline db course_id run_id request recorded job_id now =
      Ensures-bind_eq _ _ λ written _. Ensures-bind_eq _ _ λ updated _. returned (λ named e. cc)

  completion-offline :
      (db : Database) (course_id run_id : String) (request : CompletionRequest) (now : ℕ)
      → Ensures
          (LeavesOffline course_id)
          (record_completion digit_value db course_id run_id request now)
  unfolding record_completion
  completion-offline db course_id run_id request now = Ensures-guard _ _ _ λ _.
      Ensures-guard _ _ _ λ _. Ensures-guard _ _ _ λ _. Ensures-bind_eq _ _ λ artifact_ref _.
        Ensures-bind_eq _ _ λ run got. Ensures-step _ _ λ current. Ensures-step _ _ λ agrees.
          Ensures-step _ _ λ job.
            Ensures-if (request.outcome == "failed") _ _
              (λ e. failed-offline db course_id run_id request _ _ now)
              (λ e. succeeded-offline db course_id run_id request artifact_ref run _ _ now)

  -- A completion that registers a version leaves that version offline, whatever it was before: one
  -- delivered again after the version was published takes it off line.
  pub completion_unpublishes :
      (db done : Database) (course_id run_id : String) (request : CompletionRequest) (now : ℕ)
      (response : CompletionResponse) (registered : Registered)
      → record_completion digit_value db course_id run_id request now ≡ ok (response, done)
      → response.registered ≡ some registered
      → (row : ModelVersion) × (find
            (has_version course_id (strip registered.version))
            done.versions
          ≡ some row)
        × (row.deployment ≡ "offline")
  completion_unpublishes db done course_id run_id request now response registered h named =
      Ensures-eq (completion-offline db course_id run_id request now) h registered named
