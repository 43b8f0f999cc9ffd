-- ===== src/Training/Sound/Requests.antt =====
-- The operations on model requests do not touch the runs.
use css360_syllabus_bot.Prelude.{any, ℕ, ◌≡◌, refl, String, string_eq, Option-cases, inl, inr}
use css360_syllabus_bot.Table.{find}
use css360_syllabus_bot.Training.Database.{Database}
use css360_syllabus_bot.Training.Requests.{
  RequestPatch, has_course, is_owned, is_empty_request_patch, update_model_request,
  update_model_request_for_run,
}
use css360_syllabus_bot.Training.Ensures.{Ensures, returned, Ensures-guard, Ensures-if}

-- The same queue and registry; the requests may differ.
pub record SameQueue (db db' : Database) : Type 0 where
  pub courses : db'.courses ≡ db.courses
  pub runs : db'.runs ≡ db.runs
  pub versions : db'.versions ≡ db.versions
  pub models : db'.models ≡ db.models

same_queue : (db : Database) (requests : _) → SameQueue db (record db { requests = requests })
same_queue db requests = record { courses = refl; runs = refl; versions = refl; models = refl }

pub update_for_run-SameQueue :
    (db : Database) (course_id run_id : String) (patch : RequestPatch) (now : ℕ)
    → Ensures (λ r. SameQueue db r.1) (update_model_request_for_run db course_id run_id patch now)
unfolding update_model_request_for_run
update_for_run-SameQueue db course_id run_id patch now = Ensures-guard _ _ _ λ valid.
    Ensures-if (is_empty_request_patch patch) _ _ (λ e. returned (same_queue db db.requests))
      (λ e.
        Ensures-if (any (is_owned course_id run_id) db.requests) _ _
          (λ e. returned (same_queue db _)) (λ e. returned (same_queue db db.requests)))

pub update_model_request-SameQueue :
    (db : Database) (course_id : String) (patch : RequestPatch) (now : ℕ)
    → Ensures (λ r. SameQueue db r.1) (update_model_request db course_id patch now)
unfolding update_model_request
update_model_request-SameQueue db course_id patch now = Ensures-guard _ _ _ λ valid.
    elim (Option-cases (find (has_course course_id) db.requests)) [
      | inl missing ↦ rw missing (returned (same_queue db db.requests))
      | inr (request, found) ↦ rw found (
          Ensures-if (is_empty_request_patch patch) _ _ (λ e. returned (same_queue db db.requests))
            (λ e. returned (same_queue db _)))
    ]
