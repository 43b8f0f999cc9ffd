-- ===== src/Training/PublishRoute.antt =====
-- backend/app/training_queue_routes.py and backend/app/model_publication.py: the report that a
-- version is in the serving tree, refused unless the service can serve it.
pub mod Servable
use css360_syllabus_bot.Prelude.{
  ℕ, Bool, String, Option, none, some, List, [], contains, ◌==◌, string_eq,
}
use css360_syllabus_bot.Table.{find}
use css360_syllabus_bot.Training.Error.{
  Result, ok, err, guard, require, ◌>>=◌, ◌>>◌, bad_version, version_not_found, version_not_ready,
  service_unavailable, not_servable,
}
use css360_syllabus_bot.Training.Database.{ModelVersion, Database}
use css360_syllabus_bot.Training.Runs.{assert_valid_course_id}
use css360_syllabus_bot.Training.Patch.{is_given}
use css360_syllabus_bot.Training.VersionKey.{match_version}
use css360_syllabus_bot.Training.Registry.{
  has_version, is_online, ModelRegistry, mark_version_published,
}

-- An entry of the service's health report, its versions those that are texts.
pub record ServedCourse : Type 0 where
  pub course_id : String
  pub versions : List String

unfoldable pub servable_versions : List ServedCourse → String → List String
servable_versions courses course_id = elim (find (λ entry. entry.course_id == course_id) courses) [
  | none ↦ []
  | some entry ↦ entry.versions
]

-- `health` is what the service answers, none where it cannot be asked.
unfoldable pub require_servable_version :
    Option (List ServedCourse) → String → String → Result (Unit {0})
unfolding servable_versions
require_servable_version none course_id version = err service_unavailable
require_servable_version (some courses) course_id version =
    guard (contains (servable_versions courses course_id) version) not_servable

unfoldable pub require_ready : Database → String → String → Result ModelVersion
require_ready db course_id version = do
  target ← require (find (has_version course_id version) db.versions) version_not_found
  guard (target.status == "ready") version_not_ready
  ok target

-- The response, less the version that was published before.
pub record PublishVersionResponse : Type 0 where
  pub current_version : Option String
  pub unchanged : Bool

abbrev pub current_in : Option ModelRegistry → Option String
current_in none = none
current_in (some registry) = some registry.current_version

-- `seen` is the database before the service was asked, `db` that of the write's own transaction.
module _ (digit_value : ℕ → Option ℕ) where
  unfoldable pub record_model_version_published :
      (seen db : Database) (course_id version : String)
      → (health : Option (List ServedCourse)) (now : ℕ) → Result (PublishVersionResponse × Database)
  unfolding require_ready require_servable_version
  record_model_version_published seen db course_id version health now = do
    assert_valid_course_id course_id
    guard (is_given (match_version digit_value version)) bad_version
    checked ← require_ready seen course_id version
    require_servable_version health course_id version
    target ← require_ready db course_id version
    (registry, done) ← mark_version_published db course_id version now
    ok (record { current_version = current_in registry; unchanged = is_online target }, done)
