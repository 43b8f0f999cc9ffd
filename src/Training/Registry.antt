-- ===== src/Training/Registry.antt =====
-- backend/app/db_models.py: the model versions of a course, and which of them is published.
use css360_syllabus_bot.Prelude.{
  ℕ, Bool, true, false, not, ◌&&◌, ◌||◌, ltb, nat_eq, String, Option, none, some, List, [], any,
  contains, ◌==◌, string_eq, strip, if◌then◌else◌,
}
use css360_syllabus_bot.Table.{first, find, select, update, insert}
use css360_syllabus_bot.Training.Error.{
  Result, ok, guard, ◌>>◌, duplicate_key, missing_course, missing_version,
}
use css360_syllabus_bot.Training.Database.{ModelVersion, CourseModel, Database}
use css360_syllabus_bot.Training.Runs.{assert_valid_course_id}

abbrev pub of_course : String → ModelVersion → Bool
of_course course_id row = row.course_id == course_id

-- The primary key of course_model_versions.
abbrev pub has_version : String → String → ModelVersion → Bool
has_version course_id version row = row.course_id == course_id && row.version == version

abbrev pub is_from_run : String → ModelVersion → Bool
is_from_run run_id row = elim row.run_id [ none ↦ false | some id ↦ id == run_id ]

abbrev pub has_model : String → CourseModel → Bool
has_model course_id row = row.course_id == course_id

abbrev pub is_online : ModelVersion → Bool
is_online row = row.deployment == "online"

unfoldable pub find_model_version_for_run : Database → String → String → Option ModelVersion
find_model_version_for_run db course_id run_id =
    if strip run_id == ""
    then none
    else find (λ row. of_course course_id row && is_from_run (strip run_id) row) db.versions

-- The rows of the course; their order serves display only.
unfoldable pub list_model_versions : Database → String → List ModelVersion
list_model_versions db course_id = select (of_course course_id) db.versions

pub record ModelRegistry : Type 0 where
  pub course_id : String
  pub current_version : String
  pub versions : List ModelVersion

abbrev pub registry_of : String → List ModelVersion → CourseModel → Option ModelRegistry
registry_of course_id [] model = none
registry_of course_id versions model =
    some (record {
      course_id = course_id;
      current_version = model.current_version;
      versions = versions;
    })

unfoldable pub get_model_registry : Database → String → Option ModelRegistry
unfolding list_model_versions
get_model_registry db course_id = elim (find (has_model course_id) db.models) [
  | none ↦ none
  | some model ↦ registry_of course_id (list_model_versions db course_id) model
]

-- INSERT INTO course_models ... ON CONFLICT (course_id) DO UPDATE
unfoldable pub point_at : Database → String → String → Database
point_at db course_id version =
    let model : CourseModel = record { course_id = course_id; current_version = version } in
    record db {
      models =
          if any (has_model course_id) db.models
          then update (has_model course_id) (λ _. model) db.models
          else insert model db.models;
    }

-- Another version of the course holds this run: uq_course_model_versions_run.
abbrev pub takes_run : ModelVersion → ModelVersion → Bool
takes_run new row = elim new.run_id [
  | none ↦ false
  | some run_id ↦
      of_course new.course_id row && is_from_run run_id row && not (row.version == new.version)
]

-- INSERT ... ON CONFLICT (course_id, version) DO UPDATE of every other column.
unfoldable pub write_version : Database → ModelVersion → Database
write_version db row = record db {
  versions =
      if any (has_version row.course_id row.version) db.versions
      then update (has_version row.course_id row.version) (λ _. row) db.versions
      else insert row db.versions;
}

unfoldable pub upsert_model_version :
    Database → ModelVersion → (set_current : Bool) → Result (Option ModelRegistry × Database)
unfolding write_version point_at get_model_registry
upsert_model_version db row set_current = do
  assert_valid_course_id row.course_id
  guard (not (strip row.version == "")) missing_version
  guard (contains db.courses row.course_id) missing_course
  guard (not (any (takes_run row) db.versions)) duplicate_key
  let written = write_version db row
  let db' = if set_current then point_at written row.course_id row.version else written
  ok (get_model_registry db' row.course_id, db')

unfoldable pub set_current_version :
    Database → String → String → Result (Option ModelRegistry × Database)
unfolding point_at get_model_registry
set_current_version db course_id version = do
  assert_valid_course_id course_id
  let key = strip version
  guard (not (key == "")) missing_version
  let db' = point_at db course_id key
  if any (has_version course_id key) db.versions
      then ok (get_model_registry db' course_id, db')
      else ok (none, db)

abbrev pub demote : ℕ → ModelVersion → ModelVersion
demote now row = record row { deployment = "offline"; updated_at = some now }

abbrev pub promote : ℕ → ModelVersion → ModelVersion
promote now row = record row { deployment = "online"; updated_at = some now }

-- Every other published version of the course is demoted, then this one is promoted.
unfoldable pub publish : String → String → ℕ → List ModelVersion → List ModelVersion
publish course_id key now versions = update (has_version course_id key) (promote now) (
    update (λ row. of_course course_id row && not (row.version == key) && is_online row)
      (demote now) versions)

unfoldable pub mark_version_published :
    Database → String → String → ℕ → Result (Option ModelRegistry × Database)
unfolding publish get_model_registry
mark_version_published db course_id version now = do
  assert_valid_course_id course_id
  let key = strip version
  guard (not (key == "")) missing_version
  let db' = record db { versions = publish course_id key now db.versions }
  if any (has_version course_id key) db.versions
      then ok (get_model_registry db' course_id, db')
      else ok (none, db)

unfoldable pub mark_version_unpublished :
    Database → String → String → ℕ → Result (Option ModelRegistry × Database)
unfolding get_model_registry
mark_version_unpublished db course_id version now = do
  assert_valid_course_id course_id
  let key = strip version
  guard (not (key == "")) missing_version
  let db' = record db { versions = update (has_version course_id key) (demote now) db.versions }
  if any (has_version course_id key) db.versions
      then ok (get_model_registry db' course_id, db')
      else ok (none, db)

-- updated_at DESC NULLS LAST, as far as it decides.
abbrev pub updated_later : Option ℕ → Option ℕ → Bool
updated_later none b = false
updated_later (some a) none = true
updated_later (some a) (some b) = ltb b a

abbrev pub updated_alike : Option ℕ → Option ℕ → Bool
updated_alike none none = true
updated_alike none (some b) = false
updated_alike (some a) none = false
updated_alike (some a) (some b) = a == b

-- `text_before` is the database's collation order on texts.
module _ (text_before : String → String → Bool) where
  -- ORDER BY updated_at DESC NULLS LAST, created_at DESC, version DESC
  abbrev pub deployed_before : ModelVersion → ModelVersion → Bool
  deployed_before a b =
      updated_later a.updated_at b.updated_at
      || (updated_alike a.updated_at b.updated_at
          && (ltb b.created_at a.created_at
              || (a.created_at == b.created_at && text_before b.version a.version)))

  unfoldable pub find_deployed_version : Database → String → Option ModelVersion
  find_deployed_version db course_id =
      first deployed_before (select (λ row. of_course course_id row && is_online row) db.versions)
