-- ===== src/Training/Registration.antt =====
-- backend/app/training_queue_routes.py: writing a model version and moving its run and request.
use css360_syllabus_bot.Prelude.{
  ℕ, Bool, true, false, not, ◌&&◌, String, Option, none, some, contains, map, ◌==◌, string_eq,
  strip, if◌then◌else◌,
}
use css360_syllabus_bot.Training.Run.{RunState, optional_string}
use css360_syllabus_bot.Training.Error.{
  Result, ok, err, guard, ◌>>=◌, ◌>>◌, course_not_found, version_already_registered,
}
use css360_syllabus_bot.Training.Database.{RequestStatus, ModelRequest, ModelVersion, Database}
use css360_syllabus_bot.Training.Patch.{RunPatch, no_patch, update_training_run}
use css360_syllabus_bot.Training.Requests.{
  RequestPatch, no_request_patch, update_model_request, update_model_request_for_run,
}
use css360_syllabus_bot.Training.VersionKey.{next_model_version}
use css360_syllabus_bot.Training.Registry.{
  ModelRegistry, find_model_version_for_run, list_model_versions, upsert_model_version,
}
use css360_syllabus_bot.Training.Worker.{require_current_run}

pub record Registered : Type 0 where
  pub version : String
  pub current_version : String
  pub request_status : Option RequestStatus
  pub reused : Bool

-- What a registration is asked to write.
pub record NewVersion : Type 0 where
  pub run_id : Option String
  pub base_model : String
  pub training_example_count : ℕ
  pub artifact_ref : String
  pub status : String
  pub deployment : String
  pub version : Option String
  pub notes : Option String
  pub set_current : Bool

unfoldable pub require_owner : Database → String → Option String → Result (Unit {0})
require_owner db course_id none = ok tt
require_owner db course_id (some run_id) =
    if run_id == "" then ok tt else require_current_run db course_id run_id

abbrev pub registered_for : Database → String → Option String → Option ModelVersion
registered_for db course_id none = none
registered_for db course_id (some run_id) =
    if run_id == "" then none else find_model_version_for_run db course_id run_id

-- version and version != already
abbrev pub names_other : Option String → String → Bool
names_other none registered = false
names_other (some version) registered = not (version == "") && not (version == registered)

-- version or a new key
abbrev pub chosen_key : Option String → String → String
chosen_key none next = next
chosen_key (some version) next = if version == "" then next else version

unfoldable pub ready_patch : Option String → ℕ → RequestPatch
ready_patch run_id now = record no_request_patch {
  status = some RequestStatus.ready;
  updated_at = some now;
  failure_message = some none;
  launch_error = some none;
  current_run_id = elim run_id [
    | none ↦ none
    | some id ↦ if id == "" then none else some (some id)
  ];
}

unfoldable pub succeeded_patch : ℕ → RunPatch
succeeded_patch now = record no_patch {
  state = some RunState.succeeded;
  updated_at = some now;
  claim = some none;
}

-- The request and the run of a ready version.
unfoldable pub settle :
    Database → String → Option String → ℕ → Result (Option ModelRequest × Database)
unfolding ready_patch succeeded_patch
settle db course_id none now = update_model_request db course_id (ready_patch none now) now
settle db course_id (some run_id) now =
    if run_id == "" then update_model_request db course_id (ready_patch none now) now else (do
      (request, db') ←
          update_model_request_for_run db course_id run_id (ready_patch (some run_id) now) now
      (run, done) ← update_training_run db' course_id run_id (succeeded_patch now) now
      ok (request, done))

abbrev pub status_of : Option ModelRequest → Option RequestStatus
status_of none = none
status_of (some request) = some request.status

abbrev pub current_of : Option ModelRegistry → String → String
current_of none key = key
current_of (some registry) key =
    if registry.current_version == "" then key else registry.current_version

abbrev pub version_row : String → String → NewVersion → ℕ → ModelVersion
version_row course_id key new now = record {
  course_id = course_id;
  version = key;
  base_model = new.base_model;
  training_example_count = new.training_example_count;
  status = new.status;
  deployment = elim (optional_string (some new.deployment)) [ none ↦ "unknown" | some d ↦ d ];
  artifact_ref = new.artifact_ref;
  created_at = now;
  updated_at = some now;
  notes = optional_string new.notes;
  run_id = optional_string new.run_id;
}

module _ (digit_value : ℕ → Option ℕ) where
  -- The key to write, and whether the run had it already.
  unfoldable pub choose_version : Database → String → NewVersion → Result (String × Bool)
  choose_version db course_id new = elim (registered_for db course_id new.run_id) [
    | none ↦ ok (
      chosen_key new.version (
          next_model_version digit_value (map (λ v. v.version) (list_model_versions db course_id))),
      false,
    )
    | some already ↦
        if names_other new.version already.version
        then err (version_already_registered already.version)
        else ok (already.version, true)
  ]

  unfoldable pub register_version :
      Database → String → NewVersion → ℕ → Result (Registered × Database)
  unfolding choose_version settle
  register_version db course_id new now = do
    guard (contains db.courses course_id) course_not_found
    require_owner db course_id new.run_id
    (key, reused) ← choose_version db course_id new
    let row = version_row course_id (strip key) new now
    (registry, written) ← upsert_model_version db row new.set_current
    (request, done) ←
        if new.status == "ready"
        then settle written course_id new.run_id now
        else ok (none, written)
    ok (
      record {
        version = key;
        current_version = current_of registry key;
        request_status = status_of request;
        reused = reused;
      },
      done,
    )
