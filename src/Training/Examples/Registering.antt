-- ===== src/Training/Examples/Registering.antt =====
-- Registrations and publications of the example course.
use css360_syllabus_bot.Prelude.{
  ℕ, ◌<◌, ◌+◌, ◌≡◌, ◌≢◌, eq_iff, refl, ap, sym, inl, inr, true, false, String, none, some, List, [],
  ◌∷◌, contains, string_eq, arith, strip,
}
use css360_syllabus_bot.Table.{find, update, insert, select, count}
use css360_syllabus_bot.Training.Run.{map_training_run, map_claim, optional_string}
use css360_syllabus_bot.Training.Error.{Result, ok, is_ok, guard, require, ◌>>=◌, ◌>>◌}
use css360_syllabus_bot.Training.Database.{RequestStatus, ModelVersion, Database}
use css360_syllabus_bot.Training.Runs.{find_run, get_training_run}
use css360_syllabus_bot.Training.Patch.{write_run, update_training_run}
use css360_syllabus_bot.Training.RetryBlock.{text_of}
use css360_syllabus_bot.Training.Requests.{
  map_model_request, find_request, lock_model_request, update_model_request_for_run,
}
use css360_syllabus_bot.Training.VersionKey.{next_model_version, match_version, highest_version}
use css360_syllabus_bot.Training.VersionKey.Fresh.{next_version_fresh}
use css360_syllabus_bot.Training.Registry.{
  has_version, find_model_version_for_run, list_model_versions, ModelRegistry, get_model_registry,
  point_at, write_version, upsert_model_version, publish, mark_version_published,
  find_deployed_version,
}
use css360_syllabus_bot.Training.Worker.{
  require_run, check_owner, check_request, require_current_run,
}
use css360_syllabus_bot.Training.Registration.{
  NewVersion, Registered, require_owner, ready_patch, succeeded_patch, settle, choose_version,
  register_version,
}
use css360_syllabus_bot.Training.Complete.{
  CompletionResponse, refuse_conflicting_completion, validate_artifact_ref, check_registration,
  completion_record, completion_patch, version_of_completion, complete_registered,
  complete_succeeded, check_job, record_completion,
}
use css360_syllabus_bot.Training.Registered.{registered_stands}
use css360_syllabus_bot.Training.Registered.Reused.{registration_reuses}
use css360_syllabus_bot.Table.Members.{Elem}
use css360_syllabus_bot.Training.Registered.Redelivered.{completion_unpublishes}
use css360_syllabus_bot.Training.Publication.{serves, published_alone}
use css360_syllabus_bot.CourseId.{is_valid_course_id}
use css360_syllabus_bot.Training.Examples.{
  course, succeeded_row, request_for_run, database, before, digit, value_of, value_of_lem,
}
use css360_syllabus_bot.Training.Examples.Retrying.{report}

abbrev pub first_version : ModelVersion
first_version = record {
  course_id = course;
  version = "v1";
  base_model = "llama";
  training_example_count = 100;
  status = "ready";
  deployment = "online";
  artifact_ref = "runs/run-1";
  created_at = 10;
  updated_at = some 20;
  notes = none;
  run_id = some "run-1";
}

abbrev pub second_version : ModelVersion
second_version = record first_version {
  version = "v2";
  deployment = "offline";
  run_id = some "run-0";
}

-- The run has succeeded and its version is online.
abbrev pub published : Database
published =
    database (succeeded_row ∷ []) (request_for_run "run-1" ∷ [])
      (first_version ∷ second_version ∷ [])

abbrev pub again : NewVersion
again = record {
  run_id = some "run-1";
  base_model = "llama";
  training_example_count = 100;
  artifact_ref = "runs/run-1";
  status = "ready";
  deployment = "offline";
  version = none;
  notes = none;
  set_current = false;
}

registering : Result (Registered × Database)
registering = register_version digit published course again 30

registers : is_ok registering ≡ true
unfolding registering register_version is_valid_course_id strip guard require ◌>>=◌ ◌>>◌
    lock_model_request find_request map_model_request optional_string find update insert select
    get_training_run find_run map_training_run require_owner require_current_run check_request
    check_owner choose_version find_model_version_for_run upsert_model_version write_version
    get_model_registry list_model_versions point_at settle ready_patch succeeded_patch
    update_model_request_for_run update_training_run write_run
registers = refl

registered_stands_example :
    find (has_version course "v2") (value_of registering registers).1.versions ≡ some second_version
unfolding registering find strip value_of register_version ◌>>◌ guard require_owner
    require_current_run ◌>>=◌ lock_model_request is_valid_course_id map_model_request
    optional_string find_model_version_for_run upsert_model_version update_model_request_for_run
    update_training_run
registered_stands_example =
    registered_stands digit published (value_of registering registers).1 course again 30
      (value_of registering registers).0 course "v2" (value_of_lem registering registers)

only_first :
    (other : ModelVersion)
    → Elem other published.versions
    → other.course_id ≡ course
    → other.run_id ≡ some "run-1"
    → other.version ≡ "v1"
only_first other (inl e) mine its = ap (λ v. v.version) (sym e)
only_first other (inr (inl e)) mine its =
    let same : ◌≡◌ {A = String} "run-0" "run-1" = cc (ap (λ v. v.run_id) e, its) in
    absurd (cc (same, (eq_iff "run-0" "run-1").1 same))
only_first other (inr (inr none_left)) mine its = absurd none_left

not_blank : ◌≢◌ {A = String} "run-1" ""
not_blank e = cc (e, (eq_iff "run-1" "").1 e)

registration_reuses_example :
    ((value_of registering registers).0.version ≡ "v1")
    × ((value_of registering registers).0.reused ≡ true)
unfolding registering strip
registration_reuses_example =
    registration_reuses digit published (value_of registering registers).1 course "run-1" again 30
      (value_of registering registers).0 first_version refl not_blank refl (inl refl) refl refl
      only_first (value_of_lem registering registers)

completing : Result (CompletionResponse × Database)
completing = record_completion digit published course "run-1" report 30

completes : is_ok completing ≡ true
unfolding completing record_completion check_registration validate_artifact_ref text_of require_run
    refuse_conflicting_completion check_job complete_succeeded completion_patch completion_record
    complete_registered version_of_completion map_training_run map_claim register_version
    is_valid_course_id strip guard require ◌>>=◌ ◌>>◌ lock_model_request find_request
    map_model_request optional_string find update insert select get_training_run find_run
    require_owner require_current_run check_request check_owner choose_version
    find_model_version_for_run upsert_model_version write_version get_model_registry
    list_model_versions point_at settle ready_patch succeeded_patch update_model_request_for_run
    update_training_run write_run
completes = refl

abbrev pub again_registered : Registered
again_registered = record {
  version = "v1";
  current_version = "v1";
  request_status = some RequestStatus.ready;
  reused = true;
}

names_version : (value_of completing completes).0.registered ≡ some again_registered
unfolding value_of completes completing record_completion check_registration validate_artifact_ref
    text_of require_run refuse_conflicting_completion check_job complete_succeeded completion_patch
    completion_record complete_registered version_of_completion map_training_run map_claim
    register_version is_valid_course_id strip guard require ◌>>=◌ ◌>>◌ lock_model_request
    find_request map_model_request optional_string find update insert select get_training_run
    find_run require_owner require_current_run check_request check_owner choose_version
    find_model_version_for_run upsert_model_version write_version get_model_registry
    list_model_versions point_at settle ready_patch succeeded_patch update_model_request_for_run
    update_training_run write_run
names_version = refl

completion_unpublishes_example :
    (row : ModelVersion) × (find
        (has_version course (strip "v1"))
        (value_of completing completes).1.versions
      ≡ some row)
    × (row.deployment ≡ "offline")
unfolding completing
completion_unpublishes_example =
    completion_unpublishes digit published (value_of completing completes).1 course "run-1" report
      30 (value_of completing completes).0 again_registered (value_of_lem completing completes)
      names_version

-- The version of the second run is published over that of the first.
abbrev pub live : Database
live = record published { models = record { course_id = course; current_version = "v1" } ∷ [] }

abbrev pub replaced_versions : List ModelVersion
unfolding publish update
replaced_versions = publish course "v2" 40 live.versions

abbrev pub registry : ModelRegistry
registry = record { course_id = course; current_version = "v1"; versions = replaced_versions }

publishes :
    mark_version_published live course "v2" 40
    ≡ ok (some registry, record live { versions = replaced_versions })
unfolding mark_version_published publish is_valid_course_id strip guard ◌>>◌ get_model_registry
    list_model_versions find update select
publishes = refl

published_alone_example :
    (count (serves course) replaced_versions ≡ 1)
    × ((row : ModelVersion) × (find_deployed_version before
            (record live { versions = replaced_versions })
            course
          ≡ some row)
        × (row.version ≡ strip "v2"))
unfolding count strip
published_alone_example =
    published_alone before live (record live { versions = replaced_versions }) course "v2" 40
      registry (omega arith) publishes

keys : List String
keys = "v1" ∷ "draft" ∷ "v12" ∷ []

decimal : (d : ℕ) → d < 10 → digit (48 + d) ≡ some d
decimal d h = ground arith

next_version_fresh_example :
    (contains keys (next_model_version digit keys) ≡ false)
    × (match_version digit (next_model_version digit keys)
        ≡ some (highest_version digit 0 keys + 1))
next_version_fresh_example = next_version_fresh digit decimal keys
