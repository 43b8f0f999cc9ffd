-- ===== src/Training/Requests.antt =====
-- backend/app/db_model_requests.py: the one request row of a course.
use mathlib.Core.Option
use css360_syllabus_bot.Prelude.{
  ℕ, Bool, true, not, ◌&&◌, ◌||◌, String, Option, none, some, any, contains, ◌==◌, string_eq,
  if◌then◌else◌,
}
use css360_syllabus_bot.Table.{find, update, insert}
use css360_syllabus_bot.Training.Run.{optional_string}
use css360_syllabus_bot.Training.Error.{
  Result, ok, guard, require, ◌>>=◌, ◌>>◌, active_model_request, missing_course,
}
use css360_syllabus_bot.Training.Database.{
  RequestStatus, is_active_status, Preparation, TrainingJob, ModelRequest, Database,
}
use css360_syllabus_bot.Training.Runs.{assert_valid_course_id}
use css360_syllabus_bot.Training.Patch.{is_given, or_old}

abbrev pub has_course : String → ModelRequest → Bool
has_course course_id row = row.course_id == course_id

-- The API record is the row with its optional texts cleaned.
unfoldable pub map_model_request : ModelRequest → ModelRequest
map_model_request row = record row {
  failure_message = optional_string row.failure_message;
  preparation_error = optional_string row.preparation_error;
  launch_error = optional_string row.launch_error;
  current_run_id = optional_string row.current_run_id;
}

unfoldable pub find_request : Database → String → Option ModelRequest
find_request db course_id = Option.map map_model_request (find (has_course course_id) db.requests)

-- `lock_model_request` reads the same row under a lock.
unfoldable pub lock_model_request : Database → String → Result (Option ModelRequest)
unfolding find_request
lock_model_request db course_id = do
  assert_valid_course_id course_id
  ok (find_request db course_id)

abbrev pub new_request : String → ℕ → ℕ → ModelRequest
new_request course_id approved now = record {
  course_id = course_id;
  status = RequestStatus.requested;
  requested_at = now;
  updated_at = now;
  approved_example_count = approved;
  failure_message = none;
  preparation = none;
  preparation_error = none;
  training = none;
  launch_error = none;
  current_run_id = none;
}

-- INSERT ... WHERE NOT EXISTS (an active request) ON CONFLICT (course_id) DO UPDATE
unfoldable pub create_model_request : Database → String → ℕ → ℕ → Result (ModelRequest × Database)
unfolding find_request
create_model_request db course_id approved now = do
  assert_valid_course_id course_id
  guard (not (any (λ row. has_course course_id row && is_active_status row.status) db.requests))
      active_model_request
  guard (contains db.courses course_id) missing_course
  let row = new_request course_id approved now
  let requests =
      if any (has_course course_id) db.requests
      then update (has_course course_id) (λ _. row) db.requests
      else insert row db.requests
  let db' = record db { requests = requests }
  created ← require (find_request db' course_id) active_model_request
  ok (created, db')

pub record RequestPatch : Type 0 where
  pub status : Option RequestStatus
  pub updated_at : Option ℕ
  pub approved_example_count : Option ℕ
  pub failure_message : Option (Option String)
  pub preparation : Option (Option Preparation)
  pub preparation_error : Option (Option String)
  pub training : Option (Option TrainingJob)
  pub launch_error : Option (Option String)
  pub current_run_id : Option (Option String)

abbrev pub no_request_patch : RequestPatch
no_request_patch = record {
  status = none;
  updated_at = none;
  approved_example_count = none;
  failure_message = none;
  preparation = none;
  preparation_error = none;
  training = none;
  launch_error = none;
  current_run_id = none;
}

abbrev pub is_empty_request_patch : RequestPatch → Bool
is_empty_request_patch p = not (
    is_given p.status
    || is_given p.updated_at
    || is_given p.approved_example_count
    || is_given p.failure_message
    || is_given p.preparation
    || is_given p.preparation_error
    || is_given p.training
    || is_given p.launch_error
    || is_given p.current_run_id)

abbrev pub apply_request_patch : RequestPatch → ℕ → ModelRequest → ModelRequest
apply_request_patch p now row = record row {
  status = or_old p.status row.status;
  updated_at = or_old p.updated_at now;
  approved_example_count = or_old p.approved_example_count row.approved_example_count;
  failure_message = or_old p.failure_message row.failure_message;
  preparation = or_old p.preparation row.preparation;
  preparation_error = or_old p.preparation_error row.preparation_error;
  training = or_old p.training row.training;
  launch_error = or_old p.launch_error row.launch_error;
  current_run_id = or_old p.current_run_id row.current_run_id;
}

-- current_run_id IS NULL OR current_run_id = ...
abbrev pub is_owned_by : String → ModelRequest → Bool
is_owned_by run_id row = elim row.current_run_id [ none ↦ true | some current ↦ current == run_id ]

abbrev pub is_owned : String → String → ModelRequest → Bool
is_owned course_id run_id row = has_course course_id row && is_owned_by run_id row

-- The conditional UPDATE of a worker's callback: none where another run owns the request.
unfoldable pub update_model_request_for_run :
    Database → String → String → RequestPatch → ℕ → Result (Option ModelRequest × Database)
unfolding find_request
update_model_request_for_run db course_id run_id patch now = do
  assert_valid_course_id course_id
  let db' = record db {
    requests = update (is_owned course_id run_id) (apply_request_patch patch now) db.requests;
  }
  if is_empty_request_patch patch
      then ok (find_request db course_id, db)
      else if any (is_owned course_id run_id) db.requests
      then ok (find_request db' course_id, db')
      else ok (none, db)

unfoldable pub update_model_request :
    Database → String → RequestPatch → ℕ → Result (Option ModelRequest × Database)
unfolding find_request
update_model_request db course_id patch now = do
  assert_valid_course_id course_id
  elim (find_request db course_id) [
    | none ↦ ok (none, db)
    | some old ↦
        if is_empty_request_patch patch
        then ok (some old, db)
        else (let db' = record db {
          requests = update (has_course course_id) (apply_request_patch patch now) db.requests;
        } in
            ok (find_request db' course_id, db'))
  ]
