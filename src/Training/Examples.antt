-- ===== src/Training/Examples.antt =====
-- One course with one run, and what the theorems say of it.
pub mod Histories
pub mod Claiming
pub mod Retrying
pub mod Registering
pub mod Publishing
pub mod Stranding
use css360_syllabus_bot.Prelude.{
  ℕ, ◌-◌, ◌≤◌, ◌≡◌, refl, Bool, true, false, String, Option, none, some, List, [], ◌∷◌, arith, ltb,
  ◌==◌, string_eq, if◌then◌else◌,
}
use css360_syllabus_bot.Table.{count}
use css360_syllabus_bot.Training.Run.{RunState, TrainingRun}
use css360_syllabus_bot.Training.Database.{
  RequestStatus, ModelRequest, ModelVersion, CourseModel, Database,
}
use css360_syllabus_bot.Training.Runs.{has_key, is_outstanding, new_run}
use css360_syllabus_bot.Training.Requests.{new_request}
use css360_syllabus_bot.Training.Error.{Result, ok, err, is_ok}
use css360_syllabus_bot.Training.Sound.{IsSound}

abbrev pub course : String
course = "css360"

abbrev pub queued_row : TrainingRun
queued_row = new_run course "run-1" "full" "data/css360" 120 100 20 none 1000

abbrev pub submitted_row : TrainingRun
submitted_row = record queued_row { state = RunState.submitted; job_id = some "41"; attempt = 1 }

abbrev pub succeeded_row : TrainingRun
succeeded_row = record submitted_row { state = RunState.succeeded }

abbrev pub failed_row : TrainingRun
failed_row = record submitted_row { state = RunState.failed }

abbrev pub request_for_run : String → ModelRequest
request_for_run run_id = record (new_request course 120 900) { current_run_id = some run_id }

abbrev pub database : List TrainingRun → List ModelRequest → List ModelVersion → Database
database runs requests versions = record {
  courses = course ∷ [];
  runs = runs;
  requests = requests;
  versions = versions;
  models = [];
}

abbrev pub database_of : TrainingRun → Database
database_of row = database (row ∷ []) (request_for_run "run-1" ∷ []) []

-- The order of the database on ids, and the digits, as the tests have them.
abbrev pub before : String → String → Bool
before a b = false

abbrev pub digit : ℕ → Option ℕ
digit c = if ltb c 48 then none else if ltb c 58 then some (c - 48) else none

pub one_row-IsSound : (row : TrainingRun) → IsSound (row ∷ [])
unfolding count
one_row-IsSound row = record { keyed = λ c r. ground arith; one_outstanding = λ c. ground arith }

-- What an operation that does not raise returns.
pub value_of : {A : Type 0} (m : Result A) → is_ok m ≡ true → A
value_of (ok a) h = a
value_of (err e) h = absurd (ground arith)

pub value_of_lem : {A : Type 0} (m : Result A) (h : is_ok m ≡ true) → m ≡ ok (value_of m h)
unfolding value_of
value_of_lem (ok a) h = refl
value_of_lem (err e) h = absurd (ground arith)
