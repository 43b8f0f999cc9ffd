-- ===== src/Training/Overruled.antt =====
-- A worker that still reports on a run which a retry has replaced.
use css360_syllabus_bot.Prelude.{
  ℕ, ◌≡◌, ◌≢◌, refl, false, String, Option, some, arith, ◌==◌, string_eq, eq_iff,
}
use css360_syllabus_bot.Training.Error.{Result, ok, is_ok, guard, ◌>>=◌, ◌>>◌}
use css360_syllabus_bot.Training.Database.{ModelRequest, Database}
use css360_syllabus_bot.Training.Requests.{find_request, lock_model_request}
use css360_syllabus_bot.Training.Worker.{
  check_owner, check_request, require_current_run, record_submission, record_submission_failure,
  record_refusal, record_training_failure,
}
use css360_syllabus_bot.Training.Registration.{NewVersion, require_owner, register_version}
use css360_syllabus_bot.Training.Complete.{CompletionRequest, record_completion}
use css360_syllabus_bot.Training.Ensures.{
  Ensures, returned, raised, Ensures-guard, Ensures-bind_eq, Ensures-step,
}

-- The request of the course belongs to another run.
pub data IsOverruled (db : Database) (course_id run_id : String) : Type 0 where
  overruled :
      (request : ModelRequest) (current : String)
      → find_request db course_id ≡ some request
      → request.current_run_id ≡ some current
      → current ≢ run_id
      → IsOverruled db course_id run_id

-- The operation raises whatever it would have returned.
abbrev pub Raises : {A : Type 0} → Result A → Type 0
Raises m = is_ok m ≡ false

never : {A : Type 0} {m : Result A} → Ensures (λ a. ⊥) m → Raises m
never (returned p) = absurd p
never raised = refl

differs : (a b : String) → a ≢ b → (a == b) ≡ false
differs a b h = ground (arith, eq_iff a b)

not_current :
    (db : Database) (course_id run_id : String)
    → IsOverruled db course_id run_id
    → ¬ (require_current_run db course_id run_id ≡ ok tt)
unfolding require_current_run check_request check_owner lock_model_request ◌>>=◌ ◌>>◌ guard
not_current db course_id run_id (overruled request current found owned other) h =
    ground (arith, differs current run_id other)

owner_checked :
    (db : Database) (course_id run_id : String) (named_run : Option String)
    → named_run ≡ some run_id
    → run_id ≢ ""
    → require_owner db course_id named_run ≡ ok tt
    → require_current_run db course_id run_id ≡ ok tt
unfolding require_owner
owner_checked db course_id run_id named_run names named h =
    ground (arith, names, differs run_id "" named, h)

-- Where another run owns the request of the course: a submission, a failed submission, a refusal, a
-- failed training and a completion of either outcome that name the run raise, whatever they say, and
-- so does the registration of a version that names it by a non-empty id.
pub overruled_reports_raise :
    (digit_value : ℕ → Option ℕ) (db : Database) (course_id run_id job_id error : String)
    (request : CompletionRequest) (new : NewVersion) (train validation now : ℕ)
    → IsOverruled db course_id run_id
    → new.run_id ≡ some run_id
    → run_id ≢ ""
    → Raises (record_submission db course_id run_id job_id train validation now)
      × Raises (record_submission_failure db course_id run_id error now)
      × Raises (record_refusal db course_id run_id error now)
      × Raises (record_training_failure db course_id run_id error now)
      × Raises (record_completion digit_value db course_id run_id request now)
      × Raises (register_version digit_value db course_id new now)
unfolding record_submission record_submission_failure record_refusal record_training_failure
    record_completion register_version
overruled_reports_raise digit_value db course_id run_id job_id error request new train validation
      now late names named =
    let refused = not_current db course_id run_id late in
    (
      never (
          Ensures-guard _ _ _
            λ _. Ensures-bind_eq _ _ λ run _. Ensures-step _ _ λ current. absurd (refused current)),
      never (
          Ensures-guard _ _ _
            λ _. Ensures-bind_eq _ _ λ run _. Ensures-step _ _ λ current. absurd (refused current)),
      never (
          Ensures-guard _ _ _
            λ _. Ensures-bind_eq _ _ λ run _. Ensures-step _ _ λ current. absurd (refused current)),
      never (
          Ensures-guard _ _ _
            λ _. Ensures-bind_eq _ _ λ run _. Ensures-step _ _ λ current. absurd (refused current)),
      never (
          Ensures-guard _ _ _ λ _. Ensures-guard _ _ _ λ _. Ensures-guard _ _ _ λ _.
            Ensures-bind_eq _ _ λ artifact_ref _.
              Ensures-bind_eq _ _ λ run _. Ensures-step _ _ λ current. absurd (refused current)),
      never (
          Ensures-guard _ _ _ λ _. Ensures-step _ _ λ current.
            absurd (refused (owner_checked db course_id run_id new.run_id names named current))),
    )
