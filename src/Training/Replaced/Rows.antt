-- ===== src/Training/Replaced/Rows.antt =====
-- The rows that the steps of a retry leave behind.
use css360_syllabus_bot.Prelude.{
  List, [], ◌∷◌, ℕ, ◌≡◌, ◌≢◌, refl, ◌∙◌, true, false, String, Option, some, any, arith, string_eq,
  eq_iff, Option-cases, inl, inr,
}
use css360_syllabus_bot.Table.{find, update, insert}
use css360_syllabus_bot.Table.Laws.{find-update, find-insert, find_passes, find-none-count}
use css360_syllabus_bot.Table.Members.{any-false-count, any_of_find}
use css360_syllabus_bot.Training.Run.{TrainingRun}
use css360_syllabus_bot.Training.Error.{ok, guard, ◌>>◌}
use css360_syllabus_bot.Training.Database.{ModelRequest, Database}
use css360_syllabus_bot.Training.Runs.{has_key}
use css360_syllabus_bot.Training.Patch.{RunPatch, apply_patch}
use css360_syllabus_bot.Training.Requests.{
  RequestPatch, has_course, apply_request_patch, find_request, lock_model_request,
}

pub retired_row :
    (db done : Database) (course_id old : String) (patch : RunPatch) (now : ℕ) (row : TrainingRun)
    → find (has_key course_id old) db.runs ≡ some row
    → done.runs ≡ update (has_key course_id old) (apply_patch patch now) db.runs
    → find (has_key course_id old) done.runs ≡ some (apply_patch patch now row)
retired_row db done course_id old patch now row found written =
    rw
      (
        written,
        find-update (has_key course_id old) (has_key course_id old) (apply_patch patch now) db.runs
            (λ x. refl),
        found,
        find_passes (has_key course_id old) db.runs row found,
      )
      refl

pub queued_row :
    (course_id new_id : String) (rows : List TrainingRun) (row : TrainingRun)
    → row.course_id ≡ course_id
    → row.run_id ≡ new_id
    → any (has_key course_id new_id) rows ≡ false
    → find (has_key course_id new_id) (insert row rows) ≡ some row
queued_row course_id new_id rows row c r unused =
    find-insert (has_key course_id new_id) row rows (
      find-none-count (has_key course_id new_id) rows
        (any-false-count (has_key course_id new_id) rows unused))
    ∙ rw (own course_id new_id row c r) refl
  where
    own :
        (course_id new_id : String) (row : TrainingRun)
        → row.course_id ≡ course_id
        → row.run_id ≡ new_id
        → has_key course_id new_id row ≡ true
    own course_id new_id row c r =
        rw (c, r, (eq_iff course_id course_id).1 refl, (eq_iff new_id new_id).1 refl) refl

pub request_row :
    (db : Database) (course_id : String) (request : ModelRequest)
    → find_request db course_id ≡ some request
    → (row : ModelRequest) × (find (has_course course_id) db.requests ≡ some row)
unfolding find_request
request_row db course_id request h = elim (Option-cases (find (has_course course_id) db.requests)) [
  | inl missing ↦ absurd (ground arith)
  | inr (row, there) ↦ (row, there)
]

pub handed_row :
    (db done : Database) (course_id : String) (patch : RequestPatch) (now : ℕ) (row : ModelRequest)
    → find (has_course course_id) db.requests ≡ some row
    → done.requests ≡ update (has_course course_id) (apply_request_patch patch now) db.requests
    → find (has_course course_id) done.requests ≡ some (apply_request_patch patch now row)
handed_row db done course_id patch now row found written =
    rw
      (
        written,
        find-update (has_course course_id) (has_course course_id) (apply_request_patch patch now)
            db.requests (λ x. refl),
        found,
        find_passes (has_course course_id) db.requests row found,
      )
      refl

pub is_new :
    (course_id old new_id : String) (rows : List TrainingRun) (row : TrainingRun)
    → find (has_key course_id old) rows ≡ some row
    → any (has_key course_id new_id) rows ≡ false
    → new_id ≢ old
is_new course_id old new_id rows row there unused same =
    cc (any_of_find (has_key course_id old) rows row there, unused, same)

-- An id that is free after a patch was free before it.
pub unused_before :
    (course_id new_id old : String) (patch : RunPatch) (now : ℕ) (rows : List TrainingRun)
    → any (has_key course_id new_id) (update (has_key course_id old) (apply_patch patch now) rows)
      ≡ false
    → any (has_key course_id new_id) rows ≡ false
unfolding update
unused_before course_id new_id old patch now [] unused = refl
unused_before course_id new_id old patch now (x ∷ rows) unused =
    ground (arith, unused_before course_id new_id old patch now rows)

pub locked_request :
    (db : Database) (course_id : String) (locked : Option ModelRequest) (request : ModelRequest)
    → lock_model_request db course_id ≡ ok locked
    → locked ≡ some request
    → find_request db course_id ≡ some request
unfolding lock_model_request guard ◌>>◌
locked_request db course_id locked request read owned = ground (arith, read, owned)
