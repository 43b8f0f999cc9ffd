-- ===== src/Training/Registered.antt =====
-- What a registration leaves in the registry.
pub mod Reused
pub mod Redelivered
use mathlib.Core.Option
use css360_syllabus_bot.Prelude.{
  arith, none, ℕ, ◌≡◌, ◌≢◌, refl, ap, ◌∙◌, Bool, true, false, not, ◌&&◌, String, Option, none, some,
  arith, strip, ◌==◌, string_eq, eq_iff, if◌then◌else◌, Bool-cases, Option-cases, inl, inr,
}
use css360_syllabus_bot.Table.{find, update, insert}
use css360_syllabus_bot.Table.Laws.{find_passes, find-none-count}
use css360_syllabus_bot.Table.Members.{Elem, find-Elem, count-Elem}
use css360_syllabus_bot.Table.Overwrite.{find-upsert, find-upsert_other}
use css360_syllabus_bot.Training.Run.{optional_string}
use css360_syllabus_bot.Training.Run.{TrainingRun}
use css360_syllabus_bot.Training.Error.{Result, ok, err}
use css360_syllabus_bot.Training.Database.{ModelVersion, Database}
use css360_syllabus_bot.Training.Runs.{has_key, find_run}
use css360_syllabus_bot.Training.Patch.{RunPatch, is_empty_patch, write_run, update_training_run}
use css360_syllabus_bot.Training.Requests.{
  RequestPatch, is_empty_request_patch, find_request, is_owned, update_model_request,
  update_model_request_for_run,
}
use css360_syllabus_bot.Training.Registry.{
  has_version, of_course, is_from_run, find_model_version_for_run, write_version, point_at,
  upsert_model_version,
}
use css360_syllabus_bot.Training.Registration.{
  NewVersion, Registered, registered_for, names_other, ready_patch, succeeded_patch, settle,
  version_row, choose_version, register_version,
}
use css360_syllabus_bot.Training.Sound.Requests.{
  SameQueue, update_for_run-SameQueue, update_model_request-SameQueue,
}
use css360_syllabus_bot.Training.Ensures.{
  Ensures, Ensures-mono, Ensures-eq, returned, raised, Ensures-guard, Ensures-if, Ensures-bind,
  Ensures-bind_eq, Ensures-step,
}

-- The operation leaves the registry's versions alone.
pub record SameVersions (before after : Database) : Type 0 where
  pub versions : after.versions ≡ before.versions

pub run-SameVersions :
    (db : Database) (course_id run_id : String) (patch : RunPatch) (now : ℕ)
    → Ensures (λ r. SameVersions db r.1) (update_training_run db course_id run_id patch now)
unfolding update_training_run
run-SameVersions db course_id run_id patch now = Ensures-guard _ _ _ λ valid.
    elim (Option-cases (find_run db course_id run_id)) [
      | inl missing ↦ rw missing (returned (record { versions = refl }))
      | inr (run, found) ↦ rw found (
          Ensures-if (is_empty_patch patch) _ _ (λ e. returned (record { versions = refl }))
            (λ e. returned (record { versions = refl })))
    ]

settle-Versions :
    (db : Database) (course_id : String) (run_id : Option String) (now : ℕ)
    → Ensures (λ r. SameVersions db r.1) (settle db course_id run_id now)
unfolding settle
settle-Versions db course_id none now =
    Ensures-mono (λ r q. record { versions = q.versions })
      (update_model_request-SameQueue db course_id (ready_patch none now) now)
settle-Versions db course_id (some run_id) now =
    Ensures-if (run_id == "") _ _
      (λ e.
        Ensures-mono (λ r q. record { versions = q.versions })
          (update_model_request-SameQueue db course_id (ready_patch none now) now))
      (λ e.
        Ensures-bind _ _
          (update_for_run-SameQueue db course_id run_id (ready_patch (some run_id) now) now)
          (λ patched q.
            Ensures-bind _ _ (run-SameVersions patched.1 course_id run_id (succeeded_patch now) now)
              (λ ended s. returned (record { versions = s.versions ∙ q.versions }))))

-- The row stands in the registry under its own key.
abbrev pub Stands : ModelVersion → Database → Type 0
Stands row db = find (has_version row.course_id row.version) db.versions ≡ some row

own_version : (row : ModelVersion) → has_version row.course_id row.version row ≡ true
own_version row =
    rw ((eq_iff row.course_id row.course_id).1 refl, (eq_iff row.version row.version).1 refl) refl

-- The row stands in the registry, and every version under another key is as it was.
pub record IsWritten (before : Database) (row : ModelVersion) (done : Database) : Type 0 where
  pub stands : Stands row done
  pub others :
      (course_id version : String)
      → has_version course_id version row ≡ false
      → find (has_version course_id version) done.versions
        ≡ find (has_version course_id version) before.versions

-- Two keys that a row tells apart are told apart by every row.
apart_keys :
    (row x : ModelVersion) (course_id version : String)
    → has_version course_id version row ≡ false
    → has_version row.course_id row.version x ≡ true
    → has_version course_id version x ≡ false
apart_keys row x course_id version other same = let (c, k) = same_key in rw (c, k) other
  where
    same_key : (x.course_id ≡ row.course_id) × (x.version ≡ row.version)
    same_key = (
      (eq_iff x.course_id row.course_id).0 (ground (arith, same)),
      (eq_iff x.version row.version).0 (ground (arith, same)),
    )

write_version-IsWritten :
    (db : Database) (row : ModelVersion) → IsWritten db row (write_version db row)
unfolding write_version
write_version-IsWritten db row = record {
  stands = find-upsert (has_version row.course_id row.version) row db.versions (own_version row);
  others = λ course_id version other.
      find-upsert_other (has_version course_id version) (has_version row.course_id row.version) row
        db.versions other (λ x same. apart_keys row x course_id version other same);
}

point_at-IsWritten :
    (db done : Database) (row : ModelVersion) (course_id key : String)
    → IsWritten db row done
    → IsWritten db row (point_at done course_id key)
unfolding point_at
point_at-IsWritten db done row course_id key w = record { stands = w.stands; others = w.others }

upsert-IsWritten :
    (db : Database) (row : ModelVersion) (set_current : Bool)
    → Ensures (λ r. IsWritten db row r.1) (upsert_model_version db row set_current)
unfolding upsert_model_version
upsert-IsWritten db row true = Ensures-guard _ _ _ λ _. Ensures-guard _ _ _ λ _.
    Ensures-guard _ _ _ λ _. Ensures-guard _ _ _ λ _. returned (
      point_at-IsWritten db (write_version db row) row row.course_id row.version
        (write_version-IsWritten db row))
upsert-IsWritten db row false = Ensures-guard _ _ _ λ _.
    Ensures-guard _ _ _ λ _.
      Ensures-guard _ _ _ λ _. Ensures-guard _ _ _ λ _. returned (write_version-IsWritten db row)

settled-IsWritten :
    (db written done : Database) (row : ModelVersion)
    → IsWritten db row written
    → SameVersions written done
    → IsWritten db row done
settled-IsWritten db written done row w q = record {
  stands = rw q.versions w.stands;
  others = λ course_id version other. rw q.versions (w.others course_id version other);
}

module _ (digit_value : ℕ → Option ℕ) where
  register_version-IsWritten :
      (db : Database) (course_id : String) (new : NewVersion) (now : ℕ)
      → Ensures
          (λ r. IsWritten db (version_row course_id (strip r.0.version) new now) r.1)
          (register_version digit_value db course_id new now)
  unfolding register_version
  register_version-IsWritten db course_id new now = Ensures-guard _ _ _ λ known.
      Ensures-step _ _ λ owner. Ensures-bind_eq _ _ λ chosen e.
        let row = version_row course_id (strip chosen.0) new now in
        Ensures-bind _ _ (upsert-IsWritten db row new.set_current) (λ written w.
          Ensures-bind _ _
            (Ensures-if (new.status == "ready") _ _
              (λ ready. settle-Versions written.1 course_id new.run_id now)
              (λ other. returned (record { versions = refl })))
            (λ done q. returned (settled-IsWritten db written.1 done.1 row w q)))

  pub register_version-Stands :
      (db : Database) (course_id : String) (new : NewVersion) (now : ℕ)
      → Ensures
          (λ r. Stands (version_row course_id (strip r.0.version) new now) r.1)
          (register_version digit_value db course_id new now)
  register_version-Stands db course_id new now =
      Ensures-mono (λ r w. w.stands) (register_version-IsWritten db course_id new now)

  -- A registration that returns has written one version, under the key that it reports: the row has
  -- the base model, the number of examples, the status and the artifact that were asked for, the
  -- deployment, notes and run without blanks around them, and `now` as its times. Under every other
  -- key, of any course, the registry holds what it held.
  pub registered_stands :
      (db done : Database) (course_id : String) (new : NewVersion) (now : ℕ)
      (registered : Registered) (other_course key : String)
      → register_version digit_value db course_id new now ≡ ok (registered, done)
      → find (has_version other_course key) done.versions ≡ (
          if course_id == other_course && strip registered.version == key
          then some (record {
            course_id = course_id;
            version = strip registered.version;
            base_model = new.base_model;
            training_example_count = new.training_example_count;
            status = new.status;
            deployment = elim (optional_string (some new.deployment)) [
              | none ↦ "unknown"
              | some d ↦ d
            ];
            artifact_ref = new.artifact_ref;
            created_at = now;
            updated_at = some now;
            notes = optional_string new.notes;
            run_id = optional_string new.run_id;
          })
          else find (has_version other_course key) db.versions)
  registered_stands db done course_id new now registered other_course key h =
      let w = Ensures-eq (register_version-IsWritten db course_id new now) h in
      let row = version_row course_id (strip registered.version) new now in
      elim (Bool-cases (has_version other_course key row)) [
        | inl own ↦
            let c : course_id ≡ other_course =
              (eq_iff course_id other_course).0 (ground (arith, own)) in
            let k : strip registered.version ≡ key =
              (eq_iff (strip registered.version) key).0 (ground (arith, own)) in
            rw own (rw (← c, ← k) w.stands)
        | inr other ↦ rw other (w.others other_course key other)
      ]
