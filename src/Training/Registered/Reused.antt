-- ===== src/Training/Registered/Reused.antt =====
-- backend/app/training_queue_routes.py: a registration delivered again for a run that has a version.
use css360_syllabus_bot.Prelude.{
  ℕ, ◌≡◌, ◌≢◌, refl, ap, ◌∙◌, Bool, true, false, ◌&&◌, String, Option, none, some, arith, strip,
  ◌==◌, string_eq, eq_iff, Option-cases, inl, inr,
}
use css360_syllabus_bot.Table.{find}
use css360_syllabus_bot.Table.Laws.{find_passes, count-find-none}
use css360_syllabus_bot.Table.Members.{Elem, Elem-find, count-Elem}
use css360_syllabus_bot.Training.Error.{ok}
use css360_syllabus_bot.Training.Database.{ModelVersion, Database}
use css360_syllabus_bot.Training.Registry.{of_course, is_from_run, find_model_version_for_run}
use css360_syllabus_bot.Training.Registration.{
  NewVersion, Registered, choose_version, register_version,
}
use css360_syllabus_bot.Training.Ensures.{
  Ensures, Ensures-eq, returned, Ensures-guard, Ensures-bind_eq, Ensures-step,
}

of_run :
    (row : ModelVersion) (run_id : String)
    → is_from_run run_id row ≡ true
    → row.run_id ≡ some run_id
of_run row run_id h = from_run row.run_id run_id h
  where
    from_run :
        (its : Option String) (run_id : String)
        → (elim its [ none ↦ false | some id ↦ id == run_id ]) ≡ true
        → its ≡ some run_id
    from_run none run_id h = cc
    from_run (some id) run_id h = ap some ((eq_iff id run_id).0 h)

is_version_of :
    (row : ModelVersion) (course_id run_id : String)
    → row.course_id ≡ course_id
    → row.run_id ≡ some run_id
    → (of_course course_id row && is_from_run run_id row) ≡ true
is_version_of row course_id run_id mine its =
    rw (mine, its, (eq_iff course_id course_id).1 refl, (eq_iff run_id run_id).1 refl) refl

-- The look-up by run finds a version with the key of the one that the run has.
version_found :
    (db : Database) (course_id run_id : String) (version : ModelVersion)
    → run_id ≢ ""
    → strip run_id ≡ run_id
    → Elem version db.versions
    → version.course_id ≡ course_id
    → version.run_id ≡ some run_id
    → ((other : ModelVersion)
        → Elem other db.versions
        → other.course_id ≡ course_id
        → other.run_id ≡ some run_id
        → other.version ≡ version.version)
    → (first : ModelVersion) × (find_model_version_for_run db course_id run_id ≡ some first)
      × (first.version ≡ version.version)
unfolding find_model_version_for_run
version_found db course_id run_id version named clean there mine its alone =
    let test : ModelVersion → Bool = λ row. of_course course_id row && is_from_run run_id row in
    let filled : (run_id == "") ≡ false = ground (arith, eq_iff run_id "") in
    elim (Option-cases (find test db.versions)) [
      | inl missing ↦ absurd (
          ground (
            arith,
            count-find-none test db.versions missing,
            count-Elem test db.versions version there
                (is_version_of version course_id run_id mine its),
          ))
      | inr (first, found) ↦
          let passes : test first ≡ true = find_passes test db.versions first found in
          (
            first,
            rw (clean, filled) found,
            alone first (Elem-find test db.versions first found)
                ((eq_iff first.course_id course_id).0 (ground (arith, passes)))
                (of_run first run_id (ground (arith, passes))),
          )
    ]

module _ (digit_value : ℕ → Option ℕ) where
  reused_choice :
      (db : Database) (course_id run_id : String) (new : NewVersion) (version : ModelVersion)
      (chosen : String × Bool)
      → new.run_id ≡ some run_id
      → (run_id == "") ≡ false
      → find_model_version_for_run db course_id run_id ≡ some version
      → choose_version digit_value db course_id new ≡ ok chosen
      → (chosen.0 ≡ version.version) × (chosen.1 ≡ true)
  unfolding choose_version
  reused_choice db course_id run_id new version chosen names named found h =
      ground (arith, names, named, found, h)

  reused_version :
      (db : Database) (course_id run_id : String) (new : NewVersion) (now : ℕ)
      (version : ModelVersion)
      → new.run_id ≡ some run_id
      → run_id ≢ ""
      → find_model_version_for_run db course_id run_id ≡ some version
      → Ensures
          (λ r. (r.0.version ≡ version.version) × (r.0.reused ≡ true))
          (register_version digit_value db course_id new now)
  unfolding register_version
  reused_version db course_id run_id new now version names named found =
      Ensures-guard _ _ _ λ known. Ensures-step _ _ λ owner. Ensures-bind_eq _ _ λ chosen e.
        Ensures-bind_eq _ _ λ written _. Ensures-bind_eq _ _ λ done _. returned (
          reused_choice db course_id run_id new version chosen names
            (ground (arith, eq_iff run_id "")) found e)

  -- Where a run, with a non-empty id without blanks around it, has one version in the course: a
  -- registration of the run that returns is under the key of that version and says so.
  pub registration_reuses :
      (db done : Database) (course_id run_id : String) (new : NewVersion) (now : ℕ)
      (registered : Registered) (version : ModelVersion)
      → new.run_id ≡ some run_id
      → run_id ≢ ""
      → strip run_id ≡ run_id
      → Elem version db.versions
      → version.course_id ≡ course_id
      → version.run_id ≡ some run_id
      → ((other : ModelVersion)
          → Elem other db.versions
          → other.course_id ≡ course_id
          → other.run_id ≡ some run_id
          → other.version ≡ version.version)
      → register_version digit_value db course_id new now ≡ ok (registered, done)
      → (registered.version ≡ version.version) × (registered.reused ≡ true)
  registration_reuses db done course_id run_id new now registered version names named clean there
        mine its alone h =
      let (first, found, alike) =
        version_found db course_id run_id version named clean there mine its alone in
      let (key, reused) =
        Ensures-eq (reused_version db course_id run_id new now first names named found) h in
      (key ∙ alike, reused)
