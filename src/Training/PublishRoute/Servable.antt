-- ===== src/Training/PublishRoute/Servable.antt =====
-- A publication that is recorded is of a ready version that the service can serve.
use css360_syllabus_bot.Prelude.{
  ℕ, ◌≤◌, ◌≡◌, refl, ◌∙◌, true, false, String, Option, none, some, List, any, contains, strip,
  arith, string_eq, eq_iff, Option-cases, inl, inr,
}
use css360_syllabus_bot.Table.{find, count}
use css360_syllabus_bot.Table.Members.{any_of_find, any-true-count}
use css360_syllabus_bot.Training.Error.{ok, guard, require, ◌>>=◌, ◌>>◌}
use css360_syllabus_bot.Training.Database.{ModelVersion, Database}
use css360_syllabus_bot.Training.Registry.{has_version, publish, mark_version_published}
use css360_syllabus_bot.Training.Publication.{serves, serves_published}
use css360_syllabus_bot.Training.PublishRoute.{
  ServedCourse, servable_versions, require_servable_version, require_ready, PublishVersionResponse,
  record_model_version_published,
}
use css360_syllabus_bot.Training.Ensures.{
  Ensures, Ensures-eq, returned, Ensures-guard, Ensures-if, Ensures-bind, Ensures-bind_eq,
  Ensures-step,
}

-- The version is ready in the registry, the service lists it, and the registry has it alone online.
pub record IsServed (db : Database) (course_id version : String)
    (health : Option (List ServedCourse)) (done : Database) : Type 0 where
  pub courses : List ServedCourse
  pub answered : health ≡ some courses
  pub listed : contains (servable_versions courses course_id) version ≡ true
  pub target : ModelVersion
  pub registered : find (has_version course_id version) db.versions ≡ some target
  pub ready : target.status ≡ "ready"
  pub alone : count (serves course_id) done.versions ≡ 1

ready_target :
    (db : Database) (course_id version : String) (target : ModelVersion)
    → require_ready db course_id version ≡ ok target
    → (find (has_version course_id version) db.versions ≡ some target) × (target.status ≡ "ready")
unfolding require_ready require guard ◌>>=◌ ◌>>◌
ready_target db course_id version target h =
    elim (Option-cases (find (has_version course_id version) db.versions)) [
      | inl missing ↦ absurd (ground arith)
      | inr (row, found) ↦ (ground arith, ground (arith, eq_iff row.status "ready"))
    ]

listed_by :
    (health : Option (List ServedCourse)) (course_id version : String)
    → require_servable_version health course_id version ≡ ok tt
    → (courses : List ServedCourse) × (health ≡ some courses)
      × (contains (servable_versions courses course_id) version ≡ true)
unfolding require_servable_version guard
listed_by none course_id version h = absurd cc
listed_by (some courses) course_id version h = (courses, refl, ground arith)

marked_alone :
    (db : Database) (course_id version : String) (now : ℕ)
    → any (has_version course_id version) db.versions ≡ true
    → strip version ≡ version
    → count (has_version course_id version) db.versions ≤ 1
    → Ensures
        (λ r. count (serves course_id) r.1.versions ≡ 1)
        (mark_version_published db course_id version now)
unfolding mark_version_published
marked_alone db course_id version now there clean unique = Ensures-guard _ _ _ λ valid.
    Ensures-guard _ _ _ λ named.
      let alone : count (serves course_id) (publish course_id (strip version) now db.versions) ≡ 1 =
        serves_published course_id (strip version) now db.versions
        ∙ rw clean (
            omega
              (arith, unique, any-true-count (has_version course_id version) db.versions there)) in
      Ensures-if (any (has_version course_id (strip version)) db.versions) _ _
        (λ known. returned alone)
        (λ unknown. absurd (
          let same : any (has_version course_id version) db.versions ≡ false =
            rw clean at unknown in
          cc))

module _ (digit_value : ℕ → Option ℕ) where
  published-IsServed :
      (seen db : Database) (course_id version : String) (health : Option (List ServedCourse))
      (now : ℕ)
      → strip version ≡ version
      → count (has_version course_id version) db.versions ≤ 1
      → Ensures
          (λ r. IsServed db course_id version health r.1)
          (record_model_version_published digit_value seen db course_id version health now)
  unfolding record_model_version_published
  published-IsServed seen db course_id version health now clean unique = Ensures-guard _ _ _ λ _.
      Ensures-guard _ _ _ λ _. Ensures-bind_eq _ _ λ checked _. Ensures-step _ _ λ served.
        Ensures-bind_eq _ _ λ target h.
          let (courses, answered, listed) = listed_by health course_id version served in
          let (registered, ready) = ready_target db course_id version target h in
          Ensures-bind _ _
            (marked_alone db course_id version now
              (any_of_find (has_version course_id version) db.versions target registered) clean
              unique)
            (λ marked alone. returned (record {
              courses = courses;
              answered = answered;
              listed = listed;
              target = target;
              registered = registered;
              ready = ready;
              alone = alone;
            }))

  -- Where the key of a version is unique and has no blanks around it, a publication that is recorded
  -- is of a version that is ready in the registry and that the service lists for the course, and
  -- exactly one version of the course is online afterwards.
  pub publication_is_servable :
      (seen db done : Database) (course_id version : String) (health : Option (List ServedCourse))
      (now : ℕ) (response : PublishVersionResponse)
      → strip version ≡ version
      → count (has_version course_id version) db.versions ≤ 1
      → record_model_version_published digit_value seen db course_id version health now
        ≡ ok (response, done)
      → IsServed db course_id version health done
  publication_is_servable seen db done course_id version health now response clean unique h =
      Ensures-eq (published-IsServed seen db course_id version health now clean unique) h
