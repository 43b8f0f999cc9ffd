-- ===== src/Training/Publication.antt =====
-- Publishing a version: the course is served by that version and no other.
use css360_syllabus_bot.Prelude.{
  ℕ, ◌≤◌, ◌≡◌, refl, Bool, true, false, not, ◌&&◌, String, some, List, [], ◌∷◌, any, arith, strip,
  ◌==◌, string_eq, eq_iff, ◌∙◌, sym, ap, ◌||◌, inl, inr, if◌then◌else◌,
}
use css360_syllabus_bot.Table.{update, count}
use css360_syllabus_bot.Table.First.{first-select}
use css360_syllabus_bot.Table.Members.{Elem, any-true-count}
use css360_syllabus_bot.Training.Error.{ok, guard, ◌>>◌}
use css360_syllabus_bot.Training.Database.{ModelVersion, Database}
use css360_syllabus_bot.Training.Registry.{
  of_course, has_version, is_online, demote, promote, publish, deployed_before,
  find_deployed_version, ModelRegistry, mark_version_published,
}

-- A version of the course that is online.
abbrev pub serves : String → ModelVersion → Bool
serves course_id row = of_course course_id row && is_online row

is_rival : String → String → ModelVersion → Bool
is_rival course_id key row = of_course course_id row && not (row.version == key) && is_online row

demoted-has_version :
    (b : Bool) (now : ℕ) (course_id key : String) (row : ModelVersion)
    → has_version course_id key (if b then demote now row else row) ≡ has_version course_id key row
demoted-has_version true now course_id key row = refl
demoted-has_version false now course_id key row = refl

demoted-serves :
    (b : Bool) (now : ℕ) (course_id : String) (row : ModelVersion)
    → serves course_id (if b then demote now row else row) ≡ (serves course_id row && not b)
demoted-serves true now course_id row = ground arith
demoted-serves false now course_id row = ground arith

promoted-serves :
    (b : Bool) (now : ℕ) (course_id key : String) (row : ModelVersion)
    → has_version course_id key row ≡ b
    → serves course_id (if b then promote now row else row) ≡ (b || serves course_id row)
promoted-serves true now course_id key row h = ground arith
promoted-serves false now course_id key row h = refl

either :
    (course_id key : String) (row : ModelVersion)
    → (has_version course_id key row || (serves course_id row && not (is_rival course_id key row)))
      ≡ has_version course_id key row
unfolding is_rival
either course_id key row = ground arith

-- After both updates, a row of the course is online just where it is the version published.
serves_row :
    (course_id key : String) (now : ℕ) (row : ModelVersion)
    → (let demoted = if is_rival course_id key row then demote now row else row in
        serves course_id
          (if has_version course_id key demoted then promote now demoted else demoted))
      ≡ has_version course_id key row
serves_row course_id key now row =
    let b = is_rival course_id key row in
    let demoted = if b then demote now row else row in
    promoted-serves (has_version course_id key demoted) now course_id key demoted refl
    ∙ rw (demoted-serves b now course_id row, demoted-has_version b now course_id key row)
        (either course_id key row)

pub serves_published :
    (course_id key : String) (now : ℕ) (rows : List ModelVersion)
    → count (serves course_id) (publish course_id key now rows)
      ≡ count (has_version course_id key) rows
unfolding publish count update is_rival
serves_published course_id key now [] = refl
serves_published course_id key now (row ∷ rows) =
    rw (serves_row course_id key now row, serves_published course_id key now rows) refl

same_version :
    (b : Bool) (x y : ModelVersion)
    → x.version ≡ y.version
    → (if b then x else y).version ≡ y.version
same_version true x y h = h
same_version false x y h = refl

published-version :
    (course_id key : String) (now : ℕ) (row : ModelVersion)
    → (let demoted = if is_rival course_id key row then demote now row else row in
        (if has_version course_id key demoted then promote now demoted else demoted).version)
      ≡ row.version
published-version course_id key now row =
    let b = is_rival course_id key row in
    let demoted = if b then demote now row else row in
    same_version (has_version course_id key demoted) (promote now demoted) demoted refl
    ∙ same_version b (demote now row) row refl

-- What is online after a publication is the version published.
online_published :
    (course_id key : String) (now : ℕ) (rows : List ModelVersion) (row : ModelVersion)
    → Elem row (publish course_id key now rows)
    → serves course_id row ≡ true
    → row.version ≡ key
unfolding publish update is_rival
online_published course_id key now [] row m h = absurd m
online_published course_id key now (x ∷ rows) row (inl e) h =
    rw (← e, published-version course_id key now x)
      (ground (
        arith,
        eq_iff x.version key,
        sym (serves_row course_id key now x) ∙ ap (serves course_id) e,
        h,
      ))
online_published course_id key now (x ∷ rows) row (inr m) h =
    online_published course_id key now rows row m h

done_versions :
    (db done : Database) (course_id version : String) (now : ℕ) (registry : ModelRegistry)
    → mark_version_published db course_id version now ≡ ok (some registry, done)
    → (done.versions ≡ publish course_id (strip version) now db.versions)
      × (any (has_version course_id (strip version)) db.versions ≡ true)
unfolding mark_version_published guard ◌>>◌
done_versions db done course_id version now registry h = ground (arith)

-- Where the key of a version is unique, a publication that succeeds leaves exactly one version of the
-- course online, and it is the one published that the course is then served by.
pub published_alone :
    (text_before : String → String → Bool) (db done : Database) (course_id version : String)
    (now : ℕ) (registry : ModelRegistry)
    → count (has_version course_id (strip version)) db.versions ≤ 1
    → mark_version_published db course_id version now ≡ ok (some registry, done)
    → (count (serves course_id) done.versions ≡ 1)
      × ((row : ModelVersion) × (find_deployed_version text_before done course_id ≡ some row)
          × (row.version ≡ strip version))
unfolding find_deployed_version
published_alone text_before db done course_id version now registry unique h =
    let (written, there) = done_versions db done course_id version now registry h in
    let one : count (serves course_id) done.versions
        ≡ count (has_version course_id (strip version)) db.versions =
      rw written (serves_published course_id (strip version) now db.versions) in
    let known = any-true-count (has_version course_id (strip version)) db.versions there in
    let alone : count (serves course_id) done.versions ≡ 1 = omega (arith, one, known, unique) in
    let (row, e, inside, online) =
      first-select (deployed_before text_before) (serves course_id) done.versions
        (omega (arith, one, known)) in
    (
      alone,
      (
        row,
        e,
        online_published course_id (strip version) now db.versions row (rw (← written) inside)
            online,
      ),
    )
