-- ===== src/Training/Examples/Publishing.antt =====
-- A publication of the example course's second version.
use css360_syllabus_bot.Prelude.{◌≡◌, refl, Option, some, List, [], ◌∷◌, arith, strip, true}
use css360_syllabus_bot.Table.{find, select, count, update}
use css360_syllabus_bot.Training.Error.{Result, is_ok, guard, require, ◌>>=◌, ◌>>◌}
use css360_syllabus_bot.Training.Database.{Database}
use css360_syllabus_bot.Training.VersionKey.{match_version, read_version, read_digits}
use css360_syllabus_bot.Training.Registry.{
  publish, list_model_versions, get_model_registry, mark_version_published,
}
use css360_syllabus_bot.Training.PublishRoute.{
  ServedCourse, servable_versions, require_servable_version, require_ready, PublishVersionResponse,
  record_model_version_published,
}
use css360_syllabus_bot.Training.PublishRoute.Servable.{IsServed, publication_is_servable}
use css360_syllabus_bot.CourseId.{is_valid_course_id}
use css360_syllabus_bot.Training.Examples.{course, digit, value_of, value_of_lem}
use css360_syllabus_bot.Training.Examples.Registering.{live}

abbrev pub report_of_health : Option (List ServedCourse)
report_of_health = some (record { course_id = course; versions = "v1" ∷ "v2" ∷ [] } ∷ [])

publishing : Result (PublishVersionResponse × Database)
publishing = record_model_version_published digit live live course "v2" report_of_health 40

publishes : is_ok publishing ≡ true
unfolding publishing record_model_version_published is_valid_course_id match_version read_version
    read_digits require_ready require_servable_version servable_versions guard require ◌>>=◌ ◌>>◌
    strip find mark_version_published publish get_model_registry list_model_versions update select
publishes = refl

publication_is_servable_example :
    IsServed live course "v2" report_of_health (value_of publishing publishes).1
unfolding publishing strip count
publication_is_servable_example =
    publication_is_servable digit live live (value_of publishing publishes).1 course "v2"
      report_of_health 40 (value_of publishing publishes).0 refl (omega arith)
      (value_of_lem publishing publishes)
