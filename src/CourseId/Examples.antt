-- ===== src/CourseId/Examples.antt =====
-- A course id of the repository's.
use css360_syllabus_bot.Prelude.{◌≡◌, ◌↔◌, true, codes}
use css360_syllabus_bot.CourseId.{is_valid_course_id}
use css360_syllabus_bot.CourseId.Slug.{IsSlug, valid_iff_IsSlug}

valid_iff_IsSlug_example : (is_valid_course_id "css-360" ≡ true) ↔ IsSlug (codes "css-360")
valid_iff_IsSlug_example = valid_iff_IsSlug "css-360"
