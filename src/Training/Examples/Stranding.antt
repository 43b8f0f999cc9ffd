-- ===== src/Training/Examples/Stranding.antt =====
-- A release of the example course's submitted run.
use css360_syllabus_bot.Prelude.{◌≡◌, refl, Option, none, strip, true}
use css360_syllabus_bot.Table.{find, update}
use css360_syllabus_bot.Training.Run.{RunRecord, optional_string, map_training_run}
use css360_syllabus_bot.Training.Error.{Result, is_ok, guard, require, ◌>>=◌, ◌>>◌}
use css360_syllabus_bot.Training.Database.{Database}
use css360_syllabus_bot.Training.Runs.{find_run, get_training_run}
use css360_syllabus_bot.Training.Patch.{
  write_run, update_training_run, release_patch, release_training_run,
}
use css360_syllabus_bot.Training.Worker.{require_run, refuse_terminal, release_run}
use css360_syllabus_bot.Training.Stranded.{IsStranded, release_strands}
use css360_syllabus_bot.CourseId.{is_valid_course_id}
use css360_syllabus_bot.Training.Examples.{
  course, submitted_row, database_of, value_of, value_of_lem,
}

releasing : Result (Option RunRecord × Database)
releasing = release_run (database_of submitted_row) course "run-1" none 5000

releases : is_ok releasing ≡ true
unfolding releasing release_run is_valid_course_id strip guard require ◌>>=◌ ◌>>◌ require_run
    get_training_run find_run map_training_run refuse_terminal release_training_run release_patch
    update_training_run write_run find update optional_string
releases = refl

release_strands_example : IsStranded (value_of releasing releases).1 course "run-1"
unfolding releasing find optional_string
release_strands_example =
    release_strands (database_of submitted_row) (value_of releasing releases).1 course "run-1" 5000
      submitted_row (value_of releasing releases).0 refl refl refl (value_of_lem releasing releases)
