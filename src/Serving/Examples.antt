-- ===== src/Serving/Examples.antt =====
-- The theorems on sessions at a table of two.
use css360_syllabus_bot.Prelude.{
  ◌≡◌, ◌≢◌, String, eq_iff, some, refl, none, some, List, [], ◌∷◌, strip, lstrip, rstrip, is_space,
}
use css360_syllabus_bot.Table.{find, select, update, insert, first, first_from}
use css360_syllabus_bot.Serving.{
  row_of, upsert_serving_session, read_report, put_session, get_serving_session, SessionState,
  ServingSession, SessionReport, map_serving_session, current_serving_session, stop_serving_session,
}
use css360_syllabus_bot.Serving.Refinement.{
  Operation, reports, stops, carry_out, carry_out_all, view, specified_all, table_refines_map,
}
use css360_syllabus_bot.Training.Run.{optional_string}
use css360_syllabus_bot.Serving.ReadBack.{record_at, upsert_reads_back}
use css360_syllabus_bot.Serving.Current.{IsCurrent, newest_session_reported}
use css360_syllabus_bot.Serving.Stopped.{stopped_not_current}

abbrev night : ServingSession
night = record {
  session_id = "s1";
  job_id = "41";
  node = "n1";
  port = 8000;
  state = SessionState.ready;
  started_at = 10;
  expires_at = 90;
  updated_at = 10;
  detail = none;
}

abbrev morning : ServingSession
morning = record night { session_id = "s2"; job_id = "42"; started_at = 20 }

abbrev sessions : List ServingSession
sessions = night ∷ morning ∷ []

abbrev report : SessionReport
report = record {
  session_id = some "s3";
  job_id = "43";
  node = "n2";
  port = 8000;
  state = none;
  started_at = none;
  expires_at = 120;
  detail = none;
}

abbrev operations : List Operation
operations = reports report 40 41 ∷ stops "s2" 50 51 ∷ []

table_refines_map_example :
    view (carry_out_all operations sessions) "s2" ≡ specified_all operations (view sessions) "s2"
table_refines_map_example = table_refines_map operations sessions "s2"

newest_session_reported_example : IsCurrent sessions 30 (current_serving_session sessions 30)
newest_session_reported_example = newest_session_reported sessions 30

-- Another session is reported after the stop.
left_current :
    current_serving_session
      (carry_out_all (reports report 55 56 ∷ []) (stop_serving_session sessions "s2" 50 51).1)
      60
    ≡ some (map_serving_session (row_of report "s3" SessionState.starting 55) 60)
unfolding current_serving_session stop_serving_session map_serving_session select update first
    first_from carry_out_all carry_out upsert_serving_session read_report put_session
    get_serving_session find insert optional_string strip lstrip rstrip is_space
left_current = refl

stopped_not_current_example :
    (map_serving_session (row_of report "s3" SessionState.starting 55) 60).session_id ≢ "s2"
unfolding optional_string strip lstrip rstrip is_space
stopped_not_current_example =
    stopped_not_current sessions "s2" 50 51 60 (reports report 55 56 ∷ [])
      (map_serving_session (row_of report "s3" SessionState.starting 55) 60) refl left_current

abbrev ready_report : SessionReport
ready_report = record report { state = some "ready" }

no_blank : ◌≢◌ {A = String} "s3" ""
no_blank e = cc ((eq_iff "s3" "").1 e)

upsert_reads_back_example :
    get_serving_session (carry_out (reports ready_report 40 41) sessions) "s3" 130
    ≡ some (record_at ready_report "s3" SessionState.ready 40 130)
unfolding strip lstrip rstrip is_space
upsert_reads_back_example =
    upsert_reads_back sessions ready_report "s3" "s3" SessionState.ready 40 41 130 no_blank refl
      refl refl
