-- ===== src/Serving/ReadBack.antt =====
-- What an upsert reads back is what was reported.
use css360_syllabus_bot.Prelude.{
  ℕ, ◌≡◌, ◌≢◌, refl, Bool, true, false, not, ◌&&◌, String, none, some, List, leb, strip, lstrip,
  rstrip, is_space, ◌==◌, string_eq, eq_iff, if◌then◌else◌, inl, inr, Bool-cases, arith,
}
use css360_syllabus_bot.Training.Run.{optional_string}
use css360_syllabus_bot.Serving.{
  SessionState, is_live, ServingSession, SessionReport, SessionRecord, row_of, state_named,
  reported_state, read_report, upsert_serving_session, get_serving_session, map_serving_session,
}
use css360_syllabus_bot.Serving.Refinement.{reports, carry_out, put_view}

-- How a script writes a state.
abbrev pub name_of : SessionState → String
name_of SessionState.starting = "starting"
name_of SessionState.ready = "ready"
name_of SessionState.stopped = "stopped"
name_of SessionState.expired = "expired"

-- The record of a reported session as it is read at a time.
abbrev pub record_at : SessionReport → String → SessionState → (now later : ℕ) → SessionRecord
record_at report id state now later = record {
  session_id = id;
  job_id = report.job_id;
  node = report.node;
  port = report.port;
  state = if is_live state && leb report.expires_at later then SessionState.expired else state;
  stored_state = state;
  started_at = elim report.started_at [ none ↦ now | some started_at ↦ started_at ];
  expires_at = report.expires_at;
  updated_at = now;
  live = is_live state && not (leb report.expires_at later);
  detail = report.detail;
}

name_read :
    (state : SessionState) → state_named (reported_state (some (name_of state))) ≡ some state
unfolding optional_string strip lstrip rstrip is_space
name_read SessionState.starting = refl
name_read SessionState.ready = refl
name_read SessionState.stopped = refl
name_read SessionState.expired = refl

given_id : (id : String) → id ≢ "" → strip id ≡ id → optional_string (some id) ≡ some id
unfolding optional_string
given_id id named clean =
    let filled : (id == "") ≡ false = ground (arith, eq_iff id "") in rw (clean, filled) refl

live_at :
    (state : SessionState) (over : Bool)
    → is_live (if is_live state && over then SessionState.expired else state)
      ≡ (is_live state && not over)
live_at SessionState.starting true = refl
live_at SessionState.starting false = refl
live_at SessionState.ready true = refl
live_at SessionState.ready false = refl
live_at SessionState.stopped over = refl
live_at SessionState.expired over = refl

report_read :
    (report : SessionReport) (id : String) (state : SessionState) (now : ℕ)
    → id ≢ ""
    → strip id ≡ id
    → report.session_id ≡ some id
    → report.state ≡ some (name_of state)
    → read_report report now ≡ inr (row_of report id state now)
unfolding read_report
report_read report id state now named clean its known =
    let it : optional_string report.session_id ≡ some id = rw its (given_id id named clean) in
    let stands : state_named (reported_state report.state) ≡ some state =
      rw known (name_read state) in
    ground (arith, it, stands)

written_record :
    (report : SessionReport) (id : String) (state : SessionState) (now later : ℕ)
    → map_serving_session (row_of report id state now) later ≡ record_at report id state now later
unfolding map_serving_session
written_record report id state now later = rw (live_at state (leb report.expires_at later)) refl

-- A report of a session, with a non-empty id without blanks around it and one of the four states, is
-- accepted: under its id the record that is read at any time has the fields that were reported, the
-- time of the report for a start that was not, and the state expired in place of a live one from its
-- expiry on. Under every other id the record is as before.
pub upsert_reads_back :
    (sessions : List ServingSession) (report : SessionReport) (id other : String)
    (state : SessionState) (now read_at later : ℕ)
    → id ≢ ""
    → strip id ≡ id
    → report.session_id ≡ some id
    → report.state ≡ some (name_of state)
    → get_serving_session (carry_out (reports report now read_at) sessions) other later ≡ (
        if id == other
        then some (record_at report id state now later)
        else get_serving_session sessions other later)
unfolding get_serving_session carry_out upsert_serving_session
upsert_reads_back sessions report id other state now read_at later named clean its known =
    rw
      (
        report_read report id state now named clean its known,
        put_view (row_of report id state now) sessions other,
      )
      (elim (Bool-cases (id == other)) [
        | inl own ↦ rw (own, written_record report id state now later) refl
        | inr foreign ↦ rw foreign refl
      ])
