-- ===== src/Serving/Stopped.antt =====
-- A session that was stopped stays out of service until it is reported again.
use css360_syllabus_bot.Prelude.{
  ℕ, ◌≡◌, ◌≢◌, ◌∙◌, ap, sym, refl, Bool, true, false, ◌&&◌, String, none, some, List, [], ◌∷◌, any,
  ◌==◌, string_eq, eq_iff, ◌⊎◌, inl, inr, Bool-cases, Option-cases, arith,
}
use css360_syllabus_bot.Table.{count, update}
use css360_syllabus_bot.Table.Laws.{count-insert}
use css360_syllabus_bot.Table.Members.{count-Elem}
use css360_syllabus_bot.Table.Both.{count-update_keyed}
use css360_syllabus_bot.Training.Run.{optional_string}
use css360_syllabus_bot.Serving.{
  ServingSession, SessionReport, SessionError, SessionRecord, is_live, has_session_id, mark_stopped,
  put_session, stored, read_report, state_named, reported_state, map_serving_session,
  current_serving_session, upsert_serving_session, stop_serving_session,
}
use css360_syllabus_bot.Serving.Refinement.{
  Operation, reports, stops, kept_or, carry_out, carry_out_all,
}
use css360_syllabus_bot.Serving.Current.{IsCurrent, newest_session_reported}

-- The operation is a report of the session, its id read without blanks around it.
abbrev pub is_report_of : String → Operation → Bool
is_report_of session_id (reports report now read_at) = elim (optional_string report.session_id) [
  | none ↦ false
  | some id ↦ id == session_id
]
is_report_of session_id (stops other now read_at) = false

-- A row of the session that may still serve.
abbrev may_serve : String → ServingSession → Bool
may_serve session_id row = has_session_id session_id row && is_live row.state

marked_closed :
    (session_id other : String) (now : ℕ) (sessions : List ServingSession)
    → count (may_serve session_id) sessions ≡ 0
    → count (may_serve session_id) (update (has_session_id other) (mark_stopped now) sessions) ≡ 0
unfolding count update
marked_closed session_id other now [] h = refl
marked_closed session_id other now (x ∷ sessions) h =
    ground (arith, marked_closed session_id other now sessions)

overwritten_closed :
    (session_id : String) (row : ServingSession) (sessions : List ServingSession)
    → has_session_id session_id row ≡ false
    → count (may_serve session_id) sessions ≡ 0
    → count (may_serve session_id) (update (has_session_id row.session_id) (λ old. row) sessions)
      ≡ 0
unfolding count update
overwritten_closed session_id row [] other h = refl
overwritten_closed session_id row (x ∷ sessions) other h =
    ground (arith, other, overwritten_closed session_id row sessions other)

put_closed :
    (session_id : String) (row : ServingSession) (sessions : List ServingSession)
    → has_session_id session_id row ≡ false
    → count (may_serve session_id) sessions ≡ 0
    → count (may_serve session_id) (put_session row sessions) ≡ 0
unfolding put_session
put_closed session_id row sessions other h =
    elim (Bool-cases (any (has_session_id row.session_id) sessions)) [
      | inl there ↦ rw there (overwritten_closed session_id row sessions other h)
      | inr missing ↦
          rw missing (ground (arith, h, other, count-insert (may_serve session_id) row sessions))
    ]

-- A report that is read is of the session that it names.
read_id :
    (session_id : String) (report : SessionReport) (now read_at : ℕ) (row : ServingSession)
    → read_report report now ≡ inr row
    → is_report_of session_id (reports report now read_at) ≡ false
    → has_session_id session_id row ≡ false
unfolding read_report
read_id session_id report now read_at row e other =
    elim (Option-cases (optional_string report.session_id)) [
      | inl absent ↦ absurd (ground (arith, absent, e))
      | inr (id, named) ↦ elim (Option-cases (state_named (reported_state report.state))) [
        | inl unknown ↦ absurd (ground (arith, named, unknown, e))
        | inr (state, known) ↦ ground (arith, named, known, e, other)
      ]
    ]

reported_closed :
    (session_id : String) (report : SessionReport) (now read_at : ℕ)
    (sessions : List ServingSession) (outcome : SessionError ⊎ ServingSession)
    → read_report report now ≡ outcome
    → is_report_of session_id (reports report now read_at) ≡ false
    → count (may_serve session_id) sessions ≡ 0
    → count (may_serve session_id) (kept_or sessions (stored sessions read_at outcome)) ≡ 0
reported_closed session_id report now read_at sessions (inl raised) e other h = h
reported_closed session_id report now read_at sessions (inr row) e other h =
    put_closed session_id row sessions (read_id session_id report now read_at row e other) h

carried_closed :
    (session_id : String) (operation : Operation) (sessions : List ServingSession)
    → is_report_of session_id operation ≡ false
    → count (may_serve session_id) sessions ≡ 0
    → count (may_serve session_id) (carry_out operation sessions) ≡ 0
unfolding carry_out upsert_serving_session stop_serving_session
carried_closed session_id (reports report now read_at) sessions other h =
    reported_closed session_id report now read_at sessions (read_report report now) refl other h
carried_closed session_id (stops stopped now read_at) sessions other h =
    marked_closed session_id stopped now sessions h

all_closed :
    (session_id : String) (operations : List Operation) (sessions : List ServingSession)
    → any (is_report_of session_id) operations ≡ false
    → count (may_serve session_id) sessions ≡ 0
    → count (may_serve session_id) (carry_out_all operations sessions) ≡ 0
unfolding carry_out_all
all_closed session_id [] sessions silent h = h
all_closed session_id (operation ∷ operations) sessions silent h =
    all_closed session_id operations (carry_out operation sessions) (ground (arith, silent))
      (carried_closed session_id operation sessions (ground (arith, silent)) h)

closed_not_current :
    (session_id : String) (sessions : List ServingSession) (later : ℕ) (session : SessionRecord)
    → count (may_serve session_id) sessions ≡ 0
    → IsCurrent sessions later (some session)
    → session.session_id ≢ session_id
unfolding map_serving_session
closed_not_current session_id sessions later session closed (row, e, member, serves, live, newest)
      same =
    let own : row.session_id ≡ session_id = sym (ap (λ s. s.session_id) e) ∙ same in
    let open_row : may_serve session_id row ≡ true =
      ground (arith, serves, eq_iff row.session_id session_id, own) in
    absurd (ground (arith, closed, count-Elem (may_serve session_id) sessions row member open_row))

-- After a session was stopped, and whatever is reported and stopped in whatever order after that: as
-- long as the session is not reported itself, it is not current at any time.
pub stopped_not_current :
    (sessions : List ServingSession) (session_id : String) (now read_at later : ℕ)
    (operations : List Operation) (session : SessionRecord)
    → any (is_report_of session_id) operations ≡ false
    → current_serving_session
        (carry_out_all operations (stop_serving_session sessions session_id now read_at).1)
        later
      ≡ some session
    → session.session_id ≢ session_id
unfolding stop_serving_session
stopped_not_current sessions session_id now read_at later operations session silent h =
    let stopped = update (has_session_id session_id) (mark_stopped now) sessions in
    let after = carry_out_all operations stopped in
    let newest : IsCurrent after later (current_serving_session after later) =
      newest_session_reported after later in
    closed_not_current session_id after later session
      (all_closed session_id operations stopped silent (
        count-update_keyed (may_serve session_id) (has_session_id session_id) (mark_stopped now)
          sessions (λ r key. ground arith) (λ r key. ground arith)))
      (rw h at newest)
