-- ===== src/Serving/Refinement.antt =====
-- The table of sessions implements a map from session ids to sessions.
use mathlib.Core.Option
use mathlib.Core.Path.{fun_ext}
use css360_syllabus_bot.Prelude.{
  ℕ, ◌≡◌, ◌∙◌, ap, sym, refl, false, String, Option, some, List, [], ◌∷◌, any, ◌==◌, string_eq,
  eq_iff, if◌then◌else◌, ◌⊎◌, inl, inr, Bool-cases, Option-cases,
}
use css360_syllabus_bot.Table.{find, update, insert}
use css360_syllabus_bot.Table.Laws.{find-update, find_passes}
use css360_syllabus_bot.Table.Overwrite.{find-upsert}
use css360_syllabus_bot.Serving.{
  ServingSession, SessionReport, SessionError, SessionRecord, has_session_id, mark_stopped,
  put_session, stored, read_report, upsert_serving_session, stop_serving_session,
}

-- A call that changes the sessions, with the times of the write and of the reading back.
pub data Operation : Type 0 where
  reports : (report : SessionReport) (now read_at : ℕ) → Operation
  stops : (session_id : String) (now read_at : ℕ) → Operation

abbrev pub kept_or :
    List ServingSession
    → SessionError ⊎ (Option SessionRecord × List ServingSession)
    → List ServingSession
kept_or sessions (inl raised) = sessions
kept_or sessions (inr (returned, changed)) = changed

unfoldable pub carry_out : Operation → List ServingSession → List ServingSession
unfolding upsert_serving_session stop_serving_session
carry_out (reports report now read_at) sessions =
    kept_or sessions (upsert_serving_session sessions report now read_at)
carry_out (stops session_id now read_at) sessions =
    (stop_serving_session sessions session_id now read_at).1

unfoldable pub carry_out_all : List Operation → List ServingSession → List ServingSession
carry_out_all [] sessions = sessions
carry_out_all (operation ∷ operations) sessions =
    carry_out_all operations (carry_out operation sessions)

-- The specification: a session of each id, or none.
abbrev pub SessionMap : Type 0
SessionMap = String → Option ServingSession

-- What the table says of each id.
abbrev pub view : List ServingSession → SessionMap
view sessions id = find (has_session_id id) sessions

abbrev pub put_reported : SessionError ⊎ ServingSession → SessionMap → SessionMap
put_reported (inl raised) sessions = sessions
put_reported (inr row) sessions = λ id. if row.session_id == id then some row else sessions id

-- A report puts its session under its id; a stop marks the session of the id; a refused report does
-- nothing.
unfoldable pub specified : Operation → SessionMap → SessionMap
specified (reports report now read_at) sessions = put_reported (read_report report now) sessions
specified (stops session_id now read_at) sessions =
    λ id. if session_id == id then Option.map (mark_stopped now) (sessions id) else sessions id

unfoldable pub specified_all : List Operation → SessionMap → SessionMap
specified_all [] sessions = sessions
specified_all (operation ∷ operations) sessions =
    specified_all operations (specified operation sessions)

other_kept :
    (row : ServingSession) (id : String) (sessions : List ServingSession)
    → has_session_id id row ≡ false
    → find (has_session_id id) (update (has_session_id row.session_id) (λ old. row) sessions)
      ≡ find (has_session_id id) sessions
unfolding find update
other_kept row id [] other = refl
other_kept row id (x ∷ sessions) other = elim (Bool-cases (x.session_id == row.session_id)) [
  | inl hit ↦
      let e : x.session_id ≡ row.session_id = (eq_iff x.session_id row.session_id).0 hit in
      let miss : has_session_id id x ≡ false = rw e other in
      rw (hit, other, miss) (other_kept row id sessions other)
  | inr keep ↦ rw (keep, other_kept row id sessions other) refl
]

insert_other :
    (row : ServingSession) (id : String) (sessions : List ServingSession)
    → has_session_id id row ≡ false
    → find (has_session_id id) (insert row sessions) ≡ find (has_session_id id) sessions
unfolding find insert
insert_other row id [] other = rw other refl
insert_other row id (x ∷ sessions) other = rw (insert_other row id sessions other) refl

same_either_way : (a b : String) → (a == b) ≡ (b == a)
same_either_way a b = elim (Bool-cases (a == b)) [
  | inl same ↦ rw ((eq_iff a b).0 same) refl
  | inr differ ↦ elim (Bool-cases (b == a)) [
    | inl same ↦ rw ((eq_iff b a).0 same) refl
    | inr too ↦ differ ∙ sym too
  ]
]

pub put_view :
    (row : ServingSession) (sessions : List ServingSession) (id : String)
    → view (put_session row sessions) id
      ≡ (if row.session_id == id then some row else view sessions id)
unfolding put_session
put_view row sessions id = elim (Bool-cases (row.session_id == id)) [
  | inl own ↦
      let e : row.session_id ≡ id = (eq_iff row.session_id id).0 own in
      rw (own, ← e)
        (find-upsert (has_session_id row.session_id) row sessions
          ((eq_iff row.session_id row.session_id).1 refl))
  | inr other ↦ elim (Bool-cases (any (has_session_id row.session_id) sessions)) [
    | inl there ↦ rw (other, there) (other_kept row id sessions other)
    | inr missing ↦ rw (other, missing) (insert_other row id sessions other)
  ]
]

stopped_found :
    (session_id : String) (now : ℕ) (id : String) (sessions : List ServingSession)
    → Option.map
        (λ row. if has_session_id session_id row then mark_stopped now row else row)
        (view sessions id)
      ≡ (if session_id == id
          then Option.map (mark_stopped now) (view sessions id)
          else view sessions id)
stopped_found session_id now id sessions = elim (Option-cases (view sessions id)) [
  | inl absent ↦ elim (Bool-cases (session_id == id)) [
    | inl same ↦ rw (absent, same) refl
    | inr differ ↦ rw (absent, differ) refl
  ]
  | inr (row, e) ↦
      let own : row.session_id ≡ id =
        (eq_iff row.session_id id).0 (find_passes (has_session_id id) sessions row e) in
      let alike : has_session_id session_id row ≡ (session_id == id) =
        rw own (same_either_way id session_id) in
      elim (Bool-cases (session_id == id)) [
        | inl same ↦ rw (e, alike, same) refl
        | inr differ ↦ rw (e, alike, differ) refl
      ]
]

stop_view :
    (session_id : String) (now : ℕ) (sessions : List ServingSession) (id : String)
    → find (has_session_id id) (update (has_session_id session_id) (mark_stopped now) sessions) ≡ (
        if session_id == id
        then Option.map (mark_stopped now) (view sessions id)
        else view sessions id)
stop_view session_id now sessions id =
    find-update (has_session_id id) (has_session_id session_id) (mark_stopped now) sessions
      (λ row. refl)
    ∙ stopped_found session_id now id sessions

reported_view :
    (sessions : List ServingSession) (read_at : ℕ) (outcome : SessionError ⊎ ServingSession)
    (id : String)
    → view (kept_or sessions (stored sessions read_at outcome)) id
      ≡ put_reported outcome (view sessions) id
reported_view sessions read_at (inl raised) id = refl
reported_view sessions read_at (inr row) id = put_view row sessions id

carried_view :
    (operation : Operation) (sessions : List ServingSession) (id : String)
    → view (carry_out operation sessions) id ≡ specified operation (view sessions) id
unfolding carry_out upsert_serving_session stop_serving_session specified
carried_view (reports report now read_at) sessions id =
    reported_view sessions read_at (read_report report now) id
carried_view (stops session_id now read_at) sessions id = stop_view session_id now sessions id

-- Whatever is reported and stopped, in whatever order: what the table holds under each id is what the
-- specified map holds under it, where each report that is not refused puts its session under its id
-- and each stop marks the session of its id.
pub table_refines_map :
    (operations : List Operation) (sessions : List ServingSession) (id : String)
    → view (carry_out_all operations sessions) id ≡ specified_all operations (view sessions) id
unfolding carry_out_all specified_all
table_refines_map [] sessions id = refl
table_refines_map (operation ∷ operations) sessions id =
    table_refines_map operations (carry_out operation sessions) id
    ∙ ap (λ m. specified_all operations m id) (fun_ext (carried_view operation sessions))
