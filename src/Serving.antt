-- ===== src/Serving.antt =====
-- backend/app/db_serving_sessions.py: which GPU session serves, and until when.
pub mod Refinement
pub mod ReadBack
pub mod Current
pub mod Stopped
mod Examples
use mathlib.Core.Option
use css360_syllabus_bot.Prelude.{
  ℕ, suc, zero, Bool, true, false, ◌&&◌, String, Option, none, some, List, [], ◌∷◌, map, any, leb,
  ltb, ◌==◌, string_eq, if◌then◌else◌, ◌⊎◌, inl, inr,
}
use css360_syllabus_bot.Table.{find, select, update, insert, first}
use css360_syllabus_bot.Training.Run.{optional_string}

-- SESSION_STATES
pub data SessionState : Type 0 where
  starting ready stopped expired : SessionState

-- state in LIVE_SESSION_STATES
abbrev pub is_live : SessionState → Bool
is_live SessionState.starting = true
is_live SessionState.ready = true
is_live _ = false

-- The keys of the `detail` document that are public, and the rest of it.
pub record Detail : Type 0 where
  pub courses : Option String
  pub base_model : Option String
  pub other : Option String

-- A row of `serving_sessions`.
pub record ServingSession : Type 0 where
  pub session_id : String
  pub job_id : String
  pub node : String
  pub port : ℕ
  pub state : SessionState
  pub started_at : ℕ
  pub expires_at : ℕ
  pub updated_at : ℕ
  pub detail : Option Detail

pub record SessionRecord : Type 0 where
  pub session_id : String
  pub job_id : String
  pub node : String
  pub port : ℕ
  pub state : SessionState
  pub stored_state : SessionState
  pub started_at : ℕ
  pub expires_at : ℕ
  pub updated_at : ℕ
  pub live : Bool
  pub detail : Option Detail

-- A session whose wall clock has passed is reported expired, whatever the row says.
abbrev pub state_at : ServingSession → ℕ → SessionState
state_at row now =
    if is_live row.state && leb row.expires_at now then SessionState.expired else row.state

unfoldable pub map_serving_session : ServingSession → ℕ → SessionRecord
map_serving_session row now = record {
  session_id = row.session_id;
  job_id = row.job_id;
  node = row.node;
  port = row.port;
  state = state_at row now;
  stored_state = row.state;
  started_at = row.started_at;
  expires_at = row.expires_at;
  updated_at = row.updated_at;
  live = is_live (state_at row now);
  detail = row.detail;
}

-- The session that a script reports; an absent key is none.
pub record SessionReport : Type 0 where
  pub session_id : Option String
  pub job_id : String
  pub node : String
  pub port : ℕ
  pub state : Option String
  pub started_at : Option ℕ
  pub expires_at : ℕ
  pub detail : Option Detail

-- What an upsert raises.
pub data SessionError : Type 0 where
  no_session_id : SessionError
  unknown_state : String → SessionError

abbrev pub state_named : String → Option SessionState
state_named text =
    if text == "starting"
    then some SessionState.starting
    else if text == "ready"
    then some SessionState.ready
    else if text == "stopped"
    then some SessionState.stopped
    else if text == "expired"
    then some SessionState.expired
    else none

-- optional_string(state) or "starting"
abbrev pub reported_state : Option String → String
reported_state state = elim (optional_string state) [ none ↦ "starting" | some text ↦ text ]

abbrev pub row_of : SessionReport → String → SessionState → ℕ → ServingSession
row_of report session_id state now = record {
  session_id = session_id;
  job_id = report.job_id;
  node = report.node;
  port = report.port;
  state = state;
  started_at = elim report.started_at [ none ↦ now | some started_at ↦ started_at ];
  expires_at = report.expires_at;
  updated_at = now;
  detail = report.detail;
}

abbrev pub has_session_id : String → ServingSession → Bool
has_session_id session_id row = row.session_id == session_id

-- INSERT ... ON CONFLICT (session_id) DO UPDATE
unfoldable pub put_session : ServingSession → List ServingSession → List ServingSession
put_session row sessions =
    if any (has_session_id row.session_id) sessions
    then update (has_session_id row.session_id) (λ old. row) sessions
    else insert row sessions

-- The row that a report comes to, or what is raised.
unfoldable pub read_report : SessionReport → ℕ → SessionError ⊎ ServingSession
read_report report now = elim (optional_string report.session_id) [
  | none ↦ inl no_session_id
  | some session_id ↦ elim (state_named (reported_state report.state)) [
    | none ↦ inl (unknown_state (reported_state report.state))
    | some state ↦ inr (row_of report session_id state now)
  ]
]

unfoldable pub get_serving_session : List ServingSession → String → ℕ → Option SessionRecord
unfolding map_serving_session
get_serving_session sessions session_id now =
    Option.map (λ row. map_serving_session row now) (find (has_session_id session_id) sessions)

abbrev pub stored :
    List ServingSession
    → ℕ
    → SessionError ⊎ ServingSession
    → SessionError ⊎ (Option SessionRecord × List ServingSession)
stored sessions read_at (inl raised) = inl raised
stored sessions read_at (inr row) = inr (
  get_serving_session (put_session row sessions) row.session_id read_at,
  put_session row sessions,
)

-- `now` is the time of the write; the record is read back at `read_at`.
unfoldable pub upsert_serving_session :
    List ServingSession
    → SessionReport
    → ℕ
    → ℕ
    → SessionError ⊎ (Option SessionRecord × List ServingSession)
unfolding read_report put_session get_serving_session
upsert_serving_session sessions report now read_at =
    stored sessions read_at (read_report report now)

abbrev pub mark_stopped : ℕ → ServingSession → ServingSession
mark_stopped now row = record row { state = SessionState.stopped; updated_at = now }

unfoldable pub stop_serving_session :
    List ServingSession → String → ℕ → ℕ → Option SessionRecord × List ServingSession
unfolding get_serving_session
stop_serving_session sessions session_id now read_at =
    let stopped = update (has_session_id session_id) (mark_stopped now) sessions in
    (get_serving_session stopped session_id read_at, stopped)

-- WHERE state = ANY(live) AND expires_at > now
abbrev pub is_serving : ℕ → ServingSession → Bool
is_serving now row = is_live row.state && ltb now row.expires_at

-- ORDER BY started_at DESC
abbrev pub started_after : ServingSession → ServingSession → Bool
started_after a b = ltb b.started_at a.started_at

unfoldable pub current_serving_session : List ServingSession → ℕ → Option SessionRecord
unfolding map_serving_session
current_serving_session sessions now =
    Option.map (λ row. map_serving_session row now)
      (first started_after (select (is_serving now) sessions))

-- The browser-safe view: no node, no port, and of the detail only what is served.
pub record PublicSession : Type 0 where
  pub session_id : String
  pub job_id : String
  pub state : SessionState
  pub started_at : ℕ
  pub expires_at : ℕ
  pub updated_at : ℕ
  pub live : Bool
  pub courses : Option String
  pub base_model : Option String

unfoldable pub public_serving_session : Option SessionRecord → Option PublicSession
public_serving_session none = none
public_serving_session (some session) = some record {
  session_id = session.session_id;
  job_id = session.job_id;
  state = session.state;
  started_at = session.started_at;
  expires_at = session.expires_at;
  updated_at = session.updated_at;
  live = session.live;
  courses = elim session.detail [ none ↦ none | some detail ↦ detail.courses ];
  base_model = elim session.detail [ none ↦ none | some detail ↦ detail.base_model ];
}
