-- ===== src/Invitations.antt =====
-- backend/app/db_invitations.py: classroom codes and one-time invitations, the rows of one table.
-- An operation that changes the table returns the store beside its result.
pub mod Tokens
pub mod Changes
pub mod Routes
pub mod Dead
pub mod Redemption
pub mod Once
pub mod Replacement
mod Examples
use mathlib.Core.Option
use css360_syllabus_bot.Prelude.{
  ℕ, ◌+◌, Bool, true, false, not, ◌&&◌, ◌||◌, String, Option, none, some, List, [], ◌∷◌, ◌⊎◌, inl,
  inr, any, contains, ltb, leb, ◌==◌, string_eq, if◌then◌else◌,
}
use css360_syllabus_bot.Table.{find, select, update, insert, count}
use css360_syllabus_bot.CourseId.{is_valid_course_id}
use css360_syllabus_bot.Training.Run.{optional_string}

pub data Kind : Type 0 where
  student professor admin reset : Kind

abbrev pub is_student : Kind → Bool
is_student Kind.student = true
is_student _ = false

abbrev pub is_professor : Kind → Bool
is_professor Kind.professor = true
is_professor _ = false

abbrev pub is_reset : Kind → Bool
is_reset Kind.reset = true
is_reset _ = false

-- Lifecycle states derived from the row.
pub data Lifecycle : Type 0 where
  active revoked expired used : Lifecycle

abbrev pub is_active : Lifecycle → Bool
is_active Lifecycle.active = true
is_active _ = false

abbrev pub is_revoked : Lifecycle → Bool
is_revoked Lifecycle.revoked = true
is_revoked _ = false

-- A row of `invitations`.
pub record Invitation : Type 0 where
  pub invitation_id : String
  pub kind : Kind
  pub code : Option String
  pub token_hash : Option String
  pub course_id : Option String
  pub target_user_id : Option String
  pub label : Option String
  pub created_by : Option String
  pub created_at : ℕ
  pub expires_at : Option ℕ
  pub max_uses : Option ℕ
  pub use_count : ℕ
  pub revoked_at : Option ℕ
  pub revoked_by : Option String
  pub accepted_at : Option ℕ
  pub accepted_by_user_id : Option String

-- A row of `invitation_course_grants`.
pub record Grant : Type 0 where
  pub invitation_id : String
  pub course_id : String

pub record Course : Type 0 where
  pub course_id : String
  pub name : String

-- What the audit table keeps of an action on an invitation.
pub record AdminAction : Type 0 where
  pub actor_user_id : String
  pub actor_role : String
  pub action : String
  pub target_id : String
  pub course_id : String
  pub label : Option String
  pub expires_at : Option ℕ
  pub replaced : Option ℕ
  pub created_at : ℕ

pub record Store : Type 0 where
  pub courses : List Course
  pub invitations : List Invitation
  pub grants : List Grant
  pub actions : List AdminAction

-- What the functions raise.
pub data InvitationError : Type 0 where
  invalid_course_id code_collision bad_kind no_target_user stray_grants : InvitationError
  duplicate_key missing_course : InvitationError
  course_not_found bad_expiry past_expiry no_code_left code_not_found : InvitationError

abbrev pub has_invitation_id : String → Invitation → Bool
has_invitation_id invitation_id row = row.invitation_id == invitation_id

abbrev pub is_text : Option String → String → Bool
is_text none text = false
is_text (some value) text = value == text

abbrev pub is_null {κ} : {Value : Type κ} → Option Value → Bool
is_null none = true
is_null (some value) = false

abbrev pub is_nil {κ} : {Value : Type κ} → List Value → Bool
is_nil [] = true
is_nil (value ∷ values) = false

abbrev pub has_expired : Option ℕ → ℕ → Bool
has_expired none now = false
has_expired (some expires_at) now = leb expires_at now

abbrev pub is_used_up : Option ℕ → ℕ → Bool
is_used_up none use_count = false
is_used_up (some max_uses) use_count = leb max_uses use_count

unfoldable pub status_of : Invitation → ℕ → Lifecycle
status_of row now =
    if not (is_null row.revoked_at)
    then Lifecycle.revoked
    else if has_expired row.expires_at now
    then Lifecycle.expired
    else if is_used_up row.max_uses row.use_count
    then Lifecycle.used
    else Lifecycle.active

unfoldable pub is_redeemable : Invitation → ℕ → Bool
unfolding status_of
is_redeemable row now = is_active (status_of row now)

-- The API record: the token hash is not part of it.
pub record InvitationRecord : Type 0 where
  pub invitation_id : String
  pub kind : Kind
  pub status : Lifecycle
  pub created_at : ℕ
  pub use_count : ℕ
  pub code : Option String
  pub course_id : Option String
  pub target_user_id : Option String
  pub label : Option String
  pub created_by : Option String
  pub expires_at : Option ℕ
  pub max_uses : Option ℕ
  pub revoked_at : Option ℕ
  pub revoked_by : Option String
  pub accepted_at : Option ℕ
  pub accepted_by_user_id : Option String
  pub course_name : Option String
  pub course_ids : Option (List String)

unfoldable pub map_invitation : Invitation → ℕ → InvitationRecord
unfolding status_of
map_invitation row now = record {
  invitation_id = row.invitation_id;
  kind = row.kind;
  status = status_of row now;
  created_at = row.created_at;
  use_count = row.use_count;
  code = optional_string row.code;
  course_id = optional_string row.course_id;
  target_user_id = row.target_user_id;
  label = optional_string row.label;
  created_by = row.created_by;
  expires_at = row.expires_at;
  max_uses = row.max_uses;
  revoked_at = row.revoked_at;
  revoked_by = row.revoked_by;
  accepted_at = row.accepted_at;
  accepted_by_user_id = row.accepted_by_user_id;
  course_name = none;
  course_ids = none;
}

unfoldable pub get_invitation : Store → String → ℕ → Option InvitationRecord
get_invitation store invitation_id now =
    Option.map (λ row. map_invitation row now)
      (find (has_invitation_id invitation_id) store.invitations)

abbrev pub has_code : String → Invitation → Bool
has_code code row = is_text row.code code

abbrev pub is_course : String → Course → Bool
is_course course_id course = course.course_id == course_id

abbrev pub student_row :
    String → String → String → Option String → Option String → Option ℕ → ℕ → Invitation
student_row invitation_id course_id code created_by label expires_at now = record {
  invitation_id = invitation_id;
  kind = Kind.student;
  code = some code;
  token_hash = none;
  course_id = some course_id;
  target_user_id = none;
  label = optional_string label;
  created_by = created_by;
  created_at = now;
  expires_at = expires_at;
  max_uses = none;
  use_count = 0;
  revoked_at = none;
  revoked_by = none;
  accepted_at = none;
  accepted_by_user_id = none;
}

abbrev pub insert_invitation : Invitation → Store → Store
insert_invitation row store = record store { invitations = insert row store.invitations }

-- The value, where nothing is raised.
abbrev pub unless {κ} : {Value : Type κ} → Option InvitationError → Value → InvitationError ⊎ Value
unless none value = inr value
unless (some raised) value = inl raised

-- What the insertion of a code raises.
unfoldable pub code_refusal : Store → String → String → String → Option InvitationError
code_refusal store invitation_id course_id code =
    if not (is_valid_course_id course_id)
    then some invalid_course_id
    else if any (has_code code) store.invitations
    then some code_collision
    else if any (has_invitation_id invitation_id) store.invitations
    then some duplicate_key
    else if not (any (is_course course_id) store.courses)
    then some missing_course
    else none

-- The generated identifier is an argument, as is the clock.
unfoldable pub create_student_invitation :
    Store
    → String
    → String
    → String
    → Option String
    → Option String
    → Option ℕ
    → ℕ
    → InvitationError ⊎ (InvitationRecord × Store)
unfolding map_invitation code_refusal
create_student_invitation store invitation_id course_id code created_by label expires_at now =
    let row = student_row invitation_id course_id code created_by label expires_at now in
    unless (code_refusal store invitation_id course_id code)
      (map_invitation row now, insert_invitation row store)
