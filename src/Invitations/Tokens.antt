-- ===== src/Invitations/Tokens.antt =====
-- backend/app/db_invitations.py: the single-use invitations, their course grants and the look-ups.
use mathlib.Core.Option
use css360_syllabus_bot.Prelude.{
  ℕ, Bool, true, not, ◌&&◌, String, Option, none, some, List, [], ◌∷◌, map, ◌⊎◌, any, ◌==◌,
  string_eq, if◌then◌else◌,
}
use css360_syllabus_bot.Table.{find, select, insert}
use css360_syllabus_bot.CourseId.{is_valid_course_id}
use css360_syllabus_bot.Training.Run.{optional_string}
use css360_syllabus_bot.Invitations.{
  Kind, is_student, is_professor, is_reset, Invitation, Grant, Course, Store, InvitationError,
  bad_kind, no_target_user, invalid_course_id, stray_grants, duplicate_key, missing_course,
  has_invitation_id, is_text, has_code, is_course, InvitationRecord, map_invitation,
  insert_invitation, is_nil, unless,
}

abbrev pub token_row :
    String → Kind → String → Option String → ℕ → Option String → Option String → ℕ → Invitation
token_row invitation_id kind token_hash created_by expires_at target_user_id label now = record {
  invitation_id = invitation_id;
  kind = kind;
  code = none;
  token_hash = some token_hash;
  course_id = none;
  target_user_id = target_user_id;
  label = optional_string label;
  created_by = created_by;
  created_at = now;
  expires_at = some expires_at;
  max_uses = some 1;
  use_count = 0;
  revoked_at = none;
  revoked_by = none;
  accepted_at = none;
  accepted_by_user_id = none;
}

-- not target_user_id
abbrev pub is_blank : Option String → Bool
is_blank none = true
is_blank (some text) = text == ""

abbrev pub same_grant : Grant → Grant → Bool
same_grant a b = a.invitation_id == b.invitation_id && a.course_id == b.course_id

-- INSERT ... ON CONFLICT DO NOTHING, once for each course
unfoldable pub insert_grants : String → List String → List Grant → List Grant
insert_grants invitation_id [] grants = grants
insert_grants invitation_id (course_id ∷ course_ids) grants =
    let grant : Grant = record { invitation_id = invitation_id; course_id = course_id } in
    insert_grants invitation_id course_ids
      (if any (same_grant grant) grants then grants else insert grant grants)

abbrev pub has_invalid : List String → Bool
has_invalid course_ids = any (λ id. not (is_valid_course_id id)) course_ids

abbrev pub is_missing : List Course → String → Bool
is_missing courses id = not (any (is_course id) courses)

abbrev pub has_token : String → Invitation → Bool
has_token token_hash row = is_text row.token_hash token_hash

abbrev pub granted_courses : List String → Option (List String)
granted_courses course_ids = if is_nil course_ids then none else some course_ids

-- What the creation of a token raises.
unfoldable pub token_refusal :
    Store → String → Kind → String → List String → Option String → Option InvitationError
token_refusal store invitation_id kind token_hash course_ids target_user_id =
    if is_student kind
    then some bad_kind
    else if is_reset kind && is_blank target_user_id
    then some no_target_user
    else if has_invalid course_ids
    then some invalid_course_id
    else if not (is_professor kind) && not (is_nil course_ids)
    then some stray_grants
    else if any (has_invitation_id invitation_id) store.invitations
    then some duplicate_key
    else if any (has_token token_hash) store.invitations
    then some duplicate_key
    else if any (is_missing store.courses) course_ids
    then some missing_course
    else none

unfoldable pub create_token_invitation :
    Store
    → String
    → Kind
    → String
    → Option String
    → ℕ
    → List String
    → Option String
    → Option String
    → ℕ
    → InvitationError ⊎ (InvitationRecord × Store)
unfolding map_invitation insert_grants token_refusal
create_token_invitation store invitation_id kind token_hash created_by expires_at course_ids
      target_user_id label now =
    let row =
      token_row invitation_id kind token_hash created_by expires_at target_user_id label now in
    unless (token_refusal store invitation_id kind token_hash course_ids target_user_id) (
      record (map_invitation row now) { course_ids = granted_courses course_ids },
      record (insert_invitation row store) {
        grants = insert_grants invitation_id course_ids store.grants;
      },
    )

module _ (sorted : List String → List String) where
  -- ORDER BY course_id, whose order is the database's
  unfoldable pub list_grants : Store → String → List String
  list_grants store invitation_id = sorted (
      map (λ grant. grant.course_id)
        (select (λ grant. grant.invitation_id == invitation_id) store.grants))

  abbrev pub with_grants : Store → InvitationRecord → InvitationRecord
  with_grants store found =
      if is_professor found.kind
      then record found { course_ids = some (list_grants store found.invitation_id) }
      else found

  unfoldable pub find_by_token_hash : Store → String → ℕ → Option InvitationRecord
  unfolding list_grants
  find_by_token_hash store token_hash now =
      Option.map (λ row. with_grants store (map_invitation row now))
        (find (has_token token_hash) store.invitations)

-- JOIN courses ON c.course_id = i.course_id
abbrev pub joined_course : List Course → Option String → Option Course
joined_course courses none = none
joined_course courses (some course_id) = find (is_course course_id) courses

abbrev pub with_course : Invitation → ℕ → Option Course → Option InvitationRecord
with_course row now none = none
with_course row now (some course) =
    some record (map_invitation row now) { course_name = optional_string (some course.name) }

-- The student invitation behind a classroom code, in any state.
unfoldable pub find_by_code : Store → String → ℕ → Option InvitationRecord
unfolding map_invitation
find_by_code store code now =
    elim (find (λ row. has_code code row && is_student row.kind) store.invitations) [
      | none ↦ none
      | some row ↦ with_course row now (joined_course store.courses row.course_id)
    ]
