-- ===== src/Invitations/Changes.antt =====
-- backend/app/db_invitations.py: redeeming and revoking an invitation.
use mathlib.Core.Option
use css360_syllabus_bot.Prelude.{
  ℕ, ◌+◌, Bool, true, not, ◌&&◌, String, Option, none, some, ◌⊎◌, inl, inr, ltb, string_eq,
  if◌then◌else◌,
}
use css360_syllabus_bot.Table.{find, update, count}
use css360_syllabus_bot.CourseId.{is_valid_course_id}
use css360_syllabus_bot.Invitations.{
  is_student, Invitation, Store, InvitationError, invalid_course_id, has_invitation_id, is_text,
  is_null, InvitationRecord, map_invitation, get_invitation,
}

-- expires_at IS NULL OR expires_at > now
abbrev pub is_unexpired : Option ℕ → ℕ → Bool
is_unexpired none now = true
is_unexpired (some expires_at) now = ltb now expires_at

-- max_uses IS NULL OR use_count < max_uses
abbrev pub has_uses_left : Option ℕ → ℕ → Bool
has_uses_left none use_count = true
has_uses_left (some max_uses) use_count = ltb use_count max_uses

-- The conditions of the UPDATE beside its key.
unfoldable pub is_consumable : ℕ → Invitation → Bool
is_consumable now row =
    is_null row.revoked_at
    && is_unexpired row.expires_at now
    && has_uses_left row.max_uses row.use_count

-- COALESCE
abbrev pub or_else {κ} : {Value : Type κ} → Option Value → Option Value → Option Value
or_else none old = old
or_else (some new) old = some new

abbrev pub accept : ℕ → Option String → Invitation → Invitation
accept now accepted_by row = record row {
  use_count = row.use_count + 1;
  accepted_at = if is_null accepted_by then row.accepted_at else some now;
  accepted_by_user_id = or_else accepted_by row.accepted_by_user_id;
}

abbrev pub consume_key : String → ℕ → Invitation → Bool
consume_key invitation_id now row = has_invitation_id invitation_id row && is_consumable now row

abbrev pub update_invitations : (Invitation → Bool) → (Invitation → Invitation) → Store → Store
update_invitations test change store = record store {
  invitations = update test change store.invitations;
}

-- One conditional UPDATE ... RETURNING.
unfoldable pub consume : Store → String → ℕ → Option String → Option InvitationRecord × Store
unfolding is_consumable map_invitation
consume store invitation_id now accepted_by = (
  Option.map (λ row. map_invitation (accept now accepted_by row) now)
      (find (consume_key invitation_id now) store.invitations),
  update_invitations (consume_key invitation_id now) (accept now accepted_by) store,
)

abbrev pub mark_revoked : ℕ → Option String → Invitation → Invitation
mark_revoked now revoked_by row = record row { revoked_at = some now; revoked_by = revoked_by }

-- Already-revoked rows are left as they were.
unfoldable pub revoke : Store → String → Option String → ℕ → Option InvitationRecord × Store
unfolding get_invitation
revoke store invitation_id revoked_by now =
    let changed =
      update_invitations (λ row. has_invitation_id invitation_id row && is_null row.revoked_at)
        (mark_revoked now revoked_by) store in
    (get_invitation changed invitation_id now, changed)

abbrev pub is_standing_code : String → Invitation → Bool
is_standing_code course_id row =
    is_text row.course_id course_id && is_student row.kind && is_null row.revoked_at

unfoldable pub count_active_student_invitations : Store → String → ℕ → InvitationError ⊎ ℕ
count_active_student_invitations store course_id now =
    if not (is_valid_course_id course_id)
    then inl invalid_course_id
    else inr (
        count (λ row. is_standing_code course_id row && is_unexpired row.expires_at now)
          store.invitations)

unfoldable pub revoke_active_student_invitations :
    Store → String → Option String → ℕ → InvitationError ⊎ (ℕ × Store)
revoke_active_student_invitations store course_id revoked_by now =
    if not (is_valid_course_id course_id)
    then inl invalid_course_id
    else inr (
      count (is_standing_code course_id) store.invitations,
      update_invitations (is_standing_code course_id) (mark_revoked now revoked_by) store,
    )
