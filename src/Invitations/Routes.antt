-- ===== src/Invitations/Routes.antt =====
-- backend/app/student_invite_routes.py: issuing, replacing and revoking the classroom codes of a course.
use mathlib.Core.Option
use css360_syllabus_bot.Prelude.{
  ℕ, zero, suc, Bool, true, false, not, ◌&&◌, String, Option, none, some, ◌⊎◌, inl, inr, any, leb,
  ◌==◌, string_eq, strip, if◌then◌else◌,
}
use css360_syllabus_bot.Table.{insert}
use css360_syllabus_bot.Invitations.{
  is_student, is_revoked, AdminAction, Store, InvitationError, code_collision, course_not_found,
  bad_expiry, past_expiry, no_code_left, code_not_found, is_text, is_course, InvitationRecord,
  get_invitation, create_student_invitation,
}
use css360_syllabus_bot.Invitations.Changes.{revoke, revoke_active_student_invitations}

-- The signed-in member of the staff.
pub record Actor : Type 0 where
  pub user_id : String
  pub role : String
  pub display_name : String

pub record StudentInviteRecord : Type 0 where
  pub invitation : InvitationRecord
  pub created_by_name : Option String
  pub participant_count : ℕ

-- `fromisoformat` reads a timestamp, or none where it raises.
abbrev pub future_expiry : Option ℕ → ℕ → InvitationError ⊎ (Option ℕ)
future_expiry none now = inl bad_expiry
future_expiry (some parsed) now = if leb parsed now then inl past_expiry else inr (some parsed)

unfoldable pub parse_expiry : (String → Option ℕ) → Option String → ℕ → InvitationError ⊎ (Option ℕ)
parse_expiry fromisoformat none now = inr none
parse_expiry fromisoformat (some text) now =
    if strip text == "" then inr none else future_expiry (fromisoformat (strip text)) now

abbrev pub record_action : AdminAction → Store → Store
record_action action store = record store { actions = insert action store.actions }

-- Another code is drawn after a collision; any other exception ends the draws.
abbrev pub or_draw :
    InvitationError ⊎ (InvitationRecord × Store)
    → InvitationError ⊎ (InvitationRecord × Store)
    → InvitationError ⊎ (InvitationRecord × Store)
or_draw (inl code_collision) again = again
or_draw (inl raised) again = inl raised
or_draw (inr created) again = inr created

-- `draw` gives the identifier and the code of the attempt that so many more follow.
unfoldable pub draw_code :
    (ℕ → String × String)
    → ℕ
    → Store
    → String
    → Option String
    → Option String
    → Option ℕ
    → ℕ
    → InvitationError ⊎ (InvitationRecord × Store)
unfolding create_student_invitation
draw_code draw zero store course_id created_by label expires_at now = inl no_code_left
draw_code draw (suc attempts) store course_id created_by label expires_at now =
    let again = draw_code draw attempts store course_id created_by label expires_at now in
    let (invitation_id, code) = draw attempts in
    or_draw
      (create_student_invitation store invitation_id course_id code created_by label expires_at now)
      again

abbrev pub draw_attempts : ℕ
draw_attempts = 5

unfoldable pub retire_codes : Bool → Store → String → String → ℕ → InvitationError ⊎ (ℕ × Store)
unfolding revoke_active_student_invitations
retire_codes false store course_id user_id now = inr (0, store)
retire_codes true store course_id user_id now =
    revoke_active_student_invitations store course_id (some user_id) now

abbrev pub creation_action : Actor → String → Option String → ℕ → ℕ → InvitationRecord → AdminAction
creation_action actor course_id label replaced now created = record {
  actor_user_id = actor.user_id;
  actor_role = actor.role;
  action = "invitation.create";
  target_id = created.invitation_id;
  course_id = course_id;
  label = label;
  expires_at = created.expires_at;
  replaced = some replaced;
  created_at = now;
}

abbrev pub issued :
    Actor
    → String
    → Option String
    → ℕ
    → ℕ
    → InvitationError ⊎ (InvitationRecord × Store)
    → InvitationError ⊎ (StudentInviteRecord × Store)
issued actor course_id label replaced now (inl raised) = inl raised
issued actor course_id label replaced now (inr (created, store)) = inr (
  record { invitation = created; created_by_name = some actor.display_name; participant_count = 0 },
  record_action (creation_action actor course_id label replaced now created) store,
)

abbrev pub issue :
    (ℕ → String × String)
    → Actor
    → String
    → Option String
    → Option ℕ
    → ℕ
    → InvitationError ⊎ (ℕ × Store)
    → InvitationError ⊎ (StudentInviteRecord × Store)
issue draw actor course_id label expires_at now (inl raised) = inl raised
issue draw actor course_id label expires_at now (inr (replaced, store)) =
    issued actor course_id label replaced now
      (draw_code draw draw_attempts store course_id (some actor.user_id) label expires_at now)

abbrev pub create_until :
    (ℕ → String × String)
    → Store
    → Actor
    → String
    → Option String
    → Bool
    → ℕ
    → InvitationError ⊎ (Option ℕ)
    → InvitationError ⊎ (StudentInviteRecord × Store)
create_until draw store actor course_id label replace_existing now (inl raised) = inl raised
create_until draw store actor course_id label replace_existing now (inr expires_at) =
    if not (any (is_course course_id) store.courses)
    then inl course_not_found
    else issue draw actor course_id label expires_at now
        (retire_codes replace_existing store course_id actor.user_id now)

unfoldable pub create_student_invite :
    (String → Option ℕ)
    → (ℕ → String × String)
    → Store
    → Actor
    → String
    → Option String
    → Option String
    → Bool
    → ℕ
    → InvitationError ⊎ (StudentInviteRecord × Store)
unfolding parse_expiry retire_codes draw_code
create_student_invite fromisoformat draw store actor course_id expires_at label replace_existing
      now =
    create_until draw store actor course_id label replace_existing now
      (parse_expiry fromisoformat expires_at now)

abbrev pub revocation_action : Actor → String → String → ℕ → AdminAction
revocation_action actor invitation_id course_id now = record {
  actor_user_id = actor.user_id;
  actor_role = actor.role;
  action = "invitation.revoke";
  target_id = invitation_id;
  course_id = course_id;
  label = none;
  expires_at = none;
  replaced = none;
  created_at = now;
}

-- existing["kind"] == STUDENT and existing.get("courseId") == course_id
abbrev pub is_code_of : String → Option InvitationRecord → Bool
is_code_of course_id none = false
is_code_of course_id (some existing) =
    is_student existing.kind && is_text existing.course_id course_id

abbrev pub was_revoked : Option InvitationRecord → Bool
was_revoked none = false
was_revoked (some existing) = is_revoked existing.status

-- `count_participants` counts those who joined with an invitation.
unfoldable pub revoke_student_invite :
    (String → ℕ)
    → Store
    → Actor
    → String
    → String
    → ℕ
    → InvitationError ⊎ (Option StudentInviteRecord × Store)
unfolding get_invitation revoke
revoke_student_invite count_participants store actor course_id invitation_id now =
    let existing = get_invitation store invitation_id now in
    let (revoked, changed) = revoke store invitation_id (some actor.user_id) now in
    if not (is_code_of course_id existing)
    then inl code_not_found
    else inr (
      Option.map
          (λ found. record {
            invitation = found;
            created_by_name = none;
            participant_count = count_participants found.invitation_id;
          })
          revoked,
      if was_revoked existing
          then changed
          else record_action (revocation_action actor invitation_id course_id now) changed,
    )
