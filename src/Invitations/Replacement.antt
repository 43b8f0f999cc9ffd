-- ===== src/Invitations/Replacement.antt =====
-- A classroom code that replaces the others is the only one of its course that admits.
use css360_syllabus_bot.Prelude.{
  ℕ, zero, suc, ◌≡◌, ap, sym, refl, true, ◌&&◌, String, Option, none, some, List, [], ◌⊎◌, inl, inr,
  any, arith, string_eq, eq_iff, Bool-cases, Option-cases,
}
use css360_syllabus_bot.Table.{insert, count}
use css360_syllabus_bot.Table.Laws.{count-insert}
use css360_syllabus_bot.Table.Both.{count-both, count-update_cleared}
use css360_syllabus_bot.CourseId.{is_valid_course_id}
use css360_syllabus_bot.Invitations.{
  Invitation, Store, InvitationError, course_not_found, InvitationRecord, is_course, student_row,
  code_refusal, insert_invitation, create_student_invitation, map_invitation,
}
use css360_syllabus_bot.Invitations.Changes.{
  update_invitations, is_unexpired, is_standing_code, mark_revoked,
  count_active_student_invitations, revoke_active_student_invitations,
}
use css360_syllabus_bot.Invitations.Routes.{
  Actor, StudentInviteRecord, parse_expiry, or_draw, draw_code, retire_codes, issued, issue,
  create_until, create_student_invite, draw_attempts,
}

collided :
    (raised : InvitationError) (again : InvitationError ⊎ (InvitationRecord × Store))
    (out : InvitationRecord × Store)
    → or_draw (inl raised) again ≡ inr out
    → again ≡ inr out
collided raised again out h = ground arith

expiry_future :
    (fromisoformat : String → Option ℕ) (text : Option String) (now : ℕ) (expires_at : Option ℕ)
    → parse_expiry fromisoformat text now ≡ inr expires_at
    → is_unexpired expires_at now ≡ true
unfolding parse_expiry
expiry_future fromisoformat none now expires_at h = ground arith
expiry_future fromisoformat (some text) now expires_at h = ground arith

-- A draw that succeeds inserts one fresh code of the course.
drawn_code :
    (draw : ℕ → String × String) (attempts : ℕ) (store : Store) (course_id : String)
    (created_by label : Option String) (expires_at : Option ℕ) (now : ℕ)
    (out : InvitationRecord × Store)
    → draw_code draw attempts store course_id created_by label expires_at now ≡ inr out
    → (invitation_id : String) × (code : String) × (out.1.invitations
        ≡ insert
            (student_row invitation_id course_id code created_by label expires_at now)
            store.invitations)
unfolding draw_code create_student_invitation
drawn_code draw zero store course_id created_by label expires_at now out h = absurd (cc)
drawn_code draw (suc attempts) store course_id created_by label expires_at now out h =
    let invitation_id : String = (draw attempts).0 in
    let code : String = (draw attempts).1 in
    let created : InvitationRecord × Store = (
      map_invitation (student_row invitation_id course_id code created_by label expires_at now) now,
      insert_invitation (student_row invitation_id course_id code created_by label expires_at now)
          store,
    ) in
    elim (Option-cases (code_refusal store invitation_id course_id code)) [
      | inl fine ↦
          let same : inr created ≡ inr out = (rw fine at h) in
          let whole : created ≡ out = cc in
          (invitation_id, code, sym (ap (λ v. v.1.invitations) whole))
      | inr (raised, e) ↦
          let again : draw_code draw attempts store course_id created_by label expires_at now
              ≡ inr out =
            collided raised
              (draw_code draw attempts store course_id created_by label expires_at now) out
              (rw e at h) in
          drawn_code draw attempts store course_id created_by label expires_at now out again
    ]

-- No code of the course stands once they are retired.
retired_all :
    (store : Store) (course_id user_id : String) (now replaced : ℕ) (after : Store)
    → retire_codes true store course_id user_id now ≡ inr (replaced, after)
    → (is_valid_course_id course_id ≡ true)
      × (count (is_standing_code course_id) after.invitations ≡ 0)
unfolding retire_codes revoke_active_student_invitations
retired_all store course_id user_id now replaced after h =
    let cleared : Store =
      update_invitations (is_standing_code course_id) (mark_revoked now (some user_id)) store in
    elim (Bool-cases (is_valid_course_id course_id)) [
      | inl valid ↦
          let same : ◌≡◌ {A = InvitationError ⊎ (ℕ × Store)}
              (inr (count (is_standing_code course_id) store.invitations, cleared))
              (inr (replaced, after)) =
            (rw valid at h) in
          let e : cleared ≡ after = cc in
          let none_left =
            count-update_cleared (is_standing_code course_id) (mark_revoked now (some user_id))
              store.invitations (λ row. ground arith) in
          (valid, rw (← e) none_left)
      | inr invalid ↦ absurd (ground arith)
    ]

count_one :
    (row : Invitation) (invitations : List Invitation) (course_id : String) (now : ℕ)
    → count (is_standing_code course_id) invitations ≡ 0
    → (is_standing_code course_id row && is_unexpired row.expires_at now) ≡ true
    → count
        (λ r. is_standing_code course_id r && is_unexpired r.expires_at now)
        (insert row invitations)
      ≡ 1
count_one row invitations course_id now none_before stands =
    rw
      (
        count-insert (λ r. is_standing_code course_id r && is_unexpired r.expires_at now) row
            invitations,
        count-both (is_standing_code course_id) (λ r. is_unexpired r.expires_at now) invitations
            none_before,
        stands,
      )
      refl

stands_fresh :
    (invitation_id course_id code : String) (created_by label : Option String)
    (expires_at : Option ℕ) (now : ℕ)
    → is_unexpired expires_at now ≡ true
    → let row = student_row invitation_id course_id code created_by label expires_at now in
      (is_standing_code course_id row && is_unexpired row.expires_at now) ≡ true
stands_fresh invitation_id course_id code created_by label expires_at now future =
    rw ((eq_iff course_id course_id).1 refl, future) refl

abbrev invitations_of : InvitationError ⊎ (StudentInviteRecord × Store) → List Invitation
invitations_of (inl raised) = []
invitations_of (inr (returned, store)) = store.invitations

-- What the audit row adds leaves the invitations as they are.
issued_invitations :
    (actor : Actor) (course_id : String) (label : Option String) (replaced now : ℕ)
    (drawn : InvitationError ⊎ (InvitationRecord × Store)) (returned : StudentInviteRecord)
    (after : Store)
    → issued actor course_id label replaced now drawn ≡ inr (returned, after)
    → (out : InvitationRecord × Store) × (drawn ≡ inr out) × (after.invitations ≡ out.1.invitations)
issued_invitations actor course_id label replaced now (inl raised) returned after h = absurd (cc)
issued_invitations actor course_id label replaced now (inr (created, store)) returned after h =
    ((created, store), refl, sym (ap invitations_of h))

issue_one :
    (draw : ℕ → String × String) (actor : Actor) (course_id : String) (label : Option String)
    (expires_at : Option ℕ) (now : ℕ) (retired : InvitationError ⊎ (ℕ × Store))
    (returned : StudentInviteRecord) (after : Store)
    → ((replaced : ℕ) (kept : Store)
        → retired ≡ inr (replaced, kept)
        → (is_valid_course_id course_id ≡ true)
          × (count (is_standing_code course_id) kept.invitations ≡ 0))
    → is_unexpired expires_at now ≡ true
    → issue draw actor course_id label expires_at now retired ≡ inr (returned, after)
    → count_active_student_invitations after course_id now ≡ inr 1
unfolding count_active_student_invitations
issue_one draw actor course_id label expires_at now (inl raised) returned after cleared future h =
    absurd (cc)
issue_one draw actor course_id label expires_at now (inr (replaced, kept)) returned after cleared
      future h =
    let (valid, none_left) = cleared replaced kept refl in
    let (out, drawn, same) =
      issued_invitations actor course_id label replaced now
        (draw_code draw draw_attempts kept course_id (some actor.user_id) label expires_at now)
        returned after h in
    let (invitation_id, code, inserted) =
      drawn_code draw draw_attempts kept course_id (some actor.user_id) label expires_at now out
        drawn in
    let row = student_row invitation_id course_id code (some actor.user_id) label expires_at now in
    rw
      (
        valid,
        same,
        inserted,
        count_one row kept.invitations course_id now none_left (
            stands_fresh invitation_id course_id code (some actor.user_id) label expires_at now
              future),
      )
      refl

create_one :
    (draw : ℕ → String × String) (store : Store) (actor : Actor) (course_id : String)
    (label : Option String) (now : ℕ) (parsed : InvitationError ⊎ (Option ℕ))
    (returned : StudentInviteRecord) (after : Store)
    → ((expires_at : Option ℕ) → parsed ≡ inr expires_at → is_unexpired expires_at now ≡ true)
    → create_until draw store actor course_id label true now parsed ≡ inr (returned, after)
    → count_active_student_invitations after course_id now ≡ inr 1
create_one draw store actor course_id label now (inl raised) returned after future h = absurd (cc)
create_one draw store actor course_id label now (inr expires_at) returned after future h =
    elim (Bool-cases (any (is_course course_id) store.courses)) [
      | inl known ↦
          issue_one draw actor course_id label expires_at now
            (retire_codes true store course_id actor.user_id now) returned after
            (retired_all store course_id actor.user_id now) (future expires_at refl) (rw known at h)
      | inr unknown ↦
          absurd
            (let raised : inl course_not_found ≡ inr (returned, after) = (rw unknown at h) in cc)
    ]

-- Where an administrator or a professor creates a classroom code that replaces the others, and the
-- route returns: of all the codes of the course, exactly one admits at that time.
pub replaced_alone :
    (fromisoformat : String → Option ℕ) (draw : ℕ → String × String) (store after : Store)
    (actor : Actor) (course_id : String) (expires_at label : Option String) (now : ℕ)
    (returned : StudentInviteRecord)
    → create_student_invite fromisoformat draw store actor course_id expires_at label true now
      ≡ inr (returned, after)
    → count_active_student_invitations after course_id now ≡ inr 1
unfolding create_student_invite count_active_student_invitations
replaced_alone fromisoformat draw store after actor course_id expires_at label now returned h =
    create_one draw store actor course_id label now (parse_expiry fromisoformat expires_at now)
      returned after (expiry_future fromisoformat expires_at now) h
