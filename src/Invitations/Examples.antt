-- ===== src/Invitations/Examples.antt =====
-- The theorems on invitations at one course with one invitation.
use css360_syllabus_bot.Prelude.{
  ◌≤◌, ◌≡◌, refl, Bool, true, false, none, some, List, [], ◌∷◌, ◌⊎◌, inl, inr, arith,
}
use css360_syllabus_bot.Table.{find, update, insert, count}
use css360_syllabus_bot.CourseId.{is_valid_course_id, is_valid_codes, matches_pattern}
use css360_syllabus_bot.Training.Run.{optional_string}
use css360_syllabus_bot.Invitations.{
  Kind, Invitation, Course, Store, InvitationError, map_invitation, create_student_invitation,
  code_refusal, has_invitation_id,
}
use css360_syllabus_bot.Invitations.Tokens.{
  token_row, create_token_invitation, token_refusal, insert_grants,
}
use css360_syllabus_bot.Invitations.Changes.{
  accept, consume, is_consumable, revoke, revoke_active_student_invitations,
  count_active_student_invitations,
}
use css360_syllabus_bot.Invitations.Routes.{
  Actor, StudentInviteRecord, create_student_invite, parse_expiry, retire_codes, draw_code,
}
use css360_syllabus_bot.Invitations.Dead.{Change, creates_token, consumes, apply, apply_all, IsKept}
use css360_syllabus_bot.Invitations.Redemption.{
  no_invitations, uses_within_limit, redemption_exact, redeemed,
}
use css360_syllabus_bot.Invitations.Once.{redeemed_once, revoked_final}
use css360_syllabus_bot.Invitations.Replacement.{replaced_alone}

abbrev courses : List Course
courses = record { course_id = "css360"; name = "Ethics" } ∷ []

abbrev token : Invitation
token = token_row "i1" Kind.professor "h1" none 100 none none 1

abbrev one_token : Store
one_token = record (no_invitations courses) { invitations = token ∷ [] }

abbrev used_token : Invitation
used_token = accept 5 (some "u1") token

abbrev changes : List Change
changes =
    creates_token "i1" Kind.professor "h1" none 100 [] none none 1
    ∷ consumes "i1" 5 (some "u1")
    ∷ consumes "i1" 6 (some "u2")
    ∷ []

one_token-IsKept : IsKept one_token
unfolding count
one_token-IsKept = record { unique = λ id. ground arith; within = refl }

uses_within_limit_example : used_token.use_count ≤ 1
unfolding apply_all apply create_token_invitation token_refusal insert_grants consume is_consumable
    find update insert map_invitation optional_string
uses_within_limit_example = uses_within_limit courses changes used_token 1 (inl refl) refl

redemption_exact_example :
    (consume one_token "i1" 5 (some "u1")).0
    ≡ redeemed 5 (some "u1") (find (has_invitation_id "i1") one_token.invitations)
redemption_exact_example =
    redemption_exact one_token "i1" 5 (some "u1") (one_token-IsKept.unique "i1")

accepted : (consume one_token "i1" 5 (some "u1")).0 ≡ some (map_invitation used_token 5)
unfolding consume is_consumable find map_invitation
accepted = refl

found : find (has_invitation_id token.invitation_id) one_token.invitations ≡ some token
unfolding find
found = refl

redeemed_once_example :
    (consume (apply_all changes (consume one_token "i1" 5 (some "u1")).1) "i1" 7 (some "u2")).0
    ≡ none
redeemed_once_example =
    redeemed_once one_token token 5 7 (some "u1") (some "u2") (map_invitation used_token 5) changes
      one_token-IsKept found refl accepted

revoked_final_example :
    (consume (apply_all changes (revoke one_token "i1" (some "a1") 3).1) "i1" 7 (some "u2")).0
    ≡ none
revoked_final_example =
    revoked_final one_token token 3 7 (some "a1") (some "u2") changes one_token-IsKept found

abbrev professor : Actor
professor = record { user_id = "p1"; role = "professor"; display_name = "Ada" }

abbrev created : InvitationError ⊎ (StudentInviteRecord × Store)
created =
    create_student_invite (λ text. none) (λ n. ("i2", "7K4P9X")) one_token professor "css360" none
      (some "Fall") true 9

abbrev is_inr : {A B : Type 0} → A ⊎ B → Bool
is_inr (inl a) = false
is_inr (inr b) = true

inr_value : {A B : Type 0} (m : A ⊎ B) → is_inr m ≡ true → (b : B) × (m ≡ inr b)
inr_value (inl a) h = absurd (ground arith)
inr_value (inr b) h = (b, refl)

creation_returns : is_inr created ≡ true
unfolding create_student_invite parse_expiry retire_codes draw_code
    revoke_active_student_invitations create_student_invitation code_refusal is_valid_course_id
    is_valid_codes matches_pattern update
creation_returns = refl

replaced_alone_example :
    count_active_student_invitations (inr_value created creation_returns).0.1 "css360" 9 ≡ inr 1
replaced_alone_example =
    replaced_alone (λ text. none) (λ n. ("i2", "7K4P9X")) one_token
      (inr_value created creation_returns).0.1 professor "css360" none (some "Fall") 9
      (inr_value created creation_returns).0.0 (inr_value created creation_returns).1
