-- ===== src/Invitations/Dead.antt =====
-- An invitation that was revoked, or used up, stays so, whatever happens to the table.
use css360_syllabus_bot.Prelude.{
  ℕ, ◌+◌, ◌≤◌, ◌≡◌, refl, Bool, false, not, ◌||◌, String, Option, none, some, List, [], ◌∷◌, ◌⊎◌,
  inl, inr, any, ltb, arith, eq_iff, eq_iff, ◌==◌, string_eq, if◌then◌else◌, Bool-cases,
  Option-cases,
}
use css360_syllabus_bot.Table.{insert, count}
use css360_syllabus_bot.Table.Laws.{count-insert, count-update_same}
use css360_syllabus_bot.Table.Members.{any-false-count}
use css360_syllabus_bot.Table.Both.{count-update_none}
use css360_syllabus_bot.CourseId.{is_valid_course_id}
use css360_syllabus_bot.Invitations.{
  Kind, Invitation, Store, InvitationError, has_invitation_id, is_null, is_used_up,
  create_student_invitation, code_refusal, student_row,
}
use css360_syllabus_bot.Invitations.Tokens.{create_token_invitation, token_row, token_refusal}
use css360_syllabus_bot.Invitations.Changes.{
  accept, mark_revoked, consume, consume_key, is_consumable, revoke, is_standing_code,
  revoke_active_student_invitations, update_invitations,
}

-- A change of the table; the arguments are those of the function.
pub data Change : Type 0 where
  creates_code :
      (invitation_id course_id code : String) (created_by label : Option String)
      (expires_at : Option ℕ) (now : ℕ)
      → Change
  creates_token :
      (invitation_id : String) (kind : Kind) (token_hash : String) (created_by : Option String)
      (expires_at : ℕ) (course_ids : List String) (target_user_id label : Option String) (now : ℕ)
      → Change
  consumes : (invitation_id : String) (now : ℕ) (accepted_by : Option String) → Change
  revokes : (invitation_id : String) (revoked_by : Option String) (now : ℕ) → Change
  retires : (course_id : String) (revoked_by : Option String) (now : ℕ) → Change

-- The store after the call; a transaction that raises leaves it as it was.
abbrev pub left_by {κ} : {Value : Type κ} → Store → InvitationError ⊎ (Value × Store) → Store
left_by store (inl raised) = store
left_by store (inr (value, changed)) = changed

unfoldable pub apply : Change → Store → Store
unfolding create_student_invitation create_token_invitation consume revoke
    revoke_active_student_invitations
apply (creates_code invitation_id course_id code created_by label expires_at now) store =
    left_by store
      (create_student_invitation store invitation_id course_id code created_by label expires_at now)
apply
      (creates_token invitation_id kind token_hash created_by expires_at course_ids target_user_id
        label now)
      store =
    left_by store (
      create_token_invitation store invitation_id kind token_hash created_by expires_at course_ids
        target_user_id label now)
apply (consumes invitation_id now accepted_by) store =
    (consume store invitation_id now accepted_by).1
apply (revokes invitation_id revoked_by now) store = (revoke store invitation_id revoked_by now).1
apply (retires course_id revoked_by now) store =
    left_by store (revoke_active_student_invitations store course_id revoked_by now)

unfoldable pub apply_all : List Change → Store → Store
apply_all [] store = store
apply_all (change ∷ changes) store = apply_all changes (apply change store)

-- Every change is an insertion under a new identifier or an update of one of two kinds, or none.
pub data Shape (before : Store) : Store → Type 0 where
  unchanged : Shape before before
  inserts :
      (row : Invitation) (after : Store)
      → any (has_invitation_id row.invitation_id) before.invitations ≡ false
      → row.use_count ≡ 0
      → after.invitations ≡ insert row before.invitations
      → Shape before after
  updates :
      (key : Invitation → Bool) (now : ℕ) (by : Option String)
      → Shape before (update_invitations key (mark_revoked now by) before)
  accepts :
      (id : String) (now : ℕ) (by : Option String)
      → Shape before (update_invitations (consume_key id now) (accept now by) before)

code_refusal-fresh :
    (store : Store) (invitation_id course_id code : String)
    → code_refusal store invitation_id course_id code ≡ none
    → any (has_invitation_id invitation_id) store.invitations ≡ false
unfolding code_refusal
code_refusal-fresh store invitation_id course_id code h = ground arith

token_refusal-fresh :
    (store : Store) (invitation_id : String) (kind : Kind) (token_hash : String)
    (course_ids : List String) (target_user_id : Option String)
    → token_refusal store invitation_id kind token_hash course_ids target_user_id ≡ none
    → any (has_invitation_id invitation_id) store.invitations ≡ false
unfolding token_refusal
token_refusal-fresh store invitation_id kind token_hash course_ids target_user_id h = ground arith

pub apply-Shape : (change : Change) (store : Store) → Shape store (apply change store)
unfolding apply create_student_invitation create_token_invitation consume revoke
    revoke_active_student_invitations
apply-Shape (creates_code invitation_id course_id code created_by label expires_at now) store =
    elim (Option-cases (code_refusal store invitation_id course_id code)) [
      | inl fine ↦ rw fine (
          inserts (student_row invitation_id course_id code created_by label expires_at now) _
            (code_refusal-fresh store invitation_id course_id code fine) refl refl)
      | inr (raised, e) ↦ rw e unchanged
    ]
apply-Shape
      (creates_token invitation_id kind token_hash created_by expires_at course_ids target_user_id
        label now)
      store =
    elim (Option-cases
      (token_refusal store invitation_id kind token_hash course_ids target_user_id)) [
        | inl fine ↦ rw fine (
            inserts
              (token_row invitation_id kind token_hash created_by expires_at target_user_id label
                now)
              _
              (token_refusal-fresh store invitation_id kind token_hash course_ids target_user_id
                fine)
              refl refl)
        | inr (raised, e) ↦ rw e unchanged
      ]
apply-Shape (consumes invitation_id now accepted_by) store = accepts invitation_id now accepted_by
apply-Shape (revokes invitation_id revoked_by now) store = updates _ now revoked_by
apply-Shape (retires course_id revoked_by now) store =
    elim (Bool-cases (is_valid_course_id course_id)) [
      | inl valid ↦ rw valid (updates (is_standing_code course_id) now revoked_by)
      | inr invalid ↦ rw invalid unchanged
    ]

-- Revoked, or used as often as allowed.
abbrev pub is_over : Invitation → Bool
is_over row = not (is_null row.revoked_at) || is_used_up row.max_uses row.use_count

abbrev pub is_over_use : Invitation → Bool
is_over_use row = elim row.max_uses [ none ↦ false | some max_uses ↦ ltb max_uses row.use_count ]

-- The identifiers are unique, and no row was used more often than allowed.
pub record IsKept (store : Store) : Type 0 where
  pub unique : (id : String) → count (has_invitation_id id) store.invitations ≤ 1
  pub within : count is_over_use store.invitations ≡ 0

over_use_new : (row : Invitation) → row.use_count ≡ 0 → is_over_use row ≡ false
over_use_new row h = ground arith

fresh_unique :
    (row : Invitation) (id : String) (store : Store)
    → ((id : String) → count (has_invitation_id id) store.invitations ≤ 1)
    → any (has_invitation_id row.invitation_id) store.invitations ≡ false
    → count (has_invitation_id id) store.invitations + (if row.invitation_id == id then 1 else 0)
      ≤ 1
fresh_unique row id store unique fresh = elim (Bool-cases (row.invitation_id == id)) [
  | inl same ↦
      let e : row.invitation_id ≡ id = (eq_iff row.invitation_id id).0 same in
      let absent = any-false-count (has_invitation_id id) store.invitations (rw (← e) fresh) in
      rw (same, absent) (omega arith)
  | inr other ↦ rw other (ground (arith, unique id))
]

pub Shape-IsKept : (store after : Store) → Shape store after → IsKept store → IsKept after
unfolding is_consumable
Shape-IsKept store _ unchanged k = k
Shape-IsKept store _ (inserts row after fresh new e) k = record {
  unique = λ id.
      rw (e, count-insert (has_invitation_id id) row store.invitations)
        (fresh_unique row id store k.unique fresh);
  within =
      rw (e, count-insert is_over_use row store.invitations, k.within, over_use_new row new) refl;
}
Shape-IsKept store _ (updates key now by) k = record {
  unique = λ id.
      rw
        (count-update_same (has_invitation_id id) key (mark_revoked now by) store.invitations
          (λ row. refl))
        (k.unique id);
  within =
      rw (count-update_same is_over_use key (mark_revoked now by) store.invitations (λ row. refl))
        k.within;
}
Shape-IsKept store _ (accepts id now by) k = record {
  unique = λ other.
      rw
        (count-update_same (has_invitation_id other) (consume_key id now) (accept now by)
          store.invitations (λ row. refl))
        (k.unique other);
  within =
      count-update_none is_over_use (consume_key id now) (accept now by) store.invitations
        (λ row consumed fine. ground arith) k.within;
}
