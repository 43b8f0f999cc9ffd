-- ===== src/Invitations/Redemption.antt =====
-- What an invitation admits to: who redeems it, how often, and never again.
use mathlib.Core.Option
use css360_syllabus_bot.Prelude.{
  ℕ, ◌≤◌, ◌≡◌, refl, false, String, Option, none, some, List, [], ◌∷◌, inl, inr, ltb, arith,
  string_eq, if◌then◌else◌, Bool-cases, Option-cases,
}
use css360_syllabus_bot.Table.{find, count}
use css360_syllabus_bot.Table.Members.{Elem, count-Elem}
use css360_syllabus_bot.Table.Both.{find-both}
use css360_syllabus_bot.Invitations.{
  Invitation, Course, Store, InvitationRecord, has_invitation_id, is_redeemable, map_invitation,
  status_of,
}
use css360_syllabus_bot.Invitations.Changes.{accept, consume, is_consumable}
use css360_syllabus_bot.Invitations.Dead.{
  Change, apply, apply_all, apply-Shape, IsKept, Shape-IsKept, is_over_use,
}

pub apply_all-IsKept :
    (changes : List Change) (store : Store) → IsKept store → IsKept (apply_all changes store)
unfolding apply_all
apply_all-IsKept [] store k = k
apply_all-IsKept (change ∷ changes) store k =
    apply_all-IsKept changes (apply change store)
      (Shape-IsKept store (apply change store) (apply-Shape change store) k)

-- The tables of a repository without invitations.
abbrev pub no_invitations : List Course → Store
no_invitations courses = record { courses = courses; invitations = []; grants = []; actions = [] }

empty-IsKept : (courses : List Course) → IsKept (no_invitations courses)
unfolding count
empty-IsKept courses = record { unique = λ id. omega arith; within = refl }

-- From tables without invitations, whatever is created, redeemed, revoked and replaced at whatever
-- times: no invitation with a limit is used more often than the limit.
pub uses_within_limit :
    (courses : List Course) (changes : List Change) (row : Invitation) (max_uses : ℕ)
    → Elem row (apply_all changes (no_invitations courses)).invitations
    → row.max_uses ≡ some max_uses
    → row.use_count ≤ max_uses
uses_within_limit courses changes row max_uses member limited =
    let store = apply_all changes (no_invitations courses) in
    let k = apply_all-IsKept changes (no_invitations courses) (empty-IsKept courses) in
    elim (Bool-cases (is_over_use row)) [
      | inl over ↦
          absurd
            (ground (arith, k.within, count-Elem is_over_use store.invitations row member over))
      | inr fine ↦
          let below : ltb max_uses row.use_count ≡ false = (rw limited at fine) in ground arith
    ]

pub consumable_active : (row : Invitation) (now : ℕ) → is_consumable now row ≡ is_redeemable row now
unfolding is_consumable is_redeemable status_of
consumable_active row now = ground arith

-- The record that a redemption of the row returns, if its status is active.
abbrev pub redeemed : ℕ → Option String → Option Invitation → Option InvitationRecord
redeemed now accepted_by none = none
redeemed now accepted_by (some row) =
    if is_redeemable row now then some (map_invitation (accept now accepted_by row) now) else none

lift_if :
    (now : ℕ) (accepted_by : Option String) (row : Invitation)
    → Option.map
        (λ row. map_invitation (accept now accepted_by row) now)
        (if is_consumable now row then some row else none)
      ≡ (if is_consumable now row
          then some (map_invitation (accept now accepted_by row) now)
          else none)
lift_if now accepted_by row = elim (Bool-cases (is_consumable now row)) [
  | inl h ↦ rw h refl
  | inr h ↦ rw h refl
]

-- Where the identifier is unique: a redemption returns the updated record of the invitation if its
-- status at that time is active, and nothing if it has another status or does not exist.
pub redemption_exact :
    (store : Store) (id : String) (now : ℕ) (accepted_by : Option String)
    → count (has_invitation_id id) store.invitations ≤ 1
    → (consume store id now accepted_by).0
      ≡ redeemed now accepted_by (find (has_invitation_id id) store.invitations)
unfolding consume
redemption_exact store id now accepted_by unique =
    rw (find-both (has_invitation_id id) (is_consumable now) store.invitations unique)
      (elim (Option-cases (find (has_invitation_id id) store.invitations)) [
        | inl absent ↦ rw absent refl
        | inr (row, e) ↦ rw (e, ← consumable_active row now) (lift_if now accepted_by row)
      ])
