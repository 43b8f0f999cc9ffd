-- ===== src/Invitations/Once.antt =====
-- An invitation that is revoked or used up is never redeemed again.
use css360_syllabus_bot.Prelude.{
  ℕ, ◌≤◌, ◌≡◌, refl, sym, ap, ◌∙◌, Bool, true, false, ◌&&◌, String, Option, none, some, List, [],
  ◌∷◌, arith, string_eq, if◌then◌else◌,
}
use css360_syllabus_bot.Table.{find, count}
use css360_syllabus_bot.Table.Laws.{find-insert_old, find-update, find_passes}
use css360_syllabus_bot.Invitations.{
  Invitation, Store, InvitationRecord, has_invitation_id, is_null, is_redeemable, status_of,
}
use css360_syllabus_bot.Invitations.Changes.{
  accept, mark_revoked, consume, consume_key, is_consumable, revoke, update_invitations,
}
use css360_syllabus_bot.Invitations.Dead.{
  Change, apply, apply_all, Shape, unchanged, inserts, updates, accepts, apply-Shape, IsKept,
  Shape-IsKept, is_over,
}
use css360_syllabus_bot.Invitations.Redemption.{
  apply_all-IsKept, redemption_exact, redeemed, consumable_active,
}

-- The invitation is there and over.
abbrev pub IsOverAt : String → Store → Type 0
IsOverAt id store =
    (row : Invitation) × (find (has_invitation_id id) store.invitations ≡ some row)
    × (is_over row ≡ true)

over_unredeemable :
    (row : Invitation) (now : ℕ) → is_over row ≡ true → is_redeemable row now ≡ false
unfolding is_redeemable status_of
over_unredeemable row now h = ground arith

update-IsOverAt :
    (store : Store) (id : String) (key : Invitation → Bool) (change : Invitation → Invitation)
    → ((row : Invitation) → has_invitation_id id (change row) ≡ has_invitation_id id row)
    → ((row : Invitation) → is_over row ≡ true → is_over (change row) ≡ true)
    → IsOverAt id store
    → IsOverAt id (update_invitations key change store)
update-IsOverAt store id key change same keeps (row, e, over) = (
  (if key row then change row else row),
  find-update (has_invitation_id id) key change store.invitations same ∙ rw e refl,
  ground (arith, keeps row over),
)

Shape-IsOverAt :
    (id : String) (store after : Store) → Shape store after → IsOverAt id store → IsOverAt id after
Shape-IsOverAt id store _ unchanged o = o
Shape-IsOverAt id store after (inserts row _ fresh new e) (old, found, over) =
    (old, rw e (find-insert_old (has_invitation_id id) row store.invitations old found), over)
Shape-IsOverAt id store _ (updates key now by) o =
    update-IsOverAt store id key (mark_revoked now by) (λ row. refl) (λ row over. refl) o
Shape-IsOverAt id store _ (accepts other now by) o =
    update-IsOverAt store id (consume_key other now) (accept now by) (λ row. refl)
      (λ row over. ground arith) o

over_stays :
    (id : String) (changes : List Change) (store : Store)
    → IsOverAt id store
    → IsOverAt id (apply_all changes store)
unfolding apply_all
over_stays id [] store o = o
over_stays id (change ∷ changes) store o =
    over_stays id changes (apply change store)
      (Shape-IsOverAt id store (apply change store) (apply-Shape change store) o)

over_refused :
    (store : Store) (id : String) (changes : List Change) (now : ℕ) (accepted_by : Option String)
    → IsKept store
    → IsOverAt id store
    → (consume (apply_all changes store) id now accepted_by).0 ≡ none
over_refused store id changes now accepted_by k o =
    let (row, e, over) = over_stays id changes store o in
    let kept = apply_all-IsKept changes store k in
    redemption_exact (apply_all changes store) id now accepted_by (kept.unique id)
    ∙ rw (e, over_unredeemable row now over) refl

redeemed-IsOverAt :
    (store : Store) (row : Invitation) (now : ℕ) (accepted_by : Option String)
    (returned : InvitationRecord)
    → count (has_invitation_id row.invitation_id) store.invitations ≤ 1
    → find (has_invitation_id row.invitation_id) store.invitations ≡ some row
    → row.max_uses ≡ some 1
    → (consume store row.invitation_id now accepted_by).0 ≡ some returned
    → IsOverAt row.invitation_id (consume store row.invitation_id now accepted_by).1
unfolding consume
redeemed-IsOverAt store row now accepted_by returned unique e single done =
    let exact = redemption_exact store row.invitation_id now accepted_by unique in
    let found : redeemed now accepted_by (some row) ≡ some returned =
      ap (redeemed now accepted_by) (sym e) ∙ sym exact ∙ done in
    let active : is_redeemable row now ≡ true = ground arith in
    let consumable : is_consumable now row ≡ true = consumable_active row now ∙ active in
    let own = find_passes (has_invitation_id row.invitation_id) store.invitations row e in
    (
      accept now accepted_by row,
      find-update (has_invitation_id row.invitation_id) (consume_key row.invitation_id now)
            (accept now accepted_by) store.invitations (λ other. refl)
          ∙ rw (e, own, consumable) refl,
      ground (arith, single),
    )

revoked-IsOverAt :
    (store : Store) (row : Invitation) (now : ℕ) (revoked_by : Option String)
    → find (has_invitation_id row.invitation_id) store.invitations ≡ some row
    → IsOverAt row.invitation_id (revoke store row.invitation_id revoked_by now).1
unfolding revoke
revoked-IsOverAt store row now revoked_by e =
    let own = find_passes (has_invitation_id row.invitation_id) store.invitations row e in
    let key : Invitation → Bool =
      λ other. has_invitation_id row.invitation_id other && is_null other.revoked_at in
    (
      (if key row then mark_revoked now revoked_by row else row),
      find-update (has_invitation_id row.invitation_id) key (mark_revoked now revoked_by)
            store.invitations (λ other. refl)
          ∙ rw e refl,
      ground (arith, own),
    )

-- Where the identifiers are unique and no invitation was used beyond its limit: an invitation with
-- one use that was redeemed is never redeemed again, whatever is created, redeemed, revoked and
-- replaced in between and at whatever times.
pub redeemed_once :
    (store : Store) (row : Invitation) (now later : ℕ) (accepted_by other : Option String)
    (returned : InvitationRecord) (changes : List Change)
    → IsKept store
    → find (has_invitation_id row.invitation_id) store.invitations ≡ some row
    → row.max_uses ≡ some 1
    → (consume store row.invitation_id now accepted_by).0 ≡ some returned
    → (consume
        (apply_all changes (consume store row.invitation_id now accepted_by).1)
        row.invitation_id
        later
        other).0
      ≡ none
unfolding consume
redeemed_once store row now later accepted_by other returned changes k e single done =
    over_refused (consume store row.invitation_id now accepted_by).1 row.invitation_id changes later
      other (Shape-IsKept store _ (accepts row.invitation_id now accepted_by) k)
      (redeemed-IsOverAt store row now accepted_by returned (k.unique row.invitation_id) e single
        done)

-- Where the identifiers are unique and no invitation was used beyond its limit: an invitation that
-- was revoked is never redeemed afterwards, whatever else happens and at whatever times.
pub revoked_final :
    (store : Store) (row : Invitation) (now later : ℕ) (revoked_by other : Option String)
    (changes : List Change)
    → IsKept store
    → find (has_invitation_id row.invitation_id) store.invitations ≡ some row
    → (consume
        (apply_all changes (revoke store row.invitation_id revoked_by now).1)
        row.invitation_id
        later
        other).0
      ≡ none
unfolding revoke
revoked_final store row now later revoked_by other changes k e =
    over_refused (revoke store row.invitation_id revoked_by now).1 row.invitation_id changes later
      other (Shape-IsKept store _ (updates _ now revoked_by) k)
      (revoked-IsOverAt store row now revoked_by e)
