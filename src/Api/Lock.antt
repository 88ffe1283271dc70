-- ===== src/Api/Lock.antt =====
-- While a transaction for an address is in progress in a room, the services refuse what concerns the
-- member with that address.
use mathlib.Core.Path.{subst}
use nestjs_ex.Entities.{MemberInRoom}
use nestjs_ex.Member.{find_invited_member_by_user_id}
use nestjs_ex.Member.Approve.{approve_member}
use nestjs_ex.Member.Capacity.{refuse_existing-state}
use nestjs_ex.Member.Invite.{add_member_list_to_room, check_can_add}
use nestjs_ex.Member.Remove.{cancel_invite_member, remove_member_from_room, update_member_status}
use nestjs_ex.Prelude.{
  Bool, List, Option, String, arith, false, not, some, some-inj, sym, true, ℕ, ◌∙◌, ◌≡◌,
}
use nestjs_ex.Room.Membership.{join_room, reject_invitation}
use nestjs_ex.RoomNotificationTx.{check_processing_addresses, check_processing_one_address}
use nestjs_ex.World.{World}
use nestjs_ex.World.Refusal.{
  Refuses, Refuses-after, Refuses-bind, Refuses-gets-bind, Refuses-guard, Refuses-guard-bind,
  Refuses-need-bind,
}

not-true : (b : Bool) → b ≡ true → not b ≡ false
not-true b h = ground arith

pub not_both : (b : Bool) → b ≡ true → not b ≡ true → ⊥
not_both b h k = cc (not-true b h, k)

-- The row that was read is the one whose address is in progress.
busy :
    (r : ℕ) (w : World) (o : Option MemberInRoom) (m x : MemberInRoom)
    → o ≡ some m
    → o ≡ some x
    → check_processing_one_address r m.wallet_address w ≡ true
    → not (check_processing_one_address r x.wallet_address w) ≡ true
    → ⊥
busy r w o m x em ex lock free = not_both _ lock (
    subst (λ z. not (check_processing_one_address r z.wallet_address w) ≡ true)
      (some-inj (sym ex ∙ em)) free)

-- While the address of an invited user is in progress in a room, accepting, rejecting and taking back the
-- invitation all throw and write nothing.
pub locked_invitation :
    (user_id room_id : ℕ) (w : World) (m : MemberInRoom)
    → find_invited_member_by_user_id user_id room_id w ≡ some m
    → check_processing_one_address room_id m.wallet_address w ≡ true
    → Refuses w (join_room user_id room_id)
      × Refuses w (reject_invitation user_id room_id)
      × ((owner_id : ℕ) → Refuses w (cancel_invite_member owner_id user_id room_id))
unfolding join_room reject_invitation cancel_invite_member update_member_status
    find_invited_member_by_user_id
locked_invitation user_id room_id w m em lock = (
  Refuses-gets-bind _ _ (
      Refuses-need-bind _ _ _ λ x ex.
        Refuses-gets-bind _ _
          (Refuses-guard-bind _ _ _ λ free. absurd (busy room_id w _ m x em ex lock free))),
  Refuses-gets-bind _ _ (
      Refuses-need-bind _ _ _ λ x ex.
        Refuses-gets-bind _ _
          (Refuses-guard-bind _ _ _ λ free. absurd (busy room_id w _ m x em ex lock free))),
  λ owner_id. Refuses-bind _ _ (
      Refuses-gets-bind _ _ (
        Refuses-guard-bind _ _ _ λ allowed. Refuses-gets-bind _ _ (
          Refuses-need-bind _ _ _ λ x ex.
            Refuses-gets-bind _ _
              (Refuses-guard-bind _ _ _ λ free. absurd (busy room_id w _ m x em ex lock free))))),
)

-- While one of the addresses of a request is in progress in the room, inviting, removing and approving
-- them all throw and write nothing, whoever asks.
pub locked_addresses :
    (user_id room_id : ℕ) (addresses : List String) (w : World)
    → check_processing_addresses room_id addresses w ≡ true
    → Refuses w
        (add_member_list_to_room user_id (record { addresses = addresses; room_id = room_id }))
      × Refuses w
          (remove_member_from_room user_id (record { addresses = addresses; room_id = room_id }))
      × Refuses w (approve_member user_id (record { addresses = addresses; room_id = room_id }))
unfolding add_member_list_to_room check_can_add remove_member_from_room approve_member
locked_addresses user_id room_id addresses w lock = (
  Refuses-bind _ _ (
      Refuses-guard-bind _ _ _ λ a. Refuses-gets-bind _ _ (
        Refuses-guard-bind _ _ _ λ b. Refuses-gets-bind _ _ (
          Refuses-need-bind _ _ _ λ owner e. Refuses-guard-bind _ _ _ λ c. Refuses-gets-bind _ _ (
            Refuses-after _ _ (refuse_existing-state _ w)
              λ _. Refuses-gets-bind _ _ (Refuses-guard _ _ (not-true _ lock)))))),
  Refuses-guard-bind _ _ _ λ a. Refuses-gets-bind _ _ (
      Refuses-guard-bind _ _ _ λ b. Refuses-gets-bind _ _ (
        Refuses-gets-bind _ _ (
          Refuses-gets-bind _ _ (Refuses-guard-bind _ _ _ λ free. absurd (not_both _ lock free))))),
  Refuses-gets-bind _ _ (
      Refuses-need-bind _ _ _ λ sender e. Refuses-guard-bind _ _ _ λ a.
        Refuses-gets-bind _ _
          (Refuses-gets-bind _ _ (Refuses-guard-bind _ _ _ λ free. absurd (not_both _ lock free)))),
)
