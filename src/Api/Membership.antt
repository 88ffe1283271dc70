-- ===== src/Api/Membership.antt =====
-- Each service that writes the table `member_in_room` keeps its keys and moves its rows as
-- `Member.Lifecycle.Moves` allows.
use mathlib.Core.Path.{subst}
use nestjs_ex.ChatHelper.{SendChatQueueDataInput, send_chat_queue_data}
use nestjs_ex.ChatHelper.Frame.{SameRooms, send_chat_queue_data-At}
use nestjs_ex.Entities.{MemberInRoom, MemberStatus, Notification, member_status_eq}
use nestjs_ex.Member.{
  add_notification_to_queue, find_invited_member_by_user_id, find_joined_member_by_user_id,
}
use nestjs_ex.Member.Invite.{
  AddMembersToRoomInput, add_member_list_to_room, add_member_to_room, check_can_add,
  refuse_existing,
}
use nestjs_ex.Member.Lifecycle.{
  At-same_members, Lifecycle, Moves, Moves-from, SameColumns, find_room_member_with_status-Has,
  insert_member-Lifecycle, may_become, may_become_same, update_member_in_room-Lifecycle,
}
use nestjs_ex.Member.Preferences.{with_row}
use nestjs_ex.Member.Remove.{UpdateMemberStatusInput, cancel_invite_member, update_member_status}
use nestjs_ex.Prelude.{Option, String, nat_eq, none, refl, some, sym, text_eq, true, ℕ, ◌==◌, ◌≡◌}
use nestjs_ex.Room.Membership.{
  accepted, join_room, leave_room, mark_as_unread_chat_room, reject_invitation, tell_owner_accepted,
  tell_owner_rejected,
}
use nestjs_ex.World.{Error, Exec, World, modify}
use nestjs_ex.World.Laws.{
  At, At-bind, At-for_each, At-gets-bind, At-guard, At-guard-bind, At-if, At-need-bind, At-pure,
  At-raise,
}

same_rooms-Lifecycle : {A : Type 0} {w : World} (m : Exec A) → At SameRooms w m → At Lifecycle w m
same_rooms-Lifecycle m h = At-same_members m h.holds.0

pub send_chat_queue_data-Lifecycle :
    {w : World} (input : SendChatQueueDataInput) → At Lifecycle w (send_chat_queue_data input)
send_chat_queue_data-Lifecycle input =
    same_rooms-Lifecycle (send_chat_queue_data input) (send_chat_queue_data-At input)

pub add_notification_to_queue-Lifecycle :
    {w : World} (n : Notification) → At Lifecycle w (add_notification_to_queue n)
unfolding add_notification_to_queue modify
add_notification_to_queue-Lifecycle n = At-same_members _ refl

tell_owner_accepted-Lifecycle :
    {w : World} (user_id room_id : ℕ) (m : MemberInRoom) (o : Option MemberInRoom)
    → At Lifecycle w (tell_owner_accepted user_id room_id m o)
unfolding tell_owner_accepted
tell_owner_accepted-Lifecycle user_id room_id m none = At-pure tt
tell_owner_accepted-Lifecycle user_id room_id m (some owner) =
    At-gets-bind _ _
      (At-bind _ _ (add_notification_to_queue-Lifecycle _) λ _ u. send_chat_queue_data-Lifecycle _)

pub join_room-Lifecycle :
    {w : World} (user_id room_id : ℕ) → At Lifecycle w (join_room user_id room_id)
unfolding join_room find_invited_member_by_user_id
join_room-Lifecycle {w} user_id room_id = At-gets-bind _ _ (
    At-need-bind _ _ _ λ m e.
      let (has, _, _, st) =
        find_room_member_with_status-Has user_id room_id MemberStatus.invited w m e in
      At-gets-bind _ _ (
        At-guard-bind _ _ _ λ free. At-gets-bind _ _ (
          At-bind _ _
            (update_member_in_room-Lifecycle m (accepted m w.env.now) has
              (accepted-Moves m w.env.now st))
            λ updated u.
              At-gets-bind _ _
                (At-bind _ _ (tell_owner_accepted-Lifecycle _ _ _ _) λ _ v. At-pure _))))
  where
    accepted-Moves :
        (m : MemberInRoom) (now : ℕ) → m.status ≡ MemberStatus.invited → Moves m (accepted m now)
    accepted-Moves m now st =
        Moves-from m (accepted m now) MemberStatus.invited st refl (refl, refl, refl, refl, refl)

pub leave_room-Lifecycle :
    {w : World} (user_id room_id : ℕ) → At Lifecycle w (leave_room user_id room_id)
unfolding leave_room
leave_room-Lifecycle user_id room_id = At-gets-bind _ _ (
    At-need-bind _ _ _ λ m e.
      At-gets-bind _ _ (
        At-guard-bind _ _ _
          λ free. At-bind _ _ (send_chat_queue_data-Lifecycle _) λ _ u. At-pure _))

tell_owner_rejected-Lifecycle :
    {w : World} (user_id room_id : ℕ) (o : Option MemberInRoom)
    → At Lifecycle w (tell_owner_rejected user_id room_id o)
unfolding tell_owner_rejected
tell_owner_rejected-Lifecycle user_id room_id none = At-pure tt
tell_owner_rejected-Lifecycle user_id room_id (some owner) =
    At-gets-bind _ _ (add_notification_to_queue-Lifecycle _)

pub reject_invitation-Lifecycle :
    {w : World} (user_id room_id : ℕ) → At Lifecycle w (reject_invitation user_id room_id)
unfolding reject_invitation find_invited_member_by_user_id
reject_invitation-Lifecycle {w} user_id room_id = At-gets-bind _ _ (
    At-need-bind _ _ _ λ m e.
      let (has, _, _, st) =
        find_room_member_with_status-Has user_id room_id MemberStatus.invited w m e in
      At-gets-bind _ _ (
        At-guard-bind _ _ _ λ free.
          At-bind _ _
            (update_member_in_room-Lifecycle m (record m { status = MemberStatus.cancel }) has
              (Moves-from m _ MemberStatus.invited st refl (refl, refl, refl, refl, refl)))
            λ updated u.
              At-gets-bind _ _
                (At-bind _ _ (tell_owner_rejected-Lifecycle _ _ _) λ _ v. At-pure _)))

pub mark_as_unread_chat_room-Lifecycle :
    {w : World} (user_id room_id : ℕ) → At Lifecycle w (mark_as_unread_chat_room user_id room_id)
unfolding mark_as_unread_chat_room find_joined_member_by_user_id
mark_as_unread_chat_room-Lifecycle {w} user_id room_id = At-gets-bind _ _ (
    At-gets-bind _ _ (
      At-need-bind _ _ _ λ m e.
        let (has, _, _, st) =
          find_room_member_with_status-Has user_id room_id MemberStatus.joined w m e in
        At-need-bind _ _ _ λ newest e'.
          At-bind _ _
            (update_member_in_room-Lifecycle m _ has
              (Moves-from m _ MemberStatus.joined st (rw st) (refl, refl, refl, refl, refl)))
            λ updated u. At-pure tt))

-- What a member sets for itself, for a change that keeps the columns of `Moves`.
pub with_row-Lifecycle :
    {w : World} (user_id room_id : ℕ) (missing : Error)
    (change : World → MemberInRoom → MemberInRoom)
    → ((v : World) (m : MemberInRoom)
        → SameColumns m (change v m) × ((change v m).status ≡ m.status))
    → At Lifecycle w (with_row user_id room_id missing change)
unfolding find_joined_member_by_user_id
with_row-Lifecycle {w} user_id room_id missing change h = At-gets-bind _ _ (
    At-need-bind _ _ _ λ m e.
      let (has, _, _, st) =
        find_room_member_with_status-Has user_id room_id MemberStatus.joined w m e in
      let (columns, kept) = h w m in
      At-gets-bind _ _ (
        update_member_in_room-Lifecycle m (change w m) has (
          Moves-from m (change w m) m.status refl
            (subst (λ t. may_become m.status t ≡ true) (sym kept) (may_become_same m.status))
            columns)))

pub update_member_status-Lifecycle :
    {w : World} (input : UpdateMemberStatusInput)
    → may_become input.old_status input.new_status ≡ true
    → At Lifecycle w (update_member_status input)
unfolding update_member_status
update_member_status-Lifecycle {w} input h = At-gets-bind _ _ (
    At-guard-bind _ _ _ λ allowed. At-gets-bind _ _ (
      At-need-bind _ _ _ λ m e.
        let (has, _, _, st) =
          find_room_member_with_status-Has input.member_id input.room_id input.old_status w m e in
        At-gets-bind _ _ (
          At-guard-bind _ _ _ λ free.
            update_member_in_room-Lifecycle m _ has
              (Moves-from m _ input.old_status st h (refl, refl, refl, refl, refl)))))

pub cancel_invite_member-Lifecycle :
    {w : World} (user_id inviting_user_id room_id : ℕ)
    → At Lifecycle w (cancel_invite_member user_id inviting_user_id room_id)
unfolding cancel_invite_member
cancel_invite_member-Lifecycle user_id inviting_user_id room_id =
    At-bind _ _ (update_member_status-Lifecycle _ refl)
      λ m u. At-gets-bind _ _ (At-bind _ _ (add_notification_to_queue-Lifecycle _) λ _ v. At-pure _)

add_member_to_room-Lifecycle :
    {w : World} (user_id room_id : ℕ) (address : String)
    → At Lifecycle w (add_member_to_room user_id room_id address)
unfolding add_member_to_room
add_member_to_room-Lifecycle user_id room_id address = At-gets-bind _ _ (
    At-guard-bind _ _ _ λ fresh. At-gets-bind _ _ (
      At-need-bind _ _ _ λ wallet e. At-gets-bind _ _ (
        At-gets-bind _ _ (
          At-bind _ _ (insert_member-Lifecycle _ (λ n. refl)) λ m u.
            At-gets-bind _ _
              (At-bind _ _ (add_notification_to_queue-Lifecycle _) λ _ v. At-pure _)))))

refuse_existing-Lifecycle :
    {w : World} (o : Option MemberInRoom) → At Lifecycle w (refuse_existing o)
unfolding refuse_existing
refuse_existing-Lifecycle none = At-pure tt
refuse_existing-Lifecycle (some m) =
    At-if (m.status == MemberStatus.joined) (λ _. At-raise _) (λ _. At-raise _)

check_can_add-Lifecycle :
    {w : World} (user_id : ℕ) (input : AddMembersToRoomInput)
    → At Lifecycle w (check_can_add user_id input)
unfolding check_can_add
check_can_add-Lifecycle user_id input = At-guard-bind _ _ _ λ a. At-gets-bind _ _ (
    At-guard-bind _ _ _ λ b. At-gets-bind _ _ (
      At-need-bind _ _ _ λ owner e. At-guard-bind _ _ _ λ c.
        At-gets-bind _ _
          (At-bind _ _ (refuse_existing-Lifecycle _) λ _ u. At-gets-bind _ _ (At-guard _ _))))

pub add_member_list_to_room-Lifecycle :
    {w : World} (user_id : ℕ) (input : AddMembersToRoomInput)
    → At Lifecycle w (add_member_list_to_room user_id input)
unfolding add_member_list_to_room
add_member_list_to_room-Lifecycle user_id input =
    At-bind _ _ (check_can_add-Lifecycle user_id input)
      λ _ u. At-for_each _ _ (λ a v. add_member_to_room-Lifecycle user_id input.room_id a) u
