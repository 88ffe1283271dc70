-- ===== src/Member/Remove.antt =====
-- src/member-in-room/services/member-in-room.service.ts, lines 666 to 816 and 868 to 908:
-- taking an invitation back, and removing members.
use nestjs_ex.ChatHelper.{SendChatQueueDataInput, send_chat_queue_data}
use nestjs_ex.Entities.{
  ChatJobName, MemberInRoom, MemberStatus, Notification, SocketType, member_status_eq,
  message_type_eq,
}
use nestjs_ex.Member.{
  NotificationInfo, add_notification_to_queue, find_joined_member_by_user_id,
  find_room_member_with_status, flatten, get_notification_info, in_addresses,
  is_room_owner_or_admin, show_null, update_member_in_room,
}
use nestjs_ex.Prelude.{
  Bool, List, Option, String, [], any, if◌then◌else◌, map, nat_eq, none, not, select, text_eq, ℕ,
  ◌&&◌, ◌+++◌, ◌==◌, ◌||◌, ◌∷◌,
}
use nestjs_ex.RoomNotificationTx.{check_processing_addresses, check_processing_one_address}
use nestjs_ex.World.{
  Env, Exec, address_in_progress, for_each, gets, guard, member_not_found, need, no_permission,
  pure, type_error, unauthorized, ◌>>=◌, ◌>>◌,
}

pub record RemoveMemberFromRoomInput : Type 0 where
  pub addresses : List String
  pub room_id : ℕ

abbrev pub cancellation : ℕ → ℕ → NotificationInfo → Notification
cancellation user_id room_id info = record {
  user_id = user_id;
  kind = SocketType.room_invitation;
  room_id = room_id;
  action = ChatJobName.remove_members;
  message_id = none;
  title = flatten info.chat_room_name;
  body = "Your invitation has been canceled";
}

-- The rows to remove; an address that is cancelled is among them, one that is out is not.
abbrev pub is_removable : Env → RemoveMemberFromRoomInput → MemberInRoom → Bool
is_removable env input m =
    (m.chat_room_id == input.room_id)
    && in_addresses env input.addresses m
    && not (m.status == MemberStatus.out)

-- `memberList.find(x => x.walletAddress.toLowerCase() == address?.toLocaleLowerCase() && …)`
abbrev is_joined_at : Env → List MemberInRoom → String → Bool
is_joined_at env members address =
    any
      (λ m.
        (env.to_lower_case m.wallet_address == env.to_lower_case address)
        && (m.status == MemberStatus.joined))
      members

-- One round of `memberList.forEach`.
unfoldable pub cancel_invitation : ℕ → ℕ → MemberInRoom → Exec (Unit {0})
cancel_invitation user_id room_id m =
    if (m.status == MemberStatus.invited) || (m.status == MemberStatus.pending_approval)
    then (do
      now ← gets (λ w. w.env.now)
      update_member_in_room (record m { status = MemberStatus.out; updated_at = now })
      info ← gets (get_notification_info room_id m.user_id user_id MemberStatus.joined)
      add_notification_to_queue (cancellation m.user_id room_id info))
    else pure tt

abbrev removal :
    RemoveMemberFromRoomInput
    → MemberInRoom
    → List MemberInRoom
    → List String
    → SendChatQueueDataInput
removal input owner members joined = record {
  room_id = input.room_id;
  from_user_id = owner.user_id;
  from_wallet_address = owner.wallet_address;
  to_wallet_addresses = joined;
  message_contents = map (λ m. show_null m.nickname +++ " was removed from the room") members;
  job_name = ChatJobName.remove_members;
  token_amount = none;
  token_decimal = none;
  content = none;
  message_id = none;
}

-- `if (joinedRoomAddresses.length > 0)`: without a joined row of the caller, `owner.userId` throws.
unfoldable pub remove_joined :
    RemoveMemberFromRoomInput
    → Option MemberInRoom
    → List MemberInRoom
    → List String
    → Exec (Unit {0})
remove_joined input owner members [] = pure tt
remove_joined input owner members (a ∷ as') = do
  o ← need owner type_error
  send_chat_queue_data (removal input o members (a ∷ as'))

unfoldable pub remove_member_from_room : ℕ → RemoveMemberFromRoomInput → Exec (Unit {0})
remove_member_from_room user_id input = do
  guard (not (user_id == 0)) unauthorized
  allowed ← gets (is_room_owner_or_admin user_id input.room_id)
  guard allowed no_permission
  owner ← gets (find_joined_member_by_user_id user_id input.room_id)
  members ← gets (λ w. select (is_removable w.env input) w.members.rows)
  in_progress ← gets (check_processing_addresses input.room_id input.addresses)
  guard (not in_progress) address_in_progress
  joined ← gets (λ w. select (is_joined_at w.env members) input.addresses)
  for_each members (cancel_invitation user_id input.room_id)
  remove_joined input owner members joined

pub record UpdateMemberStatusInput : Type 0 where
  pub owner_id : ℕ
  pub member_id : ℕ
  pub room_id : ℕ
  pub old_status : MemberStatus
  pub new_status : MemberStatus

unfoldable pub update_member_status : UpdateMemberStatusInput → Exec MemberInRoom
update_member_status input = do
  allowed ← gets (is_room_owner_or_admin input.owner_id input.room_id)
  guard allowed no_permission
  found ← gets (find_room_member_with_status input.member_id input.room_id input.old_status)
  m ← need found member_not_found
  in_progress ← gets (check_processing_one_address input.room_id m.wallet_address)
  guard (not in_progress) address_in_progress
  update_member_in_room (record m { status = input.new_status })

unfoldable pub cancel_invite_member : ℕ → ℕ → ℕ → Exec MemberInRoom
cancel_invite_member user_id inviting_user_id room_id = do
  updated ← update_member_status (record {
    owner_id = user_id;
    member_id = inviting_user_id;
    room_id = room_id;
    old_status = MemberStatus.invited;
    new_status = MemberStatus.out;
  })
  info ← gets (get_notification_info room_id inviting_user_id user_id MemberStatus.joined)
  add_notification_to_queue (cancellation inviting_user_id room_id info)
  pure updated
