-- ===== src/Room/Membership.antt =====
-- src/chat-room/services/chat-room.service.ts, lines 962 to 1082 and 1447 to 1531: a member
-- accepts, rejects, leaves, or marks a room as unread.
use nestjs_ex.ChatHelper.{SendChatQueueDataInput, send_chat_queue_data}
use nestjs_ex.Entities.{
  ChatJobName, MemberInRoom, MemberStatus, Message, Notification, SocketType, member_status_eq,
  message_type_eq,
}
use nestjs_ex.Member.{
  NotificationInfo, add_notification_to_queue, find_invited_member_by_user_id,
  find_joined_member_by_user_id, find_room_owner, flatten, get_notification_info, show_null,
  show_undefined, update_member_in_room,
}
use nestjs_ex.Member.Approve.{call_name}
use nestjs_ex.Prelude.{
  List, Option, String, [], if◌then◌else◌, ltb, nat_eq, none, not, select, some, text_eq, ℕ, ◌+++◌,
  ◌-◌, ◌==◌, ◌∷◌,
}
use nestjs_ex.RoomNotificationTx.{check_processing_one_address}
use nestjs_ex.World.{
  Exec, World, address_in_progress, gets, guard, member_not_found, need, pure, type_error,
  user_not_in_room, user_not_invited, ◌>>=◌, ◌>>◌,
}

-- `updatedMember` of `joinRoom`
abbrev pub accepted : MemberInRoom → ℕ → MemberInRoom
accepted m now = record m { status = MemberStatus.pending_approval; updated_at = now }

abbrev pub answer_notification :
    MemberInRoom → ℕ → ChatJobName → NotificationInfo → String → Notification
answer_notification owner room_id action info answer = record {
  user_id = owner.user_id;
  kind = SocketType.room_invitation;
  room_id = room_id;
  action = action;
  message_id = none;
  title = flatten info.chat_room_name;
  body = show_undefined info.show_name +++ answer;
}

abbrev pub acceptance : MemberInRoom → MemberInRoom → ℕ → NotificationInfo → SendChatQueueDataInput
acceptance owner m room_id info = record {
  room_id = room_id;
  from_user_id = owner.user_id;
  from_wallet_address = owner.wallet_address;
  to_wallet_addresses = m.wallet_address ∷ [];
  message_contents =
      (show_undefined info.show_name
        +++ " has accepted the invitation to "
        +++ show_undefined info.chat_room_name
        +++ " group")
      ∷ [];
  job_name = ChatJobName.accept_join_group;
  token_amount = none;
  token_decimal = none;
  content = none;
  message_id = none;
}

-- `if (owner) { … }` of `joinRoom`
unfoldable pub tell_owner_accepted : ℕ → ℕ → MemberInRoom → Option MemberInRoom → Exec (Unit {0})
tell_owner_accepted user_id room_id m none = pure tt
tell_owner_accepted user_id room_id m (some owner) = do
  info ← gets (get_notification_info room_id owner.user_id user_id MemberStatus.pending_approval)
  add_notification_to_queue (
      answer_notification owner room_id ChatJobName.accept_invite info
        " has accepted your invitation")
  send_chat_queue_data (acceptance owner m room_id info)

unfoldable pub join_room : ℕ → ℕ → Exec MemberInRoom
join_room user_id room_id = do
  found ← gets (find_invited_member_by_user_id user_id room_id)
  m ← need found user_not_invited
  in_progress ← gets (check_processing_one_address room_id m.wallet_address)
  guard (not in_progress) address_in_progress
  now ← gets (λ w. w.env.now)
  updated ← update_member_in_room (accepted m now)
  owner ← gets (find_room_owner room_id)
  tell_owner_accepted user_id room_id updated owner
  pure updated

abbrev pub departure : MemberInRoom → ℕ → ℕ → SendChatQueueDataInput
departure m user_id room_id = record {
  room_id = room_id;
  from_user_id = user_id;
  from_wallet_address = m.wallet_address;
  to_wallet_addresses = m.wallet_address ∷ [];
  message_contents = (show_null (call_name m) +++ " has left the room") ∷ [];
  job_name = ChatJobName.leave_room;
  token_amount = none;
  token_decimal = none;
  content = none;
  message_id = none;
}

unfoldable pub leave_room : ℕ → ℕ → Exec MemberInRoom
leave_room user_id room_id = do
  found ← gets (find_joined_member_by_user_id user_id room_id)
  m ← need found user_not_in_room
  in_progress ← gets (check_processing_one_address room_id m.wallet_address)
  guard (not in_progress) address_in_progress
  send_chat_queue_data (departure m user_id room_id)
  pure m

-- `if (owner) { … }` of `rejectInvitation`
unfoldable pub tell_owner_rejected : ℕ → ℕ → Option MemberInRoom → Exec (Unit {0})
tell_owner_rejected user_id room_id none = pure tt
tell_owner_rejected user_id room_id (some owner) = do
  info ← gets (get_notification_info room_id owner.user_id user_id MemberStatus.cancel)
  add_notification_to_queue (
      answer_notification owner room_id ChatJobName.reject_join_group info
        " has rejected your invitation")

unfoldable pub reject_invitation : ℕ → ℕ → Exec MemberInRoom
reject_invitation user_id room_id = do
  found ← gets (find_invited_member_by_user_id user_id room_id)
  m ← need found user_not_invited
  in_progress ← gets (check_processing_one_address room_id m.wallet_address)
  guard (not in_progress) address_in_progress
  updated ← update_member_in_room (record m { status = MemberStatus.cancel })
  owner ← gets (find_room_owner room_id)
  tell_owner_rejected user_id room_id owner
  pure updated

-- `getLatestMessageByRoomId`: the first of the newest messages of the room.
abbrev later : Message → Option Message → Option Message
later m none = some m
later m (some n) = if ltb m.created_at n.created_at then some n else some m

unfoldable pub latest : List Message → Option Message
latest [] = none
latest (m ∷ ms) = later m (latest ms)

unfoldable pub get_latest_message_by_room_id : ℕ → World → Option Message
get_latest_message_by_room_id room_id w =
    latest (select (λ m. m.chat_room_id == room_id) w.messages.rows)

-- `subtract('1', 'minute')`, on dates after the first minute of 1970
abbrev pub one_minute : ℕ
one_minute = 60000

unfoldable pub mark_as_unread_chat_room : ℕ → ℕ → Exec (Unit {0})
mark_as_unread_chat_room user_id room_id = do
  message ← gets (get_latest_message_by_room_id room_id)
  found ← gets (find_joined_member_by_user_id user_id room_id)
  m ← need found member_not_found
  newest ← need message type_error
  update_member_in_room (record m { last_viewed_at = newest.created_at - one_minute })
  pure tt
