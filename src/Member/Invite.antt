-- ===== src/Member/Invite.antt =====
-- src/member-in-room/services/member-in-room.service.ts, lines 494 to 664: inviting addresses to a room.
use nestjs_ex.ChatHelper.{find_user_wallet_by_address}
use nestjs_ex.Entities.{
  ChatJobName, MemberInRoom, MemberStatus, Notification, Role, SocketType, User, member_status_eq,
  message_type_eq, role_eq,
}
use nestjs_ex.Member.{
  NotificationInfo, add_notification_to_queue, find_invited_or_joined_member_by_address,
  find_invited_or_joined_member_by_list_address, find_joined_member_by_user_id, flatten,
  get_notification_info, get_number_of_members_in_room, insert_member, show_undefined,
}
use nestjs_ex.Prelude.{
  Bool, List, Option, String, false, find_first, if◌then◌else◌, is_some, leb, length, nat_eq, none,
  not, some, text_eq, ℕ, ◌+++◌, ◌+◌, ◌==◌,
}
use nestjs_ex.RoomNotificationTx.{check_processing_addresses}
use nestjs_ex.World.{
  Exec, World, address_in_progress, already_in_room, for_each, gets, guard, had_been_invited,
  had_joined, max_member_per_group, need, no_permission, not_registered, pure, raise, type_error,
  ◌>>=◌, ◌>>◌,
}

pub record AddMembersToRoomInput : Type 0 where
  pub addresses : List String
  pub room_id : ℕ

-- `MAX_MEMBER_PER_GROUP`
abbrev pub max_member_per_group_count : ℕ
max_member_per_group_count = 100

abbrev name_of : Option User → Option String
name_of none = none
name_of (some u) = u.name

-- The row of a new member; `user?.name` is undefined where the wallet's user is missing.
abbrev pub invited_row : ℕ → ℕ → ℕ → String → Option User → ℕ → ℕ → MemberInRoom
invited_row now add_user_id room_id address user user_id id = record {
  id = id;
  chat_room_id = room_id;
  user_id = user_id;
  wallet_address = address;
  display_name = name_of user;
  nickname = none;
  role = Role.member;
  status = MemberStatus.invited;
  added_by_user_id = some add_user_id;
  is_chat_archived = false;
  is_pinned = false;
  mute_duration = none;
  last_viewed_at = now;
  created_at = now;
  updated_at = now;
}

abbrev invitation : ℕ → ℕ → NotificationInfo → Notification
invitation user_id room_id info = record {
  user_id = user_id;
  kind = SocketType.room_invitation;
  room_id = room_id;
  action = ChatJobName.invite_member;
  message_id = none;
  title = flatten info.chat_room_name;
  body = show_undefined info.show_name +++ " has invited you to join the group";
}

unfoldable pub add_member_to_room : ℕ → ℕ → String → Exec MemberInRoom
add_member_to_room add_user_id room_id address = do
  existing ← gets (find_invited_or_joined_member_by_address address room_id)
  guard (not (is_some existing)) already_in_room
  found ← gets (find_user_wallet_by_address address)
  wallet ← need found not_registered
  user ← gets (λ w. find_first (λ u. u.id == wallet.user_id) w.users.rows)
  now ← gets (λ w. w.env.now)
  m ← insert_member (invited_row now add_user_id room_id address user wallet.user_id)
  info ← gets (get_notification_info room_id wallet.user_id add_user_id MemberStatus.joined)
  add_notification_to_queue (invitation wallet.user_id room_id info)
  pure m

-- `if (existMember)`: the message names the member as its contact in the owner's list.
unfoldable pub refuse_existing : Option MemberInRoom → Exec (Unit {0})
refuse_existing none = pure tt
refuse_existing (some m) =
    if m.status == MemberStatus.joined then raise had_joined else raise had_been_invited

-- The checks of `addMemberListToRoom`, in their order.
unfoldable pub check_can_add : ℕ → AddMembersToRoomInput → Exec (Unit {0})
check_can_add user_id input = do
  guard (leb (length input.addresses) max_member_per_group_count) max_member_per_group
  count ← gets (get_number_of_members_in_room input.room_id)
  guard (leb (count + length input.addresses) max_member_per_group_count) max_member_per_group
  found ← gets (find_joined_member_by_user_id user_id input.room_id)
  owner ← need found type_error
  guard (owner.role == Role.owner) no_permission
  existing ← gets (find_invited_or_joined_member_by_list_address input.addresses input.room_id)
  refuse_existing existing
  in_progress ← gets (check_processing_addresses input.room_id input.addresses)
  guard (not in_progress) address_in_progress

unfoldable pub add_member_list_to_room : ℕ → AddMembersToRoomInput → Exec (List MemberInRoom)
add_member_list_to_room user_id input = do
  check_can_add user_id input
  for_each input.addresses (add_member_to_room user_id input.room_id)

-- `checkCanDoAction`
unfoldable pub check_can_do_action : AddMembersToRoomInput → World → Bool
check_can_do_action input w = not (check_processing_addresses input.room_id input.addresses w)
