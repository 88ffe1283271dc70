-- ===== src/Room.antt =====
-- src/chat-room/services/chat-room.service.ts, lines 1084 to 1228: the owner's changes to a room, and the
-- reads that the other parts of the service share.
pub mod Membership
pub mod Create
pub mod Single
pub mod Failed
use nestjs_ex.ChatHelper.{SendChatQueueDataInput, send_chat_queue_data}
use nestjs_ex.Entities.{
  ChatJobName, ChatRoom, ChatRoomStatus, MemberInRoom, Role, member_status_eq, role_eq,
  room_status_eq,
}
use nestjs_ex.Member.{find_joined_member_by_user_id, is_room_owner}
use nestjs_ex.Prelude.{
  Bool, Option, String, [], find_first, if◌then◌else◌, nat_eq, none, not, or_else, some, text_eq,
  true, ℕ, ◌==◌, ◌∷◌,
}
use nestjs_ex.Store.{update_rows}
use nestjs_ex.World.{
  Exec, chat_room_not_found, gets, guard, modify, need, not_awaited, not_deployed_fail, pure,
  type_error, user_not_owner, ◌>>=◌, ◌>>◌,
}

-- `ChatRoomRepository.getById`, which throws where the row is missing.
unfoldable pub get_chat_room_by_id : ℕ → Exec ChatRoom
get_chat_room_by_id id = do
  found ← gets (λ w. find_first (λ r. r.id == id) w.rooms.rows)
  need found chat_room_not_found

-- `repository.update(room.id, room)`
unfoldable pub update_room : ChatRoom → Exec (Unit {0})
update_room room =
    modify (λ w. record w { rooms = update_rows (λ x. x.id == room.id) (λ x. room) w.rooms })

pub record UpdateChatRoomInput : Type 0 where
  pub id : ℕ
  pub name : Option String
  pub avatar : Option String
  pub status : Option ChatRoomStatus

-- `oldChatRoom.name !== input.name`: a missing name is `null` in the row and `undefined` in the input.
abbrev pub name_differs : Option String → Option String → Bool
name_differs (some a) (some b) = not (a == b)
name_differs (some a) none = true
name_differs none o = true

-- `{ ...oldChatRoom, ...input, updatedAt }`
abbrev pub merged : ChatRoom → UpdateChatRoomInput → ℕ → ChatRoom
merged room input now = record room {
  name = elim input.name [ none ↦ room.name | some n ↦ some n ];
  avatar = elim input.avatar [ none ↦ room.avatar | some a ↦ some a ];
  status = or_else input.status room.status;
  updated_at = now;
}

abbrev pub renaming : MemberInRoom → ChatRoom → UpdateChatRoomInput → SendChatQueueDataInput
renaming owner room input = record {
  room_id = room.id;
  from_user_id = owner.user_id;
  from_wallet_address = owner.wallet_address;
  to_wallet_addresses = owner.wallet_address ∷ [];
  message_contents = "has changed group name to" ∷ [];
  job_name = ChatJobName.change_group_name;
  token_amount = none;
  token_decimal = none;
  content = input.name;
  message_id = none;
}

unfoldable pub update_chat_room : ℕ → UpdateChatRoomInput → Exec ChatRoom
update_chat_room user_id input = do
  found ← gets (find_joined_member_by_user_id user_id input.id)
  owner ← need found type_error
  guard (owner.role == Role.owner) user_not_owner
  room ← get_chat_room_by_id input.id
  now ← gets (λ w. w.env.now)
  if name_differs room.name input.name
      then (do send_chat_queue_data (renaming owner room input); pure room)
      else (do update_room (merged room input now); pure (merged room input now))

abbrev pub redeployment : MemberInRoom → ChatRoom → SendChatQueueDataInput
redeployment owner room = record {
  room_id = room.id;
  from_user_id = owner.user_id;
  from_wallet_address = owner.wallet_address;
  to_wallet_addresses = owner.wallet_address ∷ [];
  message_contents = "has created a new group" ∷ [];
  job_name = ChatJobName.redeploy_group_chat;
  token_amount = none;
  token_decimal = none;
  content = some "";
  message_id = none;
}

unfoldable pub resend_chat_room : ℕ → ℕ → Exec ChatRoom
resend_chat_room user_id id = do
  room ← get_chat_room_by_id id
  guard (room.status == ChatRoomStatus.failed) not_deployed_fail
  found ← gets (find_joined_member_by_user_id user_id room.id)
  owner ← need found user_not_owner
  guard (owner.role == Role.owner) user_not_owner
  now ← gets (λ w. w.env.now)
  let updated = record room { status = ChatRoomStatus.created; updated_at = now }
  update_room updated
  not_awaited (send_chat_queue_data (redeployment owner room))
  pure updated

unfoldable pub remove_fail_chat_room : ℕ → ℕ → Exec ChatRoom
remove_fail_chat_room user_id id = do
  room ← get_chat_room_by_id id
  guard (room.status == ChatRoomStatus.failed) not_deployed_fail
  is_owner ← gets (is_room_owner user_id room.id)
  guard is_owner user_not_owner
  now ← gets (λ w. w.env.now)
  let updated = record room { status = ChatRoomStatus.cancel; updated_at = now }
  update_room updated
  pure updated
