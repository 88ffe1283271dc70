-- ===== src/FileMessage.antt =====
-- src/message/services/message.service.ts, lines 1338 to 1394 and 1450 to 1492: a message with a file.
pub mod Job
pub mod Queued
use nestjs_ex.Entities.{
  ChatRoomStatus, Message, MessageStatus, MessageType, member_status_eq, message_status_eq,
  message_type_eq, room_status_eq,
}
use nestjs_ex.Files.{MulterFile, create_file}
use nestjs_ex.Member.{find_joined_member_by_user_id}
use nestjs_ex.Message.{save_message}
use nestjs_ex.Network.{is_network_used_on_chat}
use nestjs_ex.Prelude.{
  String, false, find_first, is_some, nat_eq, none, or_else, some, text_eq, ℕ, ◌+++◌, ◌==◌,
}
use nestjs_ex.Sender.{Sender, get_sender}
use nestjs_ex.Sending.{number_of_txs}
use nestjs_ex.Sending.Again.{add_to_upload_file_queue}
use nestjs_ex.World.{
  Env, Exec, gets, guard, need, network_not_supported, not_awaited, pure, room_not_deployed,
  type_error, user_not_in_room, ◌>>=◌, ◌>>◌,
}

-- `CreateFileMessageInput`
pub record CreateFileMessageInput : Type 0 where
  pub chat_room_id : ℕ
  pub file_info : String

-- `checkIfRoomIsDeployedAndInSupportedNetwork`
unfoldable pub check_room_is_deployed_and_in_supported_network : ℕ → Exec (Unit {0})
check_room_is_deployed_and_in_supported_network room_id = do
  stored ← gets (λ w. find_first (λ r. r.id == room_id) w.rooms.rows)
  room ← need stored type_error
  guard (room.status == ChatRoomStatus.deployed) room_not_deployed
  used ← is_network_used_on_chat room.network_id
  guard used network_not_supported

-- `checkIfUserJoinedRoom`
unfoldable pub check_user_joined_room : ℕ → ℕ → Exec (Unit {0})
check_user_joined_room user_id room_id = do
  joined ← gets (find_joined_member_by_user_id user_id room_id)
  guard (is_some joined) user_not_in_room

-- `chat-rooms/${input.chatRoomId}/users/${userId}`
abbrev pub upload_path : Env → ℕ → ℕ → String
upload_path env room_id user_id =
    "chat-rooms/" +++ env.text_of_number room_id +++ "/users/" +++ env.text_of_number user_id

-- `fileInfo?.type || MESSAGE_TYPE.FILE`
abbrev pub type_of_file : Env → String → MessageType
type_of_file env info = or_else (env.type_of_file_info info) MessageType.file

abbrev pub file_message : CreateFileMessageInput → Sender → ℕ → Env → ℕ → Message
file_message input user file_id env id = record {
  id = id;
  chat_room_id = input.chat_room_id;
  user_id = user.id;
  wallet_address = user.address;
  reply_to = none;
  kind = type_of_file env input.file_info;
  content = some (env.text_of_number file_id);
  is_pinned = false;
  status = MessageStatus.in_progress;
  transaction_id = none;
  number_of_txs = 1;
  file_info = some input.file_info;
  retry_at = some env.now;
  created_at = env.now;
  updated_at = env.now;
}

-- `createFileMessage`; the upload job is not awaited.
unfoldable pub create_file_message : ℕ → CreateFileMessageInput → MulterFile → Exec Message
create_file_message user_id input file = do
  user ← get_sender user_id
  check_room_is_deployed_and_in_supported_network input.chat_room_id
  check_user_joined_room user_id input.chat_room_id
  env ← gets (λ w. w.env)
  file_id ← create_file user_id file (upload_path env input.chat_room_id user_id)
  message ← save_message (file_message input user file_id env)
  not_awaited (add_to_upload_file_queue user_id user.address input.chat_room_id message.id file_id)
  pure message
