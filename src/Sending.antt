-- ===== src/Sending.antt =====
-- src/message/services/message.service.ts, lines 820 to 941: sending a message.
pub mod Again
pub mod Marks
pub mod Chunks
pub mod Delivery
use nestjs_ex.ChatHelper.{SendChatQueueDataInput, send_chat_queue_data}
use nestjs_ex.Entities.{
  ChatJobName, ChatRoom, ChatRoomStatus, Message, MessageStatus, MessageType, member_status_eq,
  message_status_eq, message_type_eq, room_status_eq,
}
use nestjs_ex.Member.{find_joined_member_by_user_id, find_opposite_member}
use nestjs_ex.Message.{save_message}
use nestjs_ex.Prelude.{
  Bool, List, Option, String, [], false, find_first, if◌then◌else◌, length, nat_eq, none, not,
  or_else, some, text_eq, true, ℕ, ◌+◌, ◌-◌, ◌/◌, ◌==◌, ◌∷◌,
}
use nestjs_ex.Sender.{Sender, get_sender}
use nestjs_ex.Store.{update_rows}
use nestjs_ex.World.{
  Exec, gets, guard, message_type_not_valid, modify, need, pure, room_blocked, room_not_deployed,
  room_not_found, type_error, user_not_in_room, ◌>>=◌, ◌>>◌,
}

-- `getDeployedRoomById`
unfoldable pub get_deployed_room_by_id : ℕ → Exec ChatRoom
get_deployed_room_by_id id = do
  found ← gets (λ w. find_first (λ r. r.id == id) w.rooms.rows)
  room ← need found room_not_found
  guard (not (room.status == ChatRoomStatus.blocked)) room_blocked
  guard (room.status == ChatRoomStatus.deployed) room_not_deployed
  pure room

-- `kind` is the constant that `MESSAGE_TYPE[input.type.toUpperCase()]` finds.
pub record SendMessageInput : Type 0 where
  pub chat_room_id : ℕ
  pub reply_to : Option ℕ
  pub kind : Option MessageType
  pub content : Option String
  -- `input.content?.length`, which JavaScript counts in UTF-16 units
  pub content_length : ℕ

-- `MAX_MESSAGE_LENGTH`
abbrev pub max_message_length : ℕ
max_message_length = 20000

-- `Math.ceil((length || 1) / MAX_MESSAGE_LENGTH)`
unfoldable pub number_of_txs : ℕ → ℕ
number_of_txs length =
    ((if length == 0 then 1 else length) + (max_message_length - 1)) / max_message_length

abbrev pub sent_message : SendMessageInput → MessageType → Sender → ℕ → ℕ → Message
sent_message input kind user now id = record {
  id = id;
  chat_room_id = input.chat_room_id;
  user_id = user.id;
  wallet_address = user.address;
  reply_to = input.reply_to;
  kind = kind;
  content = input.content;
  is_pinned = false;
  status = MessageStatus.in_progress;
  transaction_id = none;
  number_of_txs = number_of_txs input.content_length;
  file_info = none;
  retry_at = some now;
  created_at = now;
  updated_at = now;
}

abbrev pub delivery :
    ℕ → String → Option String → ℕ → ℕ → ChatJobName → List String → SendChatQueueDataInput
delivery user_id address content room_id message_id job_name receivers = record {
  room_id = room_id;
  from_user_id = user_id;
  from_wallet_address = address;
  to_wallet_addresses = receivers;
  message_contents = or_else content "" ∷ [];
  job_name = job_name;
  token_amount = none;
  token_decimal = none;
  content = none;
  message_id = some message_id;
}

-- `if (room?.isGroup) … else …`: a message to one peer names the other member of the room.
unfoldable pub deliver : Bool → ℕ → String → Option String → ℕ → ℕ → Exec (Unit {0})
deliver true user_id address content room_id message_id =
    send_chat_queue_data
      (delivery user_id address content room_id message_id ChatJobName.send_message_to_group [])
deliver false user_id address content room_id message_id = do
  found ← gets (find_opposite_member user_id room_id)
  other ← need found type_error
  send_chat_queue_data (
      delivery user_id address content room_id message_id ChatJobName.send_message_to_peer
        (other.wallet_address ∷ []))

unfoldable pub send_message : ℕ → SendMessageInput → Exec Message
send_message user_id input = do
  user ← get_sender user_id
  room ← get_deployed_room_by_id input.chat_room_id
  found ← gets (find_joined_member_by_user_id user_id input.chat_room_id)
  joined ← need found user_not_in_room
  kind ← need input.kind message_type_not_valid
  now ← gets (λ w. w.env.now)
  message ← save_message (sent_message input kind user now)
  deliver room.is_group user_id user.address input.content input.chat_room_id message.id
  pure message

unfoldable pub update_message : Message → Exec (Unit {0})
update_message m =
    modify (λ w. record w { messages = update_rows (λ x. x.id == m.id) (λ x. m) w.messages })
