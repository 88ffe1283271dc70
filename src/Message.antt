-- ===== src/Message.antt =====
-- src/message/services/message.service.ts, lines 171 to 215, 757 to 764 and 1537 to 1539: the
-- messages that the services write by themselves.
use nestjs_ex.Entities.{
  Message, MessageStatus, MessageType, member_status_eq, message_status_eq, message_type_eq,
}
use nestjs_ex.Prelude.{
  Option, String, false, find_first, nat_eq, none, or_else, some, text_eq, ℕ, ◌==◌,
}
use nestjs_ex.Store.{insert}
use nestjs_ex.World.{Exec, World, ok}

-- `CreateNotificationMessageInput`
pub record CreateNotificationMessageInput : Type 0 where
  pub chat_room_id : ℕ
  pub user_id : ℕ
  pub wallet_address : String
  pub content : String
  pub status : Option MessageStatus

-- The row that the three `create…Message` methods save: the input's own status wins over `IN_PROGRESS`.
abbrev pub message_of : MessageType → CreateNotificationMessageInput → ℕ → ℕ → Message
message_of kind input now id = record {
  id = id;
  chat_room_id = input.chat_room_id;
  user_id = input.user_id;
  wallet_address = input.wallet_address;
  reply_to = none;
  kind = kind;
  content = some input.content;
  is_pinned = false;
  status = or_else input.status MessageStatus.in_progress;
  transaction_id = none;
  number_of_txs = 1;
  file_info = none;
  retry_at = some now;
  created_at = now;
  updated_at = now;
}

-- `repository.save(newMessage)`
unfoldable pub save_message : (ℕ → Message) → Exec Message
save_message row w = (ok (row w.messages.next_id), record w { messages = insert row w.messages })

unfoldable pub create_notification_message : CreateNotificationMessageInput → Exec Message
unfolding save_message
create_notification_message input w =
    save_message (message_of MessageType.room_notification input w.env.now) w

unfoldable pub create_action_type_message : CreateNotificationMessageInput → Exec Message
unfolding save_message
create_action_type_message input w =
    save_message (message_of MessageType.room_action input w.env.now) w

unfoldable pub create_system_message : CreateNotificationMessageInput → Exec Message
unfolding save_message
create_system_message input w = save_message (message_of MessageType.system input w.env.now) w

unfoldable pub find_message_by_id : ℕ → World → Option Message
find_message_by_id id w = find_first (λ m. m.id == id) w.messages.rows
