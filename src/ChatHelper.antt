-- ===== src/ChatHelper.antt =====
-- src/shared/chat-helper/services/chat-helper.service.ts: what a chat transaction leaves in the
-- database, and the job that it puts on the CHAT queue.
pub mod Frame
pub mod Unlisted
use nestjs_ex.Acl.{action_eq}
use nestjs_ex.Entities.{
  ChatJob, ChatJobName, ChatRoom, Fee, MessageStatus, RoomActionTx, UserWallet, member_status_eq,
  message_status_eq, message_type_eq,
}
use nestjs_ex.Message.{
  CreateNotificationMessageInput, create_action_type_message, create_notification_message,
}
use nestjs_ex.Network.{get_network_fee_by_level, is_shared_networks}
use nestjs_ex.Prelude.{
  Bool, List, Option, String, [], find_first, if◌then◌else◌, nat_eq, none, or_else, some, text_eq,
  ℕ, ◌++◌, ◌==◌, ◌∷◌,
}
use nestjs_ex.RoomNotificationTx.{create_notification_tx}
use nestjs_ex.Store.{insert}
use nestjs_ex.World.{
  Exec, World, for_each, gets, guard, modify, need, network_not_shared, not_awaited, ok, pure,
  room_not_found, type_error, ◌>>=◌, ◌>>◌,
}

-- `GetChatQueueDataInput`, with the properties that the service reads; `none` for one that is left out.
pub record SendChatQueueDataInput : Type 0 where
  pub room_id : ℕ
  pub from_user_id : ℕ
  pub from_wallet_address : String
  pub to_wallet_addresses : List String
  pub message_contents : List String
  pub job_name : ChatJobName
  pub content : Option String
  pub message_id : Option ℕ
  pub token_amount : Option String
  pub token_decimal : Option ℕ

pub record ChatQueueData : Type 0 where
  pub network_id : ℕ
  pub from_wallet_id : ℕ
  pub chat_room_id : ℕ
  pub fee_amount : Fee
  pub is_group : Bool

-- `ChatRoomService.findRoomById`
unfoldable pub find_room_by_id : ℕ → Exec ChatRoom
find_room_by_id id = do
  found ← gets (λ w. find_first (λ r. r.id == id) w.rooms.rows)
  need found room_not_found

-- `UserWalletService.findUserWalletByAddress`
unfoldable pub find_user_wallet_by_address : String → World → Option UserWallet
find_user_wallet_by_address address w =
    find_first (λ u. w.env.same_text u.address address) w.wallets.rows

unfoldable pub get_data_for_chat_queue : SendChatQueueDataInput → Exec ChatQueueData
get_data_for_chat_queue input = do
  room ← find_room_by_id input.room_id
  found ← gets (find_user_wallet_by_address input.from_wallet_address)
  wallet ← need found type_error
  can_send ← is_shared_networks room.network_id wallet.network_id
  guard can_send network_not_shared
  fee ← get_network_fee_by_level room.network_id "fast"
  pure (record {
    network_id = room.network_id;
    from_wallet_id = wallet.id;
    chat_room_id = room.id;
    fee_amount = fee;
    is_group = room.is_group;
  })

-- `input.messageContents?.[0] || ''`
abbrev first_content : List String → String
first_content [] = ""
first_content (c ∷ cs) = c

abbrev pub message_input : SendChatQueueDataInput → ℕ → String → CreateNotificationMessageInput
message_input input room_id content = record {
  chat_room_id = room_id;
  user_id = input.from_user_id;
  wallet_address = input.from_wallet_address;
  content = content;
  status = none;
}

-- `RoomActionTxService.createOne`
unfoldable pub create_room_action_tx : ℕ → String → ChatJobName → String → ℕ → Exec RoomActionTx
create_room_action_tx room_id address kind content message_id w =
    (ok (row w.action_txs.next_id), record w { action_txs = insert row w.action_txs })
  where
    row : ℕ → RoomActionTx
    row id = record {
      id = id;
      chat_room_id = room_id;
      message_id = message_id;
      wallet_address = address;
      status = MessageStatus.in_progress;
      kind = kind;
      content = content;
      created_at = w.env.now;
    }

-- `case LEAVE_ROOM`: one row, for the sender's own address.
unfoldable pub write_leave : SendChatQueueDataInput → ℕ → Exec ℕ
write_leave input room_id = do
  message ←
      create_notification_message
        (message_input input room_id (first_content input.message_contents))
  create_notification_tx room_id input.from_wallet_address input.job_name message.id
  pure message.id

-- `case CHANGE_GROUP_NAME`, `CREATE_GROUP_CHAT` and `REDEPLOY_GROUP_CHAT`.
unfoldable pub write_action : SendChatQueueDataInput → ChatJobName → ℕ → Exec ℕ
write_action input job_name room_id = do
  message ←
      create_action_type_message
        (message_input input room_id (first_content input.message_contents))
  create_room_action_tx room_id input.from_wallet_address job_name (or_else input.content "")
      message.id
  pure message.id

-- `createOne` for a receiver. `Promise.all` gets an array that holds the array of promises, so that it waits for
-- none of them, and what one throws is lost.
unfoldable pub notify_receiver : ℕ → ChatJobName → ℕ → String → Exec (Unit {0})
notify_receiver room_id job_name message_id address =
    not_awaited (do create_notification_tx room_id address job_name message_id; pure tt)

-- `case REMOVE_MEMBERS`, `ACCEPT_JOIN_GROUP`, `SET_ADMIN` and `REMOVE_ADMIN`: one row for each receiver.
unfoldable pub write_notifications : SendChatQueueDataInput → ℕ → Exec ℕ
write_notifications input room_id = do
  message ← create_notification_message (message_input input room_id "")
  for_each input.to_wallet_addresses (notify_receiver room_id input.job_name message.id)
  pure message.id

-- `input.jobName` after the switch, which renames a redeployment.
abbrev pub queued_job_name : ChatJobName → ChatJobName
queued_job_name ChatJobName.redeploy_group_chat = ChatJobName.create_group_chat
queued_job_name job_name = job_name

-- The `switch`; 0 for a job that writes nothing.
unfoldable pub write_records : SendChatQueueDataInput → ChatJobName → ℕ → Exec ℕ
write_records input ChatJobName.leave_room room_id = write_leave input room_id
write_records input ChatJobName.change_group_name room_id =
    write_action input ChatJobName.change_group_name room_id
write_records input ChatJobName.create_group_chat room_id =
    write_action input ChatJobName.create_group_chat room_id
write_records input ChatJobName.redeploy_group_chat room_id =
    write_action input ChatJobName.create_group_chat room_id
write_records input ChatJobName.remove_members room_id = write_notifications input room_id
write_records input ChatJobName.accept_join_group room_id = write_notifications input room_id
write_records input ChatJobName.set_admin room_id = write_notifications input room_id
write_records input ChatJobName.remove_admin room_id = write_notifications input room_id
write_records input _ room_id = pure 0

-- `input?.messageId || messageId`: 0 counts as no id.
abbrev pub job_message_id : Option ℕ → ℕ → ℕ
job_message_id none message_id = message_id
job_message_id (some given) message_id = if given == 0 then message_id else given

-- `input?.tokenAmount || 0`
abbrev input_amount : Option String → Option String
input_amount none = none
input_amount (some amount) = if amount == "" then none else some amount

-- `input?.tokenDecimal || 18`: 0 counts as left out.
abbrev pub input_decimal : Option ℕ → ℕ
input_decimal none = 18
input_decimal (some decimal) = if decimal == 0 then 18 else decimal

abbrev pub chat_job : SendChatQueueDataInput → ChatQueueData → ℕ → ChatJob
chat_job input queue_data message_id = record {
  kind = queued_job_name input.job_name;
  network_id = queue_data.network_id;
  from_wallet_id = queue_data.from_wallet_id;
  chat_room_id = queue_data.chat_room_id;
  fee_amount = queue_data.fee_amount;
  to_addresses = input.to_wallet_addresses;
  message_id = job_message_id input.message_id message_id;
  content = or_else input.content "";
  token_amount = input_amount input.token_amount;
  token_decimal = input_decimal input.token_decimal;
}

unfoldable pub send_chat_queue_data : SendChatQueueDataInput → Exec (Unit {0})
send_chat_queue_data input = do
  queue_data ← get_data_for_chat_queue input
  message_id ← write_records input input.job_name queue_data.chat_room_id
  modify (λ w. record w { chat_queue = w.chat_queue ++ chat_job input queue_data message_id ∷ [] })
