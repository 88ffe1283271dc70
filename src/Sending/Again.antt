-- ===== src/Sending/Again.antt =====
-- src/message/services/message.service.ts, lines 943 to 1036 and 1396 to 1447: sending a failed message
-- again, and the upload of a file that has not reached IPFS.
use nestjs_ex.ChatHelper.{get_data_for_chat_queue}
use nestjs_ex.Entities.{
  ChatJobName, Message, MessageStatus, MessageType, member_status_eq, message_status_eq,
  message_type_eq,
}
use nestjs_ex.Member.{find_opposite_member}
use nestjs_ex.Message.{find_message_by_id}
use nestjs_ex.Prelude.{
  Bool, List, Option, String, [], false, if◌then◌else◌, includes, nat_eq, none, some, text_eq, true,
  ℕ, ◌++◌, ◌==◌, ◌∷◌,
}
use nestjs_ex.Sender.{get_sender, truthy}
use nestjs_ex.Sending.{deliver, delivery, get_deployed_room_by_id, update_message}
use nestjs_ex.World.{
  Env, Exec, gets, guard, message_not_failed, message_not_found, message_not_yours, modify, need,
  not_awaited, pure, type_error, ◌>>=◌, ◌>>◌,
}

-- `MESSAGE_FILE_TYPE.includes(type)`
abbrev pub message_file_types : List MessageType
message_file_types =
    MessageType.attachments ∷ MessageType.image ∷ MessageType.video ∷ MessageType.voice_record
    ∷ MessageType.file ∷ []

-- The row that `resendMessage` writes.
abbrev pub resent : Message → ℕ → Message
resent m now = record m {
  status = MessageStatus.in_progress;
  updated_at = now;
  retry_at = some now;
}

-- `getReceiversAddresses`
unfoldable pub get_receivers_addresses : ℕ → ℕ → Bool → Exec (List String)
get_receivers_addresses user_id room_id true = pure []
get_receivers_addresses user_id room_id false = do
  found ← gets (find_opposite_member user_id room_id)
  other ← need found type_error
  pure (other.wallet_address ∷ [])

abbrev message_job : Bool → ChatJobName
message_job is_group =
    if is_group then ChatJobName.send_message_to_group else ChatJobName.send_message_to_peer

-- `addToUploadFileQueue`
unfoldable pub add_to_upload_file_queue : ℕ → String → ℕ → ℕ → ℕ → Exec (Unit {0})
add_to_upload_file_queue user_id address room_id message_id file_id = do
  queue_data ←
      get_data_for_chat_queue
        (delivery user_id address none room_id message_id ChatJobName.send_message_to_group [])
  receivers ← get_receivers_addresses user_id room_id queue_data.is_group
  modify (λ w. record w {
    encrypt_file_queue =
        w.encrypt_file_queue
        ++ record {
          message_id = message_id;
          chat_room_id = room_id;
          file_id = file_id;
          user_id = user_id;
          network_id = queue_data.network_id;
          from_wallet_id = queue_data.from_wallet_id;
          fee_amount = queue_data.fee_amount;
          message_job = message_job queue_data.is_group;
          to_wallet_addresses = receivers;
        }
          ∷ [];
  })

-- The file that a failed message still has to upload: its content is then the number of a file.
abbrev number_of_content : Env → Option String → Option ℕ
number_of_content env none = none
number_of_content env (some content) = env.to_number content

abbrev pub file_to_upload : Env → Message → Option ℕ
file_to_upload env m =
    if includes message_file_types m.kind then number_of_content env (truthy m.content) else none

-- What `resendMessage` does after its write. For a file to upload it returns `undefined`.
unfoldable pub deliver_again :
    ℕ → String → Message → Message → Bool → Option ℕ → Exec (Option Message)
deliver_again user_id address old updated is_group (some file_id) = do
  not_awaited (add_to_upload_file_queue user_id address old.chat_room_id old.id file_id)
  pure none
deliver_again user_id address old updated is_group none = do
  deliver is_group user_id updated.wallet_address updated.content updated.chat_room_id updated.id
  pure (some updated)

unfoldable pub resend_message : ℕ → ℕ → Exec (Option Message)
resend_message user_id id = do
  user ← get_sender user_id
  stored ← gets (find_message_by_id id)
  old ← need stored message_not_found
  guard (old.status == MessageStatus.failed) message_not_failed
  guard (old.user_id == user_id) message_not_yours
  room ← get_deployed_room_by_id old.chat_room_id
  env ← gets (λ w. w.env)
  update_message (resent old env.now)
  deliver_again user_id user.address old (resent old env.now) room.is_group (file_to_upload env old)
