-- ===== src/Api/Payloads.antt =====
-- The red packets and the files of src/message/services/message.service.ts: neither writes the table
-- `member_in_room`.
use nestjs_ex.Api.Membership.{send_chat_queue_data-Lifecycle}
use nestjs_ex.Api.Messages.{add_to_upload_file_queue-Lifecycle, get_deployed_room_by_id-At}
use nestjs_ex.Api.Rooms.{get_sender-At, save_message-Lifecycle}
use nestjs_ex.ChatHelper.Frame.{get_by_id-At}
use nestjs_ex.Entities.{File, Transaction}
use nestjs_ex.FileMessage.{
  CreateFileMessageInput, check_room_is_deployed_and_in_supported_network, check_user_joined_room,
  create_file_message,
}
use nestjs_ex.Files.{
  MulterFile, construct_file, construct_ipfs_file, construct_local_file, construct_s3_file,
  create_file, s3_upload_file, save_file, upload_image,
}
use nestjs_ex.Member.Lifecycle.{At-same_members, Lifecycle}
use nestjs_ex.Network.{is_network_used_on_chat}
use nestjs_ex.Prelude.{String, refl, text_eq, ℕ, ◌==◌}
use nestjs_ex.RedPacket.{
  SendTokenChatInput, check_red_packet, get_token_by_id, save_transaction, send_red_packet,
}
use nestjs_ex.World.{World}
use nestjs_ex.World.Laws.{
  At, At-bind, At-gets, At-gets-bind, At-guard, At-guard-bind, At-if, At-need, At-need-bind,
  At-not_awaited, At-pure, At-raise, Frame,
}

check_red_packet-At :
    {F : Frame} {w : World} (user_id : ℕ) (address : String) (input : SendTokenChatInput)
    → At F w (check_red_packet user_id address input)
unfolding check_red_packet
check_red_packet-At user_id address input = At-bind _ _ (get_deployed_room_by_id-At _) λ room u.
    At-gets-bind _ _ (
      At-guard-bind _ _ _ λ joined. At-gets-bind _ _ (
        At-need-bind _ _ _ λ wallet e. At-bind _ _ (get_by_id-At _) λ network v.
          At-guard-bind _ _ _ λ eurus. At-gets-bind _ _ (
            At-guard-bind _ _ _
              λ valid. At-gets-bind _ _ (At-guard-bind _ _ _ λ known. At-pure _))))

get_token_by_id-At : {F : Frame} {w : World} (id : ℕ) → At F w (get_token_by_id id)
unfolding get_token_by_id
get_token_by_id-At id = At-gets-bind _ _ (At-need _ _)

save_transaction-Lifecycle :
    {w : World} (row : ℕ → Transaction) → At Lifecycle w (save_transaction row)
unfolding save_transaction
save_transaction-Lifecycle row = At-same_members _ refl

pub send_red_packet-Lifecycle :
    {w : World} (user_id : ℕ) (input : SendTokenChatInput)
    → At Lifecycle w (send_red_packet user_id input)
unfolding send_red_packet
send_red_packet-Lifecycle user_id input = At-bind _ _ (get_sender-At user_id) λ user u.
    At-bind _ _ (check_red_packet-At _ _ _) λ wallet v.
      At-bind _ _ (get_token_by_id-At _) λ token x. At-guard-bind _ _ _ λ same. At-gets-bind _ _ (
        At-bind _ _ (save_transaction-Lifecycle _) λ paid y.
          At-bind _ _ (save_message-Lifecycle _)
            λ message z. At-bind _ _ (send_chat_queue_data-Lifecycle _) λ _ s. At-pure _)

s3_upload_file-At :
    {F : Frame} {w : World} (file : MulterFile) (path : String) → At F w (s3_upload_file file path)
unfolding s3_upload_file
s3_upload_file-At file path =
    At-gets-bind _ _ (At-guard-bind _ _ _ λ named. At-gets-bind _ _ (At-need _ _))

upload_image-At :
    {F : Frame} {w : World} (file : MulterFile) (path : String) → At F w (upload_image file path)
unfolding upload_image
upload_image-At file path =
    At-gets-bind _ _
      (At-guard-bind _ _ _ λ named. At-gets-bind _ _ (At-guard-bind _ _ _ λ done. At-pure _))

construct_file-At :
    {F : Frame} {w : World} (user_id : ℕ) (file : MulterFile) (path strategy : String)
    → At F w (construct_file user_id file path strategy)
unfolding construct_file construct_local_file construct_s3_file construct_ipfs_file
construct_file-At user_id file path strategy =
    At-if (strategy == "local")
      (λ _. At-bind _ _ (upload_image-At _ _) λ stored u. At-gets-bind _ _ (At-pure _))
      (λ _.
        At-if (strategy == "s3") (λ _. At-bind _ _ (s3_upload_file-At _ _) λ stored u. At-pure _)
          (λ _.
            At-if (strategy == "ipfs")
              (λ _. At-gets-bind _ _ (At-need-bind _ _ _ λ stored e. At-pure _)) (λ _. At-raise _)))

save_file-Lifecycle : {w : World} (row : ℕ → File) → At Lifecycle w (save_file row)
unfolding save_file
save_file-Lifecycle row = At-same_members _ refl

create_file-Lifecycle :
    {w : World} (user_id : ℕ) (file : MulterFile) (path : String)
    → At Lifecycle w (create_file user_id file path)
unfolding create_file
create_file-Lifecycle user_id file path = At-gets-bind _ _ (
    At-bind _ _ (construct_file-At _ _ _ _)
      λ row u. At-bind _ _ (save_file-Lifecycle _) λ saved v. At-pure _)

check_room-At :
    {F : Frame} {w : World} (id : ℕ) → At F w (check_room_is_deployed_and_in_supported_network id)
unfolding check_room_is_deployed_and_in_supported_network is_network_used_on_chat
check_room-At id = At-gets-bind _ _ (
    At-need-bind _ _ _ λ room e. At-guard-bind _ _ _ λ deployed.
      At-bind _ _ (At-bind _ _ (get_by_id-At _) λ network u. At-gets _) λ used v. At-guard _ _)

check_user_joined_room-At :
    {F : Frame} {w : World} (user_id room_id : ℕ) → At F w (check_user_joined_room user_id room_id)
unfolding check_user_joined_room
check_user_joined_room-At user_id room_id = At-gets-bind _ _ (At-guard _ _)

pub create_file_message-Lifecycle :
    {w : World} (user_id : ℕ) (input : CreateFileMessageInput) (file : MulterFile)
    → At Lifecycle w (create_file_message user_id input file)
unfolding create_file_message
create_file_message-Lifecycle user_id input file = At-bind _ _ (get_sender-At user_id) λ user u.
    At-bind _ _ (check_room-At _) λ _ v. At-bind _ _ (check_user_joined_room-At _ _) λ _ x.
      At-gets-bind _ _ (
        At-bind _ _ (create_file-Lifecycle _ _ _) λ file_id y.
          At-bind _ _ (save_message-Lifecycle _) λ message z.
            At-bind _ _ (At-not_awaited _ (add_to_upload_file_queue-Lifecycle _ _ _ _ _))
              λ _ s. At-pure _)
