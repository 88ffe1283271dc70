-- ===== src/Tests/Messages.antt =====
-- Runs of the message, block and report services.
use nestjs_ex.ChatHelper.{
  find_room_by_id, find_user_wallet_by_address, get_data_for_chat_queue, send_chat_queue_data,
  write_records,
}
use nestjs_ex.Entities.{
  ChatRoom, ChatRoomStatus, MemberInRoom, Message, MessageStatus, MessageType, UserBlock,
  member_status_eq, message_status_eq, message_type_eq, room_status_eq,
}
use nestjs_ex.Member.{find_joined_member_by_user_id, find_room_member_with_status}
use nestjs_ex.Message.{find_message_by_id, save_message}
use nestjs_ex.Moderation.{
  AddSpamReportInput, add_remove_message, add_spam_report, find_removed, find_report, removed_row,
  report_row,
}
use nestjs_ex.Network.{
  get_by_id, get_network_fee_by_level, get_parent_network_by_chain_id, is_shared_networks,
}
use nestjs_ex.NetworkFee.{get_network_fees}
use nestjs_ex.Prelude.{
  String, [], false, find_first, includes, nat_eq, none, refl, some, text_eq, true, ℕ, ◌++◌, ◌==◌,
  ◌∷◌, ◌≡◌, ◌≢◌, ◌⊎◌,
}
use nestjs_ex.Sender.{Sender, get_sender, get_user_for_send_message}
use nestjs_ex.Sending.{
  SendMessageInput, deliver, get_deployed_room_by_id, number_of_txs, send_message, sent_message,
  update_message,
}
use nestjs_ex.Sending.Again.{deliver_again, resend_message, resent}
use nestjs_ex.Sending.Delivery.{resend_message-ok, send_message-ok}
use nestjs_ex.Store.{update_where}
use nestjs_ex.Tests.{message0, room0, world0}
use nestjs_ex.UserBlocks.{
  BlockInput, UnblockInput, block_user, find_block_back, is_room_of_pair, save_block, unblock_user,
  update_p2p_chat_room_status,
}
use nestjs_ex.UserBlocks.Pair.{block_user-closes}
use nestjs_ex.UserBlocks.Release.{own_block, unblock_user-rooms}
use nestjs_ex.World.{World, ok, transaction, ◌>>=◌}
use nestjs_ex.World.Refusal.{Refuses}

abbrev input0 : ℕ → SendMessageInput
input0 room_id = record {
  chat_room_id = room_id;
  reply_to = none;
  kind = some MessageType.text;
  content = some "hi";
  content_length = 2;
}

abbrev bob_sends : Sender
bob_sends = record { id = 2; display_name = some "Bob"; address = "0xb" }

abbrev sent0 : Message
sent0 = sent_message (input0 1) MessageType.text bob_sends 1000 2

abbrev after_send : World
after_send = (send_message 2 (input0 1) world0).1

sends_once : send_message 2 (input0 1) world0 ≡ (ok sent0, after_send)
unfolding send_message get_sender get_user_for_send_message find_first get_deployed_room_by_id
    find_joined_member_by_user_id find_room_member_with_status save_message number_of_txs deliver
    send_chat_queue_data get_data_for_chat_queue find_room_by_id find_user_wallet_by_address
    is_shared_networks get_network_fee_by_level get_network_fees get_by_id
    get_parent_network_by_chain_id includes write_records ◌>>=◌
sends_once = refl

send_message-ok_example :
    ((room : ChatRoom) × (find_first (λ r. r.id == 1) world0.rooms.rows ≡ some room)
      × (room.status ≡ ChatRoomStatus.deployed))
    × ((joined : MemberInRoom) × (find_joined_member_by_user_id 2 1 world0 ≡ some joined))
    × (some MessageType.text ≡ some sent0.kind)
    × (sent0.status ≡ MessageStatus.in_progress)
    × (sent0.user_id ≡ 2)
    × (sent0.chat_room_id ≡ 1)
    × (sent0.content ≡ some "hi")
    × (after_send.messages.rows ≡ world0.messages.rows ++ sent0 ∷ [])
send_message-ok_example = send_message-ok 2 (input0 1) world0 after_send sent0 sends_once

failed_is_found :
    find_first (λ r. r.id == 3) world0.rooms.rows ≡ some (room0 3 true ChatRoomStatus.failed)
unfolding find_first
failed_is_found = refl

failed_is_not_deployed : ChatRoomStatus.failed ≢ ChatRoomStatus.deployed
failed_is_not_deployed e = cc e

abbrev block0 : String → BlockInput
block0 address = record { address = address; report_content = none; kind = none }

abbrev after_block : World
after_block = (block_user 1 (block0 "0xb") world0).1

blocks_bob : block_user 1 (block0 "0xb") world0 ≡ (some true, after_block)
unfolding block_user transaction save_block find_first find_user_wallet_by_address
    update_p2p_chat_room_status ◌>>=◌
blocks_bob = refl

blocked_room_is_found :
    find_first (λ r. r.id == 2) after_block.rooms.rows ≡ some (room0 2 false ChatRoomStatus.blocked)
unfolding block_user transaction save_block find_first find_user_wallet_by_address
    update_p2p_chat_room_status update_where ◌>>=◌
blocked_room_is_found = refl

blocked_room_is_of_pair :
    is_room_of_pair after_block 1 "0xb" (room0 2 false ChatRoomStatus.blocked) ≡ true
unfolding block_user transaction save_block find_first find_user_wallet_by_address
    update_p2p_chat_room_status ◌>>=◌
blocked_room_is_of_pair = refl

block_user-closes_example :
    (ChatRoomStatus.blocked ≡ ChatRoomStatus.blocked)
    × ((sender_id : ℕ) (m : SendMessageInput)
        → m.chat_room_id ≡ 2
        → Refuses after_block (send_message sender_id m))
block_user-closes_example =
    block_user-closes 1 (block0 "0xb") world0 after_block blocks_bob 2
      (room0 2 false ChatRoomStatus.blocked) blocked_room_is_found blocked_room_is_of_pair

abbrev after_failure : World
after_failure = (block_user 1 (block0 "0xe") world0).1

blocks_nobody : block_user 1 (block0 "0xe") world0 ≡ (none, after_failure)
unfolding block_user transaction save_block find_first find_user_wallet_by_address
    update_p2p_chat_room_status ◌>>=◌
blocks_nobody = refl

abbrev after_hiding : World
after_hiding = (add_remove_message 1 1 world0).1

hides_once : add_remove_message 1 1 world0 ≡ (ok (removed_row 1 1 1), after_hiding)
unfolding add_remove_message find_message_by_id find_first find_joined_member_by_user_id
    find_room_member_with_status find_removed ◌>>=◌
hides_once = refl

abbrev report0 : String → AddSpamReportInput
report0 content = record { message_id = 1; content = content }

abbrev after_report : World
after_report = (add_spam_report 1 (report0 "spam") world0).1

reports_once :
    add_spam_report 1 (report0 "spam") world0 ≡ (ok (report_row 1 (report0 "spam") 1), after_report)
unfolding add_spam_report find_message_by_id find_first find_joined_member_by_user_id
    find_room_member_with_status find_report ◌>>=◌
reports_once = refl

abbrev failed0 : Message
failed0 = record message0 { status = MessageStatus.failed }

abbrev failed_world : World
failed_world = record world0 { messages = record { rows = failed0 ∷ []; next_id = 2 } }

abbrev after_resend : World
after_resend = (resend_message 2 1 failed_world).1

resends_once : resend_message 2 1 failed_world ≡ (ok (some (resent failed0 1000)), after_resend)
unfolding resend_message get_sender get_user_for_send_message find_first find_message_by_id
    get_deployed_room_by_id update_message deliver_again deliver send_chat_queue_data
    get_data_for_chat_queue find_room_by_id find_user_wallet_by_address is_shared_networks
    get_network_fee_by_level get_network_fees get_by_id get_parent_network_by_chain_id includes
    write_records ◌>>=◌
resends_once = refl

resend_message-ok_example :
    (old : Message) × (find_message_by_id 1 failed_world ≡ some old)
    × (old.status ≡ MessageStatus.failed)
    × (old.user_id ≡ 2)
    × ((room : ChatRoom) × (find_first (λ r. r.id == old.chat_room_id) failed_world.rooms.rows
          ≡ some room)
        × (room.status ≡ ChatRoomStatus.deployed))
resend_message-ok_example =
    resend_message-ok 2 1 failed_world after_resend (some (resent failed0 1000)) resends_once

abbrev unblock0 : UnblockInput
unblock0 = record { address = "0xb"; request_address = "0xa" }

unblock_user-rooms_example :
    ((unblock_user 1 unblock0 after_block).1.rooms ≡ after_block.rooms)
    ⊎ ((b : UserBlock) × (own_block 1 unblock0 after_block ≡ some b)
        × (find_block_back 1 unblock0 b (unblock_user 1 unblock0 after_block).1 ≡ none))
unblock_user-rooms_example = unblock_user-rooms 1 unblock0 after_block
