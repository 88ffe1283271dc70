-- ===== src/Tests/Payments.antt =====
-- src/jobs, src/message and src/room-notification-tx: fees, red packets and the end of what is in progress, run on
-- the small database.
use nestjs_ex.ChatHelper.{
  find_room_by_id, find_user_wallet_by_address, get_data_for_chat_queue, send_chat_queue_data,
  write_records,
}
use nestjs_ex.ChatHelper.Unlisted.{send_chat_queue_data-unlisted}
use nestjs_ex.Entities.{
  ChatJobName, ChatRoomStatus, Fee, Message, Network, UserToken, member_status_eq, room_status_eq,
}
use nestjs_ex.Member.{
  find_invited_or_joined_member_by_address, find_joined_member_by_user_id,
  find_room_member_with_status,
}
use nestjs_ex.Message.{save_message}
use nestjs_ex.Network.{
  get_by_id, get_network_fee_by_level, get_parent_network_by_chain_id, is_shared_networks,
}
use nestjs_ex.NetworkFee.{get_network_fees}
use nestjs_ex.NetworkFee.Update.{get_network_fee_by_level-updated, updated}
use nestjs_ex.Prelude.{
  List, String, [], false, find_first, includes, length, nat_eq, refl, some, text_eq, true, ℕ, ◌∷◌,
  ◌≡◌, ◌≤◌,
}
use nestjs_ex.RedPacket.{
  SendTokenChatInput, check_red_packet, find_user_wallet_by_address_and_user_id, get_token_by_id,
  red_packet_message, save_transaction, send_red_packet,
}
use nestjs_ex.RedPacket.Sent.{IsSent, send_red_packet-ok}
use nestjs_ex.RoomNotificationTx.{check_processing_addresses}
use nestjs_ex.RoomNotificationTx.Expiry.{check_processing_addresses-expires}
use nestjs_ex.Sender.{get_sender, get_user_for_send_message}
use nestjs_ex.Sending.{delivery, get_deployed_room_by_id}
use nestjs_ex.Tests.{locked0, room0, wallet0, world0}
use nestjs_ex.UserContacts.{is_valid_address}
use nestjs_ex.World.{World, at_time, err, network_not_shared, ok, ◌>>=◌}
use nestjs_ex.World.Refusal.{Refuses}

abbrev polygon0 : Network
polygon0 = record { id = 1; chain_id = "137"; rpc_endpoint = "rpc"; native_token_symbol = "MATIC" }

get_network_fee_by_level-updated_example :
    get_network_fee_by_level 1 "fast" (updated world0) ≡ (ok (Fee.quoted "75"), updated world0)
unfolding find_first get_parent_network_by_chain_id includes
get_network_fee_by_level-updated_example =
    get_network_fee_by_level-updated 1 world0 polygon0 "75" "36.3" "33" "75" "36.3" "33" refl refl
      refl refl refl refl refl

-- The networks, with one of Eurus and one that is not listed.
abbrev eurus0 : Network
eurus0 = record { id = 2; chain_id = "1984"; rpc_endpoint = "rpc"; native_token_symbol = "MATIC" }

abbrev ethereum0 : Network
ethereum0 = record { id = 3; chain_id = "1"; rpc_endpoint = "rpc"; native_token_symbol = "MATIC" }

abbrev pub token0 : UserToken
token0 = record {
  id = 1;
  user_id = 2;
  network_id = 2;
  token_name = "Eurus";
  token_symbol = "EUN";
  token_address = "0xe";
  token_decimal = 18;
}

abbrev pub networks0 : World
networks0 = record world0 {
  networks = polygon0 ∷ eurus0 ∷ ethereum0 ∷ [];
  tokens = record { rows = token0 ∷ []; next_id = 2 };
}

abbrev packet0 : SendTokenChatInput
packet0 = record {
  chat_room_id = 1;
  network_id = 2;
  amount = "5";
  to_address = "0xa";
  fee_level = "fast";
  token_id = 1;
}

abbrev announced0 : Message
announced0 =
    red_packet_message packet0 (record { id = 2; display_name = some "Bob"; address = "0xb" }) 1
      1000 2

abbrev after_packet : World
after_packet = (send_red_packet 2 packet0 networks0).1

sends_packet : send_red_packet 2 packet0 networks0 ≡ (ok announced0, after_packet)
unfolding send_red_packet get_sender get_user_for_send_message check_red_packet
    get_deployed_room_by_id find_joined_member_by_user_id find_room_member_with_status
    find_user_wallet_by_address_and_user_id get_by_id is_valid_address
    find_invited_or_joined_member_by_address get_token_by_id save_transaction save_message
    send_chat_queue_data get_data_for_chat_queue find_room_by_id find_user_wallet_by_address
    is_shared_networks get_network_fee_by_level get_network_fees get_parent_network_by_chain_id
    write_records find_first includes ◌>>=◌
sends_packet = refl

send_red_packet-ok_example : IsSent 2 packet0 networks0 after_packet announced0
send_red_packet-ok_example =
    send_red_packet-ok 2 packet0 networks0 after_packet announced0 sends_packet

-- The same with Bob's wallet on a network that is not shared with Eurus: the call is refused by the delivery, and the
-- transaction stays.
abbrev strange_wallet : World
strange_wallet = record networks0 {
  wallets = record { rows = record (wallet0 2 "0xb") { network_id = 3 } ∷ []; next_id = 5 };
}

strange_wallet_pays :
    ((send_red_packet 2 packet0 strange_wallet).0 ≡ err network_not_shared)
    × (length (send_red_packet 2 packet0 strange_wallet).1.transactions.rows ≡ 1)
unfolding send_red_packet get_sender get_user_for_send_message check_red_packet
    get_deployed_room_by_id find_joined_member_by_user_id find_room_member_with_status
    find_user_wallet_by_address_and_user_id get_by_id is_valid_address
    find_invited_or_joined_member_by_address get_token_by_id save_transaction save_message
    send_chat_queue_data get_data_for_chat_queue find_room_by_id find_user_wallet_by_address
    is_shared_networks get_network_fee_by_level get_network_fees get_parent_network_by_chain_id
    write_records find_first includes ◌>>=◌
strange_wallet_pays = (refl, refl)

-- Alice's message in a group on Ethereum.
abbrev on_ethereum : World
on_ethereum = record networks0 {
  rooms = record {
    rows = record (room0 1 true ChatRoomStatus.deployed) { network_id = 3 } ∷ [];
    next_id = 2;
  };
}

send_chat_queue_data-unlisted_example :
    Refuses on_ethereum
      (send_chat_queue_data (delivery 1 "0xa" (some "hi") 1 1 ChatJobName.send_message_to_group []))
unfolding find_first get_parent_network_by_chain_id includes
send_chat_queue_data-unlisted_example =
    send_chat_queue_data-unlisted
      (delivery 1 "0xa" (some "hi") 1 1 ChatJobName.send_message_to_group []) on_ethereum
      (record (room0 1 true ChatRoomStatus.deployed) { network_id = 3 }) refl
      (ethereum0, refl, refl)

check_processing_addresses-expires_example :
    (limit : ℕ) × ((t : ℕ)
      → limit ≤ t
      → (room_id : ℕ) (addresses : List String)
      → check_processing_addresses room_id addresses (at_time t locked0) ≡ false)
check_processing_addresses-expires_example = check_processing_addresses-expires locked0
