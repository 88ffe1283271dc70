-- ===== src/RedPacket.antt =====
-- src/message/services/message.service.ts, lines 1170 to 1312: a red packet, which a message of the room
-- announces and a transaction pays.
pub mod Sent
use nestjs_ex.ChatHelper.{SendChatQueueDataInput, send_chat_queue_data}
use nestjs_ex.Entities.{
  ChatJobName, Message, MessageStatus, MessageType, Transaction, TransactionStatus, TransactionType,
  UserToken, UserWallet, member_status_eq, message_status_eq, message_type_eq,
}
use nestjs_ex.Member.{find_invited_or_joined_member_by_address, find_joined_member_by_user_id}
use nestjs_ex.Message.{save_message}
use nestjs_ex.Network.{get_by_id}
use nestjs_ex.Prelude.{
  List, Option, String, [], false, find_first, includes, is_some, nat_eq, none, some, text_eq, ℕ,
  ◌&&◌, ◌==◌, ◌∷◌,
}
use nestjs_ex.Sender.{Sender, get_sender}
use nestjs_ex.Sending.{get_deployed_room_by_id, number_of_txs}
use nestjs_ex.Store.{insert}
use nestjs_ex.UserContacts.{is_valid_address}
use nestjs_ex.World.{
  Env, Exec, World, address_not_valid, gets, guard, need, no_red_packet_on_network, ok, pure,
  receiver_not_in_room, token_not_found, user_not_in_room, wallet_not_found, ◌>>=◌, ◌>>◌,
}

-- `SendTokenChatInput`
pub record SendTokenChatInput : Type 0 where
  pub chat_room_id : ℕ
  pub network_id : ℕ
  pub amount : String
  pub to_address : String
  pub fee_level : String
  pub token_id : ℕ

-- `UserWalletService.findUserWalletByAddressAndUserId`
unfoldable pub find_user_wallet_by_address_and_user_id : String → ℕ → World → Option UserWallet
find_user_wallet_by_address_and_user_id address user_id w =
    find_first (λ x. (w.env.lower x.address == w.env.lower address) && (x.user_id == user_id))
      w.wallets.rows

-- `NETWORK_CHAINS.eurus`
abbrev pub red_packet_chains : List String
red_packet_chains = "1984" ∷ "1008" ∷ []

-- `UserTokenService.getTokenById`
unfoldable pub get_token_by_id : ℕ → Exec UserToken
get_token_by_id id = do
  found ← gets (λ w. find_first (λ t. t.id == id) w.tokens.rows)
  need found token_not_found

abbrev pub red_packet : SendTokenChatInput → Sender → UserWallet → UserToken → Env → ℕ → Transaction
red_packet input user wallet token env id = record {
  id = id;
  kind = TransactionType.withdraw_red_packet;
  user_id = user.id;
  user_wallet_id = wallet.id;
  network_id = input.network_id;
  tx_hash = none;
  blockchain_tx_id = none;
  from_address = user.address;
  to_address = input.to_address;
  token_symbol = some token.token_symbol;
  token_address = some token.token_address;
  fee_level = some input.fee_level;
  amount = env.raw_amount input.amount token.token_decimal;
  memo_code = none;
  transaction_status = TransactionStatus.pending;
  created_at = env.now;
  updated_at = env.now;
}

-- `TransactionService.saveTransaction`
unfoldable pub save_transaction : (ℕ → Transaction) → Exec Transaction
save_transaction row w =
    (ok (row w.transactions.next_id), record w { transactions = insert row w.transactions })

abbrev pub red_packet_message : SendTokenChatInput → Sender → ℕ → ℕ → ℕ → Message
red_packet_message input user transaction_id now id = record {
  id = id;
  chat_room_id = input.chat_room_id;
  user_id = user.id;
  wallet_address = user.address;
  reply_to = none;
  kind = MessageType.send_token;
  content = none;
  is_pinned = false;
  status = MessageStatus.in_progress;
  transaction_id = some transaction_id;
  number_of_txs = 1;
  file_info = none;
  retry_at = some now;
  created_at = now;
  updated_at = now;
}

abbrev pub red_packet_delivery :
    SendTokenChatInput → Sender → UserToken → ℕ → SendChatQueueDataInput
red_packet_delivery input user token message_id = record {
  room_id = input.chat_room_id;
  from_user_id = user.id;
  from_wallet_address = user.address;
  to_wallet_addresses = input.to_address ∷ [];
  message_contents = [];
  job_name = ChatJobName.send_red_packet;
  content = none;
  message_id = some message_id;
  token_amount = some input.amount;
  token_decimal = some token.token_decimal;
}

-- The checks between the sender's and the token's. The promise of `isSharedNetworks` is not awaited, and `!` of
-- a promise is false, so a wallet of any network passes.
unfoldable pub check_red_packet : ℕ → String → SendTokenChatInput → Exec UserWallet
check_red_packet user_id address input = do
  get_deployed_room_by_id input.chat_room_id
  joined ← gets (find_joined_member_by_user_id user_id input.chat_room_id)
  guard (is_some joined) user_not_in_room
  found ← gets (find_user_wallet_by_address_and_user_id address user_id)
  wallet ← need found wallet_not_found
  network ← get_by_id input.network_id
  guard (includes red_packet_chains network.chain_id) no_red_packet_on_network
  is_address ← gets (is_valid_address input.to_address)
  guard is_address address_not_valid
  receiver ← gets (find_invited_or_joined_member_by_address input.to_address input.chat_room_id)
  guard (is_some receiver) receiver_not_in_room
  pure wallet

unfoldable pub send_red_packet : ℕ → SendTokenChatInput → Exec Message
send_red_packet user_id input = do
  user ← get_sender user_id
  wallet ← check_red_packet user_id user.address input
  token ← get_token_by_id input.token_id
  guard (token.network_id == input.network_id) token_not_found
  env ← gets (λ w. w.env)
  paid ← save_transaction (red_packet input user wallet token env)
  message ← save_message (red_packet_message input user paid.id env.now)
  send_chat_queue_data (red_packet_delivery input user token message.id)
  pure message
