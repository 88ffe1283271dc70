-- ===== src/History/Parts.antt =====
-- src/transaction/services/transaction.service.ts, lines 647 to 738: the query of the history of a user on a network.
use nestjs_ex.Acl.{action_eq}
use nestjs_ex.Entities.{
  BlockchainTx, BlockchainTxStatus, ChatJobName, HistoryTitle, Message, MessageStatus, MessageType,
  Network, RefTable, RoomActionTx, RoomNotificationTx, Transaction, TransactionStatus,
  TransactionType, history_title_beq, member_status_eq, message_status_beq, message_status_eq,
  message_type_eq, ref_table_beq,
}
use nestjs_ex.Prelude.{
  Bool, List, Option, String, [], any, concat_map, distinct_rows, drop, false, if◌then◌else◌,
  is_some, left_join, map, nat_eq, newest_first, none, not, select, some, take, text_eq, true, ℕ,
  ◌&&◌, ◌++◌, ◌==◌, ◌∷◌,
}
use nestjs_ex.World.{World}

--

-- A row of the query, NULL as `none`.
pub record HistoryRow : Type 0 where
  pub status : Option MessageStatus
  pub amount : Option String
  pub token_symbol : Option String
  pub token_address : Option String
  pub created_at : ℕ
  pub title : Option HistoryTitle
  pub kind : RefTable
  pub ref_id : ℕ

-- The first `case` of the query.
abbrev pub status_of_transaction : TransactionStatus → MessageStatus
status_of_transaction TransactionStatus.pending = MessageStatus.in_progress
status_of_transaction TransactionStatus.sent = MessageStatus.in_progress
status_of_transaction TransactionStatus.success = MessageStatus.completed
status_of_transaction TransactionStatus.completed = MessageStatus.completed
status_of_transaction TransactionStatus.failed = MessageStatus.failed
status_of_transaction TransactionStatus.retrying = MessageStatus.in_progress
status_of_transaction TransactionStatus.pending_retry = MessageStatus.in_progress

-- The `case` of the second part, NULL where no branch fits.
abbrev pub status_of_received : TransactionStatus → Option MessageStatus
status_of_received TransactionStatus.success = some MessageStatus.completed
status_of_received TransactionStatus.completed = some MessageStatus.completed
status_of_received _ = none

abbrev pub title_of_transaction : TransactionType → HistoryTitle
title_of_transaction TransactionType.deposit = HistoryTitle.recive
title_of_transaction _ = HistoryTitle.send

abbrev pub is_completed : TransactionStatus → Bool
is_completed TransactionStatus.completed = true
is_completed TransactionStatus.success = true
is_completed _ = false

abbrev transaction_row : Option MessageStatus → HistoryTitle → Transaction → HistoryRow
transaction_row status title t = record {
  status = status;
  amount = some t.amount;
  token_symbol = t.token_symbol;
  token_address = t.token_address;
  created_at = t.created_at;
  title = some title;
  kind = RefTable.of_transaction;
  ref_id = t.id;
}

-- A message that names the transaction.
abbrev names : Transaction → Message → Bool
names t m = elim m.transaction_id [ none ↦ false | some id ↦ id == t.id ]

-- The caller's own transactions on the network that no message names.
abbrev pub is_own : ℕ → ℕ → World → Transaction → Bool
is_own user_id network_id w t =
    (t.user_id == user_id) && (t.network_id == network_id) && not (any (names t) w.messages.rows)

-- `lower(toAddress) in (select lower(address) …)`
abbrev pub is_to_wallet_of : ℕ → World → String → Bool
is_to_wallet_of user_id w address =
    any
      (λ x. (x.user_id == user_id) && w.env.same_text (w.env.lower address) (w.env.lower x.address))
      w.wallets.rows

-- Completed transactions of others to a wallet of the caller.
abbrev pub is_received : ℕ → ℕ → World → Transaction → Bool
is_received user_id network_id w t =
    is_to_wallet_of user_id w t.to_address
    && is_completed t.transaction_status
    && not (t.user_id == user_id)
    && (t.network_id == network_id)

abbrev pub own_row : Transaction → HistoryRow
own_row t =
    transaction_row (some (status_of_transaction t.transaction_status))
      (title_of_transaction t.kind) t

abbrev pub received_row : Transaction → HistoryRow
received_row t = transaction_row (status_of_received t.transaction_status) HistoryTitle.recive t

unfoldable pub own_rows : ℕ → ℕ → World → List HistoryRow
own_rows user_id network_id w =
    map own_row (select (is_own user_id network_id w) w.transactions.rows)

unfoldable pub received_rows : ℕ → ℕ → World → List HistoryRow
received_rows user_id network_id w =
    map received_row (select (is_received user_id network_id w) w.transactions.rows)

abbrev title_of_notification : Option RoomNotificationTx → Option HistoryTitle
title_of_notification none = none
title_of_notification (some tx) = elim tx.kind [
  | ChatJobName.accept_join_group ↦ some HistoryTitle.add_member
  | ChatJobName.remove_members ↦ some HistoryTitle.remove_member
  | ChatJobName.leave_room ↦ some HistoryTitle.leave_group
  | ChatJobName.remove_admin ↦ some HistoryTitle.remove_admin
  | ChatJobName.set_admin ↦ some HistoryTitle.set_admin
  | _ ↦ none
]

abbrev title_of_action : Option RoomActionTx → Option HistoryTitle
title_of_action none = none
title_of_action (some tx) = elim tx.kind [
  | ChatJobName.create_group_chat ↦ some HistoryTitle.create_group_chat
  | ChatJobName.change_group_name ↦ some HistoryTitle.change_group_name
  | _ ↦ none
]

abbrev pub title_of_message :
    MessageType → Option RoomActionTx → Option RoomNotificationTx → Option HistoryTitle
title_of_message MessageType.text action notification = some HistoryTitle.send_message
title_of_message MessageType.attachments action notification = some HistoryTitle.send_multimedia
title_of_message MessageType.image action notification = some HistoryTitle.send_multimedia
title_of_message MessageType.video action notification = some HistoryTitle.send_multimedia
title_of_message MessageType.voice_record action notification = some HistoryTitle.send_multimedia
title_of_message MessageType.file action notification = some HistoryTitle.send_multimedia
title_of_message MessageType.send_token action notification = some HistoryTitle.send_red_packet
title_of_message MessageType.room_notification action notification =
    title_of_notification notification
title_of_message MessageType.room_action action notification = title_of_action action
title_of_message MessageType.system action notification = none

-- The rows of `blockchainTx` for a message.
abbrev pub chain_txs_of : World → Message → List BlockchainTx
chain_txs_of w m =
    select (λ b. (b.ref_id == m.id) && ref_table_beq b.ref_table RefTable.of_message)
      w.blockchain_txs.rows

-- `max(txStatus) = 'verified'`: the greater of the two words.
abbrev pub is_verified : List BlockchainTx → Bool
is_verified = any (λ b. elim b.tx_status [
  | BlockchainTxStatus.verified ↦ true
  | BlockchainTxStatus.unverified ↦ false
])

abbrev pub status_of_message : Message → List BlockchainTx → MessageStatus
status_of_message m txs = elim m.status [
  | MessageStatus.hidden ↦ if is_verified txs then MessageStatus.completed else MessageStatus.failed
  | status ↦ status
]

-- A group of no rows is not there, and its sum is NULL.
abbrev amount_of_message : World → List BlockchainTx → Option String
amount_of_message w [] = none
amount_of_message w (b ∷ bs) = w.env.sum_of_fees (map (λ x. x.fee_amount) (b ∷ bs))

abbrev pub message_row :
    World → Network → Message → Option RoomActionTx → Option RoomNotificationTx → HistoryRow
message_row w network m action notification = record {
  status = some (status_of_message m (chain_txs_of w m));
  amount = amount_of_message w (chain_txs_of w m);
  token_symbol = some network.native_token_symbol;
  token_address = none;
  created_at = m.created_at;
  title = title_of_message m.kind action notification;
  kind = RefTable.of_message;
  ref_id = m.id;
}

-- The rows of a message, one for each pair of what the two left joins give it.
abbrev pub rows_of_message : World → Network → Message → List HistoryRow
rows_of_message w network m =
    concat_map
      (λ action.
        map (message_row w network m action)
          (left_join (select (λ x. x.message_id == m.id) w.notification_txs.rows)))
      (left_join (select (λ x. x.message_id == m.id) w.action_txs.rows))

-- The inner joins: the room of the message, on the network.
abbrev pub is_in_room_on : ℕ → World → Message → Bool
is_in_room_on network_id w m =
    any (λ r. (r.id == m.chat_room_id) && (r.network_id == network_id)) w.rooms.rows

unfoldable pub message_rows : ℕ → Network → World → List HistoryRow
message_rows user_id network w =
    concat_map (rows_of_message w network)
      (select (λ m. (m.user_id == user_id) && is_in_room_on network.id w m) w.messages.rows)

abbrev pub same_option : {A : Type 0} → (A → A → Bool) → Option A → Option A → Bool
same_option same none none = true
same_option same (some a) (some b) = same a b
same_option same none (some b) = false
same_option same (some a) none = false

-- The columns that `union` compares.
abbrev pub same_row : World → HistoryRow → HistoryRow → Bool
same_row w a b =
    same_option message_status_beq a.status b.status
    && same_option w.env.same_text a.amount b.amount
    && same_option w.env.same_text a.token_symbol b.token_symbol
    && same_option w.env.same_text a.token_address b.token_address
    && (a.created_at == b.created_at)
    && same_option history_title_beq a.title b.title
    && ref_table_beq a.kind b.kind
    && (a.ref_id == b.ref_id)

-- The three parts, `union`
abbrev pub history_parts : ℕ → Network → World → List HistoryRow
history_parts user_id network w = distinct_rows (same_row w) (
    own_rows user_id network.id w
    ++ (received_rows user_id network.id w ++ message_rows user_id network w))

-- The whole query.
unfoldable pub history_rows : ℕ → Network → ℕ → ℕ → World → List HistoryRow
history_rows user_id network page_size skipped w = take page_size (
    drop skipped (
      newest_first (λ r. r.created_at)
        (select (λ r. is_some r.title) (history_parts user_id network w))))
