-- ===== src/History.antt =====
-- src/transaction/services/transaction.service.ts, lines 632 to 791: the history of a user on a network, by the
-- query of `getMesssageAndTransactionHistory` and the changes to its rows.
pub mod Parts
pub mod Rows
pub mod Detail
pub mod Opened
pub mod Agreement
pub mod Complete
pub mod Shown
use nestjs_ex.Entities.{
  HistoryTitle, MessageStatus, RefTable, UserToken, member_status_eq, message_status_eq,
  message_type_eq,
}
use nestjs_ex.History.Parts.{HistoryRow, history_rows}
use nestjs_ex.Network.{get_by_id}
use nestjs_ex.Prelude.{
  Bool, List, Option, String, false, find_first, map, nat_eq, none, select, some, text_eq, ℕ, ◌==◌,
}
use nestjs_ex.World.{Exec, World, gets, ◌>>=◌, ◌>>◌}

-- `HistoryListOutput`
pub record HistoryListOutput : Type 0 where
  pub ref_id : ℕ
  pub status : Option MessageStatus
  pub amount : Option String
  pub token_symbol : Option String
  pub created_at : ℕ
  pub title : Option HistoryTitle
  pub title_key : Option String
  pub kind : RefTable

abbrev pub displayed_status : Option MessageStatus → Option MessageStatus
displayed_status (some MessageStatus.pending_retry) = some MessageStatus.in_progress
displayed_status (some MessageStatus.retrying) = some MessageStatus.in_progress
displayed_status status = status

-- `x.tokenSymbol.toLowerCase() == e.tokenSymbol?.toLowerCase()`
abbrev pub same_symbol : World → Option String → UserToken → Bool
same_symbol w none token = false
same_symbol w (some symbol) token =
    w.env.to_lower_case token.token_symbol == w.env.to_lower_case symbol

abbrev displayed_amount : World → List UserToken → HistoryRow → Option String
displayed_amount w tokens r = elim r.kind [
  | RefTable.of_message ↦ r.amount
  | RefTable.of_transaction ↦ elim (find_first (same_symbol w r.token_symbol) tokens) [
    | some token ↦ some (w.env.format_point r.amount token.token_decimal)
    | none ↦ some ""
  ]
]

-- The key of the title in `HISTORY_TITLE`
abbrev pub title_key : HistoryTitle → String
title_key HistoryTitle.received = "RECIVED"
title_key HistoryTitle.sent = "SENT"
title_key HistoryTitle.recive = "RECIVE"
title_key HistoryTitle.send = "SEND"
title_key HistoryTitle.add_member = "ADD_MEMBER"
title_key HistoryTitle.remove_member = "REMOVE_MEMBER"
title_key HistoryTitle.leave_group = "LEAVE_GROUP"
title_key HistoryTitle.remove_admin = "REMOVE_ADMIN"
title_key HistoryTitle.set_admin = "SET_ADMIN"
title_key HistoryTitle.create_group_chat = "CREATE_GROUP_CHAT"
title_key HistoryTitle.change_group_name = "CHANGE_GROUP_NAME"
title_key HistoryTitle.send_message = "SEND_MESSAGE"
title_key HistoryTitle.send_attachment = "SEND_ATTACHMENT"
title_key HistoryTitle.send_image = "SEND_IMAGE"
title_key HistoryTitle.send_video = "SEND_VIDEO"
title_key HistoryTitle.send_voice_record = "SEND_VOICE_RECORD"
title_key HistoryTitle.send_multimedia = "SEND_MULTIMEDIA"
title_key HistoryTitle.send_red_packet = "SEND_RED_PACKET"

abbrev pub key_of_title : Option HistoryTitle → Option String
key_of_title none = none
key_of_title (some title) = some (title_key title)

-- `getAllTokenFromNetwork`
abbrev pub get_all_token_from_network : ℕ → World → List UserToken
get_all_token_from_network network_id w = select (λ x. x.network_id == network_id) w.tokens.rows

-- What `forEach` makes of a row, without the columns that the answer does not expose.
abbrev pub history_output : World → List UserToken → HistoryRow → HistoryListOutput
history_output w tokens r = record {
  ref_id = r.ref_id;
  status = displayed_status r.status;
  amount = displayed_amount w tokens r;
  token_symbol = r.token_symbol;
  created_at = r.created_at;
  title = r.title;
  title_key = key_of_title r.title;
  kind = r.kind;
}

-- `getMesssageAndTransactionHistory`
unfoldable pub get_message_and_transaction_history : ℕ → ℕ → ℕ → ℕ → Exec (List HistoryListOutput)
get_message_and_transaction_history user_id network_id page_size skipped = do
  network ← get_by_id network_id
  gets (λ w.
      map (history_output w (get_all_token_from_network network_id w))
        (history_rows user_id network page_size skipped w))
