-- ===== src/Tests/Histories.antt =====
-- src/transaction: the history of a user, run on the small database.
use nestjs_ex.Entities.{
  HistoryTitle, MessageStatus, Network, RefTable, Transaction, TransactionStatus, TransactionType,
  member_status_eq, message_status_eq, message_type_eq,
}
use nestjs_ex.History.{HistoryListOutput, get_message_and_transaction_history}
use nestjs_ex.History.Agreement.{Opens, get_transaction_history_detail-listed}
use nestjs_ex.History.Complete.{IsEntryOf, get_message_and_transaction_history_complete}
use nestjs_ex.History.Parts.{history_parts, history_rows, message_rows, own_rows, received_rows}
use nestjs_ex.History.Shown.{IsShown, get_message_and_transaction_history-ok}
use nestjs_ex.Network.{get_by_id}
use nestjs_ex.Prelude.{
  All, Exists, List, NewestFirst, String, [], arith, concat_map, distinct_rows, drop, find_first,
  inl, insert_newest, is_some, left_join, length, nat_eq, newest_first, none, refl, select, some,
  take, text_eq, true, ℕ, ◌==◌, ◌∷◌, ◌≡◌, ◌≤◌,
}
use nestjs_ex.Store.Keyed.{Keyed}
use nestjs_ex.Tests.{message0, world0}
use nestjs_ex.World.{World, ok, ◌>>=◌}

-- Alice sent tokens to an address; Bob sent her a completed amount; she wrote a message in the group.
abbrev sent0 : ℕ → ℕ → String → TransactionStatus → ℕ → Transaction
sent0 id user_id to_address status created_at = record {
  id = id;
  kind = TransactionType.withdraw;
  user_id = user_id;
  user_wallet_id = user_id;
  network_id = 1;
  tx_hash = none;
  blockchain_tx_id = none;
  from_address = "0xf";
  to_address = to_address;
  token_symbol = some "MATIC";
  token_address = some "0x0";
  fee_level = some "fast";
  amount = "5";
  memo_code = none;
  transaction_status = status;
  created_at = created_at;
  updated_at = created_at;
}

abbrev histories0 : World
histories0 = record world0 {
  transactions = record {
    rows =
        sent0 1 1 "0xe" TransactionStatus.retrying 20
        ∷ sent0 2 2 "0xa" TransactionStatus.success 30
        ∷ sent0 3 2 "0xa" TransactionStatus.pending 40
        ∷ [];
    next_id = 4;
  };
  messages = record {
    rows = record message0 { user_id = 1; status = MessageStatus.hidden; created_at = 25 } ∷ [];
    next_id = 2;
  };
}

-- Bob's completed transaction, the hidden message and Alice's own transaction, in that order.
abbrev history_of_alice : List HistoryListOutput
history_of_alice =
    record {
      ref_id = 2;
      status = some MessageStatus.completed;
      amount = some "";
      token_symbol = some "MATIC";
      created_at = 30;
      title = some HistoryTitle.recive;
      title_key = some "RECIVE";
      kind = RefTable.of_transaction;
    }
    ∷ record {
      ref_id = 1;
      status = some MessageStatus.failed;
      amount = none;
      token_symbol = some "MATIC";
      created_at = 25;
      title = some HistoryTitle.send_message;
      title_key = some "SEND_MESSAGE";
      kind = RefTable.of_message;
    }
    ∷ record {
      ref_id = 1;
      status = some MessageStatus.in_progress;
      amount = some "";
      token_symbol = some "MATIC";
      created_at = 20;
      title = some HistoryTitle.send;
      title_key = some "SEND";
      kind = RefTable.of_transaction;
    }
    ∷ []

history_run :
    get_message_and_transaction_history 1 1 10 0 histories0 ≡ (ok history_of_alice, histories0)
unfolding get_message_and_transaction_history get_by_id history_rows own_rows received_rows
    message_rows take drop newest_first insert_newest distinct_rows concat_map left_join select
    find_first ◌>>=◌
history_run = refl

get_message_and_transaction_history-ok_example :
    (histories0 ≡ histories0)
    × (is_some (find_first (λ n. n.id == 1) histories0.networks) ≡ true)
    × (length history_of_alice ≤ 10)
    × NewestFirst (λ r. r.created_at) history_of_alice
    × All (IsShown 1 1 histories0) history_of_alice
get_message_and_transaction_history-ok_example =
    get_message_and_transaction_history-ok 1 1 10 0 histories0 histories0 history_of_alice
      history_run

histories0-Keyed : Keyed (λ (x : Transaction). x.id) 4 histories0.transactions.rows
histories0-Keyed = (
  ground arith,
  ((ground arith), ((ground arith), tt)),
  (ground arith, ((ground arith), tt), (ground arith, tt, tt)),
)

get_transaction_history_detail-listed_example : All (Opens 1 histories0) history_of_alice
get_transaction_history_detail-listed_example =
    get_transaction_history_detail-listed 1 1 10 0 4 histories0 histories0 history_of_alice
      histories0-Keyed history_run

abbrev matic : Network
matic = record { id = 1; chain_id = "137"; rpc_endpoint = "rpc"; native_token_symbol = "MATIC" }

parts_fit : length (history_parts 1 matic histories0) ≤ 10
unfolding own_rows received_rows message_rows distinct_rows concat_map left_join select
parts_fit = omega arith

is_listed : find_first (λ n. n.id == 1) histories0.networks ≡ some matic
unfolding find_first
is_listed = refl

get_message_and_transaction_history_complete_example :
    (rows : List HistoryListOutput) × (get_message_and_transaction_history 1 1 10 0 histories0
      ≡ (ok rows, histories0))
    × Exists (IsEntryOf (sent0 1 1 "0xe" TransactionStatus.retrying 20)) rows
get_message_and_transaction_history_complete_example =
    get_message_and_transaction_history_complete 1 10 matic histories0
      (sent0 1 1 "0xe" TransactionStatus.retrying 20) is_listed parts_fit (inl refl) (inl refl)
