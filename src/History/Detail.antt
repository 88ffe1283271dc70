-- ===== src/History/Detail.antt =====
-- src/transaction/services/transaction.service.ts, lines 805 to 931: one entry of the history that is a transaction,
-- by the query of `getTransactionHistoryDetailSQL`.
use nestjs_ex.Entities.{
  BlockchainTx, HistoryTitle, MessageStatus, Network, Transaction, TransactionType, User,
  UserContact, UserToken, UserWallet, member_status_eq, message_status_eq, message_type_eq,
}
use nestjs_ex.History.{displayed_status, get_all_token_from_network, same_symbol, title_key}
use nestjs_ex.History.Parts.{status_of_transaction}
use nestjs_ex.Prelude.{
  Bool, List, Option, String, [], concat_map, false, find_first, if◌then◌else◌, left_join, map,
  nat_eq, none, not, select, some, text_eq, true, ℕ, ◌&&◌, ◌+++◌, ◌==◌, ◌∷◌,
}
use nestjs_ex.World.{
  Exec, World, gets, history_detail_not_found, need, transaction_not_found, ◌>>=◌,
}

-- A row of the query, NULL as `none`.
pub record HistoryDetail : Type 0 where
  pub from_address : String
  pub to_address : String
  pub amount : Option String
  pub token_address : Option String
  pub token_symbol : Option String
  pub rpc_endpoint : String
  pub fee_symbol : String
  pub fee_amount : Option String
  pub status : Option MessageStatus
  pub title : HistoryTitle
  pub created_at : ℕ
  pub detail : Option String
  pub transaction_hashes : Option String
  pub network_id : ℕ

abbrev pub is_deposit : TransactionType → Bool
is_deposit TransactionType.deposit = true
is_deposit _ = false

-- `isSent`
abbrev pub is_sent : ℕ → Transaction → Bool
is_sent user_id t = (t.user_id == user_id) && not (is_deposit t.kind)

-- `ifnull`
abbrev if_null : {A : Type 0} → Option A → Option A → Option A
if_null none b = b
if_null (some a) b = some a

abbrev contact_name : Option UserContact → Option String
contact_name none = none
contact_name (some uc) = uc.name

abbrev user_name : Option User → Option String
user_name none = none
user_name (some u) = u.name

abbrev fee_of : Option BlockchainTx → Option String
fee_of none = none
fee_of (some b) = b.fee_amount

abbrev hash_of : Option BlockchainTx → Option String
hash_of none = none
hash_of (some b) = b.tx_hash

-- `Concat`, which is NULL on NULL
abbrev concat : String → Option String → Option String
concat prefix none = none
concat prefix (some name) = some (prefix +++ name)

abbrev pub title_of_sent : Bool → HistoryTitle
title_of_sent true = HistoryTitle.send
title_of_sent false = HistoryTitle.recive

abbrev detail_row :
    Bool
    → Transaction
    → Network
    → Option BlockchainTx
    → Option UserContact
    → Option User
    → HistoryDetail
detail_row sent t n b uc u = record {
  from_address = t.from_address;
  to_address = t.to_address;
  amount = some t.amount;
  token_address = t.token_address;
  token_symbol = t.token_symbol;
  rpc_endpoint = n.rpc_endpoint;
  fee_symbol = n.native_token_symbol;
  fee_amount = fee_of b;
  status = some (status_of_transaction t.transaction_status);
  title = title_of_sent sent;
  created_at = t.created_at;
  detail = concat (if sent then "To " else "From ") (if_null (contact_name uc) (user_name u));
  transaction_hashes = if_null t.tx_hash (hash_of b);
  network_id = t.network_id;
}

-- The other side of the transaction.
abbrev party : Bool → Transaction → String
party sent t = if sent then t.to_address else t.from_address

abbrev is_chain_tx_of : Transaction → BlockchainTx → Bool
is_chain_tx_of t b = elim t.blockchain_tx_id [ none ↦ false | some id ↦ b.id == id ]

abbrev is_user_of : Option UserWallet → User → Bool
is_user_of none u = false
is_user_of (some uw) u = u.id == uw.user_id

abbrev same_lower : World → String → String → Bool
same_lower w a b = w.env.same_text (w.env.lower a) (w.env.lower b)

-- The rows for a transaction on a network: the left joins with the chain, the contacts of the caller, the wallets
-- and the users.
abbrev pub joined : ℕ → Bool → World → Transaction → Network → List HistoryDetail
joined user_id sent w t n =
    concat_map
      (λ b.
        concat_map
          (λ uc.
            concat_map
              (λ uw.
                map (detail_row sent t n b uc) (left_join (select (is_user_of uw) w.users.rows)))
              (left_join (select (λ uw. same_lower w uw.address (party sent t)) w.wallets.rows)))
          (left_join (
            select (λ uc. (uc.user_id == user_id) && same_lower w uc.address (party sent t))
              w.contacts.rows)))
      (left_join (select (is_chain_tx_of t) w.blockchain_txs.rows))

-- The query; only its first row is read, so `distinct` does not show.
unfoldable pub get_transaction_history_detail_sql : ℕ → Bool → ℕ → World → List HistoryDetail
get_transaction_history_detail_sql transaction_id sent user_id w =
    concat_map
      (λ t. concat_map (joined user_id sent w t) (select (λ n. n.id == t.network_id) w.networks))
      (select (λ t. t.id == transaction_id) w.transactions.rows)

abbrev pub head : List HistoryDetail → Option HistoryDetail
head [] = none
head (d ∷ ds) = some d

-- A NULL or empty amount stays, and so does one of a token that the network does not list.
abbrev detail_amount : World → List UserToken → HistoryDetail → Option String
detail_amount w tokens d = elim d.amount [
  | none ↦ none
  | some amount ↦
      if amount == ""
      then some amount
      else elim (find_first (same_symbol w d.token_symbol) tokens) [
        | none ↦ some amount
        | some token ↦ some (w.env.format_point (some amount) token.token_decimal)
      ]
]

abbrev pub completed_detail : World → HistoryDetail → HistoryDetail
completed_detail w d = record d {
  status = displayed_status d.status;
  amount = detail_amount w (get_all_token_from_network d.network_id w) d;
}

-- `getDetailMesssageAndTransactionHistory` with the type `transaction`, up to the prices in dollars; the answer has
-- the key of the title beside it.
unfoldable pub get_transaction_history_detail : ℕ → ℕ → Exec (HistoryDetail × String)
get_transaction_history_detail user_id ref_id = do
  found ← gets (λ w. find_first (λ t. t.id == ref_id) w.transactions.rows)
  transaction_read ← need found transaction_not_found
  first ← gets (λ w.
      head (get_transaction_history_detail_sql ref_id (is_sent user_id transaction_read) user_id w))
  d ← need first history_detail_not_found
  gets (λ w. (completed_detail w d, title_key d.title))
