-- ===== src/History/Shown.antt =====
-- What a page of the history shows: only what concerns the caller, with a title and a final or pending status,
-- newest first.
use mathlib.Core.Path.{subst}
use nestjs_ex.Entities.{
  BlockchainTx, Message, MessageStatus, Network, RefTable, Transaction, TransactionStatus,
  UserToken, member_status_eq, message_status_eq, message_type_eq,
}
use nestjs_ex.History.{
  HistoryListOutput, displayed_status, get_all_token_from_network,
  get_message_and_transaction_history, history_output,
}
use nestjs_ex.History.Parts.{
  HistoryRow, chain_txs_of, history_rows, is_completed, is_in_room_on, is_to_wallet_of, is_verified,
  status_of_message, status_of_received, status_of_transaction,
}
use nestjs_ex.History.Rows.{
  IsListed, history_rows-All, history_rows-NewestFirst, length-history_rows-le,
}
use nestjs_ex.Network.Found.{get_by_id-ok}
use nestjs_ex.Prelude.{
  All, All-map, Bool, Has, List, NewestFirst, Option, [], ap, arith, false, find_first,
  find_first-Has, if◌then◌else◌, inl, inr, is_some, length, map, nat_eq, refl, some, sym, text_eq,
  true, ℕ, ◌==◌, ◌∙◌, ◌∷◌, ◌≡◌, ◌≤◌, ◌⊎◌,
}
use nestjs_ex.World.{World, gets, ok}
use nestjs_ex.World.Outcome.{bind-ok, same_outcome}

-- What a row refers to: a transaction on the network that the caller owns, or a completed one to a wallet of the
-- caller; or a message that the caller wrote in a room on the network.
abbrev pub Concerns : ℕ → ℕ → World → RefTable → ℕ → Type 0
Concerns user_id network_id w RefTable.of_transaction id =
    (t : Transaction) × Has t w.transactions.rows
    × (t.id ≡ id)
    × (t.network_id ≡ network_id)
    × ((t.user_id ≡ user_id)
        ⊎ ((is_to_wallet_of user_id w t.to_address ≡ true)
            × (is_completed t.transaction_status ≡ true)))
Concerns user_id network_id w RefTable.of_message id =
    (m : Message) × Has m w.messages.rows
    × (m.id ≡ id)
    × (m.user_id ≡ user_id)
    × (is_in_room_on network_id w m ≡ true)

-- In progress, completed or failed.
abbrev pub IsSettled : Option MessageStatus → Type 0
IsSettled (some MessageStatus.in_progress) = Unit
IsSettled (some MessageStatus.completed) = Unit
IsSettled (some MessageStatus.failed) = Unit
IsSettled _ = ⊥

abbrev Fits : ℕ → ℕ → World → HistoryRow → Type 0
Fits user_id network_id w r =
    Concerns user_id network_id w r.kind r.ref_id × IsSettled (displayed_status r.status)

status_of_transaction-IsSettled :
    (s : TransactionStatus) → IsSettled (displayed_status (some (status_of_transaction s)))
status_of_transaction-IsSettled TransactionStatus.pending = tt
status_of_transaction-IsSettled TransactionStatus.sent = tt
status_of_transaction-IsSettled TransactionStatus.success = tt
status_of_transaction-IsSettled TransactionStatus.failed = tt
status_of_transaction-IsSettled TransactionStatus.completed = tt
status_of_transaction-IsSettled TransactionStatus.pending_retry = tt
status_of_transaction-IsSettled TransactionStatus.retrying = tt

status_of_received-IsSettled :
    (s : TransactionStatus)
    → is_completed s ≡ true
    → IsSettled (displayed_status (status_of_received s))
status_of_received-IsSettled TransactionStatus.pending h = cc h
status_of_received-IsSettled TransactionStatus.sent h = cc h
status_of_received-IsSettled TransactionStatus.success h = tt
status_of_received-IsSettled TransactionStatus.failed h = cc h
status_of_received-IsSettled TransactionStatus.completed h = tt
status_of_received-IsSettled TransactionStatus.pending_retry h = cc h
status_of_received-IsSettled TransactionStatus.retrying h = cc h

hidden-IsSettled :
    (b : Bool)
    → IsSettled
        (displayed_status (some (if b then MessageStatus.completed else MessageStatus.failed)))
hidden-IsSettled true = tt
hidden-IsSettled false = tt

status_of_message-IsSettled :
    (m : Message) (txs : List BlockchainTx)
    → IsSettled (displayed_status (some (status_of_message m txs)))
status_of_message-IsSettled m txs = case m.status refl
  where
    case :
        (s : MessageStatus)
        → m.status ≡ s
        → IsSettled (displayed_status (some (status_of_message m txs)))
    case MessageStatus.in_progress e = rw e tt
    case MessageStatus.completed e = rw e tt
    case MessageStatus.failed e = rw e tt
    case MessageStatus.hidden e = rw e (hidden-IsSettled (is_verified txs))
    case MessageStatus.pending_retry e = rw e tt
    case MessageStatus.retrying e = rw e tt

history_rows-Fits :
    (user_id : ℕ) (network : Network) (w : World) (page_size skipped : ℕ)
    → All
        (IsListed (Fits user_id network.id w) user_id network w)
        (history_rows user_id network page_size skipped w)
history_rows-Fits user_id network w =
    history_rows-All (Fits user_id network.id w) user_id network w
      (λ t (m, u, n).
        ((t, m, refl, n, inl u), status_of_transaction-IsSettled t.transaction_status))
      (λ t (m, n, a, c, other).
        ((t, m, refl, n, inr (a, c)), status_of_received-IsSettled t.transaction_status c))
      (λ m a n (stored, mine, located).
        ((m, stored, refl, mine, located), status_of_message-IsSettled m (chain_txs_of w m)))

-- A row of the answer: it concerns the caller, its status is settled, and it has a title.
abbrev pub IsShown : ℕ → ℕ → World → HistoryListOutput → Type 0
IsShown user_id network_id w row =
    Concerns user_id network_id w row.kind row.ref_id
    × IsSettled row.status
    × (is_some row.title ≡ true)

map-NewestFirst :
    (w : World) (tokens : List UserToken) (rows : List HistoryRow)
    → NewestFirst (λ r. r.created_at) rows
    → NewestFirst (λ r. r.created_at) (map (history_output w tokens) rows)
map-NewestFirst w tokens [] h = tt
map-NewestFirst w tokens (r ∷ rows) (p, h) =
    (All-map _ _ (history_output w tokens) rows (λ x le. le) p, map-NewestFirst w tokens rows h)

length-map : {A B : Type 0} (f : A → B) (xs : List A) → length (map f xs) ≡ length xs
length-map f [] = refl
length-map f (x ∷ xs) = omega (arith, length-map f xs)

length-history_output-le :
    (user_id page_size skipped : ℕ) (network : Network) (w : World) (tokens : List UserToken)
    → length (map (history_output w tokens) (history_rows user_id network page_size skipped w))
      ≤ page_size
length-history_output-le user_id page_size skipped network w tokens = omega (
  arith,
  length-map (history_output w tokens) (history_rows user_id network page_size skipped w),
  length-history_rows-le user_id network w page_size skipped,
)

history_output-IsShown :
    (user_id network_id page_size skipped : ℕ) (network : Network) (w : World)
    (tokens : List UserToken)
    → network.id ≡ network_id
    → All
        (IsShown user_id network_id w)
        (map (history_output w tokens) (history_rows user_id network page_size skipped w))
history_output-IsShown user_id network_id page_size skipped network w tokens same =
    subst (λ id. All (IsShown user_id id w) (map (history_output w tokens) rows)) same
      (All-map (IsListed (Fits user_id network.id w) user_id network w)
        (IsShown user_id network.id w) _ rows (λ r ((c, s), t). (c, s, t))
        (history_rows-Fits user_id network w page_size skipped))
  where
    rows : List HistoryRow
    rows = history_rows user_id network page_size skipped w

-- Where getMesssageAndTransactionHistory returned, the network was stored and nothing was written; the answer has at
-- most as many rows as the page, newest first, and each row has a title, a status that is in progress, completed or
-- failed, and refers to a stored transaction on the network, of the caller or completed to one of the caller's wallets,
-- or to a stored message of the caller in a room on the network.
pub get_message_and_transaction_history-ok :
    (user_id network_id page_size skipped : ℕ) (w v : World) (rows : List HistoryListOutput)
    → get_message_and_transaction_history user_id network_id page_size skipped w ≡ (ok rows, v)
    → (v ≡ w)
      × is_some (find_first (λ n. n.id == network_id) w.networks) ≡ true
      × (length rows ≤ page_size)
      × NewestFirst (λ r. r.created_at) rows
      × All (IsShown user_id network_id w) rows
unfolding get_message_and_transaction_history gets
get_message_and_transaction_history-ok user_id network_id page_size skipped w v rows h =
    let (network, u, hn, hr) = bind-ok _ _ w v rows h in
    let (stored, u_is) = get_by_id-ok network_id w u network hn in
    let (answer, v_is) = same_outcome hr in
    let (_, named) = find_first-Has _ w.networks network stored in
    let id_is = (nat_eq.same_iff network.id network_id).0 named in
    let found : is_some (find_first (λ n. n.id == network_id) w.networks) ≡ true = rw stored refl in
    subst
      (λ z.
        (v ≡ w)
        × (is_some (find_first (λ n. n.id == network_id) w.networks) ≡ true)
        × (length z ≤ page_size)
        × NewestFirst (λ r. r.created_at) z
        × All (IsShown user_id network_id w) z)
      (ap
          (λ (x : World).
            map (history_output x (get_all_token_from_network network_id x))
              (history_rows user_id network page_size skipped x))
          (sym u_is)
        ∙ answer)
      (
        v_is ∙ u_is,
        found,
        length-history_output-le user_id page_size skipped network w _,
        map-NewestFirst w _ _ (history_rows-NewestFirst user_id network w page_size skipped),
        history_output-IsShown user_id network_id page_size skipped network w _ id_is,
      )
