-- ===== src/History/Agreement.antt =====
-- The list and the detail of the history agree: an entry of the list that is a transaction can be opened, and its
-- detail shows the same title, status and time.
use mathlib.Core.Path.{subst}
use nestjs_ex.Api.{run}
use nestjs_ex.Entities.{
  Network, RefTable, Transaction, TransactionStatus, TransactionType, UserToken,
}
use nestjs_ex.History.{
  HistoryListOutput, displayed_status, get_all_token_from_network,
  get_message_and_transaction_history, history_output, key_of_title, title_key,
}
use nestjs_ex.History.Detail.{
  HistoryDetail, completed_detail, get_transaction_history_detail, is_deposit, is_sent,
  title_of_sent,
}
use nestjs_ex.History.Opened.{get_transaction_history_detail-run}
use nestjs_ex.History.Parts.{
  HistoryRow, history_rows, is_completed, status_of_received, status_of_transaction,
  title_of_transaction,
}
use nestjs_ex.History.Rows.{IsListed, history_rows-All}
use nestjs_ex.Network.Found.{get_by_id-ok}
use nestjs_ex.Prelude.{
  All, All-map, Has, List, String, ap, arith, find_first-Has, map, nat_eq, not, refl, some, sym,
  true, ℕ, ◌&&◌, ◌∙◌, ◌≡◌,
}
use nestjs_ex.Store.Keyed.{Keyed}
use nestjs_ex.World.{World, gets, ok}
use nestjs_ex.World.Outcome.{bind-ok, same_outcome}

abbrev FromTransaction : ℕ → Network → World → HistoryRow → Type 0
FromTransaction user_id network w r =
    (t : Transaction) × Has t w.transactions.rows
    × (t.id ≡ r.ref_id)
    × (network.id ≡ t.network_id)
    × (r.title ≡ some (title_of_sent (is_sent user_id t)))
    × (r.status ≡ some (status_of_transaction t.transaction_status))
    × (r.created_at ≡ t.created_at)

-- A row that is a transaction comes from a stored one and shows what its detail shows.
abbrev Comes : ℕ → Network → World → HistoryRow → Type 0
Comes user_id network w r = elim r.kind [
  | RefTable.of_message ↦ Unit
  | RefTable.of_transaction ↦ FromTransaction user_id network w r
]

own_title :
    (user_id : ℕ) (t : Transaction)
    → t.user_id ≡ user_id
    → title_of_transaction t.kind ≡ title_of_sent (is_sent user_id t)
own_title user_id t mine = rw ((nat_eq.same_iff t.user_id user_id).1 mine) (by_kind t.kind)
  where
    by_kind :
        (k : TransactionType) → title_of_transaction k ≡ title_of_sent (true && not (is_deposit k))
    by_kind TransactionType.deposit = refl
    by_kind TransactionType.withdraw = refl
    by_kind TransactionType.withdraw_red_packet = refl

status_of_received-completed :
    (s : TransactionStatus)
    → is_completed s ≡ true
    → status_of_received s ≡ some (status_of_transaction s)
status_of_received-completed TransactionStatus.pending h = cc h
status_of_received-completed TransactionStatus.sent h = cc h
status_of_received-completed TransactionStatus.success h = refl
status_of_received-completed TransactionStatus.failed h = cc h
status_of_received-completed TransactionStatus.completed h = refl
status_of_received-completed TransactionStatus.pending_retry h = cc h
status_of_received-completed TransactionStatus.retrying h = cc h

displayed_status-status_of_transaction :
    (s : TransactionStatus)
    → displayed_status (some (status_of_transaction s)) ≡ some (status_of_transaction s)
displayed_status-status_of_transaction s = ground arith

history_rows-Comes :
    (user_id : ℕ) (network : Network) (w : World) (page_size skipped : ℕ)
    → All
        (IsListed (Comes user_id network w) user_id network w)
        (history_rows user_id network page_size skipped w)
history_rows-Comes user_id network w =
    history_rows-All (Comes user_id network w) user_id network w
      (λ t (m, u, n). (t, m, refl, sym n, ap some (own_title user_id t u), refl, refl))
      (λ t (m, n, a, c, other). (
        t,
        m,
        refl,
        sym n,
        rw other refl,
        status_of_received-completed t.transaction_status c,
        refl,
      ))
      (λ m a n from. tt)

-- The detail of a transaction is found, and it shows the title, the status and the time of the entry.
abbrev pub OpensTransaction : ℕ → World → HistoryListOutput → Type 0
OpensTransaction user_id w row =
    (d : HistoryDetail) × (key : String) × (get_transaction_history_detail user_id row.ref_id w
      ≡ (ok (d, key), w))
    × (row.title ≡ some d.title)
    × (row.title_key ≡ some key)
    × (row.status ≡ d.status)
    × (row.created_at ≡ d.created_at)

abbrev pub Opens : ℕ → World → HistoryListOutput → Type 0
Opens user_id w row = elim row.kind [
  | RefTable.of_message ↦ Unit
  | RefTable.of_transaction ↦ OpensTransaction user_id w row
]

module _ (user_id : ℕ) (network : Network) (w : World) (k : ℕ) where
  history_output-OpensTransaction :
      (tokens : List UserToken) (r : HistoryRow)
      → Keyed (λ (x : Transaction). x.id) k w.transactions.rows
      → Has network w.networks
      → FromTransaction user_id network w r
      → OpensTransaction user_id w (history_output w tokens r)
  history_output-OpensTransaction tokens r keyed mn (t, m, id_is, on, title, status, time) =
      let (d, run, (titled, state, made)) =
        get_transaction_history_detail-run user_id w t network k keyed m mn on in
      let same : r.title ≡ some d.title = title ∙ ap some (sym titled) in
      (
        completed_detail w d,
        title_key d.title,
        subst
            (λ id.
              get_transaction_history_detail user_id id w
              ≡ (ok (completed_detail w d, title_key d.title), w))
            id_is run,
        same,
        ap key_of_title same,
        ap displayed_status (status ∙ sym state),
        time ∙ sym made,
      )

  history_output-Opens :
      (tokens : List UserToken) (r : HistoryRow)
      → Keyed (λ (x : Transaction). x.id) k w.transactions.rows
      → Has network w.networks
      → Comes user_id network w r
      → Opens user_id w (history_output w tokens r)
  history_output-Opens tokens r keyed mn comes = by_kind r.kind refl
    where
      by_kind : (kind : RefTable) → r.kind ≡ kind → Opens user_id w (history_output w tokens r)
      by_kind RefTable.of_message e = rw e tt
      by_kind RefTable.of_transaction e =
          rw e (history_output-OpensTransaction tokens r keyed mn (rw e at comes))

-- Where transactions have distinct keys and getMesssageAndTransactionHistory returned, the detail of each entry that
-- is a transaction is found for the same user, without writing, and shows the title, the key of the title, the status
-- and the time that the list shows.
pub get_transaction_history_detail-listed :
    (user_id network_id page_size skipped k : ℕ) (w v : World) (rows : List HistoryListOutput)
    → Keyed (λ (x : Transaction). x.id) k w.transactions.rows
    → get_message_and_transaction_history user_id network_id page_size skipped w ≡ (ok rows, v)
    → All (Opens user_id w) rows
unfolding get_message_and_transaction_history gets
get_transaction_history_detail-listed user_id network_id page_size skipped k w v rows keyed h =
    let (network, u, hn, hr) = bind-ok _ _ w v rows h in
    let (stored, u_is) = get_by_id-ok network_id w u network hn in
    let (answer, v_is) = same_outcome hr in
    let (mn, named) = find_first-Has _ w.networks network stored in
    subst (All (Opens user_id w))
      (ap
          (λ (x : World).
            map (history_output x (get_all_token_from_network network_id x))
              (history_rows user_id network page_size skipped x))
          (sym u_is)
        ∙ answer)
      (All-map (IsListed (Comes user_id network w) user_id network w) (Opens user_id w) _ _
        (λ r (comes, t).
          history_output-Opens user_id network w k (get_all_token_from_network network_id w) r keyed
            mn comes)
        (history_rows-Comes user_id network w page_size skipped))
