-- ===== src/History/Complete.antt =====
-- That the history leaves out no transaction of the caller.
use mathlib.Core.Path.{subst}
use nestjs_ex.Entities.{
  HistoryTitle, Network, RefTable, Transaction, history_title_beq, message_type_eq, ref_table_beq,
}
use nestjs_ex.History.{HistoryListOutput, get_message_and_transaction_history}
use nestjs_ex.History.Parts.{
  HistoryRow, history_parts, history_rows, is_own, is_received, message_rows, own_row, own_rows,
  received_row, received_rows, same_option, same_row,
}
use nestjs_ex.Network.{get_by_id}
use nestjs_ex.Prelude.{
  Exists, Exists-append_left, Exists-append_right, Exists-distinct_rows, Exists-map,
  Exists-newest_first, Exists-select, Exists-take, Has, Has-Exists, List, Option, and_true, arith,
  drop, find_first, inl, inr, is_some, length, length-newest_first, length-select-le, map, nat_eq,
  none, refl, select, select-Has, some, sym, text_eq, true, ℕ, ◌++◌, ◌==◌, ◌∙◌, ◌≡◌, ◌≤◌, ◌⊎◌,
}
use nestjs_ex.World.{World, gets, network_not_found, ok}
use nestjs_ex.World.Running.{bind-run, gets-bind-run, need-run}

-- A row of the transaction, with a title.
abbrev IsRowOf : Transaction → HistoryRow → Type 0
IsRowOf t r = (r.kind ≡ RefTable.of_transaction) × (r.ref_id ≡ t.id) × (is_some r.title ≡ true)

-- An entry of the transaction.
abbrev pub IsEntryOf : Transaction → HistoryListOutput → Type 0
IsEntryOf t r = (r.kind ≡ RefTable.of_transaction) × (r.ref_id ≡ t.id)

same_kind : (a b : RefTable) → ref_table_beq a b ≡ true → a ≡ b
same_kind a b h = ground arith

same_title :
    (a b : Option HistoryTitle)
    → same_option history_title_beq a b ≡ true
    → is_some a ≡ true
    → is_some b ≡ true
same_title none b h s = cc s
same_title (some a) none h s = cc h
same_title (some a) (some b) h s = refl

-- A row that `union` takes for the same is one of the transaction too.
same_row-IsRowOf :
    (w : World) (t : Transaction) (x y : HistoryRow)
    → IsRowOf t x
    → same_row w x y ≡ true
    → IsRowOf t y
same_row-IsRowOf w t x y (kind, id, title) h =
    let (h1, ids) = and_true _ (x.ref_id == y.ref_id) h in
    let (h2, kinds) = and_true _ (ref_table_beq x.kind y.kind) h1 in
    let (_, titles) = and_true _ (same_option history_title_beq x.title y.title) h2 in
    (
      sym (same_kind x.kind y.kind kinds) ∙ kind,
      sym ((nat_eq.same_iff x.ref_id y.ref_id).0 ids) ∙ id,
      same_title x.title y.title titles title,
    )

-- The row that is made of a selected transaction.
made-Exists :
    (t : Transaction) (f : Transaction → HistoryRow) (xs : List Transaction)
    → IsRowOf t (f t)
    → Has t xs
    → Exists (IsRowOf t) (map f xs)
made-Exists t f xs made m =
    Exists-map (λ z. z ≡ t) (IsRowOf t) f xs (λ z e. subst (λ y. IsRowOf t (f y)) (sym e) made)
      (Has-Exists (λ z. z ≡ t) t xs m refl)

module _ (user_id : ℕ) (network : Network) (w : World) (t : Transaction) where
  abbrev Listable : Type 0
  Listable = (is_own user_id network.id w t ≡ true) ⊎ (is_received user_id network.id w t ≡ true)

  parts-Exists :
      Has t w.transactions.rows
      → Listable
      → Exists (IsRowOf t) (
          own_rows user_id network.id w
          ++ (received_rows user_id network.id w ++ message_rows user_id network w))
  unfolding own_rows received_rows
  parts-Exists m (inl own) =
      Exists-append_left (IsRowOf t) (own_rows user_id network.id w) _
        (made-Exists t own_row _ (refl, refl, refl) (select-Has _ w.transactions.rows t m own))
  parts-Exists m (inr received) =
      Exists-append_right (IsRowOf t) (own_rows user_id network.id w) _ (
        Exists-append_left (IsRowOf t) (received_rows user_id network.id w) _ (
          made-Exists t received_row _ (refl, refl, refl)
            (select-Has _ w.transactions.rows t m received)))

  history_rows-Exists :
      (page_size : ℕ)
      → length (history_parts user_id network w) ≤ page_size
      → Has t w.transactions.rows
      → Listable
      → Exists (IsRowOf t) (history_rows user_id network page_size 0 w)
  unfolding history_rows drop
  history_rows-Exists page_size fits m listable =
      let parts = history_parts user_id network w in
      Exists-take (IsRowOf t) page_size _
        (omega (
          arith,
          length-newest_first (λ (r : HistoryRow). r.created_at)
              (select (λ (r : HistoryRow). is_some r.title) parts),
          length-select-le (λ (r : HistoryRow). is_some r.title) parts,
          fits,
        ))
        (Exists-newest_first (IsRowOf t) (λ r. r.created_at) _
          (Exists-select (IsRowOf t) _ parts (λ r (k, id, title). title)
            (Exists-distinct_rows (IsRowOf t) (same_row w) (same_row-IsRowOf w t) _
              (parts-Exists m listable))))

-- On a stored network, where the page starts at the first row and has room for all rows of the query's parts,
-- getMesssageAndTransactionHistory returns without writing, and its answer has an entry of each stored transaction
-- that is the caller's own on the network and named by no message, and of each completed one of others on the network
-- to a wallet of the caller.
pub get_message_and_transaction_history_complete :
    (user_id page_size : ℕ) (network : Network) (w : World) (t : Transaction)
    → find_first (λ n. n.id == network.id) w.networks ≡ some network
    → length (history_parts user_id network w) ≤ page_size
    → Has t w.transactions.rows
    → (is_own user_id network.id w t ≡ true) ⊎ (is_received user_id network.id w t ≡ true)
    → (rows : List HistoryListOutput) × (get_message_and_transaction_history user_id network.id
          page_size 0 w
        ≡ (ok rows, w))
      × Exists (IsEntryOf t) rows
unfolding get_message_and_transaction_history get_by_id gets
get_message_and_transaction_history_complete user_id page_size network w t stored fits m listable =
    (
      _,
      bind-run _ _ network w w
          (gets-bind-run _ _ w ∙ need-run _ network_not_found network w stored),
      Exists-map (IsRowOf t) (IsEntryOf t) _ _ (λ r (k, id, title). (k, id))
          (history_rows-Exists user_id network w t page_size fits m listable),
    )
