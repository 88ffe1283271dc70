-- ===== src/History/Rows.antt =====
-- What every row of the history has: it is enough to look at the three kinds of rows.
use nestjs_ex.Acl.{action_eq}
use nestjs_ex.Entities.{
  Message, Network, RoomActionTx, RoomNotificationTx, Transaction, member_status_eq,
}
use nestjs_ex.History.Parts.{
  HistoryRow, history_parts, history_rows, is_completed, is_in_room_on, is_to_wallet_of,
  message_row, message_rows, own_row, own_rows, received_row, received_rows,
}
use nestjs_ex.Prelude.{
  All, All-append, All-concat_map, All-distinct_rows, All-drop, All-map, All-newest_first, All-of,
  All-select, All-take, Has, NewestFirst, Option, and_true, drop-NewestFirst, false, is_false,
  is_some, length, length-take-le, nat_eq, newest_first-NewestFirst, select, take-NewestFirst,
  text_eq, true, ℕ, ◌==◌, ◌≡◌, ◌≤◌,
}
use nestjs_ex.World.{World}

module _ (P : HistoryRow → Type 0) (user_id : ℕ) (network : Network) (w : World) where
  abbrev FromOwn : Transaction → Type 0
  FromOwn t = Has t w.transactions.rows × (t.user_id ≡ user_id) × (t.network_id ≡ network.id)

  abbrev FromReceived : Transaction → Type 0
  FromReceived t =
      Has t w.transactions.rows
      × (t.network_id ≡ network.id)
      × (is_to_wallet_of user_id w t.to_address ≡ true)
      × (is_completed t.transaction_status ≡ true)
      × (t.user_id == user_id ≡ false)

  abbrev FromMessage : Message → Type 0
  FromMessage m =
      Has m w.messages.rows × (m.user_id ≡ user_id) × (is_in_room_on network.id w m ≡ true)

  own_rows-All :
      ((t : Transaction) → FromOwn t → P (own_row t)) → All P (own_rows user_id network.id w)
  unfolding own_rows
  own_rows-All f = All-map FromOwn P own_row _ f (
      All-select (λ t. Has t w.transactions.rows) FromOwn _ _
        (λ t m h.
          let (h', _) = and_true _ _ h in
          let (u, n) = and_true _ _ h' in
          (
            m,
            (nat_eq.same_iff t.user_id user_id).0 u,
            (nat_eq.same_iff t.network_id network.id).0 n,
          ))
        (All-of _ w.transactions.rows λ t m. m))

  received_rows-All :
      ((t : Transaction) → FromReceived t → P (received_row t))
      → All P (received_rows user_id network.id w)
  unfolding received_rows
  received_rows-All f = All-map FromReceived P received_row _ f (
      All-select (λ t. Has t w.transactions.rows) FromReceived _ _
        (λ t m h.
          let (h', n) = and_true _ _ h in
          let (h'', other) = and_true _ _ h' in
          let (a, c) = and_true _ _ h'' in
          (m, (nat_eq.same_iff t.network_id network.id).0 n, a, c, is_false _ other))
        (All-of _ w.transactions.rows λ t m. m))

  message_rows-All :
      ((m : Message) (a : Option RoomActionTx) (n : Option RoomNotificationTx)
        → FromMessage m
        → P (message_row w network m a n))
      → All P (message_rows user_id network w)
  unfolding message_rows
  message_rows-All f =
      All-concat_map FromMessage P _ _
        (λ m from.
          All-concat_map (λ a. Unit) P _ _
            (λ a u. All-map (λ n. Unit) P _ _ (λ n v. f m a n from) (All-of _ _ λ x h. tt))
            (All-of _ _ λ x h. tt))
        (All-select (λ m. Has m w.messages.rows) FromMessage _ _
          (λ m stored h.
            let (u, l) = and_true _ _ h in (stored, (nat_eq.same_iff m.user_id user_id).0 u, l))
          (All-of _ w.messages.rows λ m h. h))

  abbrev pub IsListed : HistoryRow → Type 0
  IsListed r = P r × (is_some r.title ≡ true)

  pub history_rows-All :
      ((t : Transaction) → FromOwn t → P (own_row t))
      → ((t : Transaction) → FromReceived t → P (received_row t))
      → ((m : Message) (a : Option RoomActionTx) (n : Option RoomNotificationTx)
          → FromMessage m
          → P (message_row w network m a n))
      → (page_size skipped : ℕ) → All IsListed (history_rows user_id network page_size skipped w)
  unfolding history_rows
  history_rows-All f g k page_size skipped = All-take IsListed page_size _ (
      All-drop IsListed skipped _ (
        All-newest_first IsListed (λ r. r.created_at) _
          (All-select P IsListed _ _ (λ r s t. (s, t))
            (All-distinct_rows P _ _ (
              All-append P (own_rows user_id network.id w) _ (own_rows-All f) (
                All-append P (received_rows user_id network.id w) _ (received_rows-All g)
                  (message_rows-All k)))))))

module _ (user_id : ℕ) (network : Network) (w : World) where
  pub history_rows-NewestFirst :
      (page_size skipped : ℕ)
      → NewestFirst (λ r. r.created_at) (history_rows user_id network page_size skipped w)
  unfolding history_rows
  history_rows-NewestFirst page_size skipped = take-NewestFirst _ page_size _ (
      drop-NewestFirst _ skipped _ (
        newest_first-NewestFirst _
          (select (λ r. is_some r.title) (history_parts user_id network w))))

  pub length-history_rows-le :
      (page_size skipped : ℕ)
      → length (history_rows user_id network page_size skipped w) ≤ page_size
  unfolding history_rows
  length-history_rows-le page_size skipped = length-take-le page_size _
