-- ===== src/RoomNotificationTx/Window.antt =====
-- src/room-notification-tx/services/room-notification-tx.service.ts: when an address counts as in
-- progress.
use nestjs_ex.Entities.{MessageStatus, RoomNotificationTx, member_status_eq, message_status_eq}
use nestjs_ex.Prelude.{
  Has, Has-select, List, Option-cases, String, [], ap, arith, find_first, find_first-Has, inl, inr,
  is_some, is_some-find_first, nat_eq, refl, select, select-Has, text_eq, true, ℕ, ◌+◌, ◌<◌, ◌↔◌,
  ◌∙◌, ◌∷◌, ◌≡◌, ◌≢◌,
}
use nestjs_ex.RoomNotificationTx.{
  check_processing_one_address, is_of_address, is_processing, is_processing_one, ten_minutes,
}
use nestjs_ex.World.{Env, World}

-- A row of the address whose transaction has not ended and is not ten minutes old.
abbrev pub IsLive : World → ℕ → String → RoomNotificationTx → Type 0
IsLive w room_id address tx =
    Has tx w.notification_txs.rows
    × (tx.chat_room_id ≡ room_id)
    × (w.env.same_text tx.wallet_address address ≡ true)
    × (w.env.now < tx.created_at + ten_minutes)
    × (tx.status ≢ MessageStatus.completed)
    × (tx.status ≢ MessageStatus.failed)

is_processing_one_lem :
    (now : ℕ) (txs : List RoomNotificationTx)
    → is_processing_one now txs ≡ is_some (find_first (is_processing now) txs)
unfolding find_first
is_processing_one_lem now [] = refl
is_processing_one_lem now (tx ∷ txs) = refl

is_processing_sound :
    (now : ℕ) (tx : RoomNotificationTx)
    → is_processing now tx ≡ true
    → (now < tx.created_at + ten_minutes)
      × (tx.status ≢ MessageStatus.completed)
      × (tx.status ≢ MessageStatus.failed)
unfolding is_processing
is_processing_sound now tx h = ground arith

is_processing_complete :
    (now : ℕ) (tx : RoomNotificationTx)
    → now < tx.created_at + ten_minutes
    → tx.status ≢ MessageStatus.completed
    → tx.status ≢ MessageStatus.failed
    → is_processing now tx ≡ true
unfolding is_processing
is_processing_complete now tx h c f = ground arith

is_of_address_sound :
    (env : Env) (room_id : ℕ) (address : String) (tx : RoomNotificationTx)
    → is_of_address env room_id address tx ≡ true
    → (tx.chat_room_id ≡ room_id) × (env.same_text tx.wallet_address address ≡ true)
is_of_address_sound env room_id address tx h = ground arith

-- Where an address is in progress in a room, the table holds a live row for it.
check_processing_one_address_sound :
    (room_id : ℕ) (address : String) (w : World)
    → check_processing_one_address room_id address w ≡ true
    → (tx : RoomNotificationTx) × IsLive w room_id address tx
unfolding check_processing_one_address
check_processing_one_address_sound room_id address w h =
    let rows = select (is_of_address w.env room_id address) w.notification_txs.rows in
    elim (Option-cases (find_first (is_processing w.env.now) rows)) [
      | inl e ↦ cc (is_processing_one_lem w.env.now rows, ap (is_some {A = RoomNotificationTx}) e)
      | inr (tx, e) ↦
          let (in_rows, live) = find_first-Has (is_processing w.env.now) rows tx e in
          let (in_table, of) = Has-select _ w.notification_txs.rows tx in_rows in
          let (room, address_fits) = is_of_address_sound w.env room_id address tx of in
          let (young, open_c, open_f) = is_processing_sound w.env.now tx live in
          (tx, (in_table, room, address_fits, young, open_c, open_f))
    ]

check_processing_one_address_complete :
    (room_id : ℕ) (address : String) (w : World) (tx : RoomNotificationTx)
    → IsLive w room_id address tx
    → check_processing_one_address room_id address w ≡ true
unfolding check_processing_one_address
check_processing_one_address_complete room_id address w tx (m, room, fits, young, c, f) =
    let rows = select (is_of_address w.env room_id address) w.notification_txs.rows in
    let in_rows =
      select-Has (is_of_address w.env room_id address) w.notification_txs.rows tx m
        (ground arith) in
    is_processing_one_lem w.env.now rows
    ∙ is_some-find_first (is_processing w.env.now) rows tx in_rows
        (is_processing_complete w.env.now tx young c f)

-- An address is in progress in a room exactly when the table holds a row of the room and the address
-- whose transaction is neither completed nor failed and was created less than ten minutes ago.
pub check_processing_one_address_iff :
    (room_id : ℕ) (address : String) (w : World)
    → (check_processing_one_address room_id address w ≡ true)
      ↔ ((tx : RoomNotificationTx) × IsLive w room_id address tx)
check_processing_one_address_iff room_id address w = (
  check_processing_one_address_sound room_id address w,
  λ (tx, live). check_processing_one_address_complete room_id address w tx live,
)
