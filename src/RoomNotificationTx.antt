-- ===== src/RoomNotificationTx.antt =====
-- src/room-notification-tx/services/room-notification-tx.service.ts: the rows that say which wallet
-- address a transaction of a room is in progress for.
pub mod Window
pub mod Expiry
use nestjs_ex.Entities.{
  ChatJobName, MessageStatus, RoomNotificationTx, member_status_eq, message_status_eq,
  message_type_eq,
}
use nestjs_ex.Prelude.{
  Bool, List, String, [], any, false, find_first, is_some, ltb, nat_eq, not, select, text_eq, ℕ,
  ◌&&◌, ◌+◌, ◌==◌, ◌∷◌,
}
use nestjs_ex.Store.{insert}
use nestjs_ex.World.{Env, Exec, World, ok}

-- `1000 * 60 * 10`
abbrev pub ten_minutes : ℕ
ten_minutes = 600000

-- The test of `listRoomNoti.find`; `createdAt > now - tenMinutes` with the subtraction moved over.
unfoldable pub is_processing : ℕ → RoomNotificationTx → Bool
is_processing now tx =
    ltb now (tx.created_at + ten_minutes)
    && not (tx.status == MessageStatus.completed)
    && not (tx.status == MessageStatus.failed)

abbrev pub is_of_address : Env → ℕ → String → RoomNotificationTx → Bool
is_of_address env room_id address tx =
    (tx.chat_room_id == room_id) && env.same_text tx.wallet_address address

abbrev pub is_processing_one : ℕ → List RoomNotificationTx → Bool
is_processing_one now [] = false
is_processing_one now (tx ∷ txs) = is_some (find_first (is_processing now) (tx ∷ txs))

unfoldable pub check_processing_one_address : ℕ → String → World → Bool
check_processing_one_address room_id address w =
    is_processing_one w.env.now
      (select (is_of_address w.env room_id address) w.notification_txs.rows)

unfoldable pub check_processing_addresses : ℕ → List String → World → Bool
check_processing_addresses room_id addresses w =
    any (λ address. check_processing_one_address room_id address w) addresses

-- `RoomNotificationTxService.createOne`
unfoldable pub create_notification_tx : ℕ → String → ChatJobName → ℕ → Exec RoomNotificationTx
create_notification_tx room_id address kind message_id w = (
  ok (row w.notification_txs.next_id),
  record w { notification_txs = insert row w.notification_txs },
)
  where
    row : ℕ → RoomNotificationTx
    row id = record {
      id = id;
      chat_room_id = room_id;
      message_id = message_id;
      wallet_address = address;
      status = MessageStatus.in_progress;
      kind = kind;
      created_at = w.env.now;
    }
