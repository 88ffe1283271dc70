-- ===== src/RoomNotificationTx/Expiry.antt =====
-- src/room-notification-tx/services/room-notification-tx.service.ts: no address stays in progress.
use Prim.Native.Nat.{max}
use nestjs_ex.Entities.{RoomNotificationTx}
use nestjs_ex.Prelude.{
  Bool-cases, Has, List, String, [], any, arith, false, inl, inr, refl, ℕ, ◌+◌, ◌∷◌, ◌≡◌, ◌≤◌,
}
use nestjs_ex.RoomNotificationTx.{
  check_processing_addresses, check_processing_one_address, ten_minutes,
}
use nestjs_ex.RoomNotificationTx.Window.{check_processing_one_address_iff}
use nestjs_ex.World.{World, at_time}

-- The time from which on no row of the list keeps an address in progress.
abbrev all_expired : List RoomNotificationTx → ℕ
all_expired [] = 0
all_expired (tx ∷ txs) = max (tx.created_at + ten_minutes) (all_expired txs)

expired :
    (txs : List RoomNotificationTx) (tx : RoomNotificationTx)
    → Has tx txs
    → tx.created_at + ten_minutes ≤ all_expired txs
expired [] tx m = absurd m
expired (y ∷ ys) tx (inl e) = ground (arith, e)
expired (y ∷ ys) tx (inr m) = omega (arith, expired ys tx m)

one_expired :
    (w : World) (t room_id : ℕ) (address : String)
    → all_expired w.notification_txs.rows ≤ t
    → check_processing_one_address room_id address (at_time t w) ≡ false
one_expired w t room_id address late =
    elim (Bool-cases (check_processing_one_address room_id address (at_time t w))) [
      | inl live ↦
          let (tx, (stored, _, _, young, _, _)) =
            (check_processing_one_address_iff room_id address (at_time t w)).0 live in
          absurd (omega (arith, late, young, expired w.notification_txs.rows tx stored))
      | inr e ↦ e
    ]

-- From some time on, no address is in progress in any room, whether the transactions end or not, as
-- long as none is added.
pub check_processing_addresses-expires :
    (w : World)
    → (limit : ℕ) × ((t : ℕ)
        → limit ≤ t
        → (room_id : ℕ) (addresses : List String)
        → check_processing_addresses room_id addresses (at_time t w) ≡ false)
unfolding check_processing_addresses
check_processing_addresses-expires w = (
  all_expired w.notification_txs.rows,
  λ t late room_id addresses. all_one addresses t room_id late,
)
  where
    all_one :
        (addresses : List String) (t room_id : ℕ)
        → all_expired w.notification_txs.rows ≤ t
        → any (λ address. check_processing_one_address room_id address (at_time t w)) addresses
          ≡ false
    all_one [] t room_id late = refl
    all_one (a ∷ as') t room_id late =
        rw (one_expired w t room_id a late) (all_one as' t room_id late)
