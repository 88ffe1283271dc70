-- ===== src/Api/Leaving.antt =====
-- `leaveRoom`: the transaction that it asks for locks the address of the member that leaves.
use mathlib.Core.Path.{subst}
use nestjs_ex.Api.Lock.{not_both}
use nestjs_ex.ChatHelper.{
  ChatQueueData, SendChatQueueDataInput, find_room_by_id, get_data_for_chat_queue,
  send_chat_queue_data, write_leave, write_records,
}
use nestjs_ex.ChatHelper.Frame.{SameWorld, get_data_for_chat_queue-At}
use nestjs_ex.Entities.{
  MemberInRoom, MessageStatus, RoomNotificationTx, member_status_eq, message_status_eq,
}
use nestjs_ex.Member.{find_joined_member_by_user_id}
use nestjs_ex.Message.{create_notification_message, save_message}
use nestjs_ex.Prelude.{
  Has, Has-append_right, String, ap, arith, find_first-Has, inl, nat_beq, nat_beq_iff, nat_eq, refl,
  some, sym, text_eq, true, ℕ, ◌+◌, ◌<◌, ◌==◌, ◌∙◌, ◌≡◌, ◌≢◌,
}
use nestjs_ex.Room.Membership.{departure, leave_room}
use nestjs_ex.RoomNotificationTx.{create_notification_tx, ten_minutes}
use nestjs_ex.RoomNotificationTx.Window.{IsLive, check_processing_one_address_iff}
use nestjs_ex.World.{Result, World, modify, ok, ◌>>=◌}
use nestjs_ex.World.Laws.{At}
use nestjs_ex.World.Outcome.{
  bind-ok, gets-bind-ok, guard-bind-ok, need-bind-ok, need-ok, pure-ok, same_outcome,
}
use nestjs_ex.World.Refusal.{Refuses, Refuses-gets-bind, Refuses-guard-bind, Refuses-need-bind}

-- A row of the table says that a transaction of the room began now for the address.
abbrev pub Started : ℕ → String → World → World → Type 0
Started room_id address w v =
    (tx : RoomNotificationTx) × Has tx v.notification_txs.rows
    × (tx.chat_room_id ≡ room_id)
    × (tx.wallet_address ≡ address)
    × (tx.status ≡ MessageStatus.in_progress)
    × (tx.created_at ≡ w.env.now)

nat_beq-eq : (a b : ℕ) → nat_beq a b ≡ true → a ≡ b
nat_beq-eq a b h = (nat_beq_iff a b).0 h

-- The data of the job are those of the room of the request.
pub get_data_for_chat_queue-ok :
    (input : SendChatQueueDataInput) (w v : World) (q : ChatQueueData)
    → get_data_for_chat_queue input w ≡ (ok q, v)
    → (q.chat_room_id ≡ input.room_id) × (v ≡ w)
unfolding get_data_for_chat_queue find_room_by_id
get_data_for_chat_queue-ok input w v q h =
    let same = ap (λ (z : Result ChatQueueData × World). z.1) h in
    let kept = At.holds (get_data_for_chat_queue-At {F = SameWorld} {w = w} input) in
    let (room, u, hr, h1) = bind-ok _ _ w v q h in
    let (room_is, _) = need-ok _ _ w u room (gets-bind-ok _ _ w u room hr) in
    let (_, fits) = find_first-Has (λ r. r.id == input.room_id) w.rooms.rows room room_is in
    let h2 = gets-bind-ok _ _ u v q h1 in
    let (wallet, _, h3) = need-bind-ok _ _ _ u v q h2 in
    let (_, u2, _, h4) = bind-ok _ _ u v q h3 in
    let (_, h5) = guard-bind-ok _ _ _ u2 v q h4 in
    let (_, u3, _, h6) = bind-ok _ _ u2 v q h5 in
    let (q_is, _) = pure-ok _ q u3 v h6 in
    (
      sym (ap (λ (z : ChatQueueData). z.chat_room_id) q_is) ∙ nat_beq-eq room.id input.room_id fits,
      sym same ∙ kept,
    )

write_leave-ok :
    (input : SendChatQueueDataInput) (room_id : ℕ) (w v : World) (id : ℕ)
    → write_leave input room_id w ≡ (ok id, v)
    → Started room_id input.from_wallet_address w v
unfolding write_leave create_notification_message create_notification_tx save_message ◌>>=◌
write_leave-ok input room_id w v id h =
    let (_, v_is) = same_outcome h in
    subst (Started room_id input.from_wallet_address w) (sym v_is)
      (_, Has-append_right _ w.notification_txs.rows _ (inl refl), refl, refl, refl, refl)

departure-ok :
    (m : MemberInRoom) (user_id room_id : ℕ) (w v : World)
    → send_chat_queue_data (departure m user_id room_id) w ≡ (ok tt, v)
    → Started room_id m.wallet_address w v
unfolding send_chat_queue_data write_records modify
departure-ok m user_id room_id w v h =
    let (q, u, hq, h1) = bind-ok _ _ w v tt h in
    let (q_is, u_is) = get_data_for_chat_queue-ok (departure m user_id room_id) w u q hq in
    let (id, u2, hw, h2) = bind-ok _ _ u v tt h1 in
    let (_, v_is) = same_outcome h2 in
    let started = write_leave-ok (departure m user_id room_id) q.chat_room_id u u2 id hw in
    let here = subst (λ z. Started q.chat_room_id m.wallet_address z u2) u_is started in
    let there = subst (λ r. Started r m.wallet_address w u2) q_is here in
    subst (Started room_id m.wallet_address w) (sym v_is) there

in_progress-open :
    (s : MessageStatus)
    → s ≡ MessageStatus.in_progress
    → (s ≢ MessageStatus.completed) × (s ≢ MessageStatus.failed)
in_progress-open s e = ((λ c. cc (e, c)), λ c. cc (e, c))

-- In a later state that has the row, the address of the caller is in progress.
still_locked :
    (user_id room_id : ℕ) (address : String) (w u v : World)
    → Started room_id address w u
    → ((tx : RoomNotificationTx) → Has tx u.notification_txs.rows → Has tx v.notification_txs.rows)
    → v.env.now < w.env.now + ten_minutes
    → ((x : MemberInRoom)
        → find_joined_member_by_user_id user_id room_id v ≡ some x
        → v.env.same_text address x.wallet_address ≡ true)
    → Refuses v (leave_room user_id room_id)
unfolding leave_room
still_locked user_id room_id address w u v (tx, has, room, at, status, created) keep early same =
    Refuses-gets-bind _ _ (
      Refuses-need-bind _ _ _ λ x ex.
        let fits = ap (λ z. v.env.same_text z x.wallet_address) at ∙ same x ex in
        let (open_c, open_f) = in_progress-open tx.status status in
        let live : IsLive v room_id x.wallet_address tx =
          (keep tx has, room, fits, omega (arith, created, early), open_c, open_f) in
        let lock = (check_processing_one_address_iff room_id x.wallet_address v).1 (tx, live) in
        Refuses-gets-bind _ _ (Refuses-guard-bind _ _ _ λ free. absurd (not_both _ lock free)))

-- Once `leaveRoom` has returned, the same call throws and writes nothing in every state of the next ten minutes that
-- still has the rows that the table of the room's transactions has now: whatever else was written, as long as the
-- caller's joined row, where there is one, is at an address that the comparison finds equal. A transaction that fails
-- or ends changes such a row, and frees the address.
pub leave_room-again :
    (user_id room_id : ℕ) (w u v : World) (m : MemberInRoom)
    → leave_room user_id room_id w ≡ (ok m, u)
    → ((tx : RoomNotificationTx) → Has tx u.notification_txs.rows → Has tx v.notification_txs.rows)
    → v.env.now < w.env.now + ten_minutes
    → ((x : MemberInRoom)
        → find_joined_member_by_user_id user_id room_id v ≡ some x
        → v.env.same_text m.wallet_address x.wallet_address ≡ true)
    → Refuses v (leave_room user_id room_id)
unfolding leave_room
leave_room-again user_id room_id w u v m h keep early same =
    let h1 = gets-bind-ok _ _ w u m h in
    let (x, ex, h2) = need-bind-ok _ _ _ w u m h1 in
    let h3 = gets-bind-ok _ _ w u m h2 in
    let (_, h4) = guard-bind-ok _ _ _ w u m h3 in
    let (_, u1, hs, h5) = bind-ok _ _ w u m h4 in
    let (x_is, u_is) = pure-ok x m u1 u h5 in
    let began = departure-ok x user_id room_id w u1 hs in
    let here = subst (λ (z : MemberInRoom). Started room_id z.wallet_address w u1) x_is began in
    still_locked user_id room_id m.wallet_address w u v
      (subst (Started room_id m.wallet_address w) (sym u_is) here) keep early same
