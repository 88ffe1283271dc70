-- ===== src/Room/Failed.antt =====
-- src/chat-room/services/chat-room.service.ts, `resendChatRoom` and `removeFailChatRoom`: what becomes of
-- a room whose deployment failed.
use nestjs_ex.ChatHelper.Frame.{send_chat_queue_data-At}
use nestjs_ex.Entities.{
  ChatRoom, ChatRoomStatus, MemberInRoom, Role, member_status_eq, role_beq_iff, role_eq,
  room_status_beq, room_status_beq_iff, room_status_eq,
}
use nestjs_ex.Member.{find_joined_member_by_user_id, is_room_owner}
use nestjs_ex.Prelude.{
  Has, ap, find_first-Has, nat_beq_iff, nat_eq, some, sym, text_eq, true, ℕ, ◌==◌, ◌∙◌, ◌≡◌,
}
use nestjs_ex.Room.{
  get_chat_room_by_id, redeployment, remove_fail_chat_room, resend_chat_room, update_room,
}
use nestjs_ex.Store.{update_rows}
use nestjs_ex.World.{World, modify, not_awaited, ok}
use nestjs_ex.World.Laws.{At}
use nestjs_ex.World.Outcome.{
  bind-ok, gets-bind-ok, guard-bind-ok, need-bind-ok, need-ok, pure-ok, same_outcome,
}

room_of-ok :
    (id : ℕ) (w v : World) (room : ChatRoom)
    → get_chat_room_by_id id w ≡ (ok room, v)
    → Has room w.rooms.rows × (room.id ≡ id) × (v ≡ w)
unfolding get_chat_room_by_id
room_of-ok id w v room h =
    let (e, v_is) = need-ok _ _ w v room (gets-bind-ok _ _ w v room h) in
    let (has, same) = find_first-Has (λ r. r.id == id) w.rooms.rows room e in
    (has, (nat_beq_iff room.id id).0 same, v_is)

room_status-eq : (a b : ChatRoomStatus) → room_status_beq a b ≡ true → a ≡ b
room_status-eq a b h = (room_status_beq_iff a b).0 h

-- The row `old` of the room, now with another status, is all that differs between the tables of rooms.
abbrev pub Restatused : ℕ → ChatRoomStatus → ChatRoomStatus → World → World → ChatRoom → Type 0
Restatused id before after w v room =
    (old : ChatRoom) × Has old w.rooms.rows
    × (old.id ≡ id)
    × (old.status ≡ before)
    × (room ≡ record old { status = after; updated_at = w.env.now })
    × (v.rooms ≡ update_rows (λ x. x.id == id) (λ x. room) w.rooms)

-- Where `removeFailChatRoom` returns, the room had the status `failed`, a row of the caller with the role
-- owner was the first of the caller's rows in the room, and the room is now `cancel`, which is all that
-- has changed of the table of rooms.
pub remove_fail_chat_room-ok :
    (user_id id : ℕ) (w v : World) (room : ChatRoom)
    → remove_fail_chat_room user_id id w ≡ (ok room, v)
    → Restatused id ChatRoomStatus.failed ChatRoomStatus.cancel w v room
      × (is_room_owner user_id id w ≡ true)
unfolding remove_fail_chat_room update_room modify
remove_fail_chat_room-ok user_id id w v room h =
    let (old, u, hr, h1) = bind-ok _ _ w v room h in
    let (has, same, u_is) = room_of-ok id w u old hr in
    let (failed, h2) = guard-bind-ok _ _ _ u v room h1 in
    let h3 = gets-bind-ok _ _ u v room h2 in
    let (own, h4) = guard-bind-ok _ _ _ u v room h3 in
    let h5 = gets-bind-ok _ _ u v room h4 in
    let (_, u2, hu, h6) = bind-ok _ _ u v room h5 in
    let (_, u2_is) = same_outcome hu in
    let (room_is, v_is) = pure-ok _ room u2 v h6 in
    let changed = λ (now : ℕ). record old { status = ChatRoomStatus.cancel; updated_at = now } in
    let room_eq = sym room_is ∙ ap (λ (z : World). changed z.env.now) u_is in
    let rooms =
      ap (λ (z : World). z.rooms) (v_is ∙ u2_is)
      ∙ ap (λ (z : World). update_rows (λ x. x.id == old.id) (λ x. changed z.env.now) z.rooms) u_is
      ∙ ap (λ n. update_rows (λ x. x.id == n) (λ x. changed w.env.now) w.rooms) same
      ∙ ap (λ y. update_rows (λ x. x.id == id) (λ x. y) w.rooms) (sym room_eq) in
    (
      (old, has, same, room_status-eq old.status ChatRoomStatus.failed failed, room_eq, rooms),
      ap (λ (z : World). is_room_owner user_id id z) (sym u_is)
          ∙ ap (λ n. is_room_owner user_id n u) (sym same)
          ∙ own,
    )

-- Where `resendChatRoom` returns, the room had the status `failed`, the caller has a joined row with the
-- role owner, and the room is now `created`, which is all that has changed of the table of rooms, whether
-- or not the redeployment that is not awaited could be queued.
pub resend_chat_room-ok :
    (user_id id : ℕ) (w v : World) (room : ChatRoom)
    → resend_chat_room user_id id w ≡ (ok room, v)
    → Restatused id ChatRoomStatus.failed ChatRoomStatus.created w v room
      × ((owner : MemberInRoom) × (find_joined_member_by_user_id user_id id w ≡ some owner)
          × (owner.role ≡ Role.owner))
unfolding resend_chat_room update_room modify not_awaited
resend_chat_room-ok user_id id w v room h =
    let (old, u, hr, h1) = bind-ok _ _ w v room h in
    let (has, same, u_is) = room_of-ok id w u old hr in
    let (failed, h2) = guard-bind-ok _ _ _ u v room h1 in
    let h3 = gets-bind-ok _ _ u v room h2 in
    let (owner, eo, h3') = need-bind-ok _ _ _ u v room h3 in
    let (own, h4) = guard-bind-ok _ _ _ u v room h3' in
    let h5 = gets-bind-ok _ _ u v room h4 in
    let (_, u2, hu, h6) = bind-ok _ _ u v room h5 in
    let (_, u2_is) = same_outcome hu in
    let (_, u3, hn, h7) = bind-ok _ _ u2 v room h6 in
    let (_, u3_is) = same_outcome hn in
    let (room_is, v_is) = pure-ok _ room u3 v h7 in
    let changed = λ (now : ℕ). record old { status = ChatRoomStatus.created; updated_at = now } in
    let room_eq = sym room_is ∙ ap (λ (z : World). changed z.env.now) u_is in
    let (_, queued, _, _) = At.holds (send_chat_queue_data-At {w = u2} (redeployment owner old)) in
    let rooms =
      ap (λ (z : World). z.rooms) (v_is ∙ u3_is)
      ∙ queued
      ∙ ap (λ (z : World). z.rooms) u2_is
      ∙ ap (λ (z : World). update_rows (λ x. x.id == old.id) (λ x. changed z.env.now) z.rooms) u_is
      ∙ ap (λ n. update_rows (λ x. x.id == n) (λ x. changed w.env.now) w.rooms) same
      ∙ ap (λ y. update_rows (λ x. x.id == id) (λ x. y) w.rooms) (sym room_eq) in
    (
      (old, has, same, room_status-eq old.status ChatRoomStatus.failed failed, room_eq, rooms),
      (
        owner,
        ap (λ (z : World). find_joined_member_by_user_id user_id id z) (sym u_is)
            ∙ ap (λ n. find_joined_member_by_user_id user_id n u) (sym same)
            ∙ eo,
        (role_beq_iff owner.role Role.owner).0 own,
      ),
    )
