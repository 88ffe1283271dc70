-- ===== src/Sending/Delivery.antt =====
-- src/message/services/message.service.ts, `sendMessage` and `resendMessage`: when a message is sent, and
-- what is written then.
use nestjs_ex.Api.Rooms.{get_sender-At}
use nestjs_ex.ChatHelper.{send_chat_queue_data, write_records}
use nestjs_ex.ChatHelper.Frame.{SameWorld, get_data_for_chat_queue-At}
use nestjs_ex.Entities.{
  ChatRoom, ChatRoomStatus, MemberInRoom, Message, MessageStatus, User, UserSetting,
  member_status_eq, message_status_beq_iff, message_status_eq, message_type_eq, room_status_beq_iff,
  room_status_eq,
}
use nestjs_ex.Member.{find_joined_member_by_user_id}
use nestjs_ex.Message.{find_message_by_id, save_message}
use nestjs_ex.Prelude.{
  Bool, Option, String, [], ap, false, find_first, find_first-Has, nat_beq_iff, nat_eq, none, refl,
  some, some-inj, sym, text_eq, true, ℕ, ◌++◌, ◌==◌, ◌∙◌, ◌∷◌, ◌≡◌, ◌≢◌,
}
use nestjs_ex.Sender.{Sender, SenderInfo, get_sender, get_user_for_send_message, sender_row}
use nestjs_ex.Sending.{SendMessageInput, deliver, get_deployed_room_by_id, send_message}
use nestjs_ex.Sending.Again.{resend_message}
use nestjs_ex.Store.{Table}
use nestjs_ex.World.{Result, World, ok}
use nestjs_ex.World.Laws.{At, At-bind, At-gets-bind, At-modify, At-need-bind, At-pure, Frame}
use nestjs_ex.World.Outcome.{
  bind-ok, gets-bind-ok, guard-bind-ok, need-bind-ok, pure-ok, same_outcome,
}
use nestjs_ex.World.Refusal.{
  Refuses, Refuses-after, Refuses-bind, Refuses-gets-bind, Refuses-guard-bind, Refuses-need-bind,
}

not_deployed-get_deployed_room :
    (id : ℕ) (w : World) (room : ChatRoom)
    → find_first (λ r. r.id == id) w.rooms.rows ≡ some room
    → room.status ≢ ChatRoomStatus.deployed
    → Refuses w (get_deployed_room_by_id id)
unfolding get_deployed_room_by_id
not_deployed-get_deployed_room id w room e shut = Refuses-gets-bind _ _ (
    Refuses-need-bind _ _ _ λ x ex.
      Refuses-guard-bind _ _ _
        λ open_room. Refuses-guard-bind _ _ _ λ ready. absurd (shut (same_status x ex ready)))
  where
    same_status :
        (x : ChatRoom)
        → find_first (λ r. r.id == id) w.rooms.rows ≡ some x
        → (x.status == ChatRoomStatus.deployed) ≡ true
        → room.status ≡ ChatRoomStatus.deployed
    same_status x ex ready =
        ap (λ (z : ChatRoom). z.status) (some-inj (sym e ∙ ex))
        ∙ (room_status_beq_iff x.status ChatRoomStatus.deployed).0 ready

-- While a room has another status than `deployed`, nobody can send a message to it: the call throws and
-- writes nothing.
pub send_message-not_deployed :
    (user_id : ℕ) (input : SendMessageInput) (w : World) (room : ChatRoom)
    → find_first (λ r. r.id == input.chat_room_id) w.rooms.rows ≡ some room
    → room.status ≢ ChatRoomStatus.deployed
    → Refuses w (send_message user_id input)
unfolding send_message
send_message-not_deployed user_id input w room e shut =
    Refuses-after _ _ (At.holds (get_sender-At {F = SameWorld} {w = w} user_id))
      λ s. Refuses-bind _ _ (not_deployed-get_deployed_room input.chat_room_id w room e shut)

-- The messages stay.
abbrev SameMessages : Frame
SameMessages = record {
  Rel = λ v w. w.messages ≡ v.messages;
  same = λ w. refl;
  trans = λ u v w p q. q ∙ p;
}

-- A delivery puts a job on the queue and writes no message.
deliver-At :
    {w : World} (g : Bool) (user_id : ℕ) (address : String) (content : Option String)
    (room_id message_id : ℕ)
    → At SameMessages w (deliver g user_id address content room_id message_id)
unfolding deliver send_chat_queue_data write_records
deliver-At true user_id address content room_id message_id =
    At-bind _ _ (get_data_for_chat_queue-At _)
      λ q u. At-bind _ _ (At-pure _) λ id v. At-modify _ refl
deliver-At false user_id address content room_id message_id = At-gets-bind _ _ (
    At-need-bind _ _ _ λ other e.
      At-bind _ _ (get_data_for_chat_queue-At _)
        λ q u. At-bind _ _ (At-pure _) λ id v. At-modify _ refl)

pub get_deployed_room_by_id-ok :
    (id : ℕ) (w v : World) (room : ChatRoom)
    → get_deployed_room_by_id id w ≡ (ok room, v)
    → (find_first (λ r. r.id == id) w.rooms.rows ≡ some room)
      × (room.status ≡ ChatRoomStatus.deployed)
      × (v ≡ w)
unfolding get_deployed_room_by_id
get_deployed_room_by_id-ok id w v room h =
    let (found, e, h1) = need-bind-ok _ _ _ w v room (gets-bind-ok _ _ w v room h) in
    let (_, h2) = guard-bind-ok _ _ _ w v room h1 in
    let (ready, h3) = guard-bind-ok _ _ _ w v room h2 in
    let (same, v_is) = pure-ok found room w v h3 in
    (
      e ∙ ap some same,
      ap (λ (z : ChatRoom). z.status) (sym same)
          ∙ (room_status_beq_iff found.status ChatRoomStatus.deployed).0 ready,
      v_is,
    )

sender_row-id :
    (user : Option User) (setting : Option UserSetting) (w : World) (info : SenderInfo) (id : ℕ)
    → ((u : User) → user ≡ some u → u.id ≡ id)
    → sender_row user setting w ≡ some info
    → info.id ≡ id
sender_row-id none setting w info id h e = absurd (cc e)
sender_row-id (some u) none w info id h e = absurd (cc e)
sender_row-id (some u) (some s) w info id h e =
    sym (ap (λ (z : SenderInfo). z.id) (some-inj e)) ∙ h u refl

-- The sender is the caller.
pub get_sender-id :
    (user_id : ℕ) (w v : World) (s : Sender) → get_sender user_id w ≡ (ok s, v) → s.id ≡ user_id
unfolding get_sender get_user_for_send_message
get_sender-id user_id w v s h =
    let (info, e, h1) = need-bind-ok _ _ _ w v s (gets-bind-ok _ _ w v s h) in
    let (address, _, h2) = need-bind-ok _ _ _ w v s h1 in
    let (_, h3) = guard-bind-ok _ _ _ w v s h2 in
    let (_, h4) = guard-bind-ok _ _ _ w v s h3 in
    let (s_is, _) = pure-ok _ s w v h4 in
    sym (ap (λ (z : Sender). z.id) s_is)
    ∙ sender_row-id _ _ w info user_id
        (λ u eu.
          (nat_beq_iff u.id user_id).0 (find_first-Has (λ x. x.id == user_id) w.users.rows u eu).1)
        e

-- Where `sendMessage` returns: the room exists and is deployed, the caller has a joined row in it, the
-- request names a known kind of message, and the messages are those from before and, after them, the
-- one that is returned: in progress, the caller's, to the room, with the kind and content of the
-- request.
pub send_message-ok :
    (user_id : ℕ) (input : SendMessageInput) (w v : World) (m : Message)
    → send_message user_id input w ≡ (ok m, v)
    → ((room : ChatRoom) × (find_first (λ r. r.id == input.chat_room_id) w.rooms.rows ≡ some room)
        × (room.status ≡ ChatRoomStatus.deployed))
      × ((joined : MemberInRoom) × (find_joined_member_by_user_id user_id input.chat_room_id w
            ≡ some joined))
      × (input.kind ≡ some m.kind)
      × (m.status ≡ MessageStatus.in_progress)
      × (m.user_id ≡ user_id)
      × (m.chat_room_id ≡ input.chat_room_id)
      × (m.content ≡ input.content)
      × (v.messages.rows ≡ w.messages.rows ++ m ∷ [])
unfolding send_message save_message
send_message-ok user_id input w v m h =
    let (s, u, hs, h1) = bind-ok _ _ w v m h in
    let u_is =
      sym (ap (λ (z : Result Sender × World). z.1) hs)
      ∙ At.holds (get_sender-At {F = SameWorld} {w = w} user_id) in
    let (room, u1, hr, h2) = bind-ok _ _ u v m h1 in
    let (found, ready, u1_is) = get_deployed_room_by_id-ok input.chat_room_id u u1 room hr in
    let start = u1_is ∙ u_is in
    let h3 = gets-bind-ok _ _ u1 v m h2 in
    let (joined, ej, h4) = need-bind-ok _ _ _ u1 v m h3 in
    let (kind, ek, h5) = need-bind-ok _ _ _ u1 v m h4 in
    let h6 = gets-bind-ok _ _ u1 v m h5 in
    let (msg, u2, hm, h7) = bind-ok _ _ u1 v m h6 in
    let (msg_is, u2_is) = same_outcome hm in
    let (_, u3, hd, h8) = bind-ok _ _ u2 v m h7 in
    let (m_is, v_is) = pure-ok msg m u3 v h8 in
    let whole = msg_is ∙ m_is in
    let delivered =
      sym (ap (λ (z : Result (Unit {0}) × World). z.1.messages) hd)
      ∙ At.holds (
          deliver-At {w = u2} room.is_group user_id s.address input.content input.chat_room_id
            msg.id) in
    let rows =
      ap (λ (z : World). z.messages.rows) v_is
      ∙ ap (λ (z : Table Message). z.rows) delivered
      ∙ ap (λ (z : World). z.messages.rows) u2_is in
    (
      (
        room,
        ap (λ (z : World). find_first (λ (r : ChatRoom). r.id == input.chat_room_id) z.rooms.rows)
              (sym u_is)
            ∙ found,
        ready,
      ),
      (
        joined,
        ap (λ (z : World). find_joined_member_by_user_id user_id input.chat_room_id z) (sym start)
            ∙ ej,
      ),
      ek ∙ ap (λ (z : Message). some z.kind) whole,
      ap (λ (z : Message). z.status) (sym whole),
      ap (λ (z : Message). z.user_id) (sym whole) ∙ get_sender-id user_id w u s hs,
      ap (λ (z : Message). z.chat_room_id) (sym whole),
      ap (λ (z : Message). z.content) (sym whole),
      rows
          ∙ ap (λ (z : Message). u1.messages.rows ++ z ∷ []) whole
          ∙ ap (λ (z : World). z.messages.rows ++ m ∷ []) start,
    )

-- Where `resendMessage` returns, the message exists, had failed and is the caller's, and its room exists
-- and is deployed.
pub resend_message-ok :
    (user_id id : ℕ) (w v : World) (o : Option Message)
    → resend_message user_id id w ≡ (ok o, v)
    → (old : Message) × (find_message_by_id id w ≡ some old)
      × (old.status ≡ MessageStatus.failed)
      × (old.user_id ≡ user_id)
      × ((room : ChatRoom) × (find_first (λ r. r.id == old.chat_room_id) w.rooms.rows ≡ some room)
          × (room.status ≡ ChatRoomStatus.deployed))
unfolding resend_message
resend_message-ok user_id id w v o h =
    let (s, u, hs, h1) = bind-ok _ _ w v o h in
    let u_is =
      sym (ap (λ (z : Result Sender × World). z.1) hs)
      ∙ At.holds (get_sender-At {F = SameWorld} {w = w} user_id) in
    let (old, found, h2) = need-bind-ok _ _ _ u v o (gets-bind-ok _ _ u v o h1) in
    let (failed, h3) = guard-bind-ok _ _ _ u v o h2 in
    let (own, h4) = guard-bind-ok _ _ _ u v o h3 in
    let (room, u1, hr, _) = bind-ok _ _ u v o h4 in
    let (room_found, ready, _) = get_deployed_room_by_id-ok old.chat_room_id u u1 room hr in
    (
      old,
      ap (λ (z : World). find_message_by_id id z) (sym u_is) ∙ found,
      (message_status_beq_iff old.status MessageStatus.failed).0 failed,
      (nat_beq_iff old.user_id user_id).0 own,
      (
        room,
        ap (λ (z : World). find_first (λ (r : ChatRoom). r.id == old.chat_room_id) z.rooms.rows)
              (sym u_is)
            ∙ room_found,
        ready,
      ),
    )
