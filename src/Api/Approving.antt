-- ===== src/Api/Approving.antt =====
-- `approveMember`: what it checks, and what it asks the chain for.
use mathlib.Core.Path.{subst}
use nestjs_ex.Api.Leaving.{get_data_for_chat_queue-ok}
use nestjs_ex.ChatHelper.{
  SendChatQueueDataInput, chat_job, notify_receiver, send_chat_queue_data, write_notifications,
  write_records,
}
use nestjs_ex.ChatHelper.Frame.{send_chat_queue_data-At}
use nestjs_ex.Entities.{
  ChatJob, ChatJobName, MemberInRoom, Message, MessageStatus, MessageType, Role, role_beq_iff,
  role_eq,
}
use nestjs_ex.Member.{find_joined_member_by_user_id}
use nestjs_ex.Member.Approve.{ApproveMembersInput, approval, approve_member, is_pending_at}
use nestjs_ex.Message.{create_notification_message, save_message}
use nestjs_ex.Prelude.{
  Bool, List, String, [], ap, arith, false, not, refl, select, some, sym, true, ℕ, ◌++◌, ◌==◌, ◌∙◌,
  ◌∷◌, ◌≡◌, ◌≢◌,
}
use nestjs_ex.RoomNotificationTx.{check_processing_addresses, create_notification_tx}
use nestjs_ex.World.{Result, World, modify, ok}
use nestjs_ex.World.Laws.{At, At-bind, At-for_each, At-not_awaited, At-pure, Frame}
use nestjs_ex.World.Outcome.{
  bind-ok, gets-bind-ok, guard-bind-ok, need-bind-ok, pure-ok, same_outcome,
}

-- The messages and the chat queue stay.
abbrev SameSent : Frame
SameSent = record {
  Rel = λ v w. (w.messages ≡ v.messages) × (w.chat_queue ≡ v.chat_queue);
  same = λ w. (refl, refl);
  trans = λ u v w p q. (q.0 ∙ p.0, q.1 ∙ p.1);
}

create_notification_tx-SameSent :
    {w : World} (room_id : ℕ) (address : String) (kind : ChatJobName) (id : ℕ)
    → At SameSent w (create_notification_tx room_id address kind id)
unfolding create_notification_tx
create_notification_tx-SameSent room_id address kind id = record { holds = (refl, refl) }

notify_receiver-SameSent :
    {w : World} (room_id : ℕ) (kind : ChatJobName) (id : ℕ) (address : String)
    → At SameSent w (notify_receiver room_id kind id address)
unfolding notify_receiver
notify_receiver-SameSent room_id kind id address =
    At-not_awaited _ (At-bind _ _ (create_notification_tx-SameSent _ _ _ _) λ _ v. At-pure tt)

-- One message of the room is added, whatever becomes of the rows for the receivers.
abbrev Noted : SendChatQueueDataInput → ℕ → ℕ → World → World → Type 0
Noted input room_id id w v =
    (message : Message) × (v.messages.rows ≡ w.messages.rows ++ message ∷ [])
    × (message.id ≡ id)
    × (message.chat_room_id ≡ room_id)
    × (message.user_id ≡ input.from_user_id)
    × (message.kind ≡ MessageType.room_notification)
    × (message.status ≡ MessageStatus.in_progress)

write_notifications-ok :
    (input : SendChatQueueDataInput) (room_id : ℕ) (w v : World) (id : ℕ)
    → write_notifications input room_id w ≡ (ok id, v)
    → Noted input room_id id w v × (v.chat_queue ≡ w.chat_queue)
unfolding write_notifications create_notification_message save_message
write_notifications-ok input room_id w v id h =
    let (message, u, hm, h1) = bind-ok _ _ w v id h in
    let (message_is, u_is) = same_outcome hm in
    let (rows, u2, hr, h2) = bind-ok _ _ u v id h1 in
    let (id_is, v_is) = pure-ok _ id u2 v h2 in
    let kept = At.holds (
      At-for_each {F = SameSent} input.to_wallet_addresses
        (notify_receiver room_id input.job_name message.id)
        (λ a z. notify_receiver-SameSent room_id input.job_name message.id a) u) in
    let u2_is = ap (λ (z : Result (List (Unit {0})) × World). z.1) hr in
    let back = v_is ∙ sym u2_is in
    (
      (
        _,
        ap (λ (z : World). z.messages.rows) back
            ∙ ap (λ t. t.rows) kept.0
            ∙ ap (λ (z : World). z.messages.rows) u_is,
        ap (λ (z : Message). z.id) message_is ∙ id_is,
        refl,
        refl,
        refl,
        refl,
      ),
      ap (λ (z : World). z.chat_queue) back ∙ kept.1 ∙ ap (λ (z : World). z.chat_queue) u_is,
    )

-- What a call that returned has checked and written.
pub record IsApproved (user_id : ℕ) (input : ApproveMembersInput) (w v : World)
    (ms : List MemberInRoom) : Type 0 where
  pub sender : MemberInRoom
  pub joined : find_joined_member_by_user_id user_id input.room_id w ≡ some sender
  pub senior : sender.role ≢ Role.member
  pub free : check_processing_addresses input.room_id input.addresses w ≡ false
  pub returned : ms ≡ select (is_pending_at w.env input) w.members.rows
  pub members_kept : v.members ≡ w.members
  pub message : Message
  pub saved : v.messages.rows ≡ w.messages.rows ++ message ∷ []
  pub message_room : message.chat_room_id ≡ input.room_id
  pub message_user : message.user_id ≡ sender.user_id
  pub message_kind : message.kind ≡ MessageType.room_notification
  pub message_status : message.status ≡ MessageStatus.in_progress
  pub job : ChatJob
  pub queued : v.chat_queue ≡ w.chat_queue ++ job ∷ []
  pub job_kind : job.kind ≡ ChatJobName.accept_join_group
  pub job_room : job.chat_room_id ≡ input.room_id
  pub job_message : job.message_id ≡ message.id
  pub job_addresses : job.to_addresses ≡ input.addresses

approval-ok :
    (user_id : ℕ) (input : ApproveMembersInput) (sender : MemberInRoom) (w v : World)
    → find_joined_member_by_user_id user_id input.room_id w ≡ some sender
    → sender.role ≢ Role.member
    → check_processing_addresses input.room_id input.addresses w ≡ false
    → send_chat_queue_data
        (approval input sender (select (is_pending_at w.env input) w.members.rows))
        w
      ≡ (ok tt, v)
    → IsApproved user_id input w v (select (is_pending_at w.env input) w.members.rows)
unfolding send_chat_queue_data write_records modify
approval-ok user_id input sender w v joined senior free h =
    let asked = approval input sender (select (is_pending_at w.env input) w.members.rows) in
    let rooms_kept = At.holds (send_chat_queue_data-At {w = w} asked) in
    let (q, u, hq, h1) = bind-ok _ _ w v tt h in
    let (q_is, u_is) = get_data_for_chat_queue-ok asked w u q hq in
    let (id, u2, hw, h2) = bind-ok _ _ u v tt h1 in
    let (_, v_is) = same_outcome h2 in
    let ((message, saved, named, room, by, kind, status), queue) =
      write_notifications-ok asked q.chat_room_id u u2 id hw in
    record {
      sender = sender;
      joined = joined;
      senior = senior;
      free = free;
      returned = refl;
      members_kept = ap (λ (z : Result (Unit {0}) × World). z.1.members) (sym h) ∙ rooms_kept.0;
      message = message;
      saved =
          ap (λ (z : World). z.messages.rows) v_is
          ∙ saved
          ∙ ap (λ (z : World). z.messages.rows ++ message ∷ []) u_is;
      message_room = room ∙ q_is;
      message_user = by;
      message_kind = kind;
      message_status = status;
      job = chat_job asked q id;
      queued =
          ap (λ (z : World). z.chat_queue) v_is
          ∙ ap (λ l. l ++ chat_job asked q id ∷ []) (queue ∙ ap (λ (z : World). z.chat_queue) u_is);
      job_kind = refl;
      job_room = q_is;
      job_message = sym named;
      job_addresses = refl;
    }

-- Where `approveMember` returns: the caller is a joined member of the room and not a plain one, and no address of
-- the request was in progress. No member is changed yet, and those that are returned are the ones that the request
-- names and that wait. One message of the caller to the room, in progress, is added, and one job that names it:
-- it asks the chain to let in every address of the request, also one of which no member was waiting.
pub approve_member-ok :
    (user_id : ℕ) (input : ApproveMembersInput) (w v : World) (ms : List MemberInRoom)
    → approve_member user_id input w ≡ (ok ms, v)
    → IsApproved user_id input w v ms
unfolding approve_member
approve_member-ok user_id input w v ms h =
    let h1 = gets-bind-ok _ _ w v ms h in
    let (sender, joined, h2) = need-bind-ok _ _ _ w v ms h1 in
    let (senior, h3) = guard-bind-ok _ _ _ w v ms h2 in
    let h4 = gets-bind-ok _ _ w v ms h3 in
    let h5 = gets-bind-ok _ _ w v ms h4 in
    let (free, h6) = guard-bind-ok _ _ _ w v ms h5 in
    let (_, u, hs, h7) = bind-ok _ _ w v ms h6 in
    let (ms_is, v_is) = pure-ok _ ms u v h7 in
    subst (λ l. IsApproved user_id input w v l) ms_is
      (subst (λ z. IsApproved user_id input w z (select (is_pending_at w.env input) w.members.rows))
        (sym v_is)
        (approval-ok user_id input sender w u joined (is_senior sender.role senior) (is_not _ free)
          hs))
  where
    is_not : (b : Bool) → not b ≡ true → b ≡ false
    is_not b e = ground arith

    is_senior : (r : Role) → not (r == Role.member) ≡ true → r ≢ Role.member
    is_senior r e same = let t = (role_beq_iff r Role.member).1 same in ground (arith, e, t)
