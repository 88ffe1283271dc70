-- ===== src/Sending/Marks.antt =====
-- src/message/services/message.service.ts, lines 217 to 307 and 1118 to 1163: pinning a message, and
-- taking it back.
use nestjs_ex.Entities.{
  ChatJobName, MemberStatus, Message, MessageStatus, Notification, SocketType, member_status_eq,
  message_status_eq, message_type_eq,
}
use nestjs_ex.Member.{add_notification_to_queue, find_room_member, get_joined_members_in_room}
use nestjs_ex.Message.{find_message_by_id}
use nestjs_ex.Prelude.{
  Bool, Option, String, false, find_first, if◌then◌else◌, is_some, nat_eq, some, text_eq, true, ℕ,
  ◌==◌,
}
use nestjs_ex.Sending.{update_message}
use nestjs_ex.Store.{update_rows}
use nestjs_ex.World.{
  Exec, for_each, gets, guard, message_not_found, modify, need, no_execute_permission, pure,
  type_error, user_not_in_room, ◌>>=◌, ◌>>◌,
}

abbrev pin_notification : Message → Option String → Bool → ℕ → Notification
pin_notification m title pinned user_id = record {
  user_id = user_id;
  kind = SocketType.pin_message;
  room_id = m.chat_room_id;
  action = if pinned then ChatJobName.pin_message else ChatJobName.unpin_message;
  message_id = some m.id;
  title = title;
  body = if pinned then "A message 's pinned" else "A message 's unpinned";
}

-- `pinMessageById` and `unpinMessageById`, which differ in the flag. A missing room throws at
-- `room.name` only after the write, and only if there is someone to tell.
unfoldable pub set_pinned : Bool → ℕ → ℕ → Exec (Unit {0})
set_pinned pinned user_id id = do
  stored ← gets (find_message_by_id id)
  m ← need stored message_not_found
  joined ← gets (get_joined_members_in_room m.chat_room_id)
  guard (is_some (find_first (λ x. x.user_id == user_id) joined)) user_not_in_room
  room ← gets (λ w. find_first (λ r. r.id == m.chat_room_id) w.rooms.rows)
  now ← gets (λ w. w.env.now)
  update_message (record m { is_pinned = pinned; updated_at = now })
  for_each joined (λ x. do
    r ← need room type_error
    add_notification_to_queue (pin_notification m r.name pinned x.user_id))
  pure tt

unfoldable pub pin_message_by_id : ℕ → ℕ → Exec (Unit {0})
pin_message_by_id = set_pinned true

unfoldable pub unpin_message_by_id : ℕ → ℕ → Exec (Unit {0})
unpin_message_by_id = set_pinned false

abbrev retrieval : ℕ → ℕ → ℕ → Notification
retrieval room_id id user_id = record {
  user_id = user_id;
  kind = SocketType.message_retrieve;
  room_id = room_id;
  action = ChatJobName.retrieve_message;
  message_id = some id;
  title = some "Message retrieved";
  body = "has hide message to group ";
}

unfoldable pub retrieve_message : ℕ → ℕ → Exec (Unit {0})
retrieve_message user_id id = do
  stored ← gets (find_message_by_id id)
  m ← need stored type_error
  guard (m.user_id == user_id) no_execute_permission
  modify (λ w. record w {
    messages =
        update_rows (λ x. x.id == id) (λ x. record x { status = MessageStatus.hidden }) w.messages;
  })
  members ← gets (find_room_member m.chat_room_id MemberStatus.joined)
  for_each members (λ x. add_notification_to_queue (retrieval m.chat_room_id id x.user_id))
  pure tt
