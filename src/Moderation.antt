-- ===== src/Moderation.antt =====
-- src/remove-message/services/remove-message.service.ts and
-- src/spam-report/services/spam-report.service.ts: hiding a message for oneself, and reporting one.
pub mod Once
use nestjs_ex.Entities.{Message, MessageType, RemoveMessage, SpamReport, message_type_eq}
use nestjs_ex.Member.{find_joined_member_by_user_id}
use nestjs_ex.Message.{find_message_by_id}
use nestjs_ex.Prelude.{
  Bool, Option, String, find_first, is_some, nat_eq, not, text_eq, ℕ, ◌&&◌, ◌==◌, ◌||◌,
}
use nestjs_ex.Store.{insert}
use nestjs_ex.World.{
  Exec, World, already_removed, already_reported, cannot_remove, cannot_report, gets, guard,
  message_not_found, modify, need, own_message, pure, user_not_in_room, ◌>>=◌, ◌>>◌,
}

abbrev pub is_notice : Message → Bool
is_notice m =
    (m.kind == MessageType.system)
    || (m.kind == MessageType.room_action)
    || (m.kind == MessageType.room_notification)

unfoldable pub find_removed : ℕ → ℕ → World → Option RemoveMessage
find_removed user_id message_id w =
    find_first (λ x. (x.user_id == user_id) && (x.message_id == message_id)) w.removed.rows

abbrev pub removed_row : ℕ → ℕ → ℕ → RemoveMessage
removed_row user_id message_id id = record { id = id; user_id = user_id; message_id = message_id }

unfoldable pub add_remove_message : ℕ → ℕ → Exec RemoveMessage
add_remove_message user_id message_id = do
  stored ← gets (find_message_by_id message_id)
  m ← need stored message_not_found
  guard (not (is_notice m)) cannot_remove
  joined ← gets (find_joined_member_by_user_id user_id m.chat_room_id)
  guard (is_some joined) user_not_in_room
  existing ← gets (find_removed user_id message_id)
  guard (not (is_some existing)) already_removed
  row ← gets (λ w. removed_row user_id message_id w.removed.next_id)
  modify (λ w. record w { removed = insert (removed_row user_id message_id) w.removed })
  pure row

pub record AddSpamReportInput : Type 0 where
  pub message_id : ℕ
  pub content : String

unfoldable pub find_report : ℕ → ℕ → World → Option SpamReport
find_report user_id message_id w =
    find_first (λ x. (x.user_id == user_id) && (x.message_id == message_id)) w.reports.rows

-- `type` is always 'spam' and `status` 'created'.
abbrev pub report_row : ℕ → AddSpamReportInput → ℕ → SpamReport
report_row user_id input id = record {
  id = id;
  user_id = user_id;
  message_id = input.message_id;
  content = input.content;
}

unfoldable pub add_spam_report : ℕ → AddSpamReportInput → Exec SpamReport
add_spam_report user_id input = do
  stored ← gets (find_message_by_id input.message_id)
  m ← need stored message_not_found
  guard (not (is_notice m)) cannot_report
  guard (not (m.user_id == user_id)) own_message
  joined ← gets (find_joined_member_by_user_id user_id m.chat_room_id)
  guard (is_some joined) user_not_in_room
  existing ← gets (find_report user_id input.message_id)
  guard (not (is_some existing)) already_reported
  row ← gets (λ w. report_row user_id input w.reports.next_id)
  modify (λ w. record w { reports = insert (report_row user_id input) w.reports })
  pure row
