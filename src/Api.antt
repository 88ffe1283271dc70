-- ===== src/Api.antt =====
-- The calls of the chat API that change the state, over the services of the modules below: one
-- constructor for each handler of the room, member, message, block and report controllers.
pub mod Membership
pub mod Removal
pub mod Rooms
pub mod Messages
pub mod Payloads
pub mod Lifecycle
pub mod Lock
pub mod Leaving
pub mod Approving
use nestjs_ex.FileMessage.{CreateFileMessageInput, create_file_message}
use nestjs_ex.Files.{MulterFile}
use nestjs_ex.Member.Approve.{
  ApproveMembersInput, EditMemberRoleInput, approve_member, edit_member_role,
}
use nestjs_ex.Member.Invite.{AddMembersToRoomInput, add_member_list_to_room}
use nestjs_ex.Member.Preferences.{
  mute_chat_room_by_id, pin_chat_room_by_id, unmute_chat_room_by_id, unpin_chat_room_by_id,
  update_last_time_viewed,
}
use nestjs_ex.Member.Remove.{
  RemoveMemberFromRoomInput, cancel_invite_member, remove_member_from_room,
}
use nestjs_ex.Moderation.{AddSpamReportInput, add_remove_message, add_spam_report}
use nestjs_ex.Prelude.{List, [], ℕ, ◌∷◌}
use nestjs_ex.RedPacket.{SendTokenChatInput, send_red_packet}
use nestjs_ex.Room.{UpdateChatRoomInput, remove_fail_chat_room, resend_chat_room, update_chat_room}
use nestjs_ex.Room.Create.{AddGroupChatRoomInput, AddSingleChatRoomInput, add_group_chat_room}
use nestjs_ex.Room.Membership.{join_room, leave_room, mark_as_unread_chat_room, reject_invitation}
use nestjs_ex.Room.Single.{find_or_add_single_chat_room}
use nestjs_ex.Sending.{SendMessageInput, send_message}
use nestjs_ex.Sending.Again.{resend_message}
use nestjs_ex.Sending.Marks.{pin_message_by_id, retrieve_message, unpin_message_by_id}
use nestjs_ex.UserBlocks.{BlockInput, UnblockInput, block_user, unblock_user}
use nestjs_ex.World.{World, at_time}

pub data Call : Type 0 where
  joins leaves rejects mark_unread : ℕ → Call
  updates_room : UpdateChatRoomInput → Call
  resends_room removes_fail_room : ℕ → Call
  adds_group : AddGroupChatRoomInput → Call
  finds_or_adds_single : AddSingleChatRoomInput → Call
  mutes : ℕ → ℕ → Call
  unmutes pins_room unpins_room views : ℕ → Call
  adds_members : AddMembersToRoomInput → Call
  removes_members : RemoveMemberFromRoomInput → Call
  cancels_invite : ℕ → ℕ → Call
  approves : ApproveMembersInput → Call
  edits_role : EditMemberRoleInput → Call
  sends : SendMessageInput → Call
  sends_red_packet : SendTokenChatInput → Call
  sends_file : CreateFileMessageInput → MulterFile → Call
  resends pins unpins retrieves hides : ℕ → Call
  reports_spam : AddSpamReportInput → Call
  blocks : BlockInput → Call
  unblocks : UnblockInput → Call

-- The state after the call of a user, whether it returned or threw.
unfoldable pub step : ℕ → Call → World → World
step u (joins r) w = (join_room u r w).1
step u (leaves r) w = (leave_room u r w).1
step u (rejects r) w = (reject_invitation u r w).1
step u (mark_unread r) w = (mark_as_unread_chat_room u r w).1
step u (updates_room i) w = (update_chat_room u i w).1
step u (resends_room r) w = (resend_chat_room u r w).1
step u (removes_fail_room r) w = (remove_fail_chat_room u r w).1
step u (adds_group i) w = (add_group_chat_room u i w).1
step u (finds_or_adds_single i) w = (find_or_add_single_chat_room u i w).1
step u (mutes r t) w = (mute_chat_room_by_id u r t w).1
step u (unmutes r) w = (unmute_chat_room_by_id u r w).1
step u (pins_room r) w = (pin_chat_room_by_id u r w).1
step u (unpins_room r) w = (unpin_chat_room_by_id u r w).1
step u (views r) w = (update_last_time_viewed u r w).1
step u (adds_members i) w = (add_member_list_to_room u i w).1
step u (removes_members i) w = (remove_member_from_room u i w).1
step u (cancels_invite v r) w = (cancel_invite_member u v r w).1
step u (approves i) w = (approve_member u i w).1
step u (edits_role i) w = (edit_member_role u i w).1
step u (sends i) w = (send_message u i w).1
step u (sends_red_packet i) w = (send_red_packet u i w).1
step u (sends_file i f) w = (create_file_message u i f w).1
step u (resends i) w = (resend_message u i w).1
step u (pins i) w = (pin_message_by_id u i w).1
step u (unpins i) w = (unpin_message_by_id u i w).1
step u (retrieves i) w = (retrieve_message u i w).1
step u (hides i) w = (add_remove_message u i w).1
step u (reports_spam i) w = (add_spam_report u i w).1
step u (blocks i) w = (block_user u i w).1
step u (unblocks i) w = (unblock_user u i w).1

-- Calls one after another, each by its user at its time.
pub record Request : Type 0 where
  pub user_id : ℕ
  pub time : ℕ
  pub call : Call

unfoldable pub run : List Request → World → World
run [] w = w
run (r ∷ rs) w = run rs (step r.user_id r.call (at_time r.time w))
