-- ===== src/Api/Lifecycle.antt =====
-- The members' rows over any history of calls.
use nestjs_ex.Api.{
  Call, Request, adds_group, adds_members, approves, at_time, blocks, cancels_invite, edits_role,
  finds_or_adds_single, hides, joins, leaves, mark_unread, mutes, pins, pins_room, rejects,
  removes_fail_room, removes_members, reports_spam, resends, resends_room, retrieves, run, sends,
  sends_file, sends_red_packet, step, unblocks, unmutes, unpins, unpins_room, updates_room, views,
}
use nestjs_ex.Api.Membership.{
  add_member_list_to_room-Lifecycle, cancel_invite_member-Lifecycle, join_room-Lifecycle,
  leave_room-Lifecycle, mark_as_unread_chat_room-Lifecycle, reject_invitation-Lifecycle,
  with_row-Lifecycle,
}
use nestjs_ex.Api.Messages.{
  add_remove_message-Lifecycle, add_spam_report-Lifecycle, block_user-members,
  resend_message-Lifecycle, retrieve_message-Lifecycle, send_message-Lifecycle,
  set_pinned-Lifecycle, unblock_user-members,
}
use nestjs_ex.Api.Payloads.{create_file_message-Lifecycle, send_red_packet-Lifecycle}
use nestjs_ex.Api.Removal.{remove_member_from_room-Lifecycle}
use nestjs_ex.Api.Rooms.{
  add_group_chat_room-Lifecycle, approve_member-Lifecycle, edit_member_role-Lifecycle,
  find_or_add_single_chat_room-Lifecycle, remove_fail_chat_room-Lifecycle,
  resend_chat_room-Lifecycle, update_chat_room-Lifecycle,
}
use nestjs_ex.Member.Lifecycle.{HasKeys, Moves, Moves-same, Moves-trans, same_members-Lifecycle}
use nestjs_ex.Member.Preferences.{
  mute_chat_room_by_id, pin_chat_room_by_id, unmute_chat_room_by_id, unpin_chat_room_by_id,
  update_last_time_viewed,
}
use nestjs_ex.Prelude.{List, [], false, refl, true, ℕ, ◌∷◌}
use nestjs_ex.Sending.Marks.{pin_message_by_id, unpin_message_by_id}
use nestjs_ex.Store.Keyed.{Evolves, Evolves-same, Evolves-trans}
use nestjs_ex.UserBlocks.{block_user, unblock_user}
use nestjs_ex.World.{World}

step-At :
    (u : ℕ) (c : Call) (w : World)
    → HasKeys w
    → HasKeys (step u c w) × Evolves Moves w.members.rows (step u c w).members.rows
unfolding step mute_chat_room_by_id unmute_chat_room_by_id pin_chat_room_by_id unpin_chat_room_by_id
    update_last_time_viewed pin_message_by_id unpin_message_by_id
step-At u (joins r) w = (join_room-Lifecycle u r).holds
step-At u (leaves r) w = (leave_room-Lifecycle u r).holds
step-At u (rejects r) w = (reject_invitation-Lifecycle u r).holds
step-At u (mark_unread r) w = (mark_as_unread_chat_room-Lifecycle u r).holds
step-At u (updates_room i) w = (update_chat_room-Lifecycle u i).holds
step-At u (resends_room r) w = (resend_chat_room-Lifecycle u r).holds
step-At u (removes_fail_room r) w = (remove_fail_chat_room-Lifecycle u r).holds
step-At u (adds_group i) w = (add_group_chat_room-Lifecycle u i).holds
step-At u (finds_or_adds_single i) w = (find_or_add_single_chat_room-Lifecycle u i).holds
step-At u (mutes r t) w =
    (with_row-Lifecycle u r _ _ (λ v m. ((refl, refl, refl, refl, refl), refl))).holds
step-At u (unmutes r) w =
    (with_row-Lifecycle u r _ _ (λ v m. ((refl, refl, refl, refl, refl), refl))).holds
step-At u (pins_room r) w =
    (with_row-Lifecycle u r _ _ (λ v m. ((refl, refl, refl, refl, refl), refl))).holds
step-At u (unpins_room r) w =
    (with_row-Lifecycle u r _ _ (λ v m. ((refl, refl, refl, refl, refl), refl))).holds
step-At u (views r) w =
    (with_row-Lifecycle u r _ _ (λ v m. ((refl, refl, refl, refl, refl), refl))).holds
step-At u (adds_members i) w = (add_member_list_to_room-Lifecycle u i).holds
step-At u (removes_members i) w = (remove_member_from_room-Lifecycle u i).holds
step-At u (cancels_invite v r) w = (cancel_invite_member-Lifecycle u v r).holds
step-At u (approves i) w = (approve_member-Lifecycle u i).holds
step-At u (edits_role i) w = (edit_member_role-Lifecycle u i).holds
step-At u (sends i) w = (send_message-Lifecycle u i).holds
step-At u (sends_red_packet i) w = (send_red_packet-Lifecycle u i).holds
step-At u (sends_file i f) w = (create_file_message-Lifecycle u i f).holds
step-At u (resends i) w = (resend_message-Lifecycle u i).holds
step-At u (pins i) w = (set_pinned-Lifecycle true u i).holds
step-At u (unpins i) w = (set_pinned-Lifecycle false u i).holds
step-At u (retrieves i) w = (retrieve_message-Lifecycle u i).holds
step-At u (hides i) w = (add_remove_message-Lifecycle u i).holds
step-At u (reports_spam i) w = (add_spam_report-Lifecycle u i).holds
step-At u (blocks i) w = same_members-Lifecycle w (block_user u i w).1 (block_user-members u i w)
step-At u (unblocks i) w =
    same_members-Lifecycle w (unblock_user u i w).1 (unblock_user-members u i w)

-- Over any history of calls, each by its user at its time, that starts with distinct keys in the table
-- `member_in_room`: the keys stay distinct, no row is dropped, and each row keeps its room, user,
-- address and role and takes only the statuses that `may_become` allows from the one that it had.
pub run-Lifecycle :
    (rs : List Request) (w : World)
    → HasKeys w
    → HasKeys (run rs w) × Evolves Moves w.members.rows (run rs w).members.rows
unfolding run
run-Lifecycle [] w k = (k, Evolves-same Moves Moves-same w.members.rows)
run-Lifecycle (r ∷ rs) w k =
    let v = step r.user_id r.call (at_time r.time w) in
    let first = step-At r.user_id r.call (at_time r.time w) k in
    let rest = run-Lifecycle rs v first.0 in
    (
      rest.0,
      Evolves-trans Moves Moves-trans w.members.rows v.members.rows (run rs v).members.rows first.1
          rest.1,
    )
