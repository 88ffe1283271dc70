-- ===== src/Tests/Owners.antt =====
-- Runs of what the owner of a room does: a room that failed, and approval.
use nestjs_ex.Api.Approving.{IsApproved, approve_member-ok}
use nestjs_ex.ChatHelper.{
  find_room_by_id, find_user_wallet_by_address, get_data_for_chat_queue, notify_receiver,
  send_chat_queue_data, write_notifications, write_records,
}
use nestjs_ex.Entities.{
  ChatRoom, ChatRoomStatus, MemberInRoom, MemberStatus, Role, member_status_eq, role_eq,
  room_status_eq,
}
use nestjs_ex.Member.{
  check_role, find_joined_member_by_user_id, find_room_member_with_status, is_room_owner,
}
use nestjs_ex.Member.Approve.{ApproveMembersInput, approve_member}
use nestjs_ex.Message.{create_notification_message, save_message}
use nestjs_ex.Network.{
  get_by_id, get_network_fee_by_level, get_parent_network_by_chain_id, is_shared_networks,
}
use nestjs_ex.NetworkFee.{get_network_fees}
use nestjs_ex.Prelude.{
  List, [], find_first, includes, nat_eq, refl, select, some, text_eq, true, ◌∷◌, ◌≡◌,
}
use nestjs_ex.Room.{get_chat_room_by_id, remove_fail_chat_room, resend_chat_room, update_room}
use nestjs_ex.Room.Failed.{Restatused, resend_chat_room-ok}
use nestjs_ex.RoomNotificationTx.{
  check_processing_addresses, check_processing_one_address, create_notification_tx,
}
use nestjs_ex.Tests.{member0, room0, world0}
use nestjs_ex.World.{World, for_each, not_awaited, ok, ◌>>=◌}

abbrev failed_room : ChatRoom
failed_room = room0 3 true ChatRoomStatus.failed

abbrev after_resend : World
after_resend = (resend_chat_room 1 3 world0).1

abbrev resent_room : ChatRoom
resent_room = record failed_room { status = ChatRoomStatus.created; updated_at = 1000 }

resends_failed : resend_chat_room 1 3 world0 ≡ (ok resent_room, after_resend)
unfolding resend_chat_room get_chat_room_by_id find_first find_joined_member_by_user_id
    find_room_member_with_status update_room not_awaited ◌>>=◌
resends_failed = refl

resend_chat_room-ok_example :
    Restatused 3 ChatRoomStatus.failed ChatRoomStatus.created world0 after_resend resent_room
    × ((owner : MemberInRoom) × (find_joined_member_by_user_id 1 3 world0 ≡ some owner)
        × (owner.role ≡ Role.owner))
resend_chat_room-ok_example = resend_chat_room-ok 1 3 world0 after_resend resent_room resends_failed

abbrev after_removal : World
after_removal = (remove_fail_chat_room 1 3 world0).1

abbrev cancelled_room : ChatRoom
cancelled_room = record failed_room { status = ChatRoomStatus.cancel; updated_at = 1000 }

removes_failed : remove_fail_chat_room 1 3 world0 ≡ (ok cancelled_room, after_removal)
unfolding remove_fail_chat_room get_chat_room_by_id find_first is_room_owner check_role includes
    update_room ◌>>=◌
removes_failed = refl

abbrev approval0 : ApproveMembersInput
approval0 = record { addresses = "0xc" ∷ []; room_id = 1 }

abbrev carol_waits : World
carol_waits = record world0 {
  members = record {
    rows =
        member0 1 1 1 "0xa" Role.owner MemberStatus.joined
        ∷ member0 3 1 3 "0xc" Role.member MemberStatus.pending_approval
        ∷ [];
    next_id = 4;
  };
}

abbrev waiting : List MemberInRoom
waiting = member0 3 1 3 "0xc" Role.member MemberStatus.pending_approval ∷ []

abbrev after_approval : World
after_approval = (approve_member 1 approval0 carol_waits).1

approves_carol : approve_member 1 approval0 carol_waits ≡ (ok waiting, after_approval)
unfolding approve_member find_joined_member_by_user_id find_room_member_with_status find_first
    select check_processing_addresses check_processing_one_address send_chat_queue_data
    get_data_for_chat_queue find_room_by_id find_user_wallet_by_address is_shared_networks
    get_network_fee_by_level get_network_fees get_by_id get_parent_network_by_chain_id includes
    write_records write_notifications notify_receiver create_notification_message save_message
    for_each not_awaited create_notification_tx ◌>>=◌
approves_carol = refl

approve_member-ok_example : IsApproved 1 approval0 carol_waits after_approval waiting
approve_member-ok_example =
    approve_member-ok 1 approval0 carol_waits after_approval waiting approves_carol
