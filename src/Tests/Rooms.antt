-- ===== src/Tests/Rooms.antt =====
-- Runs of the room and member services.
use mathlib.Core.Path.{subst}
use nestjs_ex.Api.{Request, adds_members, cancels_invite, joins, mutes, pins_room, run, step}
use nestjs_ex.Api.Leaving.{leave_room-again}
use nestjs_ex.Api.Lifecycle.{run-Lifecycle}
use nestjs_ex.Api.Lock.{locked_addresses, locked_invitation}
use nestjs_ex.ChatHelper.{
  find_room_by_id, find_user_wallet_by_address, get_data_for_chat_queue, send_chat_queue_data,
  write_leave, write_records,
}
use nestjs_ex.Entities.{
  MemberInRoom, MemberStatus, Role, RoomNotificationTx, member_status_eq, role_eq,
}
use nestjs_ex.Member.{
  add_notification_to_queue, find_by_address_query, find_invited_member_by_user_id,
  find_invited_or_joined_member_by_address, find_invited_or_joined_member_by_list_address,
  find_joined_member_by_user_id, find_room_member_with_status, get_notification_info,
  get_number_of_members_in_room, insert_member, update_member_in_room,
}
use nestjs_ex.Member.Approve.{approve_member}
use nestjs_ex.Member.Capacity.{Adds, add_member_list_to_room-ok}
use nestjs_ex.Member.Invite.{
  AddMembersToRoomInput, add_member_list_to_room, add_member_to_room, check_can_add, invited_row,
  refuse_existing,
}
use nestjs_ex.Member.Lifecycle.{HasKeys, Moves}
use nestjs_ex.Member.Remove.{cancel_invite_member, remove_member_from_room}
use nestjs_ex.Member.Preferences.{pin_chat_room_by_id}
use nestjs_ex.Message.{create_notification_message, save_message}
use nestjs_ex.Network.{
  get_by_id, get_network_fee_by_level, get_parent_network_by_chain_id, is_shared_networks,
}
use nestjs_ex.NetworkFee.{get_network_fees}
use nestjs_ex.Prelude.{
  Has, List, [], ap, arith, count_where, find_first, includes, nat_eq, refl, select, some, some-inj,
  sym, text_eq, true, ℕ, ◌+◌, ◌↔◌, ◌∙◌, ◌∷◌, ◌≡◌, ◌≤◌,
}
use nestjs_ex.Room.Membership.{join_room, leave_room, reject_invitation}
use nestjs_ex.RoomNotificationTx.{
  check_processing_addresses, check_processing_one_address, create_notification_tx, is_processing,
}
use nestjs_ex.RoomNotificationTx.Window.{IsLive, check_processing_one_address_iff}
use nestjs_ex.Store.{Table, update_where}
use nestjs_ex.Store.Keyed.{Evolves}
use nestjs_ex.Tests.{locked0, member0, user0, world0}
use nestjs_ex.World.{World, for_each, ok, ◌>>=◌}
use nestjs_ex.World.Refusal.{Refuses}

world0-HasKeys : HasKeys world0
world0-HasKeys = ground arith

-- Carol accepts, Alice mutes the group and invites Dave, and takes the invitation back.
abbrev history0 : List Request
history0 =
    record { user_id = 3; time = 1001; call = joins 1 }
    ∷ record { user_id = 1; time = 1002; call = mutes 1 5000 }
    ∷ record {
      user_id = 1;
      time = 1003;
      call = adds_members (record { addresses = "0xd" ∷ []; room_id = 1 });
    }
    ∷ record { user_id = 1; time = 1004; call = cancels_invite 4 1 }
    ∷ []

run-Lifecycle_example :
    HasKeys (run history0 world0)
    × Evolves Moves world0.members.rows (run history0 world0).members.rows
run-Lifecycle_example = run-Lifecycle history0 world0 world0-HasKeys

abbrev invite0 : AddMembersToRoomInput
invite0 = record { addresses = "0xd" ∷ []; room_id = 1 }

abbrev after_invite : World
after_invite = (add_member_list_to_room 1 invite0 world0).1

abbrev dave : MemberInRoom
dave = invited_row 1000 1 1 "0xd" (some (user0 4 "Dave")) 4 7

invites : add_member_list_to_room 1 invite0 world0 ≡ (ok (dave ∷ []), after_invite)
unfolding add_member_list_to_room check_can_add get_number_of_members_in_room count_where includes
    find_joined_member_by_user_id find_room_member_with_status find_first refuse_existing
    find_invited_or_joined_member_by_list_address check_processing_addresses
    check_processing_one_address select for_each add_member_to_room
    find_invited_or_joined_member_by_address find_user_wallet_by_address insert_member
    get_notification_info find_by_address_query add_notification_to_queue ◌>>=◌
invites = refl

add_member_list_to_room-ok_example :
    Adds 1 1 ("0xd" ∷ []) (dave ∷ []) world0 after_invite
    × (get_number_of_members_in_room 1 after_invite ≡ get_number_of_members_in_room 1 world0 + 1)
    × (get_number_of_members_in_room 1 after_invite ≤ 100)
add_member_list_to_room-ok_example =
    add_member_list_to_room-ok 1 invite0 world0 after_invite (dave ∷ []) invites

abbrev bob : MemberInRoom
bob = member0 2 1 2 "0xb" Role.member MemberStatus.joined

abbrev carol : MemberInRoom
carol = member0 3 1 3 "0xc" Role.member MemberStatus.invited

carol_is_invited : find_invited_member_by_user_id 3 1 locked0 ≡ some carol
unfolding find_invited_member_by_user_id find_room_member_with_status find_first
carol_is_invited = refl

carol_is_busy : check_processing_one_address 1 "0xc" locked0 ≡ true
unfolding check_processing_one_address select find_first is_processing
carol_is_busy = refl

locked_invitation_example :
    Refuses locked0 (join_room 3 1)
    × Refuses locked0 (reject_invitation 3 1)
    × ((owner_id : ℕ) → Refuses locked0 (cancel_invite_member owner_id 3 1))
locked_invitation_example = locked_invitation 3 1 locked0 carol carol_is_invited carol_is_busy

bob_is_joined : find_joined_member_by_user_id 2 1 locked0 ≡ some bob
unfolding find_joined_member_by_user_id find_room_member_with_status find_first
bob_is_joined = refl

bob_is_busy : check_processing_one_address 1 "0xb" locked0 ≡ true
unfolding check_processing_one_address select find_first is_processing
bob_is_busy = refl

both_are_busy : check_processing_addresses 1 ("0xd" ∷ "0xc" ∷ []) locked0 ≡ true
unfolding check_processing_addresses check_processing_one_address select find_first is_processing
both_are_busy = refl

locked_addresses_example :
    Refuses locked0
      (add_member_list_to_room 1 (record { addresses = "0xd" ∷ "0xc" ∷ []; room_id = 1 }))
    × Refuses locked0
        (remove_member_from_room 1 (record { addresses = "0xd" ∷ "0xc" ∷ []; room_id = 1 }))
    × Refuses locked0 (approve_member 1 (record { addresses = "0xd" ∷ "0xc" ∷ []; room_id = 1 }))
locked_addresses_example = locked_addresses 1 1 ("0xd" ∷ "0xc" ∷ []) locked0 both_are_busy

check_processing_one_address_iff_example :
    (check_processing_one_address 1 "0xc" locked0 ≡ true)
    ↔ ((tx : RoomNotificationTx) × IsLive locked0 1 "0xc" tx)
check_processing_one_address_iff_example = check_processing_one_address_iff 1 "0xc" locked0

abbrev after_leave : World
after_leave = (leave_room 2 1 world0).1

leaves_once : leave_room 2 1 world0 ≡ (ok bob, after_leave)
unfolding leave_room find_joined_member_by_user_id find_room_member_with_status find_first
    check_processing_one_address select send_chat_queue_data get_data_for_chat_queue find_room_by_id
    find_user_wallet_by_address is_shared_networks get_network_fee_by_level get_network_fees
    get_by_id get_parent_network_by_chain_id includes write_records write_leave
    create_notification_message save_message create_notification_tx ◌>>=◌
leaves_once = refl

-- A second later, when Bob has pinned the room.
abbrev second_later : World
second_later = run (record { user_id = 2; time = 2000; call = pins_room 1 } ∷ []) after_leave

after_second :
    (second_later.notification_txs ≡ after_leave.notification_txs)
    × (second_later.env.now ≡ 2000)
    × (second_later.env.same_text ≡ world0.env.same_text)
    × (find_joined_member_by_user_id 2 1 second_later
        ≡ some (record bob { is_pinned = true; updated_at = 2000 }))
unfolding run step pin_chat_room_by_id update_member_in_room update_where leave_room
    find_joined_member_by_user_id find_room_member_with_status find_first
    check_processing_one_address select send_chat_queue_data get_data_for_chat_queue find_room_by_id
    find_user_wallet_by_address is_shared_networks get_network_fee_by_level get_network_fees
    get_by_id get_parent_network_by_chain_id includes write_records write_leave
    create_notification_message save_message create_notification_tx ◌>>=◌
after_second = (refl, refl, refl, refl)

bob_still_joined :
    (x : MemberInRoom)
    → find_joined_member_by_user_id 2 1 second_later ≡ some x
    → second_later.env.same_text "0xb" x.wallet_address ≡ true
bob_still_joined x e =
    ap (λ f. f "0xb" x.wallet_address) after_second.2
    ∙ ap (λ (z : MemberInRoom). world0.env.same_text "0xb" z.wallet_address)
        (some-inj (sym e ∙ after_second.3))

leave_room-again_example : Refuses second_later (leave_room 2 1)
leave_room-again_example =
    leave_room-again 2 1 world0 after_leave second_later bob leaves_once
      (λ tx m. subst (λ (t : Table RoomNotificationTx). Has tx t.rows) (sym after_second.0) m)
      (omega (arith, after_second.1)) bob_still_joined
