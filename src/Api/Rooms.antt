-- ===== src/Api/Rooms.antt =====
-- The services that create and change rooms, and what the owner asks of the chain: what they do to the
-- table `member_in_room`.
use nestjs_ex.Api.Membership.{send_chat_queue_data-Lifecycle}
use nestjs_ex.Entities.{ChatRoom, MemberInRoom, Message, Role, role_eq}
use nestjs_ex.Member.Approve.{
  ApproveMembersInput, EditMemberRoleInput, approve_member, differs_from_first, edit_member_role,
  request_edition, role_text,
}
use nestjs_ex.Member.Lifecycle.{At-same_members, Lifecycle, insert_member-Lifecycle}
use nestjs_ex.Message.{CreateNotificationMessageInput, create_system_message, save_message}
use nestjs_ex.Prelude.{List, Option, String, nat_eq, none, not, refl, some, text_eq, ℕ, ◌&&◌, ◌==◌}
use nestjs_ex.Room.{
  UpdateChatRoomInput, get_chat_room_by_id, name_differs, remove_fail_chat_room, resend_chat_room,
  update_chat_room, update_room,
}
use nestjs_ex.Room.Create.{
  AddGroupChatRoomInput, AddSingleChatRoomInput, WalletOwner, add_group_chat_room,
  create_member_in_room, insert_invited, save_room,
}
use nestjs_ex.Room.Single.{create_single_chat_room, existing_or_new, find_or_add_single_chat_room}
use nestjs_ex.RoomKey.{create_room_keys}
use nestjs_ex.Sender.{Sender, get_sender}
use nestjs_ex.World.{World, modify}
use nestjs_ex.World.Laws.{
  At, At-bind, At-for_each, At-gets-bind, At-guard-bind, At-if, At-need, At-need-bind,
  At-not_awaited, At-pure, Frame,
}

pub update_room-Lifecycle : {w : World} (room : ChatRoom) → At Lifecycle w (update_room room)
unfolding update_room modify
update_room-Lifecycle room = At-same_members _ refl

save_room-Lifecycle : {w : World} (row : ℕ → ChatRoom) → At Lifecycle w (save_room row)
unfolding save_room
save_room-Lifecycle row = At-same_members _ refl

create_room_keys-Lifecycle : {w : World} (id : ℕ) → At Lifecycle w (create_room_keys id)
unfolding create_room_keys
create_room_keys-Lifecycle id = At-same_members _ refl

pub save_message-Lifecycle : {w : World} (row : ℕ → Message) → At Lifecycle w (save_message row)
unfolding save_message
save_message-Lifecycle row = At-same_members _ refl

create_system_message-Lifecycle :
    {w : World} (input : CreateNotificationMessageInput)
    → At Lifecycle w (create_system_message input)
unfolding create_system_message
create_system_message-Lifecycle input = At-same_members _ refl

pub get_sender-At : {F : Frame} {w : World} (user_id : ℕ) → At F w (get_sender user_id)
unfolding get_sender
get_sender-At user_id = At-gets-bind _ _ (
    At-need-bind _ _ _ λ user e.
      At-need-bind _ _ _
        λ address e'. At-guard-bind _ _ _ λ rpc. At-guard-bind _ _ _ λ autosign. At-pure _)

get_chat_room_by_id-At : {F : Frame} {w : World} (id : ℕ) → At F w (get_chat_room_by_id id)
unfolding get_chat_room_by_id
get_chat_room_by_id-At id = At-gets-bind _ _ (At-need _ _)

pub approve_member-Lifecycle :
    {w : World} (user_id : ℕ) (input : ApproveMembersInput)
    → At Lifecycle w (approve_member user_id input)
unfolding approve_member
approve_member-Lifecycle user_id input = At-gets-bind _ _ (
    At-need-bind _ _ _ λ sender e. At-guard-bind _ _ _ λ role. At-gets-bind _ _ (
      At-gets-bind _ _ (
        At-guard-bind _ _ _
          λ free. At-bind _ _ (send_chat_queue_data-Lifecycle _) λ _ u. At-pure _)))

request_edition-Lifecycle :
    {w : World} (input : EditMemberRoleInput) (owner : MemberInRoom) (ms : List MemberInRoom)
    (roles : List Role)
    → At Lifecycle w (request_edition input owner ms roles)
unfolding request_edition
request_edition-Lifecycle input owner ms roles =
    At-if (differs_from_first input.role roles && not (input.role == role_text Role.owner))
      (λ _. send_chat_queue_data-Lifecycle _) (λ _. At-pure tt)

pub edit_member_role-Lifecycle :
    {w : World} (user_id : ℕ) (input : EditMemberRoleInput)
    → At Lifecycle w (edit_member_role user_id input)
unfolding edit_member_role
edit_member_role-Lifecycle user_id input = At-gets-bind _ _ (
    At-need-bind _ _ _ λ owner e. At-guard-bind _ _ _ λ role. At-gets-bind _ _ (
      At-guard-bind _ _ _ λ one. At-gets-bind _ _ (
        At-guard-bind _ _ _
          λ free. At-bind _ _ (request_edition-Lifecycle _ _ _ _) λ _ u. At-pure _)))

pub update_chat_room-Lifecycle :
    {w : World} (user_id : ℕ) (input : UpdateChatRoomInput)
    → At Lifecycle w (update_chat_room user_id input)
unfolding update_chat_room
update_chat_room-Lifecycle user_id input = At-gets-bind _ _ (
    At-need-bind _ _ _ λ owner e. At-guard-bind _ _ _ λ role.
      At-bind _ _ (get_chat_room_by_id-At _) λ room u. At-gets-bind _ _ (
        At-if (name_differs room.name input.name)
          (λ _. At-bind _ _ (send_chat_queue_data-Lifecycle _) λ _ v. At-pure _)
          (λ _. At-bind _ _ (update_room-Lifecycle _) λ _ v. At-pure _)))

pub resend_chat_room-Lifecycle :
    {w : World} (user_id id : ℕ) → At Lifecycle w (resend_chat_room user_id id)
unfolding resend_chat_room
resend_chat_room-Lifecycle user_id id = At-bind _ _ (get_chat_room_by_id-At id) λ room u.
    At-guard-bind _ _ _ λ failed. At-gets-bind _ _ (
      At-need-bind _ _ _ λ owner e. At-guard-bind _ _ _ λ role. At-gets-bind _ _ (
        At-bind _ _ (update_room-Lifecycle _) λ _ v.
          At-bind _ _ (At-not_awaited _ (send_chat_queue_data-Lifecycle _)) λ _ x. At-pure _))

pub remove_fail_chat_room-Lifecycle :
    {w : World} (user_id id : ℕ) → At Lifecycle w (remove_fail_chat_room user_id id)
unfolding remove_fail_chat_room
remove_fail_chat_room-Lifecycle user_id id = At-bind _ _ (get_chat_room_by_id-At id) λ room u.
    At-guard-bind _ _ _ λ failed. At-gets-bind _ _ (
      At-guard-bind _ _ _
        λ owner. At-gets-bind _ _ (At-bind _ _ (update_room-Lifecycle _) λ _ v. At-pure _))

insert_invited-Lifecycle :
    {w : World} (room : ChatRoom) (o : Option WalletOwner) → At Lifecycle w (insert_invited room o)
unfolding insert_invited
insert_invited-Lifecycle room none = At-pure tt
insert_invited-Lifecycle room (some o) =
    At-gets-bind _ _ (At-bind _ _ (insert_member-Lifecycle _ (λ n. refl)) λ _ u. At-pure tt)

create_member_in_room-Lifecycle :
    {w : World} (room : ChatRoom) (owner_address address : String)
    → At Lifecycle w (create_member_in_room room owner_address address)
unfolding create_member_in_room
create_member_in_room-Lifecycle room owner_address address =
    At-gets-bind _ _ (insert_invited-Lifecycle room _)

pub add_group_chat_room-Lifecycle :
    {w : World} (user_id : ℕ) (input : AddGroupChatRoomInput)
    → At Lifecycle w (add_group_chat_room user_id input)
unfolding add_group_chat_room
add_group_chat_room-Lifecycle user_id input = At-bind _ _ (get_sender-At user_id) λ owner u.
    At-guard-bind _ _ _ λ few. At-guard-bind _ _ _ λ some_other. At-gets-bind _ _ (
      At-bind _ _ (save_room-Lifecycle _) λ room v.
        At-bind _ _ (create_room_keys-Lifecycle _) λ _ v1.
          At-bind _ _ (insert_member-Lifecycle _ (λ n. refl)) λ _ v2.
            At-bind _ _ (create_system_message-Lifecycle _) λ _ v3.
              At-bind _ _ (At-for_each _ _ (λ a x. create_member_in_room-Lifecycle room _ a) v3)
                λ _ v4. At-bind _ _ (send_chat_queue_data-Lifecycle _) λ _ v5. At-pure _)

create_single_chat_room-Lifecycle :
    {w : World} (owner : Sender) (person : WalletOwner) (input : AddSingleChatRoomInput)
    → At Lifecycle w (create_single_chat_room owner person input)
unfolding create_single_chat_room
create_single_chat_room-Lifecycle owner person input = At-gets-bind _ _ (
    At-gets-bind _ _ (
      At-bind _ _ (save_room-Lifecycle _) λ room v.
        At-bind _ _ (insert_member-Lifecycle _ (λ n. refl)) λ _ v1.
          At-bind _ _ (insert_member-Lifecycle _ (λ n. refl)) λ _ v2.
            At-bind _ _ (save_message-Lifecycle _)
              λ _ v3. At-bind _ _ (create_room_keys-Lifecycle _) λ _ v4. At-pure _))

existing_or_new-Lifecycle :
    {w : World} (owner : Sender) (input : AddSingleChatRoomInput) (o : Option ChatRoom)
    → At Lifecycle w (existing_or_new owner input o)
unfolding existing_or_new
existing_or_new-Lifecycle owner input (some room) = At-pure room
existing_or_new-Lifecycle owner input none =
    At-gets-bind _ _ (At-need-bind _ _ _ λ person e. create_single_chat_room-Lifecycle _ _ _)

pub find_or_add_single_chat_room-Lifecycle :
    {w : World} (user_id : ℕ) (input : AddSingleChatRoomInput)
    → At Lifecycle w (find_or_add_single_chat_room user_id input)
unfolding find_or_add_single_chat_room
find_or_add_single_chat_room-Lifecycle user_id input = At-gets-bind _ _ (
    At-need-bind _ _ _ λ addresses e. At-gets-bind _ _ (
      At-guard-bind _ _ _ λ free.
        At-bind _ _ (get_sender-At user_id)
          λ owner u. At-gets-bind _ _ (existing_or_new-Lifecycle _ _ _)))
