-- ===== src/Room/Create.antt =====
-- src/chat-room/services/chat-room.service.ts, lines 1230 to 1445: creating a group, and
-- what both ways to create a room share.
use nestjs_ex.ChatHelper.{SendChatQueueDataInput, send_chat_queue_data}
use nestjs_ex.Entities.{
  ChatJobName, ChatRoom, ChatRoomStatus, MemberInRoom, MemberStatus, MessageStatus, Role, User,
  UserContact, UserWallet, member_status_eq, message_status_eq, role_eq, room_status_eq,
}
use nestjs_ex.Member.{find_by_address_query, insert_member, show_null}
use nestjs_ex.Member.Invite.{max_member_per_group_count}
use nestjs_ex.Message.{CreateNotificationMessageInput, create_system_message}
use nestjs_ex.Prelude.{
  Bool, List, Option, String, [], false, find_first, leb, length, ltb, nat_eq, none, not, or_else,
  select, some, text_eq, true, ℕ, ◌+++◌, ◌==◌, ◌∷◌,
}
use nestjs_ex.RoomKey.{create_room_keys}
use nestjs_ex.Sender.{Sender, get_sender, truthy}
use nestjs_ex.Store.{insert}
use nestjs_ex.World.{
  Exec, World, for_each, gets, guard, max_member_per_group, no_other_member, ok, pure, ◌>>=◌, ◌>>◌,
}

pub record AddGroupChatRoomInput : Type 0 where
  pub network_id : ℕ
  pub list_address : List String
  pub name : Option String
  pub avatar : Option String

pub record AddSingleChatRoomInput : Type 0 where
  pub address : String
  pub network_id : ℕ

-- `chatRoomRepository.save(chatRoom)`
unfoldable pub save_room : (ℕ → ChatRoom) → Exec ChatRoom
save_room row w = (ok (row w.rooms.next_id), record w { rooms = insert row w.rooms })

abbrev pub new_member :
    ℕ → ℕ → ℕ → String → Option String → Option String → Role → MemberStatus → ℕ → ℕ → MemberInRoom
new_member now room_id user_id address display_name nickname role status added_by id = record {
  id = id;
  chat_room_id = room_id;
  user_id = user_id;
  wallet_address = address;
  display_name = display_name;
  nickname = nickname;
  role = role;
  status = status;
  added_by_user_id = some added_by;
  is_chat_archived = false;
  is_pinned = false;
  mute_duration = none;
  last_viewed_at = now;
  created_at = now;
  updated_at = now;
}

abbrev pub welcome : String
welcome =
    "Everything sent on Wallet Messenger will be encrypted and only you and your friends can see the messages."

-- The row of `user_wallet` joined with `users`, for `lower(uw.address) = lower(address)`.
pub record WalletOwner : Type 0 where
  pub user_id : ℕ
  pub display_name : Option String
  pub address : String
  pub owner_nickname : Option String

abbrev wallet_owner_row : List User → Option UserContact → UserWallet → Option WalletOwner
wallet_owner_row users contact wallet = elim (find_first (λ u. u.id == wallet.user_id) users) [
  | none ↦ none
  | some u ↦ some (record {
    user_id = u.id;
    display_name = u.name;
    address = wallet.address;
    owner_nickname = elim contact [ none ↦ none | some c ↦ c.name ];
  })
]

-- The inner join drops a wallet whose user is missing.
abbrev first_wallet_owner : List UserWallet → String → World → Option WalletOwner
first_wallet_owner [] owner_address w = none
first_wallet_owner (x ∷ xs) owner_address w =
    elim (wallet_owner_row w.users.rows (find_by_address_query x.user_id owner_address w) x) [
      | none ↦ first_wallet_owner xs owner_address w
      | some o ↦ some o
    ]

-- `getUserForCreateChatRoomByAddress` and `getInfoToCreateRoomSingleByAddress`
unfoldable pub get_user_for_create_chat_room_by_address :
    String → String → World → Option WalletOwner
get_user_for_create_chat_room_by_address address owner_address w =
    first_wallet_owner (select (λ x. w.env.lower x.address == w.env.lower address) w.wallets.rows)
      owner_address w

-- `createMemberInRoom`; an address that no user has is passed over.
unfoldable pub insert_invited : ChatRoom → Option WalletOwner → Exec (Unit {0})
insert_invited room none = pure tt
insert_invited room (some o) = do
  now ← gets (λ w. w.env.now)
  insert_member (
      new_member now room.id o.user_id o.address o.display_name none Role.member
        MemberStatus.invited room.owner_id)
  pure tt

unfoldable pub create_member_in_room : ChatRoom → String → String → Exec (Unit {0})
create_member_in_room room owner_address address = do
  found ← gets (get_user_for_create_chat_room_by_address address owner_address)
  insert_invited room found

abbrev pub group_room : AddGroupChatRoomInput → Sender → ℕ → ℕ → ChatRoom
group_room input owner now id = record {
  id = id;
  owner_id = owner.id;
  name =
      some (or_else (truthy input.name) ("New group created by " +++ show_null owner.display_name));
  is_group = true;
  avatar = input.avatar;
  status = ChatRoomStatus.created;
  network_id = input.network_id;
  created_at = now;
  updated_at = now;
}

abbrev system_message : Sender → ℕ → CreateNotificationMessageInput
system_message owner room_id = record {
  chat_room_id = room_id;
  user_id = owner.id;
  wallet_address = owner.address;
  content = welcome;
  status = some MessageStatus.completed;
}

abbrev pub creation : Sender → ℕ → Option String → SendChatQueueDataInput
creation owner room_id name = record {
  room_id = room_id;
  from_user_id = owner.id;
  from_wallet_address = owner.address;
  to_wallet_addresses = [];
  message_contents = "has created a new group" ∷ [];
  job_name = ChatJobName.create_group_chat;
  token_amount = none;
  token_decimal = none;
  content = name;
  message_id = none;
}

abbrev pub is_other : Sender → String → Bool
is_other owner address = not (address == owner.address)

unfoldable pub add_group_chat_room : ℕ → AddGroupChatRoomInput → Exec ChatRoom
add_group_chat_room user_id input = do
  owner ← get_sender user_id
  guard (leb (length input.list_address) max_member_per_group_count) max_member_per_group
  let invited = select (is_other owner) input.list_address
  guard (ltb 0 (length invited)) no_other_member
  now ← gets (λ w. w.env.now)
  room ← save_room (group_room input owner now)
  create_room_keys room.id
  insert_member (
      new_member now room.id owner.id owner.address owner.display_name none Role.owner
        MemberStatus.joined owner.id)
  create_system_message (system_message owner room.id)
  for_each invited (create_member_in_room room owner.address)
  send_chat_queue_data (creation owner room.id input.name)
  pure room
