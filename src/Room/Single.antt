-- ===== src/Room/Single.antt =====
-- src/chat-room/services/chat-room.service.ts, lines 694 to 893 and 1572 to 1593: the room of two users.
use nestjs_ex.Entities.{
  ChatRoom, ChatRoomStatus, MemberInRoom, MemberStatus, Message, MessageStatus, MessageType, Role,
  UserBlock, UserContact, member_status_eq, message_status_eq, message_type_eq, role_eq,
  room_status_eq,
}
use nestjs_ex.Member.{find_by_address_query, insert_member}
use nestjs_ex.Message.{save_message}
use nestjs_ex.Prelude.{
  Bool, List, Option, String, [], any, false, find_first, includes, map, nat_eq, none, not, select,
  some, text_eq, ℕ, ◌&&◌, ◌++◌, ◌==◌, ◌∷◌,
}
use nestjs_ex.Room.Create.{
  AddSingleChatRoomInput, WalletOwner, get_user_for_create_chat_room_by_address, new_member,
  save_room, welcome,
}
use nestjs_ex.RoomKey.{create_room_keys}
use nestjs_ex.Sender.{Sender, get_sender}
use nestjs_ex.World.{
  Env, Exec, World, chat_person_not_valid, gets, guard, need, pure, type_error, user_blocked, ◌>>=◌,
  ◌>>◌,
}

-- The left join gives a user without wallets one row with no address, on which `toLowerCase` throws.
abbrev join_addresses : List String → Option (List String) → Option (List String)
join_addresses [] rest = none
join_addresses (a ∷ as') none = none
join_addresses (a ∷ as') (some rest) = some ((a ∷ as') ++ rest)

unfoldable pub addresses_of_blocked : List UserBlock → World → Option (List String)
addresses_of_blocked [] w = some []
addresses_of_blocked (b ∷ bs) w =
    join_addresses
      (map (λ x. w.env.to_lower_case x.address)
        (select (λ x. x.user_id == b.blocked_user_id) w.wallets.rows))
      (addresses_of_blocked bs w)

unfoldable pub get_blocked_users_wallet_addresses : ℕ → World → Option (List String)
get_blocked_users_wallet_addresses user_id w =
    addresses_of_blocked (select (λ b. (b.user_id == user_id) && b.status) w.blocks.rows) w

abbrev pub is_at_address : Env → ℕ → String → MemberInRoom → Bool
is_at_address env room_id address m =
    (m.chat_room_id == room_id) && (env.lower m.wallet_address == env.lower address)

unfoldable pub find_single_chat_room_by_address_and_network :
    String → String → ℕ → World → Option ChatRoom
find_single_chat_room_by_address_and_network address_a address_b network_id w =
    find_first
      (λ r.
        not r.is_group
        && (r.network_id == network_id)
        && any (is_at_address w.env r.id address_a) w.members.rows
        && any (is_at_address w.env r.id address_b) w.members.rows)
      w.rooms.rows

abbrev pub single_room : Sender → ℕ → ℕ → ℕ → ChatRoom
single_room owner network_id now id = record {
  id = id;
  owner_id = owner.id;
  name = none;
  is_group = false;
  avatar = none;
  status = ChatRoomStatus.deployed;
  network_id = network_id;
  created_at = now;
  updated_at = now;
}

abbrev nickname_of : Option UserContact → Option String
nickname_of none = none
nickname_of (some c) = c.name

-- `createFirstRoomMessage`, which `insertMessage` saves; it sets no `retryAt`.
abbrev first_message : Sender → ℕ → ℕ → ℕ → Message
first_message owner room_id now id = record {
  id = id;
  chat_room_id = room_id;
  user_id = owner.id;
  wallet_address = owner.address;
  reply_to = none;
  kind = MessageType.system;
  content = some welcome;
  is_pinned = false;
  status = MessageStatus.completed;
  transaction_id = none;
  number_of_txs = 1;
  file_info = none;
  retry_at = none;
  created_at = now;
  updated_at = now;
}

-- From `chatRoomRepository.save` on.
unfoldable pub create_single_chat_room :
    Sender → WalletOwner → AddSingleChatRoomInput → Exec ChatRoom
create_single_chat_room owner person input = do
  now ← gets (λ w. w.env.now)
  contact ← gets (find_by_address_query owner.id input.address)
  room ← save_room (single_room owner input.network_id now)
  insert_member (
      new_member now room.id owner.id owner.address owner.display_name person.owner_nickname
        Role.owner MemberStatus.joined owner.id)
  insert_member (
      new_member now room.id person.user_id person.address person.display_name (nickname_of contact)
        Role.member MemberStatus.joined owner.id)
  save_message (first_message owner room.id now)
  create_room_keys room.id
  pure room

-- `if (oldChatRoom.id) return oldChatRoom;`
unfoldable pub existing_or_new : Sender → AddSingleChatRoomInput → Option ChatRoom → Exec ChatRoom
existing_or_new owner input (some room) = pure room
existing_or_new owner input none = do
  found ← gets (get_user_for_create_chat_room_by_address input.address owner.address)
  person ← need found chat_person_not_valid
  create_single_chat_room owner person input

unfoldable pub find_or_add_single_chat_room : ℕ → AddSingleChatRoomInput → Exec ChatRoom
find_or_add_single_chat_room user_id input = do
  blocked ← gets (get_blocked_users_wallet_addresses user_id)
  addresses ← need blocked type_error
  address ← gets (λ w. w.env.to_lower_case input.address)
  guard (not (includes addresses address)) user_blocked
  owner ← get_sender user_id
  old ←
      gets
        (find_single_chat_room_by_address_and_network owner.address input.address input.network_id)
  existing_or_new owner input old
