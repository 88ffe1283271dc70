-- ===== src/ChatGuard.antt =====
-- src/shared/guards/chat-network.guard.ts: which requests reach the chat, by the network of their room.
pub mod Reads
pub mod Naming
pub mod Passing
use nestjs_ex.ChatHelper.{find_room_by_id}
use nestjs_ex.Entities.{MemberInRoom, Message}
use nestjs_ex.Message.{find_message_by_id}
use nestjs_ex.Network.{is_network_used_on_chat}
use nestjs_ex.Prelude.{
  Bool, Option, String, false, find_first, if◌then◌else◌, is_some, nat_eq, none, some, suc, text_eq,
  true, zero, ℕ, ◌&&◌, ◌==◌,
}
use nestjs_ex.World.{
  Exec, World, gets, guard, message_not_found, need, network_not_found, network_not_supported, pure,
  room_not_found, ◌>>=◌, ◌>>◌,
}

-- The key of a row as a request or a column has it: the parameters of the route and the query are texts, a body is
-- JSON. The texts are taken to be numerals; `none` stands for an empty one.
pub data RequestId : Type 0 where
  id_text : ℕ → RequestId
  id_number : ℕ → RequestId

-- `if (id)`: the text '0' counts as given, the number 0 does not.
abbrev pub is_truthy : RequestId → Bool
is_truthy (id_text n) = true
is_truthy (id_number zero) = false
is_truthy (id_number (suc n)) = true

-- `+id`, which is also what a query makes of a text.
abbrev pub value_of : RequestId → ℕ
value_of (id_text n) = n
value_of (id_number n) = n

-- What the guard reads of a request, with `none` for a property that is missing.
pub record HttpRequest : Type 0 where
  -- `url.includes`
  pub url_includes : String → Bool
  pub is_put : Bool
  pub params_id : Option RequestId
  pub params_room_id : Option RequestId
  pub body_id : Option RequestId
  pub body_room_id : Option RequestId
  pub body_chat_room_id : Option RequestId
  pub body_message_id : Option RequestId
  pub body_network_id : Option RequestId
  pub query_room_id : Option RequestId
  pub query_network_id : Option RequestId

-- `a || b` on ids that may be missing
abbrev pub or_id : Option RequestId → Option RequestId → Option RequestId
or_id none b = b
or_id (some id) b = if is_truthy id then some id else b

-- `if (id)` on an id that may be missing
abbrev pub given_id : Option RequestId → Option RequestId
given_id id = or_id id none

-- `MessageRepository.getMessageById`
unfoldable pub get_message_by_id : ℕ → Exec Message
get_message_by_id id = do stored ← gets (find_message_by_id id); need stored message_not_found

unfoldable pub room_of_message : RequestId → Exec (Option RequestId)
room_of_message id = do
  message ← get_message_by_id (value_of id)
  pure (some (id_number message.chat_room_id))

-- `MemberInRoomService.getById`
unfoldable pub get_member_by_id : ℕ → World → Option MemberInRoom
get_member_by_id id w = find_first (λ m. m.id == id) w.members.rows

abbrev room_of : Option MemberInRoom → Option RequestId
room_of none = none
room_of (some m) = some (id_number m.chat_room_id)

unfoldable pub room_of_message_request : HttpRequest → Option RequestId → Exec (Option RequestId)
room_of_message_request req (some id) = room_of_message id
room_of_message_request req none = pure (
    or_id (or_id (or_id req.params_room_id req.body_chat_room_id) req.body_room_id)
      req.query_room_id)

unfoldable pub room_of_member_request : HttpRequest → Option RequestId → Exec (Option RequestId)
room_of_member_request req (some id) =
    if req.is_put then pure (some id) else gets (λ w. room_of (get_member_by_id (value_of id) w))
room_of_member_request req none =
    pure (or_id (or_id (or_id req.body_id req.body_room_id) req.params_room_id) req.query_room_id)

unfoldable pub room_of_body_message : Option RequestId → Exec (Option RequestId)
room_of_body_message none = pure none
room_of_body_message (some id) = room_of_message id

-- `getRoomId`; a hidden message or a report without a message falls through to the routes below.
unfoldable pub get_room_id : HttpRequest → Exec (Option RequestId)
get_room_id req =
    if req.url_includes "/chat-room/"
    then pure (or_id req.params_id req.body_id)
    else if req.url_includes "/message/"
    then room_of_message_request req (given_id req.params_id)
    else if req.url_includes "/member-in-room/"
    then room_of_member_request req (given_id req.params_id)
    else if req.url_includes "/remove-message/" && is_some (given_id req.body_message_id)
    then room_of_body_message (given_id req.body_message_id)
    else if req.url_includes "/spam-report/" && is_some (given_id req.body_message_id)
    then room_of_body_message (given_id req.body_message_id)
    else if req.url_includes "/room_key/"
    then pure req.params_room_id
    else pure (some (id_number 0))

-- The network that a request for a chat room names itself
abbrev pub named_network : HttpRequest → Option RequestId
named_network req =
    if req.url_includes "/chat-room/"
    then given_id (or_id req.query_network_id req.body_network_id)
    else none

unfoldable pub network_of_room : HttpRequest → Exec RequestId
network_of_room req = do
  found_id ← get_room_id req
  id ← need (given_id found_id) room_not_found
  room ← find_room_by_id (value_of id)
  need (given_id (some (id_number room.network_id))) network_not_found

unfoldable pub network_of_request : HttpRequest → Option RequestId → Exec RequestId
network_of_request req (some id) = pure id
network_of_request req none = network_of_room req

-- `getNetworkId`
unfoldable pub get_network_id : HttpRequest → Exec RequestId
get_network_id req = network_of_request req (named_network req)

-- The end of `canActivate`, from the network on
unfoldable pub check_network : RequestId → Exec Bool
check_network network_id = do
  guard (is_truthy network_id) network_not_found
  used ← is_network_used_on_chat (value_of network_id)
  guard used network_not_supported
  pure true

-- `canActivate`, with the metadata 'ignore-chat-network-guard' of the handler
unfoldable pub can_activate : Bool → HttpRequest → Exec Bool
can_activate ignored req =
    if ignored then pure true else do network_id ← get_network_id req; check_network network_id
