-- ===== src/Sender.antt =====
-- src/message/services/message.service.ts, lines 842 to 852 and 1038 to 1053, and the same checks and
-- queries of src/chat-room/services/chat-room.service.ts: what a user needs before it may send.
use nestjs_ex.Entities.{Network, User, UserSetting, UserWallet}
use nestjs_ex.Prelude.{
  Bool, Option, String, find_first, if◌then◌else◌, is_some, nat_eq, none, some, text_eq, ℕ, ◌==◌,
}
use nestjs_ex.World.{
  Exec, World, autosign_disabled, gets, guard, need, network_not_found, pure, user_not_found,
  wallet_not_found, ◌>>=◌, ◌>>◌,
}

-- One row of the query that joins `users`, `user_setting`, `user_wallet` and `network`.
pub record SenderInfo : Type 0 where
  pub id : ℕ
  pub display_name : Option String
  pub address : Option String
  pub rpc_endpoint : Option String
  pub is_enable_autosign_message : Bool

abbrev address_of : Option UserWallet → Option String
address_of none = none
address_of (some u) = some u.address

abbrev rpc_of : Option Network → Option String
rpc_of none = none
rpc_of (some n) = some n.rpc_endpoint

abbrev pub sender_row : Option User → Option UserSetting → World → Option SenderInfo
sender_row none s w = none
sender_row (some u) none w = none
sender_row (some u) (some s) w = some (record {
  id = u.id;
  display_name = u.name;
  address = address_of (find_first (λ x. x.id == s.use_user_wallet_id) w.wallets.rows);
  rpc_endpoint = rpc_of (find_first (λ n. n.id == s.use_network_id) w.networks);
  is_enable_autosign_message = s.is_enable_autosign_message;
})

-- `getUserForSendMessage` and `getUserForCreateChatRoomById`, their first row.
unfoldable pub get_user_for_send_message : ℕ → World → Option SenderInfo
get_user_for_send_message user_id w =
    sender_row (find_first (λ u. u.id == user_id) w.users.rows)
      (find_first (λ s. s.user_id == user_id) w.settings.rows) w

-- The value of a text that is neither missing nor empty.
abbrev pub truthy : Option String → Option String
truthy none = none
truthy (some a) = if a == "" then none else some a

-- A user that has passed the checks, with the address of its default wallet.
pub record Sender : Type 0 where
  pub id : ℕ
  pub display_name : Option String
  pub address : String

unfoldable pub get_sender : ℕ → Exec Sender
get_sender user_id = do
  found ← gets (get_user_for_send_message user_id)
  user ← need found user_not_found
  address ← need (truthy user.address) wallet_not_found
  guard (is_some (truthy user.rpc_endpoint)) network_not_found
  guard user.is_enable_autosign_message autosign_disabled
  pure (record { id = user.id; display_name = user.display_name; address = address })
