-- ===== src/Tests/Services.antt =====
-- Runs of the room keys, the access rules and the networks.
use nestjs_ex.Acl.{
  AclRole, AclRule, Action, Actor, acl_role_eq, action_eq, can_do_action, user_acl_rules,
}
use nestjs_ex.Acl.Decision.{Allowing, can_do_action_iff}
use nestjs_ex.Entities.{Network, RoomKey, role_eq}
use nestjs_ex.Network.{is_shared_networks}
use nestjs_ex.Network.Shared.{is_shared_networks_iff_listed}
use nestjs_ex.Prelude.{
  String, [], arith, find_first, nat_eq, refl, some, text_eq, true, ℕ, ◌*◌, ◌==◌, ◌↔◌, ◌∷◌, ◌≡◌,
  ◌≢◌, ◌≤◌,
}
use nestjs_ex.RoomKey.{create_room_keys, find_room_key_by_room_id_and_side}
use nestjs_ex.RoomKey.Agreement.{NoKey, create_room_keys-agree}
use nestjs_ex.Sending.{max_message_length, number_of_txs}
use nestjs_ex.Sending.Chunks.{number_of_txs_least}
use nestjs_ex.Tests.{world0}
use nestjs_ex.World.{World, ok}

no_key : (side : String) → NoKey 1 side world0
unfolding find_room_key_by_room_id_and_side find_first
no_key side = refl

create_room_keys-agree_example :
    (a : RoomKey) × (b : RoomKey) × (find_room_key_by_room_id_and_side 1 "originator"
        (create_room_keys 1 world0).1
      ≡ some a)
    × (find_room_key_by_room_id_and_side 1 "participant" (create_room_keys 1 world0).1 ≡ some b)
    × (a.shared_key ≡ b.shared_key)
    × (a.iv ≡ b.iv)
    × (a.shared_key ≡ "shared")
    × (b.shared_key ≡ "shared")
create_room_keys-agree_example =
    create_room_keys-agree 1 world0 (no_key "originator") (no_key "participant") refl

abbrev alice : Actor
alice = record { id = 1; roles = AclRole.user ∷ [] }

can_do_action_iff_example :
    (can_do_action user_acl_rules alice Action.update 1 ≡ true)
    ↔ ((rule : AclRule ℕ) × Allowing Action.update 1 alice user_acl_rules rule)
can_do_action_iff_example = can_do_action_iff Action.update 1 alice user_acl_rules

abbrev chains0 : World
chains0 = record world0 {
  networks =
      record { id = 1; chain_id = "137"; rpc_endpoint = "rpc"; native_token_symbol = "MATIC" }
      ∷ record { id = 2; chain_id = "1984"; rpc_endpoint = "rpc"; native_token_symbol = "MATIC" }
      ∷ [];
}

number_of_txs_least_example :
    (1 ≤ number_of_txs 20001)
    × (20001 ≤ number_of_txs 20001 * max_message_length)
    × ((k : ℕ) → 1 ≤ k → 20001 ≤ k * max_message_length → number_of_txs 20001 ≤ k)
number_of_txs_least_example = number_of_txs_least 20001

eurus_is_other : ◌≢◌ {A = ℕ} 1 2
eurus_is_other = ground arith

polygon_is_found :
    find_first (λ (n : Network). n.id == 1) chains0.networks
    ≡ some
        (record { id = 1; chain_id = "137"; rpc_endpoint = "rpc"; native_token_symbol = "MATIC" })
unfolding find_first
polygon_is_found = refl

eurus_is_found :
    find_first (λ (n : Network). n.id == 2) chains0.networks
    ≡ some
        (record { id = 2; chain_id = "1984"; rpc_endpoint = "rpc"; native_token_symbol = "MATIC" })
unfolding find_first
eurus_is_found = refl

is_shared_networks_iff_listed_example : is_shared_networks 1 2 chains0 ≡ (ok true, chains0)
is_shared_networks_iff_listed_example =
    is_shared_networks_iff_listed 1 2
      (record { id = 1; chain_id = "137"; rpc_endpoint = "rpc"; native_token_symbol = "MATIC" })
      (record { id = 2; chain_id = "1984"; rpc_endpoint = "rpc"; native_token_symbol = "MATIC" })
      chains0 eurus_is_other polygon_is_found eurus_is_found
