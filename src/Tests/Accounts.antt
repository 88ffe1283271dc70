-- ===== src/Tests/Accounts.antt =====
-- src/auth, src/transaction, src/user-wallet and src/user-token: new accounts, tokens that are sent outside of a room,
-- and who may change what, run on the small database.
use nestjs_ex.Acl.{AclRole, acl_role_eq, can_do_action, check_roles, check_rules}
use nestjs_ex.DataKeys.{
  find_data_key, generate_data_key, generate_or_get_data_key, generate_with, get_cmk_by_id,
  get_first_cmk, get_kms_cmk, get_kms_instance, get_plain_data_key, kms_encrypt, or_generate,
  save_data_key,
}
use nestjs_ex.Entities.{KmsDataKey, Transaction, User, role_eq}
use nestjs_ex.Network.{
  get_by_id, get_network_fee_by_level, get_network_fee_symbol, get_parent_network_by_chain_id,
  is_shared_networks,
}
use nestjs_ex.NetworkFee.{get_network_fees}
use nestjs_ex.Prelude.{
  [], find_first, includes, inr, nat_eq, none, refl, select, some, text_eq, true, ◌++◌, ◌∷◌, ◌≡◌,
}
use nestjs_ex.RedPacket.{find_user_wallet_by_address_and_user_id, get_token_by_id, save_transaction}
use nestjs_ex.Registration.{
  RegisterInput, check_private_key, check_registration, check_seed_phrase, create_hd_wallet,
  create_user, create_user_wallet, new_hd_wallet, new_user, register, save_hd_wallet, save_user,
  save_wallet, seal_seed, sealed_seed,
}
use nestjs_ex.Registration.Halfway.{HasSeed, register-halfway}
use nestjs_ex.Registration.Linked.{IsRegistered, register-ok}
use nestjs_ex.Registration.Refused.{register-refused}
use nestjs_ex.Secrets.{
  check_address, find_user_hd_wallet_by_seed_phrase, find_user_wallet_by_private_key,
  key_if_enabled, key_where, seal, sealed_with,
}
use nestjs_ex.SendToken.{SendTokenInput, check_send_token, send_token_transaction, withdrawal}
use nestjs_ex.SendToken.Sent.{IsWithdrawn, send_token_transaction-ok}
use nestjs_ex.Store.{Table}
use nestjs_ex.Tests.{env0, wallet0, world0}
use nestjs_ex.Tests.Payments.{networks0, token0}
use nestjs_ex.UserContacts.{is_valid_address}
use nestjs_ex.UserSettings.{
  create_default_setting, default_if_missing, find_setting_by_user_id, insert_setting,
}
use nestjs_ex.UserTokens.{remove_token_by_id}
use nestjs_ex.UserWallets.{ChangeNetworkInput, change_network, moved_wallet, update_wallet}
use nestjs_ex.Username.{does_username_exist, draw_username}
use nestjs_ex.World.{Error, World, duplicate_entry, err, ok, unauthorized, wallet_exists, ◌>>=◌}

abbrev pub erin0 : RegisterInput
erin0 = record {
  name = "Erin";
  password = "secret";
  confirm_password = "secret";
  email = some "erin@example.org";
  seed_phrase = some "twelve words";
  private_key = "0x5";
  hd_wallet_path = "m/44";
  wallet_address = "0xe";
  network_id = 1;
  is_external = none;
}

abbrev pub erin1 : User
erin1 = new_user erin0 "Erin" env0 5

-- The accounts, where the secrets are sealed with a data key.
abbrev pub sealing : World
sealing = record world0 { env = record env0 { kms_enabled = true } }

abbrev pub with_erin : World
with_erin = (register 3 erin0 sealing).1

pub adds_erin : register 3 erin0 sealing ≡ (ok erin1, with_erin)
unfolding register check_registration check_seed_phrase check_private_key
    find_user_hd_wallet_by_seed_phrase find_user_wallet_by_private_key seal key_if_enabled key_where
    sealed_with generate_or_get_data_key or_generate generate_data_key generate_with find_data_key
    get_kms_instance get_kms_cmk get_first_cmk get_cmk_by_id save_data_key kms_encrypt
    get_plain_data_key sealed_seed check_address draw_username does_username_exist create_user
    save_user create_hd_wallet seal_seed save_hd_wallet create_user_wallet save_wallet
    create_default_setting default_if_missing insert_setting find_setting_by_user_id find_first
    ◌>>=◌
adds_erin = refl

pub no_setting_yet : find_setting_by_user_id 5 sealing ≡ none
unfolding find_setting_by_user_id find_first
no_setting_yet = refl

register-ok_example : IsRegistered erin0 sealing with_erin erin1
register-ok_example = register-ok 3 erin0 sealing with_erin erin1 no_setting_yet adds_erin

-- Bob's address.
abbrev second_bob : RegisterInput
second_bob = record erin0 { wallet_address = "0xb" }

address_taken : check_address "0xb" world0 ≡ true
unfolding check_address
address_taken = refl

register-refused_example :
    (e : Error) × (keys : Table KmsDataKey) × (register 3 second_bob world0
      ≡ (err e, record world0 { data_keys = keys }))
register-refused_example = register-refused 3 second_bob world0 (inr address_taken)

-- A private key that a wallet has.
register_throws : (register 3 (record erin0 { private_key = "key" }) world0).0 ≡ err wallet_exists
unfolding register check_registration check_seed_phrase check_private_key
    find_user_hd_wallet_by_seed_phrase find_user_wallet_by_private_key seal key_if_enabled key_where
    sealed_with find_first ◌>>=◌
register_throws = refl

-- Alice and Frank register without a seed phrase, which their application sends as the empty text.
abbrev frank0 : RegisterInput
frank0 = record erin0 {
  name = "Frank";
  seed_phrase = some "";
  private_key = "0x6";
  wallet_address = "0xf";
}

abbrev no_seed : World
no_seed = record world0 {
  env = record env0 { random_word = λ n. "Frank" };
  hd_wallets = record { rows = new_hd_wallet frank0 1 (some "") none 10 1 ∷ []; next_id = 2 };
}

abbrev after_frank : World
after_frank = (create_user frank0 "Frank" no_seed).1

abbrev frank1 : User
frank1 = new_user frank0 "Frank" env0 5

seed_stored : HasSeed "" no_seed
seed_stored = refl

frank_passes : check_registration 1 frank0 no_seed ≡ (ok "Frank", no_seed)
unfolding key_if_enabled key_where sealed_with check_registration check_seed_phrase
    check_private_key find_user_wallet_by_private_key seal check_address draw_username
    does_username_exist find_first ◌>>=◌
frank_passes = refl

frank_saved : create_user frank0 "Frank" no_seed ≡ (ok frank1, after_frank)
unfolding create_user save_user does_username_exist find_first ◌>>=◌
frank_saved = refl

register-halfway_example :
    (register 1 frank0 no_seed ≡ (err duplicate_entry, after_frank))
    × (after_frank.users.rows ≡ no_seed.users.rows ++ frank1 ∷ [])
    × (after_frank ≡ record no_seed { users = after_frank.users })
register-halfway_example =
    register-halfway 1 frank0 "Frank" frank1 no_seed after_frank refl refl seed_stored frank_passes
      frank_saved

abbrev payment0 : SendTokenInput
payment0 = record {
  network_id = 2;
  amount = "5";
  from_address = "0xb";
  to_address = "0xd";
  fee_level = "fast";
  token_id = 1;
}

abbrev paid0 : Transaction
paid0 = record (withdrawal payment0 2 (wallet0 2 "0xb") token0 env0 1) { amount = "5" }

abbrev after_payment : World
after_payment = (send_token_transaction 2 payment0 networks0).1

sends_token : send_token_transaction 2 payment0 networks0 ≡ (ok paid0, after_payment)
unfolding send_token_transaction check_send_token find_user_wallet_by_address_and_user_id get_by_id
    is_valid_address is_shared_networks get_parent_network_by_chain_id get_token_by_id
    get_network_fee_by_level get_network_fees get_network_fee_symbol save_transaction find_first
    includes ◌>>=◌
sends_token = refl

send_token_transaction-ok_example : IsWithdrawn 2 payment0 networks0 after_payment paid0
send_token_transaction-ok_example =
    send_token_transaction-ok 2 payment0 networks0 after_payment paid0 sends_token

-- Bob moves Alice's wallet to another network.
abbrev bob_moves : ChangeNetworkInput
bob_moves = record { wallet_id = 1; network_id = 2 }

bob_moves_wallet :
    (change_network 2 bob_moves networks0).0 ≡ ok (moved_wallet (wallet0 1 "0xa") 2 1000)
unfolding change_network update_wallet get_by_id find_first ◌>>=◌
bob_moves_wallet = refl

-- Only the owner of a token removes it.
alice_keeps_token :
    (remove_token_by_id (record { id = 1; roles = AclRole.user ∷ [] }) 1 networks0)
    ≡ (err unauthorized, networks0)
unfolding remove_token_by_id get_token_by_id can_do_action check_roles check_rules find_first
    includes select ◌>>=◌
alice_keeps_token = refl
