-- ===== src/Registration.antt =====
-- src/auth/services/auth.service.ts, lines 99 to 207, with the creation of a user (src/user), of a wallet
-- (src/user-wallet) and of an HD wallet (src/user-hdwallet): the account of a new user.
pub mod Halfway
pub mod Linked
pub mod Refused
pub mod Opened
pub mod Steps
pub mod Unused
use nestjs_ex.Entities.{KmsDataKey, User, UserHdWallet, UserWallet, role_eq}
use nestjs_ex.Prelude.{
  Bool, Option, String, [], any, false, is_some, nat_eq, none, not, some, text_eq, ℕ, ◌==◌, ◌∷◌,
}
use nestjs_ex.Secrets.{
  check_address, find_user_hd_wallet_by_seed_phrase, find_user_wallet_by_private_key,
  key_if_enabled, same_secret, seal, sealed_with,
}
use nestjs_ex.Sender.{truthy}
use nestjs_ex.Store.{insert}
use nestjs_ex.UserSettings.{create_default_setting}
use nestjs_ex.Username.{does_username_exist, draw_username}
use nestjs_ex.World.{
  Env, Exec, duplicate_entry, gets, guard, hd_wallet_exists, need, ok, out_of_fuel,
  password_mismatch, pure, wallet_exists, ◌>>=◌, ◌>>◌,
}

-- `RegisterInput`, with `none` for a property that is left out.
pub record RegisterInput : Type 0 where
  pub name : String
  pub password : String
  pub confirm_password : String
  pub email : Option String
  pub seed_phrase : Option String
  pub private_key : String
  pub hd_wallet_path : String
  pub wallet_address : String
  pub network_id : ℕ
  pub is_external : Option Bool

-- The columns `username` and `email` are unique.
abbrev pub same_email : Env → Option String → User → Bool
same_email env none u = false
same_email env (some email) u = same_secret env u.email email

abbrev pub new_user : RegisterInput → String → Env → ℕ → User
new_user input username env id = record {
  id = id;
  name = some input.name;
  username = username;
  avatar = none;
  email = input.email;
  password = env.hash input.password;
  roles = "USER" ∷ [];
  is_account_disabled = false;
}

unfoldable pub save_user : (ℕ → User) → Exec User
save_user row w = (ok (row w.users.next_id), record w { users = insert row w.users })

-- `UserService.createUser`
unfoldable pub create_user : RegisterInput → String → Exec User
create_user input username = do
  env ← gets (λ w. w.env)
  exists ← gets (does_username_exist username)
  guard (not exists) duplicate_entry
  users ← gets (λ w. w.users.rows)
  guard (not (any (same_email env input.email) users)) duplicate_entry
  save_user (new_user input username env)

-- `value ? true : false`
abbrev is_true : Option Bool → Bool
is_true none = false
is_true (some b) = b

abbrev pub new_hd_wallet : RegisterInput → ℕ → Option String → Option ℕ → ℕ → ℕ → UserHdWallet
new_hd_wallet input user_id seed key now id = record {
  id = id;
  user_id = user_id;
  wallet_name = some "";
  seed_phrase = seed;
  is_hd = is_some (truthy seed);
  hd_path = some input.hd_wallet_path;
  kms_data_key_id = key;
  is_external = is_true input.is_external;
  network_id = input.network_id;
  created_at = now;
  updated_at = now;
}

unfoldable pub save_hd_wallet : (ℕ → UserHdWallet) → Exec UserHdWallet
save_hd_wallet row w =
    (ok (row w.hd_wallets.next_id), record w { hd_wallets = insert row w.hd_wallets })

-- `if (kmsDataKey && input.seedPhrase)`
unfoldable pub sealed_seed : Option String → Option KmsDataKey → Exec (Option (String × ℕ))
sealed_seed none key = pure none
sealed_seed (some seed) key = sealed_with seed key

unfoldable pub seal_seed : Option String → Exec (Option (String × ℕ))
seal_seed seed = do key ← key_if_enabled; sealed_seed seed key

abbrev pub stored_secret : Option String → Option (String × ℕ) → Option String
stored_secret secret none = secret
stored_secret secret (some (cipher, id)) = some cipher

abbrev pub key_of_secret : Option (String × ℕ) → Option ℕ
key_of_secret none = none
key_of_secret (some (cipher, id)) = some id

-- The column `seedPhrase` is unique.
abbrev pub seed_taken : Env → Option String → UserHdWallet → Bool
seed_taken env none h = false
seed_taken env (some seed) h = same_secret env h.seed_phrase seed

-- `UserHdWalletService.createHdWallet`
unfoldable pub create_hd_wallet : RegisterInput → ℕ → Option String → Exec UserHdWallet
create_hd_wallet input user_id seed = do
  sealed ← seal_seed (truthy seed)
  env ← gets (λ w. w.env)
  stored ← gets (λ w. w.hd_wallets.rows)
  guard (not (any (seed_taken env (stored_secret seed sealed)) stored)) duplicate_entry
  save_hd_wallet
      (new_hd_wallet input user_id (stored_secret seed sealed) (key_of_secret sealed) env.now)

abbrev pub new_wallet : RegisterInput → ℕ → ℕ → Option (String × ℕ) → ℕ → ℕ → UserWallet
new_wallet input user_id hd_wallet_id sealed now id = record {
  id = id;
  user_id = user_id;
  wallet_name = some "";
  address = input.wallet_address;
  private_key = stored_secret (some input.private_key) sealed;
  is_hd = false;
  hd_path = some input.hd_wallet_path;
  kms_data_key_id = key_of_secret sealed;
  is_external = is_true input.is_external;
  current_block_number = some 0;
  user_hd_wallet_id = hd_wallet_id;
  network_id = input.network_id;
  created_at = now;
  updated_at = now;
}

unfoldable pub save_wallet : (ℕ → UserWallet) → Exec UserWallet
save_wallet row w = (ok (row w.wallets.next_id), record w { wallets = insert row w.wallets })

-- `UserWalletService.createUserWallet`
unfoldable pub create_user_wallet : RegisterInput → ℕ → ℕ → Exec UserWallet
create_user_wallet input user_id hd_wallet_id = do
  sealed ← seal input.private_key
  now ← gets (λ w. w.env.now)
  save_wallet (new_wallet input user_id hd_wallet_id sealed now)

unfoldable pub check_seed_phrase : Option String → Exec (Unit {0})
check_seed_phrase none = pure tt
check_seed_phrase (some seed) = do
  env ← gets (λ w. w.env)
  found ← find_user_hd_wallet_by_seed_phrase (env.squeeze seed)
  guard (not (is_some found)) hd_wallet_exists

unfoldable pub check_private_key : Option String → Exec (Unit {0})
check_private_key none = pure tt
check_private_key (some key) = do
  found ← find_user_wallet_by_private_key key
  guard (not (is_some found)) wallet_exists

-- What is in `input.seedPhrase` after the check.
abbrev pub kept_seed : Env → Option String → Option String
kept_seed env seed = elim (truthy seed) [ none ↦ seed | some s ↦ some (env.squeeze s) ]

-- The checks before the first write, and the name that is drawn with the fuel.
unfoldable pub check_registration : ℕ → RegisterInput → Exec String
check_registration fuel input = do
  guard (input.password == input.confirm_password) password_mismatch
  check_seed_phrase (truthy input.seed_phrase)
  check_private_key (truthy (some input.private_key))
  taken ← gets (check_address input.wallet_address)
  guard (not taken) wallet_exists
  drawn ← gets (draw_username fuel 0)
  need drawn out_of_fuel

-- `register`, up to the tokens that it returns; there is no transaction round its writes.
unfoldable pub register : ℕ → RegisterInput → Exec User
register fuel input = do
  username ← check_registration fuel input
  env ← gets (λ w. w.env)
  user ← create_user input username
  hd_wallet ← create_hd_wallet input user.id (kept_seed env input.seed_phrase)
  wallet ← create_user_wallet input user.id hd_wallet.id
  create_default_setting user.id input.network_id wallet.id
  pure user
