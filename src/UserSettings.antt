-- ===== src/UserSettings.antt =====
-- src/user-setting/services/user-setting.service.ts: the one setting of a user.
pub mod Refinement
use nestjs_ex.Entities.{UserSetting, UserWallet}
use nestjs_ex.Network.{get_by_id}
use nestjs_ex.Prelude.{
  Bool, List, Option, String, [], false, find_first, includes, is_some, nat_eq, none, some, text_eq,
  ℕ, ◌&&◌, ◌==◌, ◌∷◌,
}
use nestjs_ex.Store.{insert, update_rows}
use nestjs_ex.World.{
  Exec, World, gas_fee_level_not_valid, gets, guard, ok, pure, wallet_not_found, ◌>>=◌, ◌>>◌,
}

-- `AddUserSettingInput`
pub record AddUserSettingInput : Type 0 where
  pub language : String
  pub display_currency : String
  pub biometrics : Bool
  pub use_user_wallet_id : ℕ
  pub use_network_id : ℕ
  pub gas_fee_level : String
  pub is_enable_autosign_message : Bool

-- The keys of `GAS_FEE_LEVEL`
abbrev pub gas_fee_levels : List String
gas_fee_levels = "SLOW" ∷ "MEDIUM" ∷ "FAST" ∷ []

-- `findOneByUserId`
unfoldable pub find_setting_by_user_id : ℕ → World → Option UserSetting
find_setting_by_user_id user_id w = find_first (λ s. s.user_id == user_id) w.settings.rows

-- `UserWalletService.findByIdAndUserId`
unfoldable pub find_wallet_by_id_and_user_id : ℕ → ℕ → World → Option UserWallet
find_wallet_by_id_and_user_id id user_id w =
    find_first (λ x. (x.id == id) && (x.user_id == user_id)) w.wallets.rows

-- `{ ...existSetting, ...newSetting, updatedAt }`
abbrev pub merged_setting : UserSetting → AddUserSettingInput → ℕ → UserSetting
merged_setting old input now = record {
  id = old.id;
  user_id = old.user_id;
  language = input.language;
  display_currency = input.display_currency;
  biometrics = input.biometrics;
  use_user_wallet_id = input.use_user_wallet_id;
  use_network_id = input.use_network_id;
  gas_fee_level = input.gas_fee_level;
  is_enable_autosign_message = input.is_enable_autosign_message;
  created_at = old.created_at;
  updated_at = now;
}

-- `{ ...newSetting, userId }`
abbrev pub new_setting : ℕ → AddUserSettingInput → ℕ → ℕ → UserSetting
new_setting user_id input now id = record {
  id = id;
  user_id = user_id;
  language = input.language;
  display_currency = input.display_currency;
  biometrics = input.biometrics;
  use_user_wallet_id = input.use_user_wallet_id;
  use_network_id = input.use_network_id;
  gas_fee_level = input.gas_fee_level;
  is_enable_autosign_message = input.is_enable_autosign_message;
  created_at = now;
  updated_at = now;
}

-- `repository.save` of a new row
unfoldable pub insert_setting : (ℕ → UserSetting) → Exec UserSetting
insert_setting row w = (ok (row w.settings.next_id), record w { settings = insert row w.settings })

-- `repository.update(existSetting.id, userSetting)`
unfoldable pub update_setting : UserSetting → Exec UserSetting
update_setting s w =
    (ok s, record w { settings = update_rows (λ x. x.id == s.id) (λ x. s) w.settings })

-- `if (existSetting) … else …`
unfoldable pub write_setting : ℕ → AddUserSettingInput → ℕ → Option UserSetting → Exec UserSetting
write_setting user_id input now none = insert_setting (new_setting user_id input now)
write_setting user_id input now (some old) = update_setting (merged_setting old input now)

unfoldable pub upsert_setting : ℕ → AddUserSettingInput → Exec UserSetting
upsert_setting user_id input = do
  get_by_id input.use_network_id
  wallet ← gets (find_wallet_by_id_and_user_id input.use_user_wallet_id user_id)
  guard (is_some wallet) wallet_not_found
  level ← gets (λ w. w.env.to_upper_case input.gas_fee_level)
  guard (includes gas_fee_levels level) gas_fee_level_not_valid
  existing ← gets (find_setting_by_user_id user_id)
  now ← gets (λ w. w.env.now)
  write_setting user_id input now existing

-- The setting that a new user starts with.
abbrev pub default_setting : ℕ → ℕ → AddUserSettingInput
default_setting network_id wallet_id = record {
  language = "en";
  display_currency = "USD";
  biometrics = false;
  use_user_wallet_id = wallet_id;
  use_network_id = network_id;
  gas_fee_level = "medium";
  is_enable_autosign_message = false;
}

unfoldable pub default_if_missing : ℕ → ℕ → ℕ → ℕ → Option UserSetting → Exec (Unit {0})
default_if_missing user_id network_id wallet_id now (some old) = pure tt
default_if_missing user_id network_id wallet_id now none = do
  insert_setting (new_setting user_id (default_setting network_id wallet_id) now)
  pure tt

unfoldable pub create_default_setting : ℕ → ℕ → ℕ → Exec (Unit {0})
create_default_setting user_id network_id wallet_id = do
  existing ← gets (find_setting_by_user_id user_id)
  now ← gets (λ w. w.env.now)
  default_if_missing user_id network_id wallet_id now existing
