-- ===== src/Secrets.antt =====
-- The reads by a secret of src/user-hdwallet and src/user-wallet, which KMS may have encrypted, and the read by an
-- address.
pub mod Again
use nestjs_ex.DataKeys.{generate_or_get_data_key, kms_encrypt}
use nestjs_ex.Entities.{KmsDataKey, UserHdWallet, UserWallet}
use nestjs_ex.Prelude.{
  Bool, Option, String, any, false, find_first, nat_eq, none, some, text_eq, true, ℕ, ◌&&◌, ◌==◌,
}
use nestjs_ex.World.{Env, Exec, World, gets, pure, ◌>>=◌}

-- `if (KMS_ENABLED)`
unfoldable pub key_where : Bool → Exec (Option KmsDataKey)
key_where false = pure none
key_where true = generate_or_get_data_key

unfoldable pub key_if_enabled : Exec (Option KmsDataKey)
key_if_enabled = do enabled ← gets (λ w. w.env.kms_enabled); key_where enabled

-- A secret as KMS encrypts it, with the key; `none` where there is no key.
unfoldable pub sealed_with : String → Option KmsDataKey → Exec (Option (String × ℕ))
sealed_with secret none = pure none
sealed_with secret (some key) = do
  cipher ← kms_encrypt secret (some key.id)
  pure (some (cipher, key.id))

unfoldable pub seal : String → Exec (Option (String × ℕ))
seal secret = do key ← key_if_enabled; sealed_with secret key

abbrev pub same_secret : Env → Option String → String → Bool
same_secret env none secret = false
same_secret env (some stored) secret = env.same_text stored secret

abbrev pub has_key : Option ℕ → ℕ → Bool
has_key none id = false
has_key (some key) id = key == id

abbrev pub first_of : {A : Type 0} → Option A → Option A → Option A
first_of none b = b
first_of (some a) b = some a

abbrev pub hd_wallet_of : String → Option (String × ℕ) → World → Option UserHdWallet
hd_wallet_of seed none w = find_first (λ h. same_secret w.env h.seed_phrase seed) w.hd_wallets.rows
hd_wallet_of seed (some (cipher, id)) w =
    first_of
      (find_first (λ h. same_secret w.env h.seed_phrase cipher && has_key h.kms_data_key_id id)
        w.hd_wallets.rows)
      (find_first (λ h. same_secret w.env h.seed_phrase seed) w.hd_wallets.rows)

-- `UserHdWalletService.findUserHdWalletBySeedPhrase`
unfoldable pub find_user_hd_wallet_by_seed_phrase : String → Exec (Option UserHdWallet)
find_user_hd_wallet_by_seed_phrase seed = do sealed ← seal seed; gets (hd_wallet_of seed sealed)

abbrev pub wallet_of_key : String → Option (String × ℕ) → World → Option UserWallet
wallet_of_key key none w = find_first (λ x. same_secret w.env x.private_key key) w.wallets.rows
wallet_of_key key (some (cipher, id)) w =
    first_of
      (find_first (λ x. same_secret w.env x.private_key cipher && has_key x.kms_data_key_id id)
        w.wallets.rows)
      (find_first (λ x. same_secret w.env x.private_key key) w.wallets.rows)

-- `UserWalletService.findUserWalletByPrivateKey`
unfoldable pub find_user_wallet_by_private_key : String → Exec (Option UserWallet)
find_user_wallet_by_private_key key = do sealed ← seal key; gets (wallet_of_key key sealed)

-- `UserWalletService.checkAddress`
unfoldable pub check_address : String → World → Bool
check_address address w = any (λ x. w.env.lower x.address == w.env.lower address) w.wallets.rows
