-- ===== src/Auth.antt =====
-- src/auth/services/auth.service.ts: the check of a password, the tokens of a session, and the recovery of an
-- account from a secret.
pub mod Sessions
pub mod Recovery
use nestjs_ex.Entities.{TokenClaims, User, UserHdWallet, UserWallet, role_eq}
use nestjs_ex.Prelude.{
  Bool, Option, String, false, nat_eq, none, not, some, suc, text_eq, true, zero, ℕ, ◌==◌,
}
use nestjs_ex.Secrets.{find_user_hd_wallet_by_seed_phrase, find_user_wallet_by_private_key}
use nestjs_ex.Users.{find_user_by_id, validate_username_password}
use nestjs_ex.World.{
  Env, Exec, account_disabled, gets, guard, need, pure, refresh_token_not_valid, token_not_valid,
  type_error, user_id_not_valid, ◌>>=◌, ◌>>◌,
}

-- `AuthTokenOutput`
pub record AuthToken : Type 0 where
  pub access_token : String
  pub refresh_token : String

-- `RecoverOutput`; it has no tokens and no user where nothing is found.
pub record RecoverOutput : Type 0 where
  pub result : Bool
  pub message : String
  pub tokens : Option AuthToken
  pub user : Option User

unfoldable pub validate_user : String → String → Exec User
validate_user username pass = do
  user ← validate_username_password username pass
  guard (not user.is_account_disabled) account_disabled
  pure user

abbrev refresh_claims : User → TokenClaims
refresh_claims user = record { sub = user.id; username = none; roles = none }

abbrev access_claims : User → TokenClaims
access_claims user = record {
  sub = user.id;
  username = some user.username;
  roles = some user.roles;
}

-- `getAuthToken`, and `login` for the user of the request
abbrev pub get_auth_token : User → Env → AuthToken
get_auth_token user env = record {
  refresh_token = env.jwt_sign (refresh_claims user) env.refresh_token_expires_in env.now;
  access_token = env.jwt_sign (access_claims user) env.access_token_expires_in env.now;
}

-- `if (!sub)`
abbrev pub present_id : Option ℕ → Option ℕ
present_id none = none
present_id (some zero) = none
present_id (some (suc n)) = some (suc n)

unfoldable pub refresh_token : String → Exec AuthToken
refresh_token token = do
  verified ← gets (λ w. w.env.jwt_verify token w.env.now)
  sub ← need verified token_not_valid
  id ← need (present_id sub) refresh_token_not_valid
  found ← gets (find_user_by_id id)
  user ← need found user_id_not_valid
  gets (λ w. get_auth_token user w.env)

abbrev pub recovered : User → Env → RecoverOutput
recovered user env = record {
  result = true;
  message = "ok";
  tokens = some (get_auth_token user env);
  user = some user;
}

abbrev pub not_recovered : String → RecoverOutput
not_recovered message = record { result = false; message = message; tokens = none; user = none }

unfoldable pub generate_recover_output : ℕ → Exec RecoverOutput
generate_recover_output user_id = do
  found ← gets (find_user_by_id user_id)
  user ← need found type_error
  gets (λ w. recovered user w.env)

unfoldable pub recover_wallet : Option UserWallet → Exec RecoverOutput
recover_wallet none = pure (not_recovered "User wallet not found")
recover_wallet (some wallet) = generate_recover_output wallet.user_id

unfoldable pub verify_private_key : String → Exec RecoverOutput
verify_private_key key = do wallet ← find_user_wallet_by_private_key key; recover_wallet wallet

-- `validateUserSeedPhrase`
abbrev pub seed_phrase_words_count : ℕ
seed_phrase_words_count = 12

abbrev pub validate_user_seed_phrase : Env → String → Bool
validate_user_seed_phrase env seed = env.number_of_words seed == seed_phrase_words_count

unfoldable pub recover_hd_wallet : Option UserHdWallet → Exec RecoverOutput
recover_hd_wallet none = pure (not_recovered "User wallet not found")
recover_hd_wallet (some wallet) = generate_recover_output wallet.user_id

unfoldable pub recover_seed : Bool → String → Exec RecoverOutput
recover_seed false seed = pure (not_recovered "Invalid seed phrase")
recover_seed true seed = do
  wallet ← find_user_hd_wallet_by_seed_phrase seed
  recover_hd_wallet wallet

unfoldable pub verify_seed_phrase : String → Exec RecoverOutput
verify_seed_phrase phrase = do
  env ← gets (λ w. w.env)
  recover_seed (validate_user_seed_phrase env (env.squeeze phrase)) (env.squeeze phrase)
