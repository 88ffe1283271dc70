-- ===== src/Registration/Linked.antt =====
-- src/auth/services/auth.service.ts, lines 99 to 207: the rows of a new user, and how they point to each other.
-- The rows of the new account, and that they belong together.
use mathlib.Core.Path.{subst}
use nestjs_ex.Entities.{KmsDataKey, User, UserHdWallet, UserSetting, UserWallet}
use nestjs_ex.Prelude.{Option, String, [], ap, false, none, refl, sym, ℕ, ◌++◌, ◌∙◌, ◌∷◌, ◌≡◌}
use nestjs_ex.Registration.{
  RegisterInput, check_registration, kept_seed, new_user, new_wallet, register,
}
use nestjs_ex.Registration.Opened.{after_registering, open_account-ok}
use nestjs_ex.Registration.Steps.{MayRegister, check_registration-ok, hd_row, with_keys}
use nestjs_ex.Secrets.{check_address}
use nestjs_ex.Store.{Table}
use nestjs_ex.UserSettings.{default_setting, find_setting_by_user_id, new_setting}
use nestjs_ex.Username.{does_username_exist}
use nestjs_ex.World.{World, ok}
use nestjs_ex.World.Outcome.{bind-ok, gets-bind-ok}

pub record IsRegistered (input : RegisterInput) (w v : World) (user : User) : Type 0 where
  pub matched : input.password ≡ input.confirm_password
  pub address_unused : check_address input.wallet_address w ≡ false
  pub name_unused : does_username_exist user.username w ≡ false
  pub users : v.users.rows ≡ w.users.rows ++ user ∷ []
  pub password : user.password ≡ w.env.hash input.password
  pub hd_wallet : UserHdWallet
  pub hd_wallets : v.hd_wallets.rows ≡ w.hd_wallets.rows ++ hd_wallet ∷ []
  pub hd_owner : hd_wallet.user_id ≡ user.id
  pub wallet : UserWallet
  pub wallets : v.wallets.rows ≡ w.wallets.rows ++ wallet ∷ []
  pub owner : (wallet.user_id ≡ user.id) × (wallet.user_hd_wallet_id ≡ hd_wallet.id)
  pub address : (wallet.address ≡ input.wallet_address) × (wallet.network_id ≡ input.network_id)
  pub setting : UserSetting
  pub settings : v.settings.rows ≡ w.settings.rows ++ setting ∷ []
  pub chosen : (setting.user_id ≡ user.id) × (setting.use_user_wallet_id ≡ wallet.id)
  pub network : setting.use_network_id ≡ input.network_id
  pub chat_queue : v.chat_queue ≡ w.chat_queue

after_registering-IsRegistered :
    (input : RegisterInput) (username : String) (seed : Option String)
    (sealed key : Option (String × ℕ)) (keys : Table KmsDataKey) (w : World)
    → MayRegister input w
    → does_username_exist username w ≡ false
    → IsRegistered input w
        (after_registering input username seed sealed key keys w)
        (new_user input username w.env w.users.next_id)
after_registering-IsRegistered input username seed sealed key keys w may fresh = record {
  matched = may.0;
  address_unused = may.1;
  name_unused = fresh;
  users = refl;
  password = refl;
  hd_wallet = hd_row input w.users.next_id seed sealed w.env.now w.hd_wallets.next_id;
  hd_wallets = refl;
  hd_owner = refl;
  wallet = new_wallet input w.users.next_id w.hd_wallets.next_id key w.env.now w.wallets.next_id;
  wallets = refl;
  owner = (refl, refl);
  address = (refl, refl);
  setting =
      new_setting w.users.next_id (default_setting input.network_id w.wallets.next_id) w.env.now
        w.settings.next_id;
  settings = refl;
  chosen = (refl, refl);
  network = refl;
  chat_queue = refl;
}

pub no_setting-next :
    (keys : Table KmsDataKey) (w u : World)
    → u ≡ with_keys keys w
    → find_setting_by_user_id w.users.next_id w ≡ none
    → find_setting_by_user_id u.users.next_id u ≡ none
unfolding find_setting_by_user_id
no_setting-next keys w u u_is none_yet =
    subst (λ (z : World). find_setting_by_user_id z.users.next_id z ≡ none) (sym u_is) none_yet

MayRegister-keys :
    (input : RegisterInput) (keys : Table KmsDataKey) (w : World)
    → MayRegister input w
    → MayRegister input (with_keys keys w)
unfolding check_address
MayRegister-keys input keys w may = may

-- The data keys are no part of the account.
IsRegistered-keys :
    (input : RegisterInput) (keys : Table KmsDataKey) (w v : World) (user : User)
    → IsRegistered input (with_keys keys w) v user
    → IsRegistered input w v user
unfolding check_address does_username_exist
IsRegistered-keys input keys w v user r = record {
  matched = r.matched;
  address_unused = r.address_unused;
  name_unused = r.name_unused;
  users = r.users;
  password = r.password;
  hd_wallet = r.hd_wallet;
  hd_wallets = r.hd_wallets;
  hd_owner = r.hd_owner;
  wallet = r.wallet;
  wallets = r.wallets;
  owner = r.owner;
  address = r.address;
  setting = r.setting;
  settings = r.settings;
  chosen = r.chosen;
  network = r.network;
  chat_queue = r.chat_queue;
}

-- Where `register` returns, the two passwords are the same and no wallet had the address; one user with a username
-- that no user had is added, one HD wallet of that user, one wallet of that user under the HD wallet with the address
-- and the network of the request, and one setting of that user with that wallet and network; the chat queue stays. It
-- is assumed that no setting names the key that the user gets.
pub register-ok :
    (fuel : ℕ) (input : RegisterInput) (w v : World) (user : User)
    → find_setting_by_user_id w.users.next_id w ≡ none
    → register fuel input w ≡ (ok user, v)
    → IsRegistered input w v user
unfolding register
register-ok fuel input w v user none_yet h =
    let (username, u, hc, h1) = bind-ok (check_registration fuel input) _ w v user h in
    let (may, u_is) = check_registration-ok fuel input w u username hc in
    let seed = kept_seed u.env input.seed_phrase in
    let done =
      open_account-ok input username seed u v user (no_setting-next u.data_keys w u u_is none_yet)
        (gets-bind-ok _ _ u v user h1) in
    let made =
      after_registering-IsRegistered input username seed done.sealed done.key done.keys
        (with_keys u.data_keys w) (MayRegister-keys input u.data_keys w may)
        (subst (λ z. does_username_exist username z ≡ false) u_is (done.fresh)) in
    let v_is =
      done.after ∙ ap (after_registering input username seed done.sealed done.key done.keys) u_is in
    let user_is =
      ap (λ (z : World). new_user input username z.env z.users.next_id) (sym u_is) ∙ done.user_is in
    IsRegistered-keys input u.data_keys w v user (
      subst (λ z. IsRegistered input (with_keys u.data_keys w) z user) (sym v_is)
        (subst
          (IsRegistered input (with_keys u.data_keys w) (
            after_registering input username seed done.sealed done.key done.keys
              (with_keys u.data_keys w)))
          user_is made))
