-- ===== src/Registration/Opened.antt =====
-- src/auth/services/auth.service.ts, lines 146 to 183: the writes of `register`.
use mathlib.Core.Path.{ap₂, subst}
use nestjs_ex.DataKeys.Ready.{Ready, Ready-moved}
use nestjs_ex.Entities.{KmsDataKey, User, UserHdWallet, UserSetting, UserWallet}
use nestjs_ex.Prelude.{
  Option, String, ap, false, find_first, nat_eq, none, sym, text_eq, ℕ, ◌==◌, ◌∙◌, ◌≡◌,
}
use nestjs_ex.Registration.{
  RegisterInput, create_hd_wallet, create_user, create_user_wallet, new_user, new_wallet,
}
use nestjs_ex.Registration.Steps.{
  KeysKept, create_default_setting-new, create_hd_wallet-ok, create_user-ok, create_user_wallet-ok,
  hd_added, hd_row, wallet_added, with_keys,
}
use nestjs_ex.Secrets.Again.{SealedBy, SealedBy-moved}
use nestjs_ex.Store.{Table, insert}
use nestjs_ex.UserSettings.{
  create_default_setting, default_setting, find_setting_by_user_id, new_setting,
}
use nestjs_ex.Username.{does_username_exist}
use nestjs_ex.World.{Exec, World, ok, pure, ◌>>=◌, ◌>>◌}
use nestjs_ex.World.Outcome.{bind-ok, pure-ok}

-- The state after all four writes.
abbrev pub after_registering :
    RegisterInput
    → String
    → Option String
    → Option (String × ℕ)
    → Option (String × ℕ)
    → Table KmsDataKey
    → World
    → World
after_registering input username seed sealed key keys w =
    let user = new_user input username w.env w.users.next_id in
    record w {
      users = insert (new_user input username w.env) w.users;
      hd_wallets = insert (hd_row input user.id seed sealed w.env.now) w.hd_wallets;
      wallets = insert (new_wallet input user.id w.hd_wallets.next_id key w.env.now) w.wallets;
      data_keys = keys;
      settings =
          insert
            (new_setting user.id (default_setting input.network_id w.wallets.next_id) w.env.now)
            w.settings;
    }

abbrev setting_added : RegisterInput → ℕ → ℕ → World → World
setting_added input user_id wallet_id w = record w {
  settings =
      insert (new_setting user_id (default_setting input.network_id wallet_id) w.env.now)
        w.settings;
}

-- The last three writes, with the keys of the rows before them.
abbrev rows_added :
    RegisterInput
    → Option String
    → Option (String × ℕ)
    → Option (String × ℕ)
    → ℕ
    → ℕ
    → ℕ
    → World
    → World
rows_added input seed sealed key user_id hd_id wallet_id w = setting_added input user_id wallet_id (
    wallet_added (λ z. new_wallet input user_id hd_id key z.env.now)
      (hd_added (λ z. hd_row input user_id seed sealed z.env.now) w))

no_setting-same :
    (id : ℕ) (w v : World)
    → v.settings ≡ w.settings
    → find_setting_by_user_id id w ≡ none
    → find_setting_by_user_id id v ≡ none
unfolding find_setting_by_user_id
no_setting-same id w v same h =
    subst (λ (t : Table UserSetting). find_first (λ s. s.user_id == id) t.rows ≡ none) (sym same) h

-- The method from the HD wallet on.
abbrev pub open_rest : RegisterInput → Option String → User → Exec User
open_rest input seed user = do
  hd_wallet ← create_hd_wallet input user.id seed
  wallet ← create_user_wallet input user.id hd_wallet.id
  create_default_setting user.id input.network_id wallet.id
  pure user

-- The last three writes of `register`, for the user `x`.
record IsWritten (input : RegisterInput) (seed : Option String) (x user : User) (w v : World)
    : Type 0 where
  pub same : x ≡ user
  pub sealed : Option (String × ℕ)
  pub key : Option (String × ℕ)
  pub keys : Table KmsDataKey
  pub after :
      v
      ≡ rows_added input seed sealed key x.id w.hd_wallets.next_id w.wallets.next_id
          (with_keys keys w)
  pub stored : SealedBy input.private_key key v
  pub kept : KeysKept w keys

KeysKept-both :
    (row : World → ℕ → UserHdWallet) (a b : Table KmsDataKey) (w u : World)
    → KeysKept w a
    → u ≡ hd_added row (with_keys a w)
    → KeysKept u b
    → KeysKept w b
KeysKept-both row a b w u first u_is second o ready =
    let a_is = first o ready in
    let there : Ready (with_keys a w) o = subst (λ k. Ready (with_keys k w) o) (sym a_is) ready in
    let at_u =
      subst (λ z. Ready z o) (sym u_is)
        (Ready-moved w.users (insert (row (with_keys a w)) w.hd_wallets) w.wallets w.settings o
          (with_keys a w) there) in
    second o at_u ∙ ap World.data_keys u_is ∙ a_is

-- The method after the user was added.
open_rest-ok :
    (input : RegisterInput) (seed : Option String) (x user : User) (w v : World)
    → find_setting_by_user_id x.id w ≡ none
    → open_rest input seed x w ≡ (ok user, v)
    → IsWritten input seed x user w v
open_rest-ok input seed x user w v none_yet h =
    let (hd, u1, hh, h2) = bind-ok (create_hd_wallet input x.id seed) _ w v user h in
    let (sealed, hd_is, (keys1, u1_is, kept1)) = create_hd_wallet-ok input x.id seed w u1 hd hh in
    let (wallet, u2, hw, h3) = bind-ok (create_user_wallet input x.id hd.id) _ u1 v user h2 in
    let (key, wallet_is, (keys, u2_is, stored, kept2)) =
      create_user_wallet-ok input x.id hd.id u1 u2 wallet hw in
    let (_, u3, hs, h4) =
      bind-ok (create_default_setting x.id input.network_id wallet.id) _ u2 v user h3 in
    let (user_is, v_is) = pure-ok x user u3 v h4 in
    let same : u2.settings ≡ w.settings = ap World.settings u2_is ∙ ap World.settings u1_is in
    let u3_is =
      create_default_setting-new x.id input.network_id wallet.id u2 u3
        (no_setting-same x.id w u2 same none_yet) hs in
    let hd_id : hd.id ≡ w.hd_wallets.next_id = sym (ap UserHdWallet.id hd_is) in
    let wallet_id : wallet.id ≡ w.wallets.next_id =
      sym (ap UserWallet.id wallet_is) ∙ ap (λ (z : World). z.wallets.next_id) u1_is in
    let row = λ (z : World). hd_row input x.id seed sealed z.env.now in
    let new = λ (z : World). new_wallet input x.id hd.id key z.env.now in
    let rekeyed : with_keys keys u1 ≡ hd_added row (with_keys keys w) = ap (with_keys keys) u1_is in
    let after : v
        ≡ rows_added input seed sealed key x.id w.hd_wallets.next_id w.wallets.next_id
            (with_keys keys w) =
      v_is
      ∙ u3_is
      ∙ ap (setting_added input x.id wallet.id) (u2_is ∙ ap (wallet_added new) rekeyed)
      ∙ ap₂ (λ i j. rows_added input seed sealed key x.id i j (with_keys keys w)) hd_id wallet_id in
    let end =
      rows_added input seed sealed key x.id w.hd_wallets.next_id w.wallets.next_id
        (with_keys keys w) in
    record {
      same = user_is;
      sealed = sealed;
      key = key;
      keys = keys;
      after = after;
      stored = subst (SealedBy input.private_key key) (sym after) (
          SealedBy-moved end.users end.hd_wallets end.wallets end.settings
            (hd_added row (with_keys keys w)) input.private_key key
            (subst (SealedBy input.private_key key) rekeyed stored));
      kept = KeysKept-both row keys1 keys w u1 kept1 u1_is kept2;
    }

abbrev pub open_account : RegisterInput → String → Option String → Exec User
open_account input username seed = do user ← create_user input username; open_rest input seed user

-- All four writes of `register`.
pub record IsOpened (input : RegisterInput) (username : String) (seed : Option String) (w v : World)
    (user : User) : Type 0 where
  pub fresh : does_username_exist username w ≡ false
  pub user_is : new_user input username w.env w.users.next_id ≡ user
  pub sealed : Option (String × ℕ)
  pub key : Option (String × ℕ)
  pub keys : Table KmsDataKey
  pub after : v ≡ after_registering input username seed sealed key keys w
  pub stored : SealedBy input.private_key key v
  pub kept : KeysKept w keys

KeysKept-user :
    (us : Table User) (keys : Table KmsDataKey) (w u : World)
    → u ≡ record w { users = us }
    → KeysKept u keys
    → KeysKept w keys
KeysKept-user us keys w u u_is kept o ready =
    kept o (
      subst (λ z. Ready z o) (sym u_is)
        (Ready-moved us w.hd_wallets w.wallets w.settings o w ready))
    ∙ ap World.data_keys u_is

pub open_account-ok :
    (input : RegisterInput) (username : String) (seed : Option String) (w v : World) (user : User)
    → find_setting_by_user_id w.users.next_id w ≡ none
    → open_account input username seed w ≡ (ok user, v)
    → IsOpened input username seed w v user
open_account-ok input username seed w v user none_yet h =
    let (x, u, hx, h1) = bind-ok (create_user input username) (open_rest input seed) w v user h in
    let (fresh, _, x_is, u_is) = create_user-ok input username w u x hx in
    let id_is : x.id ≡ w.users.next_id = sym (ap User.id x_is) in
    let none_then =
      no_setting-same x.id w u (ap World.settings u_is)
        (subst (λ i. find_setting_by_user_id i w ≡ none) (sym id_is) none_yet) in
    let done = open_rest-ok input seed x user u v none_then h1 in
    record {
      fresh = fresh;
      user_is = x_is ∙ done.same;
      sealed = done.sealed;
      key = done.key;
      keys = done.keys;
      after =
          done.after
          ∙ ap₂
              (λ i (z : World).
                rows_added input seed done.sealed done.key i z.hd_wallets.next_id z.wallets.next_id
                  (with_keys done.keys z))
              id_is u_is;
      stored = done.stored;
      kept =
          KeysKept-user (insert (new_user input username w.env) w.users) done.keys w u u_is
            done.kept;
    }
