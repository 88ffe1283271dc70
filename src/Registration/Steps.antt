-- ===== src/Registration/Steps.antt =====
-- src/auth/services/auth.service.ts, lines 99 to 207: what each step of `register` leaves.
use mathlib.Core.Path.{subst}
use nestjs_ex.ChatHelper.Frame.{kept}
use nestjs_ex.DataKeys.Ready.{Ready}
use nestjs_ex.DataKeys.Stable.{SameButKeys, SameButKeys-read, kept_but_keys}
use nestjs_ex.Entities.{KmsDataKey, User, UserHdWallet, UserWallet}
use nestjs_ex.Prelude.{
  Bool, Equality, Option, String, any, ap, arith, false, none, not, some, sym, text_eq, true, ℕ,
  ◌∙◌, ◌≡◌,
}
use nestjs_ex.Registration.{
  RegisterInput, check_private_key, check_registration, check_seed_phrase, create_hd_wallet,
  create_user, create_user_wallet, key_of_secret, new_hd_wallet, new_user, new_wallet, same_email,
  save_hd_wallet, save_user, save_wallet, seal_seed, sealed_seed, stored_secret,
}
use nestjs_ex.Secrets.{
  check_address, find_user_hd_wallet_by_seed_phrase, find_user_wallet_by_private_key,
  key_if_enabled, seal, sealed_with,
}
use nestjs_ex.Secrets.Again.{
  SealedBy, key_if_enabled-At, key_if_enabled-kept, seal-At, seal-SealedBy, sealed_with-At,
}
use nestjs_ex.Store.{Table, insert}
use nestjs_ex.UserSettings.{
  create_default_setting, default_if_missing, default_setting, find_setting_by_user_id,
  insert_setting, new_setting,
}
use nestjs_ex.Username.{does_username_exist}
use nestjs_ex.World.{Result, World, ok, ◌>>=◌}
use nestjs_ex.World.Laws.{
  At, At-bind, At-gets, At-gets-bind, At-guard, At-guard-bind, At-need, At-pure,
}
use nestjs_ex.World.Outcome.{bind-ok, gets-bind-ok, guard-bind-ok, pure-ok, same_outcome}

-- The actions before the first write to the tables of the users.
sealed_seed-At :
    {w : World} (seed : Option String) (key : Option KmsDataKey)
    → At SameButKeys w (sealed_seed seed key)
unfolding sealed_seed
sealed_seed-At none key = At-pure _
sealed_seed-At (some seed) key = SameButKeys-read (sealed_with-At seed key)

seal_seed-At : {w : World} (seed : Option String) → At SameButKeys w (seal_seed seed)
unfolding seal_seed
seal_seed-At seed = At-bind _ _ key_if_enabled-At λ k u. sealed_seed-At seed k

check_seed_phrase-At :
    {w : World} (seed : Option String) → At SameButKeys w (check_seed_phrase seed)
unfolding check_seed_phrase find_user_hd_wallet_by_seed_phrase
check_seed_phrase-At none = At-pure _
check_seed_phrase-At (some seed) =
    At-gets-bind _ _ (At-bind _ _ (At-bind _ _ (seal-At _) λ s u. At-gets _) λ f u. At-guard _ _)

check_private_key-At : {w : World} (key : Option String) → At SameButKeys w (check_private_key key)
unfolding check_private_key find_user_wallet_by_private_key
check_private_key-At none = At-pure _
check_private_key-At (some key) =
    At-bind _ _ (At-bind _ _ (seal-At _) λ s u. At-gets _) λ f u. At-guard _ _

pub check_registration-At :
    {w : World} (fuel : ℕ) (input : RegisterInput)
    → At SameButKeys w (check_registration fuel input)
unfolding check_registration
check_registration-At fuel input = At-guard-bind _ _ _ λ e.
    At-bind _ _ (check_seed_phrase-At _) λ s u.
      At-bind _ _ (check_private_key-At _)
        λ k v. At-gets-bind _ _ (At-guard-bind _ _ _ λ f. At-gets-bind _ _ (At-need _ _))

abbrev pub with_keys : Table KmsDataKey → World → World
with_keys keys w = record w { data_keys = keys }

-- What the checks found before the first write.
abbrev pub MayRegister : RegisterInput → World → Type 0
MayRegister input w =
    (input.password ≡ input.confirm_password) × (check_address input.wallet_address w ≡ false)

is_not : (b : Bool) → not b ≡ true → b ≡ false
is_not b h = ground arith

check_address-keys :
    (address : String) (w v : World)
    → v ≡ with_keys v.data_keys w
    → check_address address v ≡ check_address address w
unfolding check_address
check_address-keys address w v e = ap (check_address address) e

pub check_registration-ok :
    (fuel : ℕ) (input : RegisterInput) (w v : World) (username : String)
    → check_registration fuel input w ≡ (ok username, v)
    → MayRegister input w × (v ≡ with_keys v.data_keys w)
unfolding check_registration
check_registration-ok fuel input w v username h =
    let (same, h1) = guard-bind-ok _ _ _ w v username h in
    let (_, u, hs, h2) = bind-ok _ _ w v username h1 in
    let u_is = kept_but_keys _ w u tt (check_seed_phrase-At _) hs in
    let (_, u1, hk, h3) = bind-ok _ _ u v username h2 in
    let u1_is = kept_but_keys _ u u1 tt (check_private_key-At _) hk in
    let (unused, h4) = guard-bind-ok _ _ _ u1 v username (gets-bind-ok _ _ u1 v username h3) in
    let start : u1 ≡ with_keys u1.data_keys w = u1_is ∙ ap (with_keys u1.data_keys) u_is in
    (
      (
        (Equality.same_iff text_eq input.password input.confirm_password).0 same,
        sym (check_address-keys input.wallet_address w u1 start) ∙ is_not _ unused,
      ),
      kept_but_keys _ w v username (check_registration-At fuel input) h,
    )

pub create_user-ok :
    (input : RegisterInput) (username : String) (w v : World) (user : User)
    → create_user input username w ≡ (ok user, v)
    → (does_username_exist username w ≡ false)
      × (any (same_email w.env input.email) w.users.rows ≡ false)
      × (new_user input username w.env w.users.next_id ≡ user)
      × (v ≡ record w { users = insert (new_user input username w.env) w.users })
unfolding create_user save_user
create_user-ok input username w v user h =
    let h1 = gets-bind-ok _ _ w v user (gets-bind-ok _ _ w v user h) in
    let (fresh, h2) = guard-bind-ok _ _ _ w v user h1 in
    let (single, h3) = guard-bind-ok _ _ _ w v user (gets-bind-ok _ _ w v user h2) in
    let (user_is, v_is) = same_outcome h3 in (is_not _ fresh, is_not _ single, user_is, v_is)

abbrev pub hd_row : RegisterInput → ℕ → Option String → Option (String × ℕ) → ℕ → ℕ → UserHdWallet
hd_row input user_id seed sealed now id =
    new_hd_wallet input user_id (stored_secret seed sealed) (key_of_secret sealed) now id

abbrev pub hd_added : (World → ℕ → UserHdWallet) → World → World
hd_added row w = record w { hd_wallets = insert (row w) w.hd_wallets }

abbrev pub wallet_added : (World → ℕ → UserWallet) → World → World
wallet_added row w = record w { wallets = insert (row w) w.wallets }

abbrev pub KeysKept : World → Table KmsDataKey → Type 0
KeysKept w keys = (o : Option KmsDataKey) → Ready w o → keys ≡ w.data_keys

seal_seed-kept :
    (seed : Option String) (sealed : Option (String × ℕ)) (w v : World)
    → seal_seed seed w ≡ (ok sealed, v)
    → KeysKept w v.data_keys
unfolding seal_seed sealed_seed
seal_seed-kept none sealed w v h o ready =
    let (key, u, hk, h1) = bind-ok key_if_enabled _ w v sealed h in
    let (_, v_is) = pure-ok none sealed u v h1 in
    ap World.data_keys (v_is ∙ key_if_enabled-kept o key w u ready hk)
seal_seed-kept (some seed) sealed w v h o ready =
    let (key, u, hk, h1) = bind-ok key_if_enabled _ w v sealed h in
    let v_is : v ≡ u = kept _ u v sealed (sealed_with-At seed key) h1 in
    ap World.data_keys (v_is ∙ key_if_enabled-kept o key w u ready hk)

pub create_hd_wallet-ok :
    (input : RegisterInput) (user_id : ℕ) (seed : Option String) (w v : World) (h : UserHdWallet)
    → create_hd_wallet input user_id seed w ≡ (ok h, v)
    → (sealed : Option (String × ℕ)) × (hd_row input user_id seed sealed w.env.now
          w.hd_wallets.next_id
        ≡ h)
      × ((keys : Table KmsDataKey) × (v
            ≡ hd_added (λ z. hd_row input user_id seed sealed z.env.now) (with_keys keys w))
          × KeysKept w keys)
unfolding create_hd_wallet save_hd_wallet
create_hd_wallet-ok input user_id seed w v h e =
    let (sealed, u, hs, h1) = bind-ok _ _ w v h e in
    let u_is = kept_but_keys _ w u sealed (seal_seed-At _) hs in
    let h2 = gets-bind-ok _ _ u v h (gets-bind-ok _ _ u v h h1) in
    let (_, h3) = guard-bind-ok _ _ _ u v h h2 in
    let (row_is, v_is) = same_outcome h3 in
    let row = λ (z : World). hd_row input user_id seed sealed z.env.now in
    (
      sealed,
      subst (λ (z : World). row z z.hd_wallets.next_id ≡ h) u_is row_is,
      (u.data_keys, v_is ∙ ap (hd_added row) u_is, seal_seed-kept _ sealed w u hs),
    )

seal-kept :
    (secret : String) (sealed : Option (String × ℕ)) (w v : World)
    → seal secret w ≡ (ok sealed, v)
    → KeysKept w v.data_keys
unfolding seal
seal-kept secret sealed w v h o ready =
    let (key, u, hk, h1) = bind-ok key_if_enabled (sealed_with secret) w v sealed h in
    let v_is : v ≡ u = kept _ u v sealed (sealed_with-At secret key) h1 in
    ap World.data_keys (v_is ∙ key_if_enabled-kept o key w u ready hk)

pub create_user_wallet-ok :
    (input : RegisterInput) (user_id hd_id : ℕ) (w v : World) (x : UserWallet)
    → create_user_wallet input user_id hd_id w ≡ (ok x, v)
    → (sealed : Option (String × ℕ)) × (new_wallet input user_id hd_id sealed w.env.now
          w.wallets.next_id
        ≡ x)
      × ((keys : Table KmsDataKey) × (v
            ≡ wallet_added
                (λ z. new_wallet input user_id hd_id sealed z.env.now)
                (with_keys keys w))
          × SealedBy input.private_key sealed (with_keys keys w)
          × KeysKept w keys)
unfolding create_user_wallet save_wallet
create_user_wallet-ok input user_id hd_id w v x e =
    let (sealed, u, hs, h1) = bind-ok (seal input.private_key) _ w v x e in
    let u_is = kept_but_keys _ w u sealed (seal-At _) hs in
    let (row_is, v_is) = same_outcome (gets-bind-ok _ _ u v x h1) in
    let row = λ (z : World). new_wallet input user_id hd_id sealed z.env.now in
    (
      sealed,
      subst (λ (z : World). row z z.wallets.next_id ≡ x) u_is row_is,
      (
        u.data_keys,
        v_is ∙ ap (wallet_added row) u_is,
        subst (SealedBy input.private_key sealed) u_is (seal-SealedBy _ sealed w u hs),
        seal-kept _ sealed w u hs,
      ),
    )

pub create_default_setting-new :
    (user_id network_id wallet_id : ℕ) (w v : World)
    → find_setting_by_user_id user_id w ≡ none
    → create_default_setting user_id network_id wallet_id w ≡ (ok tt, v)
    → v ≡ record w {
      settings =
          insert (new_setting user_id (default_setting network_id wallet_id) w.env.now) w.settings;
    }
unfolding create_default_setting default_if_missing insert_setting ◌>>=◌
create_default_setting-new user_id network_id wallet_id w v none_yet h =
    sym (ap (λ (z : Result (Unit {0}) × World). z.1) (rw none_yet at h))
