-- ===== src/Auth/Recovery.antt =====
-- src/auth/services/auth.service.ts: whoever registered with a private key gets the account back with it.
use mathlib.Core.Path.{ap₂, subst}
use nestjs_ex.Auth.{generate_recover_output, recover_wallet, recovered, verify_private_key}
use nestjs_ex.Entities.{KmsDataKey, User, UserWallet}
use nestjs_ex.Prelude.{
  Option, String, [], ap, find_first, nat_beq_iff, nat_eq, none, refl, some, sym, text_eq, true, ℕ,
  ◌&&◌, ◌++◌, ◌==◌, ◌∙◌, ◌∷◌, ◌≡◌,
}
use nestjs_ex.Registration.{
  RegisterInput, check_registration, kept_seed, new_user, new_wallet, register,
}
use nestjs_ex.Registration.Linked.{no_setting-next}
use nestjs_ex.Registration.Opened.{IsOpened, after_registering, open_account-ok}
use nestjs_ex.Registration.Steps.{check_registration-ok, with_keys}
use nestjs_ex.Registration.Unused.{check_registration-KeyUnused}
use nestjs_ex.Secrets.{
  find_user_wallet_by_private_key, first_of, has_key, same_secret, seal, wallet_of_key,
}
use nestjs_ex.Secrets.Again.{SealedBy, SealedBy-moved, SealedBy-runs, SealedBy-unique}
use nestjs_ex.Sender.{truthy}
use nestjs_ex.Store.{Table}
use nestjs_ex.Store.Finding.{find_first-inserted}
use nestjs_ex.UserSettings.{find_setting_by_user_id}
use nestjs_ex.Users.{find_user_by_id}
use nestjs_ex.World.{Env, World, gets, ok}
use nestjs_ex.World.Outcome.{bind-ok, gets-bind-ok}
use nestjs_ex.World.Running.{bind-run, gets-bind-run, need-bind-run}

-- MySQL finds a text equal to itself.
abbrev pub SameTextReflexive : World → Type 0
SameTextReflexive w = (a : String) → w.env.same_text a a ≡ true

first_of-eq_none : {A : Type 0} (a b : Option A) → first_of a b ≡ none → (a ≡ none) × (b ≡ none)
first_of-eq_none none b h = (refl, h)
first_of-eq_none (some a) b h = absurd (cc h)

nat_same : (n : ℕ) → (n == n) ≡ true
nat_same n = (nat_beq_iff n n).1 refl

-- The wallet that is added for the key is the one that the key finds.
wallet_of_key-added :
    (input : RegisterInput) (user_id hd_id now id : ℕ) (r : Option (String × ℕ)) (w v : World)
    → SameTextReflexive w
    → wallet_of_key input.private_key r w ≡ none
    → v.env ≡ w.env
    → v.wallets.rows ≡ w.wallets.rows ++ new_wallet input user_id hd_id r now id ∷ []
    → wallet_of_key input.private_key r v ≡ some (new_wallet input user_id hd_id r now id)
wallet_of_key-added input user_id hd_id now id none w v same none_yet env rows =
    let x = new_wallet input user_id hd_id none now id in
    let q = λ (e : Env) (y : UserWallet). same_secret e y.private_key input.private_key in
    ap₂ (λ e ys. find_first (q e) ys) env rows
    ∙ find_first-inserted (q w.env) w.wallets.rows x none_yet (same input.private_key)
wallet_of_key-added input user_id hd_id now id (some (cipher, k)) w v same none_yet env rows =
    let x = new_wallet input user_id hd_id (some (cipher, k)) now id in
    let p = λ (e : Env) (y : UserWallet).
      same_secret e y.private_key cipher && has_key y.kms_data_key_id k in
    let q = λ (e : Env) (y : UserWallet). same_secret e y.private_key input.private_key in
    let (no_p, _) =
      first_of-eq_none (find_first (p w.env) w.wallets.rows) (find_first (q w.env) w.wallets.rows)
        none_yet in
    let hit : p w.env x ≡ true = ap₂ (λ a b. a && b) (same cipher) (nat_same k) in
    let at_p : find_first (p v.env) v.wallets.rows ≡ some x =
      ap₂ (λ e ys. find_first (p e) ys) env rows
      ∙ find_first-inserted (p w.env) w.wallets.rows x no_p hit in
    ap (λ o. first_of o (find_first (q v.env) v.wallets.rows)) at_p

find_user_by_id-added :
    (user : User) (w v : World)
    → find_user_by_id user.id w ≡ none
    → v.users.rows ≡ w.users.rows ++ user ∷ []
    → find_user_by_id user.id v ≡ some user
unfolding find_user_by_id
find_user_by_id-added user w v none_yet rows =
    ap (λ ys. find_first (λ (u : User). u.id == user.id) ys) rows
    ∙ find_first-inserted (λ u. u.id == user.id) w.users.rows user none_yet (nat_same user.id)

verify_private_key-found :
    (key : String) (r : Option (String × ℕ)) (x : UserWallet) (user : User) (v : World)
    → SealedBy key r v
    → wallet_of_key key r v ≡ some x
    → find_user_by_id x.user_id v ≡ some user
    → verify_private_key key v ≡ (ok (recovered user v.env), v)
unfolding verify_private_key find_user_wallet_by_private_key recover_wallet generate_recover_output
    gets
verify_private_key-found key r x user v sealed here user_here =
    let read : find_user_wallet_by_private_key key v ≡ (ok (some x), v) =
      bind-run (seal key) (λ s. gets (wallet_of_key key s)) r v v (SealedBy-runs key r v sealed)
      ∙ ap (λ o. (ok o, v)) here in
    bind-run (find_user_wallet_by_private_key key) recover_wallet (some x) v v read
    ∙ gets-bind-run (find_user_by_id x.user_id) _ v
    ∙ need-bind-run _ _ _ user v user_here

SealedBy-registered :
    (input : RegisterInput) (username : String) (seed : Option String)
    (sealed key r : Option (String × ℕ)) (u : World)
    → SealedBy input.private_key r u
    → SealedBy input.private_key r (after_registering input username seed sealed key u.data_keys u)
SealedBy-registered input username seed sealed key r u s =
    let z = after_registering input username seed sealed key u.data_keys u in
    SealedBy-moved z.users z.hd_wallets z.wallets z.settings u input.private_key r s

-- The new state, with the keys as they were and the wallet's secret as the check found it.
opened_with :
    (input : RegisterInput) (username : String) (seed : Option String) (u v : World) (user : User)
    (r : Option (String × ℕ))
    → IsOpened input username seed u v user
    → SealedBy input.private_key r u
    → (sealed : Option (String × ℕ)) × (v
        ≡ after_registering input username seed sealed r u.data_keys u)
opened_with input username seed u v user r done stored =
    let keys_is : done.keys ≡ u.data_keys = done.kept stored.key (stored.ready) in
    let v_is : v ≡ after_registering input username seed done.sealed done.key u.data_keys u =
      done.after
      ∙ ap (λ k. after_registering input username seed done.sealed done.key k u) keys_is in
    let key_is : done.key ≡ r = SealedBy-unique input.private_key done.key r v (done.stored) (
      subst (SealedBy input.private_key r) (sym v_is)
        (SealedBy-registered input username seed done.sealed done.key r u stored)) in
    (
      done.sealed,
      v_is ∙ ap (λ k. after_registering input username seed done.sealed k u.data_keys u) key_is,
    )

recovers :
    (input : RegisterInput) (username : String) (seed : Option String)
    (sealed r : Option (String × ℕ)) (u : World)
    → SameTextReflexive u
    → SealedBy input.private_key r u
    → wallet_of_key input.private_key r u ≡ none
    → find_user_by_id u.users.next_id u ≡ none
    → let v = after_registering input username seed sealed r u.data_keys u in
      verify_private_key input.private_key v
      ≡ (ok (recovered (new_user input username u.env u.users.next_id) u.env), v)
recovers input username seed sealed r u same stored unused fresh =
    let v = after_registering input username seed sealed r u.data_keys u in
    let user = new_user input username u.env u.users.next_id in
    verify_private_key-found input.private_key r
      (new_wallet input user.id u.hd_wallets.next_id r u.env.now u.wallets.next_id) user v
      (SealedBy-registered input username seed sealed r r u stored)
      (wallet_of_key-added input user.id u.hd_wallets.next_id u.env.now u.wallets.next_id r u v same
        unused refl refl)
      (find_user_by_id-added user u v fresh refl)

fresh_then :
    (keys : Table KmsDataKey) (w u : World)
    → u ≡ with_keys keys w
    → find_user_by_id w.users.next_id w ≡ none
    → find_user_by_id u.users.next_id u ≡ none
unfolding find_user_by_id
fresh_then keys w u u_is fresh =
    subst (λ (z : World). find_user_by_id z.users.next_id z ≡ none) (sym u_is) fresh

-- Right after `register` returned a user, `verifyPrivateKey` with the private key of that request answers with that
-- user and its tokens and writes nothing, with or without KMS. The private key is not the empty text, no user or
-- setting has the key that the new user gets, and MySQL finds each text equal to itself.
pub verify_private_key-register :
    (fuel : ℕ) (input : RegisterInput) (w v : World) (user : User)
    → SameTextReflexive w
    → truthy (some input.private_key) ≡ some input.private_key
    → find_user_by_id w.users.next_id w ≡ none
    → find_setting_by_user_id w.users.next_id w ≡ none
    → register fuel input w ≡ (ok user, v)
    → verify_private_key input.private_key v ≡ (ok (recovered user v.env), v)
unfolding register
verify_private_key-register fuel input w v user same present fresh none_yet h =
    let (username, u, hc, h1) = bind-ok (check_registration fuel input) _ w v user h in
    let (_, u_is) = check_registration-ok fuel input w u username hc in
    let (r, stored, unused) = check_registration-KeyUnused fuel input w u username present hc in
    let seed = kept_seed u.env input.seed_phrase in
    let done =
      open_account-ok input username seed u v user (no_setting-next u.data_keys w u u_is none_yet)
        (gets-bind-ok _ _ u v user h1) in
    let (sealed, v_is) = opened_with input username seed u v user r done stored in
    let same_then = subst SameTextReflexive (sym u_is) same in
    let answer =
      recovers input username seed sealed r u same_then stored unused
        (fresh_then u.data_keys w u u_is fresh) in
    subst (λ z. verify_private_key input.private_key z ≡ (ok (recovered user z.env), z)) (sym v_is)
      (subst
        (λ x.
          verify_private_key input.private_key
            (after_registering input username seed sealed r u.data_keys u)
          ≡ (ok (recovered x u.env), after_registering input username seed sealed r u.data_keys u))
        (done.user_is) answer)
