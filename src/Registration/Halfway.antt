-- ===== src/Registration/Halfway.antt =====
-- src/auth/services/auth.service.ts, lines 149 to 182: when `register` throws between its writes.
use mathlib.Core.Path.{subst}
use nestjs_ex.DataKeys.Ready.{Ready-runs, off}
use nestjs_ex.Entities.{User}
use nestjs_ex.Prelude.{
  Option, String, [], any, ap, false, none, refl, some, sym, true, ℕ, ◌++◌, ◌∙◌, ◌∷◌, ◌≡◌,
}
use nestjs_ex.Registration.{
  RegisterInput, check_registration, create_hd_wallet, create_user, kept_seed, new_user, register,
  seal_seed, sealed_seed, seed_taken,
}
use nestjs_ex.Registration.Opened.{open_rest}
use nestjs_ex.Registration.Steps.{create_user-ok}
use nestjs_ex.Secrets.{key_if_enabled, sealed_with}
use nestjs_ex.Store.{insert}
use nestjs_ex.World.{World, duplicate_entry, err, ok, pure, ◌>>=◌}
use nestjs_ex.World.Running.{bind-run}

abbrev pub HasSeed : String → World → Type 0
HasSeed seed w = any (seed_taken w.env (some seed)) w.hd_wallets.rows ≡ true

key_if_enabled-off : (w : World) → w.env.kms_enabled ≡ false → key_if_enabled w ≡ (ok none, w)
key_if_enabled-off w disabled = Ready-runs none w (off disabled)

seal_seed-off :
    (seed : Option String) (w : World) → w.env.kms_enabled ≡ false → seal_seed seed w ≡ (ok none, w)
unfolding seal_seed sealed_seed sealed_with pure
seal_seed-off none w disabled = bind-run key_if_enabled _ none w w (key_if_enabled-off w disabled)
seal_seed-off (some seed) w disabled =
    bind-run key_if_enabled _ none w w (key_if_enabled-off w disabled)

-- The empty seed phrase is neither checked before nor encrypted.
create_hd_wallet-duplicate :
    (input : RegisterInput) (user_id : ℕ) (w : World)
    → w.env.kms_enabled ≡ false
    → HasSeed "" w
    → create_hd_wallet input user_id (some "") w ≡ (err duplicate_entry, w)
unfolding create_hd_wallet ◌>>=◌
create_hd_wallet-duplicate input user_id w disabled h =
    bind-run (seal_seed none) _ none w w (seal_seed-off none w disabled) ∙ rw h refl

HasSeed-user_added :
    (input : RegisterInput) (username : String) (w : World)
    → HasSeed "" w
    → HasSeed "" (record w { users = insert (new_user input username w.env) w.users })
HasSeed-user_added input username w h = h

open_rest-duplicate :
    (input : RegisterInput) (user : User) (u : World)
    → u.env.kms_enabled ≡ false
    → HasSeed "" u
    → open_rest input (some "") user u ≡ (err duplicate_entry, u)
unfolding ◌>>=◌
open_rest-duplicate input user u disabled h =
    rw (create_hd_wallet-duplicate input user.id u disabled h) refl

-- Without KMS, where the checks pass and the user is saved, but the seed phrase of the request is the empty text and so is that of
-- an HD wallet, `register` throws, and the user stays without a wallet: only the table of users has changed.
pub register-halfway :
    (fuel : ℕ) (input : RegisterInput) (username : String) (user : User) (w u : World)
    → w.env.kms_enabled ≡ false
    → input.seed_phrase ≡ some ""
    → HasSeed "" w
    → check_registration fuel input w ≡ (ok username, w)
    → create_user input username w ≡ (ok user, u)
    → (register fuel input w ≡ (err duplicate_entry, u))
      × (u.users.rows ≡ w.users.rows ++ user ∷ [])
      × (u ≡ record w { users = u.users })
unfolding register ◌>>=◌
register-halfway fuel input username user w u disabled seed_is stored checked created =
    let (_, _, user_is, u_is) = create_user-ok input username w u user created in
    let kept : kept_seed w.env input.seed_phrase ≡ some "" = ap (kept_seed w.env) seed_is in
    let disabled_then : u.env.kms_enabled ≡ false =
      ap (λ (z : World). z.env.kms_enabled) u_is ∙ disabled in
    let stored_then : HasSeed "" u =
      subst (HasSeed "") (sym u_is) (HasSeed-user_added input username w stored) in
    (
      rw (checked, created, kept) (open_rest-duplicate input user u disabled_then stored_then),
      ap (λ (z : World). z.users.rows) u_is ∙ ap (λ x. w.users.rows ++ x ∷ []) user_is,
      u_is ∙ ap (λ t. record w { users = t }) (sym (ap World.users u_is)),
    )
