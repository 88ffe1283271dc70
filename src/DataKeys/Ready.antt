-- ===== src/DataKeys/Ready.antt =====
-- src/kms-data-key/services/kms-data-key.service.ts, lines 110 to 129, and the use of it in src/user-wallet and
-- src/user-hdwallet: once a key is in use, it is found again.
use mathlib.Core.Path.{subst}
use nestjs_ex.ChatHelper.Frame.{kept}
use nestjs_ex.DataKeys.{
  find_data_key, generate_data_key, generate_or_get_data_key, generate_with, get_first_cmk,
  get_kms_cmk, get_kms_instance, new_data_key, or_generate, save_data_key,
}
use nestjs_ex.DataKeys.Stable.{
  generate_or_get_data_key-At, get_kms_instance-At, kept_but_keys, moved,
}
use nestjs_ex.Entities.{KmsCmk, KmsDataKey, User, UserHdWallet, UserSetting, UserWallet}
use nestjs_ex.Prelude.{Bool, Option, ap, false, none, refl, some, sym, true, ℕ, ◌∙◌, ◌≡◌}
use nestjs_ex.Secrets.{key_if_enabled, key_where}
use nestjs_ex.Store.{Table, insert}
use nestjs_ex.Store.Finding.{find_first-inserted}
use nestjs_ex.World.{World, ok, pure, ◌>>=◌}
use nestjs_ex.World.Outcome.{bind-ok, gets-bind-ok, need-bind-ok, pure-ok, same_outcome}
use nestjs_ex.World.Running.{gets-bind-run}

-- Why `key_if_enabled` returns what it does in a state, and writes nothing there.
pub data Ready (w : World) : Option KmsDataKey → Type 0 where
  off : w.env.kms_enabled ≡ false → Ready w none
  no_cmk :
      w.env.kms_enabled ≡ true
      → find_data_key none w ≡ none
      → get_kms_cmk none w ≡ none
      → Ready w none
  in_use :
      (k : KmsDataKey) → w.env.kms_enabled ≡ true → find_data_key none w ≡ some k → Ready w (some k)

find_data_key-saved :
    (row : ℕ → KmsDataKey) (w : World)
    → find_data_key none w ≡ none
    → (row w.data_keys.next_id).id_enabled ≡ true
    → find_data_key none (record w { data_keys = insert row w.data_keys })
      ≡ some (row w.data_keys.next_id)
unfolding find_data_key
find_data_key-saved row w none_yet enabled =
    find_first-inserted (λ k. k.id_enabled) w.data_keys.rows (row w.data_keys.next_id) none_yet
      enabled

generate_with-Ready :
    (c : Option KmsCmk) (o : Option KmsDataKey) (w v : World)
    → w.env.kms_enabled ≡ true
    → find_data_key none w ≡ none
    → get_kms_cmk none w ≡ c
    → generate_with c w ≡ (ok o, v)
    → Ready v o
unfolding generate_with save_data_key
generate_with-Ready none o w v enabled none_yet no_key h =
    let (o_is, v_is) = pure-ok none o w v h in
    subst (λ z. Ready z o) (sym v_is) (subst (Ready w) o_is (no_cmk enabled none_yet no_key))
generate_with-Ready (some c) o w v enabled none_yet some_key h =
    let (region, u, hr, h1) = bind-ok (get_kms_instance none) _ w v o h in
    let u_is : u ≡ w = kept _ w u region (get_kms_instance-At none) hr in
    let (key, _, h2) = need-bind-ok _ _ _ u v o (gets-bind-ok _ _ u v o h1) in
    let (k, u1, hs, h3) = bind-ok (save_data_key (new_data_key c key)) _ u v o h2 in
    let (k_is, u1_is) = same_outcome hs in
    let (o_is, v_is) = pure-ok (some k) o u1 v h3 in
    let row = new_data_key c key w.data_keys.next_id in
    let z = record w { data_keys = insert (new_data_key c key) w.data_keys } in
    let z_is : z ≡ v =
      ap (λ (x : World). record x { data_keys = insert (new_data_key c key) x.data_keys })
        (sym u_is)
      ∙ sym u1_is
      ∙ sym v_is in
    let row_is : some row ≡ o =
      ap (λ (x : World). some (new_data_key c key x.data_keys.next_id)) (sym u_is)
      ∙ ap some k_is
      ∙ o_is in
    subst (λ x. Ready x o) z_is
      (subst (Ready z) row_is
        (in_use row enabled (find_data_key-saved (new_data_key c key) w none_yet refl)))

or_generate-Ready :
    (old : Option KmsDataKey) (o : Option KmsDataKey) (w v : World)
    → w.env.kms_enabled ≡ true
    → find_data_key none w ≡ old
    → or_generate old w ≡ (ok o, v)
    → Ready v o
unfolding or_generate generate_data_key
or_generate-Ready none o w v enabled none_yet h =
    generate_with-Ready (get_kms_cmk none w) o w v enabled none_yet refl (gets-bind-ok _ _ w v o h)
or_generate-Ready (some k) o w v enabled here h =
    let (o_is, v_is) = pure-ok (some k) o w v h in
    subst (λ z. Ready z o) (sym v_is) (subst (Ready w) o_is (in_use k enabled here))

generate_or_get_data_key-Ready :
    (o : Option KmsDataKey) (w v : World)
    → w.env.kms_enabled ≡ true
    → generate_or_get_data_key w ≡ (ok o, v)
    → Ready v o
unfolding generate_or_get_data_key
generate_or_get_data_key-Ready o w v enabled h =
    or_generate-Ready (find_data_key none w) o w v enabled refl (gets-bind-ok _ _ w v o h)

key_where-Ready :
    (b : Bool) (o : Option KmsDataKey) (w v : World)
    → w.env.kms_enabled ≡ b
    → key_where b w ≡ (ok o, v)
    → Ready v o
unfolding key_where
key_where-Ready false o w v disabled h =
    let (o_is, v_is) = pure-ok none o w v h in
    subst (λ z. Ready z o) (sym v_is) (subst (Ready w) o_is (off disabled))
key_where-Ready true o w v enabled h = generate_or_get_data_key-Ready o w v enabled h

pub key_if_enabled-Ready :
    (o : Option KmsDataKey) (w v : World) → key_if_enabled w ≡ (ok o, v) → Ready v o
unfolding key_if_enabled
key_if_enabled-Ready o w v h =
    key_where-Ready w.env.kms_enabled o w v refl (gets-bind-ok _ _ w v o h)

generate_or_get_data_key-found :
    (k : KmsDataKey) (w : World)
    → find_data_key none w ≡ some k
    → generate_or_get_data_key w ≡ (ok (some k), w)
unfolding generate_or_get_data_key or_generate ◌>>=◌
generate_or_get_data_key-found k w h = rw h refl

generate_or_get_data_key-none :
    (w : World)
    → find_data_key none w ≡ none
    → get_kms_cmk none w ≡ none
    → generate_or_get_data_key w ≡ (ok none, w)
unfolding generate_or_get_data_key or_generate generate_data_key generate_with ◌>>=◌
generate_or_get_data_key-none w h c = rw (h, c) refl

key_where-runs :
    (o : Option KmsDataKey) (w : World) → Ready w o → key_where w.env.kms_enabled w ≡ (ok o, w)
unfolding key_where pure
key_where-runs o w (off disabled) = subst (λ b. key_where b w ≡ (ok none, w)) (sym disabled) refl
key_where-runs o w (no_cmk enabled none_yet no_key) =
    subst (λ b. key_where b w ≡ (ok none, w)) (sym enabled)
      (generate_or_get_data_key-none w none_yet no_key)
key_where-runs o w (in_use k enabled here) =
    subst (λ b. key_where b w ≡ (ok (some k), w)) (sym enabled)
      (generate_or_get_data_key-found k w here)

pub Ready-runs : (o : Option KmsDataKey) (w : World) → Ready w o → key_if_enabled w ≡ (ok o, w)
unfolding key_if_enabled
Ready-runs o w ready = gets-bind-run _ _ w ∙ key_where-runs o w ready

pub Ready-moved :
    (us : Table User) (hs : Table UserHdWallet) (xs : Table UserWallet) (ss : Table UserSetting)
    (o : Option KmsDataKey) (w : World)
    → Ready w o
    → Ready (moved us hs xs ss w) o
unfolding find_data_key get_kms_cmk get_first_cmk
Ready-moved us hs xs ss o w (off disabled) = off disabled
Ready-moved us hs xs ss o w (no_cmk enabled none_yet no_key) = no_cmk enabled none_yet no_key
Ready-moved us hs xs ss o w (in_use k enabled here) = in_use k enabled here

-- Where KMS is enabled, the answer of `generateOrGetDataKey` is its answer from then on, and no second key is made,
-- also where there is no key to be had.
pub generate_or_get_data_key-again :
    (o : Option KmsDataKey) (w v : World)
    → w.env.kms_enabled ≡ true
    → generate_or_get_data_key w ≡ (ok o, v)
    → generate_or_get_data_key v ≡ (ok o, v)
generate_or_get_data_key-again o w v enabled h =
    again o v (generate_or_get_data_key-Ready o w v enabled h) still
  where
    still : v.env.kms_enabled ≡ true
    still = ap (λ (z : World). z.env.kms_enabled) (from_write h) ∙ enabled
      where
        from_write :
            generate_or_get_data_key w ≡ (ok o, v) → v ≡ record w { data_keys = v.data_keys }
        from_write e = kept_but_keys _ w v o generate_or_get_data_key-At e

    again :
        (o : Option KmsDataKey) (v : World)
        → Ready v o
        → v.env.kms_enabled ≡ true
        → generate_or_get_data_key v ≡ (ok o, v)
    again o v (off disabled) e = absurd (cc (sym disabled ∙ e))
    again o v (no_cmk e none_yet no_key) s = generate_or_get_data_key-none v none_yet no_key
    again o v (in_use k e here) s = generate_or_get_data_key-found k v here
