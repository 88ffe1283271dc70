-- ===== src/DataKeys/Stable.antt =====
-- src/kms-data-key/services/kms-data-key.service.ts: the data key that is in use does not change.
use mathlib.Core.Path.{subst}
use nestjs_ex.ChatHelper.Frame.{SameWorld}
use nestjs_ex.DataKeys.{
  find_data_key, generate_data_key, generate_or_get_data_key, generate_with, get_kms_cmk,
  get_kms_instance, get_plain_data_key, kms_encrypt, or_generate, save_data_key,
}
use nestjs_ex.Entities.{KmsCmk, KmsDataKey, User, UserHdWallet, UserSetting, UserWallet}
use nestjs_ex.Prelude.{Option, String, ap, none, refl, some, sym, ℕ, ◌∙◌, ◌≡◌}
use nestjs_ex.Store.{Table}
use nestjs_ex.World.{Exec, Result, World, ok}
use nestjs_ex.World.Laws.{
  At, At-bind, At-gets, At-gets-bind, At-guard-bind, At-need, At-need-bind, At-pure, Frame,
}

-- The state stays as it is, apart from the table of data keys.
abbrev pub SameButKeys : Frame
SameButKeys = record {
  Rel = λ v w. w ≡ record v { data_keys = w.data_keys };
  same = λ w. refl;
  trans = λ u v w p q. q ∙ ap (λ (z : World). record z { data_keys = w.data_keys }) p;
}

-- The users and what belongs to them; no key is read from these tables.
abbrev pub moved :
    Table User → Table UserHdWallet → Table UserWallet → Table UserSetting → World → World
moved us hs xs ss w = record w { users = us; hd_wallets = hs; wallets = xs; settings = ss }

-- A read of the keys that leaves the state as it is.
pub get_kms_instance-At : {w : World} (id : Option ℕ) → At SameWorld w (get_kms_instance id)
unfolding get_kms_instance
get_kms_instance-At id = At-gets-bind _ _ (At-need-bind _ _ _ λ c e. At-pure _)

pub get_plain_data_key-At : {w : World} (id : Option ℕ) → At SameWorld w (get_plain_data_key id)
unfolding get_plain_data_key
get_plain_data_key-At id = At-gets-bind _ _ (
    At-need-bind _ _ _
      λ k e. At-bind _ _ (get_kms_instance-At _) λ r u. At-gets-bind _ _ (At-need _ _))

pub kms_encrypt-At :
    {w : World} (text : String) (id : Option ℕ) → At SameWorld w (kms_encrypt text id)
unfolding kms_encrypt
kms_encrypt-At text id =
    At-gets-bind _ _
      (At-guard-bind _ _ _ λ e. At-bind _ _ (get_plain_data_key-At id) λ k u. At-gets _)

save_data_key-At : {w : World} (row : ℕ → KmsDataKey) → At SameButKeys w (save_data_key row)
unfolding save_data_key
save_data_key-At row = record { holds = refl }

pub SameButKeys-read : {A : Type 0} {w : World} {m : Exec A} → At SameWorld w m → At SameButKeys w m
SameButKeys-read {A} {w} {m} h = record {
  holds = h.holds ∙ ap (λ (z : World). record w { data_keys = z.data_keys }) (sym (h.holds));
}

generate_data_key-At : {w : World} → At SameButKeys w generate_data_key
unfolding generate_data_key generate_with
generate_data_key-At {w} = At-gets-bind _ _ (split (get_kms_cmk none w))
  where
    split : (o : Option KmsCmk) → At SameButKeys w (generate_with o)
    split none = At-pure _
    split (some c) = At-bind _ _ (SameButKeys-read (get_kms_instance-At none)) λ r u.
        At-gets-bind _ _
          (At-need-bind _ _ _ λ k e. At-bind _ _ (save_data_key-At _) λ s z. At-pure _)

pub generate_or_get_data_key-At : {w : World} → At SameButKeys w generate_or_get_data_key
unfolding generate_or_get_data_key or_generate
generate_or_get_data_key-At {w} = At-gets-bind _ _ (split (find_data_key none w))
  where
    split : (o : Option KmsDataKey) → At SameButKeys w (or_generate o)
    split none = generate_data_key-At
    split (some k) = At-pure _

pub kept_but_keys :
    {A : Type 0} (m : Exec A) (w v : World) (a : A)
    → At SameButKeys w m
    → m w ≡ (ok a, v)
    → v ≡ record w { data_keys = v.data_keys }
kept_but_keys {A} m w v a h e =
    let v_is : (m w).1 ≡ v = ap (λ (z : Result A × World). z.1) e in
    subst (λ z. z ≡ record w { data_keys = z.data_keys }) v_is (h.holds)
