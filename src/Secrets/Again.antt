-- ===== src/Secrets/Again.antt =====
-- src/user-hdwallet and src/user-wallet: a secret that KMS encrypts twice gives the same text with the same key.
use mathlib.Core.Path.{subst}
use nestjs_ex.ChatHelper.Frame.{SameWorld, kept}
use nestjs_ex.DataKeys.{
  find_data_key, get_cmk_by_id, get_first_cmk, get_kms_cmk, get_kms_instance, get_plain_data_key,
  kms_encrypt,
}
use nestjs_ex.DataKeys.Ready.{Ready, Ready-moved, Ready-runs, key_if_enabled-Ready}
use nestjs_ex.DataKeys.Stable.{
  SameButKeys, SameButKeys-read, generate_or_get_data_key-At, kms_encrypt-At, moved,
}
use nestjs_ex.Entities.{KmsDataKey, User, UserHdWallet, UserSetting, UserWallet}
use nestjs_ex.Prelude.{
  Bool, Option, String, false, none, refl, some, suc, sym, true, zero, ℕ, ◌∙◌, ◌≡◌,
}
use nestjs_ex.Secrets.{key_if_enabled, key_where, seal, sealed_with}
use nestjs_ex.Store.{Table}
use nestjs_ex.World.{World, data_key_not_found, gets, kms_failed, need, ok, ◌>>=◌}
use nestjs_ex.World.Agreement.{
  Agrees, Agrees-bind, Agrees-gets, Agrees-gets-bind, Agrees-guard-bind, Agrees-need,
  Agrees-need-bind, Agrees-ok, Agrees-pure,
}
use nestjs_ex.World.Laws.{At, At-bind, At-gets-bind, At-pure}
use nestjs_ex.World.Outcome.{bind-ok, same_outcome}
use nestjs_ex.World.Running.{bind-run}

key_where-At : {w : World} (b : Bool) → At SameButKeys w (key_where b)
unfolding key_where
key_where-At false = At-pure _
key_where-At true = generate_or_get_data_key-At

pub key_if_enabled-At : {w : World} → At SameButKeys w key_if_enabled
unfolding key_if_enabled
key_if_enabled-At = At-gets-bind _ _ (key_where-At _)

pub sealed_with-At :
    {w : World} (secret : String) (key : Option KmsDataKey)
    → At SameWorld w (sealed_with secret key)
unfolding sealed_with
sealed_with-At secret none = At-pure _
sealed_with-At secret (some k) = At-bind _ _ (kms_encrypt-At _ _) λ c u. At-pure _

pub seal-At : {w : World} (secret : String) → At SameButKeys w (seal secret)
unfolding seal
seal-At secret = At-bind _ _ key_if_enabled-At λ k u. SameButKeys-read (sealed_with-At secret k)

-- The key and the text of a secret, in a state where encrypting it writes nothing.
pub record SealedBy (secret : String) (r : Option (String × ℕ)) (w : World) : Type 0 where
  pub key : Option KmsDataKey
  pub ready : Ready w key
  pub encrypts : sealed_with secret key w ≡ (ok r, w)

pub seal-SealedBy :
    (secret : String) (r : Option (String × ℕ)) (w v : World)
    → seal secret w ≡ (ok r, v)
    → SealedBy secret r v
unfolding seal
seal-SealedBy secret r w v h =
    let (key, u, hk, h1) = bind-ok key_if_enabled (sealed_with secret) w v r h in
    let v_is : v ≡ u = kept _ u v r (sealed_with-At secret key) h1 in
    record {
      key = key;
      ready = subst (λ z. Ready z key) (sym v_is) (key_if_enabled-Ready key w u hk);
      encrypts = subst (λ z. sealed_with secret key z ≡ (ok r, v)) (sym v_is) h1;
    }

pub SealedBy-runs :
    (secret : String) (r : Option (String × ℕ)) (w : World)
    → SealedBy secret r w
    → seal secret w ≡ (ok r, w)
unfolding seal
SealedBy-runs secret r w s =
    bind-run key_if_enabled (sealed_with secret) s.key w w (Ready-runs s.key w (s.ready))
    ∙ s.encrypts

pub SealedBy-unique :
    (secret : String) (a b : Option (String × ℕ)) (w : World)
    → SealedBy secret a w
    → SealedBy secret b w
    → a ≡ b
SealedBy-unique secret a b w s t =
    (same_outcome (sym (SealedBy-runs secret a w s) ∙ SealedBy-runs secret b w t)).0

-- With a key in use, none is made.
pub key_if_enabled-kept :
    (o a : Option KmsDataKey) (w v : World) → Ready w o → key_if_enabled w ≡ (ok a, v) → v ≡ w
key_if_enabled-kept o a w v ready h = sym (same_outcome (sym h ∙ Ready-runs o w ready)).1

module _ (us : Table User) (hs : Table UserHdWallet) (xs : Table UserWallet)
    (ss : Table UserSetting) (w : World) where
  get_kms_instance-Agrees : (id : Option ℕ) → Agrees w (moved us hs xs ss w) (get_kms_instance id)
  unfolding get_kms_instance get_kms_cmk get_first_cmk get_cmk_by_id
  get_kms_instance-Agrees none =
      Agrees-gets-bind _ _ refl (Agrees-need-bind _ _ _ λ c. Agrees-pure _)
  get_kms_instance-Agrees (some zero) =
      Agrees-gets-bind _ _ refl (Agrees-need-bind _ _ _ λ c. Agrees-pure _)
  get_kms_instance-Agrees (some (suc n)) =
      Agrees-gets-bind _ _ refl (Agrees-need-bind _ _ _ λ c. Agrees-pure _)

  plain_of_found-Agrees :
      (o : Option KmsDataKey)
      → Agrees w (moved us hs xs ss w) (do
        key ← need o data_key_not_found
        region ← get_kms_instance (some key.cmk_id)
        plain ← gets (λ z. z.env.aws_decrypt region key.cipher)
        need plain kms_failed)
  plain_of_found-Agrees o = Agrees-need-bind _ _ _ λ k.
      Agrees-bind _ _ (get_kms_instance-Agrees _) λ r. Agrees-gets-bind _ _ refl (Agrees-need _ _)

  get_plain_data_key-Agrees :
      (id : Option ℕ) → Agrees w (moved us hs xs ss w) (get_plain_data_key id)
  unfolding get_plain_data_key find_data_key
  get_plain_data_key-Agrees none = Agrees-gets-bind _ _ refl (plain_of_found-Agrees _)
  get_plain_data_key-Agrees (some zero) = Agrees-gets-bind _ _ refl (plain_of_found-Agrees _)
  get_plain_data_key-Agrees (some (suc n)) = Agrees-gets-bind _ _ refl (plain_of_found-Agrees _)

  sealed_with-Agrees :
      (secret : String) (key : Option KmsDataKey)
      → Agrees w (moved us hs xs ss w) (sealed_with secret key)
  unfolding sealed_with kms_encrypt
  sealed_with-Agrees secret none = Agrees-pure _
  sealed_with-Agrees secret (some k) =
      Agrees-bind _ _
        (Agrees-gets-bind _ _ refl (
          Agrees-guard-bind _ _ _
            (Agrees-bind _ _ (get_plain_data_key-Agrees _) λ p. Agrees-gets _ refl)))
        λ c. Agrees-pure _

  pub SealedBy-moved :
      (secret : String) (r : Option (String × ℕ))
      → SealedBy secret r w
      → SealedBy secret r (moved us hs xs ss w)
  SealedBy-moved secret r s = record {
    key = s.key;
    ready = Ready-moved us hs xs ss s.key w (s.ready);
    encrypts =
        Agrees-ok (sealed_with secret s.key) r (sealed_with-Agrees secret s.key) (s.encrypts);
  }
