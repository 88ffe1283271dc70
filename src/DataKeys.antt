-- ===== src/DataKeys.antt =====
-- src/kms-data-key/services/kms-data-key.service.ts and src/kms-cmk/services/kms-cmk.service.ts: the keys that
-- secrets are encrypted with.
pub mod Stable
pub mod Ready
pub mod Roundtrip
use mathlib.Core.Option
use nestjs_ex.Entities.{KmsCmk, KmsDataKey}
use nestjs_ex.Prelude.{
  Option, String, find_first, nat_eq, none, some, suc, text_eq, true, zero, ℕ, ◌==◌,
}
use nestjs_ex.Store.{insert}
use nestjs_ex.Store.Finding.{saved}
use nestjs_ex.World.{
  Env, Exec, World, data_key_not_found, gets, guard, kms_failed, kms_not_enabled, need, ok, pure,
  type_error, ◌>>=◌, ◌>>◌,
}

-- `KmsCmkService.getCmkById`, `getFirstCmk`
unfoldable pub get_cmk_by_id : ℕ → World → Option KmsCmk
get_cmk_by_id id w = find_first (λ c. c.id == id) w.cmks

unfoldable pub get_first_cmk : World → Option KmsCmk
get_first_cmk w = find_first (λ c. c.id_enabled) w.cmks

-- `getKmsCmk`, with `none` for an argument that is left out
unfoldable pub get_kms_cmk : Option ℕ → World → Option KmsCmk
get_kms_cmk none w = get_first_cmk w
get_kms_cmk (some zero) w = get_first_cmk w
get_kms_cmk (some (suc n)) w = get_cmk_by_id (suc n) w

-- The region of `getKmsInstance`
unfoldable pub get_kms_instance : Option ℕ → Exec String
get_kms_instance id = do found ← gets (get_kms_cmk id); cmk ← need found type_error; pure cmk.region

abbrev pub new_data_key : KmsCmk → String × String → ℕ → KmsDataKey
new_data_key cmk key id = record {
  id = id;
  cmk_id = cmk.id;
  plain = key.0;
  cipher = key.1;
  id_enabled = true;
}

unfoldable pub save_data_key : (ℕ → KmsDataKey) → Exec KmsDataKey
save_data_key row w =
    (ok (row w.data_keys.next_id), record w { data_keys = insert row w.data_keys })

unfoldable pub generate_with : Option KmsCmk → Exec (Option KmsDataKey)
generate_with none = pure none
generate_with (some cmk) = do
  region ← get_kms_instance none
  drawn ← gets (λ w. w.env.aws_data_key region cmk.arn w.data_keys.next_id)
  key ← need drawn kms_failed
  saved ← save_data_key (new_data_key cmk key)
  pure (some saved)

unfoldable pub generate_data_key : Exec (Option KmsDataKey)
generate_data_key = do cmk ← gets (get_kms_cmk none); generate_with cmk

unfoldable pub find_data_key : Option ℕ → World → Option KmsDataKey
find_data_key none w = find_first (λ k. k.id_enabled) w.data_keys.rows
find_data_key (some zero) w = find_first (λ k. k.id_enabled) w.data_keys.rows
find_data_key (some (suc n)) w = find_first (λ k. k.id == suc n) w.data_keys.rows

unfoldable pub get_plain_data_key : Option ℕ → Exec String
get_plain_data_key id = do
  found ← gets (find_data_key id)
  key ← need found data_key_not_found
  region ← get_kms_instance (some key.cmk_id)
  plain ← gets (λ w. w.env.aws_decrypt region key.cipher)
  need plain kms_failed

-- `if (dataKey) return dataKey`
unfoldable pub or_generate : Option KmsDataKey → Exec (Option KmsDataKey)
or_generate none = generate_data_key
or_generate (some key) = pure (some key)

unfoldable pub generate_or_get_data_key : Exec (Option KmsDataKey)
generate_or_get_data_key = do existing ← gets (find_data_key none); or_generate existing

-- What `encrypt` does with the plain key: `update(plainText, 'utf8', 'hex')` and `final('hex')`.
abbrev pub cipher_text : Env → String → String → String
cipher_text env text key = env.to_hex (env.cipher (env.from_utf8 text) (env.from_base64 key))

-- What `decrypt` does with it: `update(cipherText, 'hex', 'utf8')` and `final('utf8')`.
abbrev pub plain_text : Env → String → String → Option String
plain_text env text key =
    Option.map env.to_utf8 (env.decipher (env.from_hex text) (env.from_base64 key))

-- `encrypt`, and `encryptWithRandomDataKey` for `none`
unfoldable pub kms_encrypt : String → Option ℕ → Exec String
kms_encrypt text id = do
  enabled ← gets (λ w. w.env.kms_enabled)
  guard enabled kms_not_enabled
  key ← get_plain_data_key id
  gets (λ w. cipher_text w.env text key)

-- `decryptWithRandomDatakey` for `none`
unfoldable pub decrypt_with : String → Option ℕ → Exec String
decrypt_with cipher id = do
  enabled ← gets (λ w. w.env.kms_enabled)
  guard enabled kms_not_enabled
  key ← get_plain_data_key id
  text ← gets (λ w. plain_text w.env cipher key)
  need text kms_failed

-- `decrypt`
unfoldable pub kms_decrypt : String → Option ℕ → Exec String
kms_decrypt cipher none = pure cipher
kms_decrypt cipher (some zero) = pure cipher
kms_decrypt cipher (some (suc n)) = decrypt_with cipher (some (suc n))
