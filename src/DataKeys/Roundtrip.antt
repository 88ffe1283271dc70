-- ===== src/DataKeys/Roundtrip.antt =====
-- src/kms-data-key/services/kms-data-key.service.ts, lines 131 to 165: decrypting what was encrypted.
use mathlib.Core.Option
use mathlib.Core.Path.{subst}
use nestjs_ex.ChatHelper.Frame.{kept}
use nestjs_ex.DataKeys.{
  cipher_text, decrypt_with, get_plain_data_key, kms_decrypt, kms_encrypt, plain_text,
}
use nestjs_ex.DataKeys.Stable.{get_plain_data_key-At}
use nestjs_ex.Prelude.{Option, String, ap, some, suc, sym, true, ℕ, ◌∙◌, ◌≡◌}
use nestjs_ex.World.{Buffer, Env, World, gets, ok}
use nestjs_ex.World.Outcome.{bind-ok, gets-bind-ok, guard-bind-ok, same_outcome}
use nestjs_ex.World.Running.{bind-run, gets-bind-run, guard-bind-run, need-run}

-- What node's AES encrypts with a key, it decrypts with that key.
abbrev pub AesFits : Env → Type 0
AesFits env = (bytes key : Buffer) → env.decipher (env.cipher bytes key) key ≡ some bytes

-- The hexadecimal digits give back the bytes that they were written for.
abbrev pub HexInverts : Env → Type 0
HexInverts env = (bytes : Buffer) → env.from_hex (env.to_hex bytes) ≡ bytes

plain_text-cipher_text :
    (env : Env) (text key : String)
    → AesFits env
    → HexInverts env
    → env.to_utf8 (env.from_utf8 text) ≡ text
    → plain_text env (cipher_text env text key) key ≡ some text
plain_text-cipher_text env text key fits hex utf8 =
    ap (λ bytes. Option.map env.to_utf8 (env.decipher bytes (env.from_base64 key))) (hex _)
    ∙ ap (Option.map env.to_utf8) (fits (env.from_utf8 text) (env.from_base64 key))
    ∙ ap some utf8

decrypt_with-cipher_text :
    (text key : String) (id : Option ℕ) (w : World)
    → plain_text w.env (cipher_text w.env text key) key ≡ some text
    → w.env.kms_enabled ≡ true
    → get_plain_data_key id w ≡ (ok key, w)
    → decrypt_with (cipher_text w.env text key) id w ≡ (ok text, w)
unfolding decrypt_with
decrypt_with-cipher_text text key id w fits enabled read =
    gets-bind-run _ _ w
    ∙ guard-bind-run _ _ _ w enabled
    ∙ bind-run _ _ key w w read
    ∙ gets-bind-run _ _ w
    ∙ need-run _ _ text w fits

-- What `encrypt` returned for a data key, `decrypt` turns back to the text with the same key, and neither writes,
-- if AES decrypts with a key what it encrypts with it, hexadecimal digits are read back as they were written, and
-- the text is one that UTF-8 keeps.
pub kms_decrypt-kms_encrypt :
    (text cipher : String) (n : ℕ) (w v : World)
    → AesFits w.env
    → HexInverts w.env
    → w.env.to_utf8 (w.env.from_utf8 text) ≡ text
    → kms_encrypt text (some (suc n)) w ≡ (ok cipher, v)
    → (v ≡ w) × (kms_decrypt cipher (some (suc n)) w ≡ (ok text, w))
unfolding kms_encrypt kms_decrypt gets
kms_decrypt-kms_encrypt text cipher n w v fits hex utf8 h =
    let (enabled, h1) = guard-bind-ok _ _ _ w v cipher (gets-bind-ok _ _ w v cipher h) in
    let (key, u, read, h2) = bind-ok (get_plain_data_key (some (suc n))) _ w v cipher h1 in
    let u_is : u ≡ w = kept _ w u key (get_plain_data_key-At (some (suc n))) read in
    let (cipher_is, v_is) = same_outcome h2 in
    let there : get_plain_data_key (some (suc n)) w ≡ (ok key, w) =
      read ∙ ap (λ z. (ok key, z)) u_is in
    (
      v_is ∙ u_is,
      subst (λ c. decrypt_with c (some (suc n)) w ≡ (ok text, w))
          (ap (λ (z : World). cipher_text z.env text key) (sym u_is) ∙ cipher_is)
          (decrypt_with-cipher_text text key (some (suc n)) w
            (plain_text-cipher_text w.env text key fits hex utf8) enabled there),
    )
