-- ===== src/Encryption.antt =====
-- src/message/services/message.service.ts, lines 766 to 818, and src/shared/tools/diffe-hellman.tool.ts, lines 28 to
-- 68: encrypting and decrypting with the room's key.
pub mod Roundtrip
use nestjs_ex.Prelude.{String, ℕ}
use nestjs_ex.RoomKey.{find_room_key_by_user_id_and_room_id}
use nestjs_ex.World.{Env, Exec, gets, need, room_key_not_found, ◌>>=◌, ◌>>◌}

-- `EncryptMessageInput`
pub record EncryptMessageInput : Type 0 where
  pub message : String
  pub room_id : ℕ

-- `DiffeHellmanTool.encrypt`
abbrev pub encrypt : Env → String → String → String → String
encrypt env content secret iv =
    env.to_base64 (env.cipher_iv (env.from_utf8 content) secret (env.from_base64 iv))

-- `DiffeHellmanTool.decrypt`
abbrev pub decrypt : Env → String → String → String → String
decrypt env hash secret iv =
    env.to_utf8 (env.decipher_iv (env.from_base64 hash) secret (env.from_base64 iv))

unfoldable pub encrypt_message : ℕ → EncryptMessageInput → Exec String
encrypt_message user_id input = do
  found ← find_room_key_by_user_id_and_room_id user_id input.room_id
  key ← need found room_key_not_found
  gets (λ w. encrypt w.env input.message key.shared_key key.iv)

unfoldable pub decrypt_message : ℕ → EncryptMessageInput → Exec String
decrypt_message user_id input = do
  found ← find_room_key_by_user_id_and_room_id user_id input.room_id
  key ← need found room_key_not_found
  gets (λ w. decrypt w.env input.message key.shared_key key.iv)
