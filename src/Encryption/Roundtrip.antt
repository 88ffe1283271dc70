-- ===== src/Encryption/Roundtrip.antt =====
-- src/message/services/message.service.ts, lines 766 to 818, with the keys of
-- src/room-key/services/room-key.service.ts: what one member encrypts, another decrypts.
use mathlib.Core.Path.{ap₂}
use nestjs_ex.Encryption.{decrypt, decrypt_message, encrypt, encrypt_message}
use nestjs_ex.Entities.{MemberInRoom, Role, RoomKey}
use nestjs_ex.Member.{find_joined_member_by_user_id, find_room_member_with_status}
use nestjs_ex.Prelude.{String, ap, refl, some, ℕ, ◌∙◌, ◌≡◌}
use nestjs_ex.RoomKey.{
  create_room_keys, drawn_iv, drawn_shared_key, find_room_key_by_room_id_and_side,
  find_room_key_by_user_id_and_room_id, side_of,
}
use nestjs_ex.RoomKey.Agreement.{NoKey, found_originator, found_participant}
use nestjs_ex.World.{Buffer, Env, World, ok, ◌>>=◌}

-- The cipher decrypts what it encrypted with the same secret and vector.
abbrev pub CipherInverts : Env → Type 0
CipherInverts env =
    (bytes : Buffer) (secret : String) (iv : Buffer)
    → env.decipher_iv (env.cipher_iv bytes secret iv) secret iv ≡ bytes

-- Base64 gives back the bytes that it wrote.
abbrev pub Base64Inverts : Env → Type 0
Base64Inverts env = (bytes : Buffer) → env.from_base64 (env.to_base64 bytes) ≡ bytes

decrypt-encrypt :
    (env : Env) (message secret iv : String)
    → CipherInverts env
    → Base64Inverts env
    → env.to_utf8 (env.from_utf8 message) ≡ message
    → decrypt env (encrypt env message secret iv) secret iv ≡ message
decrypt-encrypt env message secret iv inverts base64 utf8 =
    ap (λ bytes. env.to_utf8 (env.decipher_iv bytes secret (env.from_base64 iv))) (base64 _)
    ∙ ap env.to_utf8 (inverts (env.from_utf8 message) secret (env.from_base64 iv))
    ∙ utf8

found_key :
    (user_id room_id : ℕ) (w : World) (m : MemberInRoom) (k : RoomKey)
    → find_joined_member_by_user_id user_id room_id w ≡ some m
    → find_room_key_by_room_id_and_side room_id (side_of m.role) w ≡ some k
    → find_room_key_by_user_id_and_room_id user_id room_id w ≡ (ok (some k), w)
unfolding find_room_key_by_user_id_and_room_id ◌>>=◌
found_key user_id room_id w m k joined found = rw joined (ap (λ o. (ok o, w)) found)

-- Drawing keys changes no member.
still_joined :
    (user_id room_id : ℕ) (w : World) (m : MemberInRoom)
    → find_joined_member_by_user_id user_id room_id w ≡ some m
    → find_joined_member_by_user_id user_id room_id (create_room_keys room_id w).1 ≡ some m
unfolding find_joined_member_by_user_id find_room_member_with_status create_room_keys
still_joined user_id room_id w m joined = joined

-- A key that has the room's shared key and vector.
abbrev IsDrawn : World → RoomKey → Type 0
IsDrawn w k = (k.shared_key ≡ drawn_shared_key w) × (k.iv ≡ drawn_iv w)

-- The row of keys of either side.
key_of_side :
    (room_id : ℕ) (w : World) (role : Role)
    → NoKey room_id "originator" w
    → NoKey room_id "participant" w
    → (k : RoomKey) × (find_room_key_by_room_id_and_side room_id
          (side_of role)
          (create_room_keys room_id w).1
        ≡ some k)
      × IsDrawn w k
key_of_side room_id w Role.owner no_o no_p = (_, found_originator room_id w no_o, (refl, refl))
key_of_side room_id w Role.admin no_o no_p = (_, found_participant room_id w no_p, (refl, refl))
key_of_side room_id w Role.member no_o no_p = (_, found_participant room_id w no_p, (refl, refl))

-- A joined member of the room finds such a key.
member_key :
    (user_id room_id : ℕ) (w : World) (m : MemberInRoom)
    → NoKey room_id "originator" w
    → NoKey room_id "participant" w
    → find_joined_member_by_user_id user_id room_id w ≡ some m
    → (k : RoomKey) × (find_room_key_by_user_id_and_room_id user_id room_id
          (create_room_keys room_id w).1
        ≡ (ok (some k), (create_room_keys room_id w).1))
      × IsDrawn w k
member_key user_id room_id w m no_o no_p joined =
    let (k, found, drawn) = key_of_side room_id w m.role no_o no_p in
    (
      k,
      found_key user_id room_id (create_room_keys room_id w).1 m k
          (still_joined user_id room_id w m joined) found,
      drawn,
    )

-- After the keys of a room that had none are drawn, any two joined members of the room agree: the one encrypts a
-- message, and the other gets the same message back, if the cipher decrypts what it encrypted, base64 reads what it
-- wrote, and the message is one that UTF-8 keeps. Neither call changes the state.
pub decrypt_message-encrypt_message :
    (a b room_id : ℕ) (message : String) (w : World) (m_a m_b : MemberInRoom)
    → CipherInverts w.env
    → Base64Inverts w.env
    → w.env.to_utf8 (w.env.from_utf8 message) ≡ message
    → NoKey room_id "originator" w
    → NoKey room_id "participant" w
    → find_joined_member_by_user_id a room_id w ≡ some m_a
    → find_joined_member_by_user_id b room_id w ≡ some m_b
    → (sealed : String) × (encrypt_message a
          (record { message = message; room_id = room_id })
          (create_room_keys room_id w).1
        ≡ (ok sealed, (create_room_keys room_id w).1))
      × (decrypt_message b
            (record { message = sealed; room_id = room_id })
            (create_room_keys room_id w).1
          ≡ (ok message, (create_room_keys room_id w).1))
unfolding encrypt_message decrypt_message create_room_keys ◌>>=◌
decrypt_message-encrypt_message a b room_id message w m_a m_b inverts base64 utf8 no_o no_p joined_a
      joined_b =
    let (k, found_a, (key_a, iv_a)) = member_key a room_id w m_a no_o no_p joined_a in
    let (l, found_b, (key_b, iv_b)) = member_key b room_id w m_b no_o no_p joined_b in
    let after = (create_room_keys room_id w).1 in
    let sealed = encrypt w.env message (drawn_shared_key w) (drawn_iv w) in
    (
      sealed,
      rw found_a (ap₂ (λ key iv. (ok (encrypt w.env message key iv), after)) key_a iv_a),
      rw found_b (
          ap₂ (λ key iv. (ok (decrypt w.env sealed key iv), after)) key_b iv_b
          ∙ ap (λ m. (ok m, after))
              (decrypt-encrypt w.env message (drawn_shared_key w) (drawn_iv w) inverts base64
                utf8)),
    )
