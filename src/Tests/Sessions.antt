-- ===== src/Tests/Sessions.antt =====
-- src/auth, src/kms-data-key, src/shared/guards and the files of src/message, run on the small database.
use Prim.Native.String.{[] as empty_text, ◌∷◌ as cons_text}
use nestjs_ex.Auth.{get_auth_token, recovered, validate_user, verify_private_key}
use nestjs_ex.Auth.Recovery.{verify_private_key-register}
use nestjs_ex.Auth.Sessions.{JwtFits, refresh_at, refresh_at-session, validate_user-ok}
use nestjs_ex.ChatGuard.{
  HttpRequest, RequestId, can_activate, check_network, get_message_by_id, get_network_id,
  get_room_id, network_of_request, network_of_room, id_number, room_of_message,
  room_of_message_request, id_text,
}
use nestjs_ex.ChatGuard.Naming.{Names}
use nestjs_ex.ChatGuard.Passing.{IsOnChat, Serves, can_activate-ok, can_activate_iff}
use nestjs_ex.ChatHelper.{find_room_by_id, find_user_wallet_by_address, get_data_for_chat_queue}
use nestjs_ex.DataKeys.{
  find_data_key, generate_data_key, generate_or_get_data_key, generate_with, get_cmk_by_id,
  get_first_cmk, get_kms_cmk, get_kms_instance, get_plain_data_key, kms_decrypt, kms_encrypt,
  or_generate, save_data_key,
}
use nestjs_ex.DataKeys.Ready.{generate_or_get_data_key-again}
use nestjs_ex.DataKeys.Roundtrip.{AesFits, HexInverts, kms_decrypt-kms_encrypt}
use nestjs_ex.Entities.{ChatRoomStatus, KmsDataKey, Message, User, member_status_eq, room_status_eq}
use nestjs_ex.FileMessage.{
  CreateFileMessageInput, check_room_is_deployed_and_in_supported_network, check_user_joined_room,
  create_file_message, file_message,
}
use nestjs_ex.FileMessage.Queued.{IsUploaded, create_file_message-ok}
use nestjs_ex.Files.{
  MulterFile, construct_file, construct_s3_file, create_file, s3_upload_file, save_file,
}
use nestjs_ex.Member.{find_joined_member_by_user_id, find_room_member_with_status}
use nestjs_ex.Message.{find_message_by_id, save_message}
use nestjs_ex.Network.{
  get_by_id, get_network_fee_by_level, get_parent_network_by_chain_id, is_network_used_on_chat,
  is_shared_networks,
}
use nestjs_ex.NetworkFee.{get_network_fees}
use nestjs_ex.Prelude.{
  Bool, Equality, Has, List, String, [], ap, arith, false, find_first, if◌then◌else◌, includes, inl,
  ltb, nat_eq, none, refl, some, suc, text_eq, true, zero, ℕ, ◌+◌, ◌/◌, ◌↔◌, ◌==◌, ◌⊎◌, ◌∷◌, ◌≡◌,
}
use nestjs_ex.Sender.{get_sender, get_user_for_send_message}
use nestjs_ex.Sending.Again.{add_to_upload_file_queue, get_receivers_addresses}
use nestjs_ex.Tests.{env0, room0, user0, world0}
use nestjs_ex.Tests.Accounts.{adds_erin, erin0, erin1, no_setting_yet, sealing, with_erin}
use nestjs_ex.Tests.Payments.{networks0}
use nestjs_ex.Users.{find_user_by_id, find_user_by_username, validate_username_password}
use nestjs_ex.World.{
  Env, World, at_time, err, network_not_supported, not_awaited, ok, token_not_valid, ◌>>=◌,
}

erin_is_new : find_user_by_id 5 sealing ≡ none
unfolding find_user_by_id find_first
erin_is_new = refl

-- Erin's private key, which KMS encrypted, gives Erin's account.
verify_private_key-register_example :
    verify_private_key "0x5" with_erin ≡ (ok (recovered erin1 with_erin.env), with_erin)
verify_private_key-register_example =
    verify_private_key-register 3 erin0 sealing with_erin erin1
      (λ a. (Equality.same_iff text_eq a a).1 refl) refl erin_is_new no_setting_yet adds_erin

abbrev with_key : World
with_key = (generate_or_get_data_key sealing).1

abbrev key0 : KmsDataKey
key0 = record { id = 1; cmk_id = 1; plain = "plain"; cipher = "cipher"; id_enabled = true }

makes_key : generate_or_get_data_key sealing ≡ (ok (some key0), with_key)
unfolding generate_or_get_data_key or_generate generate_data_key generate_with find_data_key
    get_kms_instance get_kms_cmk get_first_cmk save_data_key find_first ◌>>=◌
makes_key = refl

generate_or_get_data_key-again_example :
    generate_or_get_data_key with_key ≡ (ok (some key0), with_key)
generate_or_get_data_key-again_example =
    generate_or_get_data_key-again (some key0) sealing with_key refl makes_key

encrypts_text : kms_encrypt "text" (some 1) with_key ≡ (ok "text", with_key)
unfolding kms_encrypt get_plain_data_key generate_or_get_data_key or_generate generate_data_key
    generate_with find_data_key get_kms_instance get_kms_cmk get_first_cmk get_cmk_by_id
    save_data_key find_first ◌>>=◌
encrypts_text = refl

aes_fits : AesFits with_key.env
unfolding generate_or_get_data_key or_generate generate_data_key generate_with find_data_key
    get_kms_instance get_kms_cmk get_first_cmk save_data_key find_first ◌>>=◌
aes_fits bytes key = refl

hex_inverts : HexInverts with_key.env
unfolding generate_or_get_data_key or_generate generate_data_key generate_with find_data_key
    get_kms_instance get_kms_cmk get_first_cmk save_data_key find_first ◌>>=◌
hex_inverts bytes = refl

utf8_keeps : with_key.env.to_utf8 (with_key.env.from_utf8 "text") ≡ "text"
unfolding generate_or_get_data_key or_generate generate_data_key generate_with find_data_key
    get_kms_instance get_kms_cmk get_first_cmk save_data_key find_first ◌>>=◌
utf8_keeps = refl

kms_decrypt-kms_encrypt_example :
    (with_key ≡ with_key) × (kms_decrypt "text" (some 1) with_key ≡ (ok "text", with_key))
kms_decrypt-kms_encrypt_example =
    kms_decrypt-kms_encrypt "text" "text" 0 with_key with_key aes_fits hex_inverts utf8_keeps
      encrypts_text

alice_signs_in : validate_user "Alice" "right" world0 ≡ (ok (user0 1 "Alice"), world0)
unfolding validate_user validate_username_password find_user_by_username find_first ◌>>=◌
alice_signs_in = refl

validate_user-ok_example :
    Has (user0 1 "Alice") world0.users.rows
    × (env0.same_text "Alice" "Alice" ≡ true)
    × (env0.password_fits "right" (user0 1 "Alice").password ≡ true)
    × ((user0 1 "Alice").is_account_disabled ≡ false)
    × (world0 ≡ world0)
validate_user-ok_example =
    validate_user-ok "Alice" "right" world0 world0 (user0 1 "Alice") alice_signs_in

-- A token that says its last second by its length.
abbrev marks : ℕ → String
marks zero = ""
marks (suc n) = cons_text "x" (marks n)

abbrev count_marks : String → ℕ
count_marks empty_text = 0
count_marks (cons_text c s) = suc (count_marks s)

count_marks-marks : (n : ℕ) → count_marks (marks n) ≡ n
count_marks-marks zero = refl
count_marks-marks (suc n) = ap suc (count_marks-marks n)

abbrev with_seconds : Env
with_seconds = record env0 {
  jwt_sign = λ claims seconds t. marks (t / 1000 + seconds);
  jwt_verify = λ token now. if ltb (now / 1000) (count_marks token) then some (some 1) else none;
  refresh_token_expires_in = 90;
  access_token_expires_in = 60;
}

alice_jwt : JwtFits 1 with_seconds
alice_jwt claims seconds t now same =
    ap (λ n. if ltb (now / 1000) n then some (some 1) else none)
      (count_marks-marks (t / 1000 + seconds))

abbrev disabled_alice : User
disabled_alice = record (user0 1 "Alice") { is_account_disabled = true }

-- Alice has signed in, and her account is disabled.
abbrev alice_disabled : World
alice_disabled = record world0 {
  env = with_seconds;
  users = record { rows = disabled_alice ∷ []; next_id = 5 };
}

alice_is_stored : find_user_by_id 1 alice_disabled ≡ some disabled_alice
unfolding find_user_by_id find_first
alice_is_stored = refl

-- After 59 seconds with the access token, after 89 more with the other; then 60 seconds are too long.
abbrev alice_uses : List (ℕ × Bool)
alice_uses = (60500, true) ∷ (149900, false) ∷ (209000, true) ∷ []

refresh_at-session_example :
    refresh_at alice_uses
      (get_auth_token (user0 1 "Alice") (record with_seconds { now = 1999 }))
      alice_disabled
    ≡ (err token_not_valid, at_time 209000 alice_disabled)
refresh_at-session_example =
    refresh_at-session disabled_alice (user0 1 "Alice") 1999 alice_uses alice_disabled alice_jwt
      (omega arith) alice_is_stored

-- A request for a message's room, and one for a chat room that names a network.
abbrev no_request : HttpRequest
no_request = record {
  url_includes = λ part. false;
  is_put = false;
  params_id = none;
  params_room_id = none;
  body_id = none;
  body_room_id = none;
  body_chat_room_id = none;
  body_message_id = none;
  body_network_id = none;
  query_room_id = none;
  query_network_id = none;
}

abbrev pin_request : HttpRequest
pin_request = record no_request {
  url_includes = λ part. part == "/message/";
  is_put = true;
  params_id = some (id_text 1);
}

pin_passes : can_activate false pin_request world0 ≡ (ok true, world0)
unfolding can_activate check_network get_network_id network_of_request network_of_room get_room_id
    room_of_message_request room_of_message get_message_by_id find_message_by_id find_room_by_id
    is_network_used_on_chat get_by_id find_first includes ◌>>=◌
pin_passes = refl

can_activate-ok_example : IsOnChat pin_request world0 × (world0 ≡ world0)
can_activate-ok_example = can_activate-ok pin_request world0 world0 true refl pin_passes

-- The group is on Ethereum, whose chain is not listed, and the request says Polygon.
abbrev on_ethereum : World
on_ethereum = record networks0 {
  rooms = record {
    rows = record (room0 1 true ChatRoomStatus.deployed) { network_id = 3 } ∷ [];
    next_id = 2;
  };
}

abbrev update_request : HttpRequest
update_request = record no_request {
  url_includes = λ part. part == "/chat-room/";
  is_put = true;
  body_id = some (id_number 1);
  query_network_id = some (id_text 1);
}

update_without_name :
    (can_activate false (record update_request { query_network_id = none }) on_ethereum).0
    ≡ err network_not_supported
unfolding can_activate check_network get_network_id network_of_request network_of_room get_room_id
    find_room_by_id is_network_used_on_chat get_by_id find_first includes ◌>>=◌
update_without_name = refl

polygon_stored :
    find_first (λ x. x.id == 1) on_ethereum.networks
    ≡ some
        (record { id = 1; chain_id = "137"; rpc_endpoint = "rpc"; native_token_symbol = "MATIC" })
unfolding find_first
polygon_stored = refl

polygon_listed : includes on_ethereum.env.chat_network_chain_ids "137" ≡ true
unfolding includes
polygon_listed = refl

-- The request passes by the network that it names.
can_activate_iff_example :
    (can_activate false update_request on_ethereum ≡ (ok true, on_ethereum)) ↔ (
      ((id : RequestId) × Names update_request id × Serves id on_ethereum)
      ⊎ ((¬ ((id : RequestId) × Names update_request id)) × IsOnChat update_request on_ethereum))
can_activate_iff_example = can_activate_iff update_request on_ethereum

update_passes : can_activate false update_request on_ethereum ≡ (ok true, on_ethereum)
update_passes = (can_activate_iff update_request on_ethereum).1 (
    inl (
      id_text 1,
      (refl, inl refl),
      (
        record { id = 1; chain_id = "137"; rpc_endpoint = "rpc"; native_token_symbol = "MATIC" },
        refl,
        polygon_stored,
        polygon_listed,
      ),
    ))

abbrev picture0 : CreateFileMessageInput
picture0 = record { chat_room_id = 1; file_info = "{\"type\":\"IMAGE\"}" }

abbrev picture_file : MulterFile
picture_file = record { originalname = some "a.png"; filename = none; mimetype = "image/png" }

abbrev after_picture : World
after_picture = (create_file_message 2 picture0 picture_file world0).1

abbrev picture_message : Message
picture_message =
    file_message picture0 (record { id = 2; display_name = some "Bob"; address = "0xb" }) 1 env0 2

sends_picture :
    create_file_message 2 picture0 picture_file world0 ≡ (ok picture_message, after_picture)
unfolding create_file_message get_sender get_user_for_send_message
    check_room_is_deployed_and_in_supported_network is_network_used_on_chat get_by_id
    check_user_joined_room find_joined_member_by_user_id find_room_member_with_status create_file
    construct_file construct_s3_file s3_upload_file save_file save_message not_awaited
    add_to_upload_file_queue get_data_for_chat_queue find_room_by_id find_user_wallet_by_address
    is_shared_networks get_network_fee_by_level get_network_fees get_parent_network_by_chain_id
    get_receivers_addresses find_first includes ◌>>=◌
sends_picture = refl

create_file_message-ok_example : IsUploaded 2 picture0 world0 after_picture picture_message
create_file_message-ok_example =
    create_file_message-ok 2 picture0 picture_file world0 after_picture picture_message
      sends_picture
