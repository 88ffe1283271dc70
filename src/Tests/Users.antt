-- ===== src/Tests/Users.antt =====
-- src/user-contact, src/user-setting, src/auth and the encryption of src/message, run on the small
-- database.
use nestjs_ex.Acl.{AclRole, Actor, acl_role_eq, can_do_action, check_roles, check_rules}
use nestjs_ex.ChatHelper.{find_user_wallet_by_address}
use nestjs_ex.Encryption.{decrypt_message, encrypt_message}
use nestjs_ex.Encryption.Roundtrip.{decrypt_message-encrypt_message}
use nestjs_ex.Entities.{MemberStatus, Role, member_status_eq, role_eq}
use nestjs_ex.Member.{find_joined_member_by_user_id, find_room_member_with_status}
use nestjs_ex.Network.{get_by_id}
use nestjs_ex.Prelude.{
  List, String, [], arith, find_first, includes, nat_eq, none, refl, select, some, text_eq, true, ℕ,
  ◌+◌, ◌<◌, ◌∷◌, ◌≡◌, ◌≤◌,
}
use nestjs_ex.RoomKey.{create_room_keys, find_room_key_by_room_id_and_side}
use nestjs_ex.Tests.{env0, member0, setting0, world0}
use nestjs_ex.UserContacts.{
  AddUserContactInput, UpdateUserContactInput, add_contact, check_new_address,
  get_contacts_by_user_id, get_contacts_by_user_id_and_id, get_user_from_address, is_blocking,
  is_valid_address, new_contact, remove_contact, remove_contact_by_id, save_contact,
  update_user_contact, updated_contact, write_contact,
}
use nestjs_ex.UserContacts.Distinct.{
  Apart, ContactCall, clash, run_contacts, run_contacts-Apart, without,
}
use nestjs_ex.UserSettings.{
  AddUserSettingInput, default_setting, find_setting_by_user_id, find_wallet_by_id_and_user_id,
  merged_setting, update_setting, upsert_setting, write_setting,
}
use nestjs_ex.UserSettings.Refinement.{
  Represents, SettingMap, put, upsert_setting-Represents, value_of,
}
use nestjs_ex.Username.{does_username_exist, draw_username}
use nestjs_ex.Username.Termination.{IsFresh, IsTaken, draw_username-first}
use nestjs_ex.World.{World, contact_added, err, ok, ◌>>=◌}

abbrev bob0 : AddUserContactInput
bob0 = record { address = "0xb"; name = some "Bob"; avatar = none; request_address = "0xa" }

abbrev alice0 : Actor
alice0 = record { id = 1; roles = AclRole.user ∷ [] }

-- Alice adds Bob, tries it again, adds Carol and removes Bob.
abbrev calls0 : List ContactCall
calls0 =
    ContactCall.add 1 bob0
    ∷ ContactCall.add 1 bob0
    ∷ ContactCall.add 1 (record bob0 { address = "0xc"; name = some "Carol" })
    ∷ ContactCall.remove alice0 1
    ∷ []

run_contacts-Apart_example :
    Apart (run_contacts calls0 world0).env (run_contacts calls0 world0).contacts.rows
run_contacts-Apart_example = run_contacts-Apart calls0 world0 tt

abbrev with_bob : World
with_bob = (add_contact 1 bob0 world0).1

adds_bob : with_bob.contacts.rows ≡ new_contact bob0 1 1000 1 ∷ []
unfolding add_contact is_valid_address is_blocking find_user_wallet_by_address get_user_from_address
    get_contacts_by_user_id save_contact find_first select ◌>>=◌
adds_bob = refl

adds_bob_once : (add_contact 1 bob0 with_bob).0 ≡ err contact_added
unfolding add_contact is_valid_address is_blocking find_user_wallet_by_address get_user_from_address
    get_contacts_by_user_id save_contact find_first select ◌>>=◌
adds_bob_once = refl

-- Carol's entry, moved to Bob's address, stands beside Bob's: an update does not look for the address.
abbrev with_both : World
with_both = (add_contact 1 (record bob0 { address = "0xc"; name = some "Carol" }) with_bob).1

abbrev move0 : UpdateUserContactInput
move0 = record { id = 2; address = some "0xb"; name = none; avatar = none; request_address = "0xa" }

update_clashes :
    clash env0
      (new_contact bob0 1 1000 1)
      (updated_contact (new_contact (record bob0 { address = "0xc" }) 1 1000 2) move0 1000)
    ≡ true
update_clashes = refl

update_returns :
    (update_user_contact 1 move0 with_both).0
    ≡ ok (
        updated_contact
          (new_contact (record bob0 { address = "0xc"; name = some "Carol" }) 1 1000 2)
          move0
          1000)
unfolding add_contact update_user_contact check_new_address get_contacts_by_user_id_and_id
    write_contact is_valid_address is_blocking find_user_wallet_by_address get_user_from_address
    get_contacts_by_user_id save_contact find_first select ◌>>=◌
update_returns = refl

removes_bob : remove_contact_by_id alice0 1 with_bob ≡ (ok tt, without 1 with_bob)
unfolding add_contact is_valid_address is_blocking find_user_wallet_by_address get_user_from_address
    get_contacts_by_user_id save_contact find_first select ◌>>=◌ remove_contact_by_id
    get_contacts_by_user_id_and_id remove_contact can_do_action check_roles check_rules includes
removes_bob = refl

abbrev fast0 : AddUserSettingInput
fast0 = record (default_setting 1 2) { gas_fee_level = "fast" }

abbrev settings0 : SettingMap
settings0 user_id = value_of (find_setting_by_user_id user_id world0)

world0-Represents : Represents world0 settings0
world0-Represents = record {
  keyed = (
    omega arith,
    (omega arith, (omega arith, (omega arith, tt))),
    (
      omega arith,
      (omega arith, (omega arith, tt)),
      (omega arith, (omega arith, tt), (omega arith, tt, tt)),
    ),
  );
  agrees = λ user_id. refl;
}

abbrev faster : World
faster = (upsert_setting 2 fast0 world0).1

sets_bob : upsert_setting 2 fast0 world0 ≡ (ok (merged_setting (setting0 2) fast0 1000), faster)
unfolding upsert_setting get_by_id find_wallet_by_id_and_user_id find_setting_by_user_id
    write_setting update_setting find_first includes ◌>>=◌
sets_bob = refl

upsert_setting-Represents_example : Represents faster (put 2 fast0 settings0)
upsert_setting-Represents_example =
    upsert_setting-Represents 2 fast0 world0 faster settings0
      (merged_setting (setting0 2) fast0 1000) world0-Represents sets_bob

third_is_new : IsFresh (0 + 2) world0
unfolding does_username_exist find_first
third_is_new = refl

-- The first two draws are Alice's name.
draw_username-first_example :
    (k : ℕ) × (k ≤ 2)
    × (draw_username 3 0 world0 ≡ some (env0.random_word (0 + k)))
    × IsFresh (0 + k) world0
    × ((i : ℕ) → i < k → IsTaken (0 + i) world0)
draw_username-first_example = draw_username-first 3 0 2 world0 (omega arith) third_is_new

decrypt_message-encrypt_message_example :
    (sealed : String) × (encrypt_message 1
        (record { message = "hi"; room_id = 2 })
        (create_room_keys 2 world0).1
      ≡ (ok sealed, (create_room_keys 2 world0).1))
    × (decrypt_message 2 (record { message = sealed; room_id = 2 }) (create_room_keys 2 world0).1
        ≡ (ok "hi", (create_room_keys 2 world0).1))
unfolding find_joined_member_by_user_id find_room_member_with_status find_first
    find_room_key_by_room_id_and_side
decrypt_message-encrypt_message_example =
    decrypt_message-encrypt_message 1 2 2 "hi" world0
      (member0 4 2 1 "0xa" Role.owner MemberStatus.joined)
      (member0 5 2 2 "0xb" Role.member MemberStatus.joined) (λ b s iv. refl) (λ b. refl) refl refl
      refl refl refl
