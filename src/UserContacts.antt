-- ===== src/UserContacts.antt =====
-- src/user-contact/services/user-contact.service.ts, with its repository and its access rules: the contacts
-- that a user keeps, and what keeps two users apart.
pub mod Distinct
use nestjs_ex.Acl.{AclRole, AclRule, Action, Actor, acl_role_eq, action_eq, can_do_action}
use nestjs_ex.ChatHelper.{find_user_wallet_by_address}
use nestjs_ex.Entities.{User, UserBlock, UserContact, UserWallet, member_status_eq, role_eq}
use nestjs_ex.Prelude.{
  Bool, List, Option, String, [], any, false, find_first, if◌then◌else◌, is_some, nat_eq, none, not,
  or_else, select, some, text_eq, ℕ, ◌&&◌, ◌==◌, ◌||◌, ◌∷◌,
}
use nestjs_ex.Sender.{truthy}
use nestjs_ex.Store.{insert, update_rows}
use nestjs_ex.World.{
  Env, Exec, World, address_has_no_user, address_not_valid, contact_added, contact_not_found, gets,
  guard, modify, need, ok, pure, unauthorized, users_blocking, ◌>>=◌, ◌>>◌,
}

-- `AddUserContactInput`
pub record AddUserContactInput : Type 0 where
  pub address : String
  pub name : Option String
  pub avatar : Option String
  pub request_address : String

-- `UpdateUserContactInput`, with `none` for a property that is left out.
pub record UpdateUserContactInput : Type 0 where
  pub id : ℕ
  pub address : Option String
  pub name : Option String
  pub avatar : Option String
  pub request_address : String

-- The rules that `UserContactAclService` pushes, in their order.
abbrev pub is_contact_owner : UserContact → Actor → Bool
is_contact_owner contact actor = contact.user_id == actor.id

abbrev pub contact_acl_rules : List (AclRule UserContact)
contact_acl_rules =
    record { role = AclRole.admin; actions = Action.manage ∷ []; rule_callback = none }
    ∷ record { role = AclRole.user; actions = Action.read ∷ []; rule_callback = none }
    ∷ record {
      role = AclRole.user;
      actions = Action.update ∷ Action.delete ∷ [];
      rule_callback = some is_contact_owner;
    }
    ∷ []

-- `getContactsByUserId`; their order by name does not matter to its caller.
unfoldable pub get_contacts_by_user_id : ℕ → World → List UserContact
get_contacts_by_user_id user_id w = select (λ c. c.user_id == user_id) w.contacts.rows

-- `getContactsByUserIdAndId`
unfoldable pub get_contacts_by_user_id_and_id : ℕ → ℕ → Exec UserContact
get_contacts_by_user_id_and_id user_id id = do
  found ← gets (λ w. find_first (λ c. (c.user_id == user_id) && (c.id == id)) w.contacts.rows)
  need found contact_not_found

-- `UserContactRepository.getById`
unfoldable pub get_contact_by_id : ℕ → Exec UserContact
get_contact_by_id id = do
  found ← gets (λ w. find_first (λ c. c.id == id) w.contacts.rows)
  need found contact_not_found

-- `findByAddress`
unfoldable pub find_contact_by_address : ℕ → String → World → Option UserContact
find_contact_by_address user_id address w =
    find_first
      (λ c. w.env.same_text c.address (w.env.to_lower_case address) && (c.user_id == user_id))
      w.contacts.rows

-- The rows of `user_wallet` joined with `users`, for `lower(uw.address) = lower(address)`.
abbrev joined_user : List User → List UserWallet → Option User
joined_user users [] = none
joined_user users (x ∷ xs) = elim (find_first (λ u. u.id == x.user_id) users) [
  | none ↦ joined_user users xs
  | some u ↦ some u
]

-- `UserWalletService.getUserFromAddress`
unfoldable pub get_user_from_address : String → World → Option User
get_user_from_address address w =
    joined_user w.users.rows
      (select (λ x. w.env.lower x.address == w.env.lower address) w.wallets.rows)

-- The two rows that `isBlocking` looks for, with `status = 1`.
abbrev pub blocks_pair : Env → ℕ → String → String → ℕ → UserBlock → Bool
blocks_pair env user_id request_address address other_id b =
    (((b.user_id == user_id) && env.same_text b.blocked_wallet_address address)
      || ((b.user_id == other_id) && env.same_text b.blocked_wallet_address request_address))
    && b.status

abbrev blocking_wallet : ℕ → String → String → Option UserWallet → World → Bool
blocking_wallet user_id request_address address none w = false
blocking_wallet user_id request_address address (some wallet) w =
    any (blocks_pair w.env user_id request_address address wallet.user_id) w.blocks.rows

-- `isBlocking`
unfoldable pub is_blocking : ℕ → String → String → World → Bool
is_blocking user_id request_address address w =
    blocking_wallet user_id request_address address (find_user_wallet_by_address address w) w

-- `BlockchainService.isValidAddress`
unfoldable pub is_valid_address : String → World → Bool
is_valid_address address w = w.env.is_address (w.env.to_lower_case address)

abbrev pub new_contact : AddUserContactInput → ℕ → ℕ → ℕ → UserContact
new_contact input user_id now id = record {
  id = id;
  user_id = user_id;
  address = input.address;
  name = input.name;
  avatar = input.avatar;
  created_at = now;
  updated_at = now;
}

unfoldable pub save_contact : (ℕ → UserContact) → Exec UserContact
save_contact row w = (ok (row w.contacts.next_id), record w { contacts = insert row w.contacts })

abbrev pub has_address : Env → String → UserContact → Bool
has_address env address c = env.to_lower_case c.address == env.to_lower_case address

unfoldable pub add_contact : ℕ → AddUserContactInput → Exec UserContact
add_contact user_id input = do
  is_address ← gets (is_valid_address input.address)
  guard is_address address_not_valid
  blocking ← gets (is_blocking user_id input.request_address input.address)
  guard (not blocking) users_blocking
  added ← gets (get_user_from_address input.address)
  guard (is_some added) address_has_no_user
  env ← gets (λ w. w.env)
  contacts ← gets (get_contacts_by_user_id user_id)
  guard (not (any (has_address env input.address) contacts)) contact_added
  save_contact (new_contact input user_id env.now)

-- The checks under `if (address)`
unfoldable pub check_new_address : ℕ → String → Option String → Exec (Unit {0})
check_new_address user_id request_address none = pure tt
check_new_address user_id request_address (some address) = do
  is_address ← gets (is_valid_address address)
  guard is_address address_not_valid
  added ← gets (get_user_from_address address)
  guard (is_some added) address_has_no_user
  blocking ← gets (is_blocking user_id request_address address)
  guard (not blocking) users_blocking

-- `{ ...userContact, ...input, updatedAt }`
abbrev pub updated_contact : UserContact → UpdateUserContactInput → ℕ → UserContact
updated_contact c input now = record c {
  address = or_else input.address c.address;
  name = if is_some input.name then input.name else c.name;
  avatar = if is_some input.avatar then input.avatar else c.avatar;
  updated_at = now;
}

unfoldable pub write_contact : UserContact → Exec UserContact
write_contact c w =
    (ok c, record w { contacts = update_rows (λ x. x.id == c.id) (λ x. c) w.contacts })

unfoldable pub update_user_contact : ℕ → UpdateUserContactInput → Exec UserContact
update_user_contact user_id input = do
  check_new_address user_id input.request_address (truthy input.address)
  contact ← get_contacts_by_user_id_and_id user_id input.id
  now ← gets (λ w. w.env.now)
  write_contact (updated_contact contact input now)

-- `repository.remove`
unfoldable pub remove_contact : UserContact → Exec (Unit {0})
remove_contact c = modify (λ w. record w {
  contacts = record w.contacts { rows = select (λ x. not (x.id == c.id)) w.contacts.rows };
})

unfoldable pub remove_contact_by_id : Actor → ℕ → Exec (Unit {0})
remove_contact_by_id actor id = do
  contact ← get_contacts_by_user_id_and_id actor.id id
  guard (can_do_action contact_acl_rules actor Action.delete contact) unauthorized
  remove_contact contact
