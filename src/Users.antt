-- ===== src/Users.antt =====
-- src/user/services/user.service.ts: the reads and writes of a user.
use nestjs_ex.Entities.{User}
use nestjs_ex.Prelude.{
  Bool, Option, String, find_first, if◌then◌else◌, nat_eq, none, some, text_eq, ℕ, ◌==◌,
}
use nestjs_ex.Store.{update_rows}
use nestjs_ex.World.{
  Env, Exec, World, column_not_nullable, gets, guard, need, ok, password_not_valid, pure,
  user_not_found, username_not_valid, ◌>>=◌, ◌>>◌,
}

-- A property of an update: left out, null, or with a value.
pub data Given (A : Type 0) : Type 0 where
  left_out : Given A
  null_value : Given A
  value : A → Given A

-- `UpdateUserInput`, `UpdateUserProfileInput`
pub record UpdateUserInput : Type 0 where
  pub name : Given String
  pub password : Given String
  pub disable_account : Given Bool

pub record UpdateUserProfileInput : Type 0 where
  pub name : Given String
  pub avatar : Given String

-- `findById`, `findUserByUserId`
unfoldable pub find_user_by_id : ℕ → World → Option User
find_user_by_id id w = find_first (λ u. u.id == id) w.users.rows

unfoldable pub find_user_by_username : String → World → Option User
find_user_by_username username w =
    find_first (λ u. w.env.same_text u.username username) w.users.rows

-- `UserRepository.getById`
unfoldable pub get_user_by_id : ℕ → Exec User
get_user_by_id id = do found ← gets (find_user_by_id id); need found user_not_found

unfoldable pub validate_username_password : String → String → Exec User
validate_username_password username pass = do
  found ← gets (find_user_by_username username)
  user ← need found username_not_valid
  fits ← gets (λ w. w.env.password_fits pass user.password)
  guard fits password_not_valid
  pure user

-- `repository.save` of a row that is there
unfoldable pub update_saved_user : User → Exec User
update_saved_user user w =
    (ok user, record w { users = update_rows (λ u. u.id == user.id) (λ u. user) w.users })

-- A nullable column, with the property of the input over it
abbrev pub over_nullable : {A : Type 0} → Given A → Option A → Option A
over_nullable left_out old = old
over_nullable null_value old = none
over_nullable (value a) old = some a

-- A column that is not nullable; `none` where null would be written
abbrev pub over_required : {A : Type 0} → Given A → A → Option A
over_required left_out old = some old
over_required null_value old = none
over_required (value a) old = some a

-- `if (input.password)`
abbrev pub hashed : Env → Given String → Given String
hashed env left_out = left_out
hashed env null_value = null_value
hashed env (value password) = if password == "" then value "" else value (env.hash password)

abbrev pub updated_user : User → UpdateUserInput → String → Bool → User
updated_user old input password disabled = record old {
  name = over_nullable input.name old.name;
  password = password;
  is_account_disabled = disabled;
}

-- `updateUser`, up to the address of the avatar that it returns.
unfoldable pub update_user : ℕ → UpdateUserInput → Exec User
update_user user_id input = do
  user ← get_user_by_id user_id
  env ← gets (λ w. w.env)
  disabled ← need (over_required input.disable_account user.is_account_disabled) column_not_nullable
  password ← need (over_required (hashed env input.password) user.password) column_not_nullable
  update_saved_user (updated_user user input password disabled)

abbrev pub updated_profile : User → UpdateUserProfileInput → User
updated_profile old input = record old {
  name = over_nullable input.name old.name;
  avatar = over_nullable input.avatar old.avatar;
}

-- `updateProfile`, up to the address of the avatar that it returns.
unfoldable pub update_profile : ℕ → UpdateUserProfileInput → Exec User
update_profile user_id input = do
  user ← get_user_by_id user_id
  update_saved_user (updated_profile user input)
