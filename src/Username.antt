-- ===== src/Username.antt =====
-- src/auth/services/auth.service.ts, lines 81 to 97, and src/user/services/user.service.ts, lines 220 to 223: a
-- name that no user has.
pub mod Termination
use nestjs_ex.Prelude.{
  Bool, Option, String, find_first, if◌then◌else◌, is_some, nat_eq, none, some, suc, text_eq, zero,
  ℕ,
}
use nestjs_ex.World.{World}

-- `doesUsernameExist`
unfoldable pub does_username_exist : String → World → Bool
does_username_exist username w =
    is_some (find_first (λ u. w.env.same_text u.username username) w.users.rows)

-- The loop of `generateUniqueUsername` from the n-th draw on, for at most as many draws as there is fuel;
-- `none` where the fuel is used up.
unfoldable pub draw_username : ℕ → ℕ → World → Option String
draw_username zero n w = none
draw_username (suc fuel) n w =
    let rest = draw_username fuel (suc n) w in
    if does_username_exist (w.env.random_word n) w then rest else some (w.env.random_word n)
