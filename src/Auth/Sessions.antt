-- ===== src/Auth/Sessions.antt =====
-- src/auth/services/auth.service.ts, lines 53 to 73 and 207 to 253: who gets the tokens of a session.
use mathlib.Core.Path.{subst}
use nestjs_ex.Auth.{AuthToken, get_auth_token, present_id, refresh_token, validate_user}
use nestjs_ex.Entities.{TokenClaims, User}
use nestjs_ex.Prelude.{
  Bool, Bool-cases, Has, List, String, [], ap, arith, false, find_first-Has, if◌then◌else◌, inl,
  inr, ltb, nat_beq_iff, nat_eq, none, not, refl, some, suc, sym, true, zero, ℕ, ◌+◌, ◌/◌, ◌<◌,
  ◌==◌, ◌∙◌, ◌∷◌, ◌≡◌,
}
use nestjs_ex.Users.{find_user_by_id, find_user_by_username, validate_username_password}
use nestjs_ex.World.{Env, Exec, Result, World, at_time, err, gets, ok, token_not_valid, ◌>>=◌}
use nestjs_ex.World.Outcome.{bind-ok, gets-bind-ok, guard-bind-ok, need-bind-ok, pure-ok}
use nestjs_ex.World.Running.{bind-run, bind-throws, gets-bind-run, need-bind-run}

-- Where `validateUser` returns, the state is as before, and the answer is a stored user with that username, whose
-- stored hash fits the password and whose account is not disabled.
pub validate_user-ok :
    (username pass : String) (w v : World) (user : User)
    → validate_user username pass w ≡ (ok user, v)
    → Has user w.users.rows
      × (w.env.same_text user.username username ≡ true)
      × (w.env.password_fits pass user.password ≡ true)
      × (user.is_account_disabled ≡ false)
      × (v ≡ w)
unfolding validate_user validate_username_password find_user_by_username
validate_user-ok username pass w v user h =
    let (x, u, hx, h1) = bind-ok (validate_username_password username pass) _ w v user h in
    let (y, here, h2) = need-bind-ok _ _ _ w u x (gets-bind-ok _ _ w u x hx) in
    let (fits, h3) = guard-bind-ok _ _ _ w u x (gets-bind-ok _ _ w u x h2) in
    let (y_is, u_is) = pure-ok y x w u h3 in
    let (active, h4) = guard-bind-ok _ _ _ u v user h1 in
    let (x_is, v_is) = pure-ok x user u v h4 in
    let (stored, named) = find_first-Has _ w.users.rows y here in
    (
      subst (λ z. Has z w.users.rows) (y_is ∙ x_is) stored,
      subst (λ (z : User). w.env.same_text z.username username ≡ true) (y_is ∙ x_is) named,
      subst (λ (z : User). w.env.password_fits pass z.password ≡ true) (y_is ∙ x_is) fits,
      subst (λ (z : User). z.is_account_disabled ≡ false) x_is (is_not _ active),
      v_is ∙ u_is,
    )
  where
    is_not : (b : Bool) → not b ≡ true → b ≡ false
    is_not b e = ground arith

-- jsonwebtoken counts whole seconds: a token that was signed at the time `t` for some seconds is taken at `now`.
abbrev pub is_in_time : ℕ → ℕ → ℕ → Bool
is_in_time seconds t now = ltb (now / 1000) (t / 1000 + seconds)

-- A token of the subject `id` gives the subject until it ends, and is refused from then on.
abbrev pub JwtFits : ℕ → Env → Type 0
JwtFits id env =
    (claims : TokenClaims) (seconds t now : ℕ)
    → claims.sub ≡ id
    → env.jwt_verify (env.jwt_sign claims seconds t) now
      ≡ (if is_in_time seconds t now then some (some id) else none)

-- A client that calls `refreshToken` at each of the times, with the access token of its last answer or the other.
abbrev pub chosen_token : Bool → AuthToken → String
chosen_token true tokens = tokens.access_token
chosen_token false tokens = tokens.refresh_token

unfoldable pub refresh_at : List (ℕ × Bool) → AuthToken → Exec AuthToken
refresh_at [] tokens w = (ok tokens, w)
refresh_at ((now, access) ∷ uses) tokens w =
    (refresh_token (chosen_token access tokens) >>= refresh_at uses) (at_time now w)

abbrev pub lifetime : Bool → Env → ℕ
lifetime true env = env.access_token_expires_in
lifetime false env = env.refresh_token_expires_in

-- The session without its tokens: it is known by the time of the last call that was answered.
abbrev pub session : User → User → ℕ → List (ℕ × Bool) → World → Result AuthToken × World
session stored user t [] w = (ok (get_auth_token user (record w.env { now = t })), w)
session stored user t ((now, access) ∷ uses) w =
    if is_in_time (lifetime access w.env) t now
    then session stored stored now uses (at_time now w)
    else (err token_not_valid, at_time now w)

present_id-pos : (id : ℕ) → 0 < id → present_id (some id) ≡ some id
present_id-pos zero h = absurd (omega arith)
present_id-pos (suc n) h = refl

refresh_token-verified :
    (token : String) (id : ℕ) (user : User) (w : World)
    → 0 < id
    → w.env.jwt_verify token w.env.now ≡ some (some id)
    → find_user_by_id id w ≡ some user
    → refresh_token token w ≡ (ok (get_auth_token user w.env), w)
unfolding refresh_token gets
refresh_token-verified token id user w positive verified stored =
    gets-bind-run _ _ w
    ∙ need-bind-run _ _ _ (some id) w verified
    ∙ need-bind-run _ _ _ id w (present_id-pos id positive)
    ∙ gets-bind-run (find_user_by_id id) _ w
    ∙ need-bind-run _ _ _ user w stored

refresh_token-refused :
    (token : String) (w : World)
    → w.env.jwt_verify token w.env.now ≡ none
    → refresh_token token w ≡ (err token_not_valid, w)
unfolding refresh_token ◌>>=◌
refresh_token-refused token w refused = rw refused refl

-- What JWT makes of either token of a session.
chosen_token-verified :
    (access : Bool) (user : User) (t now id : ℕ) (w : World)
    → JwtFits id w.env
    → user.id ≡ id
    → w.env.jwt_verify (chosen_token access (get_auth_token user (record w.env { now = t }))) now
      ≡ (if is_in_time (lifetime access w.env) t now then some (some id) else none)
chosen_token-verified true user t now id w fits same = fits _ _ t now same
chosen_token-verified false user t now id w fits same = fits _ _ t now same

refresh_at-by_id :
    (id : ℕ) (stored user : User) (t : ℕ) (uses : List (ℕ × Bool)) (w : World)
    → JwtFits id w.env
    → 0 < id
    → user.id ≡ id
    → stored.id ≡ id
    → find_user_by_id id w ≡ some stored
    → refresh_at uses (get_auth_token user (record w.env { now = t })) w
      ≡ session stored user t uses w
unfolding refresh_at find_user_by_id
refresh_at-by_id id stored user t [] w fits positive same same' here = refl
refresh_at-by_id id stored user t ((now, access) ∷ uses) w fits positive same same' here =
    let token = chosen_token access (get_auth_token user (record w.env { now = t })) in
    let answer = chosen_token-verified access user t now id w fits same in
    let in_time = is_in_time (lifetime access w.env) t now in
    elim (Bool-cases in_time) [
      | inl e ↦
          let verified = answer ∙ ap (λ b. if b then some (some id) else none) e in
          bind-run (refresh_token token) (refresh_at uses) _ (at_time now w) (at_time now w)
            (refresh_token-verified token id stored (at_time now w) positive verified here)
          ∙ refresh_at-by_id id stored stored now uses (at_time now w) fits positive same' same'
              here
          ∙ ap
              (λ b.
                if b
                then session stored stored now uses (at_time now w)
                else (err token_not_valid, at_time now w))
              (sym e)
      | inr e ↦
          let refused = answer ∙ ap (λ b. if b then some (some id) else none) e in
          bind-throws (refresh_token token) (refresh_at uses) _ (at_time now w) (at_time now w)
            (refresh_token-refused token (at_time now w) refused)
          ∙ ap
              (λ b.
                if b
                then session stored stored now uses (at_time now w)
                else (err token_not_valid, at_time now w))
              (sym e)
    ]

-- A client that got the tokens of a user at the time `t` and then calls `refreshToken` again and again, each time
-- with one of the two tokens of the last answer: a call is answered exactly while its token lasts, in whole seconds
-- from the call before, and the first that comes later throws and ends the run. Nothing is written, and each answer
-- has the tokens of the stored row, disabled or not; an access token serves as well. JWT takes a token until it
-- ends and not longer, and the user is stored throughout under a key that is not 0.
pub refresh_at-session :
    (stored user : User) (t : ℕ) (uses : List (ℕ × Bool)) (w : World)
    → JwtFits user.id w.env
    → 0 < user.id
    → find_user_by_id user.id w ≡ some stored
    → refresh_at uses (get_auth_token user (record w.env { now = t })) w
      ≡ session stored user t uses w
unfolding find_user_by_id
refresh_at-session stored user t uses w fits positive here =
    refresh_at-by_id user.id stored user t uses w fits positive refl
      ((nat_beq_iff stored.id user.id).0
        (find_first-Has (λ x. x.id == user.id) w.users.rows stored here).1)
      here
