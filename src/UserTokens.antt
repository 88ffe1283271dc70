-- ===== src/UserTokens.antt =====
-- src/user-token/services: the removal of a token from the list of a user.
use nestjs_ex.Acl.{AclRole, AclRule, Action, Actor, acl_role_eq, action_eq, can_do_action}
use nestjs_ex.Entities.{UserToken, role_eq}
use nestjs_ex.Prelude.{Bool, List, [], nat_eq, none, not, select, some, ℕ, ◌==◌, ◌∷◌}
use nestjs_ex.RedPacket.{get_token_by_id}
use nestjs_ex.World.{Exec, guard, modify, unauthorized, ◌>>=◌, ◌>>◌}

-- `isTokenOwner`
abbrev pub is_token_owner : UserToken → Actor → Bool
is_token_owner token actor = token.user_id == actor.id

-- The rules of `UserTokenAclService`
abbrev pub token_acl_rules : List (AclRule UserToken)
token_acl_rules =
    record { role = AclRole.admin; actions = Action.manage ∷ []; rule_callback = none }
    ∷ record { role = AclRole.user; actions = Action.read ∷ []; rule_callback = none }
    ∷ record {
      role = AclRole.user;
      actions = Action.update ∷ Action.delete ∷ [];
      rule_callback = some is_token_owner;
    }
    ∷ []

-- `repository.remove`
unfoldable pub remove_token : UserToken → Exec (Unit {0})
remove_token token = modify (λ w. record w {
  tokens = record w.tokens { rows = select (λ x. not (x.id == token.id)) w.tokens.rows };
})

unfoldable pub remove_token_by_id : Actor → ℕ → Exec (Unit {0})
remove_token_by_id actor id = do
  token ← get_token_by_id id
  guard (can_do_action token_acl_rules actor Action.delete token) unauthorized
  remove_token token
