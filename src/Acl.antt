-- ===== src/Acl.antt =====
-- src/shared/acl/acl.service.ts and src/user/services/user-acl.service.ts: rules by role, and the loops
-- that decide whether an actor may act.
pub mod Decision
use nestjs_ex.Entities.{role_eq}
use nestjs_ex.Prelude.{
  Bool, Equality, List, Option, [], arith, false, if◌then◌else◌, includes, nat_beq, nat_eq, none,
  select, some, true, ℕ, ◌&&◌, ◌==◌, ◌||◌, ◌↔◌, ◌∷◌, ◌≡◌,
}

pub data AclRole : Type 0 where
  user admin : AclRole

pub data Action : Type 0 where
  create read update delete manage list : Action

abbrev role_number : AclRole → ℕ
role_number AclRole.user = 0
role_number AclRole.admin = 1

abbrev pub acl_role_beq : AclRole → AclRole → Bool
acl_role_beq a b = nat_beq (role_number a) (role_number b)

pub acl_role_beq_iff : (a b : AclRole) → (acl_role_beq a b ≡ true) ↔ (a ≡ b)
acl_role_beq_iff a b = ground arith

instance abbrev pub acl_role_eq : Equality AclRole
acl_role_eq = record { same_as = acl_role_beq; same_iff = acl_role_beq_iff }

abbrev action_number : Action → ℕ
action_number Action.create = 0
action_number Action.read = 1
action_number Action.update = 2
action_number Action.delete = 3
action_number Action.manage = 4
action_number Action.list = 5

abbrev pub action_beq : Action → Action → Bool
action_beq a b = nat_beq (action_number a) (action_number b)

pub action_beq_iff : (a b : Action) → (action_beq a b ≡ true) ↔ (a ≡ b)
action_beq_iff a b = ground arith

instance abbrev pub action_eq : Equality Action
action_eq = record { same_as = action_beq; same_iff = action_beq_iff }

-- The actor, with the resource's identity as a type parameter of the rules.
pub record Actor : Type 0 where
  pub id : ℕ
  pub roles : List AclRole

pub record AclRule (Resource : Type 0) : Type 0 where
  pub role : AclRole
  pub actions : List Action
  pub rule_callback : Option (Resource → Actor → Bool)

module _ {Resource : Type 0} where
  abbrev pub callback_allows : Option (Resource → Actor → Bool) → Resource → Actor → Bool
  callback_allows none resource actor = true
  callback_allows (some f) resource actor = f resource actor

  -- What one rule says, once its role fits.
  abbrev pub rule_allows : AclRule Resource → Action → Resource → Actor → Bool
  rule_allows rule action resource actor =
      (includes rule.actions action || includes rule.actions Action.manage)
      && callback_allows rule.rule_callback resource actor

  -- `aclRules.forEach`: once access is given, the later rules leave it.
  unfoldable pub check_rules : List (AclRule Resource) → Action → Resource → Actor → Bool → Bool
  check_rules [] action resource actor can_do = can_do
  check_rules (rule ∷ rules) action resource actor can_do =
      check_rules rules action resource actor
        (if can_do then true else rule_allows rule action resource actor)

  -- `actor.roles.forEach`
  unfoldable pub check_roles :
      List AclRole → List (AclRule Resource) → Action → Resource → Actor → Bool → Bool
  check_roles [] rules action resource actor can_do = can_do
  check_roles (role ∷ roles) rules action resource actor can_do =
      check_roles roles rules action resource actor (
        if can_do
        then true
        else check_rules (select (λ rule. rule.role == role) rules) action resource actor false)

  -- `forActor(actor).canDoAction(action, resource)`
  unfoldable pub can_do_action : List (AclRule Resource) → Actor → Action → Resource → Bool
  can_do_action rules actor action resource =
      check_roles actor.roles rules action resource actor false

-- `isUserItself`, on the resource's id
unfoldable pub is_user_itself : ℕ → Actor → Bool
is_user_itself resource_id actor = resource_id == actor.id

-- The rules that `UserAclService` pushes, in their order.
abbrev pub user_acl_rules : List (AclRule ℕ)
user_acl_rules =
    record { role = AclRole.admin; actions = Action.manage ∷ []; rule_callback = none }
    ∷ record { role = AclRole.user; actions = Action.read ∷ []; rule_callback = none }
    ∷ record {
      role = AclRole.user;
      actions = Action.update ∷ [];
      rule_callback = some is_user_itself;
    }
    ∷ []
