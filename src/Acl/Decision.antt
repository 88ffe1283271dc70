-- ===== src/Acl/Decision.antt =====
-- src/shared/acl/acl.service.ts: the two loops of `canDoAction` find a rule, whatever the order of the
-- roles and of the rules.
use mathlib.Core.Path.{subst}
use nestjs_ex.Acl.{
  AclRole, AclRule, Action, Actor, acl_role_beq_iff, acl_role_eq, action_eq, callback_allows,
  can_do_action, check_roles, check_rules, is_user_itself, rule_allows, user_acl_rules,
}
use nestjs_ex.Entities.{role_eq}
use nestjs_ex.Prelude.{
  Bool, Bool-cases, Has, Has-select, List, [], any, ap, arith, false, includes, inl, inr, nat_eq,
  refl, select, select-Has, sym, text_eq, true, ℕ, ◌&&◌, ◌==◌, ◌||◌, ◌↔◌, ◌∙◌, ◌∷◌, ◌≡◌,
}

and_left : (a b : Bool) → (a && b) ≡ true → a ≡ true
and_left a b h = ground arith

and_right : (a b : Bool) → (a && b) ≡ true → b ≡ true
and_right a b h = ground arith

both : (a b : Bool) → a ≡ true → b ≡ true → (a && b) ≡ true
both a b h k = ground arith

-- A test of the list holds of one of its members.
any_sound :
    {A : Type 0} (p : A → Bool) (xs : List A) → any p xs ≡ true → (x : A) × Has x xs × (p x ≡ true)
any_sound p [] h = absurd (cc h)
any_sound p (x ∷ xs) h = elim (Bool-cases (p x)) [
  | inl hit ↦ (x, inl refl, hit)
  | inr miss ↦ let (y, m, q) = any_sound p xs (rw miss at h) in (y, inr m, q)
]

any_complete :
    {A : Type 0} (p : A → Bool) (xs : List A) (x : A) → Has x xs → p x ≡ true → any p xs ≡ true
any_complete p [] x m h = absurd m
any_complete p (y ∷ ys) x (inl e) h = rw (subst (λ z. p z ≡ true) (sym e) h) refl
any_complete p (y ∷ ys) x (inr m) h = elim (Bool-cases (p y)) [
  | inl hit ↦ rw hit refl
  | inr miss ↦ rw miss (any_complete p ys x m h)
]

module _ {Resource : Type 0} (action : Action) (resource : Resource) (actor : Actor) where
  abbrev allows : AclRule Resource → Bool
  allows rule = rule_allows rule action resource actor

  check_rules-any :
      (rules : List (AclRule Resource)) (b : Bool)
      → check_rules rules action resource actor b ≡ (b || any allows rules)
  unfolding check_rules
  check_rules-any [] true = refl
  check_rules-any [] false = refl
  check_rules-any (rule ∷ rules) true = check_rules-any rules true
  check_rules-any (rule ∷ rules) false = check_rules-any rules (allows rule)

  abbrev role_allows : List (AclRule Resource) → AclRole → Bool
  role_allows rules role = any allows (select (λ rule. rule.role == role) rules)

  check_roles-any :
      (roles : List AclRole) (rules : List (AclRule Resource)) (b : Bool)
      → check_roles roles rules action resource actor b ≡ (b || any (role_allows rules) roles)
  unfolding check_roles
  check_roles-any [] rules true = refl
  check_roles-any [] rules false = refl
  check_roles-any (role ∷ roles) rules true = check_roles-any roles rules true
  check_roles-any (role ∷ roles) rules false =
      check_roles-any roles rules _
      ∙ ap (λ c. c || any (role_allows rules) roles)
          (check_rules-any (select (λ rule. rule.role == role) rules) false)

  -- A rule for one of the actor's roles that allows the action.
  abbrev pub Allowing : List (AclRule Resource) → AclRule Resource → Type 0
  Allowing rules rule =
      Has rule rules
      × Has rule.role actor.roles
      × ((includes rule.actions action || includes rule.actions Action.manage) ≡ true)
      × (callback_allows rule.rule_callback resource actor ≡ true)

  sound :
      (rules : List (AclRule Resource))
      → can_do_action rules actor action resource ≡ true
      → (rule : AclRule Resource) × Allowing rules rule
  unfolding can_do_action
  sound rules h =
      let (role, has_role, some_rule) =
        any_sound (role_allows rules) actor.roles
          (sym (check_roles-any actor.roles rules false) ∙ h) in
      let (rule, picked, fits) = any_sound allows _ some_rule in
      let (has, same) = Has-select (λ rule. rule.role == role) rules rule picked in
      (
        rule,
        (
          has,
          subst (λ r. Has r actor.roles) (sym ((acl_role_beq_iff rule.role role).0 same)) has_role,
          and_left _ _ fits,
          and_right _ _ fits,
        ),
      )

  complete :
      (rules : List (AclRule Resource)) (rule : AclRule Resource)
      → Allowing rules rule
      → can_do_action rules actor action resource ≡ true
  unfolding can_do_action
  complete rules rule (has, has_role, a, c) =
      check_roles-any actor.roles rules false
      ∙ any_complete (role_allows rules) actor.roles rule.role has_role (
          any_complete allows _ rule
            (select-Has (λ x. x.role == rule.role) rules rule has
              ((acl_role_beq_iff rule.role rule.role).1 refl))
            (both _ _ a c))

  -- An actor may do an action to a resource exactly when one of the rules is for one of its roles, lists
  -- the action or `manage`, and has no callback or one that answers true.
  pub can_do_action_iff :
      (rules : List (AclRule Resource))
      → (can_do_action rules actor action resource ≡ true)
        ↔ ((rule : AclRule Resource) × Allowing rules rule)
  can_do_action_iff rules = (sound rules, λ (rule, a). complete rules rule a)

-- With the rules of `UserAclService`, an actor that is only a user may update a user exactly when it is
-- that user, may read every user, and may neither create, delete nor list.
pub user_only_lem :
    (id resource_id : ℕ)
    → (can_do_action user_acl_rules
          (record { id = id; roles = AclRole.user ∷ [] })
          Action.update
          resource_id
        ≡ (resource_id == id))
      × (can_do_action user_acl_rules
            (record { id = id; roles = AclRole.user ∷ [] })
            Action.read
            resource_id
          ≡ true)
      × (can_do_action user_acl_rules
            (record { id = id; roles = AclRole.user ∷ [] })
            Action.create
            resource_id
          ≡ false)
      × (can_do_action user_acl_rules
            (record { id = id; roles = AclRole.user ∷ [] })
            Action.delete
            resource_id
          ≡ false)
      × (can_do_action user_acl_rules
            (record { id = id; roles = AclRole.user ∷ [] })
            Action.list
            resource_id
          ≡ false)
unfolding can_do_action check_roles check_rules select includes is_user_itself
user_only_lem id resource_id = (refl, refl, refl, refl, refl)
