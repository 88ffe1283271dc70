-- ===== src/UserContacts/Distinct.antt =====
-- src/user-contact/services/user-contact.service.ts: no address twice among the contacts of a user, and who may
-- remove a contact.
use mathlib.Core.Path.{ap₂}
use nestjs_ex.Acl.{Actor}
use nestjs_ex.Entities.{UserContact}
use nestjs_ex.Prelude.{
  All, Bool, Bool-cases, Has, List, [], and_true, any, ap, arith, false, find_first-Has, inl, inr,
  is_false, nat_beq_iff, nat_eq, not, refl, select, sym, text_eq, ℕ, ◌&&◌, ◌++◌, ◌==◌, ◌||◌, ◌∙◌,
  ◌∷◌, ◌≡◌,
}
use nestjs_ex.UserContacts.{
  AddUserContactInput, add_contact, get_contacts_by_user_id, get_contacts_by_user_id_and_id,
  has_address, remove_contact, remove_contact_by_id, save_contact,
}
use nestjs_ex.World.{Env, Result, World, modify, ok}
use nestjs_ex.World.Laws.{At, At-bind, At-gets-bind, At-guard-bind, At-modify, At-need, Frame}
use nestjs_ex.World.Outcome.{bind-ok, gets-bind-ok, guard-bind-ok, need-ok}

-- Both rows are of one user and have one address, up to case.
abbrev pub clash : Env → UserContact → UserContact → Bool
clash env c d = (c.user_id == d.user_id) && has_address env d.address c

abbrev pub Apart : Env → List UserContact → Type 0
Apart env [] = Unit {0}
Apart env (c ∷ cs) = All (λ d. clash env c d ≡ false) cs × Apart env cs

All-select :
    {A : Type 0} (P : A → Type 0) (q : A → Bool) (xs : List A) → All P xs → All P (select q xs)
unfolding select
All-select P q [] h = tt
All-select P q (x ∷ xs) h = elim (Bool-cases (q x)) [
  | inl hit ↦ rw (hit, select) (h.0, All-select P q xs h.1)
  | inr miss ↦ rw (miss, select) (All-select P q xs h.1)
]

Apart-select :
    (env : Env) (q : UserContact → Bool) (xs : List UserContact)
    → Apart env xs
    → Apart env (select q xs)
unfolding select
Apart-select env q [] h = tt
Apart-select env q (x ∷ xs) h = elim (Bool-cases (q x)) [
  | inl hit ↦ rw (hit, select) (All-select _ q xs h.0, Apart-select env q xs h.1)
  | inr miss ↦ rw (miss, select) (Apart-select env q xs h.1)
]

All-append :
    {A : Type 0} (P : A → Type 0) (xs : List A) (y : A) → All P xs → P y → All P (xs ++ y ∷ [])
All-append P [] y h p = (p, tt)
All-append P (x ∷ xs) y h p = (h.0, All-append P xs y h.1 p)

Apart-append :
    (env : Env) (xs : List UserContact) (y : UserContact)
    → Apart env xs
    → All (λ x. clash env x y ≡ false) xs
    → Apart env (xs ++ y ∷ [])
Apart-append env [] y h n = (tt, tt)
Apart-append env (x ∷ xs) y h n =
    (All-append (λ d. clash env x d ≡ false) xs y h.0 n.0, Apart-append env xs y h.1 n.1)

or_false : (a b : Bool) → (a || b) ≡ false → (a ≡ false) × (b ≡ false)
or_false a b h = ground arith

-- No row that is read has the address, so no row of the user has it.
none_selected :
    (p q : UserContact → Bool) (xs : List UserContact)
    → any p (select q xs) ≡ false
    → All (λ x. (q x && p x) ≡ false) xs
unfolding select
none_selected p q [] h = tt
none_selected p q (x ∷ xs) h = elim (Bool-cases (q x)) [
  | inl hit ↦
      let head : (p x || any p (select q xs)) ≡ false = rw (hit, select) at h in
      let (a, b) = or_false (p x) (any p (select q xs)) head in (rw hit a, none_selected p q xs b)
  | inr miss ↦ (rw miss refl, none_selected p q xs (rw (miss, select) at h))
]

-- The contacts stay apart.
abbrev KeepsApart : Frame
KeepsApart = record {
  Rel = λ v w. Apart v.env v.contacts.rows → Apart w.env w.contacts.rows;
  same = λ w h. h;
  trans = λ u v w p q h. q (p h);
}

add_contact-At :
    {w : World} (user_id : ℕ) (input : AddUserContactInput)
    → At KeepsApart w (add_contact user_id input)
unfolding add_contact get_contacts_by_user_id save_contact
add_contact-At {w} user_id input = At-gets-bind _ _ (
    At-guard-bind _ _ _ λ is_address. At-gets-bind _ _ (
      At-guard-bind _ _ _ λ blocking. At-gets-bind _ _ (
        At-guard-bind _ _ _ λ added. At-gets-bind _ _ (
          At-gets-bind _ _ (
            At-guard-bind _ _ _ λ new. record {
              holds = λ h. Apart-append w.env w.contacts.rows _ h (
                  none_selected (has_address w.env input.address) (λ c. c.user_id == user_id)
                    w.contacts.rows (is_false _ new));
            })))))

remove_contact_by_id-At :
    {w : World} (actor : Actor) (id : ℕ) → At KeepsApart w (remove_contact_by_id actor id)
unfolding remove_contact_by_id get_contacts_by_user_id_and_id remove_contact
remove_contact_by_id-At actor id =
    At-bind _ _ (At-gets-bind _ _ (At-need _ _))
      λ c u. At-guard-bind _ _ _ λ may. At-modify _ λ h. Apart-select u.env _ _ h

-- The calls that change which contacts there are.
pub data ContactCall : Type 0 where
  add : ℕ → AddUserContactInput → ContactCall
  remove : Actor → ℕ → ContactCall

abbrev contacts_after : ContactCall → World → World
contacts_after (ContactCall.add user_id input) w = (add_contact user_id input w).1
contacts_after (ContactCall.remove actor id) w = (remove_contact_by_id actor id w).1

abbrev pub run_contacts : List ContactCall → World → World
run_contacts [] w = w
run_contacts (c ∷ cs) w = run_contacts cs (contacts_after c w)

after-Apart :
    (c : ContactCall) (w : World)
    → Apart w.env w.contacts.rows
    → Apart (contacts_after c w).env (contacts_after c w).contacts.rows
after-Apart (ContactCall.add user_id input) w h = At.holds (add_contact-At {w = w} user_id input) h
after-Apart (ContactCall.remove actor id) w h =
    At.holds (remove_contact_by_id-At {w = w} actor id) h

-- Where no user has two contacts with one address up to case, no user has after any sequence of additions and
-- removals, whether the calls return or throw.
pub run_contacts-Apart :
    (cs : List ContactCall) (w : World)
    → Apart w.env w.contacts.rows
    → Apart (run_contacts cs w).env (run_contacts cs w).contacts.rows
run_contacts-Apart [] w h = h
run_contacts-Apart (c ∷ cs) w h = run_contacts-Apart cs (contacts_after c w) (after-Apart c w h)

-- The state without the contacts of a key.
abbrev pub without : ℕ → World → World
without id w = record w {
  contacts = record w.contacts { rows = select (λ x. not (x.id == id)) w.contacts.rows };
}

-- Where `removeContactById` returns, the contact was the caller's own, also for an administrator, and the contacts
-- are those from before without the rows of its key; nothing else changes.
pub remove_contact_by_id-ok :
    (actor : Actor) (id : ℕ) (w v : World)
    → remove_contact_by_id actor id w ≡ (ok tt, v)
    → (c : UserContact) × Has c w.contacts.rows
      × (c.user_id ≡ actor.id)
      × (c.id ≡ id)
      × (v ≡ record w {
        contacts = record w.contacts { rows = select (λ x. not (x.id == id)) w.contacts.rows };
      })
unfolding remove_contact_by_id get_contacts_by_user_id_and_id remove_contact modify
remove_contact_by_id-ok actor id w v h =
    let (c, u, hc, h1) = bind-ok _ _ w v tt h in
    let (found, u_is) = need-ok _ _ w u c (gets-bind-ok _ _ w u c hc) in
    let (stored, own) = find_first-Has _ w.contacts.rows c found in
    let (owner, key) = and_true (c.user_id == actor.id) (c.id == id) own in
    let (_, h2) = guard-bind-ok _ _ _ u v tt h1 in
    let removed : v ≡ without c.id u = sym (ap (λ (p : Result (Unit {0}) × World). p.1) h2) in
    let same_key : c.id ≡ id = (nat_beq_iff c.id id).0 key in
    (
      c,
      stored,
      (nat_beq_iff c.user_id actor.id).0 owner,
      same_key,
      removed ∙ ap₂ without same_key u_is,
    )
