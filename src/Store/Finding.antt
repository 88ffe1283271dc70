-- ===== src/Store/Finding.antt =====
-- What a read finds after a row was added or rewritten.
use mathlib.Core.Path.{subst}
use nestjs_ex.Prelude.{
  Bool, Bool-cases, Has, List, [], ap, false, find_first, find_first-Has, if◌then◌else◌, inl, inr,
  nat_beq_iff, nat_eq, none, refl, some, some-inj, sym, text_eq, true, ℕ, ◌++◌, ◌==◌, ◌∙◌, ◌∷◌, ◌≡◌,
}
use nestjs_ex.Store.{update_where}
use nestjs_ex.Store.Keyed.{Keyed, Keyed-unique, Keyed-update_where}

pub find_first-append_none :
    {A : Type 0} (p : A → Bool) (xs ys : List A)
    → find_first p xs ≡ none
    → find_first p (xs ++ ys) ≡ find_first p ys
unfolding find_first
find_first-append_none p [] ys h = refl
find_first-append_none p (x ∷ xs) ys h = elim (Bool-cases (p x)) [
  | inl hit ↦ absurd (cc (rw (hit, find_first) at h))
  | inr miss ↦ rw (miss, find_first) (find_first-append_none p xs ys (rw (miss, find_first) at h))
]

pub find_first-append_some :
    {A : Type 0} (p : A → Bool) (xs ys : List A) (a : A)
    → find_first p xs ≡ some a
    → find_first p (xs ++ ys) ≡ some a
unfolding find_first
find_first-append_some p [] ys a h = absurd (cc h)
find_first-append_some p (x ∷ xs) ys a h = elim (Bool-cases (p x)) [
  | inl hit ↦ rw (hit, find_first) (rw (hit, find_first) at h)
  | inr miss ↦ rw (miss, find_first) (find_first-append_some p xs ys a (rw (miss, find_first) at h))
]

-- Only rows that neither are found before nor after are rewritten.
pub find_first-update_other :
    {A : Type 0} (p q : A → Bool) (f : A → A) (xs : List A)
    → ((x : A) → Has x xs → p x ≡ true → (q x ≡ false) × (q (f x) ≡ false))
    → find_first q (update_where p f xs) ≡ find_first q xs
unfolding find_first update_where
find_first-update_other p q f [] h = refl
find_first-update_other p q f (x ∷ xs) h = elim (Bool-cases (p x)) [
  | inl hit ↦
      let (before, after) = h x (inl refl) hit in
      rw (hit, before, after) (find_first-update_other p q f xs (λ y m. h y (inr m)))
  | inr miss ↦ elim (Bool-cases (q x)) [
    | inl found ↦ rw (miss, found) refl
    | inr other ↦ rw (miss, other) (find_first-update_other p q f xs (λ y m. h y (inr m)))
  ]
]

-- The row that is found is the only one to be rewritten, and it is found again.
pub find_first-update_found :
    {A : Type 0} (p q : A → Bool) (f : A → A) (xs : List A) (a : A)
    → ((x : A) → Has x xs → p x ≡ true → x ≡ a)
    → p a ≡ true
    → q (f a) ≡ true
    → find_first q xs ≡ some a
    → find_first q (update_where p f xs) ≡ some (f a)
unfolding find_first update_where
find_first-update_found p q f [] a only pa qa h = absurd (cc h)
find_first-update_found p q f (x ∷ xs) a only pa qa h = elim (Bool-cases (q x)) [
  | inl found ↦
      let e : x ≡ a = some-inj (rw found at h) in
      let hit : p x ≡ true = subst (λ y. p y ≡ true) (sym e) pa in
      let again : q (f x) ≡ true = subst (λ y. q (f y) ≡ true) (sym e) qa in
      rw (hit, again) (ap (λ y. some (f y)) e)
  | inr other ↦ elim (Bool-cases (p x)) [
    | inl hit ↦
        let e : x ≡ a = only x (inl refl) hit in
        let (m, found) = find_first-Has q xs a (rw other at h) in
        absurd (cc (subst (λ y. q y ≡ false) e other, found))
    | inr miss ↦
        rw (miss, other)
          (find_first-update_found p q f xs a (λ y m. only y (inr m)) pa qa (rw other at h))
  ]
]

module _ {A : Type 0} where
  pub find_first-inserted :
      (q : A → Bool) (xs : List A) (b : A)
      → find_first q xs ≡ none
      → q b ≡ true
      → find_first q (xs ++ b ∷ []) ≡ some b
  unfolding find_first
  find_first-inserted q xs b none_yet hit =
      find_first-append_none q xs (b ∷ []) none_yet ∙ rw hit refl

  pub find_first-inserted_other :
      (q : A → Bool) (xs : List A) (b : A)
      → q b ≡ false
      → find_first q (xs ++ b ∷ []) ≡ find_first q xs
  unfolding find_first
  find_first-inserted_other q [] b miss = rw miss refl
  find_first-inserted_other q (x ∷ xs) b miss =
      ap (λ o. if q x then some x else o) (find_first-inserted_other q xs b miss)

-- `save` of a row with the key of a row that is there.
module _ {A : Type 0} (id_of : A → ℕ) (n : ℕ) (xs : List A) (a b : A) where
  abbrev pub saved : List A
  saved = update_where (λ x. id_of x == id_of b) (λ x. b) xs

  only_row :
      Keyed id_of n xs
      → Has a xs
      → id_of b ≡ id_of a
      → (x : A) → Has x xs
      → (id_of x == id_of b) ≡ true
      → x ≡ a
  only_row keys stored same x m e =
      Keyed-unique id_of n xs x a keys m stored ((nat_beq_iff (id_of x) (id_of b)).0 e ∙ same)

  pub Keyed-saved : Keyed id_of n xs → Keyed id_of n saved
  Keyed-saved keys =
      Keyed-update_where id_of n _ _ xs (λ x e. sym ((nat_beq_iff (id_of x) (id_of b)).0 e)) keys

  pub find_first-saved :
      (q : A → Bool)
      → Keyed id_of n xs
      → id_of b ≡ id_of a
      → find_first q xs ≡ some a
      → q b ≡ true
      → find_first q saved ≡ some b
  find_first-saved q keys same found hit =
      let (stored, _) = find_first-Has q xs a found in
      find_first-update_found _ q (λ x. b) xs a (only_row keys stored same)
        ((nat_beq_iff (id_of a) (id_of b)).1 (sym same)) hit found

  pub find_first-saved_other :
      (q : A → Bool)
      → Keyed id_of n xs
      → Has a xs
      → id_of b ≡ id_of a
      → q a ≡ false
      → q b ≡ false
      → find_first q saved ≡ find_first q xs
  find_first-saved_other q keys stored same miss_a miss_b =
      find_first-update_other _ q (λ x. b) xs
        (λ x m e. (subst (λ y. q y ≡ false) (sym (only_row keys stored same x m e)) miss_a, miss_b))
