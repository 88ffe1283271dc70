-- ===== src/Prelude/Existing.antt =====
-- What stays in a list that a query shapes.
use Prim.Native.Nat.{ℕ, zero, suc, ◌≤◌}
use mathlib.Core.Bool.{Bool, true}
use mathlib.Core.Logic.{inl, inr, ◌⊎◌}
use mathlib.Core.List.{List, [], ◌∷◌, ◌++◌, map}
use mathlib.Core.Path.{◌≡◌, ◌∙◌, refl, ap, subst, sym}
use native.Mathlib.Omega.{arith}
use nestjs_ex.Prelude.Lists.{Has, any, length, select}
use nestjs_ex.Prelude.Pages.{distinct_rows, insert_newest, newest_first, take}
use nestjs_ex.Prelude.Tests.{Bool-cases, leb}

abbrev pub Exists : {A : Type 0} → (A → Type 0) → List A → Type 0
Exists P [] = ⊥
Exists P (x ∷ xs) = P x ⊎ Exists P xs

module _ {A : Type 0} (P : A → Type 0) where
  pub Has-Exists : (x : A) (xs : List A) → Has x xs → P x → Exists P xs
  Has-Exists x [] m p = m
  Has-Exists x (y ∷ ys) (inl e) p = inl (subst P (sym e) p)
  Has-Exists x (y ∷ ys) (inr m) p = inr (Has-Exists x ys m p)

  pub Exists-append_left : (xs ys : List A) → Exists P xs → Exists P (xs ++ ys)
  Exists-append_left [] ys h = absurd h
  Exists-append_left (x ∷ xs) ys (inl p) = inl p
  Exists-append_left (x ∷ xs) ys (inr h) = inr (Exists-append_left xs ys h)

  pub Exists-append_right : (xs ys : List A) → Exists P ys → Exists P (xs ++ ys)
  Exists-append_right [] ys h = h
  Exists-append_right (x ∷ xs) ys h = inr (Exists-append_right xs ys h)

  pub Exists-select :
      (test : A → Bool) (xs : List A)
      → ((x : A) → P x → test x ≡ true)
      → Exists P xs
      → Exists P (select test xs)
  unfolding select
  Exists-select test [] f h = h
  Exists-select test (x ∷ xs) f (inl p) = rw (f x p, select) (inl p)
  Exists-select test (x ∷ xs) f (inr h) = elim (Bool-cases (test x)) [
    | inl hit ↦ rw (hit, select) (inr (Exists-select test xs f h))
    | inr miss ↦ rw (miss, select) (Exists-select test xs f h)
  ]

  -- A test for the same row under which `P` does not change.
  module _ (same : A → A → Bool) (kept : (x y : A) → P x → same x y ≡ true → P y) where
    any-Exists : (x : A) (xs : List A) → P x → any (same x) xs ≡ true → Exists P xs
    any-Exists x [] p h = cc h
    any-Exists x (y ∷ ys) p h = elim (Bool-cases (same x y)) [
      | inl hit ↦ inl (kept x y p hit)
      | inr miss ↦ inr (any-Exists x ys p (rw miss at h))
    ]

    pub Exists-distinct_rows : (xs : List A) → Exists P xs → Exists P (distinct_rows same xs)
    unfolding distinct_rows
    Exists-distinct_rows [] h = h
    Exists-distinct_rows (x ∷ xs) (inl p) =
        elim (Bool-cases (any (same x) (distinct_rows same xs))) [
          | inl hit ↦ rw hit (any-Exists x (distinct_rows same xs) p hit)
          | inr miss ↦ rw miss (inl p)
        ]
    Exists-distinct_rows (x ∷ xs) (inr h) =
        elim (Bool-cases (any (same x) (distinct_rows same xs))) [
          | inl hit ↦ rw hit (Exists-distinct_rows xs h)
          | inr miss ↦ rw miss (inr (Exists-distinct_rows xs h))
        ]

  module _ (time : A → ℕ) where
    insert_newest-new : (x : A) (xs : List A) → P x → Exists P (insert_newest time x xs)
    unfolding insert_newest
    insert_newest-new x [] p = inl p
    insert_newest-new x (y ∷ ys) p = elim (Bool-cases (leb (time y) (time x))) [
      | inl older ↦ rw older (inl p)
      | inr newer ↦ rw newer (inr (insert_newest-new x ys p))
    ]

    insert_newest-old : (x : A) (xs : List A) → Exists P xs → Exists P (insert_newest time x xs)
    unfolding insert_newest
    insert_newest-old x [] h = absurd h
    insert_newest-old x (y ∷ ys) (inl q) = elim (Bool-cases (leb (time y) (time x))) [
      | inl older ↦ rw older (inr (inl q))
      | inr newer ↦ rw newer (inl q)
    ]
    insert_newest-old x (y ∷ ys) (inr h) = elim (Bool-cases (leb (time y) (time x))) [
      | inl older ↦ rw older (inr (inr h))
      | inr newer ↦ rw newer (inr (insert_newest-old x ys h))
    ]

    pub Exists-newest_first : (xs : List A) → Exists P xs → Exists P (newest_first time xs)
    unfolding newest_first
    Exists-newest_first [] h = h
    Exists-newest_first (x ∷ xs) (inl p) = insert_newest-new x (newest_first time xs) p
    Exists-newest_first (x ∷ xs) (inr h) = insert_newest-old x _ (Exists-newest_first xs h)

  pub Exists-take : (n : ℕ) (xs : List A) → length xs ≤ n → Exists P xs → Exists P (take n xs)
  unfolding take
  Exists-take n [] le h = absurd h
  Exists-take zero (x ∷ xs) le h = absurd (omega (arith, le))
  Exists-take (suc n) (x ∷ xs) le (inl p) = inl p
  Exists-take (suc n) (x ∷ xs) le (inr h) = inr (Exists-take n xs (omega arith) h)

module _ {A : Type 0} (time : A → ℕ) where
  length-insert_newest : (x : A) (xs : List A) → length (insert_newest time x xs) ≡ suc (length xs)
  unfolding insert_newest
  length-insert_newest x [] = refl
  length-insert_newest x (y ∷ ys) = elim (Bool-cases (leb (time y) (time x))) [
    | inl older ↦ rw older refl
    | inr newer ↦ rw newer (ap suc (length-insert_newest x ys))
  ]

  pub length-newest_first : (xs : List A) → length (newest_first time xs) ≡ length xs
  unfolding newest_first
  length-newest_first [] = refl
  length-newest_first (x ∷ xs) =
      length-insert_newest x (newest_first time xs) ∙ ap suc (length-newest_first xs)

pub Exists-map :
    {A B : Type 0} (P : A → Type 0) (Q : B → Type 0) (f : A → B) (xs : List A)
    → ((x : A) → P x → Q (f x))
    → Exists P xs
    → Exists Q (map f xs)
Exists-map P Q f [] g h = absurd h
Exists-map P Q f (x ∷ xs) g (inl p) = inl (g x p)
Exists-map P Q f (x ∷ xs) g (inr h) = inr (Exists-map P Q f xs g h)
