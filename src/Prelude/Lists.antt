-- ===== src/Prelude/Lists.antt =====
-- Lists with Boolean tests and native lengths, as JavaScript's array methods and MySQL's reads
-- do.
use Prim.Native.Nat.{ℕ, suc, ◌+◌, ◌≤◌}
use mathlib.Core.Path.{◌≡◌, subst, sym, refl}
use mathlib.Core.Logic.{◌⊎◌, inl, inr}
use mathlib.Core.Bool.{Bool, true, false, ◌||◌}
use mathlib.Core.Option.{Option, none, some}
use mathlib.Core.List.{List, [], ◌∷◌, ◌++◌}
use native.Mathlib.Omega.{arith}
use nestjs_ex.Prelude.Tests.{if◌then◌else◌, Equality, ◌==◌, Bool-cases, is_some}

module _ {ℓ} {A : Type ℓ} where
  abbrev pub length : List A → ℕ
  length [] = 0
  length (x ∷ xs) = suc (length xs)

  abbrev pub any : (A → Bool) → List A → Bool
  any p [] = false
  any p (x ∷ xs) = p x || any p xs

  -- `Array.prototype.find`, and the row that `findOne` returns.
  unfoldable pub find_first : (A → Bool) → List A → Option A
  find_first p [] = none
  find_first p (x ∷ xs) = if p x then some x else find_first p xs

  -- `Array.prototype.filter`, and the rows that `find` returns.
  unfoldable pub select : (A → Bool) → List A → List A
  select p [] = []
  select p (x ∷ xs) = if p x then x ∷ select p xs else select p xs

  unfoldable pub count_where : (A → Bool) → List A → ℕ
  count_where p [] = 0
  count_where p (x ∷ xs) = if p x then suc (count_where p xs) else count_where p xs

  pub length-append : (xs ys : List A) → length (xs ++ ys) ≡ length xs + length ys
  length-append [] ys = omega arith
  length-append (x ∷ xs) ys = omega (arith, length-append xs ys)

  pub length-select-le : (p : A → Bool) (xs : List A) → length (select p xs) ≤ length xs
  unfolding select
  length-select-le p [] = omega arith
  length-select-le p (x ∷ xs) = ground (arith, length-select-le p xs)

  pub count_where-append :
      (p : A → Bool) (xs ys : List A)
      → count_where p (xs ++ ys) ≡ count_where p xs + count_where p ys
  unfolding count_where
  count_where-append p [] ys = omega arith
  count_where-append p (x ∷ xs) ys = ground (arith, count_where-append p xs ys)

-- `xs.includes(a)`, and MySQL's `IN`.
unfoldable pub includes {ℓ} : {A : Type ℓ} ⦃e : Equality A⦄ → List A → A → Bool
includes [] a = false
includes (x ∷ xs) a = x == a || includes xs a

abbrev pub All {ℓ κ} : {A : Type ℓ} → (A → Type κ) → List A → Type κ
All P [] = Unit
All P (x ∷ xs) = P x × All P xs

module _ {A : Type 0} where
  -- `x` stands in the list.
  abbrev pub Has : A → List A → Type 0
  Has x [] = ⊥
  Has x (y ∷ ys) = (y ≡ x) ⊎ Has x ys

  pub find_first-Has :
      (p : A → Bool) (xs : List A) (x : A) → find_first p xs ≡ some x → Has x xs × (p x ≡ true)
  unfolding find_first
  find_first-Has p [] x h = cc
  find_first-Has p (y ∷ ys) x h = elim (Bool-cases (p y)) [
    | inl hit ↦ (inl (ground arith), ground arith)
    | inr miss ↦ let (m, q) = find_first-Has p ys x (ground arith) in (inr m, q)
  ]

  pub find_first-eq-none :
      (p : A → Bool) (xs : List A) (x : A) → find_first p xs ≡ none → Has x xs → p x ≡ false
  unfolding find_first
  find_first-eq-none p [] x h m = absurd m
  find_first-eq-none p (y ∷ ys) x h (inl e) = ground arith
  find_first-eq-none p (y ∷ ys) x h (inr m) = find_first-eq-none p ys x (ground arith) m

  pub Has-append_left : (x : A) (xs ys : List A) → Has x xs → Has x (xs ++ ys)
  Has-append_left x [] ys m = absurd m
  Has-append_left x (z ∷ zs) ys (inl e) = inl e
  Has-append_left x (z ∷ zs) ys (inr m) = inr (Has-append_left x zs ys m)

  pub Has-append_right : (x : A) (xs ys : List A) → Has x ys → Has x (xs ++ ys)
  Has-append_right x [] ys m = m
  Has-append_right x (z ∷ zs) ys m = inr (Has-append_right x zs ys m)

  -- Case analysis on the head of a list for which the test holds.
  Has-cons_map :
      {P : Type 0} {x y : A} (ys zs : List A)
      → (y ≡ x → P)
      → (Has x ys → Has x zs × P)
      → (y ≡ x) ⊎ Has x ys
      → Has x (y ∷ zs) × P
  Has-cons_map ys zs f g (inl e) = (inl e, f e)
  Has-cons_map ys zs f g (inr k) = let (m, q) = g k in (inr m, q)

  pub Has-select :
      (p : A → Bool) (xs : List A) (x : A) → Has x (select p xs) → Has x xs × (p x ≡ true)
  unfolding select
  Has-select p [] x m = absurd m
  Has-select p (y ∷ ys) x m = elim (Bool-cases (p y)) [
    | inl hit ↦
        Has-cons_map (select p ys) ys (λ e. ground arith) (Has-select p ys x)
          (rw (hit, select) at m)
    | inr miss ↦ let (k, q) = Has-select p ys x (rw (miss, select) at m) in (inr k, q)
  ]

  pub select-Has :
      (p : A → Bool) (xs : List A) (x : A) → Has x xs → p x ≡ true → Has x (select p xs)
  unfolding select
  select-Has p [] x m h = absurd m
  select-Has p (y ∷ ys) x (inl e) h = rw (subst (λ z. p z ≡ true) (sym e) h, select) (inl e)
  select-Has p (y ∷ ys) x (inr m) h = elim (Bool-cases (p y)) [
    | inl hit ↦ rw (hit, select) (inr (select-Has p ys x m h))
    | inr miss ↦ rw (miss, select) (select-Has p ys x m h)
  ]

  pub is_some-find_first :
      (p : A → Bool) (xs : List A) (x : A)
      → Has x xs
      → p x ≡ true
      → is_some (find_first p xs) ≡ true
  unfolding find_first
  is_some-find_first p [] x m h = absurd m
  is_some-find_first p (y ∷ ys) x (inl e) h =
      rw (subst (λ z. p z ≡ true) (sym e) h, find_first) refl
  is_some-find_first p (y ∷ ys) x (inr m) h = ground (arith, is_some-find_first p ys x m h)
