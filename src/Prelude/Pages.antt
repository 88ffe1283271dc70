-- ===== src/Prelude/Pages.antt =====
-- Lists as a query of MySQL shapes them: distinct rows, a join that keeps what has no partner, an order, a page.
use Prim.Native.Nat.{ℕ, zero, suc, ◌≤◌}
use mathlib.Core.Bool.{Bool, true, false}
use mathlib.Core.Logic.{inl, inr}
use mathlib.Core.Option.{Option, none, some}
use mathlib.Core.List.{List, [], ◌∷◌, ◌++◌, map}
use mathlib.Core.Path.{◌≡◌, refl}
use native.Mathlib.Omega.{arith}
use nestjs_ex.Prelude.Lists.{All, Has, any, length, select}
use nestjs_ex.Prelude.Tests.{Bool-cases, if◌then◌else◌, leb}

module _ {A : Type 0} where
  -- `offset`
  unfoldable pub drop : ℕ → List A → List A
  drop zero xs = xs
  drop (suc n) [] = []
  drop (suc n) (x ∷ xs) = drop n xs

  -- `limit`
  unfoldable pub take : ℕ → List A → List A
  take zero xs = []
  take (suc n) [] = []
  take (suc n) (x ∷ xs) = x ∷ take n xs

  -- `select distinct`, by a test for the same row
  unfoldable pub distinct_rows : (A → A → Bool) → List A → List A
  distinct_rows same [] = []
  distinct_rows same (x ∷ xs) =
      let rest = distinct_rows same xs in if any (same x) rest then rest else x ∷ rest

  unfoldable pub concat_map : {B : Type 0} → (A → List B) → List A → List B
  concat_map f [] = []
  concat_map f (x ∷ xs) = f x ++ concat_map f xs

  -- The rows that a left outer join puts beside a row: NULL where there is none.
  unfoldable pub left_join : List A → List (Option A)
  left_join [] = none ∷ []
  left_join (x ∷ xs) = map some (x ∷ xs)

  module _ (time : A → ℕ) where
    unfoldable pub insert_newest : A → List A → List A
    insert_newest x [] = x ∷ []
    insert_newest x (y ∷ ys) =
        let rest = insert_newest x ys in if leb (time y) (time x) then x ∷ y ∷ ys else y ∷ rest

    -- `order by … desc`
    unfoldable pub newest_first : List A → List A
    newest_first [] = []
    newest_first (x ∷ xs) = insert_newest x (newest_first xs)

    -- Each row is at least as new as all that follow it.
    abbrev pub NewestFirst : List A → Type 0
    NewestFirst [] = Unit
    NewestFirst (x ∷ xs) = All (λ y. time y ≤ time x) xs × NewestFirst xs

  module _ (P : A → Type 0) where
    pub All-of : (xs : List A) → ((x : A) → Has x xs → P x) → All P xs
    All-of [] f = tt
    All-of (x ∷ xs) f = (f x (inl refl), All-of xs λ y m. f y (inr m))

    pub All-append : (xs ys : List A) → All P xs → All P ys → All P (xs ++ ys)
    All-append [] ys h g = g
    All-append (x ∷ xs) ys (p, h) g = (p, All-append xs ys h g)

    pub All-drop : (n : ℕ) (xs : List A) → All P xs → All P (drop n xs)
    unfolding drop
    All-drop zero xs h = h
    All-drop (suc n) [] h = h
    All-drop (suc n) (x ∷ xs) (p, h) = All-drop n xs h

    pub All-take : (n : ℕ) (xs : List A) → All P xs → All P (take n xs)
    unfolding take
    All-take zero xs h = tt
    All-take (suc n) [] h = h
    All-take (suc n) (x ∷ xs) (p, h) = (p, All-take n xs h)

    All-if : (b : Bool) (xs ys : List A) → All P xs → All P ys → All P (if b then xs else ys)
    All-if true xs ys h g = h
    All-if false xs ys h g = g

    pub All-distinct_rows :
        (same : A → A → Bool) (xs : List A) → All P xs → All P (distinct_rows same xs)
    unfolding distinct_rows
    All-distinct_rows same [] h = h
    All-distinct_rows same (x ∷ xs) (p, h) =
        let g = All-distinct_rows same xs h in
        All-if (any (same x) (distinct_rows same xs)) _ _ g (p, g)

    -- What is selected has the test beside what all rows have.
    pub All-select :
        (Q : A → Type 0) (test : A → Bool) (xs : List A)
        → ((x : A) → P x → test x ≡ true → Q x)
        → All P xs
        → All Q (select test xs)
    unfolding select
    All-select Q test [] f h = h
    All-select Q test (x ∷ xs) f (p, h) = elim (Bool-cases (test x)) [
      | inl hit ↦ rw (hit, select) (f x p hit, All-select Q test xs f h)
      | inr miss ↦ rw (miss, select) (All-select Q test xs f h)
    ]

    module _ (time : A → ℕ) where
      All-insert_newest : (x : A) (xs : List A) → P x → All P xs → All P (insert_newest time x xs)
      unfolding insert_newest
      All-insert_newest x [] p h = (p, h)
      All-insert_newest x (y ∷ ys) p (q, h) =
          All-if (leb (time y) (time x)) _ _ (p, (q, h)) (q, All-insert_newest x ys p h)

      pub All-newest_first : (xs : List A) → All P xs → All P (newest_first time xs)
      unfolding newest_first
      All-newest_first [] h = h
      All-newest_first (x ∷ xs) (p, h) = All-insert_newest x _ p (All-newest_first xs h)

  pub length-take-le : (n : ℕ) (xs : List A) → length (take n xs) ≤ n
  unfolding take
  length-take-le zero xs = omega arith
  length-take-le (suc n) [] = omega arith
  length-take-le (suc n) (x ∷ xs) = omega (arith, length-take-le n xs)

  module _ (time : A → ℕ) where
    All-older :
        (a b : ℕ) (xs : List A) → b ≤ a → All (λ y. time y ≤ b) xs → All (λ y. time y ≤ a) xs
    All-older a b [] le h = h
    All-older a b (x ∷ xs) le (p, h) = (omega arith, All-older a b xs le h)

    insert_newest-NewestFirst :
        (x : A) (xs : List A) → NewestFirst time xs → NewestFirst time (insert_newest time x xs)
    unfolding insert_newest
    insert_newest-NewestFirst x [] h = (tt, tt)
    insert_newest-NewestFirst x (y ∷ ys) (p, h) = elim (Bool-cases (leb (time y) (time x))) [
      | inl older ↦
          rw (older, insert_newest)
            ((ground arith, All-older (time x) (time y) ys (ground arith) p), (p, h))
      | inr newer ↦
          rw (newer, insert_newest)
            (
              All-insert_newest (λ z. time z ≤ time y) time x ys (ground arith) p,
              insert_newest-NewestFirst x ys h,
            )
    ]

    pub newest_first-NewestFirst : (xs : List A) → NewestFirst time (newest_first time xs)
    unfolding newest_first
    newest_first-NewestFirst [] = tt
    newest_first-NewestFirst (x ∷ xs) = insert_newest-NewestFirst x _ (newest_first-NewestFirst xs)

    pub drop-NewestFirst :
        (n : ℕ) (xs : List A) → NewestFirst time xs → NewestFirst time (drop n xs)
    unfolding drop
    drop-NewestFirst zero xs h = h
    drop-NewestFirst (suc n) [] h = h
    drop-NewestFirst (suc n) (x ∷ xs) (p, h) = drop-NewestFirst n xs h

    pub take-NewestFirst :
        (n : ℕ) (xs : List A) → NewestFirst time xs → NewestFirst time (take n xs)
    unfolding take
    take-NewestFirst zero xs h = tt
    take-NewestFirst (suc n) [] h = h
    take-NewestFirst (suc n) (x ∷ xs) (p, h) = (All-take _ n xs p, take-NewestFirst n xs h)

module _ {A B : Type 0} where
  pub All-map :
      (P : A → Type 0) (Q : B → Type 0) (f : A → B) (xs : List A)
      → ((x : A) → P x → Q (f x))
      → All P xs
      → All Q (map f xs)
  All-map P Q f [] g h = h
  All-map P Q f (x ∷ xs) g (p, h) = (g x p, All-map P Q f xs g h)

  pub All-concat_map :
      (P : A → Type 0) (Q : B → Type 0) (f : A → List B) (xs : List A)
      → ((x : A) → P x → All Q (f x))
      → All P xs
      → All Q (concat_map f xs)
  unfolding concat_map
  All-concat_map P Q f [] g h = h
  All-concat_map P Q f (x ∷ xs) g (p, h) =
      All-append Q (f x) _ (g x p) (All-concat_map P Q f xs g h)
