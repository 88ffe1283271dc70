-- ===== src/Store/Keyed.antt =====
-- Primary keys: distinct and below the counter, so that a row is known by its key; and how a table's rows
-- evolve, each in its place.
use mathlib.Core.Path.{subst}
use nestjs_ex.Prelude.{
  All, Bool, Bool-cases, Has, List, [], ap, arith, inl, inr, refl, suc, sym, true, ℕ, ◌++◌, ◌<◌,
  ◌∙◌, ◌∷◌, ◌≡◌, ◌≢◌, ◌⊎◌,
}
use nestjs_ex.Store.{update_where}

module _ {A : Type 0} (id_of : A → ℕ) where
  -- Distinct keys, all below the counter.
  abbrev pub Keyed : ℕ → List A → Type 0
  Keyed n [] = Unit {0}
  Keyed n (x ∷ xs) = (id_of x < n) × All (λ y. id_of y ≢ id_of x) xs × Keyed n xs

  All-Has : (P : A → Type 0) (xs : List A) (x : A) → All P xs → Has x xs → P x
  All-Has P [] x a m = absurd m
  All-Has P (y ∷ ys) x a (inl e) = subst P e a.0
  All-Has P (y ∷ ys) x a (inr m) = All-Has P ys x a.1 m

  -- A key names one row.
  pub Keyed-unique :
      (n : ℕ) (xs : List A) (x y : A) → Keyed n xs → Has x xs → Has y xs → id_of x ≡ id_of y → x ≡ y
  Keyed-unique n [] x y k hx hy e = absurd hx
  Keyed-unique n (z ∷ zs) x y k (inl p) (inl q) e = sym p ∙ q
  Keyed-unique n (z ∷ zs) x y k (inl p) (inr hy) e =
      absurd (All-Has _ zs y k.1 hy (sym e ∙ ap id_of (sym p)))
  Keyed-unique n (z ∷ zs) x y k (inr hx) (inl q) e =
      absurd (All-Has _ zs x k.1 hx (e ∙ ap id_of (sym q)))
  Keyed-unique n (z ∷ zs) x y k (inr hx) (inr hy) e = Keyed-unique n zs x y k.2 hx hy e

  All-ne-append :
      (n : ℕ) (i : ℕ) (xs : List A) (x : A)
      → All (λ y. id_of y ≢ i) xs
      → id_of x ≢ i
      → All (λ y. id_of y ≢ i) (xs ++ x ∷ [])
  All-ne-append n i [] x a h = (h, tt)
  All-ne-append n i (y ∷ ys) x a h = (a.0, All-ne-append n i ys x a.1 h)

  -- A row with the counter as its key keeps the keys distinct.
  pub Keyed-append :
      (n : ℕ) (xs : List A) (x : A) → id_of x ≡ n → Keyed n xs → Keyed (suc n) (xs ++ x ∷ [])
  Keyed-append n [] x e k = (omega arith, tt, tt)
  Keyed-append n (y ∷ ys) x e k =
      (omega arith, All-ne-append n (id_of y) ys x k.1 (omega arith), Keyed-append n ys x e k.2)

  All-ne-update :
      (i : ℕ) (p : A → Bool) (f : A → A) (xs : List A)
      → ((x : A) → p x ≡ true → id_of (f x) ≡ id_of x)
      → All (λ y. id_of y ≢ i) xs
      → All (λ y. id_of y ≢ i) (update_where p f xs)
  unfolding update_where
  All-ne-update i p f [] h a = tt
  All-ne-update i p f (y ∷ ys) h a = elim (Bool-cases (p y)) [
    | inl hit ↦ rw hit ((λ e. a.0 (sym (h y hit) ∙ e)), All-ne-update i p f ys h a.1)
    | inr miss ↦ rw miss (a.0, All-ne-update i p f ys h a.1)
  ]

  -- A change that keeps the key of each row keeps them distinct.
  pub Keyed-update_where :
      (n : ℕ) (p : A → Bool) (f : A → A) (xs : List A)
      → ((x : A) → p x ≡ true → id_of (f x) ≡ id_of x)
      → Keyed n xs
      → Keyed n (update_where p f xs)
  unfolding update_where
  Keyed-update_where n p f [] h k = tt
  Keyed-update_where n p f (y ∷ ys) h k = elim (Bool-cases (p y)) [
    | inl hit ↦
        rw (hit, h y hit)
          (k.0, All-ne-update (id_of y) p f ys h k.1, Keyed-update_where n p f ys h k.2)
    | inr miss ↦
        rw miss (k.0, All-ne-update (id_of y) p f ys h k.1, Keyed-update_where n p f ys h k.2)
  ]

-- Each row of the first list stands in its place in the second, moved by `R`; new rows may follow.
module _ {A : Type 0} (R : A → A → Type 0) where
  abbrev pub Evolves : List A → List A → Type 0
  Evolves [] ys = Unit {0}
  Evolves (x ∷ xs) [] = ⊥
  Evolves (x ∷ xs) (y ∷ ys) = R x y × Evolves xs ys

  pub Evolves-same : ((x : A) → R x x) → (xs : List A) → Evolves xs xs
  Evolves-same r [] = tt
  Evolves-same r (x ∷ xs) = (r x, Evolves-same r xs)

  pub Evolves-trans :
      ((x y z : A) → R x y → R y z → R x z)
      → (xs ys zs : List A) → Evolves xs ys
      → Evolves ys zs
      → Evolves xs zs
  Evolves-trans t [] ys zs p q = tt
  Evolves-trans t (x ∷ xs) [] zs p q = absurd p
  Evolves-trans t (x ∷ xs) (y ∷ ys) [] p q = absurd q
  Evolves-trans t (x ∷ xs) (y ∷ ys) (z ∷ zs) p q =
      (t x y z p.0 q.0, Evolves-trans t xs ys zs p.1 q.1)

  pub Evolves-append : ((x : A) → R x x) → (xs ys : List A) → Evolves xs (xs ++ ys)
  Evolves-append r [] ys = tt
  Evolves-append r (x ∷ xs) ys = (r x, Evolves-append r xs ys)

  pub Evolves-update_where :
      ((x : A) → R x x)
      → (p : A → Bool) (f : A → A) (xs : List A) → ((x : A) → Has x xs → p x ≡ true → R x (f x))
      → Evolves xs (update_where p f xs)
  unfolding update_where
  Evolves-update_where r p f [] h = tt
  Evolves-update_where r p f (y ∷ ys) h = elim (Bool-cases (p y)) [
    | inl hit ↦ rw hit (h y (inl refl) hit, Evolves-update_where r p f ys (λ x m. h x (inr m)))
    | inr miss ↦ rw miss (r y, Evolves-update_where r p f ys (λ x m. h x (inr m)))
  ]

-- A row of the updated list is a rewritten row or an old one.
pub Has-update_where :
    {A : Type 0} (p : A → Bool) (f : A → A) (xs : List A) (y : A)
    → Has y (update_where p f xs)
    → (x : A) × Has x xs × (((p x ≡ true) × (f x ≡ y)) ⊎ (x ≡ y))
unfolding update_where
Has-update_where p f [] y m = absurd m
Has-update_where p f (x ∷ xs) y (inl e) = elim (Bool-cases (p x)) [
  | inl hit ↦ (x, inl refl, inl (hit, rw hit at e))
  | inr miss ↦ (x, inl refl, inr (rw miss at e))
]
Has-update_where p f (x ∷ xs) y (inr m) =
    let (z, hz, c) = Has-update_where p f xs y m in (z, inr hz, c)
