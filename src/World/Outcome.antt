-- ===== src/World/Outcome.antt =====
-- What a method that returned has passed: one lemma for each way to build a method.
use nestjs_ex.Prelude.{Bool, Option, ap, false, none, refl, some, sym, true, ◌≡◌}
use nestjs_ex.World.{
  Error, Exec, Result, World, continue, err, gets, guard, modify, need, ok, pure, ◌>>=◌,
}

pub err-ne-ok :
    {A : Type 0} {e : Error} {a : A} {v w : World}
    → ◌≡◌ {A = Result A × World} (err e, v) (ok a, w)
    → ⊥
err-ne-ok h = cc (ap (λ p. p.0) h)

-- Two outcomes that returned.
pub same_outcome :
    {A : Type 0} {a b : A} {v w : World}
    → ◌≡◌ {A = Result A × World} (ok a, w) (ok b, v)
    → (a ≡ b) × (v ≡ w)
same_outcome h = (cc (ap (λ p. p.0) h), sym (ap (λ p. p.1) h))

module _ {A B : Type 0} where
  -- An action in front returned, and the rest did from where it ended.
  pub bind-ok :
      (m : Exec A) (k : A → Exec B) (w v : World) (b : B)
      → (m >>= k) w ≡ (ok b, v)
      → (a : A) × (u : World) × (m w ≡ (ok a, u)) × (k a u ≡ (ok b, v))
  unfolding ◌>>=◌
  bind-ok m k w v b h = split (m w).0 (m w).1 refl h
    where
      split :
          (r : Result A) (u : World)
          → m w ≡ (r, u)
          → continue r k u ≡ (ok b, v)
          → (a : A) × (u : World) × (m w ≡ (ok a, u)) × (k a u ≡ (ok b, v))
      split (ok a) u e g = (a, u, e, g)
      split (err x) u e g = absurd (err-ne-ok g)

  pub gets-bind-ok :
      (f : World → A) (k : A → Exec B) (w v : World) (b : B)
      → (gets f >>= k) w ≡ (ok b, v)
      → k (f w) w ≡ (ok b, v)
  unfolding ◌>>=◌
  gets-bind-ok f k w v b h = h

  pub need-bind-ok :
      (o : Option A) (e : Error) (k : A → Exec B) (w v : World) (b : B)
      → (need o e >>= k) w ≡ (ok b, v)
      → (a : A) × (o ≡ some a) × (k a w ≡ (ok b, v))
  unfolding ◌>>=◌
  need-bind-ok none e k w v b h = absurd (err-ne-ok h)
  need-bind-ok (some a) e k w v b h = (a, refl, h)

module _ {B : Type 0} where
  pub guard-bind-ok :
      (c : Bool) (e : Error) (k : Unit {0} → Exec B) (w v : World) (b : B)
      → (guard c e >>= k) w ≡ (ok b, v)
      → (c ≡ true) × (k tt w ≡ (ok b, v))
  unfolding ◌>>=◌
  guard-bind-ok true e k w v b h = (refl, h)
  guard-bind-ok false e k w v b h = absurd (err-ne-ok h)

  pub modify-bind-ok :
      (f : World → World) (k : Unit {0} → Exec B) (w v : World) (b : B)
      → (modify f >>= k) w ≡ (ok b, v)
      → k tt (f w) ≡ (ok b, v)
  unfolding ◌>>=◌
  modify-bind-ok f k w v b h = h

pub need-ok :
    {A : Type 0} (o : Option A) (e : Error) (w v : World) (a : A)
    → need o e w ≡ (ok a, v)
    → (o ≡ some a) × (v ≡ w)
unfolding need
need-ok none e w v a h = absurd (err-ne-ok h)
need-ok {A} (some x) e w v a h = (ok-value h, sym (ap (λ p. p.1) h))
  where
    ok-value : ◌≡◌ {A = Result A × World} (ok x, w) (ok a, v) → some x ≡ some a
    ok-value g = cc (ap (λ p. p.0) g)

pub guard-ok :
    (c : Bool) (e : Error) (w v : World) → guard c e w ≡ (ok tt, v) → (c ≡ true) × (v ≡ w)
unfolding guard
guard-ok true e w v h = (refl, sym (ap (λ p. p.1) h))
guard-ok false e w v h = absurd (err-ne-ok h)

pub pure-ok : {A : Type 0} (a b : A) (w v : World) → pure a w ≡ (ok b, v) → (a ≡ b) × (v ≡ w)
unfolding pure
pure-ok a b w v h = (cc (ap (λ p. p.0) h), sym (ap (λ p. p.1) h))
