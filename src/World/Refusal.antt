-- ===== src/World/Refusal.antt =====
-- Rules for a method that throws and has written nothing.
use nestjs_ex.Prelude.{Bool, Option, ap, false, none, refl, some, true, ◌∙◌, ◌≡◌}
use nestjs_ex.World.{Error, Exec, Result, World, err, gets, guard, need, ok, ◌>>=◌}

-- From the state `w`, the method throws and leaves `w` as it is.
pub record Refuses {A : Type 0} (w : World) (m : Exec A) : Type 0 where
  pub error : Error
  pub throws : m w ≡ (err error, w)

module _ {w : World} where
  pub Refuses-guard : (b : Bool) (e : Error) → b ≡ false → Refuses w (guard b e)
  unfolding guard
  Refuses-guard true e h = absurd (cc h)
  Refuses-guard false e h = record { error = e; throws = refl }

  pub Refuses-gets-bind :
      {A B : Type 0} (f : World → A) (k : A → Exec B)
      → Refuses w (k (f w))
      → Refuses w (gets f >>= k)
  unfolding ◌>>=◌
  Refuses-gets-bind f k h = record { error = h.error; throws = h.throws }

  pub Refuses-need-bind :
      {A B : Type 0} (o : Option A) (e : Error) (k : A → Exec B)
      → ((a : A) → o ≡ some a → Refuses w (k a))
      → Refuses w (need o e >>= k)
  unfolding ◌>>=◌
  Refuses-need-bind none e k h = record { error = e; throws = refl }
  Refuses-need-bind (some a) e k h =
      let r = h a refl in record { error = r.error; throws = r.throws }

  pub Refuses-guard-bind :
      {B : Type 0} (b : Bool) (e : Error) (k : Unit {0} → Exec B)
      → (b ≡ true → Refuses w (k tt))
      → Refuses w (guard b e >>= k)
  unfolding ◌>>=◌
  Refuses-guard-bind true e k h = let r = h refl in record { error = r.error; throws = r.throws }
  Refuses-guard-bind false e k h = record { error = e; throws = refl }

  pub Refuses-bind :
      {A B : Type 0} (m : Exec A) (k : A → Exec B) → Refuses w m → Refuses w (m >>= k)
  unfolding ◌>>=◌
  Refuses-bind m k h = let e = h.throws in record { error = h.error; throws = rw e refl }

  -- An action in front that writes nothing.
  pub Refuses-after :
      {A B : Type 0} (m : Exec A) (k : A → Exec B)
      → (m w).1 ≡ w
      → ((a : A) → Refuses w (k a))
      → Refuses w (m >>= k)
  unfolding ◌>>=◌
  Refuses-after {A} {B} m k same h = from (m w).0 (m w).1 refl same
    where
      from : (r : Result A) (u : World) → m w ≡ (r, u) → u ≡ w → Refuses w (m >>= k)
      from (ok a) u e s =
          let r = h a in let t = r.throws in record { error = r.error; throws = rw (e, s, t) refl }
      from (err x) u e s = record { error = x; throws = rw (e, s) refl }

-- An action in front that writes nothing, with what it returned.
pub Refuses-after_ok :
    {A B : Type 0} {w : World} (m : Exec A) (k : A → Exec B)
    → (m w).1 ≡ w
    → ((a : A) → m w ≡ (ok a, w) → Refuses w (k a))
    → Refuses w (m >>= k)
unfolding ◌>>=◌
Refuses-after_ok {A} {B} {w} m k same h = from (m w).0 (m w).1 refl same
  where
    from : (r : Result A) (u : World) → m w ≡ (r, u) → u ≡ w → Refuses w (m >>= k)
    from (ok a) u e s =
        let r = h a (e ∙ ap (λ z. (ok a, z)) s) in
        let t = r.throws in record { error = r.error; throws = rw (e, s, t) refl }
    from (err x) u e s = record { error = x; throws = rw (e, s) refl }
