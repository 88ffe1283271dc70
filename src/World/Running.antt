-- ===== src/World/Running.antt =====
-- A method whose parts are known to return: one equation for each way to build a method.
use nestjs_ex.Prelude.{Bool, Option, refl, some, true, ◌≡◌}
use nestjs_ex.World.{Error, Exec, World, err, gets, guard, need, ok, ◌>>=◌}

module _ {A B : Type 0} where
  pub bind-run :
      (m : Exec A) (k : A → Exec B) (a : A) (w u : World) → m w ≡ (ok a, u) → (m >>= k) w ≡ k a u
  unfolding ◌>>=◌
  bind-run m k a w u e = rw e refl

  pub bind-throws :
      (m : Exec A) (k : A → Exec B) (x : Error) (w u : World)
      → m w ≡ (err x, u)
      → (m >>= k) w ≡ (err x, u)
  unfolding ◌>>=◌
  bind-throws m k x w u e = rw e refl

  pub gets-bind-run : (f : World → A) (k : A → Exec B) (w : World) → (gets f >>= k) w ≡ k (f w) w
  unfolding ◌>>=◌
  gets-bind-run f k w = refl

  pub need-bind-run :
      (o : Option A) (e : Error) (k : A → Exec B) (a : A) (w : World)
      → o ≡ some a
      → (need o e >>= k) w ≡ k a w
  unfolding ◌>>=◌
  need-bind-run o e k a w h = rw h refl

pub guard-bind-run :
    {B : Type 0} (b : Bool) (e : Error) (k : Unit {0} → Exec B) (w : World)
    → b ≡ true
    → (guard b e >>= k) w ≡ k tt w
unfolding ◌>>=◌
guard-bind-run b e k w h = rw h refl

pub need-run :
    {A : Type 0} (o : Option A) (e : Error) (a : A) (w : World)
    → o ≡ some a
    → need o e w ≡ (ok a, w)
unfolding need
need-run o e a w h = rw h refl
