-- ===== src/World/Agreement.antt =====
-- Two states between which an action makes no difference: in both it gives the same result and writes nothing.
use nestjs_ex.Prelude.{Bool, Option, ap, false, none, refl, some, sym, true, ◌∙◌, ◌≡◌}
use nestjs_ex.World.{Error, Exec, Result, World, err, gets, guard, need, ok, pure, ◌>>=◌}

pub record Agrees {A : Type 0} (v z : World) (m : Exec A) : Type 0 where
  pub result : Result A
  pub here : m v ≡ (result, v)
  pub there : m z ≡ (result, z)

module _ {v z : World} where
  pub Agrees-pure : {A : Type 0} (a : A) → Agrees v z (pure a)
  unfolding pure
  Agrees-pure a = record { result = ok a; here = refl; there = refl }

  pub Agrees-need : {A : Type 0} (o : Option A) (e : Error) → Agrees v z (need o e)
  unfolding need
  Agrees-need none e = record { result = err e; here = refl; there = refl }
  Agrees-need (some a) e = record { result = ok a; here = refl; there = refl }

  pub Agrees-gets : {A : Type 0} (f : World → A) → f z ≡ f v → Agrees v z (gets f)
  unfolding gets
  Agrees-gets f same = record { result = ok (f v); here = refl; there = rw same refl }

  pub Agrees-gets-bind :
      {A B : Type 0} (f : World → A) (k : A → Exec B)
      → f z ≡ f v
      → Agrees v z (k (f v))
      → Agrees v z (gets f >>= k)
  unfolding ◌>>=◌
  Agrees-gets-bind f k same h = record {
    result = h.result;
    here = h.here;
    there = let e = h.there in rw same e;
  }

  pub Agrees-guard-bind :
      {B : Type 0} (b : Bool) (e : Error) (k : Unit {0} → Exec B)
      → Agrees v z (k tt)
      → Agrees v z (guard b e >>= k)
  unfolding ◌>>=◌
  Agrees-guard-bind true e k h = record { result = h.result; here = h.here; there = h.there }
  Agrees-guard-bind false e k h = record { result = err e; here = refl; there = refl }

  pub Agrees-need-bind :
      {A B : Type 0} (o : Option A) (e : Error) (k : A → Exec B)
      → ((a : A) → Agrees v z (k a))
      → Agrees v z (need o e >>= k)
  unfolding ◌>>=◌
  Agrees-need-bind none e k h = record { result = err e; here = refl; there = refl }
  Agrees-need-bind (some a) e k h =
      let r = h a in record { result = r.result; here = r.here; there = r.there }

  pub Agrees-bind :
      {A B : Type 0} (m : Exec A) (k : A → Exec B)
      → Agrees v z m
      → ((a : A) → Agrees v z (k a))
      → Agrees v z (m >>= k)
  unfolding ◌>>=◌
  Agrees-bind {A} {B} m k hm hk = from hm.result hm.here hm.there
    where
      from : (r : Result A) → m v ≡ (r, v) → m z ≡ (r, z) → Agrees v z (m >>= k)
      from (ok a) e f =
          let r = hk a in
          let x = r.here in
          let y = r.there in record { result = r.result; here = rw e x; there = rw f y }
      from (err x) e f = record { result = err x; here = rw e refl; there = rw f refl }

-- What it returns in the one state, it returns in the other.
pub Agrees-ok :
    {A : Type 0} {v z : World} (m : Exec A) (a : A)
    → Agrees v z m
    → m v ≡ (ok a, v)
    → m z ≡ (ok a, z)
Agrees-ok {A} {v} {z} m a h e =
    h.there
    ∙ ap {A = Result A} (λ r. (r, z)) (ap (λ (p : Result A × World). p.0) (sym (h.here) ∙ e))
