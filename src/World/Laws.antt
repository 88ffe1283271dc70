-- ===== src/World/Laws.antt =====
-- Rules for what a method does to the state: one for each way to build a method, at a given state, so
-- that the rest of a method may use what was read and tested before it.
use nestjs_ex.Prelude.{
  Bool, List, Option, [], false, if◌then◌else◌, none, refl, some, true, ◌∷◌, ◌≡◌,
}
use nestjs_ex.World.{
  Error, Exec, Result, World, continue, err, for_each, gets, guard, modify, need, not_awaited, ok,
  pure, raise, ◌>>=◌,
}

-- A relation of states that a run of several actions composes.
pub record Frame : Type 1 where
  pub Rel : World → World → Type 0
  pub same : (w : World) → Rel w w
  pub trans : (u v w : World) → Rel u v → Rel v w → Rel u w

-- From the state `w`, the action `m` ends in a related state, whether it returns or throws.
pub record At {A : Type 0} (F : Frame) (w : World) (m : Exec A) : Type 0 where
  pub holds : Frame.Rel F w (m w).1

module _ {F : Frame} {w : World} where
  pub At-pure : {A : Type 0} (a : A) → At F w (pure a)
  unfolding pure
  At-pure a = record { holds = Frame.same F w }

  pub At-raise : {A : Type 0} (e : Error) → At F w (raise {A = A} e)
  unfolding raise
  At-raise e = record { holds = Frame.same F w }

  pub At-gets : {A : Type 0} (f : World → A) → At F w (gets f)
  unfolding gets
  At-gets f = record { holds = Frame.same F w }

  pub At-need : {A : Type 0} (o : Option A) (e : Error) → At F w (need o e)
  unfolding need
  At-need none e = record { holds = Frame.same F w }
  At-need (some a) e = record { holds = Frame.same F w }

  pub At-modify : (f : World → World) → Frame.Rel F w (f w) → At F w (modify f)
  unfolding modify
  At-modify f h = record { holds = h }

  pub At-guard : (b : Bool) (e : Error) → At F w (guard b e)
  unfolding guard
  At-guard true e = record { holds = Frame.same F w }
  At-guard false e = record { holds = Frame.same F w }

  pub At-if :
      {A : Type 0} (b : Bool) {m n : Exec A}
      → (b ≡ true → At F w m)
      → (b ≡ false → At F w n)
      → At F w (if b then m else n)
  At-if true hm hn = hm refl
  At-if false hm hn = hn refl

  -- The rest of the method knows what was read.
  pub At-gets-bind :
      {A B : Type 0} (f : World → A) (k : A → Exec B) → At F w (k (f w)) → At F w (gets f >>= k)
  unfolding ◌>>=◌
  At-gets-bind f k h = record { holds = h.holds }

  pub At-need-bind :
      {A B : Type 0} (o : Option A) (e : Error) (k : A → Exec B)
      → ((a : A) → o ≡ some a → At F w (k a))
      → At F w (need o e >>= k)
  unfolding ◌>>=◌
  At-need-bind none e k h = record { holds = Frame.same F w }
  At-need-bind (some a) e k h = record { holds = (h a refl).holds }

  pub At-guard-bind :
      {B : Type 0} (b : Bool) (e : Error) (k : Unit {0} → Exec B)
      → (b ≡ true → At F w (k tt))
      → At F w (guard b e >>= k)
  unfolding ◌>>=◌
  At-guard-bind true e k h = record { holds = (h refl).holds }
  At-guard-bind false e k h = record { holds = Frame.same F w }

At-continue :
    {F : Frame} {A B : Type 0} (w v : World) (r : Result A) (k : A → Exec B)
    → Frame.Rel F w v
    → ((a : A) (u : World) → At F u (k a))
    → Frame.Rel F w (continue r k v).1
At-continue {F} w v (ok a) k h hk = Frame.trans F w v _ h (hk a v).holds
At-continue w v (err e) k h hk = h

-- After an action that is not a plain read, the rest may start from any state.
pub At-bind :
    {F : Frame} {w : World} {A B : Type 0} (m : Exec A) (k : A → Exec B)
    → At F w m
    → ((a : A) (u : World) → At F u (k a))
    → At F w (m >>= k)
unfolding ◌>>=◌
At-bind {F} {w} m k hm hk = record { holds = At-continue {F = F} w (m w).1 (m w).0 k hm.holds hk }

pub At-for_each :
    {F : Frame} {A B : Type 0} (bs : List B) (f : B → Exec A)
    → ((b : B) (u : World) → At F u (f b))
    → (w : World) → At F w (for_each bs f)
unfolding for_each
At-for_each [] f h w = At-pure []
At-for_each (b ∷ bs) f h w =
    At-bind _ _ (h b w) λ a u. At-bind _ _ (At-for_each bs f h u) λ as' v. At-pure _

pub At-not_awaited :
    {F : Frame} {w : World} (m : Exec (Unit {0})) → At F w m → At F w (not_awaited m)
unfolding not_awaited
At-not_awaited m h = record { holds = h.holds }

continue-pure-state :
    {A B : Type 0} (r : Result A) (f : A → B) (w : World) → (continue r (λ a. pure (f a)) w).1 ≡ w
unfolding pure
continue-pure-state (ok a) f w = refl
continue-pure-state (err e) f w = refl

-- The state after a round that did not throw is where the next round starts.
pub for_each-cons-state :
    {A B : Type 0} (b : B) (bs : List B) (f : B → Exec A) (a : A) (w : World)
    → (f b w).0 ≡ ok a
    → (for_each (b ∷ bs) f w).1 ≡ (for_each bs f (f b w).1).1
unfolding for_each ◌>>=◌
for_each-cons-state b bs f a w e = rw e (continue-pure-state _ (λ as'. a ∷ as') _)
