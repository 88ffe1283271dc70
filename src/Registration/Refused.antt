-- ===== src/Registration/Refused.antt =====
-- src/auth/services/auth.service.ts, lines 107 to 147: when `register` throws before it writes.
use mathlib.Core.Path.{subst}
use nestjs_ex.Entities.{KmsDataKey}
use nestjs_ex.Prelude.{String, ap, inl, inr, refl, true, ℕ, ◌∙◌, ◌≡◌, ◌⊎◌}
use nestjs_ex.Registration.{RegisterInput, check_registration, register}
use nestjs_ex.Registration.Steps.{
  MayRegister, check_registration-At, check_registration-ok, with_keys,
}
use nestjs_ex.Secrets.{check_address}
use nestjs_ex.Store.{Table}
use nestjs_ex.World.{Error, Result, World, err, ok}
use nestjs_ex.World.Laws.{At}
use nestjs_ex.World.Running.{bind-throws}

abbrev pub MayNotRegister : RegisterInput → World → Type 0
MayNotRegister input w =
    (¬ (input.password ≡ input.confirm_password)) ⊎ (check_address input.wallet_address w ≡ true)

never : (input : RegisterInput) (w : World) → MayNotRegister input w → MayRegister input w → ⊥
never input w (inl differ) may = differ may.0
never input w (inr used) may = cc (used, may.1)

-- Where the two passwords differ, or a wallet has the address in any spelling of its letters, `register` throws, and
-- the state is as before, apart from a data key that the checks may have made.
pub register-refused :
    (fuel : ℕ) (input : RegisterInput) (w : World)
    → MayNotRegister input w
    → (e : Error) × (keys : Table KmsDataKey) × (register fuel input w
        ≡ (err e, record w { data_keys = keys }))
unfolding register
register-refused fuel input w reason =
    split (check_registration fuel input w).0 (check_registration fuel input w).1 refl
  where
    split :
        (r : Result String) (u : World)
        → check_registration fuel input w ≡ (r, u)
        → (e : Error) × (keys : Table KmsDataKey) × (register fuel input w
            ≡ (err e, record w { data_keys = keys }))
    split (ok name) u h =
        absurd (never input w reason (check_registration-ok fuel input w u name h).0)
    split (err e) u h =
        let u_is : (check_registration fuel input w).1 ≡ u =
          ap (λ (z : Result String × World). z.1) h in
        let same : u ≡ with_keys u.data_keys w =
          subst (λ z. z ≡ with_keys z.data_keys w) u_is
            (At.holds (check_registration-At {w = w} fuel input)) in
        (
          e,
          u.data_keys,
          bind-throws (check_registration fuel input) _ e w u h ∙ ap (λ z. (err e, z)) same,
        )
