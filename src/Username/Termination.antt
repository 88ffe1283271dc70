-- ===== src/Username/Termination.antt =====
-- src/auth/services/auth.service.ts, lines 81 to 97: the loop ends once a draw is new.
use mathlib.Core.Path.{subst}
use nestjs_ex.Prelude.{
  Bool-cases, ap, arith, false, inl, inr, some, suc, true, zero, ℕ, ◌+◌, ◌-◌, ◌<◌, ◌∙◌, ◌≡◌, ◌≤◌,
}
use nestjs_ex.Username.{does_username_exist, draw_username}
use nestjs_ex.World.{World}

-- No user has the n-th draw.
abbrev pub IsFresh : ℕ → World → Type 0
IsFresh n w = does_username_exist (w.env.random_word n) w ≡ false

abbrev pub IsTaken : ℕ → World → Type 0
IsTaken n w = does_username_exist (w.env.random_word n) w ≡ true

positive : (n j : ℕ) (w : World) → IsTaken n w → IsFresh (n + j) w → 0 < j
positive n zero w taken fresh =
    let fresh_now : IsFresh n w = subst (λ m. IsFresh m w) (omega arith) fresh in
    absurd (cc (taken, fresh_now))
positive n (suc j) w taken fresh = omega arith

-- The draws before the next one, with the first of them in front.
draws_before :
    (n k : ℕ) (w : World)
    → IsTaken n w
    → ((i : ℕ) → i < k → IsTaken (suc n + i) w)
    → (i : ℕ) → i < suc k
    → IsTaken (n + i) w
draws_before n k w taken before zero l = subst (λ m. IsTaken m w) (omega arith) taken
draws_before n k w taken before (suc i) l =
    subst (λ m. IsTaken m w) (omega arith) (before i (omega arith))

-- Where one of the draws that the fuel allows is a name that no user has, the loop returns, and it returns
-- the first such draw: every draw before it is taken.
pub draw_username-first :
    (fuel n j : ℕ) (w : World)
    → j < fuel
    → IsFresh (n + j) w
    → (k : ℕ) × (k ≤ j)
      × (draw_username fuel n w ≡ some (w.env.random_word (n + k)))
      × IsFresh (n + k) w
      × ((i : ℕ) → i < k → IsTaken (n + i) w)
unfolding draw_username
draw_username-first zero n j w h fresh = absurd (omega arith)
draw_username-first (suc fuel) n j w h fresh =
    elim (Bool-cases (does_username_exist (w.env.random_word n) w)) [
      | inl taken ↦
          let p : 0 < j = positive n j w taken fresh in
          let fresh' : IsFresh (suc n + (j - 1)) w =
            subst (λ m. IsFresh m w) (omega (arith, p)) fresh in
          let (k, le, e, new, before) =
            draw_username-first fuel (suc n) (j - 1) w (omega (arith, p)) fresh' in
          let next : suc n + k ≡ n + suc k = omega arith in
          (
            suc k,
            omega (arith, p),
            rw taken (e ∙ ap (λ m. some (w.env.random_word m)) next),
            subst (λ m. IsFresh m w) next new,
            draws_before n k w taken before,
          )
      | inr new ↦ (
        0,
        omega arith,
        rw new (ap (λ m. some (w.env.random_word m)) (omega arith)),
        subst (λ m. IsFresh m w) (omega arith) new,
        λ i l. absurd (omega arith),
      )
    ]
