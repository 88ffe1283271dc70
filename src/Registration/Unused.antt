-- ===== src/Registration/Unused.antt =====
-- src/auth/services/auth.service.ts, lines 125 to 134: what the check of the private key found.
use mathlib.Core.Path.{subst}
use nestjs_ex.Prelude.{Option, String, is_some, none, not, refl, some, sym, true, ℕ, ◌∙◌, ◌≡◌}
use nestjs_ex.Registration.{RegisterInput, check_private_key, check_registration}
use nestjs_ex.Secrets.{find_user_wallet_by_private_key, seal, wallet_of_key}
use nestjs_ex.Secrets.Again.{SealedBy, seal-SealedBy}
use nestjs_ex.Sender.{truthy}
use nestjs_ex.World.{World, gets, ok}
use nestjs_ex.World.Outcome.{bind-ok, gets-bind-ok, guard-bind-ok, guard-ok, need-ok, same_outcome}

-- No wallet has the private key, as it is or as KMS encrypts it.
abbrev pub KeyUnused : String → World → Type 0
KeyUnused key w = (r : Option (String × ℕ)) × SealedBy key r w × (wallet_of_key key r w ≡ none)

is_none : {A : Type 0} (o : Option A) → not (is_some o) ≡ true → o ≡ none
is_none none h = refl
is_none (some a) h = absurd (cc h)

check_private_key-KeyUnused :
    (key : String) (w v : World) → check_private_key (some key) w ≡ (ok tt, v) → KeyUnused key v
unfolding check_private_key find_user_wallet_by_private_key gets
check_private_key-KeyUnused key w v h =
    let (wallet, u, hf, h1) = bind-ok (find_user_wallet_by_private_key key) _ w v tt h in
    let (r, u1, hs, h2) = bind-ok (seal key) (λ s. gets (wallet_of_key key s)) w u wallet hf in
    let (found_is, u_is) = same_outcome h2 in
    let (unused, v_is) = guard-ok _ _ u v h1 in
    let sealed = seal-SealedBy key r w u1 hs in
    subst (KeyUnused key) (sym (v_is ∙ u_is)) (r, sealed, found_is ∙ is_none wallet unused)

pub check_registration-KeyUnused :
    (fuel : ℕ) (input : RegisterInput) (w v : World) (username : String)
    → truthy (some input.private_key) ≡ some input.private_key
    → check_registration fuel input w ≡ (ok username, v)
    → KeyUnused input.private_key v
unfolding check_registration
check_registration-KeyUnused fuel input w v username present h =
    let (_, h1) = guard-bind-ok _ _ _ w v username h in
    let (_, u, _, h2) = bind-ok _ _ w v username h1 in
    let (_, u1, hk, h3) =
      bind-ok (check_private_key (truthy (some input.private_key))) _ u v username h2 in
    let (_, h4) = guard-bind-ok _ _ _ u1 v username (gets-bind-ok _ _ u1 v username h3) in
    let (_, v_is) = need-ok _ _ u1 v username (gets-bind-ok _ _ u1 v username h4) in
    subst (KeyUnused input.private_key) (sym v_is) (
      check_private_key-KeyUnused input.private_key u u1
        (subst (λ k. check_private_key k u ≡ (ok tt, u1)) present hk))
