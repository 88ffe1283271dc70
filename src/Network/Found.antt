-- ===== src/Network/Found.antt =====
-- src/network/repositories/network.repository.ts: what `getById` returns.
use nestjs_ex.Entities.{Network}
use nestjs_ex.Network.{get_by_id}
use nestjs_ex.Prelude.{find_first, nat_eq, some, ℕ, ◌==◌, ◌≡◌}
use nestjs_ex.World.{World, ok}
use nestjs_ex.World.Outcome.{gets-bind-ok, need-ok}

-- Reading a network changes nothing.
pub get_by_id-ok :
    (id : ℕ) (w v : World) (n : Network)
    → get_by_id id w ≡ (ok n, v)
    → (find_first (λ x. x.id == id) w.networks ≡ some n) × (v ≡ w)
unfolding get_by_id
get_by_id-ok id w v n h = need-ok _ _ w v n (gets-bind-ok _ _ w v n h)
