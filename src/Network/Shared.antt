-- ===== src/Network/Shared.antt =====
-- src/network/services/network.service.ts: the relation that `isSharedNetworks` decides.
use nestjs_ex.Entities.{Network}
use nestjs_ex.Network.{
  get_by_id, get_parent_network_by_chain_id, in_same_group, is_shared_networks, same_name,
}
use nestjs_ex.Prelude.{
  Bool, Bool-cases, Option, Option-cases, String, arith, false, find_first, if◌then◌else◌, includes,
  inl, inr, nat_eq, none, not, refl, some, sym, text_eq, true, ℕ, ◌==◌, ◌||◌, ◌∙◌, ◌≡◌, ◌≢◌, ◌⊎◌,
}
use nestjs_ex.World.{World, err, network_not_found, ok, pure, ◌>>=◌}

-- The chain stands in `NETWORK_CHAINS`.
abbrev pub is_listed : String → Bool
is_listed chain_id =
    ("137" == chain_id) || ("80001" == chain_id) || ("1984" == chain_id) || ("1008" == chain_id)

parent_listed :
    (c : String)
    → is_listed c ≡ true
    → (get_parent_network_by_chain_id c ≡ some "polygon")
      ⊎ (get_parent_network_by_chain_id c ≡ some "eurus")
unfolding get_parent_network_by_chain_id find_first includes
parent_listed c h = ground arith

parent_not_listed : (c : String) → is_listed c ≡ false → get_parent_network_by_chain_id c ≡ none
unfolding get_parent_network_by_chain_id find_first includes
parent_not_listed c h = ground arith

-- `parentA === parentB || areParentNetworksInSameGroup`
abbrev shared_parents : Option String → Option String → Bool
shared_parents a b = if same_name a b then true else in_same_group a b

same_parent_lem :
    (a b : String)
    → shared_parents (get_parent_network_by_chain_id a) (get_parent_network_by_chain_id b)
      ≡ (if is_listed a then is_listed b else not (is_listed b))
unfolding includes
same_parent_lem a b = elim (Bool-cases (is_listed a)) [
  | inl la ↦ elim (Bool-cases (is_listed b)) [
    | inl lb ↦ ground (arith, parent_listed a la, parent_listed b lb)
    | inr lb ↦ ground (arith, parent_listed a la, parent_not_listed b lb)
  ]
  | inr la ↦ elim (Bool-cases (is_listed b)) [
    | inl lb ↦ ground (arith, parent_not_listed a la, parent_listed b lb)
    | inr lb ↦ ground (arith, parent_not_listed a la, parent_not_listed b lb)
  ]
]

swap_lem :
    (a b : String)
    → shared_parents (get_parent_network_by_chain_id a) (get_parent_network_by_chain_id b)
      ≡ shared_parents (get_parent_network_by_chain_id b) (get_parent_network_by_chain_id a)
swap_lem a b = same_parent_lem a b ∙ ground arith ∙ sym (same_parent_lem b a)

get_by_id-some :
    (id : ℕ) (n : Network) (w : World)
    → find_first (λ n. n.id == id) w.networks ≡ some n
    → get_by_id id w ≡ (ok n, w)
unfolding get_by_id ◌>>=◌
get_by_id-some id n w e = rw e

get_by_id-none :
    (id : ℕ) (w : World)
    → find_first (λ n. n.id == id) w.networks ≡ none
    → get_by_id id w ≡ (err network_not_found, w)
unfolding get_by_id ◌>>=◌
get_by_id-none id w e = rw e

if_pure :
    (b c : Bool) (w : World) → (if b then pure true else pure c) w ≡ (ok (if b then true else c), w)
unfolding pure
if_pure true c w = refl
if_pure false c w = refl

is_shared_networks_found :
    (a b : ℕ) (na nb : Network) (w : World)
    → (a == b) ≡ false
    → get_by_id a w ≡ (ok na, w)
    → get_by_id b w ≡ (ok nb, w)
    → is_shared_networks a b w ≡ (
      ok (
          shared_parents
            (get_parent_network_by_chain_id na.chain_id)
            (get_parent_network_by_chain_id nb.chain_id)),
      w,
    )
unfolding is_shared_networks ◌>>=◌
is_shared_networks_found a b na nb w ne fa fb = rw (ne, fa, fb) (if_pure _ _ w)

-- Two different networks that exist may exchange transactions exactly when both of their chains are
-- listed in `NETWORK_CHAINS` or neither is; the call changes nothing.
pub is_shared_networks_iff_listed :
    (a b : ℕ) (na nb : Network) (w : World)
    → a ≢ b
    → find_first (λ n. n.id == a) w.networks ≡ some na
    → find_first (λ n. n.id == b) w.networks ≡ some nb
    → is_shared_networks a b w ≡ (
      ok (if is_listed na.chain_id then is_listed nb.chain_id else not (is_listed nb.chain_id)),
      w,
    )
is_shared_networks_iff_listed a b na nb w ne fa fb =
    is_shared_networks_found a b na nb w (ground arith) (get_by_id-some a na w fa)
      (get_by_id-some b nb w fb)
    ∙ rw (same_parent_lem na.chain_id nb.chain_id) refl

nat_beq_comm : (a b : ℕ) → (a == b) ≡ (b == a)
nat_beq_comm a b = ground arith

is_shared_networks_missing :
    (a b : ℕ) (w : World)
    → (a == b) ≡ false
    → get_by_id a w ≡ (err network_not_found, w)
    → is_shared_networks a b w ≡ (err network_not_found, w)
unfolding is_shared_networks ◌>>=◌
is_shared_networks_missing a b w ne fa = rw (ne, fa) refl

is_shared_networks_missing_second :
    (a b : ℕ) (na : Network) (w : World)
    → (a == b) ≡ false
    → get_by_id a w ≡ (ok na, w)
    → get_by_id b w ≡ (err network_not_found, w)
    → is_shared_networks a b w ≡ (err network_not_found, w)
unfolding is_shared_networks ◌>>=◌
is_shared_networks_missing_second a b na w ne fa fb = rw (ne, fa, fb) refl

-- A network is found, or the call throws.
get_by_id_cases :
    (id : ℕ) (w : World)
    → (get_by_id id w ≡ (err network_not_found, w)) ⊎ ((n : Network) × (get_by_id id w ≡ (ok n, w)))
get_by_id_cases id w = elim (Option-cases (find_first (λ n. n.id == id) w.networks)) [
  | inl e ↦ inl (get_by_id-none id w e)
  | inr (n, e) ↦ inr (n, get_by_id-some id n w e)
]

same_id_shared : (a b : ℕ) (w : World) → (a == b) ≡ true → is_shared_networks a b w ≡ (ok true, w)
unfolding is_shared_networks ◌>>=◌
same_id_shared a b w e = rw e refl

-- Whether two networks are shared, and what the call throws, does not depend on their order.
pub is_shared_networks_comm :
    (a b : ℕ) (w : World) → is_shared_networks a b w ≡ is_shared_networks b a w
is_shared_networks_comm a b w = elim (Bool-cases (a == b)) [
  | inl e ↦ same_id_shared a b w e ∙ sym (same_id_shared b a w (sym (nat_beq_comm a b) ∙ e))
  | inr ne ↦ elim (get_by_id_cases a w) [
    | inl ea ↦ elim (get_by_id_cases b w) [
      | inl eb ↦
          is_shared_networks_missing a b w ne ea
          ∙ sym (is_shared_networks_missing b a w (sym (nat_beq_comm a b) ∙ ne) eb)
      | inr (nb, eb) ↦
          is_shared_networks_missing a b w ne ea
          ∙ sym (is_shared_networks_missing_second b a nb w (sym (nat_beq_comm a b) ∙ ne) eb ea)
    ]
    | inr (na, ea) ↦ elim (get_by_id_cases b w) [
      | inl eb ↦
          is_shared_networks_missing_second a b na w ne ea eb
          ∙ sym (is_shared_networks_missing b a w (sym (nat_beq_comm a b) ∙ ne) eb)
      | inr (nb, eb) ↦
          is_shared_networks_found a b na nb w ne ea eb
          ∙ rw (swap_lem na.chain_id nb.chain_id) refl
          ∙ sym (is_shared_networks_found b a nb na w (sym (nat_beq_comm a b) ∙ ne) eb ea)
    ]
  ]
]
