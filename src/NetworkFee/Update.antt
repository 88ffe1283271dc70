-- ===== src/NetworkFee/Update.antt =====
-- src/jobs/services/network-fee.service.ts: what the job leaves in Redis, and what a fee is then.
use mathlib.Core.Path.{subst}
use nestjs_ex.Entities.{Fee, GasResult, Network, NetworkFees}
use nestjs_ex.Network.{
  fee_amount, get_by_id, get_network_fee_by_level, get_parent_network_by_chain_id,
}
use nestjs_ex.NetworkFee.{
  cached_fees, fees_converter, fetch_network_fees, get_network_fees, handle_update_network_fee,
  merge_fees, merged_fees, set_fees, with_network,
}
use nestjs_ex.Prelude.{
  Bool-cases, List, Option, String, [], ap, false, find_first, if◌then◌else◌, inl, inr, nat_eq,
  none, or_else, refl, some, sym, text_eq, true, ℕ, ◌==◌, ◌∙◌, ◌∷◌, ◌≡◌, ◌⊎◌,
}
use nestjs_ex.World.{World, ok, ◌>>=◌}

abbrev pub updated : World → World
updated w = (handle_update_network_fee w).1

-- An answer with the three prices.
abbrev pub Quotes : World → String → String → String → String → Type 0
Quotes w network fast medium slow =
    w.env.gas_result network ≡ some (GasResult.gas (some fast) (some medium) (some slow))

text_trans_false : (a b c : String) → (a == b) ≡ true → (b == c) ≡ false → (a == c) ≡ false
text_trans_false a b c same miss =
    subst (λ x. (x == c) ≡ false) (sym ((text_eq.same_iff a b).0 same)) miss

-- What a key holds after it was set, and what the others hold.
cached_fees-set_fees :
    (network : String) (fees : NetworkFees) (cache : List (String × NetworkFees))
    → cached_fees (set_fees network fees cache) network ≡ some fees
unfolding set_fees
cached_fees-set_fees network fees [] = rw ((text_eq.same_iff network network).1 refl) refl
cached_fees-set_fees network fees ((name, old) ∷ cache) = elim (Bool-cases (name == network)) [
  | inl same ↦ rw (same, same) refl
  | inr other ↦ rw (other, other) (cached_fees-set_fees network fees cache)
]

cached_fees-set_fees_other :
    (network asked : String) (fees : NetworkFees) (cache : List (String × NetworkFees))
    → (network == asked) ≡ false
    → cached_fees (set_fees network fees cache) asked ≡ cached_fees cache asked
unfolding set_fees
cached_fees-set_fees_other network asked fees [] miss = rw miss refl
cached_fees-set_fees_other network asked fees ((name, old) ∷ cache) miss =
    elim (Bool-cases (name == network)) [
      | inl same ↦ rw (same, text_trans_false name network asked same miss) refl
      | inr other ↦ rw other (
          ap (λ o. if name == asked then some old else o)
            (cached_fees-set_fees_other network asked fees cache miss))
    ]

-- An answer from which the loop makes nothing.
abbrev pub IsLost : Option GasResult → Type 0
IsLost none = Unit {0}
IsLost (some GasResult.absent) = Unit {0}
IsLost _ = ⊥

lost_lem :
    (a b : Option GasResult) (cache : List (String × NetworkFees))
    → IsLost a ⊎ IsLost b
    → or_else
        (merged_fees (with_network "polygon" a (with_network "etherium" b (some []))) cache)
        cache
      ≡ cache
unfolding merge_fees
lost_lem none b cache h = refl
lost_lem (some r) none cache h = refl
lost_lem (some GasResult.absent) (some q) cache h = refl
lost_lem (some GasResult.falsy) (some GasResult.absent) cache h = refl
lost_lem (some (GasResult.gas f m s)) (some GasResult.absent) cache h = refl
lost_lem (some GasResult.falsy) (some GasResult.falsy) cache (inl h) = absurd h
lost_lem (some GasResult.falsy) (some GasResult.falsy) cache (inr h) = absurd h
lost_lem (some GasResult.falsy) (some (GasResult.gas f m s)) cache (inl h) = absurd h
lost_lem (some GasResult.falsy) (some (GasResult.gas f m s)) cache (inr h) = absurd h
lost_lem (some (GasResult.gas f m s)) (some GasResult.falsy) cache (inl h) = absurd h
lost_lem (some (GasResult.gas f m s)) (some GasResult.falsy) cache (inr h) = absurd h
lost_lem (some (GasResult.gas f m s)) (some (GasResult.gas _ _ _)) cache (inl h) = absurd h
lost_lem (some (GasResult.gas f m s)) (some (GasResult.gas _ _ _)) cache (inr h) = absurd h

-- Where the request of one of the two networks fails, or its answer has no result, the job returns and leaves the
-- state as it was: the prices that the other network may have answered are lost.
pub handle_update_network_fee-lost :
    (w : World)
    → IsLost (w.env.gas_result "polygon") ⊎ IsLost (w.env.gas_result "etherium")
    → handle_update_network_fee w ≡ (ok tt, w)
unfolding handle_update_network_fee fetch_network_fees ◌>>=◌
handle_update_network_fee-lost w h =
    ap (λ cache. (ok tt, record w { fees_cache = cache }))
      (lost_lem (w.env.gas_result "polygon") (w.env.gas_result "etherium") w.fees_cache h)

abbrev quoted_fees : String → String → String → NetworkFees
quoted_fees fast medium slow = record {
  fast = some (Fee.quoted fast);
  medium = some (Fee.quoted medium);
  slow = some (Fee.quoted slow);
}

merged_answers :
    (w : World) (f m s f' m' s' : String)
    → Quotes w "polygon" f m s
    → Quotes w "etherium" f' m' s'
    → (updated w).fees_cache
      ≡ set_fees "etherium"
          (quoted_fees f' m' s')
          (set_fees "polygon" (quoted_fees f m s) w.fees_cache)
unfolding handle_update_network_fee fetch_network_fees merge_fees fees_converter ◌>>=◌
merged_answers w f m s f' m' s' p e = rw (p, e) refl

-- The fee of a network of Polygon, from its row in Redis.
cached_fee :
    (id : ℕ) (v : World) (network : Network) (fees : NetworkFees)
    → find_first (λ n. n.id == id) v.networks ≡ some network
    → get_parent_network_by_chain_id network.chain_id ≡ some "polygon"
    → (v.env.to_lower_case "polygon" == v.env.to_lower_case "Eurus") ≡ false
    → v.env.to_lower_case "fast" ≡ "fast"
    → cached_fees v.fees_cache "polygon" ≡ some fees
    → get_network_fee_by_level id "fast" v ≡ (ok (fee_amount fees.fast), v)
unfolding get_network_fee_by_level get_by_id get_network_fees ◌>>=◌
cached_fee id v network fees found parent not_eurus fast cached =
    rw (found, parent, not_eurus, cached, fast) refl

polygon_cached :
    (w : World) (f m s f' m' s' : String)
    → Quotes w "polygon" f m s
    → Quotes w "etherium" f' m' s'
    → cached_fees (updated w).fees_cache "polygon" ≡ some (quoted_fees f m s)
polygon_cached w f m s f' m' s' p e =
    ap (λ cache. cached_fees cache "polygon") (merged_answers w f m s f' m' s' p e)
    ∙ cached_fees-set_fees_other "etherium" "polygon" (quoted_fees f' m' s') _ refl
    ∙ cached_fees-set_fees "polygon" (quoted_fees f m s) w.fees_cache

-- Where both gas trackers answer with prices, the update is followed by the new price: on a network of the chains of
-- Polygon, the fee at the level "fast" is the fast price that was answered.
pub get_network_fee_by_level-updated :
    (id : ℕ) (w : World) (network : Network) (f m s f' m' s' : String)
    → Quotes w "polygon" f m s
    → Quotes w "etherium" f' m' s'
    → find_first (λ n. n.id == id) w.networks ≡ some network
    → get_parent_network_by_chain_id network.chain_id ≡ some "polygon"
    → (w.env.to_lower_case "polygon" == w.env.to_lower_case "Eurus") ≡ false
    → w.env.to_lower_case "fast" ≡ "fast"
    → (f == "") ≡ false
    → get_network_fee_by_level id "fast" (updated w) ≡ (ok (Fee.quoted f), updated w)
unfolding handle_update_network_fee ◌>>=◌
get_network_fee_by_level-updated id w network f m s f' m' s' p e found parent not_eurus fast
      priced =
    cached_fee id (updated w) network (quoted_fees f m s) found parent not_eurus fast
      (polygon_cached w f m s f' m' s' p e)
    ∙ ap (λ fee. (ok fee, updated w)) (rw priced refl)
