-- ===== src/Network.antt =====
-- src/network/services/network.service.ts and src/shared/constants/network-mapping.constant.ts: which
-- networks may exchange transactions, which serve the chat, and the fee of one.
pub mod Shared
pub mod Found
use nestjs_ex.Entities.{Fee, Network, NetworkFees}
use nestjs_ex.NetworkFee.{get_network_fees}
use nestjs_ex.Prelude.{
  Bool, List, Option, String, [], any, false, find_first, if◌then◌else◌, includes, nat_eq, none,
  some, text_eq, true, ℕ, ◌&&◌, ◌==◌, ◌∷◌,
}
use nestjs_ex.World.{Exec, gets, need, network_not_found, pure, ◌>>=◌, ◌>>◌}

-- `NETWORK_CHAINS`
abbrev pub network_chains : List (String × List String)
network_chains = ("polygon", "137" ∷ "80001" ∷ []) ∷ ("eurus", "1984" ∷ "1008" ∷ []) ∷ []

-- `NETWORK_GROUP`
abbrev pub network_group : List (List String)
network_group = ("polygon" ∷ "ethereum" ∷ "eurus" ∷ []) ∷ []

abbrev key_of : Option (String × List String) → Option String
key_of none = none
key_of (some (name, chains)) = some name

-- `undefined` for a chain that no network lists.
unfoldable pub get_parent_network_by_chain_id : String → Option String
get_parent_network_by_chain_id chain_id =
    key_of (find_first (λ entry. includes entry.1 chain_id) network_chains)

-- `===` on names that may be `undefined`.
abbrev pub same_name : Option String → Option String → Bool
same_name none none = true
same_name none (some b) = false
same_name (some a) none = false
same_name (some a) (some b) = a == b

-- `members.includes(name)`; a list of names does not hold `undefined`.
abbrev pub includes_name : List String → Option String → Bool
includes_name members none = false
includes_name members (some name) = includes members name

abbrev pub in_same_group : Option String → Option String → Bool
in_same_group a b =
    any (λ members. includes_name members a && includes_name members b) network_group

-- `NetworkRepository.getById`
unfoldable pub get_by_id : ℕ → Exec Network
get_by_id id = do
  found ← gets (λ w. find_first (λ n. n.id == id) w.networks)
  need found network_not_found

unfoldable pub is_shared_networks : ℕ → ℕ → Exec Bool
is_shared_networks a b = if a == b then pure true else do
  network_a ← get_by_id a
  network_b ← get_by_id b
  let parent_a = get_parent_network_by_chain_id network_a.chain_id
  let parent_b = get_parent_network_by_chain_id network_b.chain_id
  if same_name parent_a parent_b then pure true else pure (in_same_group parent_a parent_b)

-- `isNetworkUsedOnChat`
unfoldable pub is_network_used_on_chat : ℕ → Exec Bool
is_network_used_on_chat network_id = do
  network ← get_by_id network_id
  gets (λ w. includes w.env.chat_network_chain_ids network.chain_id)

-- `networkFees?.[level]`
abbrev pub fee_at : Option NetworkFees → String → Option Fee
fee_at none level = none
fee_at (some fees) level =
    if level == "fast"
    then fees.fast
    else if level == "medium"
    then fees.medium
    else if level == "slow"
    then fees.slow
    else none

-- `… || 0`
abbrev pub fee_amount : Option Fee → Fee
fee_amount none = Fee.free
fee_amount (some Fee.free) = Fee.free
fee_amount (some Fee.eurus_price) = Fee.eurus_price
fee_amount (some (Fee.quoted price)) = if price == "" then Fee.free else Fee.quoted price

-- The `feeAmount` that `getNetworkFeeByLevel` returns.
unfoldable pub get_network_fee_by_level : ℕ → String → Exec Fee
get_network_fee_by_level network_id level = do
  network ← get_by_id network_id
  fees ← get_network_fees (get_parent_network_by_chain_id network.chain_id)
  gets (λ w. fee_amount (fee_at fees (w.env.to_lower_case level)))

-- `NETWORK_DEFAULT_COIN[name]`
abbrev pub network_default_coin : Option String → Option String
network_default_coin none = none
network_default_coin (some name) =
    if name == "polygon"
    then some "Matic"
    else if name == "ethereum"
    then some "Ether"
    else if name == "eurus"
    then some "EUN"
    else none

-- The `feeSymbol` that `getNetworkFeeByLevel` returns beside the amount.
unfoldable pub get_network_fee_symbol : ℕ → Exec (Option String)
get_network_fee_symbol network_id = do
  network ← get_by_id network_id
  pure (network_default_coin (get_parent_network_by_chain_id network.chain_id))
