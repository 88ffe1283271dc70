-- ===== src/NetworkFee.antt =====
-- src/jobs/services/network-fee.service.ts: the fees of the networks, which a job reads from the gas trackers
-- once a minute and keeps in Redis.
pub mod Update
use nestjs_ex.Entities.{Fee, GasResult, NetworkFees}
use nestjs_ex.Prelude.{
  List, Option, String, [], if◌then◌else◌, nat_eq, none, or_else, some, text_eq, ◌==◌, ◌||◌, ◌∷◌,
}
use nestjs_ex.World.{Env, Exec, gets, modify, raise, type_error}

-- The keys of `gasTrackerApis`
abbrev pub gas_tracker_apis : List String
gas_tracker_apis = "polygon" ∷ "etherium" ∷ []

abbrev quoted_price : Option String → Option Fee
quoted_price none = none
quoted_price (some price) = some (Fee.quoted price)

abbrev no_fees : NetworkFees
no_fees = record { fast = some Fee.free; medium = some Fee.free; slow = some Fee.free }

-- `feesConverter`, on the three properties of the raw data
unfoldable pub fees_converter : Option String → Option String → Option String → String → NetworkFees
fees_converter fast propose safe network =
    if network == "polygon" || network == "etherium"
    then record {
      fast = quoted_price fast;
      medium = quoted_price propose;
      slow = quoted_price safe;
    }
    else no_fees

-- The `data` of one network: `undefined` or `null`, another value that counts as false, or its fees.
pub data Fetched : Type 0 where
  missing empty : Fetched
  fetched : NetworkFees → Fetched

-- `data && this.feesConverter(data, network)`
abbrev pub fetched_of : GasResult → String → Fetched
fetched_of GasResult.absent network = Fetched.missing
fetched_of GasResult.falsy network = Fetched.empty
fetched_of (GasResult.gas fast propose safe) network =
    Fetched.fetched (fees_converter fast propose safe network)

abbrev pub with_network :
    String → Option GasResult → Option (List (String × Fetched)) → Option (List (String × Fetched))
with_network network none rest = none
with_network network (some result) none = none
with_network network (some result) (some rest) = some ((network, fetched_of result network) ∷ rest)

-- `fetchNetworkFees`: one request that fails rejects all, under `Promise.all`.
unfoldable pub fetch_network_fees : Env → List String → Option (List (String × Fetched))
fetch_network_fees env [] = some []
fetch_network_fees env (network ∷ networks) =
    with_network network (env.gas_result network) (fetch_network_fees env networks)

abbrev pub cached_fees : List (String × NetworkFees) → String → Option NetworkFees
cached_fees [] network = none
cached_fees ((name, fees) ∷ cache) network =
    if name == network then some fees else cached_fees cache network

-- `currentNetworkFeesInRedis[network] = data`
unfoldable pub set_fees :
    String → NetworkFees → List (String × NetworkFees) → List (String × NetworkFees)
set_fees network fees [] = (network, fees) ∷ []
set_fees network fees ((name, old) ∷ cache) =
    if name == network then (name, fees) ∷ cache else (name, old) ∷ set_fees network fees cache

-- The loop of `handleUpdateNetworkFee`; `ObjectTool.isEmpty` throws on `undefined` and on `null`.
unfoldable pub merge_fees :
    List (String × Fetched) → List (String × NetworkFees) → Option (List (String × NetworkFees))
merge_fees [] cache = some cache
merge_fees ((network, Fetched.missing) ∷ responses) cache = none
merge_fees ((network, Fetched.empty) ∷ responses) cache = merge_fees responses cache
merge_fees ((network, Fetched.fetched fees) ∷ responses) cache =
    merge_fees responses (set_fees network fees cache)

abbrev pub merged_fees :
    Option (List (String × Fetched))
    → List (String × NetworkFees)
    → Option (List (String × NetworkFees))
merged_fees none cache = none
merged_fees (some responses) cache = merge_fees responses cache

-- What was thrown is caught, before anything is written.
unfoldable pub handle_update_network_fee : Exec (Unit {0})
handle_update_network_fee = modify (λ w. record w {
  fees_cache =
      or_else (merged_fees (fetch_network_fees w.env gas_tracker_apis) w.fees_cache) w.fees_cache;
})

-- `getNetworkFees`. What is read from Redis is an object, which never counts as false, so the request
-- after the read is never sent.
unfoldable pub get_network_fees : Option String → Exec (Option NetworkFees)
get_network_fees none = raise type_error
get_network_fees (some name) = gets (λ w.
    if w.env.to_lower_case name == w.env.to_lower_case "Eurus"
    then some (record {
      fast = some Fee.eurus_price;
      medium = some Fee.eurus_price;
      slow = some Fee.eurus_price;
    })
    else cached_fees w.fees_cache name)
