-- ===== src/Registry/Tests.antt =====
-- Tests of the two registries (gateway/registry_thingsix_api.go, gateway/registry_smart_contract.go).
use packet_handling.Base.{
  ◌+◌, ◌↔◌, none, leb, ◌&&◌, ◌==◌, if◌then◌else◌, ℕ, String, ◌≡◌, refl, true, false, some, [], ◌∷◌,
  arith,
}
use packet_handling.Base.Time.{minute}
use packet_handling.Registry.{Reply, not_found, status_ok, Outcome, ask, gateway_details}
use packet_handling.Registry.OnChain.{
  SmartContract, ChainGateway, ChainNode, Texts, on_chain, entry_of_chain, confirmed, chain_details,
  build_on_chain_syncer, new_registry, chain_details_iff,
}
use packet_handling.GatewayStore.{RegistryEntry}
use packet_handling.Registry.Cache.{Call, after_calls, again, kept_ten_minutes}

abbrev gain_of : ℕ → String
gain_of _ = "2.0"

abbrev reply : Reply
reply = record {
  altitude = 1;
  version = 1;
  antenna_gain = 5;
  frequency_plan = 1;
  location = "8a";
  owner = 7;
}

abbrev other_call : Call
other_call = record { id = 2; force = false; now = minute; answer = not_found }

-- A call that is not forced, of a gateway that the cache does not have.
abbrev first : Outcome
first = gateway_details gain_of 1 false 0 (status_ok (some reply)) []

abbrev second : Outcome
second =
    gateway_details gain_of 1 false minute not_found
      (after_calls gain_of (other_call ∷ []) first.cache)

first_asks : first.asked ≡ true
unfolding gateway_details ask
first_asks = refl

kept_ten_minutes_example : (second.result ≡ again first.result) × (second.asked ≡ false)
kept_ten_minutes_example =
    kept_ten_minutes gain_of 1 false 0 minute (status_ok (some reply)) not_found (other_call ∷ [])
      [] first_asks refl (refl, tt) (ground arith)

abbrev contract : SmartContract
contract = record { endpoint = "rpc"; confirmations = 128; addr = 5 }

abbrev chain_gateway : ChainGateway
chain_gateway = record {
  owner = 7;
  version = 1;
  antenna_gain = 20;
  frequency_plan = 1;
  location = 3;
  altitude = 255;
}

-- The contract has the gateway 1 from block 1000 on.
abbrev node : ChainNode
node = record {
  dials = true;
  binds = true;
  head = some 1128;
  gateways = λ block id. if leb 1000 block && id == 1 then some chain_gateway else none;
}

abbrev texts : Texts
texts = record { gain_text = gain_of; from_blockchain = λ p. p; cell_text = λ c. "8a" }

abbrev chain_entry : RegistryEntry
chain_entry = record {
  owner = 7;
  version = 1;
  details = some (record {
    antenna_gain = some "2.0";
    band = some 1;
    location = some "8a";
    altitude = some 765;
  });
}

chain_details_test : chain_details texts contract node 1 ≡ some chain_entry
unfolding chain_details confirmed entry_of_chain
chain_details_test = refl

-- A chain that is shorter than the confirmations is an error.
short_chain_test : chain_details texts contract (record node { head = some 127 }) 1 ≡ none
unfolding chain_details confirmed
short_chain_test = refl

-- The contract is preferred to the API.
new_registry_test :
    new_registry true (
      some (record {
        api_endpoint = "api";
        chain = some (record { endpoint = "rpc"; confirmation = 128; chain_id = 137; address = 5 });
      }))
    ≡ some (on_chain contract)
unfolding new_registry build_on_chain_syncer
new_registry_test = refl

chain_details_iff_example : (chain_details texts contract node 1 ≡ some chain_entry) ↔ (
    (node.dials ≡ true)
    × (node.binds ≡ true)
    × (block : ℕ) × (node.head ≡ some (block + contract.confirmations))
    × (g : ChainGateway) × (node.gateways block 1 ≡ some g)
    × (chain_entry ≡ entry_of_chain texts g))
chain_details_iff_example = chain_details_iff texts contract node 1 chain_entry
