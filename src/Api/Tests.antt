-- ===== src/Api/Tests.antt =====
-- Tests of the API's handlers over the YAML store (forwarder/api.go).
use packet_handling.Base.{
  ℕ, ◌*◌, ◌^◌, ◌≡◌, refl, Bool, true, none, some, List, [], ◌∷◌, if◌then◌else◌,
}
use packet_handling.GatewayStore.{Gateway, Maps, ok, err, by_local_id, new_gateway, index}
use packet_handling.GatewayStore.Yaml
use packet_handling.GatewayStore.Yaml.{Writing, entire, YamlStore, missing, entries}
use packet_handling.GatewayStore.Interface.{Store, IsStore, yaml_store, stores-IsStore}
use packet_handling.UnknownGateways.{Recorded}
use packet_handling.Api.{
  Post, Externals, Service, OnboardRequest, OnboardReply, Reply, reply, Outside, recorded,
  contains_by_local_id, onboard_gateway_message, onboard_with, find_or_add, add_new, sign_and_push,
  sign_plain_batch_onboard_message, push, import_gateways, import_from, import_one,
  list_unknown_gateways,
}
use packet_handling.Api.Onboard.{Signs, onboard_gateway_message-reply}
use packet_handling.Api.Import.{AllSigned, import_gateways_complete}
use packet_handling.Api.Runs.{add, onboard, import_all, run_api, run_api-keeps}
use packet_handling.Samples.{store_ext}

abbrev ext : Externals
ext = record {
  pack = λ chain contract version id address owner. some (contract ∷ owner ∷ id ∷ []);
  keccak256 = λ b. 1;
  sign = λ h key. some (key ∷ []);
  pubkey_to_address = λ key. key;
}

abbrev svc : Service
svc = record { chain_id = 137; batch_onboarder = 21; early_adopter_onboarder = 22 }

abbrev store : Store YamlStore (Bool × Writing)
store = yaml_store store_ext

abbrev store-IsStore : IsStore store
store-IsStore = (stores-IsStore store_ext).0

abbrev empty : YamlStore
empty = record {
  maps = record { by_local_id = []; by_net_id = []; by_thingsix_id = []; default_plan = none };
  file = missing;
}

abbrev out : Outside (Bool × Writing)
out = record { generated = some 7; io = (true, entire); first_post = true; second_post = true }

abbrev request : OnboardRequest
request = record { local_id = 3; owner = 5; push_to_thingsix = true }

abbrev onboarded : Reply OnboardReply × List Post × YamlStore
onboarded = onboard_gateway_message store ext svc out (some request) empty

abbrev signed_reply : OnboardReply
signed_reply = record {
  owner = 5;
  address = 7;
  chain_id = 137;
  gateway_id = 7 * 256 ^ 24;
  onboard_signature = 7 ∷ [];
  early_adopter_signature = 7 ∷ [];
  local_id = 3;
  network_id = 7;
  version = 0;
  onboarder = 21;
}

stores-IsStore_example :
    IsStore (yaml_store store_ext)
    × IsStore (packet_handling.GatewayStore.Interface.postgres_store store_ext)
stores-IsStore_example = stores-IsStore store_ext

onboard_gateway_message-reply_example :
    (gw : Gateway) × (store.by_local_id 3 onboarded.2 ≡ ok gw)
    × (gw.owner ≡ none)
    × Signs ext svc 5 gw signed_reply
    × (◌≡◌ {A = ℕ} 201 (if contains_by_local_id store 3 empty then 200 else 201))
unfolding onboard_gateway_message onboard_with find_or_add add_new sign_and_push
    sign_plain_batch_onboard_message push by_local_id new_gateway Yaml.add
    packet_handling.GatewayIds.network_id_of_id
onboard_gateway_message-reply_example =
    onboard_gateway_message-reply ext svc store store-IsStore out request empty 201 signed_reply
      refl

abbrev seen : List Recorded
seen = record { local_id = 3; first_seen = none } ∷ []

abbrev imported : Reply (List OnboardReply) × List Post × YamlStore
imported =
    import_gateways store ext svc (λ id. out) (some (record { owner = 5; push_to_thingsix = true }))
      (recorded seen) empty

import_gateways_complete_example :
    (list_unknown_gateways store (recorded seen) imported.2 ≡ reply 200 [])
    × AllSigned ext svc store store-IsStore 5 imported.2 (signed_reply ∷ [])
unfolding import_gateways import_from import_one add_new sign_and_push
    sign_plain_batch_onboard_message push by_local_id new_gateway Yaml.add index
    packet_handling.GatewayIds.network_id_of_id
import_gateways_complete_example =
    import_gateways_complete ext svc store store-IsStore (λ id. out)
      (record { owner = 5; push_to_thingsix = true }) seen empty 201 (signed_reply ∷ []) refl

abbrev two : YamlStore
unfolding new_gateway
two = record empty {
  maps = record empty.maps { by_local_id = (4, new_gateway store_ext 4 8) ∷ [] };
}

run_api-keeps_example :
    store.by_local_id 4 (
      run_api ext svc store
        (add out (some 4)
          ∷ onboard out (some request)
          ∷ import_all (λ id. out) none (recorded seen)
          ∷ [])
        two)
    ≡ ok (new_gateway store_ext 4 8)
unfolding two by_local_id
run_api-keeps_example =
    run_api-keeps ext svc store store-IsStore
      (add out (some 4)
        ∷ onboard out (some request)
        ∷ import_all (λ id. out) none (recorded seen)
        ∷ [])
      two 4 (new_gateway store_ext 4 8) refl
