-- ===== src/Config/Tests.antt =====
-- Tests of the configuration of the forwarder (forwarder/config.go).
use packet_handling.Base.{ℕ, String, ◌≡◌, refl, true, false, none, some, List, [], ◌∷◌}
use packet_handling.Config.{Config, get_net_config, net_config}
use packet_handling.Registry.OnChain.{thingsix_api, new_registry}
use packet_handling.Config.Choice.{
  new_yaml_file_store, store_type, yaml_store_of, new_gateway_store,
}
use packet_handling.Config.Load.{
  Start, ConfigFile, no_file, decoded, ready, fatal, crashed, with_file, with_plan, read_config,
  uses_database, flag_defaults, of_polygon, complete, must_load_config,
}
use packet_handling.Config.Ready.{IsReady, flagged, must_load_config-IsReady}
use packet_handling.Samples.{router}

-- A start on the main net with a file that has one router and the contract.
abbrev filed : Config (List ℕ) → Config (List ℕ)
filed cfg = record cfg {
  default_routers = some router ∷ [];
  registry = record (cfg.registry) {
    chain = some (record { endpoint = ""; confirmation = 0; chain_id = 0; address = 5 });
  };
}

abbrev start : String → ConfigFile (List ℕ) → Start (List ℕ)
start net file = record {
  net = net;
  file = file;
  plan_flag = "";
  invalid_plan = "INVALID";
  band_name = λ t. none;
  database_opens = true;
}

abbrev main_config : Config (List ℕ)
main_config =
    net_config "INVALID" "0x06dcca8EcB100E234ff03b8353C5Ae698A0Fee8e"
      "0xEe4Fd2721b05F205505cC945aC4bbbd514F2CB8e"
      "https://api.thingsix.com/gateways/v1/onboards/{onboarder}/{owner}"
      "https://api.thingsix.com/gateways/v1/{id}" "https://api.thingsix.com/routers/v1/snapshot"
      "https://api.thingsix.com/coverage-mapping-index/v1/" "https://polygon-rpc.com" 137

abbrev loaded : Config (List ℕ)
loaded = record (filed main_config) {
  default_routers = some (flagged router) ∷ [];
  registry = record (main_config.registry) {
    chain = some (record {
      endpoint = "https://polygon-rpc.com";
      confirmation = 128;
      chain_id = 137;
      address = 5;
    });
  };
}

must_load_config_test : must_load_config (start "main" (decoded filed)) ≡ ready loaded false
unfolding must_load_config read_config get_net_config with_file with_plan uses_database complete
    flag_defaults of_polygon
must_load_config_test = refl

-- A file without record_unknown, and no net: the nil pointer is read.
no_recorder_test :
    must_load_config (
      start "" (
        decoded (λ cfg. record cfg {
          polygon = some (record { endpoint = "rpc"; chain_id = 137; confirmations = 128 });
        })))
    ≡ crashed
unfolding must_load_config read_config get_net_config with_file with_plan uses_database
no_recorder_test = refl

-- Neither a net nor a file.
nothing_test : must_load_config (start "" no_file) ≡ fatal
unfolding must_load_config read_config get_net_config with_file
nothing_test = refl

must_load_config-IsReady_example : IsReady (start "main" (decoded filed)) loaded false
must_load_config-IsReady_example =
    must_load_config-IsReady (start "main" (decoded filed)) loaded false must_load_config_test

-- The defaults of a net give the YAML store, over the registry of the API.
default_store_test :
    new_gateway_store true none main_config.store (some main_config.registry)
    ≡ new_yaml_file_store "/etc/thingsix-forwarder/gateways.yaml"
        (thingsix_api "https://api.thingsix.com/gateways/v1/{id}")
        "INVALID"
unfolding new_gateway_store store_type yaml_store_of new_registry
default_store_test = refl
