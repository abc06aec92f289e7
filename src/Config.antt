-- ===== src/Config.antt =====
-- The configuration of the forwarder: forwarder/config.go and forwarder/config_type.go. The
-- configuration file is the change that decoding it makes to the default; times are in nanoseconds.
-- Left out are the log settings, which only set the logger up, the registry contract and the interval of
-- `Routers.OnChain`, which only the choice of the source of the routers reads, and `Accounting`, which
-- nothing reads.
pub mod Load
pub mod Choice
pub mod Ready
mod Tests
use packet_handling.Base.{
  ℕ, ◌*◌, ◌>>=◌, String, Bool, true, false, ◌&&◌, ◌||◌, Option, none, some, List, [], ◌∷◌,
  if◌then◌else◌,
}
use packet_handling.Base.Int.{ℤ, pos}
use packet_handling.Base.Time.{second, minute}
use packet_handling.Route.{Router}
use packet_handling.Backend.{StationConfig, UdpConfig, BackendConfig}
use packet_handling.UnknownGateways.Yaml.{RecordUnknownConfig}
use packet_handling.Registry.OnChain.{OnChainConfig, SyncConfig}
use text.Mathlib.Text.{◌==◌ as str_eq}

-- `BlockchainPolygonConfig`
pub record Polygon : Type 0 where
  pub endpoint : String
  pub chain_id : ℕ
  pub confirmations : ℕ

-- `StoreConfig`
pub record StoreConfig : Type 0 where
  pub refresh_interval : Option ℤ
  pub default_plan : String
  pub yaml_store_path : Option String
  pub postgresql : Option Bool

-- An endpoint and the interval of its refreshes
pub record Polled : Type 0 where
  pub endpoint : Option String
  pub update_interval : Option ℤ

-- `MetricsPrometheusConfig`
pub record Prometheus : Type 0 where
  pub address : String
  pub path : String

-- `Config`: nil pointers are `none`, and `database` is whether PostgreSQL is configured.
pub record Config (Bitmap : Type 0) : Type 0 where
  pub backend : BackendConfig
  pub batch_onboarder : String
  pub early_adopter : String
  pub onboard_endpoint : String
  pub api_address : String
  pub store : StoreConfig
  pub record_unknown : Option RecordUnknownConfig
  pub registry : SyncConfig
  pub default_routers : List (Option (Router Bitmap))
  pub routers_api : Option Polled
  pub mapping_api : Option Polled
  pub polygon : Option Polygon
  pub database : Bool
  pub prometheus : Option Prometheus

-- `MetricsPrometheusAddress` and `MetricsPrometheusPath`
unfoldable pub metrics_address : Prometheus → String
metrics_address p = if str_eq p.address "" then "localhost:8080" else p.address

unfoldable pub metrics_path : Prometheus → String
metrics_path p = if str_eq p.path "" then "/metrics" else p.path

abbrev pub default_station : StationConfig
default_station = record {
  bind = some "0.0.0.0:8887";
  tls_cert = some "/etc/thingsix-forwarder/basic_station/cert.pem";
  tls_key = some "/etc/thingsix-forwarder/basic_station/private_key.pem";
  ca_cert = some "/etc/thingsix-forwarder/basic_station/ca_cert.pem";
  stats_interval = some (pos (30 * second));
  ping_interval = some (pos minute);
  timesync_interval = some (pos (60 * minute));
  read_timeout = some (pos (65 * second));
  write_timeout = some (pos second);
  region = "";
}

abbrev pub half_hour : Option ℤ
half_hour = some (pos (30 * minute))

module _ {Bitmap : Type 0} where
  -- `Config{}`
  abbrev pub zero_config : Config Bitmap
  zero_config = record {
    backend = record { semtech_udp = none; basic_station = none; concentratord = false };
    batch_onboarder = "";
    early_adopter = "";
    onboard_endpoint = "";
    api_address = "";
    store = record {
      refresh_interval = none;
      default_plan = "";
      yaml_store_path = none;
      postgresql = none;
    };
    record_unknown = none;
    registry = record { api_endpoint = ""; chain = none };
    default_routers = [];
    routers_api = none;
    mapping_api = none;
    polygon = none;
    database = false;
    prometheus = none;
  }

  -- What the three nets have in common; `invalid_plan` is `frequency_plan.Invalid`. The other
  -- arguments are what differs, in the order of the assignments.
  abbrev pub net_config :
      String → String → String → String → String → String → String → String → ℕ → Config Bitmap
  net_config invalid_plan batch early onboards gateways routers index rpc chain_id = record {
    backend = record {
      semtech_udp = some (record { udp_bind = some "0.0.0.0:1680"; fake_rx_time = some false });
      basic_station = some default_station;
      concentratord = false;
    };
    batch_onboarder = batch;
    early_adopter = early;
    onboard_endpoint = onboards;
    api_address = "127.0.0.1:8080";
    store = record {
      refresh_interval = half_hour;
      default_plan = invalid_plan;
      yaml_store_path = some "/etc/thingsix-forwarder/gateways.yaml";
      postgresql = none;
    };
    record_unknown =
        some (record { file = "/etc/thingsix-forwarder/unknown_gateways.yaml"; postgresql = none });
    registry = record { api_endpoint = gateways; chain = none };
    default_routers = [];
    routers_api = some (record { endpoint = some routers; update_interval = half_hour });
    mapping_api = some (record { endpoint = some index; update_interval = half_hour });
    polygon = some (record { endpoint = rpc; chain_id = chain_id; confirmations = 128 });
    database = false;
    prometheus = some (record { address = "0.0.0.0:8888"; path = "/metrics" });
  }

  -- `getNetConfig`; `none` is `logrus.Fatalf`.
  unfoldable pub get_net_config : String → String → Option (Config Bitmap)
  get_net_config invalid_plan net =
      if str_eq net ""
      then some zero_config
      else if str_eq net "main"
      then some (
          net_config invalid_plan "0x06dcca8EcB100E234ff03b8353C5Ae698A0Fee8e"
            "0xEe4Fd2721b05F205505cC945aC4bbbd514F2CB8e"
            "https://api.thingsix.com/gateways/v1/onboards/{onboarder}/{owner}"
            "https://api.thingsix.com/gateways/v1/{id}"
            "https://api.thingsix.com/routers/v1/snapshot"
            "https://api.thingsix.com/coverage-mapping-index/v1/" "https://polygon-rpc.com" 137)
      else if str_eq net "test"
      then some (
          net_config invalid_plan "0xe685A0826419Bc982c9278eA7798143Fe7CF9f11"
            "0x016466b252c6609b0769d0DF3ca9D2a561E42192"
            "https://api-testnet.thingsix.com/gateways/v1/onboards/{onboarder}/{owner}"
            "https://api-testnet.thingsix.com/gateways/v1/{id}"
            "https://api-testnet.thingsix.com/routers/v1/snapshot"
            "https://api-testnet.thingsix.com/coverage-mapping-index/v1/"
            "https://rpc.ankr.com/polygon_mumbai" 80001)
      else if str_eq net "dev"
      then some (
          net_config invalid_plan "0xC7Dc48Ae9ED3e095f58ecF5320dE33F43A06cfC1"
            "0x4A3E182a6E8704b9355dE87BF92a5Ba43b7D01F4"
            "https://api-devnet.thingsix.com/gateways/v1/onboards/{onboarder}/{owner}"
            "https://api-devnet.thingsix.com/gateways/v1/{id}"
            "https://api-devnet.thingsix.com/routers/v1/snapshot"
            "https://api-devnet.thingsix.com/coverage-mapping-index/v1/"
            "https://rpc.ankr.com/polygon_mumbai" 80001)
      else none
