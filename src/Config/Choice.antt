-- ===== src/Config/Choice.antt =====
-- Which gateway store the forwarder uses: StoreConfig.Type (gateway/config.go) and NewGatewayStore
-- (gateway/store.go).
use packet_handling.Base.{String, Bool, Option, none, some, if◌then◌else◌}
use packet_handling.Base.Int.{ℤ}
use packet_handling.Registry.OnChain.{Registry, SyncConfig, new_registry}
use packet_handling.Config.{StoreConfig}
use packet_handling.Config.Load.{is_on}

-- `GatewayStoreType`
pub data StoreType : Type 0 where
  no_gateway_store yaml_file_gateway_store postgresql_gateway_store : StoreType

-- `StoreConfig.Type`
unfoldable pub store_type : StoreConfig → StoreType
store_type cfg =
    if is_on cfg.postgresql
    then postgresql_gateway_store
    else elim cfg.yaml_store_path [ some path ↦ yaml_file_gateway_store | none ↦ no_gateway_store ]

-- The constructor that is called, with its arguments, an error, or the end of the process
pub data StoreChoice : Type 0 where
  new_yaml_file_store : String → Registry → String → StoreChoice
  new_postgres_store : Option ℤ → Registry → String → StoreChoice
  refused stopped panicked : StoreChoice

-- The path that is read where the type is the YAML file
unfoldable pub yaml_store_of : Option String → Registry → String → StoreChoice
yaml_store_of none registry plan = panicked
yaml_store_of (some path) registry plan = new_yaml_file_store path registry plan

-- `NewGatewayStore`, by whether the endpoint of the chain parses and the path of gateway-store.yaml in
-- the home directory
unfoldable pub new_gateway_store :
    Bool → Option String → StoreConfig → Option SyncConfig → StoreChoice
new_gateway_store parses home cfg sync = elim (new_registry parses sync) [
  | none ↦ refused
  | some registry ↦ elim (store_type cfg) [
    | yaml_file_gateway_store ↦ yaml_store_of cfg.yaml_store_path registry cfg.default_plan
    | postgresql_gateway_store ↦ new_postgres_store cfg.refresh_interval registry cfg.default_plan
    | no_gateway_store ↦ elim home [
      | none ↦ stopped
      | some path ↦ new_yaml_file_store path registry cfg.default_plan
    ]
  ]
]
