-- ===== src/GatewayStore.antt =====
-- Gateways and the parts that both gateway stores share: gateway/gateway.go, gateway/store.go and
-- the in-memory maps of gateway/store_yaml_file.go and gateway/store_postgres.go.
pub mod Yaml
pub mod Postgres
pub mod Added
pub mod Persisted
pub mod Keys
pub mod Plans
pub mod Consistent
pub mod Interface
pub mod Reload
mod Tests
use packet_handling.Base.{
  ℕ, String, Bool, true, false, Option, none, some, List, [], ◌∷◌, ◌==◌, if◌then◌else◌, is_some,
}
use packet_handling.GoMap.{Map, lookup, insert}
use packet_handling.GatewayIds.{network_id_of_id}
use packet_handling.Bands.{UniqueGatewayBands, no_bands, add_band}

-- `GatewayDetails`
pub record Details : Type 0 where
  pub antenna_gain : Option String
  pub band : Option ℕ
  pub location : Option String
  pub altitude : Option ℕ

-- `Gateway`; the key stands for the private and the public one.
pub record Gateway : Type 0 where
  pub local_id : ℕ
  pub network_id : ℕ
  pub private_key : ℕ
  pub public_key_bytes : List ℕ
  pub thingsix_id : ℕ
  pub owner : Option ℕ
  pub version : Option ℕ
  pub details : Option Details

-- The cryptography of go-ethereum and SHA-256, `Eui64FromString`, and `ToBlockchain`.
pub record Externals : Type 0 where
  pub sha256 : List ℕ → ℕ
  pub derive_thingsix_id : ℕ → ℕ
  pub calculate_public_key_bytes : ℕ → List ℕ
  -- `hex.EncodeToString(crypto.FromECDSA(key))`, and the way back, which may fail
  pub encode_key : ℕ → String
  pub decode_key : String → Option ℕ
  pub parse_eui : String → Option ℕ
  pub to_blockchain : ℕ → ℕ

-- The three maps of a store; the default plan is `none` where it is `frequency_plan.Invalid`.
pub record Maps : Type 0 where
  pub by_local_id : Map Gateway
  pub by_net_id : Map Gateway
  pub by_thingsix_id : Map Gateway
  pub default_plan : Option ℕ

pub data Error : Type 0 where
  not_found invalid_gateway_id already_exists io_error corrupt store_not_exists db_error : Error

pub data Result {ℓ} (A : Type ℓ) : Type ℓ where
  ok : A → Result A
  err : Error → Result A

abbrev pub or_not_found {ℓ} : {A : Type ℓ} → Option A → Result A
or_not_found none = err not_found
or_not_found (some a) = ok a

-- The answer of `ThingsIXRegistry.GatewayDetails`, `none` on an error.
pub record RegistryEntry : Type 0 where
  pub owner : ℕ
  pub version : ℕ
  pub details : Option Details

module _ (ext : Externals) where
  abbrev pub network_id_of_key : ℕ → ℕ
  network_id_of_key key = network_id_of_id ext.sha256 (ext.derive_thingsix_id key)

  unfoldable pub new_gateway : ℕ → ℕ → Gateway
  new_gateway local_id key = record {
    local_id = local_id;
    network_id = network_id_of_key key;
    private_key = key;
    public_key_bytes = ext.calculate_public_key_bytes key;
    thingsix_id = ext.derive_thingsix_id key;
    owner = none;
    version = none;
    details = none;
  }

  unfoldable pub new_onboarded_gateway : ℕ → ℕ → ℕ → ℕ → Gateway
  new_onboarded_gateway local_id key owner version = record {
    local_id = local_id;
    network_id = network_id_of_key key;
    private_key = key;
    public_key_bytes = ext.calculate_public_key_bytes key;
    thingsix_id = ext.derive_thingsix_id key;
    owner = some owner;
    version = some version;
    details = none;
  }

  -- The gateway that a store makes of a stored key: it has no `PublicKeyBytes`.
  unfoldable pub stored_gateway : ℕ → ℕ → Gateway
  stored_gateway local_id key = record (new_gateway local_id key) { public_key_bytes = [] }

  unfoldable pub by_local_id : ℕ → Maps → Result Gateway
  by_local_id id s = or_not_found (lookup id s.by_local_id)

  unfoldable pub by_network_id : ℕ → Maps → Result Gateway
  by_network_id id s = or_not_found (lookup id s.by_net_id)

  unfoldable pub by_thingsix_id : ℕ → Maps → Result Gateway
  by_thingsix_id id s = or_not_found (lookup id s.by_thingsix_id)

  -- `ByLocalIDString`, `ByNetworkIDString`: the parsed id
  unfoldable pub by_parsed : (ℕ → Maps → Result Gateway) → Option ℕ → Maps → Result Gateway
  by_parsed find none s = err invalid_gateway_id
  by_parsed find (some id) s = find id s

  unfoldable pub by_local_id_string : String → Maps → Result Gateway
  unfolding by_parsed
  by_local_id_string id s = by_parsed by_local_id (ext.parse_eui id) s

  unfoldable pub by_network_id_string : String → Maps → Result Gateway
  unfolding by_parsed
  by_network_id_string id s = by_parsed by_network_id (ext.parse_eui id) s

  -- The three assignments by which a gateway enters the maps.
  unfoldable pub index : Gateway → Maps → Maps
  index gw s = record s {
    by_local_id = insert gw.local_id gw s.by_local_id;
    by_net_id = insert gw.network_id gw s.by_net_id;
    by_thingsix_id = insert gw.thingsix_id gw s.by_thingsix_id;
  }

  -- The gateway that a registry entry makes of a stored one.
  unfoldable pub synced : Gateway → RegistryEntry → Gateway
  unfolding new_onboarded_gateway
  synced gw e = record (new_onboarded_gateway gw.local_id gw.private_key e.owner e.version) {
    details = e.details;
  }

  -- `UniqueGatewayBands`, over the gateways that `Range` collects
  unfoldable pub band_of : Option Details → Option ℕ
  band_of none = none
  band_of (some d) = d.band

  unfoldable pub add_one : Option ℕ → Option ℕ → UniqueGatewayBands → UniqueGatewayBands
  add_one (some band) default u = add_band ext.to_blockchain band u
  add_one none (some band) u = add_band ext.to_blockchain band u
  add_one none none u = u

  unfoldable pub bands_from : Option ℕ → Map Gateway → UniqueGatewayBands → UniqueGatewayBands
  unfolding band_of add_one
  bands_from default [] u = u
  bands_from default ((id, gw) ∷ m) u =
      bands_from default m (add_one (band_of gw.details) default u)

  unfoldable pub unique_gateway_bands : Maps → UniqueGatewayBands
  unfolding bands_from
  unique_gateway_bands s = bands_from s.default_plan s.by_local_id no_bands
