-- ===== src/GatewayStore/Added.antt =====
-- What an added gateway can be found by: `Add` of both stores.
use packet_handling.Base.{ℕ, ◌≡◌, refl, Bool, true, none, arith, ◌==◌, if◌then◌else◌, is_some}
use packet_handling.GoMap.{lookup}
use packet_handling.GoMap.Laws.{lookup-insert}
use packet_handling.GatewayStore.{
  Gateway, Externals, Maps, Error, not_found, already_exists, io_error, ok, err, new_gateway, index,
  by_local_id, by_network_id, by_thingsix_id, network_id_of_key,
}
use packet_handling.GatewayStore.Yaml
use packet_handling.GatewayStore.Yaml.{YamlStore, Writing, entire}
use packet_handling.GatewayStore.Postgres

module _ (ext : Externals) (local_id key : ℕ) where
  abbrev pub added : Gateway
  added = new_gateway ext local_id key

  found_in_index :
      (gw : Gateway) (s : Maps)
      → (by_local_id ext gw.local_id (index ext gw s) ≡ ok gw)
        × (by_network_id ext gw.network_id (index ext gw s) ≡ ok gw)
        × (by_thingsix_id ext gw.thingsix_id (index ext gw s) ≡ ok gw)
        × ((j : ℕ)
            → by_local_id ext j (index ext gw s)
              ≡ (if gw.local_id == j then ok gw else by_local_id ext j s))
  unfolding by_local_id by_network_id by_thingsix_id index
  found_in_index gw s = (
    ground (arith, lookup-insert gw.local_id gw.local_id gw s.by_local_id),
    ground (arith, lookup-insert gw.network_id gw.network_id gw s.by_net_id),
    ground (arith, lookup-insert gw.thingsix_id gw.thingsix_id gw s.by_thingsix_id),
    λ j. ground (arith, lookup-insert gw.local_id j gw s.by_local_id),
  )

  -- A gateway with a new local ID that the file takes is found by its local, network and ThingsIX
  -- ID at once, and every other local ID finds what it found before.
  pub yaml_add_found :
      (s : YamlStore)
      → lookup local_id s.maps.by_local_id ≡ none
      → let r = Yaml.add ext true entire local_id key s in
        (r.0 ≡ ok added)
        × (by_local_id ext local_id r.1.maps ≡ ok added)
        × (by_network_id ext (network_id_of_key ext key) r.1.maps ≡ ok added)
        × (by_thingsix_id ext (ext.derive_thingsix_id key) r.1.maps ≡ ok added)
        × ((j : ℕ)
            → by_local_id ext j r.1.maps
              ≡ (if local_id == j then ok added else by_local_id ext j s.maps))
  unfolding Yaml.add new_gateway
  yaml_add_found s h = let f = found_in_index added s.maps in rw h (refl, f.0, f.1, f.2, f.3)

  -- An `Add` of the YAML store that returns an error leaves the maps of the store as they were;
  -- the error is that the gateway exists if the store has the local ID, and the file's otherwise.
  pub yaml_add_refused :
      (opens : Bool) (writes : Writing) (s : YamlStore) (e : Error)
      → (Yaml.add ext opens writes local_id key s).0 ≡ err e
      → ((Yaml.add ext opens writes local_id key s).1.maps ≡ s.maps)
        × (e ≡ (if is_some (lookup local_id s.maps.by_local_id) then already_exists else io_error))
  unfolding Yaml.add new_gateway
  yaml_add_refused opens writes s e h = (ground arith, ground arith)

  -- The database store loses one of the three: a gateway that it has just added is found by its
  -- local and network ID, and not by its ThingsIX ID where that was not there before.
  pub pg_add_forgets_thingsix_id :
      (s : Maps)
      → lookup (ext.derive_thingsix_id key) s.by_thingsix_id ≡ none
      → let r = Postgres.add ext none local_id key s in
        (r.0 ≡ ok added)
        × (by_local_id ext local_id r.1 ≡ ok added)
        × (by_network_id ext (network_id_of_key ext key) r.1 ≡ ok added)
        × (by_thingsix_id ext (ext.derive_thingsix_id key) r.1 ≡ err not_found)
  unfolding Postgres.add new_gateway by_local_id by_network_id by_thingsix_id
  pg_add_forgets_thingsix_id s h = (
    refl,
    ground (arith, lookup-insert local_id local_id added s.by_local_id),
    ground (
      arith,
      lookup-insert (network_id_of_key ext key) (network_id_of_key ext key) added s.by_net_id,
    ),
    ground arith,
  )
