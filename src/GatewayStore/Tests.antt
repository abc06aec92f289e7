-- ===== src/GatewayStore/Tests.antt =====
-- The gateway stores at work: a store with one gateway, additions, a restart.
use packet_handling.Base.{◌*◌, List, ◌≡◌, refl, true, none, some, [], ◌∷◌, arith}
use packet_handling.GatewayStore.{
  corrupt, Maps, io_error, err, new_gateway, stored_gateway, index, network_id_of_key,
}
use packet_handling.GatewayStore.Yaml
use packet_handling.GatewayStore.Yaml.{
  entire, nothing, in_part, garbled, YamlStore, entries, fresh_maps, load_from_file, load_entries,
  as_gateway,
}
use packet_handling.GatewayStore.Postgres.{Row, row_gateway, load_rows, load_from_postgres}
use packet_handling.GatewayStore.Reload.{row_key, load_from_postgres_keys}
use packet_handling.Base.Time.{second}
use packet_handling.GatewayStore.Persisted.{key_at, IsPersisted}
use packet_handling.GatewayStore.Consistent.{IsConsistent, run_store-IsConsistent}
use packet_handling.GatewayStore.Keys.{operate, add_gateway, reload, run_store, key_survives}
use packet_handling.Samples.{store_ext, count-written}

abbrev empty_maps : Maps
empty_maps = record { by_local_id = []; by_net_id = []; by_thingsix_id = []; default_plan = none }

abbrev empty_store : YamlStore
empty_store = record { maps = empty_maps; file = entries [] }

no_room : (Yaml.add store_ext true nothing 3 50 empty_store).0 ≡ err io_error
unfolding Yaml.add new_gateway
no_room = refl

-- A store on the file that has the key 50 for the gateway 3.
abbrev one_gateway : YamlStore
unfolding stored_gateway new_gateway
one_gateway = record {
  maps = record {
    by_local_id = (3, stored_gateway store_ext 3 50) ∷ [];
    by_net_id = (network_id_of_key store_ext 50, stored_gateway store_ext 3 50) ∷ [];
    by_thingsix_id = (store_ext.derive_thingsix_id 50, stored_gateway store_ext 3 50) ∷ [];
    default_plan = none;
  };
  file = entries (record { local_id = 3; private_key = store_ext.encode_key 50 } ∷ []);
}

one_gateway-IsPersisted : IsPersisted store_ext one_gateway
unfolding load_entries as_gateway index stored_gateway new_gateway
one_gateway-IsPersisted = record {
  stored = record { local_id = 3; private_key = store_ext.encode_key 50 } ∷ [];
  loaded = one_gateway.maps;
  in_file = refl;
  loads = refl;
  same_keys = λ id. refl;
  own_ids = λ id gw h. ground arith;
}

key_survives_example :
    (key_at 3
        (run_store store_ext
          (add_gateway true entire 4 60 ∷ reload true ∷ [])
          one_gateway).maps.by_local_id
      ≡ some 50)
    × IsPersisted store_ext
        (run_store store_ext (add_gateway true entire 4 60 ∷ reload true ∷ []) one_gateway)
unfolding one_gateway
key_survives_example =
    key_survives store_ext count-written (add_gateway true entire 4 60 ∷ reload true ∷ []) 3 50
      one_gateway refl one_gateway-IsPersisted refl

-- One gateway without details, and the default plan 1.
abbrev planned : Maps
unfolding stored_gateway new_gateway
planned = record empty_maps {
  by_local_id = (3, stored_gateway store_ext 3 50) ∷ [];
  default_plan = some 1;
}

run_store-IsConsistent_example :
    IsConsistent store_ext
      (run_store store_ext (add_gateway true entire 4 60 ∷ reload true ∷ []) one_gateway).maps
unfolding one_gateway stored_gateway new_gateway
run_store-IsConsistent_example =
    run_store-IsConsistent store_ext (add_gateway true entire 4 60 ∷ reload true ∷ []) one_gateway
      (record {
        local = (refl, (refl, refl), tt);
        network = (refl, (refl, refl), tt);
        thingsix = (refl, (refl, refl), tt);
      })

-- One row, with the key 50, due for synchronisation.
abbrev rows : List Row
rows =
    record {
      local_id = 3;
      private_key = some 50;
      owner = none;
      version = none;
      details = none;
      last_synced = some 0;
    }
    ∷ []

load_from_postgres_keys_example :
    (key_at 3
        (load_from_postgres store_ext
          (λ id. none)
          (λ id. none)
          (3600 * second)
          (some rows)
          empty_maps).1.by_local_id
      ≡ row_key 3 rows)
    × IsConsistent store_ext
        (load_from_postgres store_ext
          (λ id. none)
          (λ id. none)
          (3600 * second)
          (some rows)
          empty_maps).1
unfolding load_from_postgres load_rows row_gateway
load_from_postgres_keys_example =
    load_from_postgres_keys store_ext (λ id. none) (λ id. none) (3600 * second) 3 rows empty_maps
      refl

-- A part of an entry that stays in the file makes the next start fail.
torn_file_test :
    (load_from_file store_ext true
      (operate store_ext (add_gateway true (in_part garbled) 4 60) one_gateway)).0
    ≡ err corrupt
unfolding load_from_file operate Yaml.add one_gateway new_gateway
torn_file_test = refl
