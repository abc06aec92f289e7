-- ===== src/GatewayStore/Yaml.antt =====
-- The gateway store on a YAML file: gateway/store_yaml_file.go. The file is the list of its entries,
-- or says that it does not read; what the operating system answers is an input of the operation.
use packet_handling.Base.{
  ℕ, String, Bool, Option, none, some, List, [], ◌∷◌, ◌++◌, if◌then◌else◌, is_some,
}
use packet_handling.GoMap.{Map, lookup}
use packet_handling.GatewayStore.{
  Gateway, Externals, Maps, not_found, already_exists, io_error, corrupt, store_not_exists, Result,
  ok, err, RegistryEntry, new_gateway, stored_gateway, index, synced,
}

-- `gatewayYAML`
pub record Entry : Type 0 where
  pub local_id : ℕ
  pub private_key : String

-- What reading the file gives.
pub data File : Type 0 where
  missing unreadable garbled : File
  entries : List Entry → File

-- What becomes of the entry that is appended: the file takes it, takes nothing of it, or takes a part
-- of it and then reads as the given file. The last two are errors of `Write`.
pub data Writing : Type 0 where
  entire nothing : Writing
  in_part : File → Writing

pub record YamlStore : Type 0 where
  pub maps : Maps
  pub file : File

abbrev pub append_entry : Entry → File → File
append_entry e (entries es) = entries (es ++ e ∷ [])
append_entry e missing = entries (e ∷ [])
append_entry e unreadable = unreadable
append_entry e garbled = garbled

module _ (ext : Externals) where
  -- `asGateway`
  unfoldable pub as_gateway : Entry → Option Gateway
  as_gateway e = elim (ext.decode_key e.private_key) [
    | none ↦ none
    | some key ↦ some (stored_gateway ext e.local_id key)
  ]

  -- `Add`: the file may fail to open or to take the entry whole.
  unfoldable pub add : Bool → Writing → ℕ → ℕ → YamlStore → Result Gateway × YamlStore
  add opens writes local_id key s =
      let gw = new_gateway ext local_id key in
      if is_some (lookup gw.local_id s.maps.by_local_id)
      then (err already_exists, s)
      else if opens
      then elim writes [
        | nothing ↦ (err io_error, s)
        | in_part file ↦ (err io_error, record s { file = file })
        | entire ↦ (
          ok gw,
          record {
            maps = index ext gw s.maps;
            file =
                append_entry
                  (record { local_id = local_id; private_key = ext.encode_key gw.private_key })
                  s.file;
          },
        )
      ]
      else (err io_error, s)

  -- `SyncGatewayByLocalID`, with the answer of the registry
  unfoldable pub sync_gateway : Option RegistryEntry → ℕ → YamlStore → Result Gateway × YamlStore
  sync_gateway answer local_id s = elim (lookup local_id s.maps.by_local_id) [
    | none ↦ (err not_found, s)
    | some gw ↦ elim answer [
      | none ↦ (ok gw, s)
      | some e ↦ (ok (synced ext gw e), record s { maps = index ext (synced ext gw e) s.maps })
    ]
  ]

  -- `syncAllGatewaysWithRegistry`, over the gateways that `Range` collected
  unfoldable pub sync_all : (ℕ → Option RegistryEntry) → Map Gateway → YamlStore → YamlStore
  sync_all registry [] s = s
  sync_all registry ((id, gw) ∷ m) s =
      sync_all registry m (sync_gateway (registry gw.thingsix_id) gw.local_id s).1

  -- The loop of `loadFromFile`, into fresh maps
  unfoldable pub load_entries : List Entry → Maps → Option Maps
  load_entries [] s = some s
  load_entries (e ∷ es) s = elim (as_gateway e) [
    | none ↦ none
    | some gw ↦ load_entries es (index ext gw s)
  ]

  abbrev pub fresh_maps : Maps → Maps
  fresh_maps s = record s { by_local_id = []; by_net_id = []; by_thingsix_id = [] }

  unfoldable pub replace_maps : Option Maps → YamlStore → Result (Unit {0}) × YamlStore
  replace_maps none s = (err corrupt, s)
  replace_maps (some m) s = (ok tt, record s { maps = m })

  -- `loadFromFile`; a missing file is created where its directory can be.
  unfoldable pub load_from_file : Bool → YamlStore → Result (Unit {0}) × YamlStore
  unfolding replace_maps
  load_from_file creates s = elim s.file [
    | missing ↦
        if creates then (ok tt, record s { file = entries [] }) else (err store_not_exists, s)
    | unreadable ↦ (err io_error, s)
    | garbled ↦ (err corrupt, s)
    | entries es ↦ replace_maps (load_entries es (fresh_maps s.maps)) s
  ]
