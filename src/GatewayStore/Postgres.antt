-- ===== src/GatewayStore/Postgres.antt =====
-- The gateway store on a database: gateway/store_postgres.go. The answers of the database and of the
-- registry are inputs of the operations.
use packet_handling.Base.{
  ℕ, ◌+◌, ◌*◌, Bool, true, false, Option, none, some, List, [], ◌∷◌, ◌++◌, ltb, if◌then◌else◌,
}
use packet_handling.Base.Time.{minute}
use packet_handling.GoMap.{Map, lookup, insert}
use packet_handling.GatewayStore.{
  Gateway, Details, Externals, Maps, Error, not_found, db_error, Result, ok, err, RegistryEntry,
  new_gateway, stored_gateway, index, synced,
}

module _ (ext : Externals) where
  -- `Add`: the third map is left alone.
  unfoldable pub add : Option Error → ℕ → ℕ → Maps → Result Gateway × Maps
  add (some e) local_id key s = (err e, s)
  add none local_id key s =
      let gw = new_gateway ext local_id key in
      (
        ok gw,
        record s {
          by_local_id = insert gw.local_id gw s.by_local_id;
          by_net_id = insert gw.network_id gw s.by_net_id;
        },
      )

  -- `syncGatewayByLocalID`: the registry's answer, and the error of the transaction.
  unfoldable pub sync_gateway :
      Option RegistryEntry → Option Error → ℕ → Maps → Result Gateway × Maps
  sync_gateway answer failed local_id s = elim (lookup local_id s.by_local_id) [
    | none ↦ (err not_found, s)
    | some gw ↦ elim answer [
      | none ↦ (ok gw, s)
      | some e ↦ elim failed [
        | some f ↦ (err f, s)
        | none ↦ (ok (synced ext gw e), index ext (synced ext gw e) s)
      ]
    ]
  ]

-- `pgGateway`: a row of the table; `private_key` is `none` where `ToECDSA` refuses its bytes, and
-- `last_synced` where the column is null.
pub record Row : Type 0 where
  pub local_id : ℕ
  pub private_key : Option ℕ
  pub owner : Option ℕ
  pub version : Option ℕ
  pub details : Option Details
  pub last_synced : Option ℕ

-- Details without a band are none.
abbrev pub with_band : Option Details → Option Details
with_band none = none
with_band (some d) = elim d.band [ none ↦ none | some band ↦ some d ]

-- `LastSynced.Valid && LastSynced.Time.Before(syncCutoff)`
abbrev pub must_sync : ℕ → Row → Bool
must_sync now r = elim r.last_synced [ none ↦ false | some t ↦ ltb (t + 10 * minute) now ]

module _ (ext : Externals) where
  -- `asGateway` of a row
  unfoldable pub row_gateway : Row → Option Gateway
  row_gateway r = elim r.private_key [
    | none ↦ none
    | some key ↦ some (record (stored_gateway ext r.local_id key) {
      owner = r.owner;
      version = r.version;
      details = with_band r.details;
    })
  ]

  -- The loop over the rows: the maps, and the local IDs to synchronise
  unfoldable pub load_rows : ℕ → List Row → Maps → List ℕ → Option (Maps × List ℕ)
  load_rows now [] s stale = some (s, stale)
  load_rows now (r ∷ rs) s stale = elim (row_gateway r) [
    | none ↦ none
    | some gw ↦
        load_rows now rs (index ext gw s)
          (if must_sync now r then stale ++ r.local_id ∷ [] else stale)
  ]

  -- `syncGatewayByLocalID` for each of them, with the answers of the registry and the database
  unfoldable pub sync_each : (ℕ → Option RegistryEntry) → (ℕ → Option Error) → List ℕ → Maps → Maps
  sync_each registry failed [] s = s
  sync_each registry failed (id ∷ ids) s =
      sync_each registry failed ids (sync_gateway ext (registry id) (failed id) id s).1

  -- `syncAll`, over the gateways that `Range` collected
  unfoldable pub sync_all :
      (ℕ → Option RegistryEntry) → (ℕ → Option Error) → Map Gateway → Maps → Maps
  sync_all registry failed [] s = s
  sync_all registry failed ((id, gw) ∷ m) s =
      sync_all registry failed m
        (sync_gateway ext (registry gw.local_id) (failed gw.local_id) gw.local_id s).1

  -- `loadFromPostgres`; `none` for the rows is an error of the database.
  abbrev pub loaded :
      (ℕ → Option RegistryEntry) → (ℕ → Option Error) → Option (Maps × List ℕ) → Maps → Bool × Maps
  loaded registry failed none s = (false, s)
  loaded registry failed (some (m, stale)) s = (true, sync_each registry failed stale m)

  unfoldable pub load_from_postgres :
      (ℕ → Option RegistryEntry) → (ℕ → Option Error) → ℕ → Option (List Row) → Maps → Bool × Maps
  load_from_postgres registry failed now none s = (false, s)
  load_from_postgres registry failed now (some rows) s =
      loaded registry failed
        (load_rows now rows (record s { by_local_id = []; by_net_id = []; by_thingsix_id = [] }) [])
        s

  -- `NewPostgresStore`: a failed migration, or the interval and the maps. Without an interval the
  -- default is written through the nil pointer: the outer `none` is the panic.
  unfoldable pub new_postgres_store :
      (ℕ → Option RegistryEntry)
      → (ℕ → Option Error)
      → ℕ
      → Bool
      → Option ℕ
      → Option ℕ
      → Option (List Row)
      → Option (Result (ℕ × Maps))
  new_postgres_store registry failed now migrates interval plan rows =
      if migrates
      then elim interval [
        | none ↦ none
        | some t ↦ some (
            ok (
              t,
              (load_from_postgres registry failed now rows (record {
                by_local_id = [];
                by_net_id = [];
                by_thingsix_id = [];
                default_plan = plan;
              })).1,
            ))
      ]
      else some (err db_error)
