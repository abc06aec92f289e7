-- ===== src/GatewayStore/Persisted.antt =====
-- The store and its file: what a restart brings back (gateway/store_yaml_file.go).
use packet_handling.Base.{
  ℕ, ◌≡◌, refl, ap, ◌∙◌, Bool, Option, none, some, List, [], ◌∷◌, ◌++◌, arith, ◌==◌, if◌then◌else◌,
  Option-cases, inl, inr,
}
use packet_handling.GoMap.{Map, lookup}
use packet_handling.GoMap.Laws.{lookup-insert}
use packet_handling.GatewayStore.{Gateway, Externals, Maps, ok, RegistryEntry, index, synced}
use packet_handling.GatewayStore.Yaml.{
  Entry, File, entries, YamlStore, append_entry, as_gateway, sync_gateway, sync_all, load_entries,
  fresh_maps, load_from_file,
}

-- The key of the gateway with a local ID.
abbrev pub key_at : ℕ → Map Gateway → Option ℕ
key_at id m = elim (lookup id m) [ none ↦ none | some gw ↦ some gw.private_key ]

-- A gateway stands under its own local ID.
abbrev pub OwnIds : Maps → Type 0
OwnIds s = (id : ℕ) (gw : Gateway) → lookup id s.by_local_id ≡ some gw → gw.local_id ≡ id

module _ (ext : Externals) where
  -- The file's entries load, and give every local ID the key that the store has for it.
  pub record IsPersisted (s : YamlStore) : Type 0 where
    pub stored : List Entry
    pub loaded : Maps
    pub in_file : s.file ≡ entries stored
    pub loads : load_entries ext stored (fresh_maps ext s.maps) ≡ some loaded
    pub same_keys : (id : ℕ) → key_at id loaded.by_local_id ≡ key_at id s.maps.by_local_id
    pub own_ids : OwnIds s.maps

  load_entries-append :
      (es : List Entry) (e : Entry) (s m : Maps) (gw : Gateway)
      → load_entries ext es s ≡ some m
      → as_gateway ext e ≡ some gw
      → load_entries ext (es ++ e ∷ []) s ≡ some (index ext gw m)
  unfolding load_entries
  load_entries-append [] e s m gw h g = ground arith
  load_entries-append (x ∷ es) e s m gw h g = elim (Option-cases (as_gateway ext x)) [
    | inl n ↦ ground arith
    | inr (y, n) ↦
        rw (n, load_entries) (load_entries-append es e (index ext y s) m gw (ground arith) g)
  ]

  index-OwnIds : (gw : Gateway) (s : Maps) → OwnIds s → OwnIds (index ext gw s)
  unfolding index
  index-OwnIds gw s own id x h =
      ground (arith, lookup-insert gw.local_id id gw s.by_local_id, own id x)

  load_entries-OwnIds :
      (es : List Entry) (s m : Maps) → OwnIds s → load_entries ext es s ≡ some m → OwnIds m
  unfolding load_entries
  load_entries-OwnIds [] s m own h = λ id gw l. own id gw (ground arith)
  load_entries-OwnIds (x ∷ es) s m own h = elim (Option-cases (as_gateway ext x)) [
    | inl n ↦ ground arith
    | inr (y, n) ↦ load_entries-OwnIds es (index ext y s) m (index-OwnIds y s own) (ground arith)
  ]

  pub key_at-index :
      (id : ℕ) (gw : Gateway) (s : Maps)
      → key_at id (index ext gw s).by_local_id
        ≡ (if id == gw.local_id then some gw.private_key else key_at id s.by_local_id)
  unfolding index
  key_at-index id gw s = ground (arith, lookup-insert gw.local_id id gw s.by_local_id)

  -- A new entry of the file and the gateway it stands for, put into the maps.
  pub append-IsPersisted :
      (e : Entry) (gw stood : Gateway) (s : YamlStore)
      → IsPersisted s
      → as_gateway ext e ≡ some stood
      → stood.local_id ≡ gw.local_id
      → stood.private_key ≡ gw.private_key
      → IsPersisted (record { maps = index ext gw s.maps; file = append_entry e s.file })
  unfolding index
  append-IsPersisted e gw stood s p h i k = record {
    stored = p.stored ++ e ∷ [];
    loaded = index ext stood p.loaded;
    in_file = ap (append_entry e) p.in_file;
    loads = load_entries-append p.stored e (fresh_maps ext s.maps) p.loaded stood p.loads h;
    same_keys = λ id.
        ground (arith, key_at-index id stood p.loaded, key_at-index id gw s.maps, p.same_keys id);
    own_ids = index-OwnIds gw s.maps p.own_ids;
  }

  -- A gateway put again with the key it had.
  index-IsPersisted :
      (gw : Gateway) (s : YamlStore)
      → IsPersisted s
      → key_at gw.local_id s.maps.by_local_id ≡ some gw.private_key
      → IsPersisted (record s { maps = index ext gw s.maps })
  unfolding index
  index-IsPersisted gw s p k = record {
    stored = p.stored;
    loaded = p.loaded;
    in_file = p.in_file;
    loads = p.loads;
    same_keys = λ id. ground (arith, key_at-index id gw s.maps, p.same_keys id);
    own_ids = index-OwnIds gw s.maps p.own_ids;
  }

  pub sync-IsPersisted :
      (answer : Option RegistryEntry) (local_id : ℕ) (s : YamlStore)
      → IsPersisted s
      → IsPersisted (sync_gateway ext answer local_id s).1
  unfolding sync_gateway synced
  sync-IsPersisted none local_id s p = elim (Option-cases (lookup local_id s.maps.by_local_id)) [
    | inl n ↦ rw (n, sync_gateway) p
    | inr (gw, n) ↦ rw (n, sync_gateway) p
  ]
  sync-IsPersisted (some e) local_id s p =
      elim (Option-cases (lookup local_id s.maps.by_local_id)) [
        | inl n ↦ rw (n, sync_gateway) p
        | inr (gw, n) ↦
            rw (n, sync_gateway)
              (index-IsPersisted (synced ext gw e) s p (ground (arith, p.own_ids local_id gw n)))
      ]

  pub sync_all-IsPersisted :
      (registry : ℕ → Option RegistryEntry) (m : Map Gateway) (s : YamlStore)
      → IsPersisted s
      → IsPersisted (sync_all ext registry m s)
  unfolding sync_all
  sync_all-IsPersisted registry [] s p = p
  sync_all-IsPersisted registry ((id, gw) ∷ m) s p =
      sync_all-IsPersisted registry m (sync_gateway ext (registry gw.thingsix_id) gw.local_id s).1
        (sync-IsPersisted (registry gw.thingsix_id) gw.local_id s p)

  load_entries-default :
      (es : List Entry) (s m : Maps)
      → load_entries ext es s ≡ some m
      → m.default_plan ≡ s.default_plan
  unfolding load_entries index
  load_entries-default [] s m h = ground arith
  load_entries-default (x ∷ es) s m h = elim (Option-cases (as_gateway ext x)) [
    | inl n ↦ ground arith
    | inr (y, n) ↦ load_entries-default es (index ext y s) m (ground arith)
  ]

  loaded-IsPersisted :
      (es : List Entry) (f : File) (s m : Maps)
      → f ≡ entries es
      → load_entries ext es (fresh_maps ext s) ≡ some m
      → IsPersisted (record { maps = m; file = f })
  loaded-IsPersisted es f s m e h = record {
    stored = es;
    loaded = m;
    in_file = e;
    loads =
        ap (λ d. load_entries ext es (record (fresh_maps ext s) { default_plan = d }))
          (load_entries-default es (fresh_maps ext s) m h)
        ∙ h;
    same_keys = λ id. refl;
    own_ids = load_entries-OwnIds es (fresh_maps ext s) m (λ id gw n. ground arith) h;
  }

  -- Of a store whose file holds what it has: opening the file again succeeds and gives every local
  -- ID the key it had, in a store of which the same holds.
  pub reopened :
      (creates : Bool) (s : YamlStore)
      → IsPersisted s
      → let r = load_from_file ext creates s in
        (r.0 ≡ ok tt)
        × IsPersisted r.1
        × ((id : ℕ) → key_at id r.1.maps.by_local_id ≡ key_at id s.maps.by_local_id)
  unfolding load_from_file
  reopened creates s p =
      rw (p.in_file, p.loads, load_from_file)
        (refl, loaded-IsPersisted p.stored s.file s.maps p.loaded p.in_file p.loads, p.same_keys)
