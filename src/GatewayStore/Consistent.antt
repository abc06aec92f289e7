-- ===== src/GatewayStore/Consistent.antt =====
-- The three maps of a store and the keys in them (gateway/store_yaml_file.go, gateway/store.go).
use packet_handling.Base.{
  ℕ, ◌≡◌, refl, subst, Bool, true, false, Option, none, some, List, [], ◌∷◌, ◌==◌, arith, is_some,
  Bool-cases, Option-cases, inl, inr,
}
use packet_handling.GoMap.{Map, lookup, insert}
use packet_handling.GatewayStore.{
  Gateway, Externals, Maps, RegistryEntry, network_id_of_key, new_gateway, stored_gateway, index,
  synced,
}
use packet_handling.GatewayStore.Yaml.{
  Writing, entire, nothing, in_part, Entry, File, missing, unreadable, garbled, entries, YamlStore,
  as_gateway, add, sync_gateway, sync_all, load_entries, load_from_file, fresh_maps, replace_maps,
}
use packet_handling.GatewayStore.Keys.{
  Operation, add_gateway, sync_one, sync_every, reload, operate, run_store,
}

module _ (ext : Externals) where
  -- The network and the ThingsIX ID of a gateway are those of its key.
  abbrev pub IsDerived : Gateway → Type 0
  IsDerived gw =
      (gw.network_id ≡ network_id_of_key ext gw.private_key)
      × (gw.thingsix_id ≡ ext.derive_thingsix_id gw.private_key)

  -- Every gateway of a map stands under the ID that the map is by, with the IDs of its key.
  abbrev pub Filed : (Gateway → ℕ) → Map Gateway → Type 0
  Filed id_of [] = Unit
  Filed id_of ((id, gw) ∷ m) = (id_of gw ≡ id) × IsDerived gw × Filed id_of m

  pub record IsConsistent (s : Maps) : Type 0 where
    pub local : Filed (λ gw. gw.local_id) s.by_local_id
    pub network : Filed (λ gw. gw.network_id) s.by_net_id
    pub thingsix : Filed (λ gw. gw.thingsix_id) s.by_thingsix_id

  Filed-insert :
      (id_of : Gateway → ℕ) (gw : Gateway) (m : Map Gateway)
      → IsDerived gw
      → Filed id_of m
      → Filed id_of (insert (id_of gw) gw m)
  Filed-insert id_of gw [] d f = (refl, d, tt)
  Filed-insert id_of gw ((id, g) ∷ m) d f = elim (Bool-cases (id == id_of gw)) [
    | inl y ↦ rw y (refl, d, f.2)
    | inr n ↦ rw n (f.0, f.1, Filed-insert id_of gw m d f.2)
  ]

  pub index-IsConsistent :
      (gw : Gateway) (s : Maps) → IsDerived gw → IsConsistent s → IsConsistent (index ext gw s)
  unfolding index
  index-IsConsistent gw s d c = record {
    local = Filed-insert (λ g. g.local_id) gw s.by_local_id d c.local;
    network = Filed-insert (λ g. g.network_id) gw s.by_net_id d c.network;
    thingsix = Filed-insert (λ g. g.thingsix_id) gw s.by_thingsix_id d c.thingsix;
  }

  sync-IsConsistent :
      (answer : Option RegistryEntry) (id : ℕ) (s : YamlStore)
      → IsConsistent s.maps
      → IsConsistent (sync_gateway ext answer id s).1.maps
  unfolding sync_gateway synced
  sync-IsConsistent none id s c = elim (Option-cases (lookup id s.maps.by_local_id)) [
    | inl n ↦ rw (n, sync_gateway) c
    | inr (gw, n) ↦ rw (n, sync_gateway) c
  ]
  sync-IsConsistent (some e) id s c = elim (Option-cases (lookup id s.maps.by_local_id)) [
    | inl n ↦ rw (n, sync_gateway) c
    | inr (gw, n) ↦
        rw (n, sync_gateway) (index-IsConsistent (synced ext gw e) s.maps (refl, refl) c)
  ]

  sync_all-IsConsistent :
      (registry : ℕ → Option RegistryEntry) (m : Map Gateway) (s : YamlStore)
      → IsConsistent s.maps
      → IsConsistent (sync_all ext registry m s).maps
  unfolding sync_all
  sync_all-IsConsistent registry [] s c = c
  sync_all-IsConsistent registry ((id, gw) ∷ m) s c =
      sync_all-IsConsistent registry m (sync_gateway ext (registry gw.thingsix_id) gw.local_id s).1
        (sync-IsConsistent (registry gw.thingsix_id) gw.local_id s c)

  add-IsConsistent :
      (opens : Bool) (writes : Writing) (id key : ℕ) (s : YamlStore)
      → IsConsistent s.maps
      → IsConsistent (add ext opens writes id key s).1.maps
  unfolding add new_gateway
  add-IsConsistent false writes id key s c =
      elim (Bool-cases (is_some (lookup id s.maps.by_local_id))) [
        | inl n ↦ rw (n, add) c
        | inr n ↦ rw (n, add) c
      ]
  add-IsConsistent true nothing id key s c =
      elim (Bool-cases (is_some (lookup id s.maps.by_local_id))) [
        | inl n ↦ rw (n, add) c
        | inr n ↦ rw (n, add) c
      ]
  add-IsConsistent true (in_part f) id key s c =
      elim (Bool-cases (is_some (lookup id s.maps.by_local_id))) [
        | inl n ↦ rw (n, add) c
        | inr n ↦ rw (n, add) c
      ]
  add-IsConsistent true entire id key s c =
      elim (Bool-cases (is_some (lookup id s.maps.by_local_id))) [
        | inl n ↦ rw (n, add) c
        | inr n ↦ rw (n, add) (index-IsConsistent (new_gateway ext id key) s.maps (refl, refl) c)
      ]

  as_gateway-IsDerived : (e : Entry) (gw : Gateway) → as_gateway ext e ≡ some gw → IsDerived gw
  unfolding as_gateway stored_gateway new_gateway
  as_gateway-IsDerived e gw h = elim (Option-cases (ext.decode_key e.private_key)) [
    | inl n ↦ absurd (ground arith)
    | inr (key, n) ↦
        let same : as_gateway ext e ≡ some (stored_gateway ext e.local_id key) =
          rw (n, as_gateway) refl in
        let found : stored_gateway ext e.local_id key ≡ gw = cc (same, h) in
        subst IsDerived found (refl, refl)
  ]

  load_entries-IsConsistent :
      (es : List Entry) (s m : Maps)
      → IsConsistent s
      → load_entries ext es s ≡ some m
      → IsConsistent m
  unfolding load_entries
  load_entries-IsConsistent [] s m c h = let e : s ≡ m = cc h in subst IsConsistent e c
  load_entries-IsConsistent (e ∷ es) s m c h = elim (Option-cases (as_gateway ext e)) [
    | inl n ↦ absurd (ground arith)
    | inr (gw, n) ↦
        load_entries-IsConsistent es (index ext gw s) m
          (index-IsConsistent gw s (as_gateway-IsDerived e gw n) c) (ground arith)
  ]

  load_file-IsConsistent :
      (creates : Bool) (f : File) (m : Maps)
      → IsConsistent m
      → IsConsistent (load_from_file ext creates (record { maps = m; file = f })).1.maps
  unfolding load_from_file replace_maps
  load_file-IsConsistent true missing m c = c
  load_file-IsConsistent false missing m c = c
  load_file-IsConsistent creates unreadable m c = c
  load_file-IsConsistent creates garbled m c = c
  load_file-IsConsistent creates (entries es) m c =
      elim (Option-cases (load_entries ext es (fresh_maps ext m))) [
        | inl n ↦ rw n c
        | inr (l, n) ↦ rw n (
            load_entries-IsConsistent es (fresh_maps ext m) l
              (record { local = tt; network = tt; thingsix = tt }) n)
      ]

  operate-IsConsistent :
      (o : Operation) (s : YamlStore) → IsConsistent s.maps → IsConsistent (operate ext o s).maps
  unfolding operate
  operate-IsConsistent (add_gateway opens writes id key) s c =
      add-IsConsistent opens writes id key s c
  operate-IsConsistent (sync_one answer id) s c = sync-IsConsistent answer id s c
  operate-IsConsistent (sync_every registry) s c =
      sync_all-IsConsistent registry s.maps.by_local_id s c
  operate-IsConsistent (reload creates) s c = load_file-IsConsistent creates s.file s.maps c

  -- From maps that agree with the keys, over every run of additions, registry synchronisations and
  -- restarts, failed ones among them, they go on to agree: a gateway that can be found by a local,
  -- network or ThingsIX ID has that ID, and its network and ThingsIX ID are those that follow from
  -- its key.
  pub run_store-IsConsistent :
      (os : List Operation) (s : YamlStore)
      → IsConsistent s.maps
      → IsConsistent (run_store ext os s).maps
  unfolding run_store
  run_store-IsConsistent [] s c = c
  run_store-IsConsistent (o ∷ os) s c =
      run_store-IsConsistent os (operate ext o s) (operate-IsConsistent o s c)
