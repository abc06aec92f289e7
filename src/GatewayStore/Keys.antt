-- ===== src/GatewayStore/Keys.antt =====
-- What happens to the keys of the file store over a run of it and its restarts
-- (gateway/store_yaml_file.go).
use packet_handling.Base.{
  ◌&&◌, and_true, ℕ, ◌≡◌, refl, ◌∙◌, Bool, true, false, Option, none, some, List, [], ◌∷◌, arith,
  is_some, Bool-cases, Option-cases, inl, inr,
}
use packet_handling.GoMap.{Map, lookup}
use packet_handling.GatewayStore.{
  Gateway, Externals, RegistryEntry, new_gateway, stored_gateway, synced,
}
use packet_handling.GatewayStore.Yaml.{
  Writing, entire, nothing, in_part, YamlStore, as_gateway, add, sync_gateway, sync_all,
  load_from_file,
}
use packet_handling.GatewayStore.Persisted.{
  key_at, IsPersisted, append-IsPersisted, sync-IsPersisted, sync_all-IsPersisted, reopened,
  key_at-index,
}

-- An operation on the store; `reload` is a restart, which opens the file into a new store.
pub data Operation : Type 0 where
  add_gateway : Bool → Writing → ℕ → ℕ → Operation
  sync_one : Option RegistryEntry → ℕ → Operation
  sync_every : (ℕ → Option RegistryEntry) → Operation
  reload : Bool → Operation

unfoldable pub operate : Externals → Operation → YamlStore → YamlStore
operate ext (add_gateway opens writes local_id key) s = (add ext opens writes local_id key s).1
operate ext (sync_one answer local_id) s = (sync_gateway ext answer local_id s).1
operate ext (sync_every registry) s = sync_all ext registry s.maps.by_local_id s
operate ext (reload creates) s = (load_from_file ext creates s).1

-- No part of an entry stays in the file where the rest of it is lost.
abbrev pub is_whole : Operation → Bool
is_whole (add_gateway opens (in_part file) local_id key) = false
is_whole _ = true

abbrev pub all_whole : List Operation → Bool
all_whole [] = true
all_whole (o ∷ os) = is_whole o && all_whole os

unfoldable pub run_store : Externals → List Operation → YamlStore → YamlStore
run_store ext [] s = s
run_store ext (o ∷ os) s = run_store ext os (operate ext o s)

module _ (ext : Externals)
    (decode-encode : (k : ℕ) → ext.decode_key (ext.encode_key k) ≡ some k) where
  add-IsPersisted :
      (opens : Bool) (writes : Writing) (local_id key : ℕ) (s : YamlStore)
      → is_whole (add_gateway opens writes local_id key) ≡ true
      → IsPersisted ext s
      → IsPersisted ext (add ext opens writes local_id key s).1
  unfolding add new_gateway stored_gateway as_gateway
  add-IsPersisted false writes local_id key s w p =
      elim (Bool-cases (is_some (lookup local_id s.maps.by_local_id))) [
        | inl n ↦ rw (n, add) p
        | inr n ↦ rw (n, add) p
      ]
  add-IsPersisted true nothing local_id key s w p =
      elim (Bool-cases (is_some (lookup local_id s.maps.by_local_id))) [
        | inl n ↦ rw (n, add) p
        | inr n ↦ rw (n, add) p
      ]
  add-IsPersisted true (in_part file) local_id key s w p = cc w
  add-IsPersisted true entire local_id key s w p =
      elim (Bool-cases (is_some (lookup local_id s.maps.by_local_id))) [
        | inl n ↦ rw (n, add) p
        | inr n ↦
            rw (n, add)
              (append-IsPersisted ext
                (record { local_id = local_id; private_key = ext.encode_key key })
                (new_gateway ext local_id key) (stored_gateway ext local_id key) s p
                (rw (decode-encode key, as_gateway) refl) refl refl)
      ]

  operate-IsPersisted :
      (o : Operation) (s : YamlStore)
      → is_whole o ≡ true
      → IsPersisted ext s
      → IsPersisted ext (operate ext o s)
  unfolding operate
  operate-IsPersisted (add_gateway opens writes local_id key) s w p =
      add-IsPersisted opens writes local_id key s w p
  operate-IsPersisted (sync_one answer local_id) s w p = sync-IsPersisted ext answer local_id s p
  operate-IsPersisted (sync_every registry) s w p =
      sync_all-IsPersisted ext registry s.maps.by_local_id s p
  operate-IsPersisted (reload creates) s w p = (reopened ext creates s p).1

  sync-key_at :
      (answer : Option RegistryEntry) (local_id id : ℕ) (s : YamlStore)
      → IsPersisted ext s
      → key_at id (sync_gateway ext answer local_id s).1.maps.by_local_id
        ≡ key_at id s.maps.by_local_id
  unfolding sync_gateway synced
  sync-key_at none local_id id s p = ground arith
  sync-key_at (some e) local_id id s p = elim (Option-cases (lookup local_id s.maps.by_local_id)) [
    | inl n ↦ rw (n, sync_gateway) refl
    | inr (gw, n) ↦
        rw (n, sync_gateway, key_at-index ext id (synced ext gw e) s.maps)
          (ground (arith, p.own_ids local_id gw n))
  ]

  sync_all-key_at :
      (registry : ℕ → Option RegistryEntry) (m : Map Gateway) (id : ℕ) (s : YamlStore)
      → IsPersisted ext s
      → key_at id (sync_all ext registry m s).maps.by_local_id ≡ key_at id s.maps.by_local_id
  unfolding sync_all
  sync_all-key_at registry [] id s p = refl
  sync_all-key_at registry ((i, gw) ∷ m) id s p =
      sync_all-key_at registry m id (sync_gateway ext (registry gw.thingsix_id) gw.local_id s).1
        (sync-IsPersisted ext (registry gw.thingsix_id) gw.local_id s p)
      ∙ sync-key_at (registry gw.thingsix_id) gw.local_id id s p

  add-key_at :
      (opens : Bool) (writes : Writing) (local_id key id k : ℕ) (s : YamlStore)
      → key_at id s.maps.by_local_id ≡ some k
      → key_at id (add ext opens writes local_id key s).1.maps.by_local_id ≡ some k
  unfolding add new_gateway
  add-key_at opens writes local_id key id k s h =
      ground (arith, key_at-index ext id (new_gateway ext local_id key) s.maps)

  operate-key_at :
      (o : Operation) (id k : ℕ) (s : YamlStore)
      → IsPersisted ext s
      → key_at id s.maps.by_local_id ≡ some k
      → key_at id (operate ext o s).maps.by_local_id ≡ some k
  unfolding operate
  operate-key_at (add_gateway opens writes local_id key) id k s p h =
      add-key_at opens writes local_id key id k s h
  operate-key_at (sync_one answer local_id) id k s p h = sync-key_at answer local_id id s p ∙ h
  operate-key_at (sync_every registry) id k s p h =
      sync_all-key_at registry s.maps.by_local_id id s p ∙ h
  operate-key_at (reload creates) id k s p h = (reopened ext creates s p).2 id ∙ h

  -- No gateway loses its key: in a store whose file holds what it has, a local ID keeps its key over
  -- every run of additions, registry synchronisations and restarts, failed ones among them, and the
  -- store still holds what its file has, where no failed addition leaves a part of its entry in the
  -- file; `decode_key` reads back what `encode_key` writes.
  pub key_survives :
      (os : List Operation) (id k : ℕ) (s : YamlStore)
      → all_whole os ≡ true
      → IsPersisted ext s
      → key_at id s.maps.by_local_id ≡ some k
      → (key_at id (run_store ext os s).maps.by_local_id ≡ some k)
        × IsPersisted ext (run_store ext os s)
  unfolding run_store
  key_survives [] id k s w p h = (h, p)
  key_survives (o ∷ os) id k s w p h =
      let (now, later) = and_true (is_whole o) (all_whole os) w in
      key_survives os id k (operate ext o s) later (operate-IsPersisted o s now p)
        (operate-key_at o id k s p h)
