-- ===== src/GatewayStore/Reload.antt =====
-- What the database store has after it has loaded its rows (gateway/store_postgres.go).
use packet_handling.Base.{
  ℕ, ◌≡◌, refl, ◌∙◌, subst, true, Option, none, some, List, [], ◌∷◌, ◌++◌, ◌==◌, if◌then◌else◌,
  arith, Option-cases, inl, inr,
}
use packet_handling.GoMap.{Map, lookup}
use packet_handling.GatewayStore.{
  Gateway, Externals, Maps, Error, RegistryEntry, new_gateway, stored_gateway, index, synced,
}
use packet_handling.GatewayStore.Postgres.{
  Row, must_sync, row_gateway, load_rows, sync_gateway, sync_each, load_from_postgres,
}
use packet_handling.GatewayStore.Persisted.{key_at, key_at-index}
use packet_handling.GatewayStore.Consistent.{IsDerived, Filed, IsConsistent, index-IsConsistent}

-- The key of the last row with a local ID.
abbrev pub row_key : ℕ → List Row → Option ℕ
row_key id [] = none
row_key id (r ∷ rs) = elim (row_key id rs) [
  | some k ↦ some k
  | none ↦ if id == r.local_id then r.private_key else none
]

abbrev or_else : Option ℕ → Option ℕ → Option ℕ
or_else none b = b
or_else (some a) b = some a

module _ (ext : Externals) where
  row_gateway-some :
      (r : Row) (gw : Gateway)
      → row_gateway ext r ≡ some gw
      → (gw.local_id ≡ r.local_id) × (r.private_key ≡ some gw.private_key) × IsDerived ext gw
  unfolding row_gateway stored_gateway new_gateway
  row_gateway-some r gw h = elim (Option-cases r.private_key) [
    | inl n ↦ let h' = rw (n, row_gateway) at h in cc h'
    | inr (key, n) ↦
        let e = rw (n, row_gateway) at h in
        (ground (arith, e), n ∙ ground (arith, e), ground (arith, e))
  ]

  load_rows-step :
      (now : ℕ) (r : Row) (rs : List Row) (s m : Maps) (old stale : List ℕ) (gw : Gateway)
      → row_gateway ext r ≡ some gw
      → load_rows ext now (r ∷ rs) s old ≡ some (m, stale)
      → load_rows ext now rs
          (index ext gw s)
          (if must_sync now r then old ++ r.local_id ∷ [] else old)
        ≡ some (m, stale)
  unfolding load_rows
  load_rows-step now r rs s m old stale gw g h = rw (g, load_rows) at h

  load_rows-loads :
      (now : ℕ) (rows : List Row) (s m : Maps) (old stale : List ℕ)
      → IsConsistent ext s
      → load_rows ext now rows s old ≡ some (m, stale)
      → IsConsistent ext m
        × ((id : ℕ) → key_at id m.by_local_id ≡ or_else (row_key id rows) (key_at id s.by_local_id))
  unfolding load_rows
  load_rows-loads now [] s m old stale c h =
      let same : s ≡ m = ground (arith, h) in
      subst
        (λ (x : Maps).
          IsConsistent ext x × ((id : ℕ) → key_at id x.by_local_id ≡ key_at id s.by_local_id))
        same (c, λ id. refl)
  load_rows-loads now (r ∷ rs) s m old stale c h = elim (Option-cases (row_gateway ext r)) [
    | inl n ↦ let h' = rw (n, load_rows) at h in cc h'
    | inr (gw, n) ↦
        let (own, key, derived) = row_gateway-some r gw n in
        let (consistent, keys) =
          load_rows-loads now rs (index ext gw s) m
            (if must_sync now r then old ++ r.local_id ∷ [] else old) stale
            (index-IsConsistent ext gw s derived c)
            (load_rows-step now r rs s m old stale gw n h) in
        (consistent, λ id. ground (arith, keys id, key_at-index ext id gw s, own, key))
  ]

  Filed-lookup :
      (m : Map Gateway) (id : ℕ) (gw : Gateway)
      → Filed ext (λ g. g.local_id) m
      → lookup id m ≡ some gw
      → gw.local_id ≡ id
  Filed-lookup [] id gw f h = cc
  Filed-lookup ((i, g) ∷ m) id gw f h = ground (arith, Filed-lookup m id gw f.2, f.0)

  sync-loaded :
      (answer : Option RegistryEntry) (failed : Option Error) (id : ℕ) (s : Maps)
      → IsConsistent ext s
      → IsConsistent ext (sync_gateway ext answer failed id s).1
        × ((j : ℕ)
            → key_at j (sync_gateway ext answer failed id s).1.by_local_id ≡ key_at j s.by_local_id)
  unfolding sync_gateway synced
  sync-loaded none failed id s c = elim (Option-cases (lookup id s.by_local_id)) [
    | inl n ↦ rw (n, sync_gateway) (c, λ j. refl)
    | inr (gw, n) ↦ rw (n, sync_gateway) (c, λ j. refl)
  ]
  sync-loaded (some e) (some f) id s c = elim (Option-cases (lookup id s.by_local_id)) [
    | inl n ↦ rw (n, sync_gateway) (c, λ j. refl)
    | inr (gw, n) ↦ rw (n, sync_gateway) (c, λ j. refl)
  ]
  sync-loaded (some e) none id s c = elim (Option-cases (lookup id s.by_local_id)) [
    | inl n ↦ rw (n, sync_gateway) (c, λ j. refl)
    | inr (gw, n) ↦
        rw (n, sync_gateway)
          (
            index-IsConsistent ext (synced ext gw e) s (refl, refl) c,
            λ j. ground (
              arith,
              key_at-index ext j (synced ext gw e) s,
              n,
              Filed-lookup s.by_local_id id gw c.local n,
            ),
          )
  ]

  sync_each-loaded :
      (registry : ℕ → Option RegistryEntry) (failed : ℕ → Option Error) (ids : List ℕ) (s : Maps)
      → IsConsistent ext s
      → IsConsistent ext (sync_each ext registry failed ids s)
        × ((j : ℕ)
            → key_at j (sync_each ext registry failed ids s).by_local_id ≡ key_at j s.by_local_id)
  unfolding sync_each
  sync_each-loaded registry failed [] s c = (c, λ j. refl)
  sync_each-loaded registry failed (id ∷ ids) s c =
      let (one, keys) = sync-loaded (registry id) (failed id) id s c in
      let (all, more) =
        sync_each-loaded registry failed ids (sync_gateway ext (registry id) (failed id) id s).1
          one in
      (all, λ j. more j ∙ keys j)

  -- A load of the database store that succeeds gives each local ID the key of its last row, and no
  -- key to any other, whatever the registry and the database answer the synchronisation of the rows
  -- that are due; the three maps agree with the keys afterwards.
  pub load_from_postgres_keys :
      (registry : ℕ → Option RegistryEntry) (failed : ℕ → Option Error) (now id : ℕ)
      (rows : List Row) (s : Maps)
      → (load_from_postgres ext registry failed now (some rows) s).0 ≡ true
      → (key_at id (load_from_postgres ext registry failed now (some rows) s).1.by_local_id
          ≡ row_key id rows)
        × IsConsistent ext (load_from_postgres ext registry failed now (some rows) s).1
  unfolding load_from_postgres
  load_from_postgres_keys registry failed now id rows s h =
      let fresh : Maps = record s { by_local_id = []; by_net_id = []; by_thingsix_id = [] } in
      elim (Option-cases (load_rows ext now rows fresh [])) [
        | inl n ↦ let h' = rw n at h in cc h'
        | inr ((m, stale), n) ↦
            let (c, keys) =
              load_rows-loads now rows fresh m [] stale
                (record { local = tt; network = tt; thingsix = tt }) n in
            let (all, same) = sync_each-loaded registry failed stale m c in
            rw n (same id ∙ keys id ∙ or_else_none (row_key id rows), all)
      ]
    where
      or_else_none : (o : Option ℕ) → or_else o none ≡ o
      or_else_none none = refl
      or_else_none (some k) = refl
