-- ===== src/GatewayStore/Interface.antt =====
-- What clients rely on of `GatewayStore` (gateway/store.go): the lookup by local ID and `Add`, for both
-- stores. `IO` is what the operating system or the database answers an `Add`.
use packet_handling.Base.{
  ℕ, ◌≡◌, refl, Bool, Option, none, some, ◌==◌, if◌then◌else◌, arith, Bool-cases, inl, inr,
}
use packet_handling.GoMap.{lookup, insert}
use packet_handling.GoMap.Laws.{lookup-insert}
use packet_handling.GatewayStore.{
  Gateway, Externals, Maps, Error, Result, ok, err, or_not_found, new_gateway, by_local_id, index,
}
use packet_handling.GatewayStore.Yaml.{YamlStore, Writing}
use packet_handling.GatewayStore.Yaml
use packet_handling.GatewayStore.Postgres

pub record Store (S IO : Type 0) : Type 0 where
  pub by_local_id : ℕ → S → Result Gateway
  pub add : IO → ℕ → ℕ → S → Result Gateway × S

-- An `Add` that succeeds gives a gateway with the local ID and the key, not onboarded, and files it
-- and no other; one that fails changes no lookup.
pub record IsStore {S IO : Type 0} (st : Store S IO) : Type 0 where
  pub added :
      (io : IO) (id key : ℕ) (s : S) (gw : Gateway)
      → (st.add io id key s).0 ≡ ok gw
      → (gw.local_id ≡ id) × (gw.private_key ≡ key) × (gw.owner ≡ none)
  pub filed :
      (io : IO) (id key : ℕ) (s : S) (gw : Gateway) (j : ℕ)
      → (st.add io id key s).0 ≡ ok gw
      → st.by_local_id j (st.add io id key s).1 ≡ (if id == j then ok gw else st.by_local_id j s)
  pub refused :
      (io : IO) (id key : ℕ) (s : S) (e : Error) (j : ℕ)
      → (st.add io id key s).0 ≡ err e
      → st.by_local_id j (st.add io id key s).1 ≡ st.by_local_id j s

module _ (ext : Externals) where
  abbrev pub yaml_store : Store YamlStore (Bool × Writing)
  yaml_store = record {
    by_local_id = λ id s. by_local_id ext id s.maps;
    add = λ io id key s. Yaml.add ext io.0 io.1 id key s;
  }

  abbrev pub postgres_store : Store Maps (Option Error)
  postgres_store = record {
    by_local_id = by_local_id ext;
    add = λ io id key s. Postgres.add ext io id key s;
  }

  yaml-added :
      (opens : Bool) (writes : Writing) (id key : ℕ) (s : YamlStore) (gw : Gateway)
      → (Yaml.add ext opens writes id key s).0 ≡ ok gw
      → (gw ≡ new_gateway ext id key)
        × ((Yaml.add ext opens writes id key s).1.maps ≡ index ext gw s.maps)
  unfolding Yaml.add
  yaml-added opens writes id key s gw h = ground arith

  yaml-refused :
      (opens : Bool) (writes : Writing) (id key : ℕ) (s : YamlStore) (e : Error)
      → (Yaml.add ext opens writes id key s).0 ≡ err e
      → (Yaml.add ext opens writes id key s).1.maps ≡ s.maps
  unfolding Yaml.add
  yaml-refused opens writes id key s e h = ground arith

  -- A gateway is found where it was filed.
  lookup-filed :
      (gw : Gateway) (id j : ℕ) (s : Maps)
      → gw.local_id ≡ id
      → or_not_found (lookup j (insert gw.local_id gw s.by_local_id))
        ≡ (if id == j then ok gw else or_not_found (lookup j s.by_local_id))
  lookup-filed gw id j s e = elim (Bool-cases (id == j)) [
    | inl y ↦ rw (e, lookup-insert, y) refl
    | inr n ↦ rw (e, lookup-insert, n) refl
  ]

  yaml-IsStore : IsStore yaml_store
  unfolding new_gateway by_local_id index
  yaml-IsStore = record {
    added = λ io id key s gw h. ground (arith, yaml-added io.0 io.1 id key s gw h);
    filed = λ io id key s gw j h.
        let (e, f) = yaml-added io.0 io.1 id key s gw h in
        rw f (lookup-filed gw id j s.maps (ground (arith, e)));
    refused = λ io id key s e j h. rw (yaml-refused io.0 io.1 id key s e h) refl;
  }

  postgres-added :
      (io : Option Error) (id key : ℕ) (s : Maps) (gw : Gateway)
      → (Postgres.add ext io id key s).0 ≡ ok gw
      → (gw ≡ new_gateway ext id key)
        × ((Postgres.add ext io id key s).1.by_local_id ≡ insert gw.local_id gw s.by_local_id)
  unfolding Postgres.add
  postgres-added none id key s gw h = ground arith
  postgres-added (some e) id key s gw h = cc

  postgres-refused :
      (io : Option Error) (id key : ℕ) (s : Maps) (e : Error)
      → (Postgres.add ext io id key s).0 ≡ err e
      → (Postgres.add ext io id key s).1 ≡ s
  unfolding Postgres.add
  postgres-refused none id key s e h = cc
  postgres-refused (some f) id key s e h = refl

  postgres-IsStore : IsStore postgres_store
  unfolding new_gateway by_local_id
  postgres-IsStore = record {
    added = λ io id key s gw h. ground (arith, postgres-added io id key s gw h);
    filed = λ io id key s gw j h.
        let (e, f) = postgres-added io id key s gw h in
        rw f (lookup-filed gw id j s (ground (arith, e)));
    refused = λ io id key s e j h. rw (postgres-refused io id key s e h) refl;
  }

  -- Both stores refine the interface: an `Add` that succeeds gives a gateway with the local ID and the
  -- key, not onboarded, files it under its local ID and changes no other lookup by local ID, and an
  -- `Add` that fails changes none.
  pub stores-IsStore : IsStore yaml_store × IsStore postgres_store
  stores-IsStore = (yaml-IsStore, postgres-IsStore)
