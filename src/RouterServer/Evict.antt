-- ===== src/RouterServer/Evict.antt =====
-- What the two clean-up loops of router/router.go leave in the map.
use packet_handling.Base.{
  ℕ, ◌+◌, ◌*◌, ◌≤◌, ◌≡◌, ◌≢◌, refl, ◌↔◌, Bool, true, false, none, some, [], ◌∷◌, arith, ◌==◌,
  ==_iff, Bool-cases, inl, inr,
}
use packet_handling.Base.Time.{minute}
use packet_handling.GoMap.{Map, lookup, Distinct}
use packet_handling.RouterServer.{
  ManagedGateway, Server, Externals, evict, of_forwarder, timed_out, all_gateways_offline,
  cleanup_time_out_gateways,
}
use packet_handling.RouterServer.Loop.{forwarder_event, events_step}

module _ (ext : Externals) (test : ManagedGateway → Bool) where
  -- Whatever fails, an entry that the test spares stays, and nothing is added.
  evict-spares :
      (m : Map ManagedGateway) (id : ℕ) (g : ManagedGateway)
      → lookup id m ≡ some g
      → test g ≡ false
      → lookup id (evict ext test m).0 ≡ some g
  unfolding evict
  evict-spares [] id g h t = cc
  evict-spares ((j, x) ∷ m) id g h t = ground (arith, evict-spares m id g)

  lookup-evict-none :
      (m : Map ManagedGateway) (id : ℕ) → lookup id m ≡ none → lookup id (evict ext test m).0 ≡ none
  unfolding evict
  lookup-evict-none [] id h = refl
  lookup-evict-none ((j, x) ∷ m) id h = ground (arith, lookup-evict-none m id)

  pub Distinct-evict : (m : Map ManagedGateway) → Distinct m → Distinct (evict ext test m).0
  unfolding evict
  Distinct-evict [] d = tt
  Distinct-evict ((j, x) ∷ m) d = ground (arith, Distinct-evict m d.1, lookup-evict-none m j d.0)

  -- Where every unsubscription is taken, exactly the entries that the test spares stay.
  evict_iff :
      ((id : ℕ) → ext.set_subscription false id ≡ true)
      → (m : Map ManagedGateway) (id : ℕ) (g : ManagedGateway) → Distinct m
      → (lookup id (evict ext test m).0 ≡ some g) ↔ ((lookup id m ≡ some g) × (test g ≡ false))
  unfolding evict
  evict_iff all_taken [] id g d = (λ e. cc, λ e. cc)
  evict_iff all_taken ((j, x) ∷ m) id g d =
      let ih = evict_iff all_taken m id g d.1 in
      let absent = lookup-evict-none m id in
      elim (Bool-cases (j == id)) [
        | inl e ↦
            let gone : lookup id m ≡ none = rw (← (==_iff j id).0 e) d.0 in
            (λ h. ground (arith, all_taken j, absent gone), λ h. ground (arith, all_taken j))
        | inr e ↦ (λ h. ground (arith, all_taken j, ih.0), λ h. ground (arith, all_taken j, ih.1))
      ]

module _ (ext : Externals) (forwarder_id channel now : ℕ) (s : Server) where
  -- With one entry for each gateway, when a forwarder disconnects and the integration takes every
  -- unsubscription, exactly the gateways of the other forwarders stay, as they were.
  pub disconnect_iff :
      (id : ℕ) (g : ManagedGateway)
      → ((id : ℕ) → ext.set_subscription false id ≡ true)
      → Distinct s.gateways
      → (lookup id
            (events_step ext forwarder_id channel now (forwarder_event none) s).server.gateways
          ≡ some g)
        ↔ ((lookup id s.gateways ≡ some g) × (g.forwarder_id ≢ forwarder_id))
  unfolding events_step all_gateways_offline
  disconnect_iff id g taken d =
      let e = evict_iff ext (of_forwarder ext forwarder_id) taken s.gateways id g d in
      (λ h. let k = e.0 h in (k.0, λ p. ground (arith, k.1)), λ h. e.1 (h.0, ground arith))

  -- Whatever the integration refuses, a disconnect loses no gateway of another forwarder.
  pub disconnect_spares :
      (id : ℕ) (g : ManagedGateway)
      → lookup id s.gateways ≡ some g
      → g.forwarder_id ≢ forwarder_id
      → lookup id
          (events_step ext forwarder_id channel now (forwarder_event none) s).server.gateways
        ≡ some g
  unfolding events_step all_gateways_offline
  disconnect_spares id g h n =
      evict-spares ext (of_forwarder ext forwarder_id) s.gateways id g h (ground arith)

  -- With one entry for each gateway, a clean-up whose unsubscriptions the integration takes keeps
  -- exactly the gateways that were seen in the last five minutes.
  pub cleanup_iff :
      (id : ℕ) (g : ManagedGateway)
      → ((id : ℕ) → ext.set_subscription false id ≡ true)
      → Distinct s.gateways
      → (lookup id (cleanup_time_out_gateways ext now s).0.gateways ≡ some g)
        ↔ ((lookup id s.gateways ≡ some g) × (now ≤ g.last_seen + 5 * minute))
  unfolding cleanup_time_out_gateways
  cleanup_iff id g taken d =
      let e = evict_iff ext (timed_out ext now) taken s.gateways id g d in
      (λ h. let k = e.0 h in (k.0, ground (arith, k.1)), λ h. e.1 (h.0, ground arith))
