-- ===== src/Mapper/Seen.antt =====
-- Which region a confirmation goes to (forwarder/mapper.go).
use packet_handling.Base.{
  ℕ, ◌≡◌, refl, ◌∙◌, sym, subst, ◌≢◌, String, Option, none, some, List, [], ◌∷◌, ◌++◌, ◌==◌, arith,
  Option-cases, Bool-cases, ◌⊎◌, inl, inr,
}
use packet_handling.GoMap.{Map, lookup, insert}
use packet_handling.GoMap.Laws.{lookup-insert}
use packet_handling.Wire.{UplinkFrame}
use packet_handling.Exchange.{Mac}
use packet_handling.GatewayStore.{Gateway, Maps, Error, Result, ok, err, by_network_id_string}
use packet_handling.MapperPacket.{packet_from_bytes}
use packet_handling.Mapper.{
  Lru, IsLru, Externals, Effect, seen, discovery, confirmation, lowered, mapper_address, signed,
  region_of, receipt_of, on_discovery, on_region, on_confirmation, handle_discovery_packet,
  handle_downlink_confirmation_packet, handle_mapper_packet,
}

Result-cases {ℓ} :
    {A : Type ℓ} (r : Result A) → ((e : Error) × (r ≡ err e)) ⊎ ((a : A) × (r ≡ ok a))
Result-cases (err e) = inl (e, refl)
Result-cases (ok a) = inr (a, refl)

-- A mapper packet: the store's gateways when it is handled, its frame and its MAC payload.
pub record Packet : Type 0 where
  pub gateways : Maps
  pub frame : UplinkFrame
  pub mac : Mac

-- The region of the last discovery of each mapper, after the effects.
abbrev pub note : List Effect → Map String → Map String
note [] h = h
note (seen mapper region ∷ es) h = note es (insert mapper region h)
note (discovery frame region r ∷ es) h = note es h
note (confirmation mapper region r ∷ es) h = note es h

module _ (ext : Externals) where
  -- Every confirmation goes to the region of the last discovery of its mapper before it.
  abbrev pub Backed : Map String → List Effect → Type 0
  Backed h [] = Unit
  Backed h (seen mapper region ∷ es) = Backed (insert mapper region h) es
  Backed h (discovery frame region r ∷ es) = Backed h es
  Backed h (confirmation mapper region r ∷ es) =
      ((text : String) × (lookup mapper h ≡ some text) × (ext.cell_from_string text ≡ some region))
      × Backed h es

  Backed-append :
      (es fs : List Effect) (h : Map String)
      → Backed h es
      → Backed (note es h) fs
      → Backed h (es ++ fs)
  Backed-append [] fs h b c = c
  Backed-append (seen mapper region ∷ es) fs h b c = Backed-append es fs _ b c
  Backed-append (discovery frame region r ∷ es) fs h b c = Backed-append es fs h b c
  Backed-append (confirmation mapper region r ∷ es) fs h b c = (b.0, Backed-append es fs h b.1 c)

  module _ {C : Type 0} (lru : Lru C) where
    unfoldable pub run_mapper : List Packet → C → List Effect
    run_mapper [] c = []
    run_mapper (p ∷ ps) c =
        let r = handle_mapper_packet ext lru p.gateways p.frame p.mac c in r.1 ++ run_mapper ps r.0

    module _ (is_lru : IsLru lru) where
      -- What the cache finds is the region of the mapper's last discovery.
      abbrev Agrees : Map String → C → Type 0
      Agrees h c = (k : ℕ) (w : String) → (lru.get k c).0 ≡ some w → lookup k h ≡ some w

      -- A handler's part of the run: the confirmations are backed, and the cache goes on to agree.
      abbrev Fine : Map String → C × List Effect → Type 0
      Fine h r = Backed h r.1 × Agrees (note r.1 h) r.0

      Agrees-add :
          (h : Map String) (c : C) (mapper : ℕ) (region : String)
          → Agrees h c
          → Agrees (insert mapper region h) (lru.add mapper region c)
      Agrees-add h c mapper region a k w e = elim (Bool-cases (mapper == k)) [
        | inl y ↦
            let same : mapper ≡ k = ground arith in
            ground (
              arith,
              lookup-insert mapper k region h,
              subst (λ j. (lru.get j (lru.add mapper region c)).0 ≡ some region) same
                  (is_lru.get-add_self mapper region c),
            )
        | inr n ↦
            let other : k ≢ mapper = ground arith in
            let old = a k w (is_lru.get-add_other mapper k region w c other e) in
            ground (arith, lookup-insert mapper k region h)
      ]

      discovery-Fine :
          (h : Map String) (c : C) (frame : UplinkFrame) (gw : Gateway) (phy : List ℕ)
          (mapper : Option ℕ)
          → Agrees h c
          → Fine h (on_discovery ext lru frame gw phy mapper c)
      discovery-Fine h c frame gw phy none a = (tt, a)
      discovery-Fine h c frame gw phy (some mapper) a =
          let after = Agrees-add h c mapper (ext.cell_string (region_of ext phy)) a in
          elim (Option-cases
            (signed ext ext.marshal_discovery gw.private_key (receipt_of frame phy))) [
              | inl n ↦ rw n (tt, after)
              | inr (r, n) ↦ rw n (tt, after)
            ]

      on_region-Fine :
          (h : Map String) (c : C) (frame : UplinkFrame) (gw : Gateway) (phy : List ℕ) (mapper : ℕ)
          (found : Option String)
          → (found ≡ (lru.get mapper c).0)
          → Agrees h c
          → Fine h (on_region ext frame gw phy mapper (found, (lru.get mapper c).1))
      on_region-Fine h c frame gw phy mapper none f a =
          (tt, λ k w e. a k w (sym (is_lru.get-get mapper k c) ∙ e))
      on_region-Fine h c frame gw phy mapper (some text) f a =
          let after : Agrees h (lru.get mapper c).1 =
            λ k w e. a k w (sym (is_lru.get-get mapper k c) ∙ e) in
          elim (Option-cases (ext.cell_from_string text)) [
            | inl n ↦ rw (n, on_region) (tt, after)
            | inr (region, n) ↦
                elim (Option-cases
                  (signed ext ext.marshal_confirmation gw.private_key (receipt_of frame phy))) [
                    | inl m ↦ rw (n, on_region, m) (tt, after)
                    | inr (r, m) ↦
                        rw (n, on_region, m) (((text, a mapper text (sym f), n), tt), after)
                  ]
          ]

      confirmation-Fine :
          (h : Map String) (c : C) (frame : UplinkFrame) (gw : Gateway) (phy : List ℕ)
          (mapper : Option ℕ)
          → Agrees h c
          → Fine h (on_confirmation ext lru frame gw phy mapper c)
      confirmation-Fine h c frame gw phy none a = (tt, a)
      confirmation-Fine h c frame gw phy (some mapper) a =
          on_region-Fine h c frame gw phy mapper (lru.get mapper c).0 refl a

      discovery_packet-Fine :
          (h : Map String) (c : C) (s : Maps) (frame : UplinkFrame)
          → Agrees h c
          → Fine h (handle_discovery_packet ext lru s frame c)
      unfolding handle_discovery_packet
      discovery_packet-Fine h c s frame a =
          elim (Result-cases (by_network_id_string ext.store frame.gateway_id s)) [
            | inl (e, n) ↦ rw (n, handle_discovery_packet) (tt, a)
            | inr (gw, n) ↦ elim (Option-cases (packet_from_bytes frame.phy_payload)) [
              | inl m ↦ rw (n, handle_discovery_packet, m) (tt, a)
              | inr (phy, m) ↦
                  rw (n, handle_discovery_packet, m)
                    (discovery-Fine h c frame gw (lowered phy) (mapper_address ext (lowered phy)) a)
            ]
          ]

      confirmation_packet-Fine :
          (h : Map String) (c : C) (s : Maps) (frame : UplinkFrame)
          → Agrees h c
          → Fine h (handle_downlink_confirmation_packet ext lru s frame c)
      unfolding handle_downlink_confirmation_packet
      confirmation_packet-Fine h c s frame a =
          elim (Result-cases (by_network_id_string ext.store frame.gateway_id s)) [
            | inl (e, n) ↦ rw (n, handle_downlink_confirmation_packet) (tt, a)
            | inr (gw, n) ↦ elim (Option-cases (packet_from_bytes frame.phy_payload)) [
              | inl m ↦ rw (n, handle_downlink_confirmation_packet, m) (tt, a)
              | inr (phy, m) ↦
                  rw (n, handle_downlink_confirmation_packet, m)
                    (confirmation-Fine h c frame gw (lowered phy) (mapper_address ext (lowered phy))
                      a)
            ]
          ]

      packet-Fine :
          (h : Map String) (c : C) (p : Packet)
          → Agrees h c
          → Fine h (handle_mapper_packet ext lru p.gateways p.frame p.mac c)
      unfolding handle_mapper_packet
      packet-Fine h c p a = elim (Option-cases p.mac.f_port) [
        | inl n ↦ rw (n, handle_mapper_packet) (tt, a)
        | inr (port, n) ↦ elim (Bool-cases (port == 1)) [
          | inl y ↦ rw (n, handle_mapper_packet, y) (discovery_packet-Fine h c p.gateways p.frame a)
          | inr m ↦ elim (Bool-cases (port == 2)) [
            | inl y ↦
                rw (n, handle_mapper_packet, m, y)
                  (confirmation_packet-Fine h c p.gateways p.frame a)
            | inr k ↦ rw (n, handle_mapper_packet, m, k) (tt, a)
          ]
        ]
      ]

      run-Backed :
          (ps : List Packet) (h : Map String) (c : C) → Agrees h c → Backed h (run_mapper ps c)
      unfolding run_mapper
      run-Backed [] h c a = tt
      run-Backed (p ∷ ps) h c a =
          let f = packet-Fine h c p a in
          let r = handle_mapper_packet ext lru p.gateways p.frame p.mac c in
          Backed-append r.1 (run_mapper ps r.0) h f.0 (run-Backed ps (note r.1 h) r.0 f.1)

      -- However mapper packets come in and whatever the cache evicts, from the start of the forwarder
      -- each confirmation that it hands on goes to the region of its mapper's last discovery with a
      -- good signature before it; without one it hands nothing on.
      pub confirmation_follows_discovery : (ps : List Packet) → Backed [] (run_mapper ps lru.empty)
      confirmation_follows_discovery ps =
          run-Backed ps [] lru.empty (λ k w e. cc (is_lru.get-empty k, e))
