-- ===== src/Mapper/RoundTrip.antt =====
-- From a mapper's discovery packet to the downlink for it: forwarder/exchange.go,
-- forwarder/mapper.go and forwarder/coverage_client.go together.
use packet_handling.Base.{
  ℕ, ◌≡◌, refl, String, true, Option, some, [], ◌∷◌, arith, length, take, drop, List, Option-cases,
  Bool-cases, inl, inr,
}
use packet_handling.GoMap.{Map, lookup}
use packet_handling.Wire.{UplinkFrame}
use packet_handling.GatewayStore.{
  Gateway, Maps, by_local_id, by_network_id, by_local_id_string, by_network_id_string,
}
use packet_handling.UnknownGateways.{Answers}
use packet_handling.Exchange
use packet_handling.Exchange.{
  Exchange, Mac, Phy, unconfirmed_data_up, mac_payload, is_maybe_mapper_packet, to_mapper,
  to_backend, set_chaindata_in_frame_metadata,
}
use packet_handling.Exchange.Handlers.{
  network_frame, dispatch, uplink_frame_callback, handle_downlink_frame,
}
use packet_handling.MapperPacket.{packet_from_bytes}
use packet_handling.Coverage.{Receipt, TransmitRequest, Answer, service_of, deliver_discovery}
use packet_handling.Mapper.{
  Lru, Externals, seen, discovery, lowered, mapper_address, signed, region_of, receipt_of,
  handle_discovery_packet, handle_mapper_packet, downlink_of,
}
use text.Mathlib.Text.{◌==◌ as str_eq}

-- A response comes from the service that the index names.
delivered_to :
    (region : ℕ) (answer : Answer) (index : Map String) (o : Option TransmitRequest)
    → (deliver_discovery region answer index).1 ≡ some o
    → (deliver_discovery region answer index).0 ≡ lookup region index
unfolding deliver_discovery
delivered_to region answer index o h = elim (Option-cases (lookup region index)) [
  | inl n ↦ let h' = rw (n, deliver_discovery, service_of) at h in cc h'
  | inr (service, n) ↦
      let h' = rw (n, deliver_discovery, service_of) at h in
      elim (Bool-cases (str_eq service "")) [
        | inl y ↦ let h'' = rw y at h' in cc h''
        | inr m ↦ rw (n, deliver_discovery, service_of, m) refl
      ]
]

-- Where the receipt can be marshalled and signed, it is sent with the signature.
signed_with :
    (ext : Externals) (key : ℕ) (r : Receipt) (bytes signature : List ℕ)
    → ext.marshal_discovery r ≡ some bytes
    → ext.sign (ext.sha256 bytes) key ≡ some signature
    → signed ext ext.marshal_discovery key r ≡ some (record r { gateway_signature = signature })
unfolding signed
signed_with ext key r bytes signature m g = ground (arith, m, g)

-- The mapper of a packet with a good signature.
address_of :
    (ext : Externals) (phy pkb : List ℕ) (pk : ℕ)
    → ext.ecrecover (ext.sha256 (take 22 phy)) (drop 22 phy) ≡ some pkb
    → ext.unmarshal_pubkey pkb ≡ some pk
    → ext.verify_signature pkb (ext.sha256 (take 22 phy)) (take 64 (drop 22 phy)) ≡ true
    → mapper_address ext phy ≡ some (ext.pubkey_to_address pk)
unfolding mapper_address
address_of ext phy pkb pk e u v = rw (e, mapper_address, u, v) refl

module _ (ext : Externals) (exchange : Exchange.Externals) {C : Type 0} (lru : Lru C) where
  handled :
      (s : Maps) (frame : UplinkFrame) (gw : Gateway) (mac : Mac) (c : C) (mapper : ℕ) (r : Receipt)
      → ext.store.parse_eui frame.gateway_id ≡ some gw.network_id
      → lookup gw.network_id s.by_net_id ≡ some gw
      → mac.f_port ≡ some 1
      → length frame.phy_payload ≡ 87
      → mapper_address ext (lowered frame.phy_payload) ≡ some mapper
      → signed ext ext.marshal_discovery gw.private_key
          (receipt_of frame (lowered frame.phy_payload))
        ≡ some r
      → (handle_mapper_packet ext lru s frame mac c).1
        ≡ seen mapper (ext.cell_string (region_of ext (lowered frame.phy_payload)))
          ∷ discovery frame (region_of ext (lowered frame.phy_payload)) r
          ∷ []
  unfolding handle_mapper_packet handle_discovery_packet by_network_id_string by_network_id
      packet_from_bytes
  handled s frame gw mac c mapper r p l f n m g =
      let k : packet_from_bytes frame.phy_payload ≡ some frame.phy_payload = ground (arith, n) in
      ground (arith, p, l, f, k, m, g)

  -- A discovery packet that a known gateway receives is not broadcast to the routers. Where its mapper's
  -- signature is good, it becomes a receipt that is signed, as it was marshalled without a signature,
  -- by that gateway's key; where the coverage
  -- service answers the receipt with a request, that is the service which the index names for the
  -- packet's region, and the exchange hands the requested downlink to the backend for the gateway
  -- that heard the mapper.
  pub discovery_answered :
      (ans : Answers) (now local_id downlink_id pk : ℕ) (pkb bytes signature : List ℕ)
      (frame : UplinkFrame) (gw : Gateway) (mac : Mac) (s : Exchange) (c : C) (answer : Answer)
      (index : Map String) (request : TransmitRequest)
      → exchange.store.parse_eui frame.gateway_id ≡ some local_id
      → lookup local_id s.gateways.by_local_id ≡ some gw
      → lookup gw.network_id s.gateways.by_net_id ≡ some gw
      → exchange.store.parse_eui (exchange.eui_string gw.network_id) ≡ some gw.network_id
      → ext.store.parse_eui (exchange.eui_string gw.network_id) ≡ some gw.network_id
      → exchange.unmarshal_phy frame.phy_payload
        ≡ some (record { mtype = unconfirmed_data_up; payload = mac_payload mac })
      → is_maybe_mapper_packet frame mac ≡ true
      → mac.f_port ≡ some 1
      → length frame.phy_payload ≡ 87
      → ext.ecrecover
          (ext.sha256 (take 22 (lowered frame.phy_payload)))
          (drop 22 (lowered frame.phy_payload))
        ≡ some pkb
      → ext.unmarshal_pubkey pkb ≡ some pk
      → ext.verify_signature pkb
          (ext.sha256 (take 22 (lowered frame.phy_payload)))
          (take 64 (drop 22 (lowered frame.phy_payload)))
        ≡ true
      → ext.marshal_discovery (receipt_of frame (lowered frame.phy_payload)) ≡ some bytes
      → ext.sign (ext.sha256 bytes) gw.private_key ≡ some signature
      → (deliver_discovery (region_of ext (lowered frame.phy_payload)) answer index).1
        ≡ some (some request)
      → let heard = network_frame exchange ans now gw frame in
        let region = region_of ext (lowered frame.phy_payload) in
        (uplink_frame_callback exchange ans now frame s ≡ (s, to_mapper heard mac ∷ []))
        × ((handle_mapper_packet ext lru s.gateways heard mac c).1
            ≡ seen (ext.pubkey_to_address pk) (ext.cell_string region)
              ∷ discovery heard region (record (receipt_of frame (lowered frame.phy_payload)) {
                gateway_signature = signature;
              })
              ∷ [])
        × ((deliver_discovery region answer index).0 ≡ lookup region index)
        × (handle_downlink_frame exchange ans now (downlink_of downlink_id heard request) s
            ≡ some (
                to_backend (record (downlink_of downlink_id heard request) {
                  gateway_id = exchange.eui_string gw.local_id;
                })
                ∷ []))
  unfolding network_frame set_chaindata_in_frame_metadata is_maybe_mapper_packet
  discovery_answered ans now local_id downlink_id pk pkb bytes signature frame gw mac s c answer
        index request p l n back back' phy maybe port len e u v m g d =
      let heard = network_frame exchange ans now gw frame in
      (
        unfold uplink_frame_callback dispatch by_local_id_string by_local_id in
            ground (arith, p, l, phy, maybe),
        handled s.gateways heard gw mac c (ext.pubkey_to_address pk) _ back' n port len
            (address_of ext (lowered frame.phy_payload) pkb pk e u v)
            (signed_with ext gw.private_key (receipt_of frame (lowered frame.phy_payload)) bytes
              signature m g),
        delivered_to (region_of ext (lowered frame.phy_payload)) answer index (some request) d,
        unfold handle_downlink_frame by_network_id downlink_of in ground (arith, back, n),
      )
