-- ===== src/RouterServer/Uplinks.antt =====
-- Uplinks from a gateway and the downlinks that answer them (router/router.go).
use packet_handling.Base.{
  ℕ, ◌+◌, ◌≡◌, true, false, ◌&&◌, some, List, [], ◌∷◌, arith, ltb, if◌then◌else◌, length,
}
use packet_handling.GoMap.{Distinct}
use packet_handling.GoMap.Laws.{lookup-insert}
use packet_handling.Wire.{
  UplinkFrame, AirtimeReceipt, GatewayToRouterEvent, DownlinkFrame, downlink_frame_event,
  uplink_frame_event,
}
use packet_handling.GatewayIds.{compressed_pub_key_bytes, network_id_of_id}
use packet_handling.GatewayIds.Agree.{key_to_id-compressed, length-be_bytes}
use packet_handling.RouterServer.{
  ManagedGateway, Server, Externals, Effect, publish_up, to_forwarder, gateway_online,
  handle_status, handle_uplink, same_gateway, downlink_frame,
}
use packet_handling.RouterServer.Loop.{
  forwarder_event, handle_body, handle_known, handle_event, events_step,
}
use packet_handling.RouterServer.Gateways.{deliver-found, events_step-Distinct}

-- The message that a forwarder makes of an uplink of the gateway with a ThingsIX ID.
abbrev pub uplink_message : ℕ → ℕ → UplinkFrame → AirtimeReceipt → GatewayToRouterEvent
uplink_message thingsix_id owner frame receipt = record {
  public_key = compressed_pub_key_bytes thingsix_id;
  owner = owner;
  body = uplink_frame_event frame receipt;
}

-- How often an uplink is published.
abbrev pub published : List Effect → ℕ
published [] = 0
published (publish_up id frame ∷ es) = 1 + published es
published (_ ∷ es) = published es

module _ (ext : Externals) (forwarder_id channel now : ℕ) where
  handle_message :
      (thingsix_id owner : ℕ) (frame : UplinkFrame) (receipt : AirtimeReceipt) (s : Server)
      → events_step ext forwarder_id channel now
          (forwarder_event (some (uplink_message thingsix_id owner frame receipt)))
          s
        ≡ handle_body ext forwarder_id channel now
            (network_id_of_id ext.sha256 thingsix_id)
            (uplink_frame_event frame receipt)
            s
  unfolding events_step handle_event handle_known
  handle_message thingsix_id owner frame receipt s =
      rw (long_enough, key_to_id-compressed ext.sha256 thingsix_id)
    where
      long_enough : ltb (length (compressed_pub_key_bytes thingsix_id)) 33 ≡ false
      long_enough =
          unfold compressed_pub_key_bytes in ground (arith, length-be_bytes 32 thingsix_id)

  -- An uplink that a forwarder sends for one of its gateways is published once, if the frame names
  -- that gateway and the integration takes it, and not at all otherwise.
  pub uplink_published :
      (thingsix_id owner : ℕ) (frame : UplinkFrame) (receipt : AirtimeReceipt) (s : Server)
      → let id = network_id_of_id ext.sha256 thingsix_id in
        published
          (events_step ext forwarder_id channel now
            (forwarder_event (some (uplink_message thingsix_id owner frame receipt)))
            s).effects
        ≡ (if same_gateway ext (ext.parse_eui frame.gateway_id) id && ext.publish id then 1 else 0)
  uplink_published thingsix_id owner frame receipt s =
      rw (handle_message thingsix_id owner frame receipt s)
        (unfold handle_body handle_uplink handle_status gateway_online in ground arith)

  -- With one entry for each gateway, after an uplink whose subscription was taken, the next
  -- downlink that names the gateway goes to the forwarder that sent the uplink, once, and to no
  -- other.
  pub downlink_follows_uplink :
      (thingsix_id owner : ℕ) (frame : UplinkFrame) (receipt : AirtimeReceipt)
      (reply : DownlinkFrame) (s : Server)
      → Distinct s.gateways
      → ext.set_subscription true (network_id_of_id ext.sha256 thingsix_id) ≡ true
      → ext.parse_eui reply.gateway_id ≡ some (network_id_of_id ext.sha256 thingsix_id)
      → downlink_frame ext reply
          (events_step ext forwarder_id channel now
            (forwarder_event (some (uplink_message thingsix_id owner frame receipt)))
            s).server
        ≡ to_forwarder channel (downlink_frame_event reply) ∷ []
  unfolding downlink_frame
  downlink_follows_uplink thingsix_id owner frame receipt reply s d taken named =
      let id : ℕ = network_id_of_id ext.sha256 thingsix_id in
      let message : GatewayToRouterEvent = uplink_message thingsix_id owner frame receipt in
      let entry : ManagedGateway = record {
        forwarder_id = forwarder_id;
        gateway_id = id;
        forwarder = channel;
        last_seen = now;
      } in
      rw named (
        deliver-found ext id (downlink_frame_event reply)
          (events_step ext forwarder_id channel now (forwarder_event (some message))
            s).server.gateways
          entry
          (events_step-Distinct ext forwarder_id channel now (forwarder_event (some message)) s d)
          (rw (handle_message thingsix_id owner frame receipt s) (
            unfold handle_body handle_status gateway_online in
            ground (arith, lookup-insert id id entry s.gateways))))
