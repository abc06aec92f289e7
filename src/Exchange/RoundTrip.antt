-- ===== src/Exchange/RoundTrip.antt =====
-- A packet's way from a gateway to a router and its answer's way back: forwarder/exchange.go and
-- router/router.go together.
use packet_handling.Base.{ℕ, ◌≡◌, ◌∙◌, ap, true, some, [], ◌∷◌, arith}
use packet_handling.GoMap.{lookup, Distinct}
use packet_handling.Wire.{UplinkFrame, DownlinkFrame, downlink_frame_event}
use packet_handling.GatewayIds.{network_id_of_id}
use packet_handling.GatewayStore.{Gateway, by_network_id}
use packet_handling.RouterServer
use packet_handling.RouterServer.{Server, to_forwarder}
use packet_handling.RouterServer.Loop.{forwarder_event, events_step}
use packet_handling.RouterServer.Uplinks.{published, uplink_published, downlink_follows_uplink}
use packet_handling.Exchange.{Externals, Exchange, to_backend, set_chaindata_in_frame_metadata}
use packet_handling.UnknownGateways.{Answers}
use packet_handling.Exchange.Handlers.{
  on_network_event, owner_bytes, network_frame, uplink_event, handle_downlink_frame,
}

downlink_to_local :
    (ext : Externals) (ans : Answers) (now : ℕ) (gw : Gateway) (answer : DownlinkFrame)
    (s : Exchange)
    → ext.store.parse_eui answer.gateway_id ≡ some gw.network_id
    → lookup gw.network_id s.gateways.by_net_id ≡ some gw
    → handle_downlink_frame ext ans now answer s
      ≡ some (to_backend (record answer { gateway_id = ext.eui_string gw.local_id }) ∷ [])
unfolding handle_downlink_frame by_network_id
downlink_to_local ext ans now gw answer s p h = ground (arith, p, h)

-- What the forwarder sends for an uplink of a gateway, whose network ID follows from its ThingsIX ID
-- and under which the store has it, comes back: a router whose integration takes subscriptions and
-- uplinks publishes the frame once, sends an answer to the gateway to the same forwarder and to no
-- other, and the exchange hands the answer to the backend under the gateway's local ID. The text of
-- the ID reads back on both sides, and both sides use the same SHA-256.
pub answer_comes_back :
    (ext : Externals) (router : RouterServer.Externals) (ans : Answers)
    (forwarder_id channel now : ℕ) (gw : Gateway) (frame : UplinkFrame) (answer : DownlinkFrame)
    (s : Exchange) (server : Server)
    → Distinct server.gateways
    → router.set_subscription true gw.network_id ≡ true
    → router.publish gw.network_id ≡ true
    → router.parse_eui (ext.eui_string gw.network_id) ≡ some gw.network_id
    → ext.store.parse_eui (ext.eui_string gw.network_id) ≡ some gw.network_id
    → gw.network_id ≡ network_id_of_id router.sha256 gw.thingsix_id
    → lookup gw.network_id s.gateways.by_net_id ≡ some gw
    → answer.gateway_id ≡ ext.eui_string gw.network_id
    → let r =
        events_step router forwarder_id channel now
          (forwarder_event (some (uplink_event ext ans now gw frame)))
          server in
      (published r.effects ≡ 1)
      × (RouterServer.downlink_frame router answer r.server
          ≡ to_forwarder channel (downlink_frame_event answer) ∷ [])
      × (on_network_event ext ans now (downlink_frame_event answer) s
          ≡ some (to_backend (record answer { gateway_id = ext.eui_string gw.local_id }) ∷ []))
unfolding on_network_event uplink_event network_frame set_chaindata_in_frame_metadata
answer_comes_back ext router ans forwarder_id channel now gw frame answer s server d sub takes parse
      back net stored named =
    let sent : UplinkFrame = network_frame ext ans now gw frame in
    (
      uplink_published router forwarder_id channel now gw.thingsix_id (owner_bytes gw) sent _ server
          ∙ rw (← net, parse, takes) (ground arith),
      downlink_follows_uplink router forwarder_id channel now gw.thingsix_id (owner_bytes gw) sent _
          answer server d (rw (← net) sub) (rw (named, parse) (ap some net)),
      downlink_to_local ext ans now gw answer s (ap ext.store.parse_eui named ∙ back) stored,
    )
