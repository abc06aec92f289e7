-- ===== src/RouterServer.antt =====
-- `Router` of router/router.go: the map of online gateways, the event loop of a connected forwarder,
-- and the downlinks from the integration. The integration, the EUI64 parser of lorawan and SHA-256
-- are parameters; a log line has no effect, and the gauge is its additions of 1 and of -1.
pub mod Loop
pub mod Evict
pub mod Gateways
pub mod Uplinks
mod Tests
use packet_handling.Base.{
  ℕ, suc, ◌+◌, ◌*◌, String, Bool, true, false, not, Option, none, some, List, [], ◌∷◌, ltb, ◌==◌,
  if◌then◌else◌, length,
}
use packet_handling.Base.Time.{minute}
use packet_handling.GoMap.{Map, insert, delete}
use packet_handling.Wire.{
  UplinkFrame, DownlinkFrame, DownlinkTxAck, GatewayToRouterEvent, GatewayToRouterBody,
  RouterToGatewayEvent, downlink_frame_event, uplink_frame_event, downlink_tx_ack_event,
  status_event, other_event,
}

-- `forwarderManagedGateway`; a channel is named by a number.
pub record ManagedGateway : Type 0 where
  pub forwarder_id : ℕ
  pub gateway_id : ℕ
  pub forwarder : ℕ
  pub last_seen : ℕ

pub record Server : Type 0 where
  pub gateways : Map ManagedGateway
  pub gauge_up : ℕ
  pub gauge_down : ℕ

pub data Effect : Type 0 where
  -- a subscription that the integration took
  subscribed : Bool → ℕ → Effect
  publish_up : ℕ → UplinkFrame → Effect
  publish_ack : ℕ → DownlinkTxAck → Effect
  -- `gateway.forwarder <-`
  to_forwarder : ℕ → RouterToGatewayEvent → Effect
  -- `forwarder.Send` on the stream
  sent : RouterToGatewayEvent → Effect

pub record Externals : Type 0 where
  pub sha256 : List ℕ → ℕ
  -- `Eui64FromString`
  pub parse_eui : String → Option ℕ
  -- do `SetGatewaySubscription(on, id)` and `PublishEvent(id, ..)` succeed?
  pub set_subscription : Bool → ℕ → Bool
  pub publish : ℕ → Bool

module _ (ext : Externals) where
  unfoldable pub gateway_online : ℕ → ℕ → ℕ → ℕ → Server → Server × List Effect
  gateway_online forwarder_id gateway_id channel now s =
      if ext.set_subscription true gateway_id
      then (
        record s {
          gauge_up = s.gauge_up + 1;
          gateways =
              insert gateway_id
                (record {
                  forwarder_id = forwarder_id;
                  gateway_id = gateway_id;
                  forwarder = channel;
                  last_seen = now;
                })
                s.gateways;
        },
        subscribed true gateway_id ∷ [],
      )
      else (s, [])

  unfoldable pub gateway_offline : ℕ → ℕ → Server → Server × List Effect
  gateway_offline forwarder_id gateway_id s =
      if ext.set_subscription false gateway_id
      then (
        record s { gauge_down = s.gauge_down + 1; gateways = delete gateway_id s.gateways },
        subscribed false gateway_id ∷ [],
      )
      else (s, [])

  -- The loops of `allGatewaysOffline` and `cleanupTimeOutGateways`: entries for which the test holds
  -- are unsubscribed and deleted, and the first unsubscription that fails ends the loop.
  unfoldable pub evict :
      (ManagedGateway → Bool) → Map ManagedGateway → Map ManagedGateway × ℕ × List Effect
  evict test [] = ([], 0, [])
  evict test ((id, g) ∷ m) =
      let rest = evict test m in
      if test g
      then if ext.set_subscription false id
        then (rest.0, suc rest.1, subscribed false id ∷ rest.2)
        else ((id, g) ∷ m, 0, [])
      else ((id, g) ∷ rest.0, rest.1, rest.2)

  abbrev pub evicted : (ManagedGateway → Bool) → Server → Server × List Effect
  evicted test s =
      let r = evict test s.gateways in
      (record s { gateways = r.0; gauge_down = s.gauge_down + r.1 }, r.2)

  abbrev pub of_forwarder : ℕ → ManagedGateway → Bool
  of_forwarder forwarder_id g = g.forwarder_id == forwarder_id

  -- `time.Since(gateway.lastSeen) > 5*time.Minute`
  abbrev pub timed_out : ℕ → ManagedGateway → Bool
  timed_out now g = ltb (g.last_seen + 5 * minute) now

  unfoldable pub all_gateways_offline : ℕ → Server → Server × List Effect
  all_gateways_offline forwarder_id = evicted (of_forwarder forwarder_id)

  unfoldable pub cleanup_time_out_gateways : ℕ → Server → Server × List Effect
  cleanup_time_out_gateways now = evicted (timed_out now)

  unfoldable pub handle_status : ℕ → ℕ → Bool → ℕ → ℕ → Server → Server × List Effect
  handle_status forwarder_id gateway_id online channel now s =
      if online
      then gateway_online forwarder_id gateway_id channel now s
      else gateway_offline forwarder_id gateway_id s

  -- The checks of `handleUplink` and `handleDownlinkTxAck` before anything is published.
  abbrev pub same_gateway : Option ℕ → ℕ → Bool
  same_gateway none id = false
  same_gateway (some id') id = id' == id

  unfoldable pub handle_uplink : ℕ → UplinkFrame → List Effect
  handle_uplink id frame =
      if same_gateway (ext.parse_eui frame.gateway_id) id
      then if ext.publish id then publish_up id frame ∷ [] else []
      else []

  unfoldable pub handle_downlink_tx_ack : ℕ → DownlinkTxAck → List Effect
  handle_downlink_tx_ack id ack =
      if same_gateway (ext.parse_eui ack.gateway_id) id
      then if ext.publish id then publish_ack id ack ∷ [] else []
      else []

  -- The loop of `sendDownlinkFrame`.
  unfoldable pub deliver : ℕ → RouterToGatewayEvent → Map ManagedGateway → List Effect
  deliver id event [] = []
  deliver id event ((j, g) ∷ m) =
      let rest = deliver id event m in
      if j == id then to_forwarder g.forwarder event ∷ rest else rest

  -- An id that does not parse is logged, and the zero id is used.
  abbrev or_zero : Option ℕ → ℕ
  or_zero none = 0
  or_zero (some id) = id

  unfoldable pub downlink_frame : DownlinkFrame → Server → List Effect
  downlink_frame frame s =
      deliver (or_zero (ext.parse_eui frame.gateway_id)) (downlink_frame_event frame) s.gateways
