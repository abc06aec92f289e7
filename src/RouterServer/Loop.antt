-- ===== src/RouterServer/Loop.antt =====
-- The event loop of `Events` (router/router.go) for one connected forwarder.
use packet_handling.Base.{
  ℕ, Bool, true, Option, none, some, List, [], ◌∷◌, ◌++◌, ltb, if◌then◌else◌, length,
}
use packet_handling.Wire.{
  GatewayToRouterEvent, GatewayToRouterBody, RouterToGatewayEvent, uplink_frame_event,
  downlink_tx_ack_event, status_event, other_event,
}
use packet_handling.GatewayIds.{gateway_public_key_to_id}
use packet_handling.RouterServer.{
  Server, Externals, Effect, sent, handle_uplink, handle_status, handle_downlink_tx_ack,
  all_gateways_offline,
}

-- The two channels of the select; `none` is a closed channel.
pub data Input : Type 0 where
  forwarder_event : Option GatewayToRouterEvent → Input
  integration_event : Option RouterToGatewayEvent → Bool → Input

pub data Outcome : Type 0 where
  go_on disconnected unavailable send_failed panics : Outcome

pub record Result : Type 0 where
  pub server : Server
  pub effects : List Effect
  pub outcome : Outcome

abbrev pub done : Server × List Effect → Outcome → Result
done (s, effects) o = record { server = s; effects = effects; outcome = o }

module _ (ext : Externals) (forwarder_id channel now : ℕ) where
  unfoldable pub handle_body : ℕ → GatewayToRouterBody → Server → Result
  handle_body id (uplink_frame_event frame receipt) s =
      let r = handle_status ext forwarder_id id true channel now s in
      done (r.0, handle_uplink ext id frame ++ r.1) go_on
  handle_body id (downlink_tx_ack_event ack receipt) s =
      done (s, handle_downlink_tx_ack ext id ack) go_on
  handle_body id (status_event online) s =
      done (handle_status ext forwarder_id id online channel now s) go_on
  handle_body id other_event s = done (s, []) go_on

  unfoldable pub handle_known : Option ℕ → GatewayToRouterBody → Server → Result
  handle_known none body s = done (s, []) go_on
  handle_known (some id) body s = handle_body id body s

  -- `pubKey[1:33]` panics on a key of fewer than 33 bytes, before its length is checked.
  unfoldable pub handle_event : GatewayToRouterEvent → Server → Result
  unfolding handle_known
  handle_event event s =
      if ltb (length event.public_key) 33
      then done (s, []) panics
      else handle_known (gateway_public_key_to_id ext.sha256 event.public_key) event.body s

  unfoldable pub events_step : Input → Server → Result
  events_step (forwarder_event none) s = done (all_gateways_offline ext forwarder_id s) disconnected
  events_step (forwarder_event (some event)) s = handle_event event s
  events_step (integration_event none ok) s =
      done (all_gateways_offline ext forwarder_id s) unavailable
  events_step (integration_event (some ev) ok) s =
      if ok then done (s, sent ev ∷ []) go_on else done (s, []) send_failed
