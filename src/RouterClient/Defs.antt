-- ===== src/RouterClient/Defs.antt =====
-- The state, inputs and effects of a router client (forwarder/router_client.go).
use packet_handling.Base.{ℕ, Bool, Option, List, ◌++◌}
use packet_handling.Base.Time.{be_bytes}
use packet_handling.GoMap.{Map}
use packet_handling.Wire.{GatewayEvent, GatewayToRouterEvent, RouterToGatewayEvent, AirtimePayment}
use packet_handling.Route.{Router, RouterDetails}

-- `RouterClient` with the map of pending downlink acks that `run` keeps: the time each was asked
-- for, by hash, and the time of the last event of each gateway, by network ID.
pub record Client (Bitmap : Type 0) : Type 0 where
  pub router : Router Bitmap
  pub pending : Map ℕ
  pub last_event : Map ℕ

-- The cases of the select; `none` is a closed channel, and a nil router in a set of routes.
pub data Input (Bitmap : Type 0) : Type 0 where
  ack_tick : ℕ → Input Bitmap
  details : RouterDetails → Input Bitmap
  from_gateway : Option GatewayEvent → Bool → ℕ → Input Bitmap
  from_router : Option RouterToGatewayEvent → ℕ → Input Bitmap
  routes : Option (List (Option (Router Bitmap))) → Input Bitmap
  renew_tick : Input Bitmap

pub data Effect : Type 0 where
  -- a message sent to the router, and an ack sent, with the key of its downlink
  send : GatewayToRouterEvent → Effect
  send_ack : ℕ → GatewayToRouterEvent → Effect
  -- `rc.routerEvents <-`, with the source router
  network_event : ℕ → RouterToGatewayEvent → Effect
  add_payment : AirtimePayment → Effect
  update_join_filter : Effect

-- How a step leaves the loop: it goes on, `run` returns nil or an error, or a nil is dereferenced.
pub data Outcome : Type 0 where
  go_on return_nil send_failed connection_lost endpoint_changed panics : Outcome

pub record Result (Bitmap : Type 0) : Type 0 where
  pub client : Client Bitmap
  pub effects : List Effect
  pub outcome : Outcome

-- `sha256.Sum256(binary.BigEndian.AppendUint32(id[:], downlinkID))`
abbrev pub downlink_key : (List ℕ → ℕ) → ℕ → ℕ → ℕ
downlink_key sha256 id downlink_id = sha256 (be_bytes 32 id ++ be_bytes 4 downlink_id)
