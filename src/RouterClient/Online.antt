-- ===== src/RouterClient/Online.antt =====
-- When a router hears that a gateway is online.
use packet_handling.Base.{
  ℕ, ◌+◌, ◌*◌, ◌≤◌, ◌≡◌, ◌≢◌, Bool, true, false, none, some, List, [], ◌∷◌, arith,
}
use packet_handling.Base.Time.{minute}
use packet_handling.GoMap.Laws.{lookup-insert, lookup-delete}
use packet_handling.DevAddr.{DevAddr}
use packet_handling.Wire.{GatewayEvent, GatewayToRouterEvent, online_of}
use packet_handling.Route.{Externals}
use packet_handling.RouterClient.Defs.{Client, from_gateway, send}
use packet_handling.RouterClient.Step.{forward, on_status, on_uplink, on_gateway_event, step}

abbrev pub uplink_from : ℕ → DevAddr → GatewayToRouterEvent → GatewayEvent
uplink_from g device event = record {
  join = none;
  uplink = some (device, event);
  online_offline = none;
  downlink_ack = none;
  received_from = g;
}

abbrev pub status_from : ℕ → GatewayToRouterEvent → GatewayEvent
status_from g event = record {
  join = none;
  uplink = none;
  online_offline = some event;
  downlink_ack = none;
  received_from = g;
}

module _ {Bitmap : Type 0} (ext : Externals Bitmap) (sha256 : List ℕ → ℕ) where
  -- After an uplink of a gateway went to the router, no online event of the gateway does for four
  -- minutes: the router takes the uplink for one.
  pub online_after_uplink :
      (c : Client Bitmap) (g : ℕ) (device : DevAddr) (event online : GatewayToRouterEvent)
      (sent sent' : Bool) (now later : ℕ)
      → (step ext sha256 c (from_gateway (some (uplink_from g device event)) sent now)).effects ≢ []
      → online_of online ≡ true
      → later ≤ now + 4 * minute
      → let c' =
          (step ext sha256 c (from_gateway (some (uplink_from g device event)) sent now)).client in
        (step ext sha256 c' (from_gateway (some (status_from g online)) sent' later)).effects ≡ []
  unfolding step on_gateway_event on_uplink on_status forward
  online_after_uplink c g device event online sent sent' now later h o l =
      ground (arith, lookup-insert g g now c.last_event)

  -- After an offline event of a gateway went to the router, its next online event does, however
  -- soon it comes, where the stream takes both.
  pub online_after_offline :
      (c : Client Bitmap) (g : ℕ) (offline online : GatewayToRouterEvent) (now later : ℕ)
      → online_of offline ≡ false
      → online_of online ≡ true
      → let c' =
          (step ext sha256 c (from_gateway (some (status_from g offline)) true now)).client in
        (step ext sha256 c' (from_gateway (some (status_from g online)) true later)).effects
        ≡ send online ∷ []
  unfolding step on_gateway_event on_status
  online_after_offline c g offline online now later f o =
      ground (arith, lookup-delete g g c.last_event)
