-- ===== src/RoutingTable/Runs.antt =====
-- The routing table over any number of refreshes (keepRouteTableUpToDate of forwarder/routes.go).
use packet_handling.Base.{ℕ, Bool, true, ◌&&◌, some, List, [], ◌∷◌, map}
use packet_handling.Bands.{UniqueGatewayBands}
use packet_handling.Route.{Router}
use packet_handling.RoutingTable.{Message}
use packet_handling.RoutingTable.Refresh.{wanted}

-- A fetched set with no nil, and the plans at its time.
pub record Fetch (Bitmap : Type 0) : Type 0 where
  pub bands : UniqueGatewayBands
  pub routers : List (Router Bitmap)

module _ {Bitmap : Type 0} where
  abbrev pub message_of : Fetch Bitmap → Message Bitmap
  message_of f = record { bands = f.bands; routers = map some f.routers }

  -- Every set names the router on a plan that is in use.
  abbrev pub always_wanted : ℕ → List (Fetch Bitmap) → Bool
  always_wanted id [] = true
  always_wanted id (f ∷ fs) = wanted f.bands f.routers id && always_wanted id fs
