-- ===== src/Route/Tests.antt =====
-- A router's interest in a device at work.
use packet_handling.Base.{◌≡◌, ◌↔◌, ◌⊎◌, refl, true, arith}
use packet_handling.Route.{interested_in}
use packet_handling.Route.Interest.{Subscribed, interested_in_iff}
use packet_handling.Samples.{device, device-IsAddr, route_ext, router}

interested_in_iff_example :
    (interested_in route_ext router device ≡ true)
    ↔ ((router.is_default ≡ true) ⊎ Subscribed route_ext router device)
interested_in_iff_example =
    interested_in_iff route_ext router device device-IsAddr (omega arith) refl
