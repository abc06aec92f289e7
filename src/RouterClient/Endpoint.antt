-- ===== src/RouterClient/Endpoint.antt =====
-- Updates of a router's details: a router that moved or left the routing table.
use text.Mathlib.Text.{◌==◌ as str_eq}
use packet_handling.Base.{
  ℕ, ◌≡◌, ◌↔◌, Bool, true, false, some, List, [], ◌∷◌, map, arith, ◌==◌, any,
}
use packet_handling.Route.{Externals, Router}
use packet_handling.RouterClient.Defs.{Client, routes, return_nil}
use packet_handling.RouterClient.Step.{apply_details, scan_routes, on_routes, step}

module _ {Bitmap : Type 0} (ext : Externals Bitmap) (sha256 : List ℕ → ℕ) where
  -- The scan ends in nil exactly if it found the router nowhere.
  scan_gone :
      (c : Client Bitmap) (rs : List (Router Bitmap)) (found : Bool)
      → ((scan_routes c (map some rs) found).outcome ≡ return_nil)
        ↔ ((found ≡ false) × (any (λ r. c.router.thingsix_id == r.thingsix_id) rs ≡ false))
  unfolding scan_routes
  scan_gone c [] found = (λ e. ground arith, λ e. ground arith)
  scan_gone c (r ∷ rs) found =
      let updated : Client Bitmap = record c {
        router = apply_details c.router r.endpoint r.net_id r.prefix r.mask r.owner;
      } in
      (
        λ e. ground (arith, (scan_gone updated rs true).0, (scan_gone c rs found).0),
        λ e. ground (arith, (scan_gone updated rs true).1, (scan_gone c rs found).1),
      )

  -- A client of a router that is not a default one leaves for good on a refreshed table exactly if
  -- the table does not name the router any more.
  pub leaves_iff_gone :
      (c : Client Bitmap) (rs : List (Router Bitmap))
      → c.router.is_default ≡ false
      → ((step ext sha256 c (routes (some (map some rs)))).outcome ≡ return_nil)
        ↔ (any (λ r. c.router.thingsix_id == r.thingsix_id) rs ≡ false)
  unfolding step on_routes
  leaves_iff_gone c rs d =
      (λ e. ground (arith, (scan_gone c rs false).0), λ e. ground (arith, (scan_gone c rs false).1))
