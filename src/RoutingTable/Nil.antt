-- ===== src/RoutingTable/Nil.antt =====
-- A refresh of the routing table by a set with a nil router (forwarder/routes.go).
use packet_handling.Base.{
  ◌≡◌, refl, Option, none, some, List, [], ◌∷◌, ◌++◌, Option-cases, inl, inr,
}
use packet_handling.Bands.{UniqueGatewayBands}
use packet_handling.Route.{Router}
use packet_handling.RoutingTable.{Table, start_all, stop_gone, refresh}

module _ {Bitmap : Type 0} (bands : UniqueGatewayBands) where
  start_all-nil :
      (xs ys : List (Option (Router Bitmap))) (t : Table)
      → start_all bands (xs ++ none ∷ ys) t ≡ none
  unfolding start_all
  start_all-nil [] ys t = refl
  start_all-nil (none ∷ xs) ys t = refl
  start_all-nil (some r ∷ xs) ys t = rw (start_all-nil xs ys)

  -- A nil pointer anywhere in the fetched set ends every refresh in a nil dereference.
  pub refresh-nil :
      (xs ys : List (Option (Router Bitmap))) (t : Table) → refresh bands (xs ++ none ∷ ys) t ≡ none
  unfolding refresh
  refresh-nil xs ys t = elim (Option-cases (stop_gone bands (xs ++ none ∷ ys) t.running)) [
    | inl e ↦ rw e
    | inr (s, e) ↦ rw (e, start_all-nil xs ys)
  ]
