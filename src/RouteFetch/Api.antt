-- ===== src/RouteFetch/Api.antt =====
-- A snapshot of the API and the refresh that follows it (forwarder/utils.go, forwarder/routes.go).
use packet_handling.Base.{
  ℕ, String, ◌≡◌, ◌↔◌, refl, ap, ◌∙◌, Bool, true, false, not, Option, none, some, List, [], ◌∷◌,
  ◌++◌, map, arith, any, is_some, Option-cases, Bool-cases, inl, inr,
}
use packet_handling.Bands.{UniqueGatewayBands}
use packet_handling.Route.{Router}
use packet_handling.RoutingTable.{Table, refresh}
use packet_handling.RoutingTable.Refresh.{settled, refresh-some}
use packet_handling.RoutingTable.Nil.{refresh-nil}
use packet_handling.RouteFetch.{ApiRouter, router_of_api, routers_of_api}

-- Does the snapshot name a router by an ID that is not 32 bytes?
abbrev pub any_invalid : (String → Option ℕ) → List ApiRouter → Bool
any_invalid read_id = any (λ r. not (is_some (read_id r.id)))

module _ {Bitmap : Type 0} (read_id : String → Option ℕ) (plan : String → ℕ) where
  -- With an invalid ID somewhere there is a nil somewhere, and without one there is none.
  nil_inside :
      (rs : List ApiRouter)
      → any_invalid read_id rs ≡ true
      → (xs : List (Option (Router Bitmap))) × (ys : List (Option (Router Bitmap)))
        × (routers_of_api read_id plan rs ≡ xs ++ none ∷ ys)
  unfolding routers_of_api
  nil_inside [] h = absurd (ground arith)
  nil_inside (r ∷ rs) h = elim (Option-cases (read_id r.id)) [
    | inl n ↦ ([], routers_of_api read_id plan rs, rw (n, routers_of_api) refl)
    | inr (id, n) ↦
        let (xs, ys, e) = nil_inside rs (ground arith) in
        (
          some (router_of_api plan r id) ∷ xs,
          ys,
          rw (n, routers_of_api) (ap (◌∷◌ (some (router_of_api plan r id))) e),
        )
  ]

  no_nil :
      (rs : List ApiRouter)
      → any_invalid read_id rs ≡ false
      → (rs' : List (Router Bitmap)) × (routers_of_api read_id plan rs ≡ map some rs')
  unfolding routers_of_api
  no_nil [] h = ([], refl)
  no_nil (r ∷ rs) h = elim (Option-cases (read_id r.id)) [
    | inl n ↦ absurd (ground arith)
    | inr (id, n) ↦
        let (rs', e) = no_nil rs (ground arith) in
        (
          router_of_api plan r id ∷ rs',
          rw (n, routers_of_api) (ap (◌∷◌ (some (router_of_api plan r id))) e),
        )
  ]

  -- The refresh by a snapshot of the API comes to an end exactly if every router of the snapshot has
  -- an ID of 32 bytes; with any other ID it dereferences a nil pointer.
  pub api_refresh_iff :
      (bands : UniqueGatewayBands) (rs : List ApiRouter) (t : Table)
      → (refresh bands (routers_of_api {Bitmap = Bitmap} read_id plan rs) t ≡ none)
        ↔ (any_invalid read_id rs ≡ true)
  api_refresh_iff bands rs t = elim (Bool-cases (any_invalid read_id rs)) [
    | inl y ↦
        let (xs, ys, e) = nil_inside rs y in
        (λ h. y, λ h. ap (λ p. refresh bands p t) e ∙ refresh-nil bands xs ys t)
    | inr n ↦
        let (rs', e) = no_nil rs n in
        let ends : refresh bands (routers_of_api {Bitmap = Bitmap} read_id plan rs) t
            ≡ some (settled bands rs' t) =
          ap (λ p. refresh bands p t) e ∙ refresh-some bands rs' t in
        (λ h. cc (h, ends), λ h. cc (h, n))
  ]
