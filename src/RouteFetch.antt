-- ===== src/RouteFetch.antt =====
-- Where the routing table comes from: fetchRoutersFromChain, fetchRoutersFromThingsIXAPI
-- (forwarder/utils.go) and obtainThingsIXRoutesFunc (forwarder/routes.go). The node, the contract
-- and the HTTP call are inputs; a fetched set is a list of pointers, `none` for nil.
pub mod Chain
pub mod Api
mod Tests
use packet_handling.Base.{
  ℕ, zero, suc, ◌+◌, ◌-◌, ◌*◌, ◌%◌, ◌^◌, ◌≤◌, String, Bool, true, false, not, Option, none, some,
  List, [], ◌∷◌, ◌++◌, map, ltb, ◌==◌, if◌then◌else◌,
}
use packet_handling.Base.Time.{minute}
use packet_handling.Route.{Router, new_router}

-- A router of the contract, with its ID as a number, and one of the API's snapshot.
pub record ChainRouter : Type 0 where
  pub id : ℕ
  pub endpoint : String
  pub net_id : ℕ
  pub prefix : ℕ
  pub mask : ℕ
  pub frequency_plan : ℕ
  pub owner : ℕ

pub record ApiRouter : Type 0 where
  pub id : String
  pub endpoint : String
  pub net_id : ℕ
  pub prefix : ℕ
  pub mask : ℕ
  pub band : String
  pub owner : ℕ

-- A set of routers, an error, or a loop that has not ended.
pub data Fetched (A : Type 0) : Type 0 where
  fetched : A → Fetched A
  failed : Fetched A
  out_of_fuel : Fetched A

-- The low 24 bits of a uint32, as three bytes
abbrev pub net_id_of : ℕ → ℕ
net_id_of n = n % 2 ^ 32 % 2 ^ 24

abbrev pub page_size : ℕ
page_size = 50

-- `RoutersPaged(start, end)`, `none` on an error
abbrev pub Paged : Type 0
Paged = ℕ → ℕ → Option (List ChainRouter)

-- `for i := 0; i*pageSize < routerCount; i += pageSize`
unfoldable pub chain_pages : Paged → ℕ → ℕ → ℕ → List ChainRouter → Fetched (List ChainRouter)
chain_pages paged count zero i acc = out_of_fuel
chain_pages paged count (suc fuel) i acc =
    if ltb (i * page_size) count
    then elim (paged i (i + page_size)) [
      | none ↦ failed
      | some page ↦ chain_pages paged count fuel (i + page_size) (acc ++ page)
    ]
    else fetched acc

-- The answers of the node: the number of the head block, the router count, and the pages.
pub record Node : Type 0 where
  pub head : Option ℕ
  pub router_count : Option ℕ
  pub routers_paged : Paged

module _ {Bitmap : Type 0} where
  abbrev pub router_of_chain : ChainRouter → Router Bitmap
  router_of_chain r =
      new_router r.id r.endpoint false (net_id_of r.net_id) r.prefix r.mask r.frequency_plan r.owner

  pointers : Fetched (List ChainRouter) → Fetched (List (Option (Router Bitmap)))
  pointers (fetched rs) = fetched (map (λ r. some (router_of_chain r)) rs)
  pointers failed = failed
  pointers out_of_fuel = out_of_fuel

  -- `fetchRoutersFromChain`, by the number of confirmations
  unfoldable pub fetch_from_chain : Node → ℕ → ℕ → Fetched (List (Option (Router Bitmap)))
  unfolding pointers
  fetch_from_chain node confirmations fuel = elim node.head [
    | none ↦ failed
    | some head ↦ if ltb head confirmations then fetched [] else elim node.router_count [
      | none ↦ failed
      | some count ↦ pointers (chain_pages node.routers_paged count fuel 0 [])
    ]
  ]

  abbrev pub router_of_api : (String → ℕ) → ApiRouter → ℕ → Router Bitmap
  router_of_api plan r id =
      new_router id r.endpoint false (net_id_of r.net_id) r.prefix r.mask (plan r.band) r.owner

  -- The loop of `fetchRoutersFromThingsIXAPI`: `common.FromHex` of an ID, `none` where it does not
  -- give 32 bytes, and `ToBlockchain`. A router with such an ID is skipped, its place stays nil.
  unfoldable pub routers_of_api :
      (String → Option ℕ) → (String → ℕ) → List ApiRouter → List (Option (Router Bitmap))
  routers_of_api read_id plan [] = []
  routers_of_api read_id plan (r ∷ rs) =
      let rest = routers_of_api read_id plan rs in
      elim (read_id r.id) [ none ↦ none ∷ rest | some id ↦ some (router_of_api plan r id) ∷ rest ]

  -- The snapshot: its chain ID and its routers, or `none` where the call or the decoding fails.
  unfoldable pub fetch_from_api :
      (String → Option ℕ)
      → (String → ℕ)
      → ℕ
      → Option (ℕ × List ApiRouter)
      → Fetched (List (Option (Router Bitmap)))
  fetch_from_api read_id plan chain_id none = failed
  fetch_from_api read_id plan chain_id (some (chain, routers)) =
      if not (chain == chain_id) then failed else fetched (routers_of_api read_id plan routers)

-- The intervals: the configured one unless it is too small.
abbrev pub interval_or : ℕ → Option ℕ → ℕ
interval_or least none = 30 * minute
interval_or least (some configured) = if ltb configured least then 30 * minute else configured

unfoldable pub chain_interval : Option ℕ → ℕ
chain_interval = interval_or minute

unfoldable pub api_interval : Option ℕ → ℕ
api_interval = interval_or (15 * minute)

-- Where the routers come from: the contract, the API at an endpoint, or the configuration alone.
pub data Source : Type 0 where
  from_chain only_defaults : Source
  from_api : String → Source

-- `obtainThingsIXRoutesFunc`, by whether the contract is configured and by the endpoint of the API, of
-- which both the configuration and the endpoint may be nil
unfoldable pub obtain_routes : Bool → Option (Option String) → Source
obtain_routes true api = from_chain
obtain_routes false none = only_defaults
obtain_routes false (some none) = only_defaults
obtain_routes false (some (some endpoint)) = from_api endpoint
