-- ===== src/RoutingTable.antt =====
-- `RoutingTable` of forwarder/routes.go: the refresh interval of `Run`, and the refresh of the set
-- of router clients in `keepRouteTableUpToDate`. A fetched set is a list of pointers, `none` for
-- nil; a result `none` is the panic of a nil dereference. A client is named by a number.
pub mod Refresh
pub mod Starts
pub mod Nil
pub mod Runs
mod Tests
use packet_handling.Base.{
  ◌>>=◌, ℕ, suc, ◌*◌, Bool, true, false, ◌&&◌, not, Option, none, some, List, [], ◌∷◌, ◌++◌, ◌==◌,
  if◌then◌else◌,
}
use packet_handling.Base.Time.{minute}
use packet_handling.GoMap.{Map, lookup, insert}
use packet_handling.Bands.{UniqueGatewayBands, contains_frequency_plan}
use packet_handling.Route.{Router, RouterDetails}

-- What the refresh orders of the background routines.
pub data Action (Bitmap : Type 0) : Type 0 where
  stop : ℕ → ℕ → Action Bitmap
  update : ℕ → RouterDetails → Action Bitmap
  start : ℕ → Router Bitmap → Action Bitmap

-- `existingRouters`, and the number of the next client to start.
pub record Table : Type 0 where
  pub running : Map ℕ
  pub next : ℕ

module _ {Bitmap : Type 0} where
  abbrev pub details_of : Router Bitmap → RouterDetails
  details_of r = record {
    endpoint = r.endpoint;
    net_id = r.net_id;
    prefix = r.prefix;
    mask = r.mask;
    frequency_plan = r.frequency_plan;
    owner = r.owner;
  }

module _ {Bitmap : Type 0} (bands : UniqueGatewayBands) where
  abbrev pub wants : ℕ → Router Bitmap → Bool
  wants id r = r.thingsix_id == id && contains_frequency_plan bands r.frequency_plan

  -- The inner loop of the first phase: is the router of a client still in the set?
  kept : List (Option (Router Bitmap)) → ℕ → Option Bool
  kept [] id = some false
  kept (none ∷ rs) id = none
  kept (some r ∷ rs) id = let rest = kept rs id in if wants id r then some true else rest

  stop_gone : List (Option (Router Bitmap)) → Map ℕ → Option (Map ℕ × List (Action Bitmap))
  stop_gone rs [] = some ([], [])
  stop_gone rs ((id, client) ∷ m) = do
    stays ← kept rs id
    (m', actions) ← stop_gone rs m
    some (if stays then ((id, client) ∷ m', actions) else (m', stop id client ∷ actions))

  -- The second phase for one router.
  unfoldable pub start_one : Router Bitmap → Table → Table × List (Action Bitmap)
  start_one r t =
      if not (contains_frequency_plan bands r.frequency_plan)
      then (t, [])
      else elim (lookup r.thingsix_id t.running) [
        | some client ↦ (t, update client (details_of r) ∷ [])
        | none ↦ (
          record { running = insert r.thingsix_id t.next t.running; next = suc t.next },
          start t.next r ∷ [],
        )
      ]

  start_all : List (Option (Router Bitmap)) → Table → Option (Table × List (Action Bitmap))
  start_all [] t = some (t, [])
  start_all (none ∷ rs) t = none
  start_all (some r ∷ rs) t = do
    (t', actions) ← start_all rs (start_one r t).0
    some (t', (start_one r t).1 ++ actions)

  -- One message on `newRoutes`.
  pub refresh : List (Option (Router Bitmap)) → Table → Option (Table × List (Action Bitmap))
  refresh rs t = do
    (running, stops) ← stop_gone rs t.running
    (t', starts) ← start_all rs (record t { running = running })
    some (t', stops ++ starts)

-- A message on `newRoutes`, with the plans that the store's gateways use when it is read.
pub record Message (Bitmap : Type 0) : Type 0 where
  pub bands : UniqueGatewayBands
  pub routers : List (Option (Router Bitmap))

-- The loop of `keepRouteTableUpToDate` over the messages, and all that it orders.
unfoldable pub run_table :
    {Bitmap : Type 0} → List (Message Bitmap) → Table → Option (Table × List (Action Bitmap))
run_table [] t = some (t, [])
run_table (m ∷ ms) t = do
  (t1, actions) ← refresh m.bands m.routers t
  (t2, more) ← run_table ms t1
  some (t2, actions ++ more)

-- `runDefaultRouting`: one client for each configured router, numbered from `next` on
unfoldable pub run_default_routing :
    {Bitmap : Type 0} → List (Router Bitmap) → ℕ → List (Action Bitmap)
run_default_routing [] next = []
run_default_routing (r ∷ rs) next = start next r ∷ run_default_routing rs (suc next)

-- One round of `Run`: whether the routers were fetched, whether the broadcaster took them, and the
-- configured interval give the next interval.
pub next_interval : Bool → Bool → ℕ → ℕ
next_interval fetched broadcast configured =
    if not fetched then 2 * minute else if broadcast then configured else 2 * minute
