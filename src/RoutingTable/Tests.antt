-- ===== src/RoutingTable/Tests.antt =====
-- A refresh of the routing table at work: a client whose router is gone, and a new router.
use packet_handling.Base.{ℕ, ◌≡◌, refl, none, some, List, [], ◌∷◌, map, if◌then◌else◌}
use packet_handling.GoMap.{lookup, has}
use packet_handling.RoutingTable.{Action, Table, start, refresh, run_default_routing}
use packet_handling.RoutingTable.Runs.{Fetch}
use packet_handling.RoutingTable.Refresh.{wanted, refresh_running}
use packet_handling.Samples.{router, plans}

abbrev table : Table
table = record { running = (3, 0) ∷ []; next = 1 }

refresh_running_example :
    (t' : Table) × (actions : List (Action (List ℕ))) × (refresh plans
        (map some (router ∷ []))
        table
      ≡ some (t', actions))
    × ((id : ℕ) → has id t'.running ≡ wanted plans (router ∷ []) id)
    × ((id : ℕ)
        → (if has id table.running then lookup id t'.running else none)
          ≡ (if wanted plans (router ∷ []) id then lookup id table.running else none))
refresh_running_example = refresh_running plans (router ∷ []) table

-- The router is fetched, gone and fetched again.
abbrev fetches : List (Fetch (List ℕ))
fetches =
    record { bands = plans; routers = router ∷ [] }
    ∷ record { bands = plans; routers = [] }
    ∷ record { bands = plans; routers = router ∷ [] }
    ∷ []

-- Two default routers have two clients, also where they are the same.
default_routing_test :
    run_default_routing (router ∷ router ∷ []) 4 ≡ start 4 router ∷ start 5 router ∷ []
unfolding run_default_routing
default_routing_test = refl
