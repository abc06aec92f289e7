-- ===== src/RouteFetch/Tests.antt =====
-- The fetching of routers at work: a contract with two routers, and a snapshot with a bad ID.
use packet_handling.Base.{
  ℕ, ◌+◌, ◌-◌, ◌*◌, ◌/◌, ◌≡◌, ◌↔◌, refl, true, Option, none, some, List, [], ◌∷◌, arith, take, drop,
}
use packet_handling.RoutingTable.{Table, refresh}
use packet_handling.RouteFetch.{
  obtain_routes, from_chain, ChainRouter, ApiRouter, fetched, chain_pages, page_size,
  routers_of_api,
}
use packet_handling.RouteFetch.Chain.{chain_reads_prefix}
use packet_handling.RouteFetch.Api.{any_invalid, api_refresh_iff}
use packet_handling.Samples.{plans, read_eui}

abbrev listed : List ChainRouter
listed =
    record {
      id = 1;
      endpoint = "a:1";
      net_id = 19;
      prefix = 0;
      mask = 7;
      frequency_plan = 1;
      owner = 5;
    }
    ∷ record {
      id = 2;
      endpoint = "b:1";
      net_id = 19;
      prefix = 0;
      mask = 7;
      frequency_plan = 1;
      owner = 5;
    }
    ∷ []

abbrev contract : ℕ → ℕ → Option (List ChainRouter)
contract start end = some (take (end - start) (drop start listed))

chain_reads_prefix_example :
    chain_pages contract 2 2 0 []
    ≡ fetched
        (take (page_size * ((2 + (page_size * page_size - 1)) / (page_size * page_size))) listed)
chain_reads_prefix_example =
    chain_reads_prefix contract listed (λ start end. refl) 2 1 (omega arith)

abbrev snapshot : List ApiRouter
snapshot =
    record {
      id = "no";
      endpoint = "a:1";
      net_id = 19;
      prefix = 0;
      mask = 7;
      band = "EU868";
      owner = 5;
    }
    ∷ []

abbrev table : Table
table = record { running = []; next = 0 }

api_refresh_iff_example :
    (refresh plans (routers_of_api {Bitmap = List ℕ} read_eui (λ band. 1) snapshot) table ≡ none)
    ↔ (any_invalid read_eui snapshot ≡ true)
api_refresh_iff_example = api_refresh_iff read_eui (λ band. 1) plans snapshot table

-- The contract is preferred to the API.
obtain_test : obtain_routes true (some (some "https://api")) ≡ from_chain
unfolding obtain_routes
obtain_test = refl
