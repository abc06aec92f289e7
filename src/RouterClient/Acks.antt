-- ===== src/RouterClient/Acks.antt =====
-- The expiry of pending downlink acks (the ticker of `run` in forwarder/router_client.go).
use packet_handling.Base.{ℕ, ◌+◌, ◌*◌, ◌≤◌, ◌≡◌, ◌↔◌, some, [], ◌∷◌, arith}
use packet_handling.Base.Time.{second}
use packet_handling.GoMap.{Map, lookup, Distinct}
use packet_handling.RouterClient.Step.{drop_expired}

-- In a map with one entry for each ack, exactly the acks asked for at most 30 seconds ago stay.
pub lookup-drop_expired :
    (now id : ℕ) (m : Map ℕ) (t : ℕ)
    → Distinct m
    → (lookup id (drop_expired now m) ≡ some t) ↔ ((lookup id m ≡ some t) × (now ≤ t + 30 * second))
unfolding drop_expired
lookup-drop_expired now id [] t d = (λ e. cc, λ e. cc)
lookup-drop_expired now id ((j, c) ∷ m) t d = (
  λ e. ground (arith, (lookup-drop_expired now id m t d.1).0),
  λ e. ground (arith, (lookup-drop_expired now id m t d.1).1),
)
