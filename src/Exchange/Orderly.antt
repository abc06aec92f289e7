-- ===== src/Exchange/Orderly.antt =====
-- The invariant of the exchange's buffer (forwarder/exchange.go), and what keeps it.
use packet_handling.Base.{
  ℕ, ◌≤◌, ◌≡◌, Option, none, some, List, [], ◌∷◌, ◌++◌, ltb, arith, length, length-append,
  Bool-cases, inl, inr,
}
use packet_handling.GoMap.{lookup}
use packet_handling.Wire.{GatewayToRouterBody, GatewayToRouterEvent, GatewayEvent}
use packet_handling.GatewayStore.{Gateway, Maps}
use packet_handling.UnknownGateways.Once.{IsSound}
use packet_handling.Exchange.{Exchange, try_broadcast, buffer_size}
use packet_handling.Exchange.Handlers.{event_of}

-- The messages that a broadcast carries.
abbrev pub listed {ℓ} : {A : Type ℓ} → Option A → List A
listed none = []
listed (some a) = a ∷ []

abbrev pub second {ℓ} : {A : Type ℓ} {B : Type ℓ} → Option (A × B) → List B
second none = []
second (some (a, b)) = b ∷ []

abbrev pub carried : GatewayEvent → List GatewayToRouterEvent
carried e = second e.join ++ second e.uplink ++ listed e.online_offline ++ second e.downlink_ack

-- A broadcast of one message, with the key and the owner of a gateway of the store.
pub record IsTrusted (store : Maps) (e : GatewayEvent) : Type 0 where
  pub local_id : ℕ
  pub gateway : Gateway
  pub body : GatewayToRouterBody
  pub in_store : lookup local_id store.by_local_id ≡ some gateway
  pub from : e.received_from ≡ gateway.network_id
  pub one : carried e ≡ event_of gateway body ∷ []

abbrev pub All {ℓ} : {A : Type ℓ} → (A → Type 0) → List A → Type 0
All P [] = Unit
All P (x ∷ xs) = P x × All P xs

All-append {ℓ} :
    {A : Type ℓ} (P : A → Type 0) (xs : List A) (y : A) → All P xs → P y → All P (xs ++ y ∷ [])
All-append P [] y a p = (p, tt)
All-append P (x ∷ xs) y a p = (a.0, All-append P xs y a.1 p)

pub record IsOrderly (s : Exchange) : Type 0 where
  pub trusted : All (IsTrusted s.gateways) s.waiting
  pub bounded : length s.waiting ≤ buffer_size
  pub recorder : IsSound s.recorder

pub try_broadcast-IsOrderly :
    (e : GatewayEvent) (s : Exchange)
    → IsOrderly s
    → IsTrusted s.gateways e
    → IsOrderly (try_broadcast e s)
unfolding try_broadcast
try_broadcast-IsOrderly e s o t = elim (Bool-cases (ltb (length s.waiting) buffer_size)) [
  | inl y ↦
      rw (y, try_broadcast)
        (record {
          trusted = All-append (IsTrusted s.gateways) s.waiting e o.trusted t;
          bounded = ground (arith, length-append s.waiting (e ∷ []));
          recorder = o.recorder;
        })
  | inr n ↦ rw (n, try_broadcast) o
]
