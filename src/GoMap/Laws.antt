-- ===== src/GoMap/Laws.antt =====
-- The laws of Go maps.
use packet_handling.Base.{
  ℕ, ◌≡◌, refl, none, some, [], ◌∷◌, arith, ◌==◌, ◌+◌, if◌then◌else◌, length,
}
use packet_handling.GoMap.{Map, lookup, insert, delete, Distinct}

module _ {ℓ} {V : Type ℓ} where
  pub lookup-insert :
      (k j : ℕ) (v : V) (m : Map V)
      → lookup j (insert k v m) ≡ (if k == j then some v else lookup j m)
  lookup-insert k j v [] = refl
  lookup-insert k j v ((i, w) ∷ m) = ground (arith, lookup-insert k j v m)

  pub lookup-delete :
      (k j : ℕ) (m : Map V) → lookup j (delete k m) ≡ (if k == j then none else lookup j m)
  lookup-delete k j [] = ground arith
  lookup-delete k j ((i, w) ∷ m) = ground (arith, lookup-delete k j m)

  pub Distinct-insert : (k : ℕ) (v : V) (m : Map V) → Distinct m → Distinct (insert k v m)
  Distinct-insert k v [] d = (refl, tt)
  Distinct-insert k v ((i, w) ∷ m) d =
      ground (arith, Distinct-insert k v m d.1, lookup-insert k i v m)

  pub Distinct-delete : (k : ℕ) (m : Map V) → Distinct m → Distinct (delete k m)
  Distinct-delete k [] d = tt
  Distinct-delete k ((i, w) ∷ m) d = ground (arith, Distinct-delete k m d.1, lookup-delete k i m)

  -- A new key makes the map one entry longer, an old one leaves the length.
  pub length-insert :
      (k : ℕ) (v : V) (m : Map V)
      → length (insert k v m) ≡ (if packet_handling.GoMap.has k m then length m else length m + 1)
  length-insert k v [] = refl
  length-insert k v ((i, w) ∷ m) = ground (arith, length-insert k v m)
