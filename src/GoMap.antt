-- ===== src/GoMap.antt =====
-- Go maps with keys that are numbers (EUI64, ThingsIX IDs, hashes). A map is an association list
-- in the order in which `range` visits it; the theorems hold for every list, so for every order.
pub mod Laws
use packet_handling.Base.{
  ℕ, ◌≡◌, Bool, Option, none, some, List, [], ◌∷◌, map, ◌==◌, if◌then◌else◌, is_some,
}

abbrev pub Map {ℓ} : Type ℓ → Type ℓ
Map V = List (ℕ × V)

module _ {ℓ} {V : Type ℓ} where
  abbrev pub lookup : ℕ → Map V → Option V
  lookup k [] = none
  lookup k ((j, v) ∷ m) = if j == k then some v else lookup k m

  -- `m[k] = v`
  abbrev pub insert : ℕ → V → Map V → Map V
  insert k v [] = (k, v) ∷ []
  insert k v ((j, w) ∷ m) = if j == k then (k, v) ∷ m else (j, w) ∷ insert k v m

  -- `delete(m, k)`
  abbrev pub delete : ℕ → Map V → Map V
  delete k [] = []
  delete k ((j, v) ∷ m) = let rest = delete k m in if j == k then rest else (j, v) ∷ rest

  abbrev pub has : ℕ → Map V → Bool
  has k m = is_some (lookup k m)

  -- No key occurs twice.
  abbrev pub Distinct : Map V → Type ℓ
  Distinct [] = Unit
  Distinct ((k, v) ∷ m) = (lookup k m ≡ none) × Distinct m
