-- ===== src/Backend/Widen.antt =====
-- Ranges of frequencies, and membership in a list of channels (forwarder/backend.go).
use packet_handling.Base.{
  ℕ, ◌-◌, ◌^◌, ◌≤◌, ◌≡◌, ◌⊎◌, inl, inr, true, false, List, [], ◌∷◌, ◌++◌, arith, Bool,
  if◌then◌else◌, contains,
}
use packet_handling.Backend.{Range, widen}

-- A frequency lies in a range.
abbrev pub Within : ℕ → Range → Type 0
Within f r = (r.low ≤ f) × (f ≤ r.high)

-- Each end of a range has a property, unless it is still where it starts.
abbrev pub Ends : (ℕ → Type 0) → Range → Type 0
Ends P r = ((r.low ≡ 2 ^ 32 - 1) ⊎ P r.low) × ((r.high ≡ 0) ⊎ P r.high)

pub widen-Within : (f : ℕ) (r : Range) → Within f (widen f r)
unfolding widen
widen-Within f r = ground arith

pub widen-keeps : (f g : ℕ) (r : Range) → Within g r → Within g (widen f r)
unfolding widen
widen-keeps f g r h = ground arith

pub either_end :
    (P : ℕ → Type 0) (k f x : ℕ) (t : Bool)
    → P f
    → (x ≡ k) ⊎ P x
    → ((if t then f else x) ≡ k) ⊎ P (if t then f else x)
either_end P k f x true p e = inr p
either_end P k f x false p e = e

pub widen-Ends : (P : ℕ → Type 0) (f : ℕ) (r : Range) → P f → Ends P r → Ends P (widen f r)
unfolding widen
widen-Ends P f r p (e, g) = (either_end P _ f r.low _ p e, either_end P _ f r.high _ p g)

pub contains-cons :
    (k x : ℕ) (xs : List ℕ) → contains k (x ∷ xs) ≡ true → (x ≡ k) ⊎ (contains k xs ≡ true)
contains-cons k x xs h = ground arith

pub contains-snoc :
    (k x : ℕ) (xs : List ℕ) → contains k (xs ++ x ∷ []) ≡ true → (x ≡ k) ⊎ (contains k xs ≡ true)
contains-snoc k x [] h = ground arith
contains-snoc k x (y ∷ ys) h = elim (contains-cons k y (ys ++ x ∷ []) h) [
  | inl e ↦ inr (ground (arith, e))
  | inr e ↦ elim (contains-snoc k x ys e) [ inl l ↦ inl l | inr l ↦ inr (ground (arith, l)) ]
]
