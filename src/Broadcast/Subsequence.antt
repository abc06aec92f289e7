-- ===== src/Broadcast/Subsequence.antt =====
-- A list that comes of another one by leaving out entries.
use packet_handling.Base.{◌≡◌, refl, ap, ◌⊎◌, inl, inr, List, [], ◌∷◌, ◌++◌, subst}

module _ {T : Type 0} where
  abbrev pub Within : List T → List T → Type 0
  Within xs [] = xs ≡ []
  Within xs (y ∷ ys) = Within xs ys ⊎ ((rest : List T) × (xs ≡ y ∷ rest) × Within rest ys)

  pub Within-append : (xs ys : List T) (x : T) → Within xs ys → Within (xs ++ x ∷ []) (ys ++ x ∷ [])
  Within-append xs [] x w = inr ([], ap (λ l. l ++ x ∷ []) w, refl)
  Within-append xs (y ∷ ys) x w = elim w [
    | inl s ↦ inl (Within-append xs ys x s)
    | inr (rest, e, s) ↦ inr (rest ++ x ∷ [], ap (λ l. l ++ x ∷ []) e, Within-append rest ys x s)
  ]

  pub Within-drop :
      (front back ys : List T) (x : T) → Within (front ++ x ∷ back) ys → Within (front ++ back) ys
  Within-drop [] back [] x w = absurd (cc w)
  Within-drop (a ∷ front) back [] x w = absurd (cc w)
  Within-drop [] back (y ∷ ys) x w = elim w [
    | inl s ↦ inl (Within-drop [] back ys x s)
    | inr (rest, e, s) ↦ inl (subst (λ l. Within l ys) (cc e) s)
  ]
  Within-drop (a ∷ front) back (y ∷ ys) x w = elim w [
    | inl s ↦ inl (Within-drop (a ∷ front) back ys x s)
    | inr (rest, e, s) ↦
        let tail : rest ≡ front ++ x ∷ back = cc e in
        let head : a ≡ y = cc e in
        inr (
          front ++ back,
          ap (λ h. h ∷ (front ++ back)) head,
          Within-drop front back ys x (subst (λ l. Within l ys) tail s),
        )
  ]
