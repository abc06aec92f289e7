-- ===== src/JoinFilter/Paging.antt =====
-- What the paging loops of router/joinfilter.go list.
use packet_handling.Base.{
  ℕ, zero, suc, ◌+◌, ◌-◌, ◌*◌, ◌%◌, ◌^◌, ◌≤◌, ◌<◌, ◌≡◌, refl, sym, ap, ◌∙◌, true, false, Option,
  some, List, [], ◌∷◌, ◌++◌, arith, leb, if◌then◌else◌, length, take, drop, take-append-drop,
  length-drop, take-short, length-append, Bool-cases, inl, inr,
}
use mathlib.Core.List.{append_assoc}
use packet_handling.JoinFilter.{ok, pages, kept_of, page_limit}

module _ {A B : Type 0} (keep : A → Option B) where
  pub kept_of-append :
      (xs ys : List A) → kept_of keep (xs ++ ys) ≡ kept_of keep xs ++ kept_of keep ys
  kept_of-append [] ys = refl
  kept_of-append (x ∷ xs) ys = ground (arith, kept_of-append xs ys)

drop-length_append : {A : Type 0} (xs ys : List A) → drop (length xs) (xs ++ ys) ≡ ys
drop-length_append [] ys = refl
drop-length_append (x ∷ xs) ys = drop-length_append xs ys

-- A service that lists an unchanging collection, page by page.
abbrev pub Lists : {A : Type 0} → (ℕ → ℕ → Option (List A)) → List A → Type 0
Lists list all = (limit offset : ℕ) → list limit offset ≡ some (take limit (drop offset all))

few_left : (p r : ℕ) → leb page_limit p ≡ false → p + (r - page_limit) ≡ r → r ≤ page_limit
few_left p r h e = ground arith

full_page : (p : ℕ) → leb page_limit p ≡ true → page_limit ≤ p
full_page p h = ground arith

module _ {A B : Type 0} (keep : A → Option B) (list : ℕ → ℕ → Option (List A)) where
  -- One round, by the page that it reads.
  pages_round :
      (fuel processed : ℕ) (acc : List B) (page : List A)
      → list page_limit processed ≡ some page
      → pages keep list (suc fuel) processed acc ≡ (
          if leb page_limit (length page)
          then pages keep list fuel ((processed + length page) % 2 ^ 32) (acc ++ kept_of keep page)
          else ok (acc ++ kept_of keep page))
  unfolding pages
  pages_round fuel processed acc page e = rw (e, pages)

  -- The page that is read once `seen` has been read of `seen ++ rest`.
  page_read :
      (all seen rest : List A)
      → Lists list all
      → all ≡ seen ++ rest
      → list page_limit (length seen) ≡ some (take page_limit rest)
  page_read all seen rest lists e =
      lists page_limit (length seen)
      ∙ ap (λ l. some (take page_limit (drop (length seen) l))) e
      ∙ ap (λ l. some (take page_limit l)) (drop-length_append seen rest)

  split_lengths :
      (rest : List A) → length (take page_limit rest) + (length rest - page_limit) ≡ length rest
  split_lengths rest = omega (
    arith,
    ap length (take-append-drop page_limit rest),
    length-append (take page_limit rest) (drop page_limit rest),
    length-drop page_limit rest,
  )

  -- `seen` has been read, `rest` is still to come.
  pages_from :
      (fuel : ℕ) (all seen rest : List A) (acc : List B)
      → Lists list all
      → all ≡ seen ++ rest
      → length all < 2 ^ 32
      → length rest < page_limit * fuel
      → pages keep list fuel (length seen) acc ≡ ok (acc ++ kept_of keep rest)
  pages_from zero all seen rest acc lists e short enough = absurd (omega arith)
  pages_from (suc fuel) all seen rest acc lists e short enough =
      let page : List A = take page_limit rest in
      let total : length seen + length rest ≡ length all =
        omega (arith, ap length e, length-append seen rest) in
      pages_round fuel (length seen) acc page (page_read all seen rest lists e)
      ∙ elim (Bool-cases (leb page_limit (length page))) [
        | inl more ↦
            let full : page_limit ≤ length page = full_page (length page) more in
            let offset : (length seen + length page) % 2 ^ 32 ≡ length (seen ++ page) =
              omega (arith, split_lengths rest, length-append seen page) in
            let regroup : all ≡ (seen ++ page) ++ drop page_limit rest =
              e
              ∙ ap (◌++◌ seen) (sym (take-append-drop page_limit rest))
              ∙ sym (append_assoc seen page (drop page_limit rest)) in
            rw (more, offset)
              (pages_from fuel all (seen ++ page) (drop page_limit rest) (acc ++ kept_of keep page)
                  lists regroup short
                  (omega (arith, length-drop page_limit rest, split_lengths rest))
                ∙ ap ok (
                    append_assoc acc (kept_of keep page) (kept_of keep (drop page_limit rest))
                    ∙ ap (◌++◌ acc) (
                        sym (kept_of-append keep page (drop page_limit rest))
                        ∙ ap (kept_of keep) (take-append-drop page_limit rest))))
        | inr last ↦
            let few : length rest ≤ page_limit =
              few_left (length page) (length rest) last (split_lengths rest) in
            rw last (ap (λ l. ok (acc ++ kept_of keep l)) (take-short page_limit rest few))
      ]

  -- Where a service lists an unchanging collection that the 32-bit offset can count, with one round
  -- more than there are full pages the loop ends and has read everything once, in order.
  pub pages_all :
      (fuel : ℕ) (all : List A)
      → Lists list all
      → length all < 2 ^ 32
      → length all < page_limit * fuel
      → pages keep list fuel 0 [] ≡ ok (kept_of keep all)
  pages_all fuel all lists short enough = pages_from fuel all [] all [] lists refl short enough
