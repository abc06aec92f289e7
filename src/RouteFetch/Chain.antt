-- ===== src/RouteFetch/Chain.antt =====
-- How many routers of the contract are read (fetchRoutersFromChain of forwarder/utils.go).
use packet_handling.Base.{
  ℕ, zero, suc, ◌+◌, ◌-◌, ◌*◌, ◌/◌, ◌≤◌, ◌<◌, ◌≡◌, refl, sym, ap, ◌∙◌, true, false, some, List, [],
  ◌∷◌, ◌++◌, arith, ltb, take, drop, ltb→lt, Bool-cases, inl, inr,
}
use mathlib.Core.List.{append_assoc, append-nil}
use packet_handling.RouteFetch.{ChainRouter, fetched, Paged, chain_pages, page_size}

-- A contract that lists an unchanging collection from a start up to an end.
abbrev pub ListsRange : Paged → List ChainRouter → Type 0
ListsRange paged all =
    (start end : ℕ) → paged start end ≡ some (take (end - start) (drop start all))

drop-nil : (n : ℕ) → drop {A = ChainRouter} n [] ≡ []
drop-nil zero = refl
drop-nil (suc n) = refl

take-nil : (n : ℕ) → take {A = ChainRouter} n [] ≡ []
take-nil zero = refl
take-nil (suc n) = refl

take_add : (n m : ℕ) (xs : List ChainRouter) → take (n + m) xs ≡ take n xs ++ take m (drop n xs)
take_add zero m xs = let e : 0 + m ≡ m = omega arith in ap (λ k. take k xs) e
take_add (suc n) m [] = take-nil (suc n + m) ∙ sym (take-nil m)
take_add (suc n) m (x ∷ xs) =
    let e : suc n + m ≡ suc (n + m) = omega arith in
    ap (λ k. take k (x ∷ xs)) e ∙ ap (◌∷◌ x) (take_add n m xs)

drop_add : (n m : ℕ) (xs : List ChainRouter) → drop n (drop m xs) ≡ drop (m + n) xs
drop_add n zero xs = let e : n ≡ 0 + n = omega arith in ap (λ k. drop k xs) e
drop_add n (suc m) [] = drop-nil n ∙ sym (drop-nil (suc m + n))
drop_add n (suc m) (x ∷ xs) =
    let e : suc (m + n) ≡ suc m + n = omega arith in drop_add n m xs ∙ ap (λ k. drop k (x ∷ xs)) e

-- The number of pages that the loop still reads from a place on.
abbrev pub pages_left : ℕ → ℕ → ℕ
pages_left count i = (count - i * page_size + (page_size * page_size - 1)) / (page_size * page_size)

no_pages_left : (count i : ℕ) → ltb (i * page_size) count ≡ false → pages_left count i ≡ 0
no_pages_left count i h = ground arith

one_page_less :
    (count i : ℕ)
    → i * page_size < count
    → page_size * pages_left count i ≡ page_size + page_size * pages_left count (i + page_size)
one_page_less count i h = omega arith

module _ (paged : Paged) (all : List ChainRouter) (lists : ListsRange paged all) (count : ℕ) where
  chain_pages_end :
      (fuel i : ℕ) (acc : List ChainRouter)
      → ltb (i * page_size) count ≡ false
      → chain_pages paged count (suc fuel) i acc
        ≡ fetched (acc ++ take (page_size * pages_left count i) (drop i all))
  unfolding chain_pages
  chain_pages_end fuel i acc n = rw (n, no_pages_left count i n) (ap fetched (sym (append-nil acc)))

  page_read : (i : ℕ) → paged i (i + page_size) ≡ some (take page_size (drop i all))
  page_read i =
      let width : i + page_size - i ≡ page_size = omega arith in
      lists i (i + page_size) ∙ ap (λ k. some (take k (drop i all))) width

  chain_pages_more :
      (fuel i : ℕ) (acc : List ChainRouter)
      → ltb (i * page_size) count ≡ true
      → chain_pages paged count (suc fuel) i acc
        ≡ chain_pages paged count fuel (i + page_size) (acc ++ take page_size (drop i all))
  unfolding chain_pages
  chain_pages_more fuel i acc y = rw (y, page_read i) refl

  chain_pages_from :
      (fuel i : ℕ) (acc : List ChainRouter)
      → count ≤ i * page_size + page_size * page_size * fuel
      → chain_pages paged count (suc fuel) i acc
        ≡ fetched (acc ++ take (page_size * pages_left count i) (drop i all))
  chain_pages_from zero i acc h = chain_pages_end 0 i acc (ground arith)
  chain_pages_from (suc fuel) i acc h = elim (Bool-cases (ltb (i * page_size) count)) [
    | inl y ↦
        let page : List ChainRouter = take page_size (drop i all) in
        let n : ℕ = pages_left count (i + page_size) in
        chain_pages_more (suc fuel) i acc y
        ∙ chain_pages_from fuel (i + page_size) (acc ++ page) (omega arith)
        ∙ ap fetched (
            append_assoc acc page (take (page_size * n) (drop (i + page_size) all))
            ∙ ap (◌++◌ acc) (
                sym (
                  ap (λ k. take k (drop i all))
                    (one_page_less count i (ltb→lt (i * page_size) count y))
                  ∙ take_add page_size (page_size * n) (drop i all)
                  ∙ ap (λ r. page ++ take (page_size * n) r) (drop_add page_size i all))))
    | inr n ↦ chain_pages_end (suc fuel) i acc n
  ]

  -- From a contract that lists an unchanging collection from a start up to an end, with enough
  -- rounds the loop ends and has read only the first 50 routers for each 2500 that the contract
  -- counts, or a part of them: its place goes up by the page size, and is multiplied by the page
  -- size again in the test.
  pub chain_reads_prefix :
      (fuel : ℕ)
      → count ≤ page_size * page_size * fuel
      → chain_pages paged count (suc fuel) 0 []
        ≡ fetched (
            take
              (page_size * ((count + (page_size * page_size - 1)) / (page_size * page_size)))
              all)
  chain_reads_prefix fuel h =
      let e : count - 0 * page_size ≡ count = omega arith in
      chain_pages_from fuel 0 [] (omega arith)
      ∙ ap
          (λ c.
            fetched (
              take (page_size * ((c + (page_size * page_size - 1)) / (page_size * page_size))) all))
          e
