-- ===== src/RoutingTable/Starts.antt =====
-- Which clients of a router a refresh starts and stops.
use packet_handling.Base.{
  ℕ, ◌≡◌, refl, ap, sym, ◌∙◌, true, none, some, List, [], ◌∷◌, ◌++◌, arith, ◌==◌, ==_iff,
  if◌then◌else◌, Bool-cases, Option-cases, inl, inr,
}
use mathlib.Core.List.{append_assoc, append-nil}
use packet_handling.GoMap.{Map, lookup, Distinct}
use packet_handling.GoMap.Laws.{lookup-insert}
use packet_handling.Bands.{UniqueGatewayBands, contains_frequency_plan}
use packet_handling.Route.{Router}
use packet_handling.RoutingTable.{Action, stop, update, start, Table, start_one}
use packet_handling.RoutingTable.Refresh.{wanted, stopped, started, settled, lookup-stopped}

-- The client of a router, if one runs.
abbrev pub clients : ℕ → Map ℕ → List ℕ
clients id m = elim (lookup id m) [ none ↦ [] | some c ↦ c ∷ [] ]

module _ {Bitmap : Type 0} where
  -- The clients started for a router, and those stopped, in order.
  abbrev pub started_of : ℕ → List (Action Bitmap) → List ℕ
  started_of id [] = []
  started_of id (start c r ∷ xs) =
      let rest = started_of id xs in if r.thingsix_id == id then c ∷ rest else rest
  started_of id (_ ∷ xs) = started_of id xs

  abbrev pub stopped_of : ℕ → List (Action Bitmap) → List ℕ
  stopped_of id [] = []
  stopped_of id (stop j c ∷ xs) = let rest = stopped_of id xs in if j == id then c ∷ rest else rest
  stopped_of id (_ ∷ xs) = stopped_of id xs

  pub started_of-append :
      (id : ℕ) (xs ys : List (Action Bitmap))
      → started_of id (xs ++ ys) ≡ started_of id xs ++ started_of id ys
  started_of-append id [] ys = refl
  started_of-append id (start c r ∷ xs) ys = elim (Bool-cases (r.thingsix_id == id)) [
    | inl e ↦ rw (e, started_of-append id xs ys) refl
    | inr e ↦ rw (e, started_of-append id xs ys) refl
  ]
  started_of-append id (stop j c ∷ xs) ys = started_of-append id xs ys
  started_of-append id (update j d ∷ xs) ys = started_of-append id xs ys

  pub stopped_of-append :
      (id : ℕ) (xs ys : List (Action Bitmap))
      → stopped_of id (xs ++ ys) ≡ stopped_of id xs ++ stopped_of id ys
  stopped_of-append id [] ys = refl
  stopped_of-append id (stop j c ∷ xs) ys = elim (Bool-cases (j == id)) [
    | inl e ↦ rw (e, stopped_of-append id xs ys) refl
    | inr e ↦ rw (e, stopped_of-append id xs ys) refl
  ]
  stopped_of-append id (start c r ∷ xs) ys = stopped_of-append id xs ys
  stopped_of-append id (update j d ∷ xs) ys = stopped_of-append id xs ys

module _ {Bitmap : Type 0} (bands : UniqueGatewayBands) where
  started_of-stopped :
      (rs : List (Router Bitmap)) (m : Map ℕ) (id : ℕ) → started_of id (stopped bands rs m).1 ≡ []
  unfolding stopped
  started_of-stopped rs [] id = refl
  started_of-stopped rs ((j, c) ∷ m) id = ground (arith, started_of-stopped rs m id)

  stopped_of-start_one :
      (r : Router Bitmap) (t : Table) (id : ℕ) → stopped_of id (start_one bands r t).1 ≡ []
  unfolding start_one
  stopped_of-start_one r t id = ground arith

  stopped_of-started :
      (rs : List (Router Bitmap)) (t : Table) (id : ℕ) → stopped_of id (started bands rs t).1 ≡ []
  unfolding started
  stopped_of-started [] t id = refl
  stopped_of-started (r ∷ rs) t id =
      let t1 : Table = (start_one bands r t).0 in
      stopped_of-append id (start_one bands r t).1 (started bands rs t1).1
      ∙ rw (stopped_of-start_one r t id) (stopped_of-started rs t1 id)

  -- Starting adds the clients it starts to those of the router.
  clients-start_one :
      (r : Router Bitmap) (t : Table) (id : ℕ)
      → clients id t.running ++ started_of id (start_one bands r t).1
        ≡ clients id (start_one bands r t).0.running
  unfolding start_one
  clients-start_one r t id = elim (Bool-cases (contains_frequency_plan bands r.frequency_plan)) [
    | inr w ↦ rw (w, start_one) (append-nil (clients id t.running))
    | inl w ↦ elim (Option-cases (lookup r.thingsix_id t.running)) [
      | inr (c, h) ↦ rw (w, h, start_one) (append-nil (clients id t.running))
      | inl n ↦ elim (Bool-cases (r.thingsix_id == id)) [
        | inl e ↦
            let same : r.thingsix_id ≡ id = (==_iff r.thingsix_id id).0 e in
            let off : lookup id t.running ≡ none = rw same at n in
            rw (w, n, start_one)
              (rw (clients, lookup-insert r.thingsix_id id t.next t.running, e, off) refl)
        | inr e ↦
            rw (w, n, start_one)
              (rw (clients, lookup-insert r.thingsix_id id t.next t.running, e)
                (append-nil (clients id t.running)))
      ]
    ]
  ]

  clients-started :
      (rs : List (Router Bitmap)) (t : Table) (id : ℕ)
      → clients id t.running ++ started_of id (started bands rs t).1
        ≡ clients id (started bands rs t).0.running
  unfolding started
  clients-started [] t id = append-nil (clients id t.running)
  clients-started (r ∷ rs) t id =
      let t1 : Table = (start_one bands r t).0 in
      let now : List ℕ = started_of id (start_one bands r t).1 in
      let later : List ℕ = started_of id (started bands rs t1).1 in
      ap (λ l. clients id t.running ++ l)
        (started_of-append id (start_one bands r t).1 (started bands rs t1).1)
      ∙ sym (append_assoc (clients id t.running) now later)
      ∙ ap (λ l. l ++ later) (clients-start_one r t id)
      ∙ clients-started rs t1 id

  -- Stopping takes the clients it stops from those of the router.
  stopped_of-stopped :
      (rs : List (Router Bitmap)) (m : Map ℕ) (id : ℕ)
      → Distinct m
      → stopped_of id (stopped bands rs m).1 ≡ (if wanted bands rs id then [] else clients id m)
  unfolding stopped
  stopped_of-stopped rs [] id d = ground arith
  stopped_of-stopped rs ((j, c) ∷ m) id d = elim (Bool-cases (j == id)) [
    | inl e ↦ rw (← (==_iff j id).0 e) (ground (arith, stopped_of-stopped rs m j d.1, d.0))
    | inr e ↦ ground (arith, stopped_of-stopped rs m id d.1)
  ]

  stopped_of-settled :
      (rs : List (Router Bitmap)) (t : Table) (id : ℕ)
      → Distinct t.running
      → stopped_of id (settled bands rs t).1
        ≡ (if wanted bands rs id then [] else clients id t.running)
  stopped_of-settled rs t id d =
      let gone = stopped bands rs t.running in
      let t1 : Table = record t { running = gone.0 } in
      stopped_of-append id gone.1 (started bands rs t1).1
      ∙ rw (stopped_of-started rs t1 id) (append-nil (stopped_of id gone.1))
      ∙ stopped_of-stopped rs t.running id d

  -- The clients of a router before a refresh and those it starts are the ones it stops and those
  -- after it.
  pub clients-settled :
      (rs : List (Router Bitmap)) (t : Table) (id : ℕ)
      → Distinct t.running
      → clients id t.running ++ started_of id (settled bands rs t).1
        ≡ stopped_of id (settled bands rs t).1 ++ clients id (settled bands rs t).0.running
  clients-settled rs t id d =
      let gone = stopped bands rs t.running in
      let t1 : Table = record t { running = gone.0 } in
      let new : List ℕ = started_of id (started bands rs t1).1 in
      let begun : started_of id (settled bands rs t).1 ≡ new =
        started_of-append id gone.1 (started bands rs t1).1
        ∙ rw (started_of-stopped rs t.running id) refl in
      let split : stopped_of id (settled bands rs t).1 ++ clients id gone.0 ≡ clients id t.running =
        rw (stopped_of-settled rs t id d, clients, lookup-stopped bands rs t.running id)
          (ground (arith, append-nil (clients id t.running))) in
      ap (λ l. clients id t.running ++ l) begun
      ∙ ap (λ l. l ++ new) (sym split)
      ∙ append_assoc (stopped_of id (settled bands rs t).1) (clients id gone.0) new
      ∙ ap (λ l. stopped_of id (settled bands rs t).1 ++ l) (clients-started rs t1 id)

  -- A wanted router's client is not stopped, and none is started beside it.
  pub kept-settled :
      (rs : List (Router Bitmap)) (t : Table) (id c : ℕ)
      → Distinct t.running
      → lookup id t.running ≡ some c
      → wanted bands rs id ≡ true
      → stopped_of id (settled bands rs t).1 ≡ []
  kept-settled rs t id c d h w = stopped_of-settled rs t id d ∙ rw w refl
