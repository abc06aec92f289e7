-- ===== src/RoutingTable/Refresh.antt =====
-- Which routers have a client after a refresh (keepRouteTableUpToDate of forwarder/routes.go).
use packet_handling.Base.{
  ℕ, ◌≡◌, refl, Bool, false, ◌||◌, none, some, List, [], ◌∷◌, ◌++◌, map, arith, ◌==◌, if◌then◌else◌,
  any, Bool-cases, Option-cases, inl, inr, inl, inr, ==_iff,
}
use packet_handling.GoMap.{Map, lookup, has}
use packet_handling.GoMap.Laws.{lookup-insert}
use packet_handling.Bands.{UniqueGatewayBands}
use packet_handling.Route.{Router}
use packet_handling.RoutingTable.{
  Action, stop, Table, wants, kept, stop_gone, start_one, start_all, refresh,
}

module _ {Bitmap : Type 0} (bands : UniqueGatewayBands) where
  -- Some router of the set has this id and a plan that the store uses.
  abbrev pub wanted : List (Router Bitmap) → ℕ → Bool
  wanted rs id = any (wants bands id) rs

  kept-some :
      (rs : List (Router Bitmap)) (id : ℕ) → kept bands (map some rs) id ≡ some (wanted rs id)
  unfolding kept
  kept-some [] id = refl
  kept-some (r ∷ rs) id = ground (arith, kept-some rs id)

  -- The two phases on a set with no nil.
  unfoldable pub stopped : List (Router Bitmap) → Map ℕ → Map ℕ × List (Action Bitmap)
  stopped rs [] = ([], [])
  stopped rs ((id, client) ∷ m) =
      let rest = stopped rs m in
      if wanted rs id then ((id, client) ∷ rest.0, rest.1) else (rest.0, stop id client ∷ rest.1)

  unfoldable pub started : List (Router Bitmap) → Table → Table × List (Action Bitmap)
  started [] t = (t, [])
  started (r ∷ rs) t =
      let rest = started rs (start_one bands r t).0 in (rest.0, (start_one bands r t).1 ++ rest.1)

  stop_gone-some :
      (rs : List (Router Bitmap)) (m : Map ℕ)
      → stop_gone bands (map some rs) m ≡ some (stopped rs m)
  unfolding stop_gone stopped
  stop_gone-some rs [] = refl
  stop_gone-some rs ((id, client) ∷ m) = rw (kept-some rs id, stop_gone-some rs m) (ground arith)

  start_all-some :
      (rs : List (Router Bitmap)) (t : Table)
      → start_all bands (map some rs) t ≡ some (started rs t)
  unfolding start_all started
  start_all-some [] t = refl
  start_all-some (r ∷ rs) t = rw (start_all-some rs (start_one bands r t).0)

  -- The refresh of a set with no nil.
  abbrev pub settled : List (Router Bitmap) → Table → Table × List (Action Bitmap)
  settled rs t =
      let kept_on = stopped rs t.running in
      let opened = started rs (record t { running = kept_on.0 }) in
      (opened.0, kept_on.1 ++ opened.1)

  pub refresh-some :
      (rs : List (Router Bitmap)) (t : Table) → refresh bands (map some rs) t ≡ some (settled rs t)
  unfolding refresh
  refresh-some rs t = rw (
    stop_gone-some rs t.running,
    start_all-some rs (record t { running = (stopped rs t.running).0 }),
  )

  pub lookup-stopped :
      (rs : List (Router Bitmap)) (m : Map ℕ) (id : ℕ)
      → lookup id (stopped rs m).0 ≡ (if wanted rs id then lookup id m else none)
  unfolding stopped
  lookup-stopped rs [] id = ground arith
  lookup-stopped rs ((j, client) ∷ m) id = elim (Bool-cases (j == id)) [
    | inl e ↦ rw (← (==_iff j id).0 e) (ground (arith, lookup-stopped rs m j))
    | inr e ↦ ground (arith, lookup-stopped rs m id)
  ]

  pub has-start_one :
      (r : Router Bitmap) (t : Table) (id : ℕ)
      → has id (start_one bands r t).0.running ≡ (has id t.running || wants bands id r)
  unfolding start_one
  has-start_one r t id = ground (arith, lookup-insert r.thingsix_id id t.next t.running)

  has-started :
      (rs : List (Router Bitmap)) (t : Table) (id : ℕ)
      → has id (started rs t).0.running ≡ (has id t.running || wanted rs id)
  unfolding started
  has-started [] t id = ground arith
  has-started (r ∷ rs) t id =
      ground (arith, has-started rs (start_one bands r t).0 id, has-start_one r t id)

  lookup-start_one :
      (r : Router Bitmap) (t : Table) (id c : ℕ)
      → lookup id t.running ≡ some c
      → lookup id (start_one bands r t).0.running ≡ some c
  unfolding start_one
  lookup-start_one r t id c h = ground (arith, lookup-insert r.thingsix_id id t.next t.running)

  lookup-started :
      (rs : List (Router Bitmap)) (t : Table) (id c : ℕ)
      → lookup id t.running ≡ some c
      → lookup id (started rs t).0.running ≡ some c
  unfolding started
  lookup-started [] t id c h = h
  lookup-started (r ∷ rs) t id c h =
      lookup-started rs (start_one bands r t).0 id c (lookup-start_one r t id c h)

  pub settled-keeps :
      (rs : List (Router Bitmap)) (t : Table) (id : ℕ)
      → (if has id t.running then lookup id (settled rs t).0.running else none)
        ≡ (if wanted rs id then lookup id t.running else none)
  settled-keeps rs t id = elim (Option-cases (lookup id t.running)) [
    | inl n ↦ ground arith
    | inr (c, h) ↦ elim (Bool-cases (wanted rs id)) [
      | inl w ↦
          let on : lookup id (settled rs t).0.running ≡ some c =
            lookup-started rs (record t { running = (stopped rs t.running).0 }) id c
              (ground (arith, lookup-stopped rs t.running id)) in
          ground arith
      | inr w ↦
          let off : has id (settled rs t).0.running ≡ false = ground (
            arith,
            has-started rs (record t { running = (stopped rs t.running).0 }) id,
            lookup-stopped rs t.running id,
          ) in
          ground arith
    ]
  ]

  pub has-settled :
      (rs : List (Router Bitmap)) (t : Table) (id : ℕ)
      → has id (settled rs t).0.running ≡ wanted rs id
  has-settled rs t id = ground (
    arith,
    has-started rs (record t { running = (stopped rs t.running).0 }) id,
    lookup-stopped rs t.running id,
  )

  -- A refresh by a set with no nil comes to an end; then the running clients are those of the
  -- routers of the set on a plan that the store's gateways use, and a client that still belongs
  -- there goes on as it was.
  pub refresh_running :
      (rs : List (Router Bitmap)) (t : Table)
      → (t' : Table) × (actions : List (Action Bitmap)) × (refresh bands (map some rs) t
          ≡ some (t', actions))
        × ((id : ℕ) → has id t'.running ≡ wanted rs id)
        × ((id : ℕ)
            → (if has id t.running then lookup id t'.running else none)
              ≡ (if wanted rs id then lookup id t.running else none))
  refresh_running rs t = (
    (settled rs t).0,
    (settled rs t).1,
    refresh-some rs t,
    λ id. has-settled rs t id,
    λ id. settled-keeps rs t id,
  )
