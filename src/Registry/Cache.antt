-- ===== src/Registry/Cache.antt =====
-- How long an answer of the API is kept (gateway/registry_thingsix_api.go).
use packet_handling.Base.{
  ℕ, ◌+◌, ◌*◌, ◌<◌, ◌≡◌, refl, ◌∙◌, String, Bool, true, false, not, ◌&&◌, none, some, List, [], ◌∷◌,
  arith, ◌==◌, Bool-cases, Option-cases, ◌⊎◌, inl, inr, ap, ltb,
}
use packet_handling.Base.Time.{minute}
use packet_handling.GoMap.{Map, lookup}
use packet_handling.GoMap.Laws.{lookup-insert}
use packet_handling.Registry.{
  Answer, no_request, no_response, not_found, other_status, status_ok, CachedData, fresh,
  call_error, decoder_error, invalid_api_response, Reading, entry_read, fails, entry_of_reply, ask,
  gateway_details,
}

-- A call: the gateway, whether it is forced, the time, and what the API would answer.
pub record Call : Type 0 where
  pub id : ℕ
  pub force : Bool
  pub now : ℕ
  pub answer : Answer

abbrev pub Others : ℕ → List Call → Type 0
Others id [] = Unit
Others id (c ∷ cs) = ((c.id == id) ≡ false) × Others id cs

-- The answers that are kept: a reply, and the failures of the connection and of the decoding.
abbrev pub is_kept : Answer → Bool
is_kept no_response = true
is_kept (status_ok r) = true
is_kept _ = false

-- What the cache gives of the result of a call
abbrev pub again : Reading → Reading
again (fails invalid_api_response) = fails decoder_error
again reading = reading

module _ (gain_text : ℕ → String) where
  unfoldable pub after_calls : List Call → Map CachedData → Map CachedData
  after_calls [] cache = cache
  after_calls (c ∷ cs) cache =
      after_calls cs (gateway_details gain_text c.id c.force c.now c.answer cache).cache

  ask-elsewhere :
      (id j now : ℕ) (a : Answer) (cache : Map CachedData)
      → (j == id) ≡ false
      → lookup id (ask gain_text j now a cache).cache ≡ lookup id cache
  unfolding ask
  ask-elsewhere id j now no_request cache h = refl
  ask-elsewhere id j now no_response cache h =
      ground (arith, lookup-insert j id (record { when = now; reading = fails call_error }) cache)
  ask-elsewhere id j now not_found cache h = refl
  ask-elsewhere id j now other_status cache h = refl
  ask-elsewhere id j now (status_ok none) cache h =
      ground
        (arith, lookup-insert j id (record { when = now; reading = fails decoder_error }) cache)
  ask-elsewhere id j now (status_ok (some r)) cache h = ground (
    arith,
    lookup-insert j id (record { when = now; reading = entry_read (entry_of_reply gain_text r) })
        cache,
  )

  -- A call asks the API or changes nothing.
  asks_or_not :
      (id : ℕ) (force : Bool) (now : ℕ) (a : Answer) (cache : Map CachedData)
      → (gateway_details gain_text id force now a cache ≡ ask gain_text id now a cache)
        ⊎ (((gateway_details gain_text id force now a cache).asked ≡ false)
            × ((gateway_details gain_text id force now a cache).cache ≡ cache))
  unfolding gateway_details
  asks_or_not id force now a cache = elim (Option-cases (lookup id cache)) [
    | inl n ↦ inl (rw (n, gateway_details) refl)
    | inr (c, n) ↦ elim (Bool-cases (not force && fresh now c)) [
      | inl y ↦ inr (rw (n, y, gateway_details) (refl, refl))
      | inr y ↦ inl (rw (n, y, gateway_details) refl)
    ]
  ]

  details-elsewhere :
      (id : ℕ) (c : Call) (cache : Map CachedData)
      → (c.id == id) ≡ false
      → lookup id (gateway_details gain_text c.id c.force c.now c.answer cache).cache
        ≡ lookup id cache
  details-elsewhere id c cache h = elim (asks_or_not c.id c.force c.now c.answer cache) [
    | inl e ↦ rw e (ask-elsewhere id c.id c.now c.answer cache h)
    | inr e ↦ ap (λ m. lookup id m) e.1
  ]

  calls-elsewhere :
      (id : ℕ) (cs : List Call) (cache : Map CachedData)
      → Others id cs
      → lookup id (after_calls cs cache) ≡ lookup id cache
  unfolding after_calls
  calls-elsewhere id [] cache o = refl
  calls-elsewhere id (c ∷ cs) cache o =
      calls-elsewhere id cs (gateway_details gain_text c.id c.force c.now c.answer cache).cache o.1
      ∙ details-elsewhere id c cache o.0

  kept_reading :
      (id t : ℕ) (a : Answer) (cache : Map CachedData)
      → is_kept a ≡ true
      → lookup id (ask gain_text id t a cache).cache
        ≡ some (record { when = t; reading = again (ask gain_text id t a cache).result })
  unfolding ask
  kept_reading id t no_response cache k =
      ground (arith, lookup-insert id id (record { when = t; reading = fails call_error }) cache)
  kept_reading id t (status_ok none) cache k =
      ground (arith, lookup-insert id id (record { when = t; reading = fails decoder_error }) cache)
  kept_reading id t (status_ok (some r)) cache k =
      let kept : CachedData = record {
        when = t;
        reading = entry_read (entry_of_reply gain_text r);
      } in
      ground (arith, lookup-insert id id kept cache)
  kept_reading id t no_request cache k = absurd (ground arith)
  kept_reading id t not_found cache k = absurd (ground arith)
  kept_reading id t other_status cache k = absurd (ground arith)

  -- After a call that asked the API, forced or not, and got a reply, or a failure of the connection or the
  -- decoding, a call for the same gateway that is not forced does not ask again within ten minutes and gives
  -- the same result, whatever calls for other gateways come between and whatever the API would answer;
  -- only where the first call said that the reply does not decode, the second gives the decoder's error.
  pub kept_ten_minutes :
      (id : ℕ) (force : Bool) (t now : ℕ) (a b : Answer) (cs : List Call) (cache : Map CachedData)
      → (gateway_details gain_text id force t a cache).asked ≡ true
      → is_kept a ≡ true
      → Others id cs
      → now < t + 10 * minute
      → let first = gateway_details gain_text id force t a cache in
        let second = gateway_details gain_text id false now b (after_calls cs first.cache) in
        (second.result ≡ again first.result) × (second.asked ≡ false)
  unfolding gateway_details
  kept_ten_minutes id force t now a b cs cache asks k o l = elim (asks_or_not id force t a cache) [
    | inr e ↦ absurd (ground (arith, asks, e.0))
    | inl first ↦
        let e =
          calls-elsewhere id cs (ask gain_text id t a cache).cache o
          ∙ kept_reading id t a cache k in
        let y : ltb now (t + 10 * minute) ≡ true = ground arith in
        rw (first, gateway_details, e, y) (refl, refl)
  ]
