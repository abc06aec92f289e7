-- ===== src/GatewayStore/Plans.antt =====
-- Which bands and plans the gateways of a store use (`UniqueGatewayBands` of both stores).
use packet_handling.Base.{
  ℕ, ◌≡◌, refl, ap, ◌∙◌, Bool, true, false, ◌||◌, Option, none, some, List, [], ◌∷◌, arith, any,
  contains, ◌==◌,
}
use packet_handling.GoMap.{Map}
use packet_handling.Bands.{
  UniqueGatewayBands, no_bands, put, contains_band, contains_frequency_plan,
}
use packet_handling.GatewayStore.{
  Gateway, Externals, Maps, band_of, add_one, bands_from, unique_gateway_bands,
}

-- Does a gateway, by its own band or else the default plan, have a band that passes the test?
abbrev pub passes : (ℕ → Bool) → Option ℕ → Option ℕ → Bool
passes test (some band) default = test band
passes test none (some band) = test band
passes test none none = false

contains-put : (x k : ℕ) (xs : List ℕ) → contains x (put k xs) ≡ (k == x || contains x xs)
contains-put x k xs = ground arith

or_false : (x : Bool) → (x || false) ≡ x
or_false true = refl
or_false false = refl

module _ (ext : Externals) (s : Maps) where
  abbrev pub some_gateway : (ℕ → Bool) → Map Gateway → Bool
  unfolding band_of
  some_gateway test = any (λ e. passes test (band_of ext e.1.details) s.default_plan)

  add_one_lem :
      (b p : ℕ) (band default : Option ℕ) (u : UniqueGatewayBands)
      → (contains_band (add_one ext band default u) b
          ≡ (passes (λ k. k == b) band default || contains_band u b))
        × (contains_frequency_plan (add_one ext band default u) p
            ≡ (passes (λ k. ext.to_blockchain k == p) band default || contains_frequency_plan u p))
  unfolding add_one
  add_one_lem b p (some k) default u =
      (contains-put b k u.bands, contains-put p (ext.to_blockchain k) u.plans)
  add_one_lem b p none (some k) u =
      (contains-put b k u.bands, contains-put p (ext.to_blockchain k) u.plans)
  add_one_lem b p none none u = (refl, refl)

  or_regroup : (x y z : Bool) → (x || (y || z)) ≡ ((y || x) || z)
  or_regroup x y z = ground arith

  bands_from_lem :
      (b p : ℕ) (m : Map Gateway) (u : UniqueGatewayBands)
      → let r = bands_from ext s.default_plan m u in
        (contains_band r b ≡ (some_gateway (λ band. band == b) m || contains_band u b))
        × (contains_frequency_plan r p
            ≡ (some_gateway (λ band. ext.to_blockchain band == p) m || contains_frequency_plan u p))
  unfolding bands_from
  bands_from_lem b p [] u = (refl, refl)
  bands_from_lem b p ((id, gw) ∷ m) u =
      let band = band_of ext gw.details in
      let one = add_one_lem b p band s.default_plan u in
      let ih = bands_from_lem b p m (add_one ext band s.default_plan u) in
      (
        ih.0
            ∙ ap (λ c. some_gateway (λ k. k == b) m || c) one.0
            ∙ or_regroup (some_gateway (λ k. k == b) m) (passes (λ k. k == b) band s.default_plan)
                (contains_band u b),
        ih.1
            ∙ ap (λ c. some_gateway (λ k. ext.to_blockchain k == p) m || c) one.1
            ∙ or_regroup (some_gateway (λ k. ext.to_blockchain k == p) m)
                (passes (λ k. ext.to_blockchain k == p) band s.default_plan)
                (contains_frequency_plan u p),
      )

  -- A store names a band exactly if one of its gateways has it, by its details or, where they have
  -- none, by the default plan; and a plan exactly if the band of one of them belongs to it.
  pub unique_gateway_bands_lem :
      (b p : ℕ)
      → (contains_band (unique_gateway_bands ext s) b
          ≡ some_gateway (λ band. band == b) s.by_local_id)
        × (contains_frequency_plan (unique_gateway_bands ext s) p
            ≡ some_gateway (λ band. ext.to_blockchain band == p) s.by_local_id)
  unfolding unique_gateway_bands
  unique_gateway_bands_lem b p =
      let r = bands_from_lem b p s.by_local_id no_bands in
      (
        r.0 ∙ or_false (some_gateway (λ band. band == b) s.by_local_id),
        r.1 ∙ or_false (some_gateway (λ band. ext.to_blockchain band == p) s.by_local_id),
      )
