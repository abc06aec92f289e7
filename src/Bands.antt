-- ===== src/Bands.antt =====
-- The frequency plans of the gateways of a store: `UniqueGatewayBands` of gateway/store.go. Bands
-- and plans are numbers; `BandName.ToBlockchain` of frequency_plan is a parameter.
use packet_handling.Base.{ℕ, Bool, List, [], ◌∷◌, contains, if◌then◌else◌}

pub record UniqueGatewayBands : Type 0 where
  pub bands : List ℕ
  pub plans : List ℕ

abbrev pub no_bands : UniqueGatewayBands
no_bands = record { bands = []; plans = [] }

-- `set[k] = struct{}{}`
abbrev pub put : ℕ → List ℕ → List ℕ
put k xs = if contains k xs then xs else k ∷ xs

abbrev pub add_band : (ℕ → ℕ) → ℕ → UniqueGatewayBands → UniqueGatewayBands
add_band to_blockchain band u = record {
  bands = put band u.bands;
  plans = put (to_blockchain band) u.plans;
}

abbrev pub contains_band : UniqueGatewayBands → ℕ → Bool
contains_band u band = contains band u.bands

abbrev pub contains_frequency_plan : UniqueGatewayBands → ℕ → Bool
contains_frequency_plan u plan = contains plan u.plans
