-- ===== src/JoinFilter/Tests.antt =====
-- The join filter at work: one tenant with one application of two devices, one of them disabled.
use text.Mathlib.Text.{◌==◌ as str_eq}
use packet_handling.Base.{
  ℕ, ◌≡◌, refl, sym, ap, String, true, Option, none, some, List, [], ◌∷◌, arith, if◌then◌else◌,
  take, drop, contains,
}
use packet_handling.JoinFilter.{Chirpstack, Generator, update_filter}
use packet_handling.JoinFilter.EndToEnd.{
  Holds, Codec, enabled_euis, accepted, joins_accepted_iff_enabled,
}
use packet_handling.Samples.{route_ext, router}

abbrev devices_of : String → List String
devices_of app = "0000000000000003" ∷ "0000000000000007" ∷ []

abbrev eui : String → Option ℕ
eui t =
    if str_eq t "0000000000000007"
    then some 7
    else if str_eq t "0000000000000003"
    then some 3
    else none

abbrev chirpstack : Chirpstack
chirpstack = record {
  list_tenants = λ limit offset. some (take limit (drop offset ("t" ∷ [])));
  list_applications = λ t limit offset. some (take limit (drop offset ("a" ∷ [])));
  list_devices = λ a limit offset. some (take limit (drop offset (devices_of a)));
  get_device = λ d. some (str_eq d "0000000000000003");
  parse_eui = eui;
  populate = λ keys. some (record { seed = 0; block_length = 0; fingerprints = keys });
  marshal_bitmap = λ keys. some (1 ∷ keys);
}

abbrev holds : Holds chirpstack 1
holds = record {
  tenants = "t" ∷ [];
  applications = λ t. "a" ∷ [];
  devices = devices_of;
  tenants_listed = λ limit offset. refl;
  applications_listed = λ t limit offset. refl;
  devices_listed = λ a limit offset. refl;
  few_tenants = omega arith;
  few_applications = λ t. omega arith;
  few_devices = λ a. omega arith;
  fuel_tenants = omega arith;
  fuel_applications = λ t. omega arith;
  fuel_devices = λ a. omega arith;
}

abbrev unmarshal : List ℕ → Option (List ℕ)
unmarshal [] = none
unmarshal (b ∷ bs) = some bs

codec : Codec chirpstack route_ext unmarshal
codec = record {
  encodes = λ keys. (1, keys, refl);
  reads_back = λ keys bytes e.
      (keys, ap (λ o. elim o [ none ↦ none | some b ↦ unmarshal b ]) (sym e), λ key. refl);
}

abbrev empty_generator : Generator
empty_generator = record { filter = none; bitmap_bytes = [] }

joins_accepted_iff_enabled_example :
    ((update_filter chirpstack 1 empty_generator).1 ≡ true)
    × (accepted chirpstack route_ext unmarshal codec router refl
          (update_filter chirpstack 1 empty_generator).0
          7
        ≡ contains 7 (enabled_euis chirpstack 1 holds))
joins_accepted_iff_enabled_example =
    joins_accepted_iff_enabled chirpstack route_ext unmarshal codec router refl 1 holds
      (record { seed = 0; block_length = 0; fingerprints = enabled_euis chirpstack 1 holds })
      empty_generator 7 refl
