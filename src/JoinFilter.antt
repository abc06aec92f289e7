-- ===== src/JoinFilter.antt =====
-- The join filter that a router makes of the devices that ChirpStack knows: router/joinfilter.go.
-- ChirpStack's list and get calls, xorfilter's Populate and roaring64's encoding are parameters.
pub mod Paging
pub mod EndToEnd
mod Tests
use packet_handling.Base.{
  ℕ, zero, suc, ◌+◌, ◌%◌, ◌^◌, String, Bool, true, false, Option, none, some, List, [], ◌∷◌, ◌++◌,
  leb, if◌then◌else◌, length,
}
use packet_handling.Wire.{Xor8, JoinFilter}

-- A call that may fail; `out_of_fuel` is a loop that has not ended.
pub data Result {ℓ} (A : Type ℓ) : Type ℓ where
  ok : A → Result A
  failed : Result A
  out_of_fuel : Result A

infixl 5 ◌>>=◌
abbrev pub ◌>>=◌ {ℓ κ} : {A : Type ℓ} {B : Type κ} → Result A → (A → Result B) → Result B
ok a >>= f = f a
failed >>= f = failed
out_of_fuel >>= f = out_of_fuel

-- The largest page that is asked for.
abbrev pub page_limit : ℕ
page_limit = 500

module _ {A B : Type 0} (keep : A → Option B) where
  -- The inner loop over the entries of a page.
  abbrev pub kept_of : List A → List B
  kept_of [] = []
  kept_of (x ∷ xs) = elim (keep x) [ none ↦ kept_of xs | some b ↦ b ∷ kept_of xs ]

  -- The `for hasMore` loop; the offset is a uint32. `list limit offset` is `none` on an error.
  unfoldable pub pages : (ℕ → ℕ → Option (List A)) → ℕ → ℕ → List B → Result (List B)
  pages list zero processed acc = out_of_fuel
  pages list (suc fuel) processed acc = elim (list page_limit processed) [
    | none ↦ failed
    | some page ↦
        let rest = pages list fuel ((processed + length page) % 2 ^ 32) (acc ++ kept_of page) in
        if leb page_limit (length page) then rest else ok (acc ++ kept_of page)
  ]

-- The services of ChirpStack, with the two calls on its devices and `Eui64FromString`.
pub record Chirpstack : Type 0 where
  pub list_tenants : ℕ → ℕ → Option (List String)
  pub list_applications : String → ℕ → ℕ → Option (List String)
  pub list_devices : String → ℕ → ℕ → Option (List String)
  -- `IsDisabled` of a device, `none` where the call fails
  pub get_device : String → Option Bool
  pub parse_eui : String → Option ℕ
  -- `xorfilter.Populate`, and `AddMany` with `MarshalBinary` of roaring64
  pub populate : List ℕ → Option Xor8
  pub marshal_bitmap : List ℕ → Option (List ℕ)

-- `chirpstackGenerator`
pub record Generator : Type 0 where
  pub filter : Option Xor8
  pub bitmap_bytes : List ℕ

-- `JoinFilter`: a nil filter is sent with no bitmap.
unfoldable pub join_filter : Generator → JoinFilter
join_filter g = elim g.filter [
  | none ↦ record { xor8 = none; roaring_bitmap = [] }
  | some f ↦ record { xor8 = some f; roaring_bitmap = g.bitmap_bytes }
]

-- A device that cannot be read, is disabled or has no valid EUI is skipped.
enabled_of : Option Bool → Option ℕ → Option ℕ
enabled_of none eui = none
enabled_of (some true) eui = none
enabled_of (some false) eui = eui

module _ (cs : Chirpstack) where
  unfoldable pub enabled_eui : String → Option ℕ
  unfolding enabled_of
  enabled_eui dev = enabled_of (cs.get_device dev) (cs.parse_eui dev)

  unfoldable pub build : List ℕ → Result Generator
  build [] = ok (record { filter = none; bitmap_bytes = [] })
  build (e ∷ es) = elim (cs.populate (e ∷ es)) [
    | none ↦ failed
    | some f ↦ elim (cs.marshal_bitmap (e ∷ es)) [
      | none ↦ failed
      | some bytes ↦ ok (record { filter = some f; bitmap_bytes = bytes })
    ]
  ]

module _ (cs : Chirpstack) (fuel : ℕ) where
  unfoldable pub get_tenant_ids : Result (List String)
  get_tenant_ids = pages some cs.list_tenants fuel 0 []

  unfoldable pub get_application_ids : String → Result (List String)
  get_application_ids tenant = pages some (cs.list_applications tenant) fuel 0 []

  unfoldable pub get_dev_euis : String → Result (List ℕ)
  get_dev_euis app = pages (enabled_eui cs) (cs.list_devices app) fuel 0 []

  unfoldable pub euis_of_apps : List String → List ℕ → Result (List ℕ)
  euis_of_apps [] acc = ok acc
  euis_of_apps (app ∷ apps) acc = do euis ← get_dev_euis app; euis_of_apps apps (acc ++ euis)

  unfoldable pub euis_of_tenants : List String → List ℕ → Result (List ℕ)
  euis_of_tenants [] acc = ok acc
  euis_of_tenants (tenant ∷ tenants) acc = do
    apps ← get_application_ids tenant
    acc' ← euis_of_apps apps acc
    euis_of_tenants tenants acc'

  -- The filter that `UpdateFilter` stores, where nothing fails.
  unfoldable pub fresh_filter : Result Generator
  fresh_filter = do tenants ← get_tenant_ids; euis ← euis_of_tenants tenants []; build cs euis

  -- `UpdateFilter`: the generator after it, and whether it returned nil.
  unfoldable pub update_filter : Generator → Generator × Bool
  update_filter g = elim fresh_filter [
    | ok g' ↦ (g', true)
    | failed ↦ (g, false)
    | out_of_fuel ↦ (g, false)
  ]
