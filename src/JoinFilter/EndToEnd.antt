-- ===== src/JoinFilter/EndToEnd.antt =====
-- From the devices in ChirpStack to the joins that a forwarder passes on: the filter that
-- router/joinfilter.go stores, sent by `JoinFilter`, set by `updateJoinFilter` and asked by
-- `AcceptsJoin` (forwarder/router_client.go, forwarder/routes.go).
use packet_handling.Base.{
  ℕ, ◌*◌, ◌^◌, ◌<◌, ◌≡◌, refl, sym, ap, ◌∙◌, String, Bool, true, false, Option, none, some, List,
  [], ◌∷◌, ◌++◌, arith, length, contains,
}
use mathlib.Core.List.{append_assoc, append-nil}
use packet_handling.Wire.{Xor8}
use packet_handling.JoinFilter.{
  ok, kept_of, page_limit, Chirpstack, Generator, join_filter, get_tenant_ids, get_application_ids,
  enabled_eui, get_dev_euis, euis_of_apps, euis_of_tenants, build, fresh_filter, update_filter,
}
use packet_handling.JoinFilter.Paging.{Lists, pages_all}
use packet_handling.Route.{Externals, Router, set_join_filter, accepts_join}
use packet_handling.RouterClient.Reconnect.{update_join_filter_of}

-- What ChirpStack holds while the filter is made: its tenants, their applications and the devices of
-- those. Every list fits the 32-bit offset and the fuel.
pub record Holds (cs : Chirpstack) (fuel : ℕ) : Type 0 where
  pub tenants : List String
  pub applications : String → List String
  pub devices : String → List String
  pub tenants_listed : Lists cs.list_tenants tenants
  pub applications_listed : (t : String) → Lists (cs.list_applications t) (applications t)
  pub devices_listed : (a : String) → Lists (cs.list_devices a) (devices a)
  pub few_tenants : length tenants < 2 ^ 32
  pub few_applications : (t : String) → length (applications t) < 2 ^ 32
  pub few_devices : (a : String) → length (devices a) < 2 ^ 32
  pub fuel_tenants : length tenants < page_limit * fuel
  pub fuel_applications : (t : String) → length (applications t) < page_limit * fuel
  pub fuel_devices : (a : String) → length (devices a) < page_limit * fuel

kept_of-some : {A : Type 0} (xs : List A) → kept_of some xs ≡ xs
kept_of-some [] = refl
kept_of-some (x ∷ xs) = ap (◌∷◌ x) (kept_of-some xs)

module _ (cs : Chirpstack) (fuel : ℕ) (h : Holds cs fuel) where
  -- The EUIs of the enabled devices, by tenant and application.
  abbrev pub euis_in_apps : List String → List ℕ
  euis_in_apps [] = []
  euis_in_apps (a ∷ apps) = kept_of (enabled_eui cs) (h.devices a) ++ euis_in_apps apps

  abbrev pub euis_in_tenants : List String → List ℕ
  euis_in_tenants [] = []
  euis_in_tenants (t ∷ ts) = euis_in_apps (h.applications t) ++ euis_in_tenants ts

  abbrev pub enabled_euis : List ℕ
  enabled_euis = euis_in_tenants h.tenants

  euis_of_apps-all :
      (apps : List String) (acc : List ℕ)
      → euis_of_apps cs fuel apps acc ≡ ok (acc ++ euis_in_apps apps)
  unfolding euis_of_apps get_dev_euis
  euis_of_apps-all [] acc = ap ok (sym (append-nil acc))
  euis_of_apps-all (a ∷ apps) acc =
      rw
        (pages_all (enabled_eui cs) (cs.list_devices a) fuel (h.devices a) (h.devices_listed a)
          (h.few_devices a) (h.fuel_devices a))
        (euis_of_apps-all apps (acc ++ kept_of (enabled_eui cs) (h.devices a))
          ∙ ap ok (append_assoc acc (kept_of (enabled_eui cs) (h.devices a)) (euis_in_apps apps)))

  euis_of_tenants-all :
      (ts : List String) (acc : List ℕ)
      → euis_of_tenants cs fuel ts acc ≡ ok (acc ++ euis_in_tenants ts)
  unfolding euis_of_tenants get_application_ids
  euis_of_tenants-all [] acc = ap ok (sym (append-nil acc))
  euis_of_tenants-all (t ∷ ts) acc =
      rw
        (
          pages_all some (cs.list_applications t) fuel (h.applications t) (h.applications_listed t)
              (h.few_applications t) (h.fuel_applications t),
          kept_of-some (h.applications t),
          euis_of_apps-all (h.applications t) acc,
        )
        (euis_of_tenants-all ts (acc ++ euis_in_apps (h.applications t))
          ∙ ap ok (append_assoc acc (euis_in_apps (h.applications t)) (euis_in_tenants ts)))

  fresh_filter-all : fresh_filter cs fuel ≡ build cs enabled_euis
  unfolding fresh_filter get_tenant_ids
  fresh_filter-all = rw (
    pages_all some cs.list_tenants fuel h.tenants h.tenants_listed h.few_tenants h.fuel_tenants,
    kept_of-some h.tenants,
    euis_of_tenants-all h.tenants [],
  )

update_filter-ok :
    (cs : Chirpstack) (fuel : ℕ) (g g' : Generator)
    → fresh_filter cs fuel ≡ ok g'
    → update_filter cs fuel g ≡ (g', true)
unfolding update_filter
update_filter-ok cs fuel g g' e = ground arith

-- What roaring64 promises of its encoding: it encodes any keys, in at least one byte, and a bitmap
-- read back holds exactly the keys that were added.
pub record Codec {Bitmap : Type 0} (cs : Chirpstack) (ext : Externals Bitmap)
    (unmarshal : List ℕ → Option Bitmap) : Type 0 where
  pub encodes : (keys : List ℕ) → (b : ℕ) × (bs : List ℕ) × (cs.marshal_bitmap keys ≡ some (b ∷ bs))
  pub reads_back :
      (keys bytes : List ℕ)
      → cs.marshal_bitmap keys ≡ some bytes
      → (m : Bitmap) × (unmarshal bytes ≡ some m)
        × ((key : ℕ) → ext.bitmap_contains m key ≡ contains key keys)

module _ {Bitmap : Type 0} (cs : Chirpstack) (ext : Externals Bitmap)
    (unmarshal : List ℕ → Option Bitmap) (codec : Codec cs ext unmarshal) (r : Router Bitmap)
    (plain : r.is_default ≡ false) where
  accepts_none :
      (key : ℕ)
      → accepts_join ext
          (update_join_filter_of unmarshal r (some (record { xor8 = none; roaring_bitmap = [] })))
          key
        ≡ false
  unfolding accepts_join update_join_filter_of set_join_filter
  accepts_none key = ground arith

  accepts_bitmap :
      (filter : Option Xor8) (b : ℕ) (bs : List ℕ) (m : Bitmap) (key : ℕ)
      → unmarshal (b ∷ bs) ≡ some m
      → accepts_join ext
          (update_join_filter_of unmarshal r
            (some (record { xor8 = filter; roaring_bitmap = b ∷ bs })))
          key
        ≡ ext.bitmap_contains m key
  unfolding accepts_join update_join_filter_of set_join_filter
  accepts_bitmap filter b bs m key e = ground arith

  -- Whether a forwarder with the filter that a generator sends accepts a join.
  abbrev pub accepted : Generator → ℕ → Bool
  accepted g key = accepts_join ext (update_join_filter_of unmarshal r (some (join_filter g))) key

  -- The generator that `build` makes of keys accepts them and no other.
  built :
      (keys : List ℕ) (f : Xor8)
      → cs.populate keys ≡ some f
      → (g : Generator) × (build cs keys ≡ ok g) × ((key : ℕ) → accepted g key ≡ contains key keys)
  unfolding build join_filter
  built [] f p = (record { filter = none; bitmap_bytes = [] }, refl, accepts_none)
  built (k ∷ ks) f p =
      let (b, bs, enc) = codec.encodes (k ∷ ks) in
      let (m, dec, same) = codec.reads_back (k ∷ ks) (b ∷ bs) enc in
      (
        record { filter = some f; bitmap_bytes = b ∷ bs },
        ground (arith, p, enc),
        λ key. accepts_bitmap (some f) b bs m key dec ∙ same key,
      )

  -- Where ChirpStack's lists do not change, the fuel and the 32-bit offsets suffice for them,
  -- xorfilter takes the EUIs and roaring64 reads back what it wrote: `UpdateFilter` succeeds, and
  -- then a forwarder that has fetched the filter passes on the join of a device to this router,
  -- which is not a default one, exactly if the device is an enabled one of some tenant's
  -- application.
  pub joins_accepted_iff_enabled :
      (fuel : ℕ) (h : Holds cs fuel) (f : Xor8) (g : Generator) (key : ℕ)
      → cs.populate (enabled_euis cs fuel h) ≡ some f
      → ((update_filter cs fuel g).1 ≡ true)
        × (accepted (update_filter cs fuel g).0 key ≡ contains key (enabled_euis cs fuel h))
  joins_accepted_iff_enabled fuel h f g key p =
      let (g', e, same) = built (enabled_euis cs fuel h) f p in
      rw (update_filter-ok cs fuel g g' (fresh_filter-all cs fuel h ∙ e)) (refl, same key)
