-- ===== src/DevAddr/NetId.antt =====
-- What `NetIDType` of utils/lorawan.go computes.
use packet_handling.Base.{
  ℕ, ◌-◌, ◌^◌, ◌≤◌, ◌<◌, ◌≡◌, refl, ◌↔◌, Bool, true, false, ◌&&◌, not, Option, none, some, arith,
  ◌==◌, ltb, leb, check_below, check_below_sound,
}
use packet_handling.DevAddr.{DevAddr, net_id_type, net_id_type_from}

-- The first byte begins with `t` ones and a zero.
abbrev leads : ℕ → ℕ → Bool
leads t b = leb (256 - 2 ^ (8 - t)) b && ltb b (256 - 2 ^ (7 - t))

abbrev is_type : ℕ → Option ℕ → Bool
is_type t none = false
is_type t (some n) = n == t

-- Both Booleans agree.
abbrev agree : Bool → Bool → Bool
agree true b = b
agree false b = not b

agree_eq : (a b : Bool) → agree a b ≡ true → a ≡ b
agree_eq a b h = ground arith

table :
    check_below 8 (λ t. check_below 256 (λ b. agree (is_type t (net_id_type_from 8 b)) (leads t b)))
    ≡ true
unfolding check_below net_id_type_from
table = refl

entry :
    (a : DevAddr) (t : ℕ)
    → a.b0 < 256
    → t < 8
    → agree (is_type t (net_id_type a)) (leads t a.b0) ≡ true
unfolding net_id_type
entry a t hb ht =
    check_below_sound 256 (λ b. agree (is_type t (net_id_type_from 8 b)) (leads t b)) a.b0
      (check_below_sound 8
        (λ s. check_below 256 (λ b. agree (is_type s (net_id_type_from 8 b)) (leads s b))) t table
        ht)
      hb

type_iff :
    (r : Option ℕ) (t b : ℕ)
    → agree (is_type t r) (leads t b) ≡ true
    → (r ≡ some t) ↔ ((256 - 2 ^ (8 - t) ≤ b) × (b < 256 - 2 ^ (7 - t)))
type_iff none t b h = ground arith
type_iff (some n) t b h = ground arith

-- For a first byte and a `t` below 8, the NetID type is `t` exactly when the first byte of the
-- address is `t` ones followed by a zero.
pub net_id_type_iff :
    (a : DevAddr) (t : ℕ)
    → a.b0 < 256
    → t < 8
    → (net_id_type a ≡ some t) ↔ ((256 - 2 ^ (8 - t) ≤ a.b0) × (a.b0 < 256 - 2 ^ (7 - t)))
net_id_type_iff a t hb ht = type_iff (net_id_type a) t a.b0 (entry a t hb ht)
