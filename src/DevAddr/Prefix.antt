-- ===== src/DevAddr/Prefix.antt =====
-- What `DevAddrHasPrefix` of forwarder/utils.go decides.
use Prim.Native.Nat.{bit_or}
use native.Mathlib.Nat.{
  one-le-pow, mod-le, div-eq_of_lt-le, div-add-mod, mod-eq_of_lt, mod-lt, div-eq_of_lt,
}
use packet_handling.Base.{
  ℕ, ◌+◌, ◌-◌, ◌*◌, ◌/◌, ◌%◌, ◌^◌, ◌≤◌, ◌<◌, ◌≡◌, refl, sym, ap, ap₂, ◌∙◌, ◌↔◌, true, false, ◌||◌,
  arith, ◌==◌, ltb, ==_iff, check_below, check_below_sound,
}
use packet_handling.Base.Bits.{bit_and_mask, bit_or-zero, zero-bit_or, div-bit_or, mod-bit_or}
use packet_handling.DevAddr.{
  DevAddr, IsAddr, uint32, put_uint32, same_addr, shl32, and_not32, set_dev_addr_prefix,
  dev_addr_has_prefix,
}

-- The mask that is cleared leaves the `k` low bits, for each of the 33 widths.
kept_bits_table : check_below 33 (λ k. 2 ^ 32 - 1 - shl32 (2 ^ 32 - 1) k == 2 ^ k - 1) ≡ true
unfolding check_below
kept_bits_table = refl

kept_bits : (k : ℕ) → k ≤ 32 → 2 ^ 32 - 1 - shl32 (2 ^ 32 - 1) k ≡ 2 ^ k - 1
kept_bits k h = (==_iff _ (2 ^ k - 1)).0 (
    check_below_sound 33 (λ k. 2 ^ 32 - 1 - shl32 (2 ^ 32 - 1) k == 2 ^ k - 1) k kept_bits_table
      (omega arith))

same_addr-put_uint32 :
    (a : DevAddr) (u : ℕ)
    → IsAddr a
    → u < 2 ^ 32
    → (same_addr (put_uint32 u) a ≡ true) ↔ (u ≡ uint32 a)
same_addr-put_uint32 a u v h = (λ e. ground arith, λ e. ground arith)

pow_pos : (k : ℕ) → 0 < 2 ^ k
pow_pos k = one-le-pow k 2 (omega arith)

-- The address with its `k` low bits kept and the rest taken from the prefix.
module _ (k u p : ℕ) where
  div-overlay : bit_or (u % 2 ^ k) p / 2 ^ k ≡ p / 2 ^ k
  div-overlay =
      div-bit_or k (u % 2 ^ k) p
      ∙ ap (λ t. bit_or t (p / 2 ^ k)) (div-eq_of_lt (mod-lt u (pow_pos k)))
      ∙ zero-bit_or (p / 2 ^ k)

  mod-overlay : bit_or (u % 2 ^ k) p % 2 ^ k ≡ bit_or (u % 2 ^ k) (p % 2 ^ k)
  mod-overlay =
      mod-bit_or k (u % 2 ^ k) p
      ∙ ap (λ t. bit_or t (p % 2 ^ k)) (mod-eq_of_lt (mod-lt u (pow_pos k)))

bit_or-lt-word : (a b : ℕ) → a < 2 ^ 32 → b < 2 ^ 32 → bit_or a b < 2 ^ 32
bit_or-lt-word a b ha hb =
    let e : bit_or a b / 2 ^ 32 ≡ 0 =
      div-bit_or 32 a b ∙ ap₂ bit_or (div-eq_of_lt ha) (div-eq_of_lt hb) ∙ zero-bit_or 0 in
    omega arith

IsAddr-word : {a : DevAddr} → IsAddr a → uint32 a < 2 ^ 32
IsAddr-word v = omega arith

-- Two words are equal when they agree above and below a position.
eq_of_halves : (k x y : ℕ) → x / 2 ^ k ≡ y / 2 ^ k → x % 2 ^ k ≡ y % 2 ^ k → x ≡ y
eq_of_halves k x y q r =
    omega (arith, div-add-mod x (2 ^ k), div-add-mod y (2 ^ k), ap (λ (t : ℕ). 2 ^ k * t) q)

-- `prefix` sets no bit of the address below the mask that is not set there already.
abbrev pub Covers : ℕ → ℕ → ℕ → Type 0
Covers k u p = bit_or (u % 2 ^ k) (p % 2 ^ k) ≡ u % 2 ^ k

overlay_fixed : (k u p : ℕ) → (bit_or (u % 2 ^ k) p ≡ u) ↔ ((u / 2 ^ k ≡ p / 2 ^ k) × Covers k u p)
overlay_fixed k u p = (
  λ e. (
    sym (ap (λ t. t / 2 ^ k) e) ∙ div-overlay k u p,
    sym (mod-overlay k u p) ∙ ap (λ t. t % 2 ^ k) e,
  ),
  λ h.
      eq_of_halves k (bit_or (u % 2 ^ k) p) u (div-overlay k u p ∙ sym h.0)
        (mod-overlay k u p ∙ h.1),
)

-- The shift of the mask, for the lengths that `DevAddrHasPrefix` lets through.
prefix_word :
    (u m : ℕ)
    → 0 < m
    → m ≤ 32
    → and_not32 u (shl32 (2 ^ 32 - 1) ((32 + 256 - m) % 256)) ≡ u % 2 ^ (32 - m)
prefix_word u m h k =
    let e : (32 + 256 - m) % 256 ≡ 32 - m = omega arith in
    rw (e, kept_bits (32 - m) (omega arith)) (bit_and_mask (32 - m) u)

set_prefix_word :
    (a : DevAddr) (p m : ℕ)
    → 0 < m
    → m ≤ 32
    → set_dev_addr_prefix a p m ≡ put_uint32 (bit_or (uint32 a % 2 ^ (32 - m)) p)
unfolding set_dev_addr_prefix
set_prefix_word a p m h k = ap (λ t. put_uint32 (bit_or t p)) (prefix_word (uint32 a) m h k)

length_accepted : (m : ℕ) → 0 < m → m ≤ 32 → (m == 0 || ltb 32 m) ≡ false
length_accepted m h k = ground arith

has_prefix_eq :
    (a : DevAddr) (p m : ℕ)
    → 0 < m
    → m ≤ 32
    → dev_addr_has_prefix a p m ≡ same_addr (put_uint32 (bit_or (uint32 a % 2 ^ (32 - m)) p)) a
unfolding dev_addr_has_prefix
has_prefix_eq a p m h k =
    rw (length_accepted m h k) (ap (λ w. same_addr w a) (set_prefix_word a p m h k))

has_prefix_word :
    (a : DevAddr) (p m : ℕ)
    → IsAddr a
    → p < 2 ^ 32
    → 0 < m
    → m ≤ 32
    → (dev_addr_has_prefix a p m ≡ true) ↔ (bit_or (uint32 a % 2 ^ (32 - m)) p ≡ uint32 a)
has_prefix_word a p m v hp h k = rw (has_prefix_eq a p m h k) (
    same_addr-put_uint32 a (bit_or (uint32 a % 2 ^ (32 - m)) p) v
      (bit_or-lt-word _ p (omega (arith, mod-le (uint32 a) (2 ^ (32 - m)), IsAddr-word v)) hp))

pub has_prefix_length :
    (a : DevAddr) (p m : ℕ) → dev_addr_has_prefix a p m ≡ true → (0 < m) × (m ≤ 32)
unfolding dev_addr_has_prefix
has_prefix_length a p m e = ground arith

-- For an address of four bytes and a prefix of 32 bits, `DevAddrHasPrefix` holds exactly when the
-- length lies in 1..32, the bits above the mask are those of the prefix, and every bit that the
-- prefix sets below the mask is set in the address too.
pub has_prefix_iff :
    (a : DevAddr) (p m : ℕ)
    → IsAddr a
    → p < 2 ^ 32
    → (dev_addr_has_prefix a p m ≡ true) ↔ (
        (0 < m)
        × (m ≤ 32)
        × (uint32 a / 2 ^ (32 - m) ≡ p / 2 ^ (32 - m))
        × Covers (32 - m) (uint32 a) p)
has_prefix_iff a p m v hp = (
  λ e.
      let l = has_prefix_length a p m e in
      let w = (has_prefix_word a p m v hp l.0 l.1).0 e in
      let h = (overlay_fixed (32 - m) (uint32 a) p).0 w in (l.0, l.1, h.0, h.1),
  λ h. (has_prefix_word a p m v hp h.0 h.1).1 ((overlay_fixed (32 - m) (uint32 a) p).1 (h.2, h.3)),
)

-- A block of addresses, by quotient and by its ends.
block_iff : (d u p : ℕ) → 0 < d → p % d ≡ 0 → (u / d ≡ p / d) ↔ ((p ≤ u) × (u < p + d))
block_iff d u p h z = (
  λ e.
      let q : d * (u / d) ≡ d * (p / d) = ap (λ t. d * t) e in
      let r : u % d < d = mod-lt u h in
      (
        omega (arith, div-add-mod u d, div-add-mod p d),
        omega (arith, div-add-mod u d, div-add-mod p d),
      ),
  λ b.
      div-eq_of_lt-le {k = p / d} d {m = u} (omega (arith, div-add-mod p d, b.0))
        (omega (arith, div-add-mod p d, b.1)),
)

Covers-aligned : (k u p : ℕ) → p % 2 ^ k ≡ 0 → Covers k u p
Covers-aligned k u p z =
    ap (bit_or (u % 2 ^ k)) z ∙ bit_or-zero (u % 2 ^ k) (u % 2 ^ k) (omega arith)

-- For an address of four bytes, a length in 1..32 and a prefix of 32 bits with none set below the
-- mask, as the registry means it, `DevAddrHasPrefix` holds of exactly the addresses of the prefix's
-- block.
pub has_prefix_block :
    (a : DevAddr) (p m : ℕ)
    → IsAddr a
    → p < 2 ^ 32
    → p % 2 ^ (32 - m) ≡ 0
    → 0 < m
    → m ≤ 32
    → (dev_addr_has_prefix a p m ≡ true) ↔ ((p ≤ uint32 a) × (uint32 a < p + 2 ^ (32 - m)))
has_prefix_block a p m v hp z h k = (
  λ e. (block_iff _ _ p (pow_pos (32 - m)) z).0 ((has_prefix_iff a p m v hp).0 e).2,
  λ b.
      (has_prefix_iff a p m v hp).1
        (h, k, (block_iff _ _ p (pow_pos (32 - m)) z).1 b, Covers-aligned (32 - m) (uint32 a) p z),
)
