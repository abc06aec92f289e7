-- ===== src/Base/Bits.antt =====
-- Laws of the bit operations at variables: a low mask of any width, and `or` digit by digit.
use Prim.Native.Nat.{
  ℕ, zero, suc, ◌+◌, ◌-◌, ◌*◌, ◌/◌, ◌%◌, ◌^◌, ◌≤◌, min, max, bit_and, bit_or, digits,
  bit_and-bitwise, bit_or-bitwise,
}
use mathlib.Core.Path.{◌≡◌, refl, sym, ap, ap₂, ◌∙◌}
use native.Mathlib.Omega.{arith}
use native.Mathlib.Nat.{pow-suc, one-le-pow, div-div-eq-div-mul, mul_comm, div-add-mod}

-- Any count of digits that covers the first number gives the same result.
enough_digits :
    (z : ℕ → ℕ) (f : ℕ → ℕ → ℕ) (n m a b : ℕ) → a ≤ n → a ≤ m → digits z f n a b ≡ digits z f m a b
enough_digits z f zero zero zero b p q = refl
enough_digits z f zero (suc m) zero b p q = refl
enough_digits z f (suc n) zero zero b p q = refl
enough_digits z f (suc n) (suc m) zero b p q = refl
enough_digits z f zero m (suc a) b p q = absurd (omega arith)
enough_digits z f (suc n) zero (suc a) b p q = absurd (omega arith)
enough_digits z f (suc n) (suc m) (suc a) b p q =
    ap (λ t. t * 2 + f (suc a % 2) (b % 2))
      (enough_digits z f n m (suc a / 2) (b / 2) (omega arith) (omega arith))

pub zero-bit_or : (b : ℕ) → bit_or 0 b ≡ b
zero-bit_or b = bit_or-bitwise 0 b

zero-bit_and : (b : ℕ) → bit_and 0 b ≡ 0
zero-bit_and b = bit_and-bitwise 0 b

pub bit_or_digit : (a b : ℕ) → bit_or a b ≡ bit_or (a / 2) (b / 2) * 2 + max (a % 2) (b % 2)
bit_or_digit zero b = omega (arith, zero-bit_or b, zero-bit_or (b / 2))
bit_or_digit (suc a) b =
    bit_or-bitwise (suc a) b
    ∙ ap (λ t. t * 2 + max (suc a % 2) (b % 2))
        (enough_digits (λ c. c) max a (suc a / 2) (suc a / 2) (b / 2) (omega arith) (omega arith)
          ∙ sym (bit_or-bitwise (suc a / 2) (b / 2)))

bit_and_digit : (a b : ℕ) → bit_and a b ≡ bit_and (a / 2) (b / 2) * 2 + min (a % 2) (b % 2)
bit_and_digit zero b = omega (arith, zero-bit_and b, zero-bit_and (b / 2))
bit_and_digit (suc a) b =
    bit_and-bitwise (suc a) b
    ∙ ap (λ t. t * 2 + min (suc a % 2) (b % 2))
        (enough_digits (λ c. 0) min a (suc a / 2) (suc a / 2) (b / 2) (omega arith) (omega arith)
          ∙ sym (bit_and-bitwise (suc a / 2) (b / 2)))

bit_and-zero : (n a : ℕ) → a ≤ n → bit_and a 0 ≡ 0
bit_and-zero n zero h = zero-bit_and 0
bit_and-zero zero (suc a) h = absurd (omega arith)
bit_and-zero (suc n) (suc a) h =
    omega (arith, bit_and_digit (suc a) 0, bit_and-zero n (suc a / 2) (omega arith))

pub bit_or-zero : (n a : ℕ) → a ≤ n → bit_or a 0 ≡ a
bit_or-zero n zero h = zero-bit_or 0
bit_or-zero zero (suc a) h = absurd (omega arith)
bit_or-zero (suc n) (suc a) h =
    omega (arith, bit_or_digit (suc a) 0, bit_or-zero n (suc a / 2) (omega arith))

-- One digit is taken off a quotient and a remainder by a power of two.
div-pow-suc : (a k : ℕ) → a / 2 ^ suc k ≡ a / 2 / 2 ^ k
div-pow-suc a k =
    ap (λ t. a / t) (pow-suc 2 k ∙ mul_comm (2 ^ k) 2) ∙ sym (div-div-eq-div-mul a 2 (2 ^ k))

mod-pow-suc : (a k : ℕ) → a % 2 ^ suc k ≡ a / 2 % 2 ^ k * 2 + a % 2
mod-pow-suc a k = omega (
  arith,
  div-add-mod a (2 ^ suc k),
  div-add-mod (a / 2) (2 ^ k),
  div-pow-suc a k,
  ap (λ (t : ℕ). a / 2 / 2 ^ k * t) (pow-suc 2 k),
  ap (λ (t : ℕ). t * 2 ^ suc k) (div-pow-suc a k),
)

mask_half : (k : ℕ) → (2 ^ suc k - 1) / 2 ≡ 2 ^ k - 1
mask_half k = omega (arith, pow-suc 2 k, one-le-pow k 2)

-- `a & (2^k - 1)` is the remainder by `2^k`.
pub bit_and_mask : (k a : ℕ) → bit_and a (2 ^ k - 1) ≡ a % 2 ^ k
bit_and_mask zero a = omega (arith, bit_and-zero a a (omega arith))
bit_and_mask (suc k) a = omega (
  arith,
  bit_and_digit a (2 ^ suc k - 1),
  ap (bit_and (a / 2)) (mask_half k),
  bit_and_mask k (a / 2),
  mod-pow-suc a k,
  pow-suc 2 k,
  one-le-pow k 2,
)

div_no_digits : (a : ℕ) → a / 2 ^ 0 ≡ a
div_no_digits a = omega arith

-- The digits of an `or` above and below any position.
pub div-bit_or : (k a b : ℕ) → bit_or a b / 2 ^ k ≡ bit_or (a / 2 ^ k) (b / 2 ^ k)
div-bit_or zero a b = rw (div_no_digits (bit_or a b), div_no_digits a, div_no_digits b)
div-bit_or (suc k) a b =
    rw
      (div-pow-suc (bit_or a b) k, div-pow-suc a k, div-pow-suc b k, ← div-bit_or k (a / 2) (b / 2))
      (ap (λ t. t / 2 ^ k) (omega (arith, bit_or_digit a b)))

half-mod : (a k : ℕ) → a % 2 ^ suc k / 2 ≡ a / 2 % 2 ^ k
half-mod a k = omega (arith, mod-pow-suc a k)

digit-mod : (a k : ℕ) → a % 2 ^ suc k % 2 ≡ a % 2
digit-mod a k = omega (arith, mod-pow-suc a k)

mod_no_digits : (a : ℕ) → a % 2 ^ 0 ≡ 0
mod_no_digits a = omega arith

pub mod-bit_or : (k a b : ℕ) → bit_or a b % 2 ^ k ≡ bit_or (a % 2 ^ k) (b % 2 ^ k)
mod-bit_or zero a b =
    mod_no_digits (bit_or a b)
    ∙ sym (zero-bit_or 0)
    ∙ sym (ap₂ bit_or (mod_no_digits a) (mod_no_digits b))
mod-bit_or (suc k) a b = omega (
  arith,
  mod-pow-suc (bit_or a b) k,
  bit_or_digit a b,
  ap (λ (t : ℕ). t % 2 ^ k) (half_or a b),
  mod-bit_or k (a / 2) (b / 2),
  bit_or_digit (a % 2 ^ suc k) (b % 2 ^ suc k),
  ap₂ bit_or (half-mod a k) (half-mod b k),
  digit-mod a k,
  digit-mod b k,
)
  where
    half_or : (a b : ℕ) → bit_or a b / 2 ≡ bit_or (a / 2) (b / 2)
    half_or a b = omega (arith, bit_or_digit a b)
