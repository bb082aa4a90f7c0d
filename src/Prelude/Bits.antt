-- ===== src/Prelude/Bits.antt =====
-- `&` and `|` on words as arithmetic: the laws for the lowest digit, and the masks that the code uses.
use Prim.Native.Nat.{
  ℕ, zero, suc, ◌+◌, ◌*◌, ◌/◌, ◌%◌, ◌^◌, ◌≤◌, ◌<◌, min, max, bit_and, bit_or, digits,
  bit_and-bitwise, bit_or-bitwise,
}
use mathlib.Core.Path.{◌≡◌, refl}
use mathlib.Core.Path.{ap}
use native.Mathlib.Omega.{arith}
use native.Mathlib.Nat.{pow-suc}

-- The count given to `digits` may be any that the first word does not exceed.
module _ (base : ℕ → ℕ) (op : ℕ → ℕ → ℕ) where
  digits_enough : (k n x y : ℕ) → x ≤ k → x ≤ n → digits base op k x y ≡ digits base op n x y
  digits_enough zero n (suc x) y h h' = absurd (omega arith)
  digits_enough (suc k) zero (suc x) y h h' = absurd (omega arith)
  digits_enough (suc k) (suc n) (suc x) y h h' =
      ground (arith, digits_enough k n (suc x / 2) (y / 2) (omega arith) (omega arith))
  digits_enough zero zero zero y h h' = refl
  digits_enough zero (suc n) zero y h h' = refl
  digits_enough (suc k) zero zero y h h' = refl
  digits_enough (suc k) (suc n) zero y h h' = refl

pub zero-bit_and : (b : ℕ) → bit_and 0 b ≡ 0
zero-bit_and b = bit_and-bitwise 0 b

pub zero-bit_or : (b : ℕ) → bit_or 0 b ≡ b
zero-bit_or b = bit_or-bitwise 0 b

pub bit_and-half : (a b : ℕ) → bit_and a b ≡ bit_and (a / 2) (b / 2) * 2 + min (a % 2) (b % 2)
bit_and-half zero b = omega (arith, zero-bit_and b, zero-bit_and (b / 2))
bit_and-half (suc a) b = omega (
  arith,
  bit_and-bitwise (suc a) b,
  bit_and-bitwise (suc a / 2) (b / 2),
  digits_enough (λ _. zero) min a (suc a / 2) (suc a / 2) (b / 2) (omega arith) (omega arith),
)

pub bit_or-half : (a b : ℕ) → bit_or a b ≡ bit_or (a / 2) (b / 2) * 2 + max (a % 2) (b % 2)
bit_or-half zero b = omega (arith, zero-bit_or b, zero-bit_or (b / 2))
bit_or-half (suc a) b = omega (
  arith,
  bit_or-bitwise (suc a) b,
  bit_or-bitwise (suc a / 2) (b / 2),
  digits_enough (λ c. c) max a (suc a / 2) (suc a / 2) (b / 2) (omega arith) (omega arith),
)

-- `half_count` bounds the halvings that are left.
or_zero_count : (half_count a : ℕ) → a ≤ half_count → bit_or a 0 ≡ a
or_zero_count n zero h = zero-bit_or 0
or_zero_count zero (suc a) h = absurd (omega arith)
or_zero_count (suc n) (suc a) h =
    omega (arith, bit_or-half (suc a) 0, or_zero_count n (suc a / 2) (omega arith))

pub bit_or-zero : (a : ℕ) → bit_or a 0 ≡ a
bit_or-zero a = or_zero_count a a (omega arith)

and_zero_count : (half_count a : ℕ) → a ≤ half_count → bit_and a 0 ≡ 0
and_zero_count n zero h = zero-bit_and 0
and_zero_count zero (suc a) h = absurd (omega arith)
and_zero_count (suc n) (suc a) h =
    omega (arith, bit_and-half (suc a) 0, and_zero_count n (suc a / 2) (omega arith))

pub bit_and-zero : (a : ℕ) → bit_and a 0 ≡ 0
bit_and-zero a = and_zero_count a a (omega arith)

times_double : (q k : ℕ) → q * 2 ^ suc k ≡ 2 * (q * 2 ^ k)
times_double q k = omega (arith, ap (λ (t : ℕ). q * t) (pow-suc 2 k))

-- Both sides shifted.
pub bit_or_shift : (s a b : ℕ) → bit_or (a * 2 ^ s) (b * 2 ^ s) ≡ bit_or a b * 2 ^ s
bit_or_shift zero a b = ground arith
bit_or_shift (suc s) a b = omega (
  arith,
  ap (λ (t : ℕ). bit_or t (b * 2 ^ suc s)) (times_double a s),
  ap (λ (t : ℕ). bit_or (2 * (a * 2 ^ s)) t) (times_double b s),
  bit_or-half (2 * (a * 2 ^ s)) (2 * (b * 2 ^ s)),
  ap (λ (t : ℕ). bit_or t (2 * (b * 2 ^ s) / 2))
      (let e : 2 * (a * 2 ^ s) / 2 ≡ a * 2 ^ s = omega arith in e),
  ap (λ (t : ℕ). bit_or (a * 2 ^ s) t) (let e : 2 * (b * 2 ^ s) / 2 ≡ b * 2 ^ s = omega arith in e),
  bit_or_shift s a b,
  times_double (bit_or a b) s,
)

-- `(q << k) | r` where `r` has k digits.
pub bit_or_fields : (k q r : ℕ) → r < 2 ^ k → bit_or (q * 2 ^ k) r ≡ q * 2 ^ k + r
bit_or_fields zero q r h = ground (arith, bit_or-zero q)
bit_or_fields (suc k) q r h = ground (
  arith,
  bit_or-half (q * 2 ^ suc k) r,
  times_double q k,
  pow-suc 2 k,
  bit_or_fields k q (r / 2) (omega (arith, pow-suc 2 k)),
)

-- `x & 1`, `x & 0x7f`, `x & 0xff`, `x & 0x80` and `(uint8_t)(x | 0x80)`.
pub bit_and-one : (a : ℕ) → bit_and a 1 ≡ a % 2
bit_and-one a = omega (arith, bit_and-half a 1, bit_and-zero (a / 2))

bit_and_seven : (a : ℕ) → bit_and a 7 ≡ a % 8
bit_and_seven a = omega (arith, bit_and-half a 7, bit_and-half (a / 2) 3, bit_and-one (a / 2 / 2))

bit_and_63 : (a : ℕ) → bit_and a 63 ≡ a % 64
bit_and_63 a = omega (
  arith,
  bit_and-half a 63,
  bit_and-half (a / 2) 31,
  bit_and-half (a / 2 / 2) 15,
  bit_and_seven (a / 2 / 2 / 2),
)

pub bit_and_7f : (a : ℕ) → bit_and a 0x7f ≡ a % 128
bit_and_7f a = omega (arith, bit_and-half a 127, bit_and_63 (a / 2))

pub bit_and_ff : (a : ℕ) → bit_and a 0xff ≡ a % 256
bit_and_ff a = omega (arith, bit_and-half a 255, bit_and_7f (a / 2))

bit_and_16 : (a : ℕ) → bit_and a 16 ≡ a / 16 % 2 * 16
bit_and_16 a = omega (
  arith,
  bit_and-half a 16,
  bit_and-half (a / 2) 8,
  bit_and-half (a / 2 / 2) 4,
  bit_and-half (a / 2 / 2 / 2) 2,
  bit_and-one (a / 2 / 2 / 2 / 2),
)

pub bit_and_80 : (a : ℕ) → bit_and a 0x80 ≡ a / 128 % 2 * 128
bit_and_80 a = omega (
  arith,
  bit_and-half a 128,
  bit_and-half (a / 2) 64,
  bit_and-half (a / 2 / 2) 32,
  bit_and_16 (a / 2 / 2 / 2),
)

bit_or_one : (a : ℕ) → bit_or a 1 ≡ a / 2 * 2 + 1
bit_or_one a = omega (arith, bit_or-half a 1, bit_or-zero (a / 2))

bit_or_8 : (a : ℕ) → bit_or a 8 ≡ a / 16 * 16 + 8 + a % 8
bit_or_8 a = omega (
  arith,
  bit_or-half a 8,
  bit_or-half (a / 2) 4,
  bit_or-half (a / 2 / 2) 2,
  bit_or_one (a / 2 / 2 / 2),
)

pub bit_or_80 : (a : ℕ) → bit_or a 0x80 % 256 ≡ a % 128 + 128
bit_or_80 a = omega (
  arith,
  bit_or-half a 128,
  bit_or-half (a / 2) 64,
  bit_or-half (a / 2 / 2) 32,
  bit_or-half (a / 2 / 2 / 2) 16,
  bit_or_8 (a / 2 / 2 / 2 / 2),
)
