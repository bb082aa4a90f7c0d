-- ===== src/Common/Integers/LittleEndian.antt =====
-- The ways in which `readIntegerFixed` reads an integer are one.
use velocypack.Prelude.{
  ℕ, zero, suc, ◌+◌, ◌*◌, ◌/◌, ◌%◌, ◌^◌, ◌≤◌, ◌<◌, bit_or, ◌≡◌, refl, ap, ◌∙◌, arith, sym,
}
use velocypack.Prelude.Bits.{bit_or_shift, bit_or_fields}
use velocypack.Memory.{Memory, IsByteMemory, update, update_self, update_ne}
use velocypack.Common.Integers.{
  memcpy_in, memcpy_out, read_int_fixed_helper, read_integer_non_empty, read_u64, store_u64,
}
use native.Mathlib.Nat.{pow-suc, mul_assoc}
use native.Mathlib.Numerals.{towards_suc}

pub memcpy_in-lt : (m : Memory) (n p : ℕ) → IsByteMemory m → memcpy_in m p n < 256 ^ n
unfolding memcpy_in
memcpy_in-lt m zero p b = omega arith
memcpy_in-lt m (suc n) p b = omega (arith, pow-suc 256 n, b p, memcpy_in-lt m n (p + 1) b)

shift_eight : (x s : ℕ) → x * 2 ^ (s + 8) ≡ x * 2 ^ 8 * 2 ^ s
shift_eight x s =
    let e : 2 ^ (s + 8) ≡ 256 * 2 ^ s = simp towards_suc (omega arith) in
    ap (λ (t : ℕ). x * t) e ∙ sym (mul_assoc x 256 (2 ^ s))

join_byte : (x b s : ℕ) → b < 256 → bit_or (x * 2 ^ (s + 8)) (b * 2 ^ s) ≡ (b + x * 256) * 2 ^ s
join_byte x b s h =
    rw (shift_eight x s, bit_or_shift s (x * 2 ^ 8) b, bit_or_fields 8 x b h) (omega arith)

-- `read_int_fixed_helper` at a shift joins the bytes by `|`, which here is their sum.
helper-memcpy_in :
    (m : Memory) (n shift p : ℕ)
    → IsByteMemory m
    → read_int_fixed_helper m n shift p ≡ memcpy_in m p n * 2 ^ shift
unfolding memcpy_in read_int_fixed_helper
helper-memcpy_in m zero shift p b = omega arith
helper-memcpy_in m (suc n) shift p b =
    rw (helper-memcpy_in m n (shift + 8) (p + 1) b)
      (join_byte (memcpy_in m (p + 1) n) (m p) shift (b p))

-- For every length from 1 to 8 the shifts, the single byte and the `memcpy` of `readIntegerNonEmpty`
-- give the little-endian value of the bytes.
pub read_integer_non_empty-memcpy_in :
    (m : Memory) (start length : ℕ)
    → IsByteMemory m
    → 1 ≤ length
    → length ≤ 8
    → read_integer_non_empty m start length ≡ memcpy_in m start length
unfolding read_integer_non_empty memcpy_in
read_integer_non_empty-memcpy_in m start zero b lo hi = absurd (omega arith)
read_integer_non_empty-memcpy_in m start (suc zero) b lo hi = omega arith
read_integer_non_empty-memcpy_in m start (suc (suc n)) b lo hi =
    ground (arith, helper-memcpy_in m (suc (suc n)) 0 start b)

pub read_integer_non_empty-lt :
    (m : Memory) (start length : ℕ)
    → IsByteMemory m
    → 1 ≤ length
    → length ≤ 8
    → read_integer_non_empty m start length < 256 ^ length
read_integer_non_empty-lt m start length b lo hi =
    rw (read_integer_non_empty-memcpy_in m start length b lo hi) (memcpy_in-lt m length start b)

-- Bytes written at p and behind it leave those before p.
pub memcpy_out-before : (m : Memory) (p n v a : ℕ) → a < p → memcpy_out m p n v a ≡ m a
unfolding memcpy_out
memcpy_out-before m p zero v a h = refl
memcpy_out-before m p (suc n) v a h =
    memcpy_out-before (update m p (v % 256)) (p + 1) n (v / 256) a (omega arith)
    ∙ update_ne m p (v % 256) a (λ e. omega arith)

pub memcpy_out-after : (m : Memory) (p n v a : ℕ) → p + n ≤ a → memcpy_out m p n v a ≡ m a
unfolding memcpy_out
memcpy_out-after m p zero v a h = refl
memcpy_out-after m p (suc n) v a h =
    memcpy_out-after (update m p (v % 256)) (p + 1) n (v / 256) a (omega arith)
    ∙ update_ne m p (v % 256) a (λ e. omega arith)

pub memcpy_in-memcpy_out :
    (m : Memory) (p n v : ℕ) → v < 256 ^ n → memcpy_in (memcpy_out m p n v) p n ≡ v
unfolding memcpy_in memcpy_out
memcpy_in-memcpy_out m p zero v h = omega arith
memcpy_in-memcpy_out m p (suc n) v h =
    let m' = update m p (v % 256) in
    omega (
      arith,
      pow-suc 256 n,
      memcpy_out-before m' (p + 1) n (v / 256) p (omega arith),
      update_self m p (v % 256),
      memcpy_in-memcpy_out m' (p + 1) n (v / 256) (omega (arith, pow-suc 256 n)),
    )

-- `readUInt64` reads the value that `storeUInt64` stored.
pub read_u64-store_u64 :
    (m : Memory) (start value : ℕ)
    → value < 2 ^ 64
    → read_u64 (store_u64 m start value) start ≡ value
unfolding read_u64 store_u64
read_u64-store_u64 m start value h = memcpy_in-memcpy_out m start 8 value (omega arith)

-- What `memcpy` reads depends on the bytes from p on only.
pub memcpy_in-agree :
    (m m' : Memory) (p n : ℕ)
    → ((a : ℕ) → p ≤ a → a < p + n → m a ≡ m' a)
    → memcpy_in m p n ≡ memcpy_in m' p n
unfolding memcpy_in
memcpy_in-agree m m' p zero same = refl
memcpy_in-agree m m' p (suc n) same = omega (
  arith,
  same p (omega arith) (omega arith),
  memcpy_in-agree m m' (p + 1) n (λ a lo hi. same a (omega arith) (omega arith)),
)
