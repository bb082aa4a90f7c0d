-- ===== src/Common/Integers.antt =====
-- include/velocypack/velocypack-common.h: fixed-width little-endian integers, and the conversions
-- between int64_t and uint64_t. The host is little-endian, where `memcpy` copies the bytes of an
-- integer lowest first and `hostToLittle` and `littleToHost` do nothing.
pub mod LittleEndian
pub mod Signed
use velocypack.Prelude.{
  ℕ, zero, suc, ◌+◌, ◌-◌, ◌*◌, ◌/◌, ◌%◌, ◌^◌, ◌≤◌, ◌<◌, bit_or, ◌≡◌, arith, leb, if◌then◌else◌,
}
use velocypack.Prelude.Int.{ℤ, pos, negsuc, ◌+ℤ◌, ◌-ℤ◌}
use velocypack.Memory.{Memory, update}

-- The integer that `memcpy(&v, p, n)` leaves in a zeroed v.
unfoldable pub memcpy_in : Memory → ℕ → ℕ → ℕ
memcpy_in m p zero = 0
memcpy_in m p (suc n) = m p + memcpy_in m (p + 1) n * 256

-- `readIntFixedHelper<T, Bytes, Shift>`, for T of 64 bits; here Shift stays below 64.
unfoldable pub read_int_fixed_helper : Memory → ℕ → ℕ → ℕ → ℕ
read_int_fixed_helper m zero shift p = 0
read_int_fixed_helper m (suc bytes) shift p =
    bit_or (read_int_fixed_helper m bytes (shift + 8) (p + 1)) (m p * 2 ^ shift)

-- `readIntegerFixed<T, length>`
unfoldable pub read_integer_fixed : Memory → ℕ → ℕ → ℕ
read_integer_fixed m length start =
    if leb length 1
    then m start
    else if leb length 4
    then read_int_fixed_helper m length 0 start
    else memcpy_in m start length

-- `readIntegerNonEmpty<T>`: a switch over the lengths 1 to 8; any other length gives 0.
unfoldable pub read_integer_non_empty : Memory → ℕ → ℕ → ℕ
unfolding read_integer_fixed
read_integer_non_empty m start length =
    if leb 1 length then if leb length 8 then read_integer_fixed m length start else 0 else 0

unfoldable pub read_u64 : Memory → ℕ → ℕ
unfolding read_integer_fixed
read_u64 m start = read_integer_fixed m 8 start

-- `memcpy(p, &v, n)`
unfoldable pub memcpy_out : Memory → ℕ → ℕ → ℕ → Memory
unfolding update
memcpy_out m p zero v = m
memcpy_out m p (suc n) v = memcpy_out (update m p (v % 256)) (p + 1) n (v / 256)

unfoldable pub store_u64 : Memory → ℕ → ℕ → Memory
unfolding memcpy_out
store_u64 m start value = memcpy_out m start 8 value

abbrev pub shift2 : ℕ
shift2 = 2 ^ 63

-- `static_cast<uint64_t>`
unfoldable pub cast_u64 : ℤ → ℕ
cast_u64 (pos n) = n % 2 ^ 64
cast_u64 (negsuc n) = 2 ^ 64 - 1 - n % 2 ^ 64

-- `toUInt64`: `shift2` is 2 ^ 63 and `shift` is 2 ^ 63 - 1; the last sum is taken in uint64_t.
unfoldable pub to_u64 : ℤ → ℕ
unfolding cast_u64 ◌+ℤ◌
to_u64 (pos n) = cast_u64 (pos n)
to_u64 (negsuc n) = (cast_u64 (negsuc n +ℤ pos (shift2 - 1) +ℤ pos 1) + shift2) % 2 ^ 64

-- `toInt64`
unfoldable pub to_i64 : ℕ → ℤ
unfolding ◌-ℤ◌
to_i64 v = if leb shift2 v then pos (v - shift2) -ℤ pos (shift2 - 1) -ℤ pos 1 else pos v
