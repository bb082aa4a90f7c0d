-- ===== src/Builder/Signed.antt =====
-- include/velocypack/Builder.h: `addInt`, `appendInt` and `intLength`.
pub mod RoundTrip
use velocypack.Prelude.{
  ℕ, zero, suc, ◌+◌, ◌-◌, ◌*◌, ◌/◌, ◌%◌, ◌^◌, leb, ◌==◌, ◌&&◌, bit_and, if◌then◌else◌,
}
use velocypack.Prelude.Int.{ℤ, pos, negsuc, ◌+ℤ◌, leb_ℤ}
use velocypack.Memory.{Memory}
use velocypack.Common.{cast_u64, to_u64}
use velocypack.Builder.Output.{Output, append_byte}

-- The do-while loop of `intLength`, in 7 rounds at most: x is below 2 ^ 63.
unfoldable pub int_length_loop : ℕ → ℕ → ℕ → ℕ
int_length_loop zero x size = size
int_length_loop (suc rounds) x size =
    let more = int_length_loop rounds (x / 2 ^ 8) (size + 1) in
    if leb 0x80 (x / 2 ^ 8) then more else size + 1

-- `value >= 0 ? value : -(value + 1)`
abbrev pub magnitude : ℤ → ℕ
magnitude (pos n) = n
magnitude (negsuc n) = n

-- `intLength(value)`
unfoldable pub int_length : ℤ → ℕ
int_length value =
    if leb_ℤ (negsuc 0x7f) value && leb_ℤ value (pos 0x7f)
    then 1
    else int_length_loop 7 (magnitude value) 0 + 1

-- The bits that `appendInt` writes: `v`, or `v + shift + shift` with the last sum in uint64_t.
unfoldable pub int_bits : ℤ → ℕ → ℕ
int_bits (pos n) shift = cast_u64 (pos n)
int_bits (negsuc n) shift = (cast_u64 (negsuc n +ℤ pos shift) + shift) % 2 ^ 64

-- `while (vSize-- > 0)`
unfoldable pub append_bytes : ℕ → ℕ → Output → Output
append_bytes zero x out = out
append_bytes (suc size) x out = append_bytes size (x / 2 ^ 8) (append_byte (bit_and x 0xff) out)

-- `appendInt(v, base)`
unfoldable pub append_int : ℤ → ℕ → Output → Output
append_int v base out =
    let size = int_length v in
    let x = (if size == 8 then to_u64 v else int_bits v (2 ^ (size * 8 - 1))) in
    append_bytes size x (append_byte (base + size) out)

-- `addInt(v)`: small numbers take the head byte only.
unfoldable pub add_int : ℤ → Output → Output
add_int (pos n) out = if leb n 9 then append_byte (0x30 + n) out else append_int (pos n) 0x1f out
add_int (negsuc n) out =
    if leb n 5 then append_byte (0x40 - (n + 1)) out else append_int (negsuc n) 0x1f out
