-- ===== src/Builder/Integers.antt =====
-- include/velocypack/Builder.h: `addUInt` and `appendUInt`.
pub mod RoundTrip
use velocypack.Prelude.{ℕ, zero, suc, ◌+◌, ◌/◌, ◌%◌, ◌^◌, leb, ◌==◌, bit_and, if◌then◌else◌}
use velocypack.Memory.{Memory}
use velocypack.Builder.Output.{Output, append_byte, advance, patch}

-- The do-while loop, with the count `vSize` and the bytes. A uint64_t has eight bytes at most, so there
-- are seven rounds behind the first.
unfoldable pub append_uint_loop : ℕ → ℕ → ℕ → Output → ℕ × Output
append_uint_loop zero v size out = (size + 1, append_byte (bit_and v 0xff) out)
append_uint_loop (suc rounds) v size out =
    let out' = append_byte (bit_and v 0xff) out in
    let more = append_uint_loop rounds (v / 2 ^ 8) (size + 1) out' in
    if v / 2 ^ 8 == 0 then (size + 1, out') else more

-- `appendUInt(v, base)`: the head byte is written behind the loop, which finds its size.
unfoldable pub append_uint : ℕ → ℕ → Output → Output
append_uint v base out =
    let (size, out') = append_uint_loop 7 v 0 (advance out) in patch out.pos (base + size) out'

-- `addUInt(v)`
unfoldable pub add_uint : ℕ → Output → Output
add_uint v out = if leb v 9 then append_byte (0x30 + v) out else append_uint v 0x27 out
