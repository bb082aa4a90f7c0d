-- ===== src/Builder/Close/Compact.antt =====
-- src/Builder.cpp: `closeCompactArrayOrObject`.
pub mod RoundTrip
use velocypack.Prelude.{ℕ, ◌+◌, ◌-◌, ◌==◌, ltb, Bool, true, false, if◌then◌else◌}
use velocypack.Common.{get_variable_value_length, store_variable_value_length}
use velocypack.Memory.{memmove}
use velocypack.Builder.Output.{Output, patch}
use velocypack.Builder.State.{Builder, close_level}

-- `bLen` and `byteSize`, of the size of everything but the byte length itself.
unfoldable pub compact_sizes : ℕ → ℕ × ℕ
compact_sizes size =
    let b_len = get_variable_value_length size in
    if get_variable_value_length (size + b_len) == b_len
    then (b_len, size + b_len)
    else (b_len + 1, size + b_len + 1)

-- The bytes of an Array or Object of n members that is closed so. The head is followed by the byte
-- length and the members, and the number of members stands at the end in the reverse format.
unfoldable pub compact_output : ℕ → Bool → ℕ → Output → Output
compact_output pos is_array n out =
    let n_len = get_variable_value_length n in
    let (b_len, byte_size) = compact_sizes (out.pos - (pos + 8) + n_len) in
    let opened = patch pos (if is_array then 0x13 else 0x14) out in
    let moved = memmove opened.bytes (pos + (1 + b_len)) (pos + 9) (opened.pos - (pos + 9)) in
    let sized = store_variable_value_length false moved (pos + 1) byte_size in
    record {
      bytes = store_variable_value_length true sized (pos + byte_size - 1) n;
      pos = out.pos - 8 + (n_len + b_len);
    }

-- The function gives up and leaves the state when the byte length takes more than eight bytes.
unfoldable pub close_compact_array_or_object : ℕ → Bool → ℕ → Builder → Bool × Builder
close_compact_array_or_object pos is_array n b =
    let (b_len, _) = compact_sizes (b.out.pos - (pos + 8) + get_variable_value_length n) in
    if ltb b_len 9
    then (true, close_level (record b { out = compact_output pos is_array n b.out }))
    else (false, b)
