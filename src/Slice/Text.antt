-- ===== src/Slice/Text.antt =====
-- include/velocypack/SliceBase.h: strings, binary blobs and BCD numbers.
use velocypack.Prelude.{ℕ, ◌+◌, ◌-◌, ◌==◌, between, if◌then◌else◌, List}
use velocypack.Prelude.Int.{ℤ, pos, negsuc}
use velocypack.Exception.{invalid_value_type}
use velocypack.Result.{Result, ok, throws, ◌>>=◌}
use velocypack.Memory.{Memory, bytes_at}
use velocypack.Common.{read_integer_non_empty, read_integer_fixed}
use velocypack.Slice.Head.{is_binary, is_bcd}
use velocypack.Slice.Tags.{value_start}

-- `getString(length)`: where the characters stand, and how many bytes they are.
unfoldable pub get_string : Memory → ℕ → Result (ℕ × ℕ)
get_string m s =
    let h = m s in
    if between 0x40 0xbe h
    then ok (s + 1, h - 0x40)
    else if h == 0xbf
    then ok (s + 1 + 8, read_integer_fixed m 8 (s + 1))
    else throws invalid_value_type

unfoldable pub get_string_unchecked : Memory → ℕ → ℕ × ℕ
get_string_unchecked m s =
    let h = m s in
    if between 0x40 0xbe h then (s + 1, h - 0x40) else (s + 1 + 8, read_integer_fixed m 8 (s + 1))

unfoldable pub get_string_length : Memory → ℕ → Result ℕ
get_string_length m s =
    let h = m s in
    if between 0x40 0xbe h
    then ok (h - 0x40)
    else if h == 0xbf
    then ok (read_integer_fixed m 8 (s + 1))
    else throws invalid_value_type

-- `copyString()`; `stringView()` has the same branches and the same bytes.
unfoldable pub copy_string : Memory → ℕ → Result (List ℕ)
copy_string m s =
    let h = m s in
    if between 0x40 0xbe h
    then ok (bytes_at m (s + 1) (h - 0x40))
    else if h == 0xbf
    then ok (bytes_at m (s + 1 + 8) (read_integer_fixed m 8 (s + 1)))
    else throws invalid_value_type

unfoldable pub get_binary : Memory → ℕ → Result (ℕ × ℕ)
get_binary m s =
    let width = m s - 0xbf in
    if is_binary m s
    then ok (s + 1 + width, read_integer_non_empty m (s + 1) width)
    else throws invalid_value_type

unfoldable pub get_binary_length : Memory → ℕ → Result ℕ
get_binary_length m s =
    if is_binary m s
    then ok (read_integer_non_empty m (s + 1) (m s - 0xbf))
    else throws invalid_value_type

unfoldable pub copy_binary : Memory → ℕ → Result (List ℕ)
copy_binary m s =
    let width = m s - 0xbf in
    if is_binary m s
    then ok (bytes_at m (s + 1 + width) (read_integer_non_empty m (s + 1) width))
    else throws invalid_value_type

-- What `getBCD` writes through its references, and the pointer that it returns. The exponent is the
-- bit pattern of an int32_t.
pub record Bcd : Type 0 where
  pub sign : ℤ
  pub exponent : ℕ
  pub mantissa_length : ℕ
  pub mantissa : ℕ

unfoldable pub get_bcd : Memory → ℕ → Result Bcd
get_bcd m s =
    let positive = between 0xc8 0xcf (m s) in
    let width = if positive then m s - 0xc7 else m s - 0xcf in
    if is_bcd m s
    then (do
      start ← value_start m s
      ok (record {
        sign = if positive then pos 1 else negsuc 0;
        exponent = read_integer_fixed m 4 (start + 1 + width);
        mantissa_length = read_integer_non_empty m (start + 1) width;
        mantissa = start + 1 + width + 4;
      }))
    else throws invalid_value_type
