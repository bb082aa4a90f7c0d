-- ===== src/Slice/Size.antt =====
-- include/velocypack/SliceBase.h and SliceBase.tpp: `byteSize`.
use velocypack.Prelude.{
  ℕ, zero, suc, ◌+◌, ◌-◌, ◌%◌, ◌^◌, ◌==◌, ltb, leb, between, if◌then◌else◌, false, ◌||◌,
}
use velocypack.ValueType.{array, object, string, binary, bcd, tagged, custom}
use velocypack.Exception.{internal_error}
use velocypack.Result.{Result, ok, throws, undefined, ◌>>=◌}
use velocypack.SliceStaticData.{type_map, fixed_type_lengths, width_map}
use velocypack.Memory.{Memory}
use velocypack.Common.{read_integer_non_empty, read_integer_fixed, read_variable_value_length}
use velocypack.Slice.Tags.{tags_offset, address_space, value_start}

-- A sum in ValueLength.
abbrev pub add64 : ℕ → ℕ → ℕ
add64 a b = (a + b) % 2 ^ 64

-- The cases for Array and Object. WidthMap has 32 entries.
unfoldable pub compound_byte_size : Memory → ℕ → Result ℕ
compound_byte_size m start =
    let h = m start in
    if h == 0x13 || h == 0x14
    then read_variable_value_length false m (start + 1)
    else if leb 32 h
    then throws internal_error
    else ok (read_integer_non_empty m (start + 1) (width_map h))

unfoldable pub string_byte_size : Memory → ℕ → ℕ
string_byte_size m start =
    if ltb (m start) 0xbf
    then m start - 0x40
    else add64 (1 + 8) (read_integer_fixed m 8 (start + 1))

unfoldable pub binary_byte_size : Memory → ℕ → ℕ
binary_byte_size m start =
    let width = m start - 0xbf in add64 (1 + width) (read_integer_non_empty m (start + 1) width)

unfoldable pub bcd_byte_size : Memory → ℕ → ℕ
bcd_byte_size m start =
    let h = m start in
    let width = if leb h 0xcf then h - 0xc7 else h - 0xcf in
    add64 (1 + width) (read_integer_non_empty m (start + 1) width)

-- Heads below 0xf4 fall through to the exception at the end.
unfoldable pub custom_byte_size : Memory → ℕ → Result ℕ
custom_byte_size m start =
    let h = m start in
    if between 0xf4 0xf6 h
    then ok (add64 2 (read_integer_fixed m 1 (start + 1)))
    else if between 0xf7 0xf9 h
    then ok (add64 3 (read_integer_fixed m 2 (start + 1)))
    else if between 0xfa 0xfc h
    then ok (add64 5 (read_integer_fixed m 4 (start + 1)))
    else if between 0xfd 0xff h
    then ok (add64 9 (read_integer_fixed m 8 (start + 1)))
    else throws internal_error

-- `byteSizeDynamic`, with the call of `byteSize` behind the tags as an argument.
unfoldable pub byte_size_dynamic : (ℕ → Result ℕ) → Memory → ℕ → Result ℕ
byte_size_dynamic size m start = elim (type_map (m start)) [
  | array ↦ compound_byte_size m start
  | object ↦ compound_byte_size m start
  | string ↦ ok (string_byte_size m start)
  | binary ↦ ok (binary_byte_size m start)
  | bcd ↦ ok (bcd_byte_size m start)
  | tagged ↦ tags_offset m start >>= λ offset.
      if offset == 0
      then throws internal_error
      else (do inner ← size (start + offset); ok (add64 inner offset))
  | custom ↦ custom_byte_size m start
  | _ ↦ throws internal_error
]

unfoldable pub byte_size_loop : ℕ → Memory → ℕ → Result ℕ
byte_size_loop zero m start = undefined
byte_size_loop (suc fuel) m start =
    let fixed = fixed_type_lengths (m start) in
    let dynamic = byte_size_dynamic (byte_size_loop fuel m) m start in
    if fixed == 0 then dynamic else ok fixed

-- `byteSize()`
unfoldable pub byte_size : Memory → ℕ → Result ℕ
byte_size m s = byte_size_loop address_space m s

-- `valueByteSize()`
unfoldable pub value_byte_size : Memory → ℕ → Result ℕ
value_byte_size m s = do start ← value_start m s; byte_size m start

-- `stringSliceLength()`
unfoldable pub string_slice_length : Memory → ℕ → ℕ
string_slice_length m s =
    if m s == 0xbf
    then add64 (1 + 8) (read_integer_fixed m 8 (s + 1))
    else (1 + m s + 2 ^ 64 - 0x40) % 2 ^ 64
