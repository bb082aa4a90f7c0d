-- ===== src/Validator/Lengths.antt =====
-- src/Validator.cpp: lengths, and the type of the recursive calls.
pub mod Accepts
pub mod Agree
use velocypack.Prelude.{
  ℕ, zero, suc, ◌+◌, ◌-◌, ◌*◌, ◌%◌, ◌^◌, bit_and, Bool, true, false, ltb, leb, ◌==◌, ◌||◌, ◌&&◌,
  not, if◌then◌else◌,
}
use velocypack.Exception.{validator_invalid_length}
use velocypack.Result.{Result, ok, throws, undefined, ◌>>=◌, throw_if}
use velocypack.Memory.{Memory}
use velocypack.Common.{next}
use velocypack.Slice.{byte_size}

-- `validatePart(ptr, length, isSubPart)`, from the nesting level before to the one behind.
abbrev pub PartValidator : Type 0
PartValidator = ℕ → ℕ → ℕ → Bool → Result ℕ

-- `if (b) throw Exception(Exception::ValidatorInvalidLength, …)`
abbrev pub require : Bool → Result (Unit {0})
require b = throw_if (not b) validator_invalid_length

-- The loop of `ReadVariableLengthValue`, which returns the value and the pointer behind it. It throws
-- in the ninth round at the latest.
unfoldable pub read_length_loop : ℕ → Bool → Memory → ℕ → ℕ → ℕ → ℕ → Result (ℕ × ℕ)
read_length_loop zero reverse m p end value shifter = undefined
read_length_loop (suc rounds) reverse m p end value shifter =
    let c = m p in
    let value' = (value + bit_and c 0x7f * 2 ^ shifter) % 2 ^ 64 in
    let p' = next reverse p in
    let more = read_length_loop rounds reverse m p' end value' (shifter + 7) in
    if bit_and c 0x80 == 0
    then ok (value', p')
    else if p' == end || ltb (7 * 8) (shifter + 7)
    then throws validator_invalid_length
    else more

unfoldable pub read_variable_length_value : Bool → Memory → ℕ → ℕ → Result (ℕ × ℕ)
read_variable_length_value reverse m p end = read_length_loop 9 reverse m p end 0 0

-- `validateBufferLength(expected, actual, isSubPart)`
unfoldable pub validate_buffer_length : ℕ → ℕ → Bool → Result (Unit {0})
validate_buffer_length expected actual is_sub_part =
    throw_if (ltb actual expected || (not (expected == actual) && not is_sub_part))
      validator_invalid_length

-- `validateSliceLength(ptr, length, isSubPart)`
unfoldable pub validate_slice_length : Memory → ℕ → ℕ → Bool → Result (Unit {0})
validate_slice_length m ptr length is_sub_part = do
  actual ← byte_size m ptr
  validate_buffer_length actual length is_sub_part

-- `while (p < e && *p == '\x00') { ++p; }`, with `left` bytes between p and e.
unfoldable pub skip_padding : ℕ → Memory → ℕ → ℕ
skip_padding zero m p = p
skip_padding (suc left) m p = let rest = skip_padding left m (p + 1) in if m p == 0 then rest else p
