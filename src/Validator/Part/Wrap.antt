-- ===== src/Validator/Part/Wrap.antt =====
-- Long strings whose stored length wraps.
use velocypack.Prelude.{
  ℕ, suc, ◌+◌, ◌-◌, ◌^◌, ◌≤◌, ◌<◌, ◌≡◌, refl, ap, true, false, arith, ltb, ◌==◌,
}
use velocypack.ValueType.{string}
use velocypack.Result.{ok}
use velocypack.Options.{Options}
use velocypack.Memory.{Memory}
use velocypack.SliceStaticData.{type_map, fixed_type_lengths}
use velocypack.Common.{read_integer_fixed}
use velocypack.Slice.{
  add64, address_space, byte_size, byte_size_loop, byte_size_dynamic, string_byte_size, type_of,
}
use velocypack.Validator.Lengths.{validate_slice_length}
use velocypack.Validator.Lengths.Accepts.{validate_buffer_length-pass}
use velocypack.Validator.Simple.{validate_string, validate_characters}
use velocypack.Validator.Part.{validate_by_type, validate_one, validate_part}

long_fixed : (m : Memory) (s : ℕ) → m s ≡ 0xbf → fixed_type_lengths (m s) ≡ 0
unfolding fixed_type_lengths
long_fixed m s h = ap fixed_type_lengths h

long_type : (m : Memory) (s : ℕ) → m s ≡ 0xbf → type_map (m s) ≡ string
unfolding type_map
long_type m s h = ap type_map h

long_size :
    (fuel : ℕ) (m : Memory) (s : ℕ)
    → m s ≡ 0xbf
    → byte_size_loop (suc fuel) m s ≡ ok (add64 (1 + 8) (read_integer_fixed m 8 (s + 1)))
unfolding byte_size_loop byte_size_dynamic string_byte_size type_map read_integer_fixed
long_size fuel m s h =
    let long : ltb (m s) 0xbf ≡ false = ground arith in
    rw (long_fixed m s h, long_type m s h, long) refl

long_byte_size :
    (m : Memory) (s : ℕ)
    → m s ≡ 0xbf
    → byte_size m s ≡ ok (add64 (1 + 8) (read_integer_fixed m 8 (s + 1)))
unfolding byte_size address_space
long_byte_size m s h = long_size (2 ^ 64 - 1) m s h

-- A long string that stores a length of 2 ^ 64 - 9 or more is accepted as a sub part of any 9 bytes or
-- more, where strings are not checked for UTF-8, and its byte size is at most 8.
pub validate_part-wrapped_string :
    (fuel : ℕ) (opts : Options) (m : Memory) (n ptr length : ℕ)
    → opts.validate_utf8_strings ≡ false
    → m ptr ≡ 0xbf
    → 2 ^ 64 - 9 ≤ read_integer_fixed m 8 (ptr + 1)
    → read_integer_fixed m 8 (ptr + 1) < 2 ^ 64
    → 9 ≤ length
    → (validate_part (suc fuel) opts m n ptr length true ≡ ok n)
      × (size : ℕ) × (byte_size m ptr ≡ ok size)
      × (size ≤ 8)
unfolding validate_part validate_one validate_by_type validate_string validate_characters
    validate_slice_length type_of
validate_part-wrapped_string fuel opts m n ptr length no_check head low high long =
    let len = read_integer_fixed m 8 (ptr + 1) in
    let small : add64 (1 + 8) len ≤ 8 = omega arith in
    let swap : add64 len (1 + 8) ≤ 8 = omega arith in
    let some : (length == 0) ≡ false = ground arith in
    let is_long : (m ptr == 0xbf) ≡ true = ground arith in
    (
      rw
          (
            some,
            long_type m ptr head,
            is_long,
            validate_buffer_length-pass (1 + 8) length long,
            validate_buffer_length-pass (add64 len (1 + 8)) length (omega arith),
            no_check,
            long_byte_size m ptr head,
            validate_buffer_length-pass (add64 (1 + 8) len) length (omega arith),
          )
          refl,
      add64 (1 + 8) len,
      long_byte_size m ptr head,
      small,
    )
