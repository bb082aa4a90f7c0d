-- ===== src/Validator/Simple.antt =====
-- src/Validator.cpp: `validatePart` on strings, custom values, externals and BCD numbers.
use velocypack.Prelude.{ℕ, ◌+◌, ◌-◌, Bool, true, leb, ◌==◌, ◌&&◌, not, between, if◌then◌else◌}
use velocypack.Exception.{
  invalid_utf8_sequence, builder_bcd_disallowed, builder_externals_disallowed,
  builder_custom_disallowed, not_implemented,
}
use velocypack.Result.{Result, ok, throws, ◌>>=◌, ◌>>◌, throw_if}
use velocypack.Options.{Options}
use velocypack.Memory.{Memory}
use velocypack.Common.{read_integer_non_empty, read_integer_fixed}
use velocypack.Slice.{add64}
use velocypack.Utf8Helper.{is_valid_utf8}
use velocypack.Validator.Lengths.{require, validate_buffer_length, validate_slice_length}

module _ (opts : Options) (m : Memory) where
  -- The check that both kinds of strings share.
  unfoldable pub validate_characters : ℕ → ℕ → Result (Unit {0})
  validate_characters p len =
      throw_if (opts.validate_utf8_strings && not (is_valid_utf8 m p len)) invalid_utf8_sequence

  unfoldable pub validate_string : ℕ → ℕ → Result (Unit {0})
  validate_string ptr length =
      let len = read_integer_fixed m 8 (ptr + 1) in
      let short = m ptr - 0x40 in
      if m ptr == 0xbf
      then (do
        validate_buffer_length (1 + 8) length true
        validate_buffer_length (add64 len (1 + 8)) length true
        validate_characters (ptr + 1 + 8) len)
      else (do validate_buffer_length (short + 1) length true; validate_characters (ptr + 1) short)

  -- A custom value that stores its length in `width` bytes.
  unfoldable pub custom_size : ℕ → ℕ → ℕ → Result ℕ
  custom_size width ptr length = do
    validate_buffer_length (1 + width) length true
    let size = add64 (1 + width) (read_integer_non_empty m (ptr + 1) width)
    require (not (size == 1 + width))
    ok size

  unfoldable pub custom_byte_length : ℕ → ℕ → Result ℕ
  custom_byte_length ptr length =
      let head = m ptr in
      if head == 0xf0
      then ok (1 + 1)
      else if head == 0xf1
      then ok (1 + 2)
      else if head == 0xf2
      then ok (1 + 4)
      else if head == 0xf3
      then ok (1 + 8)
      else if between 0xf4 0xf6 head
      then custom_size 1 ptr length
      else if between 0xf7 0xf9 head
      then custom_size 2 ptr length
      else if between 0xfa 0xfc head
      then custom_size 4 ptr length
      else if leb 0xfd head
      then custom_size 8 ptr length
      else ok 0

  unfoldable pub validate_custom : ℕ → ℕ → Bool → Result (Unit {0})
  validate_custom ptr length is_sub_part = do
    throw_if opts.disallow_custom builder_custom_disallowed
    size ← custom_byte_length ptr length
    validate_slice_length m ptr size is_sub_part

  -- `sizeof(void*)` is 8.
  unfoldable pub validate_external : ℕ → Result (Unit {0})
  validate_external length = do
    throw_if opts.disallow_externals builder_externals_disallowed
    validate_buffer_length (1 + 8) length true

  unfoldable pub validate_bcd : Result (Unit {0})
  validate_bcd = do throw_if opts.disallow_bcd builder_bcd_disallowed; throws not_implemented
