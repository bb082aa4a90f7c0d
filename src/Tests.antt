-- ===== src/Tests.antt =====
-- Concrete runs, and the theorems at concrete inputs.
mod Builder
mod Close
use velocypack.Prelude.{
  ℕ, suc, ◌+◌, ◌-◌, ◌*◌, ◌^◌, ◌≤◌, ◌<◌, ◌≡◌, ◌≢◌, ◌⊎◌, ◌↔◌, refl, arith, List, [], ◌∷◌, true, false,
  ◌==◌, not, ◌&&◌, length,
}
use velocypack.Prelude.Int.{negsuc}
use velocypack.ValueType.{ValueType, eq, bcd, tagged, custom, external}
use velocypack.Result.{ok, undefined}
use velocypack.Options.{defaults}
use velocypack.Memory.{Memory, from_list, from_list-IsByteMemory, bytes_at, IsByteMemory}
use velocypack.Common.{
  read_int_fixed_helper, read_integer_fixed, read_integer_non_empty, memcpy_in, read_u64, store_u64,
  to_u64, to_i64, get_variable_value_length, read_variable_value_length,
  store_variable_value_length,
}
use velocypack.Common.Integers.LittleEndian.{read_integer_non_empty-memcpy_in, read_u64-store_u64}
use velocypack.Common.Integers.Signed.{to_i64-to_u64}
use velocypack.Common.VarLength.Width.{get_variable_value_length_lem}
use velocypack.Common.VarLength.RoundTrip.{read_variable-store_variable}
use velocypack.SliceStaticData.{type_map, fixed_type_lengths, width_map, first_sub_map}
use velocypack.SliceStaticData.Ranges.{
  type_by_range, length_by_range, width_by_range, first_by_range, type_map-type_by_range,
  fixed_type_lengths-length_by_range, width_map-width_by_range,
}
use velocypack.Utf8Helper.{is_valid_utf8}
use velocypack.Utf8Helper.Spec.{IsUtf8}
use velocypack.Utf8Helper.Decides.{is_valid_utf8_iff}
use velocypack.Slice.{
  byte_size, byte_size_loop, byte_size_dynamic, compound_byte_size, address_space, type_of,
}
use velocypack.Validator.Lengths.{validate_buffer_length, validate_slice_length, skip_padding}
use velocypack.Validator.Arrays.{
  Layout, layout_front, indexed_items, validate_indexed_array, validate_array,
}
use velocypack.Validator.Arrays.IndexTable.{layout_of}
use velocypack.Validator.Objects.{record_offset}
use velocypack.Validator.Part.{nested, validate_by_type, validate_one, validate_part}
use velocypack.Validator.Part.Bounds.{validate_part_size, validate_part_type}
use velocypack.Validator.Part.Nesting.{validate_part_nesting}
use velocypack.Validator.Part.Fuel.{part_within, validate_part_fuel}
use velocypack.Slice.{
  get_int, get_small_int, get_int_unchecked, get_small_int_unchecked, get_tags, get_tags_loop,
  has_tag, is_tagged, is_type,
}
use velocypack.Slice.Numbers.Unchecked.{int_value, unchecked-get_int, unchecked_uint}
use velocypack.Slice.Tags.Search.{contains, has_tag-get_tags}
use velocypack.Validator.Objects.{validate_indexed_object}
use velocypack.Validator.Objects.EightBytes.{validate_indexed_object-eight_bytes}
use velocypack.Slice.{at}
use velocypack.Validator.Part.Reader.{at-validate_indexed_array}
use velocypack.Validator.Part.Wrap.{validate_part-wrapped_string}
use velocypack.Builder.Output.{Output}
use velocypack.Builder.Integers.{add_uint}
use velocypack.Builder.Integers.RoundTrip.{get_uint-add_uint}
use velocypack.Builder.Signed.{add_int}
use velocypack.Builder.Signed.RoundTrip.{get_int-add_int}
use velocypack.Slice.{get_uint}
use velocypack.Validator.Part.Entries.{validate_indexed_array-entries}

-- The Euro sign.
abbrev euro : List ℕ
euro = 0xe2 ∷ 0x82 ∷ 0xac ∷ []

-- [1, 2, 3] with an index table, from VelocyPack.md.
abbrev one_two_three : Memory
one_two_three = from_list (0x06 ∷ 0x09 ∷ 0x03 ∷ 0x31 ∷ 0x32 ∷ 0x33 ∷ 0x03 ∷ 0x04 ∷ 0x05 ∷ [])

one_two_three-IsByteMemory : IsByteMemory one_two_three
one_two_three-IsByteMemory =
    from_list-IsByteMemory (0x06 ∷ 0x09 ∷ 0x03 ∷ 0x31 ∷ 0x32 ∷ 0x33 ∷ 0x03 ∷ 0x04 ∷ 0x05 ∷ []) (
      omega arith,
      (
        omega arith,
        (
          omega arith,
          (
            omega arith,
            (omega arith, (omega arith, (omega arith, (omega arith, (omega arith, tt))))),
          ),
        ),
      ),
    )

is_valid_utf8_iff_example :
    (is_valid_utf8 (from_list euro) 0 3 ≡ true) ↔ IsUtf8 (bytes_at (from_list euro) 0 3)
is_valid_utf8_iff_example =
    is_valid_utf8_iff (from_list euro) 0 3
      (from_list-IsByteMemory euro (omega arith, (omega arith, (omega arith, tt))))

one_two_three_accepted : validate_part 3 defaults one_two_three 0 0 9 false ≡ ok 0
unfolding validate_part validate_one type_of type_map validate_by_type nested validate_array
    validate_indexed_array validate_buffer_length read_integer_non_empty layout_front skip_padding
    indexed_items validate_slice_length byte_size byte_size_loop address_space fixed_type_lengths
    memcpy_in read_int_fixed_helper read_integer_fixed byte_size_dynamic compound_byte_size
    width_map
one_two_three_accepted = refl

validate_part_size_example :
    (size : ℕ) × (byte_size one_two_three 0 ≡ ok size) × (size ≤ 9) × ((false ≡ true) ⊎ (size ≡ 9))
validate_part_size_example =
    validate_part_size 3 defaults one_two_three 0 0 9 false one_two_three_accepted

validate_part_type_example :
    (type_of one_two_three 0 ≢ bcd)
    × ((eq (type_of one_two_three 0) ValueType.none && not (one_two_three 0 == 0x00)) ≡ false)
    × ((defaults.disallow_tags ≡ false) ⊎ (type_of one_two_three 0 ≢ tagged))
    × ((defaults.disallow_custom ≡ false) ⊎ (type_of one_two_three 0 ≢ custom))
    × ((defaults.disallow_externals ≡ false) ⊎ (type_of one_two_three 0 ≢ external))
validate_part_type_example =
    validate_part_type 3 defaults one_two_three 0 0 9 false one_two_three_accepted

validate_part_nesting_example : ◌≡◌ {A = ℕ} 0 0
validate_part_nesting_example =
    validate_part_nesting 3 defaults one_two_three 0 0 9 false 0 (omega arith)
      one_two_three_accepted

members_accepted :
    validate_indexed_array one_two_three (validate_part 2 defaults one_two_three) 1 0 9 ≡ ok 1
unfolding validate_part validate_one type_of type_map validate_by_type nested validate_array
    validate_indexed_array validate_buffer_length read_integer_non_empty layout_front skip_padding
    indexed_items validate_slice_length byte_size byte_size_loop address_space fixed_type_lengths
    memcpy_in read_int_fixed_helper read_integer_fixed byte_size_dynamic compound_byte_size
    width_map
members_accepted = refl

abbrev header : Layout
header = record { nr_items = 3; index_table = 6; first_member = 3 }

header_of : layout_of one_two_three 0 9 ≡ ok header
unfolding layout_of layout_front read_integer_non_empty skip_padding read_integer_fixed
header_of = refl

validate_indexed_array-entries_example :
    (b : ℕ) × (size : ℕ) × (read_integer_non_empty one_two_three
        (6 + 2 * 2 ^ (0x06 - 0x06))
        (2 ^ (0x06 - 0x06))
      ≡ b - 0)
    × (3 ≤ b)
    × (byte_size one_two_three b ≡ ok size)
    × (b + size ≤ 6)
validate_indexed_array-entries_example =
    validate_indexed_array-entries 2 defaults one_two_three 1 0 9 1 2 header members_accepted
      header_of (omega arith)

abbrev sixteen : List ℕ
sixteen = 3 ∷ 5 ∷ 7 ∷ 9 ∷ 11 ∷ 13 ∷ 15 ∷ 17 ∷ 19 ∷ 21 ∷ 23 ∷ 25 ∷ 27 ∷ 29 ∷ 31 ∷ 33 ∷ []

read_variable-store_variable_example :
    read_variable_value_length true (store_variable_value_length true (from_list []) 12 300) 12
    ≡ ok 300
read_variable-store_variable_example =
    read_variable-store_variable true (from_list []) 12 300 (omega arith) (omega arith)

get_variable_value_length_example :
    (extra : ℕ) × (get_variable_value_length 300 ≡ suc extra)
    × (extra ≤ 9)
    × (300 < 128 ^ suc extra)
    × ((extra ≡ 0) ⊎ (128 ^ extra ≤ 300))
get_variable_value_length_example = get_variable_value_length_lem 300 (omega arith)

read_integer_non_empty-memcpy_in_example :
    read_integer_non_empty (from_list euro) 0 3 ≡ memcpy_in (from_list euro) 0 3
read_integer_non_empty-memcpy_in_example =
    read_integer_non_empty-memcpy_in (from_list euro) 0 3
      (from_list-IsByteMemory euro (omega arith, (omega arith, (omega arith, tt)))) (omega arith)
      (omega arith)

read_u64-store_u64_example : read_u64 (store_u64 (from_list euro) 1 (2 ^ 63)) 1 ≡ 2 ^ 63
read_u64-store_u64_example = read_u64-store_u64 (from_list euro) 1 (2 ^ 63) (omega arith)

to_i64-to_u64_example : to_i64 (to_u64 (negsuc 4)) ≡ negsuc 4
to_i64-to_u64_example = to_i64-to_u64 (negsuc 4) (omega arith)

type_map-type_by_range_example : type_map 0xc3 ≡ type_by_range 0xc3
type_map-type_by_range_example = type_map-type_by_range 0xc3 (omega arith)

fixed_type_lengths-length_by_range_example : fixed_type_lengths 0x2a ≡ length_by_range 0x2a
fixed_type_lengths-length_by_range_example = fixed_type_lengths-length_by_range 0x2a (omega arith)

width_map-width_by_range_example :
    (width_map 0x08 ≡ width_by_range 0x08) × (first_sub_map 0x08 ≡ first_by_range 0x08)
width_map-width_by_range_example = width_map-width_by_range 0x08 (omega arith)

validate_part_fuel_example :
    validate_part 20 defaults one_two_three 0 0 9 false
    ≡ part_within (λ n ptr len sub. ok 7) (9 + 1) defaults one_two_three 0 0 9 false
validate_part_fuel_example =
    validate_part_fuel (λ n ptr len sub. ok 7) 20 defaults one_two_three 0 0 9 false (omega arith)

-- The Int -2 in one byte, and the UInt 200.
unchecked-get_int_example :
    (get_int (from_list (0x20 ∷ 0xfe ∷ [])) 0 ≡ ok (int_value (from_list (0x20 ∷ 0xfe ∷ [])) 0))
    × (get_small_int (from_list (0x20 ∷ 0xfe ∷ [])) 0
        ≡ ok (int_value (from_list (0x20 ∷ 0xfe ∷ [])) 0))
    × (get_int_unchecked 2 (from_list (0x20 ∷ 0xfe ∷ [])) 0
        ≡ ok (int_value (from_list (0x20 ∷ 0xfe ∷ [])) 0))
    × (get_small_int_unchecked 2 (from_list (0x20 ∷ 0xfe ∷ [])) 0
        ≡ ok (int_value (from_list (0x20 ∷ 0xfe ∷ [])) 0))
unchecked-get_int_example =
    unchecked-get_int 0 (from_list (0x20 ∷ 0xfe ∷ [])) 0
      (from_list-IsByteMemory (0x20 ∷ 0xfe ∷ []) (omega arith, (omega arith, tt))) refl

unchecked_uint_example :
    (get_int_unchecked 100 (from_list (0x28 ∷ 0xc8 ∷ [])) 0 ≡ undefined)
    × (get_small_int_unchecked 100 (from_list (0x28 ∷ 0xc8 ∷ [])) 0 ≡ undefined)
unchecked_uint_example = unchecked_uint 100 (from_list (0x28 ∷ 0xc8 ∷ [])) 0 refl

-- The null value with the tags 5 and 7.
abbrev two_tags : Memory
two_tags = from_list (0xee ∷ 0x05 ∷ 0xee ∷ 0x07 ∷ 0x18 ∷ [])

two_tags_read : get_tags two_tags 0 ≡ ok (5 ∷ 7 ∷ [])
unfolding get_tags get_tags_loop address_space is_tagged is_type type_of type_map read_integer_fixed
two_tags_read = refl

has_tag-get_tags_example : has_tag two_tags 0 7 ≡ ok (contains 7 (5 ∷ 7 ∷ []))
has_tag-get_tags_example = has_tag-get_tags two_tags 0 7 (5 ∷ 7 ∷ []) two_tags_read

-- {"a": 1} with 8-byte offsets, as VelocyPack.md lays it out.
abbrev wide_object : Memory
wide_object = from_list (
    0x0e ∷ 28 ∷ 0 ∷ 0 ∷ 0 ∷ 0 ∷ 0 ∷ 0 ∷ 0 ∷ 0x41 ∷ 0x61 ∷ 0x31 ∷ 9 ∷ 0 ∷ 0 ∷ 0 ∷ 0 ∷ 0 ∷ 0 ∷ 0 ∷ 1
    ∷ 0 ∷ 0 ∷ 0 ∷ 0 ∷ 0 ∷ 0 ∷ 0 ∷ [])

validate_indexed_object-eight_bytes_example :
    validate_indexed_object defaults wide_object (validate_part 28 defaults wide_object) 1 0 28
    ≢ ok 1
validate_indexed_object-eight_bytes_example =
    validate_indexed_object-eight_bytes defaults wide_object (validate_part 28 defaults wide_object)
      1 0 28 1 refl (omega arith)

-- A builder that has written the Euro sign's bytes.
abbrev started : Output
started = record { bytes = from_list euro; pos = 3 }

get_uint-add_uint_example : get_uint (add_uint 70000 started).bytes 3 ≡ ok 70000
get_uint-add_uint_example =
    get_uint-add_uint 70000 started
      (from_list-IsByteMemory euro (omega arith, (omega arith, (omega arith, tt)))) (omega arith)

get_int-add_int_example : get_int (add_int (negsuc 128) started).bytes 3 ≡ ok (negsuc 128)
get_int-add_int_example =
    get_int-add_int (negsuc 128) started
      (from_list-IsByteMemory euro (omega arith, (omega arith, (omega arith, tt))))
      (omega arith, omega arith)

at-validate_indexed_array_example :
    (b : ℕ) × (size : ℕ) × (at one_two_three 0 2 ≡ ok b)
    × (3 ≤ b)
    × (byte_size one_two_three b ≡ ok size)
    × (b + size ≤ 6)
at-validate_indexed_array_example =
    at-validate_indexed_array 2 defaults one_two_three 1 0 9 1 2 header one_two_three-IsByteMemory
      refl (omega arith) members_accepted header_of (omega arith) (omega arith)

-- The long string of 2 ^ 64 - 1 bytes.
abbrev endless : Memory
endless = from_list (0xbf ∷ 0xff ∷ 0xff ∷ 0xff ∷ 0xff ∷ 0xff ∷ 0xff ∷ 0xff ∷ 0xff ∷ [])

endless_length : read_integer_fixed endless 8 1 ≡ 2 ^ 64 - 1
unfolding read_integer_fixed memcpy_in
endless_length = refl

validate_part-wrapped_string_example :
    (validate_part 10 defaults endless 0 0 9 true ≡ ok 0)
    × (size : ℕ) × (byte_size endless 0 ≡ ok size)
    × (size ≤ 8)
validate_part-wrapped_string_example =
    validate_part-wrapped_string 9 defaults endless 0 0 9 refl refl (omega (arith, endless_length))
      (omega (arith, endless_length)) (omega arith)
