-- ===== src/Validator/Objects.antt =====
-- src/Validator.cpp: objects.
pub mod Nesting
pub mod Capacity
pub mod EightBytes
pub mod Fuel
use velocypack.Prelude.{
  ℕ, zero, suc, ◌+◌, ◌-◌, ◌*◌, ◌/◌, ◌%◌, ◌^◌, Bool, true, false, ltb, leb, ◌==◌, ◌||◌, ◌&&◌, not,
  between, if◌then◌else◌, List, [], ◌∷◌, ◌++◌, length, get_or, Option, none, some,
}
use velocypack.Prelude.Int.{ℤ, pos, leb_ℤ}
use velocypack.Exception.{validator_invalid_length}
use velocypack.Result.{Result, ok, throws, undefined, ◌>>=◌, ◌>>◌}
use velocypack.Options.{Options}
use velocypack.Memory.{Memory}
use velocypack.Common.{read_integer_non_empty}
use velocypack.Slice.{byte_size, sub64, is_string, is_small_int, is_uint, get_small_int}
use velocypack.Validator.Lengths.{
  PartValidator, require, read_variable_length_value, validate_buffer_length,
}
use velocypack.Validator.Arrays.{Layout, layout_behind, layout_front}

-- The places for offsets: `tableBuf[16]`, or an allocation of `nrItems` entries.
abbrev pub capacity : ℕ → ℕ
capacity nr = if leb nr 16 then 16 else nr

-- `actualNrItems` is the number of offsets that have been recorded.
abbrev pub count_offsets : List ℕ → ℕ
count_offsets offsets = length offsets

-- The offset of a member is kept in the table of `capacity` entries, or in the set for more than 128
-- items. The source writes without a test; a write behind the table is undefined. Offsets are found in rising order, so the set,
-- like the table, gets each one once.
unfoldable pub record_offset : ℕ → List ℕ → ℕ → Result (List ℕ)
record_offset nr table offset =
    if leb nr 128
    then if ltb (length table) (capacity nr) then ok (table ++ offset ∷ []) else undefined
    else ok (table ++ offset ∷ [])

-- The binary search for an offset, in `rounds` rounds at most.
unfoldable pub offset_search : ℕ → List ℕ → ℕ → ℕ → ℕ → Bool
offset_search zero table offset low high = false
offset_search (suc rounds) table offset low high =
    let mid = (low + high) / 2 in
    let entry = get_or table mid 0 in
    let left = offset_search rounds table offset low mid in
    let right = offset_search rounds table offset (mid + 1) high in
    if ltb low high
    then if offset == entry then true else if ltb offset entry then left else right
    else false

-- `find` and `erase` on the set.
unfoldable pub erase_offset : ℕ → List ℕ → Option (List ℕ)
erase_offset offset [] = none
erase_offset offset (x ∷ xs) =
    let rest = erase_offset offset xs in
    if x == offset then some xs else elim rest [ none ↦ none | some ys ↦ some (x ∷ ys) ]

module _ (opts : Options) (m : Memory) where
  -- The entries of the index table from `position` on are offsets of members; `left` are still to be read.
  unfoldable pub check_index_table : ℕ → ℕ → ℕ → List ℕ → ℕ → ℕ → Result (Unit {0})
  check_index_table zero table width offsets nr position = ok tt
  check_index_table (suc left) table width offsets nr position =
      let offset = read_integer_non_empty m (table + position * width) width in
      if leb nr 128
      then (do
        require (offset_search (nr + 1) offsets offset 0 nr)
        check_index_table left table width offsets nr (position + 1))
      else elim (erase_offset offset offsets) [
        | none ↦ throws validator_invalid_length
        | some offsets' ↦ check_index_table left table width offsets' nr (position + 1)
      ]

  -- A key is a string, a UInt or a SmallInt above 0.
  unfoldable pub validate_key_type : ℕ → Result (Unit {0})
  validate_key_type key =
      if is_string m key
      then ok tt
      else if is_small_int m key
      then (do n ← get_small_int m key; require (not (leb_ℤ n (pos 0))))
      else require (is_uint m key)

  module _ (recur : PartValidator) where
    -- A string key is validated once more, in its own bounds, where UTF-8 is checked.
    unfoldable pub validate_key_again : ℕ → ℕ → ℕ → Result ℕ
    validate_key_again nesting key key_size =
        if is_string m key && opts.validate_utf8_strings
        then recur nesting key key_size true
        else ok nesting

    -- The pairs of a compact object; `left` counts `nrItems` down.
    unfoldable pub compact_pairs : ℕ → ℕ → ℕ → ℕ → Result (ℕ × ℕ)
    compact_pairs zero e nesting p = ok (nesting, p)
    compact_pairs (suc left) e nesting p = do
      require (ltb p e)
      n1 ← recur nesting p (e - p) true
      validate_key_type p
      key_size ← byte_size m p
      n2 ← validate_key_again n1 p key_size
      let value = p + key_size
      n3 ← recur n2 value (sub64 e value) true
      value_size ← byte_size m value
      compact_pairs left e n3 (value + value_size)

    unfoldable pub validate_compact_object : ℕ → ℕ → ℕ → Result ℕ
    validate_compact_object nesting ptr length = do
      validate_buffer_length 5 length true
      (size, pairs) ← read_variable_length_value false m (ptr + 1) (ptr + 1 + length)
      require (leb size length && leb 5 size)
      (nr, p) ← read_variable_length_value true m (ptr + size - 1) (ptr + size)
      require (not (nr == 0))
      (nesting', behind) ← compact_pairs nr (p + 1) nesting pairs
      require (behind == p + 1)
      ok nesting'

    -- The loop over the pairs in front of the index table, with the offsets that it records; their
    -- number is `actualNrItems`. It throws in round `nr` + 1 at the latest, so that many rounds are
    -- enough.
    unfoldable pub indexed_pairs : ℕ → ℕ → ℕ → ℕ → ℕ → ℕ → List ℕ → Result (ℕ × List ℕ)
    indexed_pairs zero ptr nr table nesting member offsets =
        if ltb member table then undefined else ok (nesting, offsets)
    indexed_pairs (suc rounds) ptr nr table nesting member offsets =
        if ltb member table
        then (do
          n1 ← recur nesting member (table - member) true
          validate_key_type member
          key_size ← byte_size m member
          n2 ← validate_key_again n1 member key_size
          let value = member + key_size
          require (ltb value table)
          n3 ← recur n2 value (table - value) true
          offsets' ← record_offset nr offsets (member - ptr)
          value_size ← byte_size m value
          require (leb (length offsets') nr)
          indexed_pairs rounds ptr nr table n3 (value + value_size) offsets')
        else ok (nesting, offsets)

    unfoldable pub validate_indexed_object : ℕ → ℕ → ℕ → Result ℕ
    validate_indexed_object nesting ptr length = do
      let head = m ptr
      let width = (if leb 0x0f head then 2 ^ (head - 0x0f) else 2 ^ (head - 0x0b))
      validate_buffer_length (1 + width + width + 1) length true
      let size = read_integer_non_empty m (ptr + 1) width
      require (leb size length)
      layout ←
          (if head == 0x0e || head == 0x12
            then layout_behind m ptr length size (ptr + size)
            else layout_front m width ptr length size)
      (nesting', offsets) ←
          indexed_pairs (layout.nr_items + 1) ptr layout.nr_items layout.index_table nesting
            layout.first_member []
      require (leb layout.nr_items (count_offsets offsets))
      check_index_table layout.nr_items layout.index_table width offsets layout.nr_items 0
      ok nesting'

    unfoldable pub validate_object : ℕ → ℕ → ℕ → Result ℕ
    validate_object nesting ptr length =
        let head = m ptr in
        if head == 0x14
        then validate_compact_object nesting ptr length
        else if between 0x0b 0x12 head
        then validate_indexed_object nesting ptr length
        else ok nesting
