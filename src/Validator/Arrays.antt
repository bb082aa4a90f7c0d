-- ===== src/Validator/Arrays.antt =====
-- src/Validator.cpp: arrays.
pub mod Nesting
pub mod IndexTable
pub mod Fuel
use velocypack.Prelude.{
  ℕ, zero, suc, ◌+◌, ◌-◌, ◌*◌, ◌/◌, ◌%◌, ◌^◌, Bool, true, false, ltb, leb, ◌==◌, ◌||◌, ◌&&◌, not,
  between, if◌then◌else◌,
}
use velocypack.Result.{Result, ok, throws, undefined, ◌>>=◌, ◌>>◌}
use velocypack.Memory.{Memory}
use velocypack.Common.{read_integer_non_empty}
use velocypack.Slice.{byte_size, sub64, mul64}
use velocypack.Validator.Lengths.{
  PartValidator, require, read_variable_length_value, validate_buffer_length, skip_padding,
}

-- Where the header of an indexed Array or Object ends, and where its index table begins.
pub record Layout : Type 0 where
  pub nr_items : ℕ
  pub index_table : ℕ
  pub first_member : ℕ

module _ (m : Memory) where
  -- The header with the number of items behind the index table. The pointers are 64-bit addresses,
  -- and the product wraps as a ValueLength.
  unfoldable pub layout_behind : ℕ → ℕ → ℕ → ℕ → Result Layout
  layout_behind ptr length byte_size first_member = do
    let nr = read_integer_non_empty m (sub64 (ptr + byte_size) 8) 8
    require (not (nr == 0))
    let table = sub64 (sub64 (ptr + byte_size) 8) (mul64 nr 8)
    require (leb (ptr + 8) table && leb table (ptr + length - 8 - 8))
    ok (record { nr_items = nr; index_table = table; first_member = first_member })

  -- The header with the number of items in front, and padding up to 8 bytes, or none.
  unfoldable pub layout_front : ℕ → ℕ → ℕ → ℕ → Result Layout
  layout_front width ptr length byte_size = do
    let nr = read_integer_non_empty m (ptr + 1 + width) width
    require (not (nr == 0))
    let p0 = ptr + 1 + width + width
    let full = p0 + (8 - width - width)
    let e = if ltb (ptr + byte_size) full then ptr + byte_size else full
    let p = skip_padding (e - p0) m p0
    require (p == p0 || p == full)
    let table = sub64 (ptr + byte_size) (mul64 nr width)
    require (leb (ptr + width + width) table && leb p table && leb table (ptr + length - width))
    ok (record { nr_items = nr; index_table = table; first_member = p })

  module _ (recur : PartValidator) where
    -- The members of a compact array; `left` counts `nrItems` down.
    unfoldable pub compact_items : ℕ → ℕ → ℕ → ℕ → Result ℕ
    compact_items zero e nesting p = ok nesting
    compact_items (suc left) e nesting p = do
      require (ltb p e)
      nesting' ← recur nesting p (e - p) true
      size ← byte_size m p
      compact_items left e nesting' (p + size)

    unfoldable pub validate_compact_array : ℕ → ℕ → ℕ → Result ℕ
    validate_compact_array nesting ptr length = do
      validate_buffer_length 4 length true
      (size, items) ← read_variable_length_value false m (ptr + 1) (ptr + 1 + length)
      require (leb size length && leb 4 size)
      (nr, p) ← read_variable_length_value true m (ptr + size - 1) (ptr + size)
      require (not (nr == 0))
      compact_items nr (p + 1) nesting items

    -- The members behind the first, which are to have its size.
    unfoldable pub equal_items : ℕ → ℕ → ℕ → ℕ → ℕ → Result ℕ
    equal_items zero item_size e nesting p = ok nesting
    equal_items (suc left) item_size e nesting p = do
      require (ltb p e)
      nesting' ← recur nesting p (e - p) true
      size ← byte_size m p
      require (size == item_size)
      equal_items left item_size e nesting' (p + item_size)

    unfoldable pub validate_unindexed_array : ℕ → ℕ → ℕ → Result ℕ
    validate_unindexed_array nesting ptr length = do
      let width = 2 ^ (m ptr - 0x02)
      validate_buffer_length (1 + width + 1) length true
      let size = read_integer_non_empty m (ptr + 1) width
      require (leb size length)
      let p0 = ptr + 1 + width
      let full = p0 + (8 - width)
      let p = skip_padding ((if ltb (ptr + size) full then ptr + size else full) - p0) m p0
      require (ltb p (ptr + size))
      require (p == p0 || p == full)
      nesting' ← recur nesting p (length - (p - ptr)) true
      item_size ← byte_size m p
      require (not (item_size == 0))
      let nr = (size - (p - ptr)) / item_size
      require (not (nr == 0))
      equal_items (nr - 1) item_size (ptr + length) nesting' (p + item_size)

    -- The loop over the members in front of the index table, with their count. Each member takes a
    -- byte at least, so as many rounds as bytes are enough.
    unfoldable pub indexed_items : ℕ → ℕ → ℕ → ℕ → ℕ → ℕ → ℕ → Result (ℕ × ℕ)
    indexed_items zero ptr width table nesting member actual =
        if ltb member table then undefined else ok (nesting, actual)
    indexed_items (suc rounds) ptr width table nesting member actual =
        if ltb member table
        then (do
          nesting' ← recur nesting member (table - member) true
          let offset = read_integer_non_empty m (table + actual * width) width
          require (offset == member - ptr)
          size ← byte_size m member
          indexed_items rounds ptr width table nesting' (member + size) (actual + 1))
        else ok (nesting, actual)

    unfoldable pub validate_indexed_array : ℕ → ℕ → ℕ → Result ℕ
    validate_indexed_array nesting ptr length = do
      let width = 2 ^ (m ptr - 0x06)
      validate_buffer_length (1 + width + width + 1) length true
      let size = read_integer_non_empty m (ptr + 1) width
      require (leb size length)
      layout ←
          (if m ptr == 0x09
            then layout_behind ptr length size (ptr + 1 + width)
            else layout_front width ptr length size)
      (nesting', actual) ←
          indexed_items (layout.index_table - layout.first_member) ptr width layout.index_table
            nesting layout.first_member 0
      require (actual == layout.nr_items)
      ok nesting'

    unfoldable pub validate_array : ℕ → ℕ → ℕ → Result ℕ
    validate_array nesting ptr length =
        let head = m ptr in
        if head == 0x13
        then validate_compact_array nesting ptr length
        else if between 0x02 0x05 head
        then validate_unindexed_array nesting ptr length
        else if between 0x06 0x09 head
        then validate_indexed_array nesting ptr length
        else ok nesting
