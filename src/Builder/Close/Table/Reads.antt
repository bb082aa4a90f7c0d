-- ===== src/Builder/Close/Table/Reads.antt =====
-- The Slice functions on an Array or Object with an index table.
use velocypack.Prelude.{
  ℕ, suc, ◌+◌, ◌-◌, ◌^◌, ◌≤◌, ◌<◌, ◌≡◌, refl, arith, Bool, true, false, not, leb, ◌==◌, ◌&&◌, ◌||◌,
  Bool-cases, inl, inr,
}
use velocypack.ValueType.{eq, eq→≡, array, object}
use velocypack.SliceStaticData.{type_map, fixed_type_lengths, width_map}
use velocypack.Memory.{Memory}
use velocypack.Result.{ok}
use velocypack.Common.{read_integer_non_empty}
use velocypack.Slice.{
  byte_size, byte_size_loop, byte_size_dynamic, compound_byte_size, address_space, length,
  regular_length, stored_length, nth_by_table, get_nth_offset, get_nth_offset_regular,
  index_entry_size, is_array, is_object, is_type, type_of,
}

-- The heads of Arrays and Objects with an index table, and the width of their lengths.
unfoldable pub is_table_head : ℕ → ℕ → Bool
is_table_head h os =
    (width_map h == os)
    && (fixed_type_lengths h == 0)
    && (eq (type_map h) array || eq (type_map h) object)
    && not (h == 0x01 || h == 0x0a)
    && not (h == 0x13 || h == 0x14)
    && not (leb h 0x05)
    && not (leb 32 h)

module _ (m : Memory) (s h os total n : ℕ) (entry : ℕ → ℕ) (head : m s ≡ h)
    (is_table : is_table_head h os ≡ true) (size : read_integer_non_empty m (s + 1) os ≡ total)
    (count : stored_length m s os total ≡ n)
    (entries : (i : ℕ) → i < n → nth_by_table m s os total n i ≡ entry i) where
  facts :
      (width_map h ≡ os)
      × ((fixed_type_lengths h == 0) ≡ true)
      × ((eq (type_map h) array || eq (type_map h) object) ≡ true)
      × ((h == 0x01 || h == 0x0a) ≡ false)
      × ((h == 0x13 || h == 0x14) ≡ false)
      × (leb h 0x05 ≡ false)
      × (leb 32 h ≡ false)
  unfolding is_table_head
  facts = ground (arith, is_table)

  compound_size : compound_byte_size m s ≡ ok total
  unfolding compound_byte_size
  compound_size =
      let (width, dynamic, compound, filled, regular, table, small) = facts in
      rw (head, regular, small, width, size) refl

  size_loop : (fuel : ℕ) → byte_size_loop (suc fuel) m s ≡ ok total
  unfolding byte_size_loop byte_size_dynamic type_map
  size_loop fuel =
      let (width, dynamic, compound, filled, regular, table, small) = facts in
      elim (Bool-cases (eq (type_map h) array)) [
        | inl is_arr ↦ rw (head, dynamic, eq→≡ (type_map h) array is_arr) compound_size
        | inr other ↦
            let is_obj : eq (type_map h) object ≡ true = rw other at compound in
            rw (head, dynamic, eq→≡ (type_map h) object is_obj) compound_size
      ]

  pub table-byte_size : byte_size m s ≡ ok total
  unfolding byte_size address_space
  table-byte_size = size_loop (2 ^ 64 - 1)

  pub table-length : length m s ≡ ok n
  unfolding length regular_length is_array is_object is_type type_of index_entry_size
  table-length =
      let (width, dynamic, compound, filled, regular, table, small) = facts in
      rw (head, compound, filled, regular, table, width, size, count) refl

  pub table-get_nth_offset : (i : ℕ) → i < n → 2 ≤ n → get_nth_offset m s i ≡ ok (entry i)
  unfolding get_nth_offset get_nth_offset_regular index_entry_size
  table-get_nth_offset i lt several =
      let (width, dynamic, compound, filled, regular, table, small) = facts in
      let inside : leb n i ≡ false = ground arith in
      let more : (n == 1) ≡ false = ground arith in
      rw (head, regular, filled, table, width, size, count, inside, more, entries i lt) refl
