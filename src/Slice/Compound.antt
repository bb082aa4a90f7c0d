-- ===== src/Slice/Compound.antt =====
-- include/velocypack/SliceBase.h and SliceBase.tpp: the members of arrays and objects.
use velocypack.Prelude.{
  ℕ, zero, suc, ◌+◌, ◌-◌, ◌*◌, ◌/◌, ◌%◌, ◌^◌, ◌==◌, ltb, leb, if◌then◌else◌, true, false, ◌||◌,
  ◌&&◌, not,
}
use velocypack.Exception.{index_out_of_bounds, internal_error, invalid_value_type}
use velocypack.Result.{Result, ok, throws, ◌>>=◌}
use velocypack.SliceStaticData.{width_map, first_sub_map}
use velocypack.Memory.{Memory}
use velocypack.Common.{
  read_integer_non_empty, read_variable_value_length, get_variable_value_length,
}
use velocypack.Slice.Head.{is_array, is_object}
use velocypack.Slice.Size.{byte_size, add64}

-- A difference and a product in ValueLength.
abbrev pub sub64 : ℕ → ℕ → ℕ
sub64 a b = (a + 2 ^ 64 - b) % 2 ^ 64

abbrev pub mul64 : ℕ → ℕ → ℕ
mul64 a b = a * b % 2 ^ 64

unfoldable pub index_entry_size : ℕ → ℕ
index_entry_size head = width_map head

-- `findDataOffset(head)`: the first member, behind the padding if there is some.
unfoldable pub find_data_offset : Memory → ℕ → ℕ → Result ℕ
find_data_offset m s head =
    let fsm = first_sub_map head in
    if fsm == 0
    then (do
      end ← read_variable_value_length false m (s + 1)
      ok (1 + get_variable_value_length end))
    else if leb fsm 2 && not (m (s + 2) == 0)
    then ok 2
    else if leb fsm 3 && not (m (s + 3) == 0)
    then ok 3
    else if leb fsm 5 && not (m (s + 5) == 0)
    then ok 5
    else ok 9

-- The number of members of a compact Array or Object.
unfoldable pub compact_length : Memory → ℕ → Result ℕ
compact_length m s = do
  end ← read_variable_value_length false m (s + 1)
  read_variable_value_length true m (s + end - 1)

-- The members of an Array with no index table all have the length of the first.
unfoldable pub unindexed_length : Memory → ℕ → ℕ → ℕ → Result ℕ
unindexed_length m s end first = do
  size ← byte_size m (s + first)
  if size == 0 then throws internal_error else ok (sub64 end first / size)

-- The number of members where it is stored, before the members or behind the index table.
unfoldable pub stored_length : Memory → ℕ → ℕ → ℕ → ℕ
stored_length m s offset_size end =
    if ltb offset_size 8
    then read_integer_non_empty m (s + offset_size + 1) offset_size
    else read_integer_non_empty m (s + end - offset_size) offset_size

-- The branches for Arrays and Objects that are neither empty nor compact.
unfoldable pub regular_length : Memory → ℕ → Result ℕ
regular_length m s =
    let h = m s in
    let offset_size = index_entry_size h in
    let end = read_integer_non_empty m (s + 1) offset_size in
    if leb h 0x05
    then (do first ← find_data_offset m s h; unindexed_length m s end first)
    else ok (stored_length m s offset_size end)

-- `length()`
unfoldable pub length : Memory → ℕ → Result ℕ
length m s =
    let h = m s in
    if is_array m s || is_object m s
    then (if h == 0x01 || h == 0x0a
        then ok 0
        else if h == 0x13 || h == 0x14
        then compact_length m s
        else regular_length m s)
    else throws invalid_value_type

-- `arrayLength()`
unfoldable pub array_length : Memory → ℕ → Result ℕ
array_length m s =
    let h = m s in
    if h == 0x01 then ok 0 else if h == 0x13 then compact_length m s else regular_length m s

-- `objectLength()`
unfoldable pub object_length : Memory → ℕ → Result ℕ
object_length m s =
    let h = m s in
    let offset_size = index_entry_size h in
    let end = read_integer_non_empty m (s + 1) offset_size in
    if h == 0x0a
    then ok 0
    else if h == 0x14
    then compact_length m s
    else ok (stored_length m s offset_size end)

-- The loop of `getNthOffsetFromCompact`, over the members that are left to skip.
unfoldable pub skip_members : ℕ → Memory → ℕ → ℕ → Result ℕ
skip_members zero m s offset = ok offset
skip_members (suc left) m s offset = do
  size ← byte_size m (s + offset)
  value_size ← (if m s == 0x14 then byte_size m (s + add64 offset size) else ok 0)
  skip_members left m s (add64 (add64 offset size) value_size)

unfoldable pub get_nth_offset_from_compact : Memory → ℕ → ℕ → Result ℕ
get_nth_offset_from_compact m s index = do
  end ← read_variable_value_length false m (s + 1)
  n ← read_variable_value_length true m (s + end - 1)
  if leb n index
      then throws index_out_of_bounds
      else skip_members index m s (1 + get_variable_value_length end)

-- Where members of one length stand, and where the index table says that a member stands.
unfoldable pub nth_by_size : Memory → ℕ → ℕ → ℕ → Result ℕ
nth_by_size m s data_offset index = do
  size ← byte_size m (s + data_offset)
  ok (add64 data_offset (mul64 index size))

unfoldable pub nth_by_table : Memory → ℕ → ℕ → ℕ → ℕ → ℕ → ℕ
nth_by_table m s offset_size end n index =
    let ie_base =
      sub64 (add64 (sub64 end (mul64 n offset_size)) (mul64 index offset_size))
        (if offset_size == 8 then 8 else 0) in
    read_integer_non_empty m (s + ie_base) offset_size

unfoldable pub get_nth_offset_regular : Memory → ℕ → ℕ → Result ℕ
get_nth_offset_regular m s index =
    let h = m s in
    let offset_size = index_entry_size h in
    let end = read_integer_non_empty m (s + 1) offset_size in
    let n = stored_length m s offset_size end in
    if leb h 0x05
    then (do
      data_offset ← find_data_offset m s h
      n' ← unindexed_length m s end data_offset
      if leb n' index then throws index_out_of_bounds else nth_by_size m s data_offset index)
    else if leb n index
    then throws index_out_of_bounds
    else if n == 1
    then (do data_offset ← find_data_offset m s h; nth_by_size m s data_offset index)
    else ok (nth_by_table m s offset_size end n index)

-- `getNthOffset(index)`
unfoldable pub get_nth_offset : Memory → ℕ → ℕ → Result ℕ
get_nth_offset m s index =
    let h = m s in
    if h == 0x13 || h == 0x14
    then get_nth_offset_from_compact m s index
    else if h == 0x01 || h == 0x0a
    then throws index_out_of_bounds
    else get_nth_offset_regular m s index

-- `at(index)`
unfoldable pub at : Memory → ℕ → ℕ → Result ℕ
at m s index =
    if is_array m s
    then (do offset ← get_nth_offset m s index; ok (s + offset))
    else throws invalid_value_type

-- `keyAt(index, false)` and `valueAt(index)`
unfoldable pub key_at : Memory → ℕ → ℕ → Result ℕ
key_at m s index =
    if is_object m s
    then (do offset ← get_nth_offset m s index; ok (s + offset))
    else throws invalid_value_type

unfoldable pub value_at : Memory → ℕ → ℕ → Result ℕ
value_at m s index = do key ← key_at m s index; size ← byte_size m key; ok (key + size)
