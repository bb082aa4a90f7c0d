-- ===== src/Tests/Close.antt =====
-- `close`: runs, and the theorems at concrete inputs.
use velocypack.Prelude.{
  Bool, ◌↔◌, ℕ, ◌+◌, ◌-◌, ◌<◌, ◌≡◌, refl, arith, true, false, List, [], ◌∷◌, map,
}
use mathlib.Core.List.{Perm}
use velocypack.Result.{Result, ok, undefined}
use velocypack.Options.{defaults, flexible}
use velocypack.Memory.{
  Memory, from_list, from_list-IsByteMemory, IsByteMemory, bytes_at, memmove, update,
}
use velocypack.Common.{get_variable_value_length}
use velocypack.Slice.{byte_size, length as slice_length}
use velocypack.Builder.Output.{Output, patch}
use velocypack.Builder.State.{close_level, Builder}
use velocypack.Builder.Outcome.{Outcome}
use velocypack.Builder.Levels.{IsNested, KeyFits, IsWellFormed}
use velocypack.Builder.Close.Compact.{compact_sizes, compact_output}
use velocypack.Builder.Close.Compact.RoundTrip.{compact_output_lem}
use velocypack.Builder.Close.Names.{
  sort_object_index, read_entries, insert_entry, SortEntry, find_attr_name, short_less, entry_less,
  sort_entries, unique_sorted, unique_unsorted, comes_before, memcmp,
}
use velocypack.Builder.Close.Names.Distinct.{AreDistinct, unique_unsorted-AreDistinct}
use velocypack.Builder.Close.Names.Unique.{IsSorted, name_less, unique_sorted-unique_unsorted}
use velocypack.Builder.Close.Names.Order.{
  short_less-entry_less, IsLexSorted, sort_object_index-IsLexSorted,
}
use velocypack.Builder.Close.{removes_padding, move_down}
use velocypack.Builder.Close.Objects.{
  object_offset_size, effective_padding, close, check_duplicates, place_members, moves_members,
}
use velocypack.Builder.Close.Objects.Fits.{FitsWidth, object_offset_size-FitsWidth}
use velocypack.Builder.Close.Table.Objects.{ReadsTable}
use velocypack.Builder.Close.Objects.Members.{HasMembers, first_member}
use velocypack.Builder.Close.Objects.Closed.{
  placed_object, closed_object, width_of, close-ReadsTable,
}
use velocypack.Builder.Close.Below.Closes.{Closes}
use velocypack.Builder.Close.Arrays.{format_of, need_index_table, same_steps}
use velocypack.Builder.Close.Arrays.Fits.{array_first}
use velocypack.Builder.Close.Arrays.Closed.{array_entries, closed_array, close_array-ReadsTable}
use velocypack.Builder.Close.Below.Returns.{close-Closes}

-- An Array of the members 1 and 2 before it is closed.
abbrev two_members : Output
two_members = record {
  bytes = from_list (0x13 ∷ 0 ∷ 0 ∷ 0 ∷ 0 ∷ 0 ∷ 0 ∷ 0 ∷ 0 ∷ 0x31 ∷ 0x32 ∷ []);
  pos = 11;
}

two_sizes : (compact_sizes (11 - 8 + get_variable_value_length 2)).0 < 9
unfolding compact_sizes get_variable_value_length
two_sizes = omega arith

compact_output_example :
    (byte_size (compact_output 0 true 2 two_members).bytes 0
      ≡ ok ((compact_output 0 true 2 two_members).pos - 0))
    × (slice_length (compact_output 0 true 2 two_members).bytes 0 ≡ ok 2)
    × ((i : ℕ)
        → i < 2
        → (compact_output 0 true 2 two_members).bytes
            (0 + 1 + (compact_sizes (11 - 8 + get_variable_value_length 2)).0 + i)
          ≡ two_members.bytes (0 + 9 + i))
compact_output_example =
    compact_output_lem 0 true 2 two_members (omega arith) (omega arith) (omega arith) two_sizes

-- An Object with the members "b" : 1 and "a" : 2, whose entries are sorted by name.
abbrev pairs : Output
pairs = record {
  bytes =
      from_list
        (0x0b ∷ 0 ∷ 0 ∷ 0 ∷ 0 ∷ 0 ∷ 0 ∷ 0 ∷ 0 ∷ 0x41 ∷ 0x62 ∷ 0x31 ∷ 0x41 ∷ 0x61 ∷ 0x32 ∷ []);
  pos = 15;
}

pairs-IsByteMemory : IsByteMemory pairs.bytes
pairs-IsByteMemory =
    from_list-IsByteMemory
      (0x0b ∷ 0 ∷ 0 ∷ 0 ∷ 0 ∷ 0 ∷ 0 ∷ 0 ∷ 0 ∷ 0x41 ∷ 0x62 ∷ 0x31 ∷ 0x41 ∷ 0x61 ∷ 0x32 ∷ [])
      (
        omega arith,
        (
          omega arith,
          (
            omega arith,
            (
              omega arith,
              (
                omega arith,
                (
                  omega arith,
                  (
                    omega arith,
                    (
                      omega arith,
                      (
                        omega arith,
                        (
                          omega arith,
                          (
                            omega arith,
                            (omega arith, (omega arith, (omega arith, (omega arith, tt)))),
                          ),
                        ),
                      ),
                    ),
                  ),
                ),
              ),
            ),
          ),
        ),
      )

object_offset_size-FitsWidth_example : FitsWidth flexible (object_offset_size flexible 15 2) 15 2
object_offset_size-FitsWidth_example =
    object_offset_size-FitsWidth flexible 15 2 (omega arith) (omega arith)

abbrev pairs_builder : Builder
pairs_builder = record {
  out = pairs;
  stack = record { start_pos = 0; index_start_pos = 0 } ∷ [];
  indexes = 9 ∷ 12 ∷ [];
  key_written = false;
}

abbrev pairs_closed : Output
pairs_closed = closed_object flexible 0 (9 ∷ 12 ∷ []) (6 ∷ 3 ∷ []) pairs

abbrev no_names : Memory → ℕ → Result (List ℕ)
no_names m s = undefined

pairs_sorted :
    sort_object_index no_names
      (placed_object flexible 0 (9 ∷ 12 ∷ []) pairs).0.bytes
      0
      (placed_object flexible 0 (9 ∷ 12 ∷ []) pairs).1
    ≡ ok (6 ∷ 3 ∷ [])
unfolding sort_object_index read_entries place_members moves_members object_offset_size
    effective_padding removes_padding find_attr_name move_down memmove patch update sort_entries
    insert_entry short_less comes_before memcmp bytes_at
pairs_sorted = refl

pairs_unique : check_duplicates no_names defaults pairs_closed.bytes 0 2 ≡ ok tt
unfolding check_duplicates
pairs_unique = refl

close-ReadsTable_example :
    (close no_names defaults pairs_builder
      ≡ (ok tt, close_level (record pairs_builder { out = pairs_closed })))
    × Perm (6 ∷ 3 ∷ []) (placed_object flexible 0 (9 ∷ 12 ∷ []) pairs).1
    × ReadsTable pairs_closed.bytes 0 (pairs_closed.pos - 0) (6 ∷ 3 ∷ [])
    × HasMembers 0
        (first_member flexible (width_of flexible 0 (9 ∷ 12 ∷ []) pairs))
        pairs
        pairs_closed
close-ReadsTable_example =
    close-ReadsTable no_names defaults pairs_builder (record { start_pos = 0; index_start_pos = 0 })
      [] (6 ∷ 3 ∷ []) refl refl refl pairs-IsByteMemory (omega arith) (omega arith) (omega arith)
      (omega arith, (omega arith, tt)) pairs_sorted pairs_unique

-- The Array of the members 1 and 2, still open.
abbrev members_builder : Builder
members_builder = record {
  out = two_members;
  stack = record { start_pos = 0; index_start_pos = 0 } ∷ [];
  indexes = 9 ∷ 10 ∷ [];
  key_written = false;
}

members-IsWellFormed : IsWellFormed members_builder
unfolding IsWellFormed IsNested KeyFits
members-IsWellFormed = ((omega arith, omega arith, refl, tt), tt)

close-Closes_example :
    Outcome
      (λ _ b'. Closes members_builder b')
      (λ _ _. Unit {0})
      (close no_names defaults members_builder)
close-Closes_example =
    close-Closes no_names defaults members_builder members-IsWellFormed refl (omega arith)
      (omega arith)

-- The names "a", "a" and "b".
abbrev repeated : List (List ℕ)
repeated = (0x61 ∷ []) ∷ (0x61 ∷ []) ∷ (0x62 ∷ []) ∷ []

unique_unsorted-AreDistinct_example :
    (unique : Bool) × (unique_unsorted repeated ≡ ok unique)
    × ((unique ≡ true) ↔ AreDistinct repeated)
unique_unsorted-AreDistinct_example = unique_unsorted-AreDistinct repeated

repeated-IsSorted : IsSorted repeated
unfolding IsSorted name_less comes_before memcmp
repeated-IsSorted = (refl, (refl, tt))

unique_sorted-unique_unsorted_example : ok (unique_sorted repeated) ≡ unique_unsorted repeated
unique_sorted-unique_unsorted_example = unique_sorted-unique_unsorted repeated repeated-IsSorted

abbrev b_entry : SortEntry
b_entry = record { name = 0x62 ∷ []; offset = 9 }

abbrev a_entry : SortEntry
a_entry = record { name = 0x61 ∷ []; offset = 12 }

b_name : find_attr_name no_names pairs.bytes 9 ≡ ok (0x62 ∷ [])
unfolding find_attr_name bytes_at
b_name = refl

a_name : find_attr_name no_names pairs.bytes 12 ≡ ok (0x61 ∷ [])
unfolding find_attr_name bytes_at
a_name = refl

short_less-entry_less_example :
    short_less pairs.bytes 0 b_entry a_entry ≡ entry_less b_entry a_entry
short_less-entry_less_example =
    short_less-entry_less no_names pairs.bytes 0 b_entry a_entry b_name a_name

-- The entries of "b" and "a" in the Object above, in the order in which they were added.
pairs_sorted_before : sort_object_index no_names pairs.bytes 0 (9 ∷ 12 ∷ []) ≡ ok (12 ∷ 9 ∷ [])
unfolding sort_object_index read_entries find_attr_name sort_entries insert_entry short_less
    comes_before memcmp bytes_at
pairs_sorted_before = refl

sort_object_index-IsLexSorted_example :
    Perm {A = ℕ} (12 ∷ 9 ∷ []) (9 ∷ 12 ∷ [])
    × ((es : List SortEntry) × (read_entries no_names pairs.bytes 0 (12 ∷ 9 ∷ []) ≡ ok es)
        × IsLexSorted (map (λ e. e.name) es))
sort_object_index-IsLexSorted_example =
    sort_object_index-IsLexSorted no_names pairs.bytes 0 (9 ∷ 12 ∷ []) (12 ∷ 9 ∷ [])
      pairs_sorted_before

-- The Array of the members 1 and 16, of one and two bytes, still open.
abbrev uneven : Output
uneven = record {
  bytes = from_list (0x06 ∷ 0 ∷ 0 ∷ 0 ∷ 0 ∷ 0 ∷ 0 ∷ 0 ∷ 0 ∷ 0x31 ∷ 0x28 ∷ 0x10 ∷ []);
  pos = 12;
}

abbrev uneven_builder : Builder
uneven_builder = record {
  out = uneven;
  stack = record { start_pos = 0; index_start_pos = 0 } ∷ [];
  indexes = 9 ∷ 10 ∷ [];
  key_written = false;
}

uneven-IsByteMemory : IsByteMemory uneven.bytes
uneven-IsByteMemory =
    from_list-IsByteMemory (0x06 ∷ 0 ∷ 0 ∷ 0 ∷ 0 ∷ 0 ∷ 0 ∷ 0 ∷ 0 ∷ 0x31 ∷ 0x28 ∷ 0x10 ∷ []) (
      omega arith,
      (
        omega arith,
        (
          omega arith,
          (
            omega arith,
            (
              omega arith,
              (
                omega arith,
                (
                  omega arith,
                  (omega arith, (omega arith, (omega arith, (omega arith, (omega arith, tt))))),
                ),
              ),
            ),
          ),
        ),
      ),
    )

uneven_table : need_index_table 12 (9 ∷ 10 ∷ []) ≡ true
unfolding need_index_table same_steps
uneven_table = refl

close_array-ReadsTable_example :
    let format = format_of defaults 0 (9 ∷ 10 ∷ []) uneven in
    let closed = closed_array defaults 0 (9 ∷ 10 ∷ []) uneven in
    (close no_names defaults uneven_builder
      ≡ (ok tt, close_level (record uneven_builder { out = closed })))
    × ReadsTable closed.bytes 0 (closed.pos - 0) (array_entries format.0 format.1 (9 ∷ 10 ∷ []))
    × HasMembers 0 (array_first format.0 format.1) uneven closed
close_array-ReadsTable_example =
    close_array-ReadsTable no_names defaults uneven_builder
      (record { start_pos = 0; index_start_pos = 0 }) [] refl refl refl uneven-IsByteMemory
      (omega arith) (omega arith) (omega arith) (omega arith, (omega arith, tt)) uneven_table
