-- ===== src/SliceStaticData.antt =====
-- include/velocypack/SliceStaticData.h: what the head byte of a value says of it. The tables of
-- precalculated hashes are left out: they are the output of the hash functions.
pub mod Ranges
use velocypack.Prelude.{ℕ, List, [], ◌∷◌, get_or}
use velocypack.ValueType.{
  ValueType, illegal, null, bool, array, object, double, utc_date, external, min_key, max_key, int,
  uint, small_int, string, binary, bcd, custom, tagged,
}

-- The byte length of a value with this head byte, where that is fixed; otherwise 0. Doubles and
-- pointers are of 8 bytes.
abbrev fixed_type_lengths_table : List ℕ
fixed_type_lengths_table =
    1 ∷ 1 ∷ 0 ∷ 0 ∷ 0 ∷ 0 ∷ 0 ∷ 0 ∷ 0 ∷ 0 ∷ 1 ∷ 0 ∷ 0 ∷ 0 ∷ 0 ∷ 0 ∷ 0 ∷ 0 ∷ 0 ∷ 0 ∷ 0 ∷ 0 ∷ 0 ∷ 1
    ∷ 1 ∷ 1 ∷ 1 ∷ 9 ∷ 9 ∷ 9 ∷ 1 ∷ 1 ∷ 2 ∷ 3 ∷ 4 ∷ 5 ∷ 6 ∷ 7 ∷ 8 ∷ 9 ∷ 2 ∷ 3 ∷ 4 ∷ 5 ∷ 6 ∷ 7 ∷ 8 ∷ 9
    ∷ 1 ∷ 1 ∷ 1 ∷ 1 ∷ 1 ∷ 1 ∷ 1 ∷ 1 ∷ 1 ∷ 1 ∷ 1 ∷ 1 ∷ 1 ∷ 1 ∷ 1 ∷ 1 ∷ 1 ∷ 2 ∷ 3 ∷ 4 ∷ 5 ∷ 6 ∷ 7 ∷ 8
    ∷ 9 ∷ 10 ∷ 11 ∷ 12 ∷ 13 ∷ 14 ∷ 15 ∷ 16 ∷ 17 ∷ 18 ∷ 19 ∷ 20 ∷ 21 ∷ 22 ∷ 23 ∷ 24 ∷ 25 ∷ 26 ∷ 27
    ∷ 28 ∷ 29 ∷ 30 ∷ 31 ∷ 32 ∷ 33 ∷ 34 ∷ 35 ∷ 36 ∷ 37 ∷ 38 ∷ 39 ∷ 40 ∷ 41 ∷ 42 ∷ 43 ∷ 44 ∷ 45 ∷ 46
    ∷ 47 ∷ 48 ∷ 49 ∷ 50 ∷ 51 ∷ 52 ∷ 53 ∷ 54 ∷ 55 ∷ 56 ∷ 57 ∷ 58 ∷ 59 ∷ 60 ∷ 61 ∷ 62 ∷ 63 ∷ 64 ∷ 65
    ∷ 66 ∷ 67 ∷ 68 ∷ 69 ∷ 70 ∷ 71 ∷ 72 ∷ 73 ∷ 74 ∷ 75 ∷ 76 ∷ 77 ∷ 78 ∷ 79 ∷ 80 ∷ 81 ∷ 82 ∷ 83 ∷ 84
    ∷ 85 ∷ 86 ∷ 87 ∷ 88 ∷ 89 ∷ 90 ∷ 91 ∷ 92 ∷ 93 ∷ 94 ∷ 95 ∷ 96 ∷ 97 ∷ 98 ∷ 99 ∷ 100 ∷ 101 ∷ 102
    ∷ 103 ∷ 104 ∷ 105 ∷ 106 ∷ 107 ∷ 108 ∷ 109 ∷ 110 ∷ 111 ∷ 112 ∷ 113 ∷ 114 ∷ 115 ∷ 116 ∷ 117 ∷ 118
    ∷ 119 ∷ 120 ∷ 121 ∷ 122 ∷ 123 ∷ 124 ∷ 125 ∷ 126 ∷ 127 ∷ 0 ∷ 0 ∷ 0 ∷ 0 ∷ 0 ∷ 0 ∷ 0 ∷ 0 ∷ 0 ∷ 0
    ∷ 0 ∷ 0 ∷ 0 ∷ 0 ∷ 0 ∷ 0 ∷ 0 ∷ 0 ∷ 0 ∷ 0 ∷ 0 ∷ 0 ∷ 0 ∷ 0 ∷ 0 ∷ 0 ∷ 0 ∷ 0 ∷ 0 ∷ 0 ∷ 0 ∷ 0 ∷ 0 ∷ 0
    ∷ 0 ∷ 0 ∷ 0 ∷ 0 ∷ 0 ∷ 0 ∷ 0 ∷ 0 ∷ 0 ∷ 0 ∷ 0 ∷ 0 ∷ 0 ∷ 0 ∷ 0 ∷ 2 ∷ 3 ∷ 5 ∷ 9 ∷ 0 ∷ 0 ∷ 0 ∷ 0 ∷ 0
    ∷ 0 ∷ 0 ∷ 0 ∷ 0 ∷ 0 ∷ 0 ∷ 0 ∷ []

unfoldable pub fixed_type_lengths : ℕ → ℕ
fixed_type_lengths h = get_or fixed_type_lengths_table h 0

abbrev type_map_table : List ValueType
type_map_table =
    ValueType.none ∷ array ∷ array ∷ array ∷ array ∷ array ∷ array ∷ array ∷ array ∷ array ∷ object
    ∷ object ∷ object ∷ object ∷ object ∷ ValueType.none ∷ ValueType.none ∷ ValueType.none
    ∷ ValueType.none ∷ array ∷ object ∷ ValueType.none ∷ ValueType.none ∷ illegal ∷ null ∷ bool
    ∷ bool ∷ double ∷ utc_date ∷ external ∷ min_key ∷ max_key ∷ int ∷ int ∷ int ∷ int ∷ int ∷ int
    ∷ int ∷ int ∷ uint ∷ uint ∷ uint ∷ uint ∷ uint ∷ uint ∷ uint ∷ uint ∷ small_int ∷ small_int
    ∷ small_int ∷ small_int ∷ small_int ∷ small_int ∷ small_int ∷ small_int ∷ small_int ∷ small_int
    ∷ small_int ∷ small_int ∷ small_int ∷ small_int ∷ small_int ∷ small_int ∷ string ∷ string
    ∷ string ∷ string ∷ string ∷ string ∷ string ∷ string ∷ string ∷ string ∷ string ∷ string
    ∷ string ∷ string ∷ string ∷ string ∷ string ∷ string ∷ string ∷ string ∷ string ∷ string
    ∷ string ∷ string ∷ string ∷ string ∷ string ∷ string ∷ string ∷ string ∷ string ∷ string
    ∷ string ∷ string ∷ string ∷ string ∷ string ∷ string ∷ string ∷ string ∷ string ∷ string
    ∷ string ∷ string ∷ string ∷ string ∷ string ∷ string ∷ string ∷ string ∷ string ∷ string
    ∷ string ∷ string ∷ string ∷ string ∷ string ∷ string ∷ string ∷ string ∷ string ∷ string
    ∷ string ∷ string ∷ string ∷ string ∷ string ∷ string ∷ string ∷ string ∷ string ∷ string
    ∷ string ∷ string ∷ string ∷ string ∷ string ∷ string ∷ string ∷ string ∷ string ∷ string
    ∷ string ∷ string ∷ string ∷ string ∷ string ∷ string ∷ string ∷ string ∷ string ∷ string
    ∷ string ∷ string ∷ string ∷ string ∷ string ∷ string ∷ string ∷ string ∷ string ∷ string
    ∷ string ∷ string ∷ string ∷ string ∷ string ∷ string ∷ string ∷ string ∷ string ∷ string
    ∷ string ∷ string ∷ string ∷ string ∷ string ∷ string ∷ string ∷ string ∷ string ∷ string
    ∷ string ∷ string ∷ string ∷ string ∷ string ∷ string ∷ binary ∷ binary ∷ binary ∷ binary
    ∷ binary ∷ binary ∷ binary ∷ binary ∷ bcd ∷ bcd ∷ bcd ∷ bcd ∷ bcd ∷ bcd ∷ bcd ∷ bcd ∷ bcd ∷ bcd
    ∷ bcd ∷ bcd ∷ bcd ∷ bcd ∷ bcd ∷ bcd ∷ ValueType.none ∷ ValueType.none ∷ ValueType.none
    ∷ ValueType.none ∷ ValueType.none ∷ ValueType.none ∷ ValueType.none ∷ ValueType.none
    ∷ ValueType.none ∷ ValueType.none ∷ ValueType.none ∷ ValueType.none ∷ ValueType.none
    ∷ ValueType.none ∷ ValueType.none ∷ ValueType.none ∷ ValueType.none ∷ ValueType.none
    ∷ ValueType.none ∷ ValueType.none ∷ ValueType.none ∷ ValueType.none ∷ tagged ∷ tagged ∷ custom
    ∷ custom ∷ custom ∷ custom ∷ custom ∷ custom ∷ custom ∷ custom ∷ custom ∷ custom ∷ custom
    ∷ custom ∷ custom ∷ custom ∷ custom ∷ custom ∷ []

unfoldable pub type_map : ℕ → ValueType
type_map h = get_or type_map_table h ValueType.none

-- The bytes of a length or an index entry of an Array or Object with this head byte. Both tables end at
-- head 0x1f: callers hand over the head of an Array or Object, or test for less than 32 first.
abbrev width_map_table : List ℕ
width_map_table = 0 ∷ 1 ∷ 1 ∷ 2 ∷ 4 ∷ 8 ∷ 1 ∷ 2 ∷ 4 ∷ 8 ∷ 1 ∷ 1 ∷ 2 ∷ 4 ∷ 8 ∷ 1 ∷ 2 ∷ 4 ∷ 8 ∷ 0 ∷ []

unfoldable pub width_map : ℕ → ℕ
width_map h = get_or width_map_table h 0

-- The offset of the first member without padding; 0 where the length before it has a variable width.
abbrev first_sub_map_table : List ℕ
first_sub_map_table =
    0 ∷ 1 ∷ 2 ∷ 3 ∷ 5 ∷ 9 ∷ 3 ∷ 5 ∷ 9 ∷ 9 ∷ 1 ∷ 3 ∷ 5 ∷ 9 ∷ 9 ∷ 3 ∷ 5 ∷ 9 ∷ 9 ∷ 0 ∷ 0 ∷ 0 ∷ []

unfoldable pub first_sub_map : ℕ → ℕ
first_sub_map h = get_or first_sub_map_table h 0
