-- ===== src/Slice/Head.antt =====
-- include/velocypack/SliceBase.h: what the head byte alone says of a value.
use velocypack.Prelude.{ℕ, Bool, ◌||◌, ◌==◌, between, if◌then◌else◌}
use velocypack.ValueType.{
  ValueType, eq, illegal, null, bool, array, object, double, utc_date, external, min_key, max_key,
  int, uint, small_int, string, binary, bcd, custom, tagged,
}
use velocypack.Exception.{invalid_value_type}
use velocypack.Result.{Result, ok, throws}
use velocypack.SliceStaticData.{type_map}
use velocypack.Memory.{Memory}

-- `type()`
unfoldable pub type_of : Memory → ℕ → ValueType
type_of m s = type_map (m s)

-- `isType(t)`
unfoldable pub is_type : Memory → ℕ → ValueType → Bool
unfolding type_of
is_type m s t = eq (type_of m s) t

unfoldable pub is_none : Memory → ℕ → Bool
unfolding is_type
is_none m s = is_type m s ValueType.none

unfoldable pub is_illegal : Memory → ℕ → Bool
unfolding is_type
is_illegal m s = is_type m s illegal

unfoldable pub is_null : Memory → ℕ → Bool
unfolding is_type
is_null m s = is_type m s null

unfoldable pub is_bool : Memory → ℕ → Bool
unfolding is_type
is_bool m s = is_type m s bool

unfoldable pub is_array : Memory → ℕ → Bool
unfolding is_type
is_array m s = is_type m s array

unfoldable pub is_object : Memory → ℕ → Bool
unfolding is_type
is_object m s = is_type m s object

unfoldable pub is_double : Memory → ℕ → Bool
unfolding is_type
is_double m s = is_type m s double

unfoldable pub is_utc_date : Memory → ℕ → Bool
unfolding is_type
is_utc_date m s = is_type m s utc_date

unfoldable pub is_external : Memory → ℕ → Bool
unfolding is_type
is_external m s = is_type m s external

unfoldable pub is_min_key : Memory → ℕ → Bool
unfolding is_type
is_min_key m s = is_type m s min_key

unfoldable pub is_max_key : Memory → ℕ → Bool
unfolding is_type
is_max_key m s = is_type m s max_key

unfoldable pub is_int : Memory → ℕ → Bool
unfolding is_type
is_int m s = is_type m s int

unfoldable pub is_uint : Memory → ℕ → Bool
unfolding is_type
is_uint m s = is_type m s uint

unfoldable pub is_small_int : Memory → ℕ → Bool
unfolding is_type
is_small_int m s = is_type m s small_int

unfoldable pub is_string : Memory → ℕ → Bool
unfolding is_type
is_string m s = is_type m s string

unfoldable pub is_binary : Memory → ℕ → Bool
unfolding is_type
is_binary m s = is_type m s binary

unfoldable pub is_bcd : Memory → ℕ → Bool
unfolding is_type
is_bcd m s = is_type m s bcd

unfoldable pub is_custom : Memory → ℕ → Bool
unfolding is_type
is_custom m s = is_type m s custom

unfoldable pub is_tagged : Memory → ℕ → Bool
unfolding is_type
is_tagged m s = is_type m s tagged

unfoldable pub is_true : Memory → ℕ → Bool
is_true m s = m s == 0x1a

unfoldable pub is_false : Memory → ℕ → Bool
is_false m s = m s == 0x19

unfoldable pub is_integer : Memory → ℕ → Bool
unfolding is_int is_uint is_small_int
is_integer m s = is_int m s || is_uint m s || is_small_int m s

unfoldable pub is_number : Memory → ℕ → Bool
unfolding is_integer is_double
is_number m s = is_integer m s || is_double m s

-- `isSorted()`: an object with an index table sorted by attribute name.
unfoldable pub is_sorted : Memory → ℕ → Bool
is_sorted m s = between 0x0b 0x0e (m s)

unfoldable pub get_bool : Memory → ℕ → Result Bool
unfolding is_bool is_true
get_bool m s = if is_bool m s then ok (is_true m s) else throws invalid_value_type
