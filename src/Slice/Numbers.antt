-- ===== src/Slice/Numbers.antt =====
-- include/velocypack/SliceBase.tpp: reading the integers. An int64_t is a ℤ in its range.
pub mod Unchecked
use velocypack.Prelude.{
  ℕ, zero, suc, ◌+◌, ◌-◌, ◌*◌, ◌^◌, ltb, between, if◌then◌else◌, ◌||◌, ◌==◌, List, [], ◌∷◌, get_or,
}
use velocypack.Prelude.Int.{ℤ, pos, negsuc, ◌-ℤ◌}
use velocypack.Exception.{number_out_of_range, invalid_value_type}
use velocypack.Result.{Result, ok, throws, undefined, ◌>>=◌}
use velocypack.Memory.{Memory}
use velocypack.Common.{read_integer_non_empty, read_integer_fixed, to_i64}
use velocypack.Slice.Head.{is_utc_date, is_double}

-- `maxValues`, by the byte length less 1.
abbrev pub max_values : List ℕ
max_values =
    128 ∷ 32768 ∷ 8388608 ∷ 2147483648 ∷ 549755813888 ∷ 140737488355328 ∷ 36028797018963968 ∷ []

-- The Int branch of `getInt`: sign extension from the byte length.
unfoldable pub read_signed : Memory → ℕ → ℤ
read_signed m s =
    let h = m s in
    let v = read_integer_non_empty m (s + 1) (h - 0x1f) in
    let shift = get_or max_values (h - 0x20) 0 in
    if h == 0x27 then to_i64 v else if ltb v shift then pos v else pos v -ℤ pos (2 * shift)

-- The Int branch of `getIntUnchecked`, which the source writes out once more.
unfoldable pub read_signed_unchecked : Memory → ℕ → ℤ
read_signed_unchecked m s =
    let v = read_integer_non_empty m (s + 1) (m s - 0x1f) in
    if m s == 0x27
    then to_i64 v
    else (let shift = get_or max_values (m s - 0x20) 0 in
        if ltb v shift then pos v else pos v -ℤ pos (2 * shift))

unfoldable pub get_uint_unchecked : Memory → ℕ → ℕ
get_uint_unchecked m s =
    let h = m s in
    if between 0x28 0x2f h
    then read_integer_non_empty m (s + 1) (h - 0x27)
    else if between 0x30 0x39 h
    then h - 0x30
    else 0

-- `static_cast<int64_t>(h - 0x3a) - 6`
abbrev small_negative : ℕ → ℤ
small_negative h = pos (h - 0x3a) -ℤ pos 6

-- These two call each other; a call costs a unit of fuel.
unfoldable mutual
  pub get_small_int_unchecked : ℕ → Memory → ℕ → Result ℤ
  get_small_int_unchecked zero m s = undefined
  get_small_int_unchecked (suc fuel) m s =
      let h = m s in
      let other = get_int_unchecked fuel m s in
      if between 0x30 0x39 h
      then ok (pos (h - 0x30))
      else if between 0x3a 0x3f h
      then ok (small_negative h)
      else if between 0x20 0x27 h || between 0x28 0x2f h
      then other
      else ok (pos 0)

  pub get_int_unchecked : ℕ → Memory → ℕ → Result ℤ
  get_int_unchecked zero m s = undefined
  get_int_unchecked (suc fuel) m s =
      let other = get_small_int_unchecked fuel m s in
      if between 0x20 0x27 (m s) then ok (read_signed_unchecked m s) else other

-- On a SmallInt `getSmallIntUnchecked` makes no call, so one unit of fuel is enough here.
unfoldable pub get_int : Memory → ℕ → Result ℤ
get_int m s =
    let h = m s in
    if between 0x20 0x27 h
    then ok (read_signed m s)
    else if between 0x28 0x2f h
    then (let v = get_uint_unchecked m s in
        if ltb (2 ^ 63 - 1) v then throws number_out_of_range else ok (pos v))
    else if between 0x30 0x3f h
    then get_small_int_unchecked 1 m s
    else throws invalid_value_type

-- The Int branch of `getUInt`.
unfoldable pub to_unsigned : ℤ → Result ℕ
to_unsigned (pos n) = ok n
to_unsigned (negsuc n) = throws number_out_of_range

unfoldable pub get_uint : Memory → ℕ → Result ℕ
get_uint m s =
    let h = m s in
    if h == 0x28
    then ok (read_integer_fixed m 1 (s + 1))
    else if between 0x29 0x2f h
    then ok (read_integer_non_empty m (s + 1) (h - 0x27))
    else if between 0x20 0x27 h
    then get_int m s >>= to_unsigned
    else if between 0x30 0x39 h
    then ok (h - 0x30)
    else if between 0x3a 0x3f h
    then throws number_out_of_range
    else throws invalid_value_type

unfoldable pub get_small_int : Memory → ℕ → Result ℤ
get_small_int m s =
    let h = m s in
    if between 0x30 0x39 h
    then ok (pos (h - 0x30))
    else if between 0x3a 0x3f h
    then ok (small_negative h)
    else if between 0x20 0x27 h || between 0x28 0x2f h
    then get_int m s
    else throws invalid_value_type

unfoldable pub get_utc_date : Memory → ℕ → Result ℤ
get_utc_date m s =
    if is_utc_date m s
    then ok (to_i64 (read_integer_fixed m 8 (s + 1)))
    else throws invalid_value_type

-- The bits of the double that `getDouble` returns.
unfoldable pub get_double_bits : Memory → ℕ → Result ℕ
get_double_bits m s =
    if is_double m s then ok (read_integer_fixed m 8 (s + 1)) else throws invalid_value_type
