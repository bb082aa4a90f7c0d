-- ===== src/Slice/Numbers/Unchecked.antt =====
-- What `getInt`, `getSmallInt` and the unchecked forms read, against the format.
use velocypack.Prelude.{
  ℕ, zero, suc, ◌+◌, ◌-◌, ◌*◌, ◌^◌, ◌<◌, ◌≡◌, refl, ap, ◌∙◌, true, arith, between, ltb, leb, ◌==◌,
  ◌||◌, if◌then◌else◌, get_or, ltb→lt, ◌&&◌, false, and-left, and-right, all_below, all_below_sound,
  ==_iff, Bool-cases, inl, inr,
}
use velocypack.Prelude.Int.{ℤ, pos, negsuc, ◌-ℤ◌}
use velocypack.Result.{ok, undefined}
use velocypack.Memory.{Memory, IsByteMemory}
use velocypack.Common.{memcpy_in, read_integer_non_empty, to_i64}
use velocypack.Common.Integers.LittleEndian.{read_integer_non_empty-memcpy_in, memcpy_in-lt}
use velocypack.Common.Integers.Signed.{to_i64_small, to_i64_large}
use velocypack.Slice.Numbers.{
  max_values, read_signed, read_signed_unchecked, get_small_int_unchecked, get_int_unchecked,
  get_int, get_small_int,
}

-- The number of a two's complement in so many bytes.
unfoldable pub twos_complement : ℕ → ℕ → ℤ
twos_complement bytes v =
    if ltb v (2 ^ (8 * bytes - 1)) then pos v else pos v -ℤ pos (2 ^ (8 * bytes))

-- The number that an Int or a SmallInt stands for: the little-endian two's complement behind the head,
-- or 0 to 9 for the heads from 0x30 on and -6 to -1 for those up to 0x3f.
unfoldable pub int_value : Memory → ℕ → ℤ
int_value m s =
    if between 0x20 0x27 (m s)
    then twos_complement (m s - 0x1f) (memcpy_in m (s + 1) (m s - 0x1f))
    else if leb (m s) 0x39
    then pos (m s - 0x30)
    else negsuc (0x3f - m s)

max_values_agree :
    all_below 7 (λ k.
      get_or max_values k 0 == 2 ^ (8 * (k + 1) - 1)
      && 2 * get_or max_values k 0 == 2 ^ (8 * (k + 1)))
    ≡ true
unfolding all_below
max_values_agree = refl

to_i64-twos_complement : (v : ℕ) → v < 2 ^ 64 → to_i64 v ≡ twos_complement 8 v
unfolding twos_complement ◌-ℤ◌
to_i64-twos_complement v h = elim (Bool-cases (ltb v (2 ^ 63))) [
  | inl small ↦ rw small (to_i64_small v (ltb→lt v (2 ^ 63) small))
  | inr large ↦
      let above : leb 18446744073709551616 (v + 0) ≡ false = ground arith in
      rw (large, above) (to_i64_large v (ground arith) h ∙ ap negsuc (omega arith))
]

module _ (m : Memory) (s : ℕ) (bytes : IsByteMemory m) where
  -- The Int branches, one width a case: seven from the table, and `toInt64` for eight bytes.
  narrow-twos_complement :
      between 0x20 0x26 (m s) ≡ true
      → (let v = read_integer_non_empty m (s + 1) (m s - 0x1f) in
          let shift = get_or max_values (m s - 0x20) 0 in
          if ltb v shift then pos v else pos v -ℤ pos (2 * shift))
        ≡ twos_complement (m s - 0x1f) (memcpy_in m (s + 1) (m s - 0x1f))
  unfolding twos_complement
  narrow-twos_complement h =
      let k = m s - 0x20 in
      let width : m s - 0x1f ≡ k + 1 = ground arith in
      let v =
        read_integer_non_empty-memcpy_in m (s + 1) (m s - 0x1f) bytes (ground arith)
          (ground arith) in
      let both = all_below_sound 7 _ k max_values_agree (ground arith) in
      let half : get_or max_values k 0 ≡ 2 ^ (8 * (k + 1) - 1) =
        (==_iff _ _).0 (and-left _ _ both) in
      let whole : 2 * get_or max_values k 0 ≡ 2 ^ (8 * (k + 1)) =
        (==_iff _ _).0 (and-right _ _ both) in
      rw (v, width, whole, half) refl

  wide-twos_complement :
      (m s == 0x27) ≡ true
      → to_i64 (read_integer_non_empty m (s + 1) (m s - 0x1f))
        ≡ twos_complement (m s - 0x1f) (memcpy_in m (s + 1) (m s - 0x1f))
  wide-twos_complement h =
      let width : m s - 0x1f ≡ 8 = ground arith in
      rw (width, read_integer_non_empty-memcpy_in m (s + 1) 8 bytes (omega arith) (omega arith))
        (to_i64-twos_complement (memcpy_in m (s + 1) 8) (memcpy_in-lt m 8 (s + 1) bytes))

  signed-int_value :
      between 0x20 0x27 (m s) ≡ true
      → (read_signed m s ≡ int_value m s) × (read_signed_unchecked m s ≡ int_value m s)
  unfolding read_signed read_signed_unchecked int_value
  signed-int_value h = elim (Bool-cases (m s == 0x27)) [
    | inl wide ↦ rw (wide, h) (wide-twos_complement wide, wide-twos_complement wide)
    | inr narrow ↦
        let seven : between 0x20 0x26 (m s) ≡ true = ground arith in
        rw (narrow, h) (narrow-twos_complement seven, narrow-twos_complement seven)
  ]

  small-int_value :
      between 0x20 0x27 (m s) ≡ false
      → between 0x30 0x3f (m s) ≡ true
      → (if between 0x30 0x39 (m s) then pos (m s - 0x30) else pos (m s - 0x3a) -ℤ pos 6)
        ≡ int_value m s
  unfolding int_value ◌-ℤ◌
  small-int_value other h = elim (Bool-cases (leb (m s) 0x39)) [
    | inl low ↦
        let first : between 0x30 0x39 (m s) ≡ true = ground arith in rw (other, first, low) refl
    | inr high ↦
        let second : between 0x30 0x39 (m s) ≡ false = ground arith in
        let below : leb 6 (m s - 0x3a + 0) ≡ false = ground arith in
        rw (other, second, high, below) (ap negsuc (ground (arith, high, h)))
  ]

-- On the head of an Int or a SmallInt, and with two calls or more, all four functions give the number that
-- the format gives the bytes: `getInt`, `getSmallInt`, and both unchecked forms.
pub unchecked-get_int :
    (fuel : ℕ) (m : Memory) (s : ℕ)
    → IsByteMemory m
    → (between 0x20 0x27 (m s) || between 0x30 0x3f (m s)) ≡ true
    → (get_int m s ≡ ok (int_value m s))
      × (get_small_int m s ≡ ok (int_value m s))
      × (get_int_unchecked (suc (suc fuel)) m s ≡ ok (int_value m s))
      × (get_small_int_unchecked (suc (suc fuel)) m s ≡ ok (int_value m s))
unfolding get_small_int_unchecked get_int_unchecked get_int get_small_int
unchecked-get_int fuel m s bytes h = elim (Bool-cases (between 0x20 0x27 (m s))) [
  | inl int ↦
      let (plain, unchecked) = signed-int_value m s bytes int in
      let p = ap ok plain in
      let u = ap ok unchecked in (ground arith, ground arith, ground arith, ground arith)
  | inr small ↦
      let value = small-int_value m s bytes small (ground arith) in
      let v = ap ok value in (ground arith, ground arith, ground arith, ground arith)
]

-- On a UInt head the two functions call each other without end: no fuel is enough.
pub unchecked_uint :
    (fuel : ℕ) (m : Memory) (s : ℕ)
    → between 0x28 0x2f (m s) ≡ true
    → (get_int_unchecked fuel m s ≡ undefined) × (get_small_int_unchecked fuel m s ≡ undefined)
unfolding get_small_int_unchecked get_int_unchecked
unchecked_uint zero m s h = (refl, refl)
unchecked_uint (suc fuel) m s h =
    let (int, small) = unchecked_uint fuel m s h in (ground arith, ground arith)
