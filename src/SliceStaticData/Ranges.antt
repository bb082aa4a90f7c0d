-- ===== src/SliceStaticData/Ranges.antt =====
-- The tables against the list of types in VelocyPack.md, and the widths against the powers of two.
use velocypack.Prelude.{
  ℕ, ◌+◌, ◌*◌, ◌-◌, ◌<◌, ◌%◌, ◌^◌, ◌≡◌, refl, true, leb, ◌==◌, ==_iff, between, if◌then◌else◌,
  all_below, all_below_sound, and-left, and-right, ◌&&◌, ◌||◌,
}
use velocypack.ValueType.{
  ValueType, eq, eq→≡, illegal, null, bool, array, object, double, utc_date, external, min_key,
  max_key, int, uint, small_int, string, binary, bcd, custom, tagged,
}
use velocypack.SliceStaticData.{type_map, fixed_type_lengths, width_map, first_sub_map}

-- The type that VelocyPack.md gives to a head byte, where 0x0f to 0x12 are the objects with an unsorted
-- index table, which the library has stopped to support.
pub type_by_range : ℕ → ValueType
type_by_range h =
    if h == 0x00
    then ValueType.none
    else if leb h 0x09
    then array
    else if leb h 0x0e
    then object
    else if leb h 0x12
    then ValueType.none
    else if h == 0x13
    then array
    else if h == 0x14
    then object
    else if leb h 0x16
    then ValueType.none
    else if h == 0x17
    then illegal
    else if h == 0x18
    then null
    else if leb h 0x1a
    then bool
    else if h == 0x1b
    then double
    else if h == 0x1c
    then utc_date
    else if h == 0x1d
    then external
    else if h == 0x1e
    then min_key
    else if h == 0x1f
    then max_key
    else if leb h 0x27
    then int
    else if leb h 0x2f
    then uint
    else if leb h 0x3f
    then small_int
    else if leb h 0xbf
    then string
    else if leb h 0xc7
    then binary
    else if leb h 0xd7
    then bcd
    else if leb h 0xed
    then ValueType.none
    else if leb h 0xef
    then tagged
    else custom

type_agrees : all_below 256 (λ h. eq (type_map h) (type_by_range h)) ≡ true
unfolding all_below type_map type_by_range
type_agrees = refl

-- For every head byte the table TypeMap has the type of the documented range.
pub type_map-type_by_range : (h : ℕ) → h < 256 → type_map h ≡ type_by_range h
type_map-type_by_range h lt = eq→≡ _ _ (all_below_sound 256 _ h type_agrees lt)

-- The documented byte length of a value whose head byte fixes it, and 0 for the others: the values that
-- store a length, the tagged ones, and the heads that are no value (0x15, 0x16 and 0xd8 to 0xed).
pub length_by_range : ℕ → ℕ
length_by_range h =
    if leb h 0x01
    then 1
    else if h == 0x0a
    then 1
    else if leb h 0x16
    then 0
    else if leb h 0x1a
    then 1
    else if leb h 0x1d
    then 9
    else if leb h 0x1f
    then 1
    else if leb h 0x27
    then h - 0x1e
    else if leb h 0x2f
    then h - 0x26
    else if leb h 0x3f
    then 1
    else if leb h 0xbe
    then h - 0x3f
    else if leb h 0xef
    then 0
    else if h == 0xf0
    then 2
    else if h == 0xf1
    then 3
    else if h == 0xf2
    then 5
    else if h == 0xf3
    then 9
    else 0

length_agrees : all_below 256 (λ h. fixed_type_lengths h == length_by_range h) ≡ true
unfolding all_below fixed_type_lengths length_by_range
length_agrees = refl

-- For every head byte the table FixedTypeLengths has the documented byte length.
pub fixed_type_lengths-length_by_range :
    (h : ℕ) → h < 256 → fixed_type_lengths h ≡ length_by_range h
fixed_type_lengths-length_by_range h lt = (==_iff _ _).0 (all_below_sound 256 _ h length_agrees lt)

-- The width of lengths and offsets: 1, 2, 4 and 8 in each group of four heads.
pub width_by_range : ℕ → ℕ
width_by_range h =
    if between 0x02 0x09 h
    then 2 ^ ((h - 0x02) % 4)
    else if between 0x0b 0x12 h
    then 2 ^ ((h - 0x0b) % 4)
    else if h == 0x01 || h == 0x0a
    then 1
    else 0

-- An array with no index table begins behind its byte length; the others behind the number of members
-- too, unless that takes 8 bytes and stands at the end.
pub first_by_range : ℕ → ℕ
first_by_range h =
    if h == 0x01 || h == 0x0a
    then 1
    else if between 0x02 0x05 h
    then 1 + width_by_range h
    else if between 0x06 0x12 h
    then if width_by_range h == 8 then 9 else 1 + 2 * width_by_range h
    else 0

widths_agree :
    all_below 32 (λ h. width_map h == width_by_range h && first_sub_map h == first_by_range h)
    ≡ true
unfolding all_below width_map width_by_range first_sub_map first_by_range
widths_agree = refl

-- For each of the 32 head bytes that WidthMap and FirstSubMap have, WidthMap has the power of two of its
-- group, and FirstSubMap the end of the header that this width makes.
pub width_map-width_by_range :
    (h : ℕ) → h < 32 → (width_map h ≡ width_by_range h) × (first_sub_map h ≡ first_by_range h)
width_map-width_by_range h lt =
    let both = all_below_sound 32 _ h widths_agree lt in
    ((==_iff _ _).0 (and-left _ _ both), (==_iff _ _).0 (and-right _ _ both))
