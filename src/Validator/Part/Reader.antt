-- ===== src/Validator/Part/Reader.antt =====
-- `at` on an array with an index table that the validator has accepted.
use velocypack.Prelude.{
  ℕ, zero, suc, ◌+◌, ◌*◌, ◌-◌, ◌≤◌, ◌<◌, ◌^◌, ◌≡◌, ◌∙◌, sym, refl, ap, true, false, arith, ltb, leb,
  ◌==◌, ==_iff, ◌&&◌, ◌||◌, not, between, if◌then◌else◌, and-left, and-right, leb→le, all_below,
  all_below_sound,
}
use velocypack.ValueType.{eq, array}
use velocypack.Result.{
  ok, Ensures, returned, Ensures-bind, Ensures-self, Ensures-ok, Ensures-weaken,
}
use velocypack.Options.{Options}
use velocypack.Memory.{Memory, IsByteMemory}
use velocypack.SliceStaticData.{width_map, type_map}
use velocypack.Common.{read_integer_non_empty}
use velocypack.Common.Integers.LittleEndian.{read_integer_non_empty-lt}
use velocypack.Slice.{
  byte_size, at, get_nth_offset, get_nth_offset_regular, nth_by_table, stored_length,
  index_entry_size, sub64, mul64, add64, is_array,
}
use velocypack.Validator.Lengths.{PartValidator, validate_buffer_length, skip_padding}
use velocypack.Validator.Lengths.Accepts.{require-Ensures}
use velocypack.Validator.Lengths.Agree.{skip_padding-ge}
use velocypack.Validator.Arrays.{Layout, layout_front, validate_indexed_array}
use velocypack.Validator.Arrays.Fuel.{two_pow_pos}
use velocypack.Validator.Arrays.IndexTable.{layout_of}
use velocypack.Validator.Part.{validate_part}
use velocypack.Validator.Part.Entries.{validate_indexed_array-entries}

-- The reader's and the validator's addresses of an entry `j` bytes into a table of `q` bytes.
entry_place :
    (ptr size length q j : ℕ)
    → q < 2 ^ 35
    → j ≤ q
    → size ≤ length
    → ptr + length < 2 ^ 63
    → ptr ≤ sub64 (ptr + size) q
    → sub64 (ptr + size) q ≤ ptr + length
    → ptr + sub64 (add64 (sub64 size q) j) 0 ≡ sub64 (ptr + size) q + j
entry_place ptr size length q j a b c d e f = omega arith

head_test :
    all_below 3 (λ k.
      width_map (6 + k) == 2 ^ k
      && eq (type_map (6 + k)) array
      && leb (2 ^ k) 4
      && leb (256 ^ 2 ^ k) (2 ^ 32))
    ≡ true
unfolding all_below width_map type_map
head_test = refl

-- The header that `layout_front` accepts.
front_fields :
    (m : Memory) (width ptr length size : ℕ)
    → Ensures
        (λ (layout : Layout).
          (layout.nr_items ≡ read_integer_non_empty m (ptr + 1 + width) width)
          × (layout.index_table ≡ sub64 (ptr + size) (mul64 layout.nr_items width))
          × (ptr ≤ layout.index_table)
          × (layout.index_table ≤ ptr + length)
          × (ptr ≤ layout.first_member))
        (layout_front m width ptr length size)
unfolding layout_front
front_fields m width ptr length size =
    let nr = read_integer_non_empty m (ptr + 1 + width) width in
    let p0 = ptr + 1 + width + width in
    let full = p0 + (8 - width - width) in
    let e = if ltb (ptr + size) full then ptr + size else full in
    let p = skip_padding (e - p0) m p0 in
    let table = sub64 (ptr + size) (mul64 nr width) in
    Ensures-bind (require-Ensures (not (nr == 0))) λ _ _.
      Ensures-bind (require-Ensures (p == p0 || p == full)) λ _ _.
        Ensures-bind
          (require-Ensures
            (leb (ptr + width + width) table && leb p table && leb table (ptr + length - width)))
          λ _ h. returned (
            refl,
            refl,
            omega (arith, leb→le (ptr + width + width) table (and-left _ _ (and-left _ _ h))),
            omega (arith, leb→le table (ptr + length - width) (and-right _ _ h)),
            omega (arith, skip_padding-ge (e - p0) m p0),
          )

accepted_size :
    (m : Memory) (recur : PartValidator) (n ptr length n' : ℕ)
    → validate_indexed_array m recur n ptr length ≡ ok n'
    → read_integer_non_empty m (ptr + 1) (2 ^ (m ptr - 0x06)) ≤ length
unfolding validate_indexed_array
accepted_size m recur n ptr length n' h =
    let width = 2 ^ (m ptr - 0x06) in
    let size = read_integer_non_empty m (ptr + 1) width in
    Ensures-ok {P = λ _. size ≤ length}
      (Ensures-bind (Ensures-self (validate_buffer_length (1 + width + width + 1) length true))
        λ _ _.
          Ensures-bind (require-Ensures (leb size length))
            λ _ fits. Ensures-weaken (Ensures-self _) λ _ _. leb→le size length fits)
      h

array_head : (m : Memory) (s : ℕ) → eq (type_map (m s)) array ≡ true → is_array m s ≡ true
unfolding is_array
array_head m s h = h

-- What `at` reads where there is an index table of at least two entries.
at_table :
    (m : Memory) (ptr i w n : ℕ)
    → is_array m ptr ≡ true
    → between 0x06 0x08 (m ptr) ≡ true
    → width_map (m ptr) ≡ w
    → w ≤ 4
    → n ≡ read_integer_non_empty m (ptr + w + 1) w
    → 2 ≤ n
    → i < n
    → at m ptr i ≡ ok (ptr + nth_by_table m ptr w (read_integer_non_empty m (ptr + 1) w) n i)
unfolding at get_nth_offset get_nth_offset_regular stored_length index_entry_size
at_table m ptr i w n arr heads wide small count two inside =
    let not_compact : (m ptr == 0x13 || m ptr == 0x14) ≡ false = ground arith in
    let not_empty : (m ptr == 0x01 || m ptr == 0x0a) ≡ false = ground arith in
    let indexed : leb (m ptr) 0x05 ≡ false = ground arith in
    let front : ltb w 8 ≡ true = ground arith in
    let bound : leb n i ≡ false = ground arith in
    let several : (n == 1) ≡ false = ground arith in
    rw (arr, not_compact, not_empty, indexed, wide, front, sym count, bound, several) refl

-- The index table of up to 2 ^ 32 entries of up to 4 bytes is smaller than 2 ^ 35 bytes.
table_size : (n i w : ℕ) → w ≤ 4 → n < 2 ^ 32 → i ≤ n → (n * w < 2 ^ 35) × (i * w ≤ n * w)
table_size n i zero a b c = (omega arith, omega arith)
table_size n i (suc zero) a b c = (omega arith, omega arith)
table_size n i (suc (suc zero)) a b c = (omega arith, omega arith)
table_size n i (suc (suc (suc zero))) a b c = (omega arith, omega arith)
table_size n i (suc (suc (suc (suc zero)))) a b c = (omega arith, omega arith)
table_size n i (suc (suc (suc (suc (suc w))))) a b c = absurd (omega arith)

-- The heads 0x06 to 0x08.
head_facts :
    (h : ℕ)
    → between 0x06 0x08 h ≡ true
    → (width_map h ≡ 2 ^ (h - 0x06))
      × (eq (type_map h) array ≡ true)
      × (2 ^ (h - 0x06) ≤ 4)
      × (256 ^ 2 ^ (h - 0x06) ≤ 2 ^ 32)
head_facts h heads =
    let k = h - 0x06 in
    let e : 6 + k ≡ h = ground arith in
    let all = all_below_sound 3 _ k head_test (ground arith) in
    let three = and-left _ _ all in
    let two = and-left _ _ three in
    (
      ap width_map (sym e) ∙ (==_iff _ _).0 (and-left _ _ two),
      ap (λ (j : ℕ). eq (type_map j) array) (sym e) ∙ and-right _ _ two,
      leb→le _ _ (and-right _ _ three),
      leb→le _ _ (and-right _ _ all),
    )

nth_entry :
    (m : Memory) (ptr size length w n i b table : ℕ)
    → w ≤ 4
    → n < 2 ^ 32
    → i < n
    → size ≤ length
    → ptr + length < 2 ^ 63
    → table ≡ sub64 (ptr + size) (mul64 n w)
    → ptr ≤ table
    → table ≤ ptr + length
    → read_integer_non_empty m (table + i * w) w ≡ b - ptr
    → nth_by_table m ptr w size n i ≡ b - ptr
unfolding nth_by_table
nth_entry m ptr size length w n i b table small few inside fits room where_table low high entry =
    let (bound, le) = table_size n i w small few (omega arith) in
    let q : mul64 n w ≡ n * w = omega arith in
    let j : mul64 i w ≡ i * w = omega arith in
    let plain : (w == 8) ≡ false = ground arith in
    let t : sub64 (ptr + size) (n * w) ≡ table =
      ap (λ (x : ℕ). sub64 (ptr + size) x) (sym q) ∙ sym where_table in
    let place : ptr + sub64 (add64 (sub64 size (n * w)) (i * w)) 0 ≡ table + i * w =
      entry_place ptr size length (n * w) (i * w) bound le fits room (rw t low) (rw t high)
      ∙ ap (λ (x : ℕ). x + i * w) t in
    rw (plain, q, j, place) entry

-- In an accepted array with an index table of at least two entries and offsets of at most 4 bytes (heads
-- 0x06 to 0x08), whose header is `layout`, `at` gives for each index a value that begins at the first
-- member or behind it and ends in front of the index table.
pub at-validate_indexed_array :
    (fuel : ℕ) (opts : Options) (m : Memory) (nesting ptr length nesting' i : ℕ) (layout : Layout)
    → IsByteMemory m
    → between 0x06 0x08 (m ptr) ≡ true
    → ptr + length < 2 ^ 63
    → validate_indexed_array m (validate_part fuel opts m) nesting ptr length ≡ ok nesting'
    → layout_of m ptr length ≡ ok layout
    → 2 ≤ layout.nr_items
    → i < layout.nr_items
    → (b : ℕ) × (size : ℕ) × (at m ptr i ≡ ok b)
      × (layout.first_member ≤ b)
      × (byte_size m b ≡ ok size)
      × (b + size ≤ layout.index_table)
unfolding layout_of
at-validate_indexed_array fuel opts m nesting ptr length nesting' i layout bytes heads room h e two
      lt =
    let w = 2 ^ (m ptr - 0x06) in
    let size = read_integer_non_empty m (ptr + 1) w in
    let (wide, arr, small, limit) = head_facts (m ptr) heads in
    let other : (m ptr == 0x09) ≡ false = ground arith in
    let front : layout_front m w ptr length size ≡ ok layout = rw other at e in
    let (count, table, low, high, first) = Ensures-ok (front_fields m w ptr length size) front in
    let fits = accepted_size m (validate_part fuel opts m) nesting ptr length nesting' h in
    let few : layout.nr_items < 2 ^ 32 = omega (
      arith,
      count,
      limit,
      read_integer_non_empty-lt m (ptr + 1 + w) w bytes (two_pow_pos (m ptr - 0x06)) (omega arith),
    ) in
    let (b, value_size, entry, behind, known, ends) =
      validate_indexed_array-entries fuel opts m nesting ptr length nesting' i layout h e lt in
    let nth =
      nth_entry m ptr size length w layout.nr_items i b layout.index_table small few lt fits room
        table low high entry in
    let place : read_integer_non_empty m (ptr + 1 + w) w
        ≡ read_integer_non_empty m (ptr + w + 1) w =
      ap (λ (a : ℕ). read_integer_non_empty m a w) (omega arith) in
    let sum : ptr + nth_by_table m ptr w size layout.nr_items i ≡ b =
      omega (arith, nth, first, behind) in
    let read =
      at_table m ptr i w layout.nr_items (array_head m ptr arr) heads wide small (count ∙ place) two
        lt in
    (b, value_size, read ∙ ap ok sum, behind, known, ends)
