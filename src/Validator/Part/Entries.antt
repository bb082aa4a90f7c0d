-- ===== src/Validator/Part/Entries.antt =====
-- Arrays with an index table that the whole validator has accepted.
use velocypack.Prelude.{ℕ, ◌+◌, ◌*◌, ◌-◌, ◌≤◌, ◌<◌, ◌^◌, ◌≡◌, ◌∙◌, ap, true, arith}
use mathlib.Core.Path.{subst}
use velocypack.Result.{ok}
use velocypack.Options.{Options}
use velocypack.Memory.{Memory}
use velocypack.Common.{read_integer_non_empty}
use velocypack.Slice.{byte_size}
use velocypack.Validator.Arrays.{Layout, validate_indexed_array}
use velocypack.Validator.Arrays.IndexTable.{
  layout_of, Members, Members-entry, validate_indexed_array-Members,
}
use velocypack.Validator.Part.{validate_part}
use velocypack.Validator.Part.Bounds.{validate_part_size}

-- Each entry of the index table of an accepted array, whose header is `layout`, is the offset of a value
-- that begins at the first member or behind it and ends in front of the table.
pub validate_indexed_array-entries :
    (fuel : ℕ) (opts : Options) (m : Memory) (nesting ptr length nesting' i : ℕ) (layout : Layout)
    → validate_indexed_array m (validate_part fuel opts m) nesting ptr length ≡ ok nesting'
    → layout_of m ptr length ≡ ok layout
    → i < layout.nr_items
    → (b : ℕ) × (size : ℕ) × (read_integer_non_empty m
          (layout.index_table + i * 2 ^ (m ptr - 0x06))
          (2 ^ (m ptr - 0x06))
        ≡ b - ptr)
      × (layout.first_member ≤ b)
      × (byte_size m b ≡ ok size)
      × (b + size ≤ layout.index_table)
validate_indexed_array-entries fuel opts m nesting ptr length nesting' i layout h e lt =
    let recur = validate_part fuel opts m in
    let (layout', e', found) = validate_indexed_array-Members m recur nesting ptr length h in
    let same : layout' ≡ layout = cc in
    let members =
      subst
        (λ (l : Layout).
          Members m recur ptr (2 ^ (m ptr - 0x06)) l.index_table 0 l.nr_items l.first_member)
        same found in
    let (b, entry, low, high, n, n', accepted) =
      Members-entry m recur ptr (2 ^ (m ptr - 0x06)) layout.index_table 0 layout.nr_items
        layout.first_member i members lt in
    let (size, known, fits, either) =
      validate_part_size fuel opts m n b (layout.index_table - b) true accepted in
    (
      b,
      size,
      ap
            (λ k.
              read_integer_non_empty m (layout.index_table + k * 2 ^ (m ptr - 0x06))
                (2 ^ (m ptr - 0x06)))
            (omega arith)
          ∙ entry,
      low,
      known,
      omega arith,
    )
