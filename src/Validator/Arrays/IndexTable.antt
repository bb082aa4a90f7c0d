-- ===== src/Validator/Arrays/IndexTable.antt =====
-- An accepted indexed array: its index table has the offsets of the members that follow one another.
use velocypack.Prelude.{
  ℕ, zero, suc, ◌+◌, ◌-◌, ◌*◌, ◌<◌, ◌≤◌, ◌^◌, ◌≡◌, ap, ◌∙◌, true, arith, ltb, leb, ◌==◌, ==_iff,
  ltb→lt, ltb→ge, if◌then◌else◌,
}
use mathlib.Core.Path.{subst}
use velocypack.Result.{
  Result, ok, Ensures, returned, lost, Ensures-if, Ensures-bind, Ensures-self, Ensures-ok,
  Ensures-weaken,
}
use velocypack.Memory.{Memory}
use velocypack.Common.{read_integer_non_empty}
use velocypack.Slice.{byte_size}
use velocypack.Validator.Lengths.{PartValidator, validate_buffer_length}
use velocypack.Validator.Lengths.Accepts.{require-Ensures}
use velocypack.Validator.Arrays.{
  Layout, layout_behind, layout_front, indexed_items, validate_indexed_array,
}

-- From address `a` on, `count` members that `recur` has accepted follow one another up to the index
-- table, and entry `index` of the table and those behind it have their offsets from `ptr`.
pub data Members (m : Memory) (recur : PartValidator) (ptr width table : ℕ)
    : ℕ → ℕ → ℕ → Type 0 where
  last : {index a : ℕ} → table ≤ a → Members m recur ptr width table index 0 a
  member :
      {index count a size n n' : ℕ}
      → a < table
      → recur n a (table - a) true ≡ ok n'
      → read_integer_non_empty m (table + index * width) width ≡ a - ptr
      → byte_size m a ≡ ok size
      → Members m recur ptr width table (index + 1) count (a + size)
      → Members m recur ptr width table index (suc count) a

-- The count behind the loop, less the count before it.
Walk : Memory → PartValidator → ℕ → ℕ → ℕ → ℕ → ℕ → ℕ → Type 0
Walk m recur ptr width table index a total =
    (count : ℕ) × (total ≡ index + count) × Members m recur ptr width table index count a

-- The header of an indexed array, as its head byte says.
unfoldable pub layout_of : Memory → ℕ → ℕ → Result Layout
layout_of m ptr length =
    let width = 2 ^ (m ptr - 0x06) in
    let size = read_integer_non_empty m (ptr + 1) width in
    if m ptr == 0x09
    then layout_behind m ptr length size (ptr + 1 + width)
    else layout_front m width ptr length size

module _ (m : Memory) (recur : PartValidator) (ptr width table : ℕ) where
  indexed_items-Walk :
      (rounds n a actual : ℕ)
      → Ensures
          (λ (_, total). Walk m recur ptr width table actual a total)
          (indexed_items m recur rounds ptr width table n a actual)
  unfolding indexed_items Walk
  indexed_items-Walk zero n a actual =
      Ensures-if (ltb a table) (λ _. lost) (λ e. returned (0, omega arith, last (ltb→ge a table e)))
  indexed_items-Walk (suc rounds) n a actual =
      Ensures-if (ltb a table)
        (λ inside. Ensures-bind (Ensures-self (recur n a (table - a) true)) λ n' accepted.
          Ensures-bind (require-Ensures _) λ _ entry.
            Ensures-bind (Ensures-self (byte_size m a)) λ size e.
              Ensures-weaken (indexed_items-Walk rounds n' (a + size) (actual + 1))
                λ (_, total) (count, sum, rest). (
                  suc count,
                  omega arith,
                  member (ltb→lt a table inside) accepted ((==_iff _ _).0 entry) e rest,
                ))
        (λ e. returned (0, omega arith, last (ltb→ge a table e)))

  -- Each of the members has its entry.
  pub Members-entry :
      (index count a i : ℕ)
      → Members m recur ptr width table index count a
      → i < count
      → (b : ℕ) × (read_integer_non_empty m (table + (index + i) * width) width ≡ b - ptr)
        × (a ≤ b)
        × (b < table)
        × (n : ℕ) × (n' : ℕ) × (recur n b (table - b) true ≡ ok n')
  Members-entry index zero a i w lt = absurd (omega arith)
  Members-entry index (suc count) a zero (member {n} {n'} inside accepted entry e rest) lt = (
    a,
    ap (λ k. read_integer_non_empty m (table + k * width) width) (omega arith) ∙ entry,
    omega arith,
    inside,
    n,
    n',
    accepted,
  )
  Members-entry index (suc count) a (suc i) (member {size} inside accepted entry e rest) lt =
      let (b, entry', low, high, n, n', accepted') =
        Members-entry (index + 1) count (a + size) i rest (omega arith) in
      (
        b,
        ap (λ k. read_integer_non_empty m (table + k * width) width) (omega arith) ∙ entry',
        omega arith,
        high,
        n,
        n',
        accepted',
      )

-- The header and the members of an indexed array.
abbrev pub Found : Memory → PartValidator → ℕ → ℕ → Type 0
Found m recur ptr length =
    (layout : Layout) × (layout_of m ptr length ≡ ok layout)
    × Members m recur ptr (2 ^ (m ptr - 0x06)) layout.index_table 0 layout.nr_items
        layout.first_member

-- An accepted array with an index table has as many members as it says, one behind the other.
pub validate_indexed_array-Members :
    (m : Memory) (recur : PartValidator) (nesting ptr length : ℕ) {nesting' : ℕ}
    → validate_indexed_array m recur nesting ptr length ≡ ok nesting'
    → Found m recur ptr length
unfolding validate_indexed_array layout_of Walk
validate_indexed_array-Members m recur nesting ptr length h =
    let width = 2 ^ (m ptr - 0x06) in
    Ensures-ok {P = λ _. Found m recur ptr length}
      (Ensures-bind (Ensures-self (validate_buffer_length (1 + width + width + 1) length true))
        λ _ _.
          Ensures-bind (require-Ensures (leb (read_integer_non_empty m (ptr + 1) width) length))
            λ _ _. Ensures-bind (Ensures-self (layout_of m ptr length)) λ layout e.
              Ensures-bind
                (indexed_items-Walk m recur ptr width layout.index_table
                  (layout.index_table - layout.first_member) nesting layout.first_member 0)
                λ (_, actual) (count, sum, members).
                  Ensures-bind (require-Ensures (actual == layout.nr_items)) λ _ same. returned (
                    layout,
                    e,
                    subst
                        (λ k. Members m recur ptr width layout.index_table 0 k layout.first_member)
                        (omega (arith, sum, (==_iff actual layout.nr_items).0 same)) members,
                  ))
      h
