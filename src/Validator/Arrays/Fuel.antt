-- ===== src/Validator/Arrays/Fuel.antt =====
-- The array checks call `validatePart` on fewer bytes than they were given.
use velocypack.Prelude.{
  ℕ, zero, suc, ◌+◌, ◌-◌, ◌/◌, ◌^◌, ◌≤◌, ◌<◌, ◌≡◌, refl, ap, true, false, arith, ltb, leb, ◌==◌,
  ◌||◌, ◌&&◌, not, between, if◌then◌else◌, ltb→lt, leb→le, ==_iff, and-left, and-right,
}
use native.Mathlib.Nat.{pow-suc}
use velocypack.Result.{Ensures, returned, Ensures-if, Ensures-self, Ensures-bind}
use velocypack.Memory.{Memory}
use velocypack.Common.{read_integer_non_empty}
use velocypack.Slice.{byte_size, sub64, mul64}
use velocypack.Validator.Lengths.{PartValidator, skip_padding}
use velocypack.Validator.Lengths.Accepts.{require-Ensures}
use velocypack.Validator.Lengths.Agree.{
  Agree, same_then, call_then, same_if, below-Ensures, buffer-Ensures,
  read_variable_length_value-Moves, skip_padding-ge,
}
use velocypack.Validator.Arrays.{
  Layout, layout_behind, layout_front, compact_items, equal_items, indexed_items,
  validate_compact_array, validate_unindexed_array, validate_indexed_array, validate_array,
}

pub two_pow_pos : (k : ℕ) → 1 ≤ 2 ^ k
two_pow_pos zero = omega arith
two_pow_pos (suc k) = omega (arith, pow-suc 2 k, two_pow_pos k)

-- The index table begins inside the value, and the first member not in front of it.
abbrev pub Inside : ℕ → ℕ → Layout → Type 0
Inside ptr length layout = (layout.index_table < ptr + length) × (ptr ≤ layout.first_member)

pub layout_behind-Inside :
    (m : Memory) (ptr length size first : ℕ)
    → ptr ≤ first
    → 18 ≤ length
    → Ensures (Inside ptr length) (layout_behind m ptr length size first)
unfolding layout_behind
layout_behind-Inside m ptr length size first low long =
    let nr = read_integer_non_empty m (sub64 (ptr + size) 8) 8 in
    let table = sub64 (sub64 (ptr + size) 8) (mul64 nr 8) in
    Ensures-bind (require-Ensures (not (nr == 0))) λ _ _.
      Ensures-bind (require-Ensures (leb (ptr + 8) table && leb table (ptr + length - 8 - 8)))
        λ _ h. returned (omega (arith, leb→le table (ptr + length - 8 - 8) (and-right _ _ h)), low)

pub layout_front-Inside :
    (m : Memory) (width ptr length size : ℕ)
    → 1 ≤ width
    → 1 ≤ length
    → Ensures (Inside ptr length) (layout_front m width ptr length size)
unfolding layout_front
layout_front-Inside m width ptr length size wide long =
    let nr = read_integer_non_empty m (ptr + 1 + width) width in
    let p0 = ptr + 1 + width + width in
    let full = p0 + (8 - width - width) in
    let e = if ltb (ptr + size) full then ptr + size else full in
    let p = skip_padding (e - p0) m p0 in
    let table = sub64 (ptr + size) (mul64 nr width) in
    Ensures-bind (require-Ensures (not (nr == 0))) λ _ _.
      Ensures-bind (require-Ensures (p == p0 || p == full)) λ _ _.
        Ensures-bind
          (require-Ensures
            (leb (ptr + width + width) table && leb p table && leb table (ptr + length - width)))
          λ _ h. returned (
            omega (arith, leb→le table (ptr + length - width) (and-right _ _ h)),
            omega (arith, skip_padding-ge (e - p0) m p0),
          )

module _ (m : Memory) (recur recur' : PartValidator) (limit : ℕ)
    (agree : Agree recur recur' limit) where
  compact_items-Agree :
      (left e n p : ℕ)
      → e < p + limit
      → compact_items m recur left e n p ≡ compact_items m recur' left e n p
  unfolding compact_items
  compact_items-Agree zero e n p h = refl
  compact_items-Agree (suc left) e n p h = same_then (below-Ensures p e) λ _ inside.
      call_then (agree n p (e - p) true (omega arith)) λ n' _.
        same_then (Ensures-self (byte_size m p))
          λ size _. compact_items-Agree left e n' (p + size) (omega arith)

  equal_items-Agree :
      (left item_size e n p : ℕ)
      → e < p + limit
      → equal_items m recur left item_size e n p ≡ equal_items m recur' left item_size e n p
  unfolding equal_items
  equal_items-Agree zero item_size e n p h = refl
  equal_items-Agree (suc left) item_size e n p h = same_then (below-Ensures p e) λ _ inside.
      call_then (agree n p (e - p) true (omega arith)) λ n' _.
        same_then (Ensures-self (byte_size m p)) λ size _.
          same_then (require-Ensures (size == item_size))
            λ _ _. equal_items-Agree left item_size e n' (p + item_size) (omega arith)

  indexed_items-Agree :
      (rounds ptr width table n a actual : ℕ)
      → table < a + limit
      → indexed_items m recur rounds ptr width table n a actual
        ≡ indexed_items m recur' rounds ptr width table n a actual
  unfolding indexed_items
  indexed_items-Agree zero ptr width table n a actual h = refl
  indexed_items-Agree (suc rounds) ptr width table n a actual h =
      same_if (ltb a table)
        (λ inside.
          call_then (agree n a (table - a) true (omega (arith, ltb→lt a table inside))) λ n' _.
            same_then (require-Ensures _) λ _ _. same_then (Ensures-self (byte_size m a)) λ size _.
              indexed_items-Agree rounds ptr width table n' (a + size) (actual + 1) (omega arith))
        (λ _. refl)

  compact_array-Agree :
      (n ptr length : ℕ)
      → length ≤ limit
      → validate_compact_array m recur n ptr length ≡ validate_compact_array m recur' n ptr length
  unfolding validate_compact_array
  compact_array-Agree n ptr length short = same_then (buffer-Ensures 4 length) λ _ long.
      same_then (read_variable_length_value-Moves false m (ptr + 1) (ptr + 1 + length))
        λ (size, items) forth. same_then (require-Ensures (leb size length && leb 4 size)) λ _ fits.
          same_then (read_variable_length_value-Moves true m (ptr + size - 1) (ptr + size))
            λ (nr, p) back. same_then (require-Ensures (not (nr == 0))) λ _ _.
              compact_items-Agree nr (p + 1) n items (
                omega (
                  arith,
                  leb→le size length (and-left _ _ fits),
                  leb→le 4 size (and-right _ _ fits),
                ))

  unindexed_array-Agree :
      (n ptr length : ℕ)
      → length ≤ limit
      → validate_unindexed_array m recur n ptr length
        ≡ validate_unindexed_array m recur' n ptr length
  unfolding validate_unindexed_array
  unindexed_array-Agree n ptr length short =
      let width = 2 ^ (m ptr - 0x02) in
      let size = read_integer_non_empty m (ptr + 1) width in
      let p0 = ptr + 1 + width in
      let full = p0 + (8 - width) in
      let left = (if ltb (ptr + size) full then ptr + size else full) - p0 in
      let p = skip_padding left m p0 in
      same_then (buffer-Ensures (1 + width + 1) length) λ _ long.
        same_then (require-Ensures (leb size length)) λ _ _.
          same_then (below-Ensures p (ptr + size)) λ _ _.
            same_then (require-Ensures (p == p0 || p == full)) λ _ _.
              let behind : ptr < p = omega (arith, skip_padding-ge left m p0) in
              call_then (agree n p (length - (p - ptr)) true (omega arith)) λ n' _.
                same_then (Ensures-self (byte_size m p)) λ item_size _.
                  same_then (require-Ensures (not (item_size == 0))) λ _ _.
                    same_then (require-Ensures (not ((size - (p - ptr)) / item_size == 0))) λ _ _.
                      equal_items-Agree ((size - (p - ptr)) / item_size - 1) item_size
                        (ptr + length) n' (p + item_size) (omega arith)

  indexed_array-Agree :
      (n ptr length : ℕ)
      → length ≤ limit
      → validate_indexed_array m recur n ptr length ≡ validate_indexed_array m recur' n ptr length
  unfolding validate_indexed_array
  indexed_array-Agree n ptr length short =
      let width = 2 ^ (m ptr - 0x06) in
      let size = read_integer_non_empty m (ptr + 1) width in
      same_then (buffer-Ensures (1 + width + width + 1) length) λ _ long.
        same_then (require-Ensures (leb size length)) λ _ _.
          same_then
            (Ensures-if (m ptr == 0x09)
              (λ nine.
                let wide : width ≡ 8 = ap (λ h. 2 ^ (h - 0x06)) ((==_iff (m ptr) 0x09).0 nine) in
                layout_behind-Inside m ptr length size (ptr + 1 + width) (omega arith)
                  (omega arith))
              (λ _.
                layout_front-Inside m width ptr length size (two_pow_pos (m ptr - 0x06))
                  (omega arith)))
            λ layout (low, high).
              call_then
                (indexed_items-Agree (layout.index_table - layout.first_member) ptr width
                  layout.index_table n layout.first_member 0 (omega arith))
                λ (n', actual) _. refl

  pub array-Agree :
      (n ptr length : ℕ)
      → length ≤ limit
      → validate_array m recur n ptr length ≡ validate_array m recur' n ptr length
  unfolding validate_array
  array-Agree n ptr length short =
      same_if (m ptr == 0x13) (λ _. compact_array-Agree n ptr length short)
        λ _.
          same_if (between 0x02 0x05 (m ptr)) (λ _. unindexed_array-Agree n ptr length short)
            λ _.
              same_if (between 0x06 0x09 (m ptr)) (λ _. indexed_array-Agree n ptr length short)
                λ _. refl
