-- ===== src/Validator/Arrays/Nesting.antt =====
-- The array checks leave the nesting level as they found it, if `validatePart` does.
use velocypack.Prelude.{
  ℕ, zero, suc, ◌+◌, ◌-◌, ◌<◌, ◌^◌, ◌≡◌, refl, Bool, true, ltb, false, between, ◌==◌, leb, not,
  ◌&&◌, ◌||◌, ◌/◌, if◌then◌else◌,
}
use mathlib.Core.Path.{subst}
use velocypack.Result.{
  Result, Ensures, returned, lost, Ensures-if, Ensures-bind, Ensures-self, ◌>>=◌,
}
use velocypack.Memory.{Memory}
use velocypack.Slice.{byte_size}
use velocypack.Validator.Lengths.{
  PartValidator, require, validate_buffer_length, read_variable_length_value, skip_padding,
}
use velocypack.Common.{read_integer_non_empty}
use velocypack.Validator.Arrays.{
  layout_front, layout_behind, compact_items, equal_items, indexed_items, validate_compact_array,
  validate_unindexed_array, validate_indexed_array, validate_array,
}

-- The run returns the nesting level that it was given.
abbrev pub Returns : ℕ → Result ℕ → Type 0
Returns n r = Ensures (λ n'. n' ≡ n) r

-- So does every call of `validatePart` at a level that is a uint32_t.
abbrev pub Keeps : PartValidator → Type 0
Keeps recur = (n ptr len : ℕ) (sub : Bool) → n < 2 ^ 32 → Returns n (recur n ptr len sub)

pub any_then {ℓ} :
    {A : Type ℓ} {n : ℕ} (r : Result A) {f : A → Result ℕ}
    → ((a : A) → Returns n (f a))
    → Returns n (r >>= f)
any_then r k = Ensures-bind (Ensures-self r) (λ a _. k a)

-- A call of `validatePart` in front of a run from the level that the call returns.
pub part_then :
    {n : ℕ} {r : Result ℕ} {f : ℕ → Result ℕ}
    → Returns n r
    → ((n' : ℕ) → n' ≡ n → Returns n' (f n'))
    → Returns n (r >>= f)
part_then {f} h k = Ensures-bind h (λ n' e. subst (λ l. Returns l (f n')) e (k n' e))

module _ (m : Memory) (recur : PartValidator) (keep : Keeps recur) where
  compact_items-Returns :
      (left e n p : ℕ) → n < 2 ^ 32 → Returns n (compact_items m recur left e n p)
  unfolding compact_items
  compact_items-Returns zero e n p b = returned refl
  compact_items-Returns (suc left) e n p b = any_then (require (ltb p e)) λ _.
      part_then (keep n p (e - p) true b)
        λ n' q. any_then (byte_size m p) λ size. compact_items-Returns left e n' (p + size) (rw q b)

  equal_items-Returns :
      (left item e n p : ℕ) → n < 2 ^ 32 → Returns n (equal_items m recur left item e n p)
  unfolding equal_items
  equal_items-Returns zero item e n p b = returned refl
  equal_items-Returns (suc left) item e n p b = any_then (require (ltb p e)) λ _.
      part_then (keep n p (e - p) true b) λ n' q. any_then (byte_size m p) λ size.
        any_then (require (size == item))
          λ _. equal_items-Returns left item e n' (p + item) (rw q b)

  -- The same of a run that returns a count besides.
  indexed_items-Returns :
      (rounds ptr width table n member actual : ℕ)
      → n < 2 ^ 32
      → Ensures (λ (n', _). n' ≡ n) (indexed_items m recur rounds ptr width table n member actual)
  unfolding indexed_items
  indexed_items-Returns zero ptr width table n member actual b =
      Ensures-if (ltb member table) (λ _. lost) (λ _. returned refl)
  indexed_items-Returns (suc rounds) ptr width table n member actual b =
      Ensures-if (ltb member table)
        (λ _. Ensures-bind (keep n member (table - member) true b) λ n' q.
          Ensures-bind (Ensures-self (require _)) λ _ _.
            Ensures-bind (Ensures-self (byte_size m member)) λ size _.
              subst
                (λ l.
                  Ensures (λ (n'', _). n'' ≡ l)
                    (indexed_items m recur rounds ptr width table n' (member + size) (actual + 1)))
                q
                (indexed_items-Returns rounds ptr width table n' (member + size) (actual + 1)
                  (rw q b)))
        (λ _. returned refl)

  compact_array-Returns :
      (n ptr len : ℕ) → n < 2 ^ 32 → Returns n (validate_compact_array m recur n ptr len)
  unfolding validate_compact_array
  compact_array-Returns n ptr len b = any_then (validate_buffer_length 4 len true) λ _.
      any_then (read_variable_length_value false m (ptr + 1) (ptr + 1 + len)) λ (size, items).
        any_then (require (leb size len && leb 4 size)) λ _.
          any_then (read_variable_length_value true m (ptr + size - 1) (ptr + size)) λ (nr, p).
            any_then (require (not (nr == 0))) λ _. compact_items-Returns nr (p + 1) n items b

  indexed_array-Returns :
      (n ptr len : ℕ) → n < 2 ^ 32 → Returns n (validate_indexed_array m recur n ptr len)
  unfolding validate_indexed_array
  indexed_array-Returns n ptr len b =
      let width = 2 ^ (m ptr - 0x06) in
      let size = read_integer_non_empty m (ptr + 1) width in
      any_then (validate_buffer_length (1 + width + width + 1) len true) λ _.
        any_then (require (leb size len)) λ _.
          any_then
            (if m ptr == 0x09
              then layout_behind m ptr len size (ptr + 1 + width)
              else layout_front m width ptr len size)
            λ layout.
              Ensures-bind
                (indexed_items-Returns (layout.index_table - layout.first_member) ptr width
                  layout.index_table n layout.first_member 0 b)
                λ (n', actual) q. any_then (require (actual == layout.nr_items)) λ _. returned q

  unindexed_array-Returns :
      (n ptr len : ℕ) → n < 2 ^ 32 → Returns n (validate_unindexed_array m recur n ptr len)
  unfolding validate_unindexed_array
  unindexed_array-Returns n ptr len b =
      let width = 2 ^ (m ptr - 0x02) in
      let size = read_integer_non_empty m (ptr + 1) width in
      let p0 = ptr + 1 + width in
      let full = p0 + (8 - width) in
      let p = skip_padding ((if ltb (ptr + size) full then ptr + size else full) - p0) m p0 in
      any_then (validate_buffer_length (1 + width + 1) len true) λ _.
        any_then (require (leb size len)) λ _. any_then (require (ltb p (ptr + size))) λ _.
          any_then (require (p == p0 || p == full)) λ _.
            part_then (keep n p (len - (p - ptr)) true b) λ n' q. any_then (byte_size m p) λ item.
              let nr = (size - (p - ptr)) / item in
              any_then (require (not (item == 0))) λ _.
                any_then (require (not (nr == 0)))
                  λ _. equal_items-Returns (nr - 1) item (ptr + len) n' (p + item) (rw q b)

  pub validate_array-Returns :
      (n ptr len : ℕ) → n < 2 ^ 32 → Returns n (validate_array m recur n ptr len)
  unfolding validate_array
  validate_array-Returns n ptr len b =
      Ensures-if (m ptr == 0x13) (λ _. compact_array-Returns n ptr len b)
        λ _.
          Ensures-if (between 0x02 0x05 (m ptr)) (λ _. unindexed_array-Returns n ptr len b)
            λ _.
              Ensures-if (between 0x06 0x09 (m ptr)) (λ _. indexed_array-Returns n ptr len b)
                λ _. returned refl
