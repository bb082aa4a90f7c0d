-- ===== src/Validator/Objects/Nesting.antt =====
-- The object checks leave the nesting level as they found it, if `validatePart` does.
use mathlib.Core.Path.{subst}
use velocypack.Prelude.{
  ℕ, zero, suc, ◌+◌, ◌-◌, ◌<◌, ◌^◌, ◌≡◌, refl, true, ltb, between, false, ◌==◌, leb, not, ◌&&◌,
  ◌||◌, if◌then◌else◌, length, List, [],
}
use velocypack.Result.{
  Result, Ensures, returned, lost, Ensures-if, Ensures-bind, Ensures-self, ◌>>=◌,
}
use velocypack.Options.{Options}
use velocypack.Memory.{Memory}
use velocypack.Slice.{byte_size, sub64, is_string}
use velocypack.Common.{read_integer_non_empty}
use velocypack.Validator.Lengths.{
  PartValidator, require, validate_buffer_length, read_variable_length_value,
}
use velocypack.Validator.Arrays.{layout_front, layout_behind}
use velocypack.Validator.Arrays.Nesting.{Returns, Keeps, any_then}
use velocypack.Validator.Objects.{
  count_offsets, record_offset, check_index_table, validate_key_type, validate_key_again,
  compact_pairs, validate_compact_object, indexed_pairs, validate_indexed_object, validate_object,
}

-- The level in front of the other results of a run.
abbrev Levels : {A : Type 0} → ℕ → Result (ℕ × A) → Type 0
Levels n r = Ensures (λ (n', _). n' ≡ n) r

pass {ℓ} :
    {A : Type ℓ} {B : Type 0} {n : ℕ} (r : Result A) {f : A → Result (ℕ × B)}
    → ((a : A) → Levels n (f a))
    → Levels n (r >>= f)
pass r k = Ensures-bind (Ensures-self r) (λ a _. k a)

level_then :
    {B : Type 0} {n : ℕ} {r : Result ℕ} {f : ℕ → Result (ℕ × B)}
    → Returns n r
    → ((n' : ℕ) → n' ≡ n → Levels n' (f n'))
    → Levels n (r >>= f)
level_then {f} h k = Ensures-bind h (λ n' e. subst (λ l. Levels l (f n')) e (k n' e))

module _ (opts : Options) (m : Memory) (recur : PartValidator) (keep : Keeps recur) where
  key_again-Returns :
      (n key size : ℕ) → n < 2 ^ 32 → Returns n (validate_key_again opts m recur n key size)
  unfolding validate_key_again
  key_again-Returns n key size b =
      Ensures-if (is_string m key && opts.validate_utf8_strings) (λ _. keep n key size true b)
        (λ _. returned refl)

  compact_pairs-Levels :
      (left e n p : ℕ) → n < 2 ^ 32 → Levels n (compact_pairs opts m recur left e n p)
  unfolding compact_pairs
  compact_pairs-Levels zero e n p b = returned refl
  compact_pairs-Levels (suc left) e n p b = pass (require (ltb p e)) λ _.
      level_then (keep n p (e - p) true b) λ n1 q1. pass (validate_key_type opts m p) λ _.
        pass (byte_size m p) λ size. level_then (key_again-Returns n1 p size (rw q1 b)) λ n2 q2.
          level_then (keep n2 (p + size) (sub64 e (p + size)) true (rw (q2, q1) b)) λ n3 q3.
            pass (byte_size m (p + size)) λ value_size.
              compact_pairs-Levels left e n3 (p + size + value_size) (rw (q3, q2, q1) b)

  indexed_pairs-Levels :
      (rounds ptr nr table n member : ℕ) (offsets : List ℕ)
      → n < 2 ^ 32
      → Levels n (indexed_pairs opts m recur rounds ptr nr table n member offsets)
  unfolding indexed_pairs
  indexed_pairs-Levels zero ptr nr table n member offsets b =
      Ensures-if (ltb member table) (λ _. lost) (λ _. returned refl)
  indexed_pairs-Levels (suc rounds) ptr nr table n member offsets b =
      Ensures-if (ltb member table)
        (λ _. level_then (keep n member (table - member) true b) λ n1 q1.
          pass (validate_key_type opts m member) λ _. pass (byte_size m member) λ size.
            level_then (key_again-Returns n1 member size (rw q1 b)) λ n2 q2.
              pass (require (ltb (member + size) table)) λ _.
                level_then (keep n2 (member + size) (table - (member + size)) true (rw (q2, q1) b))
                  λ n3 q3. pass (record_offset nr offsets (member - ptr)) λ offsets'.
                    pass (byte_size m (member + size)) λ value_size.
                      pass (require (leb (length offsets') nr)) λ _.
                        indexed_pairs-Levels rounds ptr nr table n3 (member + size + value_size)
                          offsets' (rw (q3, q2, q1) b))
        (λ _. returned refl)

  compact_object-Returns :
      (n ptr len : ℕ) → n < 2 ^ 32 → Returns n (validate_compact_object opts m recur n ptr len)
  unfolding validate_compact_object
  compact_object-Returns n ptr len b = any_then (validate_buffer_length 5 len true) λ _.
      any_then (read_variable_length_value false m (ptr + 1) (ptr + 1 + len)) λ (size, pairs).
        any_then (require (leb size len && leb 5 size)) λ _.
          any_then (read_variable_length_value true m (ptr + size - 1) (ptr + size)) λ (nr, p).
            any_then (require (not (nr == 0))) λ _.
              Ensures-bind (compact_pairs-Levels nr (p + 1) n pairs b)
                λ (n', behind) q. any_then (require (behind == p + 1)) λ _. returned q

  indexed_object-Returns :
      (n ptr len : ℕ) → n < 2 ^ 32 → Returns n (validate_indexed_object opts m recur n ptr len)
  unfolding validate_indexed_object
  indexed_object-Returns n ptr len b =
      let head = m ptr in
      let width = (if leb 0x0f head then 2 ^ (head - 0x0f) else 2 ^ (head - 0x0b)) in
      let size = read_integer_non_empty m (ptr + 1) width in
      any_then (validate_buffer_length (1 + width + width + 1) len true) λ _.
        any_then (require (leb size len)) λ _.
          any_then
            (if head == 0x0e || head == 0x12
              then layout_behind m ptr len size (ptr + size)
              else layout_front m width ptr len size)
            λ layout.
              Ensures-bind
                (indexed_pairs-Levels (layout.nr_items + 1) ptr layout.nr_items layout.index_table n
                  layout.first_member [] b)
                λ (n', offsets) q.
                  any_then (require (leb layout.nr_items (count_offsets offsets))) λ _.
                    any_then
                      (check_index_table opts m layout.nr_items layout.index_table width offsets
                        layout.nr_items 0)
                      λ _. returned q

  pub validate_object-Returns :
      (n ptr len : ℕ) → n < 2 ^ 32 → Returns n (validate_object opts m recur n ptr len)
  unfolding validate_object
  validate_object-Returns n ptr len b =
      Ensures-if (m ptr == 0x14) (λ _. compact_object-Returns n ptr len b)
        λ _.
          Ensures-if (between 0x0b 0x12 (m ptr)) (λ _. indexed_object-Returns n ptr len b)
            λ _. returned refl
