-- ===== src/Validator/Objects/Fuel.antt =====
-- The object checks call `validatePart` on fewer bytes than they were given.
use velocypack.Prelude.{
  ℕ, zero, suc, ◌+◌, ◌-◌, ◌^◌, ◌≤◌, ◌<◌, ◌≡◌, refl, ap, true, false, arith, ltb, leb, ◌==◌, ◌||◌,
  ◌&&◌, not, between, if◌then◌else◌, ltb→lt, leb→le, ==_iff, and-left, and-right, List, length, [],
  Bool-cases, inl, inr,
}
use velocypack.Result.{Ensures-if, Ensures-self}
use velocypack.Options.{Options}
use velocypack.Memory.{Memory}
use velocypack.Common.{read_integer_non_empty}
use velocypack.Slice.{byte_size, sub64, is_string}
use velocypack.Validator.Lengths.{PartValidator}
use velocypack.Validator.Lengths.Accepts.{require-Ensures}
use velocypack.Validator.Lengths.Agree.{
  Agree, Sized, same_then, call_then, same_if, below-Ensures, buffer-Ensures,
  read_variable_length_value-Moves,
}
use velocypack.Validator.Arrays.Fuel.{layout_behind-Inside, layout_front-Inside, two_pow_pos}
use velocypack.Validator.Objects.{
  validate_key_type, validate_key_again, compact_pairs, indexed_pairs, record_offset,
  validate_compact_object, validate_indexed_object, validate_object,
}

-- The pointers that a compact object subtracts do not wrap.
sub64-le : (a b : ℕ) → b ≤ a → sub64 a b ≤ a - b
sub64-le a b h = omega arith

-- `byteSizeLength` of an indexed object.
abbrev width_of : ℕ → ℕ
width_of head = if leb 0x0f head then 2 ^ (head - 0x0f) else 2 ^ (head - 0x0b)

width_of-eight : (head : ℕ) → (head == 0x0e || head == 0x12) ≡ true → width_of head ≡ 8
width_of-eight head h = elim (Bool-cases (head == 0x0e)) [
  | inl e ↦ ap width_of ((==_iff head 0x0e).0 e)
  | inr n ↦ ap width_of ((==_iff head 0x12).0 (rw n at h))
]

width_of-pos : (head : ℕ) → 1 ≤ width_of head
width_of-pos head = ground (arith, two_pow_pos (head - 0x0f), two_pow_pos (head - 0x0b))

module _ (opts : Options) (m : Memory) (recur recur' : PartValidator) (limit : ℕ)
    (agree : Agree recur recur' limit) (sized : Sized m recur) where
  key_again-Agree :
      (n key key_size : ℕ)
      → key_size < limit
      → validate_key_again opts m recur n key key_size
        ≡ validate_key_again opts m recur' n key key_size
  unfolding validate_key_again
  key_again-Agree n key key_size h =
      same_if (is_string m key && opts.validate_utf8_strings) (λ _. agree n key key_size true h)
        (λ _. refl)

  compact_pairs-Agree :
      (left e n p : ℕ)
      → e < p + limit
      → compact_pairs opts m recur left e n p ≡ compact_pairs opts m recur' left e n p
  unfolding compact_pairs
  compact_pairs-Agree zero e n p h = refl
  compact_pairs-Agree (suc left) e n p h = same_then (below-Ensures p e) λ _ inside.
      call_then (agree n p (e - p) true (omega arith)) λ n1 accepted.
        same_then (Ensures-self (validate_key_type opts m p)) λ _ _.
          same_then (Ensures-self (byte_size m p)) λ key_size known.
            let fits : key_size ≤ e - p = sized n p (e - p) n1 key_size accepted known in
            call_then (key_again-Agree n1 p key_size (omega arith)) λ n2 _.
              call_then
                (agree n2 (p + key_size) (sub64 e (p + key_size)) true
                  (omega (arith, sub64-le e (p + key_size) (omega arith))))
                λ n3 _. same_then (Ensures-self (byte_size m (p + key_size))) λ value_size _.
                  compact_pairs-Agree left e n3 (p + key_size + value_size) (omega arith)

  indexed_pairs-Agree :
      (rounds ptr nr table n a : ℕ) (offsets : List ℕ)
      → table < a + limit
      → indexed_pairs opts m recur rounds ptr nr table n a offsets
        ≡ indexed_pairs opts m recur' rounds ptr nr table n a offsets
  unfolding indexed_pairs
  indexed_pairs-Agree zero ptr nr table n a offsets h = refl
  indexed_pairs-Agree (suc rounds) ptr nr table n a offsets h =
      same_if (ltb a table)
        (λ inside.
          let lt = ltb→lt a table inside in
          call_then (agree n a (table - a) true (omega arith)) λ n1 accepted.
            same_then (Ensures-self (validate_key_type opts m a)) λ _ _.
              same_then (Ensures-self (byte_size m a)) λ key_size known.
                let fits : key_size ≤ table - a =
                  sized n a (table - a) n1 key_size accepted known in
                call_then (key_again-Agree n1 a key_size (omega arith)) λ n2 _.
                  same_then (below-Ensures (a + key_size) table) λ _ value_inside.
                    call_then (agree n2 (a + key_size) (table - (a + key_size)) true (omega arith))
                      λ n3 _.
                        same_then (Ensures-self (record_offset nr offsets (a - ptr))) λ offsets' _.
                          same_then (Ensures-self (byte_size m (a + key_size))) λ value_size _.
                            same_then (require-Ensures (leb (length offsets') nr)) λ _ _.
                              indexed_pairs-Agree rounds ptr nr table n3 (a + key_size + value_size)
                                offsets' (omega arith))
        (λ _. refl)

  compact_object-Agree :
      (n ptr length : ℕ)
      → length ≤ limit
      → validate_compact_object opts m recur n ptr length
        ≡ validate_compact_object opts m recur' n ptr length
  unfolding validate_compact_object
  compact_object-Agree n ptr length short = same_then (buffer-Ensures 5 length) λ _ long.
      same_then (read_variable_length_value-Moves false m (ptr + 1) (ptr + 1 + length))
        λ (size, pairs) forth. same_then (require-Ensures (leb size length && leb 5 size)) λ _ fits.
          same_then (read_variable_length_value-Moves true m (ptr + size - 1) (ptr + size))
            λ (nr, p) back. same_then (require-Ensures (not (nr == 0))) λ _ _.
              call_then
                (compact_pairs-Agree nr (p + 1) n pairs (
                  omega (
                    arith,
                    leb→le size length (and-left _ _ fits),
                    leb→le 5 size (and-right _ _ fits),
                  )))
                λ (n', behind) _. refl

  indexed_object-Agree :
      (n ptr length : ℕ)
      → length ≤ limit
      → validate_indexed_object opts m recur n ptr length
        ≡ validate_indexed_object opts m recur' n ptr length
  unfolding validate_indexed_object
  indexed_object-Agree n ptr length short =
      let width = width_of (m ptr) in
      let size = read_integer_non_empty m (ptr + 1) width in
      same_then (buffer-Ensures (1 + width + width + 1) length) λ _ long.
        same_then (require-Ensures (leb size length)) λ _ _.
          same_then
            (Ensures-if (m ptr == 0x0e || m ptr == 0x12)
              (λ last.
                layout_behind-Inside m ptr length size (ptr + size) (omega arith)
                  (omega (arith, width_of-eight (m ptr) last)))
              (λ _.
                layout_front-Inside m width ptr length size (width_of-pos (m ptr)) (omega arith)))
            λ layout (low, high).
              call_then
                (indexed_pairs-Agree (layout.nr_items + 1) ptr layout.nr_items layout.index_table n
                  layout.first_member [] (omega arith))
                λ (n', offsets) _. refl

  pub object-Agree :
      (n ptr length : ℕ)
      → length ≤ limit
      → validate_object opts m recur n ptr length ≡ validate_object opts m recur' n ptr length
  unfolding validate_object
  object-Agree n ptr length short =
      same_if (m ptr == 0x14) (λ _. compact_object-Agree n ptr length short)
        λ _.
          same_if (between 0x0b 0x12 (m ptr)) (λ _. indexed_object-Agree n ptr length short)
            λ _. refl
