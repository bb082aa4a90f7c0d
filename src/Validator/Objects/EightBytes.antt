-- ===== src/Validator/Objects/EightBytes.antt =====
-- Objects with 8-byte offsets.
use velocypack.Prelude.{
  ℕ, zero, suc, ◌+◌, ◌-◌, ◌^◌, ◌≤◌, ◌<◌, ◌≡◌, ◌≢◌, refl, ap, true, arith, ltb, leb, ◌==◌, ◌||◌,
  ◌&&◌, not, if◌then◌else◌, leb→le, ==_iff, and-right, List, length, [], ◌∷◌, ◌++◌, length-append,
  sym, ◌∙◌, Bool-cases, inl, inr, ltb→lt,
}
use velocypack.Result.{
  ok, Ensures, returned, lost, Ensures-if, Ensures-self, Ensures-bind, Ensures-weaken, Ensures-ok,
}
use velocypack.Options.{Options}
use velocypack.Memory.{Memory}
use velocypack.Common.{read_integer_non_empty}
use velocypack.Slice.{byte_size, sub64, mul64}
use velocypack.Validator.Lengths.{PartValidator, validate_buffer_length}
use velocypack.Validator.Lengths.Accepts.{require-Ensures}
use velocypack.Validator.Arrays.{Layout, layout_behind}
use velocypack.Validator.Objects.{
  validate_key_type, validate_key_again, indexed_pairs, validate_indexed_object, count_offsets,
  record_offset,
}
use velocypack.Validator.Objects.Capacity.{record_offset-append}

-- Where the index table of `nr` entries in front of an object's last 8 bytes begins.
abbrev table_behind : ℕ → ℕ → ℕ
table_behind end nr = sub64 (sub64 end 8) (mul64 nr 8)

-- As many entries as bytes between the end of an object and its index table: there are none.
no_room :
    (end nr limit : ℕ)
    → end ≤ limit
    → limit < 2 ^ 60
    → table_behind end nr ≤ limit
    → nr ≤ table_behind end nr - end
    → nr ≡ 0
no_room end nr limit a b c d = omega arith

-- The header: the members are taken to begin at the end of the object.
Behind : ℕ → ℕ → ℕ → Layout → Type 0
Behind ptr length size layout =
    (layout.nr_items ≢ 0)
    × (layout.first_member ≡ ptr + size)
    × (layout.index_table ≡ table_behind (ptr + size) layout.nr_items)
    × (layout.index_table ≤ ptr + length)

layout_behind-Behind :
    (m : Memory) (ptr length size : ℕ)
    → Ensures (Behind ptr length size) (layout_behind m ptr length size (ptr + size))
unfolding layout_behind Behind
layout_behind-Behind m ptr length size =
    let nr = read_integer_non_empty m (sub64 (ptr + size) 8) 8 in
    let table = table_behind (ptr + size) nr in
    Ensures-bind (require-Ensures (not (nr == 0))) λ _ some_items.
      Ensures-bind (require-Ensures (leb (ptr + 8) table && leb table (ptr + length - 8 - 8)))
        λ _ h. returned (
          (λ e. cc (rw ((==_iff nr 0).1 e) at some_items)),
          refl,
          refl,
          omega (arith, leb→le table (ptr + length - 8 - 8) (and-right _ _ h)),
        )

same_size :
    (m : Memory) (a key_size value_size : ℕ)
    → key_size ≡ 0
    → byte_size m a ≡ ok key_size
    → byte_size m (a + key_size) ≡ ok value_size
    → a + key_size + value_size ≡ a
same_size m a key_size value_size none known known' =
    let place : a + key_size ≡ a = omega arith in
    let both : ok value_size ≡ ok key_size = sym known' ∙ ap (byte_size m) place ∙ known in
    let e : value_size ≡ key_size = cc in omega arith

module _ (opts : Options) (m : Memory) (recur : PartValidator) (ptr nr table : ℕ) where
  -- A pair of no bytes is met again in every round, so the loop does not end by reaching the table.
  indexed_pairs-stuck :
      (rounds n a : ℕ) (offsets : List ℕ)
      → a < table
      → byte_size m a ≡ ok 0
      → Ensures (λ _. ⊥) (indexed_pairs opts m recur rounds ptr nr table n a offsets)
  unfolding indexed_pairs
  indexed_pairs-stuck zero n a offsets inside empty =
      Ensures-if (ltb a table) (λ _. lost) (λ outside. absurd (ground (arith, outside, inside)))
  indexed_pairs-stuck (suc rounds) n a offsets inside empty =
      Ensures-if (ltb a table)
        (λ _. Ensures-bind (Ensures-self (recur n a (table - a) true)) λ n1 _.
          Ensures-bind (Ensures-self (validate_key_type opts m a)) λ _ _.
            Ensures-bind (Ensures-self (byte_size m a)) λ key_size known.
              Ensures-bind (Ensures-self (validate_key_again opts m recur n1 a key_size)) λ n2 _.
                Ensures-bind (require-Ensures (ltb (a + key_size) table)) λ _ _.
                  Ensures-bind
                    (Ensures-self (recur n2 (a + key_size) (table - (a + key_size)) true))
                    λ n3 _.
                      Ensures-bind (Ensures-self (record_offset nr offsets (a - ptr))) λ offsets' _.
                        Ensures-bind (Ensures-self (byte_size m (a + key_size)))
                          λ value_size known'.
                            Ensures-bind (require-Ensures (leb (length offsets') nr)) λ _ _.
                              let sizes : ok key_size ≡ ok 0 = sym known ∙ empty in
                              let none : key_size ≡ 0 = cc in
                              rw (same_size m a key_size value_size none known known')
                                (indexed_pairs-stuck rounds n3 a offsets' inside empty))
        (λ outside. absurd (ground (arith, outside, inside)))

  count_next :
      (rounds n a key_size value_size : ℕ) (offsets offsets' : List ℕ)
      → a < table
      → byte_size m a ≡ ok key_size
      → byte_size m (a + key_size) ≡ ok value_size
      → offsets' ≡ offsets ++ (a - ptr) ∷ []
      → ((a' : ℕ)
          → Ensures
              (λ (_, all). length all ≤ length offsets' + (table - a'))
              (indexed_pairs opts m recur rounds ptr nr table n a' offsets'))
      → Ensures
          (λ (_, all). length all ≤ length offsets + (table - a))
          (indexed_pairs opts m recur rounds ptr nr table n (a + key_size + value_size) offsets')
  count_next rounds n a key_size value_size offsets offsets' inside known known' appended counted =
      elim (Bool-cases (key_size == 0)) [
        | inl empty ↦
            let none : key_size ≡ 0 = (==_iff key_size 0).0 empty in
            rw (same_size m a key_size value_size none known known') (
              Ensures-weaken (indexed_pairs-stuck rounds n a offsets' inside (known ∙ ap ok none))
                (λ _ impossible. absurd impossible))
        | inr some ↦ Ensures-weaken (counted (a + key_size + value_size)) λ (_, all) le. ground (
          arith,
          le,
          some,
          ap (λ (l : List ℕ). length l) appended,
          length-append offsets ((a - ptr) ∷ []),
        )
      ]

  -- A loop that reaches the table has recorded at most one offset a byte.
  indexed_pairs-count :
      (rounds n a : ℕ) (offsets : List ℕ)
      → Ensures
          (λ (_, offsets'). length offsets' ≤ length offsets + (table - a))
          (indexed_pairs opts m recur rounds ptr nr table n a offsets)
  unfolding indexed_pairs
  indexed_pairs-count zero n a offsets =
      Ensures-if (ltb a table) (λ _. lost) (λ _. returned (omega arith))
  indexed_pairs-count (suc rounds) n a offsets =
      Ensures-if (ltb a table)
        (λ inside. Ensures-bind (Ensures-self (recur n a (table - a) true)) λ n1 _.
          Ensures-bind (Ensures-self (validate_key_type opts m a)) λ _ _.
            Ensures-bind (Ensures-self (byte_size m a)) λ key_size known.
              Ensures-bind (Ensures-self (validate_key_again opts m recur n1 a key_size)) λ n2 _.
                Ensures-bind (require-Ensures (ltb (a + key_size) table)) λ _ _.
                  Ensures-bind
                    (Ensures-self (recur n2 (a + key_size) (table - (a + key_size)) true))
                    λ n3 _.
                      Ensures-bind (record_offset-append nr (a - ptr) offsets) λ offsets' appended.
                        Ensures-bind (Ensures-self (byte_size m (a + key_size)))
                          λ value_size known'.
                            Ensures-bind (require-Ensures (leb (length offsets') nr)) λ _ _.
                              count_next rounds n3 a key_size value_size offsets offsets'
                                (ltb→lt a table inside) known known' appended
                                (λ a'. indexed_pairs-count rounds n3 a' offsets'))
        (λ _. returned (omega arith))

-- No object with 8-byte offsets (0x0e) below address 2 ^ 60 is accepted, whatever its bytes are.
pub validate_indexed_object-eight_bytes :
    (opts : Options) (m : Memory) (recur : PartValidator) (n ptr length n' : ℕ)
    → m ptr ≡ 0x0e
    → ptr + length < 2 ^ 60
    → validate_indexed_object opts m recur n ptr length ≢ ok n'
unfolding validate_indexed_object Behind
validate_indexed_object-eight_bytes opts m recur n ptr length n' head low h =
    let width = if leb 0x0f (m ptr) then 2 ^ (m ptr - 0x0f) else 2 ^ (m ptr - 0x0b) in
    let size = read_integer_non_empty m (ptr + 1) width in
    Ensures-ok {P = λ _. ⊥}
      (Ensures-bind (Ensures-self (validate_buffer_length (1 + width + width + 1) length true))
        λ _ _. Ensures-bind (require-Ensures (leb size length)) λ _ fits.
          Ensures-bind
            (Ensures-if {P = Behind ptr length size} (m ptr == 0x0e || m ptr == 0x12)
              (λ _. layout_behind-Behind m ptr length size) (λ other. absurd (ground arith)))
            λ layout (some_items, first, table, inside).
              Ensures-bind
                (indexed_pairs-count opts m recur ptr layout.nr_items layout.index_table
                  (layout.nr_items + 1) n layout.first_member [])
                λ (n1, offsets) few.
                  Ensures-bind (require-Ensures (leb layout.nr_items (count_offsets offsets)))
                    λ _ enough. absurd (
                      some_items (
                        no_room (ptr + size) layout.nr_items (ptr + length)
                          (omega (arith, leb→le size length fits)) low
                          (omega (arith, table, inside))
                          (omega (
                            arith,
                            table,
                            first,
                            few,
                            leb→le layout.nr_items (count_offsets offsets) enough,
                          )))))
      h
