-- ===== src/Validator/Part/Fuel.antt =====
-- The fuel that `validate` gives is enough.
use velocypack.Prelude.{
  ℕ, zero, suc, ◌+◌, ◌-◌, ◌%◌, ◌^◌, ◌≤◌, ◌<◌, ◌≡◌, refl, sym, ◌∙◌, Bool, true, arith, ◌==◌, leb,
  not, ◌&&◌, ◌||◌, if◌then◌else◌,
}
use velocypack.ValueType.{ValueType, array, object, tagged, eq}
use velocypack.Exception.{
  too_deep_nesting, builder_tags_disallowed, validator_invalid_length, validator_invalid_type,
}
use velocypack.Result.{Result, ok, throw_if-Ensures}
use velocypack.Options.{Options}
use velocypack.Memory.{Memory}
use velocypack.Slice.{type_of}
use velocypack.Validator.Lengths.{PartValidator}
use velocypack.Validator.Lengths.Agree.{Agree, Sized, same_then, call_then, same_if, buffer-Ensures}
use velocypack.Validator.Arrays.{validate_array}
use velocypack.Validator.Arrays.Fuel.{array-Agree}
use velocypack.Validator.Objects.{validate_object}
use velocypack.Validator.Objects.Fuel.{object-Agree}
use velocypack.Validator.Part.{
  nested, tagged_loop, validate_tagged, validate_by_type, validate_one, validate_part,
}
use velocypack.Validator.Part.Bounds.{validate_part_size}

-- No tag is empty.
tag_pos : (head : ℕ) → 1 ≤ (if head == 0xee then 2 else 9)
tag_pos head = ground arith

module _ (opts : Options) (m : Memory) (recur recur' : PartValidator) (limit : ℕ)
    (agree : Agree recur recur' limit) (sized : Sized m recur) where
  nested-Agree :
      (f g : ℕ → ℕ → ℕ → Result ℕ) (n ptr len : ℕ)
      → ((n : ℕ) → f n ptr len ≡ g n ptr len)
      → nested opts m recur f n ptr len ≡ nested opts m recur' g n ptr len
  unfolding nested
  nested-Agree f g n ptr len same =
      same_then (throw_if-Ensures (leb opts.nesting_limit ((n + 1) % 2 ^ 32)) too_deep_nesting)
        λ _ _. call_then (same ((n + 1) % 2 ^ 32)) λ n' _. refl

  tagged_loop-Agree :
      (rounds n ptr len : ℕ)
      → len ≤ limit
      → tagged_loop opts m recur rounds n ptr len ≡ tagged_loop opts m recur' rounds n ptr len
  unfolding tagged_loop
  tagged_loop-Agree zero n ptr len short = refl
  tagged_loop-Agree (suc rounds) n ptr len short =
      let size = (if m ptr == 0xee then 2 else 9) in
      let pos : 1 ≤ size = tag_pos (m ptr) in
      same_if (m ptr == 0xee || m ptr == 0xef)
        (λ _. same_then (buffer-Ensures (size + 1) len) λ _ long.
          same_if (m (ptr + size) == 0xee || m (ptr + size) == 0xef)
            (λ _. tagged_loop-Agree rounds n (ptr + size) (len - size) (omega arith))
            (λ _. agree n (ptr + size) (len - size) true (omega arith)))
        (λ _. refl)

  by_type-Agree :
      (t : ValueType) (n ptr len : ℕ) (sub : Bool)
      → len ≤ limit
      → validate_by_type opts m recur t n ptr len sub
        ≡ validate_by_type opts m recur' t n ptr len sub
  unfolding validate_by_type validate_tagged
  by_type-Agree array n ptr len sub short =
      nested-Agree (validate_array m recur) (validate_array m recur') n ptr len
        λ n'. array-Agree m recur recur' limit agree n' ptr len short
  by_type-Agree object n ptr len sub short =
      nested-Agree (validate_object opts m recur) (validate_object opts m recur') n ptr len
        λ n'. object-Agree opts m recur recur' limit agree sized n' ptr len short
  by_type-Agree tagged n ptr len sub short =
      same_then (throw_if-Ensures opts.disallow_tags builder_tags_disallowed)
        λ _ _. tagged_loop-Agree len n ptr len short
  by_type-Agree _ n ptr len sub short = refl

  one-Agree :
      (n ptr len : ℕ) (sub : Bool)
      → len ≤ limit
      → validate_one opts m recur n ptr len sub ≡ validate_one opts m recur' n ptr len sub
  unfolding validate_one
  one-Agree n ptr len sub short =
      same_then (throw_if-Ensures (len == 0) validator_invalid_length) λ _ _.
        same_then
          (throw_if-Ensures (eq (type_of m ptr) ValueType.none && not (m ptr == 0x00))
            validator_invalid_type)
          λ _ _. call_then (by_type-Agree (type_of m ptr) n ptr len sub short) λ n' _. refl

part-Sized : (fuel : ℕ) (opts : Options) (m : Memory) → Sized m (validate_part fuel opts m)
part-Sized fuel opts m n ptr len n' size accepted known =
    let (size', known', fits, either) = validate_part_size fuel opts m n ptr len true accepted in
    let same : ok size' ≡ ok size = sym known' ∙ known in let e : size' ≡ size = cc in omega arith

-- `validatePart` down to a depth, with any answer at all for the calls below it.
unfoldable pub part_within : PartValidator → ℕ → Options → Memory → PartValidator
part_within stop zero opts m = stop
part_within stop (suc depth) opts m = validate_one opts m (part_within stop depth opts m)

part-Agree :
    (stop : PartValidator) (depth fuel : ℕ) (opts : Options) (m : Memory)
    → depth ≤ fuel
    → Agree (validate_part fuel opts m) (part_within stop depth opts m) depth
unfolding validate_part part_within
part-Agree stop zero fuel opts m h n ptr len sub short = absurd (omega arith)
part-Agree stop (suc depth) zero opts m h n ptr len sub short = absurd (omega arith)
part-Agree stop (suc depth) (suc fuel) opts m h n ptr len sub short =
    one-Agree opts m (validate_part fuel opts m) (part_within stop depth opts m) depth
      (part-Agree stop depth fuel opts m (omega arith)) (part-Sized fuel opts m) n ptr len sub
      (omega arith)

-- The recursion of `validatePart` ends: its calls are never nested deeper than there are bytes. With more
-- fuel than bytes, the result is the one in which the calls below that depth are answered in any way
-- whatever, so that none of them is made and the end of the fuel is never met.
pub validate_part_fuel :
    (stop : PartValidator) (fuel : ℕ) (opts : Options) (m : Memory) (n ptr len : ℕ) (sub : Bool)
    → len < fuel
    → validate_part fuel opts m n ptr len sub ≡ part_within stop (len + 1) opts m n ptr len sub
validate_part_fuel stop fuel opts m n ptr len sub h =
    part-Agree stop (len + 1) fuel opts m (omega arith) n ptr len sub (omega arith)
