-- ===== src/Validator/Part/Nesting.antt =====
-- `_nesting` after an accepted value is what it was before, and a compound value is accepted below the
-- nesting limit only.
use velocypack.Prelude.{
  ℕ, zero, suc, ◌+◌, ◌-◌, ◌<◌, ◌^◌, ◌%◌, ◌≡◌, refl, Bool, true, arith, ◌==◌, leb, not, ◌&&◌, ◌||◌,
  if◌then◌else◌,
}
use velocypack.ValueType.{ValueType, array, object, string, bcd, tagged, external, custom, eq}
use velocypack.Exception.{
  too_deep_nesting, builder_tags_disallowed, validator_invalid_length, validator_invalid_type,
}
use velocypack.Result.{
  Result, ok, returned, thrown, lost, Ensures-if, Ensures-bind, Ensures-ok, throw_if,
}
use velocypack.Options.{Options}
use velocypack.Memory.{Memory}
use velocypack.Slice.{type_of}
use velocypack.Validator.Lengths.{PartValidator, validate_buffer_length, validate_slice_length}
use velocypack.Validator.Simple.{validate_string, validate_custom, validate_external, validate_bcd}
use velocypack.Validator.Arrays.Nesting.{Returns, Keeps, any_then}
use velocypack.Validator.Arrays.Nesting.{validate_array-Returns}
use velocypack.Validator.Objects.Nesting.{validate_object-Returns}
use velocypack.Validator.Arrays.{validate_array}
use velocypack.Validator.Objects.{validate_object}
use velocypack.Validator.Part.{
  nested, tagged_loop, validate_tagged, validate_by_type, validate_one, validate_part,
}

module _ (opts : Options) (m : Memory) (recur : PartValidator) where
  nested-Returns :
      (f : ℕ → ℕ → ℕ → Result ℕ)
      → ((n ptr len : ℕ) → n < 2 ^ 32 → Returns n (f n ptr len))
      → (n ptr len : ℕ) → n < 2 ^ 32
      → Returns n (nested opts m recur f n ptr len)
  unfolding nested
  nested-Returns f keep n ptr len b =
      any_then (throw_if (leb opts.nesting_limit ((n + 1) % 2 ^ 32)) too_deep_nesting) λ _.
        Ensures-bind (keep ((n + 1) % 2 ^ 32) ptr len (omega arith)) λ n' q. returned (omega arith)

  module _ (keep : Keeps recur) where
    tagged_loop-Returns :
        (rounds n ptr len : ℕ) → n < 2 ^ 32 → Returns n (tagged_loop opts m recur rounds n ptr len)
    unfolding tagged_loop
    tagged_loop-Returns zero n ptr len b = lost
    tagged_loop-Returns (suc rounds) n ptr len b =
        let size = (if m ptr == 0xee then 2 else 9) in
        Ensures-if (m ptr == 0xee || m ptr == 0xef)
          (λ _. any_then (validate_buffer_length (size + 1) len true) λ _.
            Ensures-if (m (ptr + size) == 0xee || m (ptr + size) == 0xef)
              (λ _. tagged_loop-Returns rounds n (ptr + size) (len - size) b)
              (λ _. keep n (ptr + size) (len - size) true b))
          (λ _. thrown)

    by_type-Returns :
        (t : ValueType) (n ptr len : ℕ) (sub : Bool)
        → n < 2 ^ 32
        → Returns n (validate_by_type opts m recur t n ptr len sub)
    unfolding validate_by_type validate_tagged
    by_type-Returns string n ptr len sub b =
        any_then (validate_string opts m ptr len) λ _. returned refl
    by_type-Returns array n ptr len sub b =
        nested-Returns (validate_array m recur) (validate_array-Returns m recur keep) n ptr len b
    by_type-Returns object n ptr len sub b =
        nested-Returns (validate_object opts m recur) (validate_object-Returns opts m recur keep) n
          ptr len b
    by_type-Returns bcd n ptr len sub b = any_then (validate_bcd opts m) λ _. returned refl
    by_type-Returns tagged n ptr len sub b =
        any_then (throw_if opts.disallow_tags builder_tags_disallowed)
          λ _. tagged_loop-Returns len n ptr len b
    by_type-Returns external n ptr len sub b =
        any_then (validate_external opts m len) λ _. returned refl
    by_type-Returns custom n ptr len sub b =
        any_then (validate_custom opts m ptr len sub) λ _. returned refl
    by_type-Returns _ n ptr len sub b = returned refl

    one-Returns :
        (n ptr len : ℕ) (sub : Bool)
        → n < 2 ^ 32
        → Returns n (validate_one opts m recur n ptr len sub)
    unfolding validate_one
    one-Returns n ptr len sub b = any_then (throw_if (len == 0) validator_invalid_length) λ _.
        any_then
          (throw_if (eq (type_of m ptr) ValueType.none && not (m ptr == 0x00))
            validator_invalid_type)
          λ _.
            Ensures-bind (by_type-Returns (type_of m ptr) n ptr len sub b)
              λ n' q. any_then (validate_slice_length m ptr len sub) λ _. returned q

part-Keeps : (fuel : ℕ) (opts : Options) (m : Memory) → Keeps (validate_part fuel opts m)
unfolding validate_part
part-Keeps zero opts m n ptr len sub b = lost
part-Keeps (suc fuel) opts m n ptr len sub b =
    one-Returns opts m (validate_part fuel opts m) (part-Keeps fuel opts m) n ptr len sub b

-- The `++_nesting` and `--_nesting` of all nested calls balance: an accepted `validatePart` leaves the
-- level, a uint32_t, as it was.
pub validate_part_nesting :
    (fuel : ℕ) (opts : Options) (m : Memory) (n ptr len : ℕ) (sub : Bool) (n' : ℕ)
    → n < 2 ^ 32
    → validate_part fuel opts m n ptr len sub ≡ ok n'
    → n' ≡ n
validate_part_nesting fuel opts m n ptr len sub n' b h =
    Ensures-ok (part-Keeps fuel opts m n ptr len sub b) h
