-- ===== src/Validator/Part.antt =====
-- src/Validator.cpp: `validate`, `validatePart` and `validateTagged`.
pub mod Bounds
pub mod Nesting
pub mod Entries
pub mod Fuel
pub mod Reader
pub mod Wrap
use velocypack.Prelude.{
  ℕ, zero, suc, ◌+◌, ◌-◌, ◌%◌, ◌^◌, Bool, true, false, ltb, leb, ◌==◌, ◌||◌, ◌&&◌, not,
  if◌then◌else◌,
}
use velocypack.ValueType.{ValueType, eq, string, array, object, bcd, tagged, external, custom}
use velocypack.ValueType
use velocypack.Exception.{
  validator_invalid_length, validator_invalid_type, too_deep_nesting, builder_tags_disallowed,
  not_implemented, internal_error,
}
use velocypack.Result.{Result, ok, throws, undefined, ◌>>=◌, ◌>>◌, throw_if}
use velocypack.Options.{Options}
use velocypack.Memory.{Memory}
use velocypack.Slice.{type_of}
use velocypack.Validator.Lengths.{PartValidator, validate_buffer_length, validate_slice_length}
use velocypack.Validator.Simple.{validate_string, validate_custom, validate_external, validate_bcd}
use velocypack.Validator.Arrays.{validate_array}
use velocypack.Validator.Objects.{validate_object}

module _ (opts : Options) (m : Memory) (recur : PartValidator) where
  -- `if (++_nesting >= options->nestingLimit) throw …; f(ptr, length); --_nesting;`, with `_nesting` a
  -- uint32_t.
  unfoldable pub nested : (ℕ → ℕ → ℕ → Result ℕ) → ℕ → ℕ → ℕ → Result ℕ
  nested f nesting ptr length = do
    let inner = (nesting + 1) % 2 ^ 32
    throw_if (leb opts.nesting_limit inner) too_deep_nesting
    nesting' ← f inner ptr length
    ok ((nesting' + 2 ^ 32 - 1) % 2 ^ 32)

  -- The do-while loop of `validateTagged`, which takes two bytes a round at least.
  unfoldable pub tagged_loop : ℕ → ℕ → ℕ → ℕ → Result ℕ
  tagged_loop zero nesting ptr length = undefined
  tagged_loop (suc rounds) nesting ptr length =
      let size = (if m ptr == 0xee then 2 else 9) in
      if m ptr == 0xee || m ptr == 0xef
      then (do
        validate_buffer_length (size + 1) length true
        let next = ptr + size
        if m next == 0xee || m next == 0xef
            then tagged_loop rounds nesting next (length - size)
            else recur nesting next (length - size) true)
      else throws not_implemented

  unfoldable pub validate_tagged : ℕ → ℕ → ℕ → Result ℕ
  validate_tagged nesting ptr length = tagged_loop length nesting ptr length

  -- The switch over the types. All types that it does not name pass.
  unfoldable pub validate_by_type : ValueType → ℕ → ℕ → ℕ → Bool → Result ℕ
  validate_by_type type nesting ptr length is_sub_part = elim type [
    | string ↦ do validate_string opts m ptr length; ok nesting
    | array ↦ nested (validate_array m recur) nesting ptr length
    | object ↦ nested (validate_object opts m recur) nesting ptr length
    | bcd ↦ do validate_bcd opts m; ok nesting
    | tagged ↦ do
      throw_if opts.disallow_tags builder_tags_disallowed
      validate_tagged nesting ptr length
    | external ↦ do validate_external opts m length; ok nesting
    | custom ↦ do validate_custom opts m ptr length is_sub_part; ok nesting
    | _ ↦ ok nesting
  ]

  unfoldable pub validate_one : ℕ → ℕ → ℕ → Bool → Result ℕ
  validate_one nesting ptr length is_sub_part = do
    throw_if (length == 0) validator_invalid_length
    throw_if (eq (type_of m ptr) ValueType.none && not (m ptr == 0x00)) validator_invalid_type
    nesting' ← validate_by_type (type_of m ptr) nesting ptr length is_sub_part
    validate_slice_length m ptr length is_sub_part
    ok nesting'

-- `validatePart`. Each value inside another is shorter, so the length bounds the depth of the calls.
unfoldable pub validate_part : ℕ → Options → Memory → PartValidator
validate_part zero opts m nesting ptr length is_sub_part = undefined
validate_part (suc fuel) opts m nesting ptr length is_sub_part =
    validate_one opts m (validate_part fuel opts m) nesting ptr length is_sub_part

-- `validate(ptr, length, isSubPart)`; it returns true or throws.
unfoldable pub validate : Options → Memory → ℕ → ℕ → Bool → Result Bool
validate opts m ptr length is_sub_part = do
  nesting ← validate_part (length + 1) opts m 0 ptr length is_sub_part
  ok true
