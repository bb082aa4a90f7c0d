-- ===== src/Validator/Part/Bounds.antt =====
-- What an accepted value is at its head: its size, and the types that the options rule out.
use velocypack.Prelude.{
  ℕ, zero, suc, ◌≤◌, ◌<◌, ◌≡◌, ◌∙◌, ◌≢◌, ◌⊎◌, inl, inr, Bool, true, false, not, Bool-cases, ◌&&◌,
  ◌==◌, arith,
}
use velocypack.ValueType.{eq, tagged, custom, external, bcd}
use velocypack.ValueType
use velocypack.Exception.{validator_invalid_length, validator_invalid_type}
use velocypack.Result.{ok, >>=-eq-ok, throw_if-eq-ok}
use velocypack.Options.{Options}
use velocypack.Memory.{Memory}
use velocypack.Slice.{byte_size, type_of}
use velocypack.Validator.Lengths.{PartValidator, validate_slice_length}
use velocypack.Validator.Lengths.Accepts.{validate_slice_length-eq-ok}
use velocypack.Validator.Simple.{validate_bcd, validate_custom, validate_external}
use velocypack.Validator.Part.{validate_by_type, validate_one, validate_part}

-- The parts of an accepting run.
pub validate_one-eq-ok :
    (opts : Options) (m : Memory) (recur : PartValidator) (n ptr len : ℕ) (sub : Bool) {n' : ℕ}
    → validate_one opts m recur n ptr len sub ≡ ok n'
    → (0 < len)
      × ((eq (type_of m ptr) ValueType.none && not (m ptr == 0x00)) ≡ false)
      × (validate_by_type opts m recur (type_of m ptr) n ptr len sub ≡ ok n')
      × (validate_slice_length m ptr len sub ≡ ok tt)
unfolding validate_one
validate_one-eq-ok opts m recur n ptr len sub h =
    let (nonempty, h1) = throw_if-eq-ok (len == 0) validator_invalid_length _ h in
    let (known, h2) = throw_if-eq-ok _ validator_invalid_type _ h1 in
    let (n1, body, h3) =
      >>=-eq-ok (validate_by_type opts m recur (type_of m ptr) n ptr len sub) _ h2 in
    let (u, size, h4) = >>=-eq-ok (validate_slice_length m ptr len sub) _ h3 in
    (ground arith, known, body ∙ h4, size)

-- An accepted run of `validatePart` makes one call of its body.
pub validate_part-eq-ok :
    (fuel : ℕ) (opts : Options) (m : Memory) (n ptr len : ℕ) (sub : Bool) {n' : ℕ}
    → validate_part fuel opts m n ptr len sub ≡ ok n'
    → (rest : ℕ) × (validate_one opts m (validate_part rest opts m) n ptr len sub ≡ ok n')
unfolding validate_part
validate_part-eq-ok zero opts m n ptr len sub h = cc
validate_part-eq-ok (suc fuel) opts m n ptr len sub h = (fuel, h)

-- What `validatePart` has accepted has a byte size within the bytes that it was given.
pub validate_part_size :
    (fuel : ℕ) (opts : Options) (m : Memory) (n ptr len : ℕ) (sub : Bool) {n' : ℕ}
    → validate_part fuel opts m n ptr len sub ≡ ok n'
    → (size : ℕ) × (byte_size m ptr ≡ ok size) × (size ≤ len) × ((sub ≡ true) ⊎ (size ≡ len))
validate_part_size fuel opts m n ptr len sub h =
    let (rest, one) = validate_part-eq-ok fuel opts m n ptr len sub h in
    let (a, b, c, size) = validate_one-eq-ok opts m (validate_part rest opts m) n ptr len sub one in
    validate_slice_length-eq-ok m ptr len sub size

module _ (opts : Options) (m : Memory) (recur : PartValidator) (n ptr len n' : ℕ) (sub : Bool) where
  -- The types that the options rule out, and BCD numbers.
  bcd_throws : validate_by_type opts m recur bcd n ptr len sub ≢ ok n'
  unfolding validate_by_type validate_bcd
  bcd_throws h = ground arith

  tagged_throws :
      opts.disallow_tags ≡ true → validate_by_type opts m recur tagged n ptr len sub ≢ ok n'
  unfolding validate_by_type
  tagged_throws d h = cc (rw d at h)

  custom_throws :
      opts.disallow_custom ≡ true → validate_by_type opts m recur custom n ptr len sub ≢ ok n'
  unfolding validate_by_type validate_custom
  custom_throws d h = cc (rw d at h)

  external_throws :
      opts.disallow_externals ≡ true → validate_by_type opts m recur external n ptr len sub ≢ ok n'
  unfolding validate_by_type validate_external
  external_throws d h = cc (rw d at h)

-- What `validatePart` has accepted is no BCD number, has a known type, and is no Tagged, Custom or
-- External value where the options disallow those.
pub validate_part_type :
    (fuel : ℕ) (opts : Options) (m : Memory) (n ptr len : ℕ) (sub : Bool) {n' : ℕ}
    → validate_part fuel opts m n ptr len sub ≡ ok n'
    → (type_of m ptr ≢ bcd)
      × ((eq (type_of m ptr) ValueType.none && not (m ptr == 0x00)) ≡ false)
      × ((opts.disallow_tags ≡ false) ⊎ (type_of m ptr ≢ tagged))
      × ((opts.disallow_custom ≡ false) ⊎ (type_of m ptr ≢ custom))
      × ((opts.disallow_externals ≡ false) ⊎ (type_of m ptr ≢ external))
validate_part_type fuel opts m n ptr len sub {n'} h =
    let (rest, one) = validate_part-eq-ok fuel opts m n ptr len sub h in
    let recur = validate_part rest opts m in
    let (nonempty, known, body, size) = validate_one-eq-ok opts m recur n ptr len sub one in
    (
      λ e. bcd_throws opts m recur n ptr len n' sub (rw e at body),
      known,
      elim (Bool-cases opts.disallow_tags) [
        | inl d ↦ inr (λ e. tagged_throws opts m recur n ptr len n' sub d (rw e at body))
        | inr d ↦ inl d
      ],
      elim (Bool-cases opts.disallow_custom) [
        | inl d ↦ inr (λ e. custom_throws opts m recur n ptr len n' sub d (rw e at body))
        | inr d ↦ inl d
      ],
      elim (Bool-cases opts.disallow_externals) [
        | inl d ↦ inr (λ e. external_throws opts m recur n ptr len n' sub d (rw e at body))
        | inr d ↦ inl d
      ],
    )
