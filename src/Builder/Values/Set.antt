-- ===== src/Builder/Values/Set.antt =====
-- What `set` does with a Value, on every branch.
use velocypack.Prelude.{
  ◌≡◌, refl, ap, not, ◌&&◌, ◌||◌, Bool, true, false, if◌then◌else◌, Bool-cases, List-cases, inl,
  inr,
}
use velocypack.ValueType.{ValueType, eq, string, uint}
use velocypack.SliceStaticData.{type_map}
use velocypack.Slice.{type_of}
use velocypack.Options.{Options}
use velocypack.Builder.Output.{Output}
use velocypack.Builder.State.{
  Builder, ◌>>◌, return, check_key_has_valid_type, is_object_head, head_at, is_open_object,
}
use velocypack.Builder.Outcome.{Outcome, continue_with-Outcome, weaken-Outcome}
use velocypack.Builder.Values.{Doubles, Value, write_item, set_value}
use velocypack.Builder.Values.Frame.{Adds, write_item-Frame}
use velocypack.Builder.Values.Types.{written_type, write_item-Writes}

-- Everything but `_keyWritten` is as it was.
abbrev pub Kept : Builder → Builder → Type 0
Kept b b' = (b'.out ≡ b.out) × (b'.stack ≡ b.stack) × (b'.indexes ≡ b.indexes)

pub check_key-Outcome :
    (may_be_key : Bool) (b : Builder)
    → Outcome (λ _ b1. Kept b b1) (λ _ b1. b1 ≡ b) (check_key_has_valid_type may_be_key b)
unfolding check_key_has_valid_type
check_key-Outcome may_be_key b = elim (List-cases b.stack) [
  | inl empty ↦ rw empty (refl, refl, refl)
  | inr (top, rest, some) ↦ elim (Bool-cases (is_object_head (head_at b top))) [
    | inl object ↦ elim (Bool-cases (not b.key_written && not may_be_key)) [
      | inl refused ↦ rw (some, object, refused) refl
      | inr fine ↦ rw (some, object, fine) (refl, refl, refl)
    ]
    | inr other ↦ rw (some, other) (refl, refl, refl)
  ]
]

module _ (D : Doubles) where
  -- When `set` returns for a Value, the place that it returns is where the buffer ended, and the value
  -- there has the type of the item, but for the numbers from -6 to 9 of the type Int and from 0 to 9 of the
  -- type UInt, and only those, which are SmallInts. When it throws, the bytes, the open compounds and the
  -- index entries are as they were.
  pub set_value-Outcome :
      (options : Options) (item : Value D) (b : Builder)
      → Outcome
          (λ p b'.
            (p ≡ b.out.pos)
            × (type_of b'.out.bytes p ≡ written_type D item.value_type item.payload))
          (λ _ b'. Kept b b')
          (set_value D options item b)
  unfolding set_value type_of
  set_value-Outcome options item b =
      let check = check_key_has_valid_type (eq item.value_type string || eq item.value_type uint) in
      let set = write_item D options item in
      continue_with-Outcome
        (λ _ b'. type_map (b'.out.bytes b.out.pos) ≡ written_type D item.value_type item.payload)
        (λ _ b'. Kept b b')
        (λ p b'.
          (p ≡ b.out.pos)
          × (type_map (b'.out.bytes p) ≡ written_type D item.value_type item.payload))
        (λ _ b'. Kept b b') ((check >> set) b) (λ _. return b.out.pos)
        (continue_with-Outcome (λ _ b1. Kept b b1) (λ _ b1. b1 ≡ b) _ _ (check b) (λ _. set)
          (check_key-Outcome _ b)
          (λ _ b1 kept.
            weaken-Outcome _ _ _ _ (set b1)
              (write_item-Writes D options item.value_type item.payload b1)
              (λ _ b' fits. rw (ap (λ (o : Output). o.pos) kept.0) at fits)
              (λ _ b' same. rw same kept))
          (λ _ b1 same. rw same (refl, refl, refl)))
        (λ _ b' fits. (refl, fits)) (λ _ b' kept. kept)

-- What `set` does to the levels when it returns: the key flag turns over in an open object, where an
-- item that is added as a key is no Array or Object.
abbrev pub SetEffect : ValueType → Builder → Builder → Type 0
SetEffect t b b' =
    (b1 : Builder) × Kept b b1
    × (b1.key_written ≡ (if is_open_object b then not b.key_written else b.key_written))
    × ((is_open_object b && not b.key_written && not (eq t string || eq t uint)) ≡ false)
    × Adds t b1 b'

check_key-flag :
    (may_be_key : Bool) (b : Builder)
    → Outcome
        (λ _ b1.
          Kept b b1
          × (b1.key_written ≡ (if is_open_object b then not b.key_written else b.key_written))
          × ((is_open_object b && not b.key_written && not may_be_key) ≡ false))
        (λ _ b1. (is_open_object b ≡ true) × (b1 ≡ b))
        (check_key_has_valid_type may_be_key b)
unfolding check_key_has_valid_type is_open_object
check_key-flag may_be_key b = elim (List-cases b.stack) [
  | inl empty ↦ rw empty ((refl, refl, refl), refl, refl)
  | inr (top, rest, some) ↦ elim (Bool-cases (is_object_head (head_at b top))) [
    | inl object ↦ elim (Bool-cases (not b.key_written && not may_be_key)) [
      | inl refused ↦ rw (some, object, refused) (refl, refl)
      | inr fine ↦ rw (some, object, fine) ((refl, refl, refl), refl, refl)
    ]
    | inr other ↦ rw (some, other) ((refl, refl, refl), refl, refl)
  ]
]

module _ (D : Doubles) where
  pub set_value-SetEffect :
      (options : Options) (item : Value D) (b : Builder)
      → Outcome
          (λ _ b'. SetEffect item.value_type b b')
          (λ _ b'. Kept b b' × (is_open_object b ≡ false → b'.key_written ≡ b.key_written))
          (set_value D options item b)
  unfolding set_value
  set_value-SetEffect options item b =
      let t = item.value_type in
      let check = check_key_has_valid_type (eq t string || eq t uint) in
      let set = write_item D options item in
      continue_with-Outcome (λ _ b'. SetEffect t b b') _ (λ _ b'. SetEffect t b b') _
        ((check >> set) b) (λ _. return b.out.pos)
        (continue_with-Outcome _ _ _ _ (check b) (λ _. set)
          (check_key-flag (eq t string || eq t uint) b)
          (λ _ b1 (kept, flag, key).
            weaken-Outcome _ _ _ _ (set b1) (write_item-Frame D options t item.payload b1)
              (λ _ b' adds. (b1, kept, flag, key, adds))
              (λ _ b' same. rw same (kept, λ other. rw other at flag)))
          (λ _ b1 (object, same). rw same ((refl, refl, refl), λ other. refl)))
        (λ _ b' effect. effect) (λ _ b' kept. kept)
