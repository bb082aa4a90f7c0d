-- ===== src/Builder/Add.antt =====
-- include/velocypack/Builder.h: the functions behind `add`, `addTagged`, `addUnchecked` and
-- `addExternal`, for each `set` that they are instantiated with. A Serializable calls back into the
-- public functions and has no `set` of its own.
pub mod Levels
pub mod Members
pub mod Errors
use velocypack.Prelude.{ℕ, ◌==◌, ◌||◌, not, true, if◌then◌else◌, List, [], ◌∷◌, Option, none, some}
use velocypack.ValueType.{string}
use velocypack.Exception.{
  builder_need_open_object, builder_need_open_array, builder_key_already_written,
  builder_externals_disallowed,
}
use velocypack.Result.{throws}
use velocypack.Options.{Options}
use velocypack.Memory.{Memory, bytes_at}
use velocypack.Slice.{is_string, is_small_int, is_uint, byte_size}
use velocypack.Builder.Output.{append_byte, append_length, write_bytes}
use velocypack.Builder.State.{
  Builder, Action, ◌>>=◌, ◌>>◌, return, on_exception, head_at, is_array_head, is_object_head,
  report_add, cleanup_add, check_key_has_valid_type,
}
use velocypack.Builder.Values.{write, lift, append_tag, set_slice}
use velocypack.Builder.Pairs.{set_pair, pair_of_view}

-- `if (!_keyWritten) { reportAdd(); }`
unfoldable pub report_unless_key : Builder → Builder
report_unless_key b = if b.key_written then b else report_add b

-- `addInternal(sub)`
unfoldable pub add_internal : Action ℕ → Action ℕ
add_internal set b = elim b.stack [
  | [] ↦ set b
  | _ ∷ _ ↦ on_exception cleanup_add set (report_unless_key b)
]

-- `if (tag != 0) { appendTag(tag); }`, and the item.
unfoldable pub set_tagged : Options → ℕ → Action ℕ → Action ℕ
set_tagged options tag set = if tag == 0 then set else append_tag options tag >> set

-- `addInternalTagged(tag, sub)`
unfoldable pub add_internal_tagged : Options → ℕ → Action ℕ → Action ℕ
add_internal_tagged options tag set b = elim b.stack [
  | [] ↦ set_tagged options tag set b
  | _ ∷ _ ↦ on_exception cleanup_add (set_tagged options tag set) (report_unless_key b)
]

-- `writeValue(sub)`, and `writeValueTagged(tag, sub)` with a tagged item.
unfoldable pub write_value : Action ℕ → Action ℕ
write_value set b = set (record b { key_written = true })

-- The key of a member: its translation, where the options have a translator and it knows the name, or
-- the name as a String.
unfoldable pub write_name : Options → (List ℕ → Option (Memory × ℕ)) → List ℕ → Action (Unit {0})
write_name options translate name =
    let as_string = set_pair options (pair_of_view name string) >>= λ _. return tt in
    if options.has_attribute_translator
    then elim (translate name) [
      | some translated ↦
          (lift (byte_size translated.0 translated.1) >>= λ l.
          write (write_bytes (bytes_at translated.0 translated.1 l)))
      | none ↦ as_string
    ]
    else as_string

-- `addInternal(attrName, sub)`. `addInternalTagged(attrName, tag, sub)` is this with `set_tagged`.
unfoldable pub add_attribute :
    Options → (List ℕ → Option (Memory × ℕ)) → List ℕ → Action ℕ → Action ℕ
add_attribute options translate name set b =
    let member = write_name options translate name >> write_value set in
    elim b.stack [
      | [] ↦ member b
      | top ∷ _ ↦
          if not (is_object_head (head_at b top))
          then (throws builder_need_open_object, b)
          else if b.key_written
          then (throws builder_key_already_written, b)
          else on_exception cleanup_add member (report_add b)
    ]

-- The three `addUnchecked`, with the `set` of their key.
unfoldable pub add_unchecked : Action ℕ → Action ℕ → Action ℕ
add_unchecked set_key set b =
    let member = set_key >>= λ _. write_value set in
    elim b.stack [ [] ↦ member b | _ ∷ _ ↦ on_exception cleanup_add member (report_add b) ]

-- The item that `addExternal` sets.
unfoldable pub set_external : Memory → ℕ → Action ℕ
set_external m sub b =
    (check_key_has_valid_type (is_string m sub || is_small_int m sub || is_uint m sub)
        >> write (λ out. append_length 8 sub (append_byte 0x1d out))
        >> return b.out.pos)
      b

-- `addExternal(sub)` for a value in memory of its own. Only what this call reported is taken back.
unfoldable pub add_external : Options → Memory → ℕ → Action ℕ
add_external options m sub b =
    let set = set_external m sub in
    if options.disallow_externals then (throws builder_externals_disallowed, b) else elim b.stack [
      | [] ↦ set b
      | _ ∷ _ ↦ if b.key_written then set b else on_exception cleanup_add set (report_add b)
    ]

-- The loops of `add(ArrayIterator&&)` and `add(ObjectIterator&&)`, over the places that the iterator
-- gives.
unfoldable pub add_slices : Options → Memory → List ℕ → Action (Unit {0})
add_slices options m [] = return tt
add_slices options m (s ∷ rest) =
    add_internal (set_slice options m s) >>= λ _. add_slices options m rest

unfoldable pub add_pairs : Options → Memory → List (ℕ × ℕ) → Action (Unit {0})
add_pairs options m [] = return tt
add_pairs options m ((key, value) ∷ rest) = add_internal (set_slice options m key) >>= λ _.
    add_internal (set_slice options m value) >>= λ _. add_pairs options m rest

unfoldable pub add_array_members : Options → Memory → List ℕ → Action ℕ
add_array_members options m members b = elim b.stack [
  | [] ↦ (throws builder_need_open_array, b)
  | top ∷ _ ↦
      if not (is_array_head (head_at b top))
      then (throws builder_need_open_array, b)
      else (add_slices options m members >> return b.out.pos) b
]

unfoldable pub add_object_members : Options → Memory → List (ℕ × ℕ) → Action ℕ
add_object_members options m members b = elim b.stack [
  | [] ↦ (throws builder_need_open_object, b)
  | top ∷ _ ↦
      if not (is_object_head (head_at b top))
      then (throws builder_need_open_object, b)
      else if b.key_written
      then (throws builder_key_already_written, b)
      else (add_pairs options m members >> return b.out.pos) b
]
