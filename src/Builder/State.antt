-- ===== src/Builder/State.antt =====
-- include/velocypack/Builder.h and src/Builder.cpp: the state of a Builder, and the operations on its
-- stack of open compounds. `reserve` and the arena of the stack only make room.
use velocypack.Prelude.{
  ◌≡◌, ap, ℕ, ◌+◌, ◌-◌, ◌==◌, ◌||◌, ◌&&◌, not, Bool, true, false, if◌then◌else◌, List, [], ◌∷◌,
  ◌++◌, length, take, drop_last,
}
use velocypack.Exception.{
  ExceptionType, builder_need_open_array, builder_key_must_be_string, builder_not_sealed,
}
use velocypack.Result.{Result, ok, throws, undefined}
use velocypack.Common.{memcpy_out}
use velocypack.Builder.Output.{Output, append_byte}

-- `CompoundInfo`
pub record Compound : Type 0 where
  pub start_pos : ℕ
  pub index_start_pos : ℕ

-- The fields that the operations change. The top of `_stack` stands first; `_indexes` grows at the end.
pub record Builder : Type 0 where
  pub out : Output
  pub stack : List Compound
  pub indexes : List ℕ
  pub key_written : Bool

-- An operation may throw, and leaves the state as it is by then.
abbrev pub Action : Type 0 → Type 0
Action A = Builder → Result A × Builder

-- What follows an outcome.
abbrev pub continue_with : {A B : Type 0} → Result A × Builder → (A → Action B) → Result B × Builder
continue_with (ok a, b) f = f a b
continue_with (throws e, b) f = (throws e, b)
continue_with (undefined, b) f = (undefined, b)

infixl 5 ◌>>=◌ ◌>>◌
abbrev pub ◌>>=◌ : {A B : Type 0} → Action A → (A → Action B) → Action B
◌>>=◌ m f b = continue_with (m b) f

abbrev pub ◌>>◌ : {B : Type 0} → Action (Unit {0}) → Action B → Action B
m >> k = m >>= λ _. k

-- A step that succeeds is followed by the next one.
pub >>=-ok :
    {A B : Type 0} (m : Action A) (f : A → Action B) (b b' : Builder) (a : A)
    → m b ≡ (ok a, b')
    → (m >>= f) b ≡ f a b'
>>=-ok {A} {B} m f b b' a e = ap (λ (r : Result A × Builder). continue_with r f) e

abbrev pub return : {A : Type 0} → A → Action A
return a b = (ok a, b)

abbrev pub throw : {A : Type 0} → ExceptionType → Action A
throw e b = (throws e, b)

-- A change of the state that cannot throw.
abbrev pub modify : (Builder → Builder) → Action (Unit {0})
modify f b = (ok tt, f b)

-- `catch (...) { clean(); throw; }`
abbrev pub clean_up : {A : Type 0} → (Builder → Builder) → Result A × Builder → Result A × Builder
clean_up clean (ok a, b) = (ok a, b)
clean_up clean (throws e, b) = (throws e, clean b)
clean_up clean (undefined, b) = (undefined, b)

-- A `try` block with that handler.
abbrev pub on_exception : {A : Type 0} → (Builder → Builder) → Action A → Action A
on_exception clean m b = clean_up clean (m b)

unfoldable pub is_empty : Builder → Bool
is_empty b = b.out.pos == 0

unfoldable pub is_closed : Builder → Bool
is_closed b = elim b.stack [ [] ↦ true | _ ∷ _ ↦ false ]

-- `_start[_stack.back().startPos]`, the head byte of the innermost open compound.
unfoldable pub head_at : Builder → Compound → ℕ
head_at b top = b.out.bytes top.start_pos

abbrev pub is_array_head : ℕ → Bool
is_array_head h = h == 0x06 || h == 0x13

abbrev pub is_object_head : ℕ → Bool
is_object_head h = h == 0x0b || h == 0x14

unfoldable pub is_open_array : Builder → Bool
unfolding head_at
is_open_array b = elim b.stack [ [] ↦ false | top ∷ _ ↦ is_array_head (head_at b top) ]

unfoldable pub is_open_object : Builder → Bool
unfolding head_at
is_open_object b = elim b.stack [ [] ↦ false | top ∷ _ ↦ is_object_head (head_at b top) ]

-- `size()` and `start()`
unfoldable pub size : Builder → Result ℕ
unfolding is_closed
size b = if is_closed b then ok b.out.pos else throws builder_not_sealed

-- `reportAdd()`; it is called with a compound open.
unfoldable pub report_add : Builder → Builder
report_add b = elim b.stack [
  | [] ↦ b
  | top ∷ _ ↦ record b { indexes = b.indexes ++ (b.out.pos - top.start_pos) ∷ [] }
]

-- `cleanupAdd()`
unfoldable pub cleanup_add : Builder → Builder
cleanup_add b = record b { indexes = drop_last b.indexes }

-- `closeLevel()`
unfoldable pub close_level : Builder → Builder
close_level b = elim b.stack [
  | [] ↦ b
  | top ∷ rest ↦ record b { stack = rest; indexes = take top.index_start_pos b.indexes }
]

-- `checkKeyHasValidType`; the caller says whether the item may be a key.
unfoldable pub check_key_has_valid_type : Bool → Action (Unit {0})
unfolding head_at
check_key_has_valid_type is_valid b = elim b.stack [
  | [] ↦ (ok tt, b)
  | top ∷ _ ↦
      if is_object_head (head_at b top)
      then (if not b.key_written && not is_valid
          then (throws builder_key_must_be_string, b)
          else (ok tt, record b { key_written = not b.key_written }))
      else (ok tt, b)
]

-- `addCompoundValue(type)`: the head byte and eight bytes for the length and the number of members.
unfoldable pub add_compound_value : ℕ → Builder → Builder
unfolding append_byte
add_compound_value type b =
    let opened = append_byte type b.out in
    record b {
      stack = record { start_pos = b.out.pos; index_start_pos = length b.indexes } ∷ b.stack;
      out = record { bytes = memcpy_out opened.bytes opened.pos 8 0; pos = opened.pos + 8 };
    }

-- `openCompoundValue(type)`
unfoldable pub open_compound_value : ℕ → Action (Unit {0})
unfolding add_compound_value head_at report_add
open_compound_value type b = elim b.stack [
  | [] ↦ (ok tt, add_compound_value type b)
  | top ∷ _ ↦
      if b.key_written
      then (ok tt, add_compound_value type (record b { key_written = false }))
      else if not (is_array_head (head_at b top))
      then (throws builder_need_open_array, b)
      else (ok tt, add_compound_value type (report_add b))
]

unfoldable pub open_array : Bool → Action (Unit {0})
unfolding open_compound_value
open_array unindexed = open_compound_value (if unindexed then 0x13 else 0x06)

unfoldable pub open_object : Bool → Action (Unit {0})
unfolding open_compound_value
open_object unindexed = open_compound_value (if unindexed then 0x14 else 0x0b)

-- `clear()`
unfoldable pub clear : Builder → Builder
clear b = record {
  out = record { bytes = b.out.bytes; pos = 0 };
  stack = [];
  indexes = [];
  key_written = false;
}
