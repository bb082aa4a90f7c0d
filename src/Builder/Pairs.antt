-- ===== src/Builder/Pairs.antt =====
-- include/velocypack/Value.h and src/Builder.cpp: items given by a place and a size, and Strings given
-- in parts.
use velocypack.Prelude.{
  ℕ, zero, suc, ◌+◌, ◌==◌, leb, ◌||◌, if◌then◌else◌, List, [], length, true, Option, none, some,
}
use velocypack.ValueType.{ValueType, eq, string, uint, binary, custom}
use velocypack.Exception.{builder_unexpected_type, builder_custom_disallowed}
use velocypack.Result.{Result, ok, undefined}
use velocypack.Options.{Options}
use velocypack.Memory.{Memory, bytes_at, from_list}
use velocypack.Builder.Output.{Output, append_byte, append_length, write_bytes}
use velocypack.Builder.Integers.{append_uint}
use velocypack.Builder.State.{Action, ◌>>=◌, ◌>>◌, return, throw, check_key_has_valid_type}
use velocypack.Builder.Values.{write, lift}

-- `_start` is null, or memory in which the first byte stands at 0.
pub record ValuePair : Type 0 where
  pub start : Option Memory
  pub size : ℕ
  pub pair_type : ValueType

-- `ValuePair(value, type)` for the bytes of a string view.
unfoldable pub pair_of_view : List ℕ → ValueType → ValuePair
pair_of_view bytes t = record { start = some (from_list bytes); size = length bytes; pair_type = t }

-- The head of a String of a length.
unfoldable pub append_string_head : ℕ → Output → Output
append_string_head size out =
    if leb 127 size
    then append_length 8 size (append_byte 0xbf out)
    else append_byte (0x40 + size) out

-- The bytes behind the head of a String or Binary, which are not copied when there are none.
unfoldable pub pair_bytes : ValuePair → Result (List ℕ)
pair_bytes pair = elim pair.start [
  | some m ↦ ok (bytes_at m 0 pair.size)
  | none ↦ if pair.size == 0 then ok [] else undefined
]

-- The room of a Custom is filled here or, with a null pointer, by the caller.
unfoldable pub fill_custom : ValuePair → Output → Output
fill_custom pair out = elim pair.start [
  | some m ↦ write_bytes (bytes_at m 0 pair.size) out
  | none ↦ record { bytes = out.bytes; pos = out.pos + pair.size }
]

unfoldable pub write_pair : Options → ValuePair → Action (Unit {0})
write_pair options pair =
    if eq pair.pair_type string
    then (lift (pair_bytes pair) >>= λ bytes.
        write (λ out. write_bytes bytes (append_string_head pair.size out)))
    else if eq pair.pair_type binary
    then (lift (pair_bytes pair) >>= λ bytes.
        write (λ out. write_bytes bytes (append_uint pair.size 0xbf out)))
    else if eq pair.pair_type custom
    then (if options.disallow_custom
        then throw builder_custom_disallowed
        else write (fill_custom pair))
    else throw builder_unexpected_type

-- `set(ValuePair const&)`
unfoldable pub set_pair : Options → ValuePair → Action ℕ
set_pair options pair b =
    (check_key_has_valid_type (eq pair.pair_type string || eq pair.pair_type uint)
        >> write_pair options pair
        >> return b.out.pos)
      b

-- The virtual functions of `IStringFromParts`.
pub record StringParts : Type 0 where
  pub number_of_parts : ℕ
  pub total_length : ℕ
  pub part : ℕ → List ℕ

-- The loop over the parts, with the number of those that are left.
unfoldable pub write_parts : ℕ → (ℕ → List ℕ) → ℕ → Output → Output
write_parts zero part index out = out
write_parts (suc left) part index out =
    write_parts left part (index + 1) (write_bytes (part index) out)

-- `set(IStringFromParts const&)`
unfoldable pub set_parts : StringParts → Action ℕ
set_parts parts b =
    (check_key_has_valid_type true
        >> write (λ out.
          write_parts parts.number_of_parts parts.part 0
            (append_string_head parts.total_length out))
        >> return b.out.pos)
      b
