-- ===== src/Builder/Values.antt =====
-- include/velocypack/Value.h, src/Value.cpp, and in src/Builder.cpp `set` for a Value, the other values
-- that `set` takes and `appendTag`. A C++ value that an item points to is given as its bytes. The
-- arithmetic of doubles is the platform's, and a parameter.
pub mod Heads
pub mod Types
pub mod Set
pub mod Frame
pub mod RoundTrip
use velocypack.Prelude.{
  ℕ, ◌+◌, ◌-◌, ◌==◌, leb, ◌||◌, ◌&&◌, Bool, true, false, if◌then◌else◌, List, [], ◌∷◌, length,
}
use velocypack.Prelude.Int.{ℤ, pos, negsuc, ltb_ℤ}
use velocypack.ValueType.{
  ValueType, eq, illegal, null, bool, array, object, double, utc_date, external, min_key, max_key,
  int, uint, small_int, string, binary, bcd, custom, tagged,
}
use velocypack.Exception.{
  builder_unexpected_value, builder_unexpected_type, builder_externals_disallowed,
  builder_custom_disallowed, builder_tags_disallowed, number_out_of_range, not_implemented,
  invalid_value_type,
}
use velocypack.Result.{Result, ok, throws}
use velocypack.Options.{Options}
use velocypack.Memory.{Memory, bytes_at}
use velocypack.Common.{to_i64, to_u64, cast_u64}
use velocypack.Slice.{is_string, is_small_int, is_uint, is_custom, byte_size}
use velocypack.Builder.Output.{Output, append_byte, append_length, write_bytes}
use velocypack.Builder.Integers.{add_uint, append_uint}
use velocypack.Builder.Signed.{add_int}
use velocypack.Builder.State.{
  Action, ◌>>=◌, ◌>>◌, return, throw, modify, check_key_has_valid_type, add_compound_value,
}

-- What the code uses of `double`. A conversion that is out of range is undefined in C++.
pub record Doubles : Type 1 where
  pub Double : Type 0
  pub of_i64 : ℤ → Double
  pub of_u64 : ℕ → Double
  pub to_signed : Double → Result ℤ
  pub to_unsigned : Double → Result ℕ
  pub is_negative : Double → Bool
  pub bits : Double → ℕ

-- `_cType` with the member of `_value` that it selects. With `CType::None` that is the flag
-- `allowUnindexed`; an array of characters is given up to its end.
pub data Payload (D : Doubles) : Type 0 where
  no_payload : Bool → Payload D
  bool_payload : Bool → Payload D
  double_payload : D.Double → Payload D
  int64_payload : ℤ → Payload D
  uint64_payload : ℕ → Payload D
  string_payload : List ℕ → Payload D
  char_ptr_payload : List ℕ → Payload D
  void_ptr_payload : ℕ → Payload D
  string_view_payload : List ℕ → Payload D

pub record Value (D : Doubles) : Type 0 where
  pub value_type : ValueType
  pub payload : Payload D

-- The constructor `Value(t, allowUnindexed)`
unfoldable pub compound_value : (D : Doubles) → ValueType → Bool → Result (Value D)
compound_value D t allow_unindexed =
    if allow_unindexed
    then (if eq t array || eq t object
        then ok (record { value_type = t; payload = no_payload true })
        else throws invalid_value_type)
    else ok (record { value_type = t; payload = no_payload false })

-- The bytes in front of the first zero, as many as `strlen` counts.
unfoldable pub c_string : List ℕ → List ℕ
c_string [] = []
c_string (b ∷ bs) = if b == 0 then [] else b ∷ c_string bs

abbrev pub write : (Output → Output) → Action (Unit {0})
write f = modify λ b. record b { out = f b.out }

-- A computation that does not look at the state.
abbrev pub lift : {A : Type 0} → Result A → Action A
lift r b = (r, b)

-- A String: the head, with the length in it or behind it, and the bytes.
unfoldable pub write_string : List ℕ → Output → Output
write_string bytes out =
    let size = length bytes in
    write_bytes bytes (
      if leb size 126
      then append_byte (0x40 + size) out
      else append_length 8 size (append_byte 0xbf out))

unfoldable pub write_binary : List ℕ → Output → Output
write_binary bytes out = write_bytes bytes (append_uint (length bytes) 0xbf out)

-- `addUTCDate(v)`
unfoldable pub add_utc_date : ℤ → Output → Output
add_utc_date v out = append_length 8 (to_u64 v) (append_byte 0x1c out)

-- `appendTag(tag)`
unfoldable pub append_tag : Options → ℕ → Action (Unit {0})
append_tag options tag =
    if options.disallow_tags
    then throw builder_tags_disallowed
    else write λ out.
      if leb tag 255
      then append_length 1 tag (append_byte 0xee out)
      else append_length 8 tag (append_byte 0xef out)

unfoldable pub write_small_int : ℤ → Action (Unit {0})
write_small_int (pos n) =
    if leb n 9 then write (append_byte (n + 0x30)) else throw number_out_of_range
write_small_int (negsuc n) =
    if leb n 5 then write (append_byte (0x40 - (n + 1))) else throw number_out_of_range

module _ (D : Doubles) where
  -- `unindexed()`. For Array and Object it reads the flag, which is there with `CType::None` only.
  unfoldable pub unindexed : Value D → Result Bool
  unindexed item =
      if eq item.value_type array || eq item.value_type object
      then elim item.payload [
        | no_payload flag ↦ ok flag
        | bool_payload flag ↦ ok flag
        | _ ↦ Result.undefined
      ]
      else throws invalid_value_type

  -- The numbers that the cases Double, SmallInt, Int and UTCDate, and UInt take.
  unfoldable pub double_of : Payload D → Result D.Double
  double_of p = elim p [
    | double_payload d ↦ ok d
    | int64_payload i ↦ ok (D.of_i64 i)
    | uint64_payload u ↦ ok (D.of_u64 u)
    | _ ↦ throws builder_unexpected_value
  ]

  -- `static_cast<int64_t>` of a uint64_t gives what `toInt64` gives.
  unfoldable pub int64_of : Payload D → Result ℤ
  int64_of p = elim p [
    | double_payload d ↦ D.to_signed d
    | int64_payload i ↦ ok i
    | uint64_payload u ↦ ok (to_i64 u)
    | _ ↦ throws builder_unexpected_value
  ]

  unfoldable pub uint64_of : Payload D → Result ℕ
  uint64_of p = elim p [
    | double_payload d ↦
        if D.is_negative d then throws builder_unexpected_value else D.to_unsigned d
    | int64_payload i ↦ if ltb_ℤ i (pos 0) then throws builder_unexpected_value else ok (cast_u64 i)
    | uint64_payload u ↦ ok u
    | _ ↦ throws builder_unexpected_value
  ]

  -- The bytes for String and Binary.
  unfoldable pub bytes_of : Payload D → Result (List ℕ)
  bytes_of p = elim p [
    | string_payload s ↦ ok s
    | char_ptr_payload s ↦ ok (c_string s)
    | string_view_payload s ↦ ok s
    | _ ↦ throws builder_unexpected_value
  ]

  unfoldable pub write_bool : Payload D → Action (Unit {0})
  write_bool p = elim p [
    | bool_payload flag ↦ write (append_byte (if flag then 0x1a else 0x19))
    | _ ↦ throw builder_unexpected_value
  ]

  unfoldable pub write_pointer : Payload D → Action (Unit {0})
  write_pointer p = elim p [
    | void_ptr_payload address ↦ write (λ out. append_length 8 address (append_byte 0x1d out))
    | _ ↦ throw builder_unexpected_value
  ]

  unfoldable pub write_external : Options → Payload D → Action (Unit {0})
  write_external options p =
      if options.disallow_externals then throw builder_externals_disallowed else write_pointer p

  -- The switch over `item.valueType()`.
  unfoldable pub write_item : Options → Value D → Action (Unit {0})
  write_item options item =
      let p = item.payload in
      elim item.value_type [
        | null ↦ write (append_byte 0x18)
        | bool ↦ write_bool p
        | double ↦ lift (double_of p) >>= λ v.
            write λ out. append_length 8 (D.bits v) (append_byte 0x1b out)
        | small_int ↦ lift (int64_of p) >>= write_small_int
        | int ↦ lift (int64_of p) >>= λ v. write (add_int v)
        | uint ↦ lift (uint64_of p) >>= λ v. write (add_uint v)
        | string ↦ lift (bytes_of p) >>= λ bytes. write (write_string bytes)
        | array ↦ lift (unindexed item) >>= λ flag.
            modify (add_compound_value (if flag then 0x13 else 0x06))
        | object ↦ lift (unindexed item) >>= λ flag.
            modify (add_compound_value (if flag then 0x14 else 0x0b))
        | utc_date ↦ lift (int64_of p) >>= λ v. write (add_utc_date v)
        | binary ↦ lift (bytes_of p) >>= λ bytes. write (write_binary bytes)
        | external ↦ write_external options p
        | illegal ↦ write (append_byte 0x17)
        | min_key ↦ write (append_byte 0x1e)
        | max_key ↦ write (append_byte 0x1f)
        | bcd ↦ throw not_implemented
        | tagged ↦ throw not_implemented
        | custom ↦
            if options.disallow_custom
            then throw builder_custom_disallowed
            else throw builder_unexpected_type
        | ValueType.none ↦ throw builder_unexpected_type
      ]

  -- `set(Value const&)`; the address of the item is the result.
  unfoldable pub set_value : Options → Value D → Action ℕ
  set_value options item b =
      (check_key_has_valid_type (eq item.value_type string || eq item.value_type uint)
          >> write_item options item
          >> return b.out.pos)
        b

-- `set(Slice const&)`, for a value that stands in memory of its own.
unfoldable pub set_slice : Options → Memory → ℕ → Action ℕ
set_slice options m s b =
    (check_key_has_valid_type (is_string m s || is_small_int m s || is_uint m s)
        >> (if options.disallow_custom && is_custom m s
            then throw builder_custom_disallowed
            else lift (byte_size m s) >>= λ l. write (write_bytes (bytes_at m s l)))
        >> return b.out.pos)
      b
