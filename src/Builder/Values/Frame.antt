-- ===== src/Builder/Values/Frame.antt =====
-- What `set` leaves alone when it writes a Value.
use velocypack.Prelude.{
  ℕ, ◌+◌, ◌-◌, ◌<◌, ◌≡◌, refl, ◌∙◌, arith, Bool, true, false, leb, if◌then◌else◌, ◌||◌, Bool-cases,
  inl, inr, List, ◌∷◌, length,
}
use velocypack.Prelude.Int.{ℤ, pos, negsuc}
use velocypack.ValueType.{
  ValueType, eq, illegal, null, bool, array, object, double, utc_date, external, min_key, max_key,
  int, uint, small_int, string, binary, bcd, custom, tagged,
}
use velocypack.Result.{Result, ok, throws, undefined}
use velocypack.Options.{Options}
use velocypack.Common.{memcpy_out}
use velocypack.Common.Integers.LittleEndian.{memcpy_out-before}
use velocypack.Exception.{builder_unexpected_type, builder_custom_disallowed}
use velocypack.Builder.Output.{Output, append_byte}
use velocypack.Builder.Output.Bytes.{append_byte_self}
use velocypack.Builder.Output.Extends.{
  Extends, Extends-trans, append_byte-Extends, headed-Extends, write_bytes-Extends,
  append_uint-Extends, add_uint-Extends, add_int-Extends,
}
use velocypack.Builder.State.{
  Builder, Action, ◌>>=◌, modify, throw, is_array_head, is_object_head, add_compound_value,
}
use velocypack.Builder.Outcome.{Outcome}
use velocypack.Builder.Values.{
  Doubles, Payload, lift, write_item, write_bool, write_small_int, write_pointer, write_external,
  double_of, int64_of, uint64_of, bytes_of, unindexed, write_string, write_binary, add_utc_date,
  no_payload, bool_payload, double_payload, int64_payload, uint64_payload, string_payload,
  char_ptr_payload, void_ptr_payload, string_view_payload,
}

-- Bytes are added, and nothing else changes.
abbrev pub OnlyAdds : Builder → Builder → Type 0
OnlyAdds b b' =
    Extends b.out b'.out
    × (b'.stack ≡ b.stack)
    × (b'.indexes ≡ b.indexes)
    × (b'.key_written ≡ b.key_written)

-- An Array or Object is opened at the end of the buffer: nine bytes, and a level with no members.
abbrev pub Opens : Builder → Builder → Type 0
Opens b b' =
    Extends b.out b'.out
    × (b'.stack ≡ record { start_pos = b.out.pos; index_start_pos = length b.indexes } ∷ b.stack)
    × (b'.indexes ≡ b.indexes)
    × (b'.key_written ≡ b.key_written)
    × (b'.out.pos ≡ b.out.pos + 9)
    × ((is_array_head (b'.out.bytes b.out.pos) || is_object_head (b'.out.bytes b.out.pos)) ≡ true)

unfoldable pub Adds : ValueType → Builder → Builder → Type 0
Adds t b b' = if eq t array || eq t object then Opens b b' else OnlyAdds b b'

pub add_compound_value-Opens :
    (x : ℕ) (b : Builder)
    → x < 256
    → (is_array_head x || is_object_head x) ≡ true
    → Opens b (add_compound_value x b)
unfolding add_compound_value append_byte
add_compound_value-Opens x b small head =
    let start = append_byte x b.out in
    let (le, same) = append_byte-Extends x b.out in
    let kept : memcpy_out start.bytes (b.out.pos + 1) 8 0 b.out.pos ≡ x =
      memcpy_out-before start.bytes (b.out.pos + 1) 8 0 b.out.pos (omega arith)
      ∙ append_byte_self x b.out small in
    (
      (
        omega arith,
        λ a h. memcpy_out-before start.bytes (b.out.pos + 1) 8 0 a (omega arith) ∙ same a h,
      ),
      refl,
      refl,
      refl,
      omega arith,
      rw kept head,
    )

-- The outcome of the part of `set` that writes.
abbrev Frame : ValueType → Builder → Result (Unit {0}) × Builder → Type 0
Frame t b = Outcome (λ _ b'. Adds t b b') (λ _ b'. b' ≡ b)

lift-Frame :
    {A : Type 0} (t : ValueType) (r : Result A) (f : A → Action (Unit {0})) (b : Builder)
    → ((a : A) → Frame t b (f a b))
    → Frame t b ((lift r >>= f) b)
lift-Frame t (ok a) f b h = h a
lift-Frame t (throws e) f b h = refl
lift-Frame t undefined f b h = tt

adds :
    {b : Builder} (f : Output → Output)
    → Extends b.out (f b.out)
    → OnlyAdds b (record b { out = f b.out })
adds f h = (h, refl, refl, refl)

small_int-Frame : (v : ℤ) (b : Builder) → Frame small_int b (write_small_int v b)
unfolding write_small_int Adds
small_int-Frame (pos n) b = elim (Bool-cases (leb n 9)) [
  | inl small ↦ rw small (append_byte-Extends (n + 0x30) b.out, refl, refl, refl)
  | inr large ↦ rw large refl
]
small_int-Frame (negsuc n) b = elim (Bool-cases (leb n 5)) [
  | inl small ↦ rw small (append_byte-Extends (0x40 - (n + 1)) b.out, refl, refl, refl)
  | inr large ↦ rw large refl
]

write_string-Extends : (xs : List ℕ) (out : Output) → Extends out (write_string xs out)
unfolding write_string
write_string-Extends xs out = elim (Bool-cases (leb (length xs) 126)) [
  | inl small ↦ rw small (
      Extends-trans out _ _ (append_byte-Extends (0x40 + length xs) out) (write_bytes-Extends xs _))
  | inr large ↦
      rw large
        (Extends-trans out _ _ (headed-Extends 0xbf 8 (length xs) out) (write_bytes-Extends xs _))
]

write_binary-Extends : (xs : List ℕ) (out : Output) → Extends out (write_binary xs out)
unfolding write_binary
write_binary-Extends xs out =
    Extends-trans out _ _ (append_uint-Extends (length xs) 0xbf out) (write_bytes-Extends xs _)

module _ (D : Doubles) where
  bool-Frame : (p : Payload D) (b : Builder) → Frame bool b (write_bool D p b)
  unfolding write_bool Adds
  bool-Frame (bool_payload x) b = (append_byte-Extends _ b.out, refl, refl, refl)
  bool-Frame (no_payload x) b = refl
  bool-Frame (double_payload x) b = refl
  bool-Frame (int64_payload x) b = refl
  bool-Frame (uint64_payload x) b = refl
  bool-Frame (string_payload x) b = refl
  bool-Frame (char_ptr_payload x) b = refl
  bool-Frame (void_ptr_payload x) b = refl
  bool-Frame (string_view_payload x) b = refl

  pointer-Frame : (p : Payload D) (b : Builder) → Frame external b (write_pointer D p b)
  unfolding write_pointer Adds
  pointer-Frame (void_ptr_payload x) b = (headed-Extends 0x1d 8 x b.out, refl, refl, refl)
  pointer-Frame (bool_payload x) b = refl
  pointer-Frame (no_payload x) b = refl
  pointer-Frame (double_payload x) b = refl
  pointer-Frame (int64_payload x) b = refl
  pointer-Frame (uint64_payload x) b = refl
  pointer-Frame (string_payload x) b = refl
  pointer-Frame (char_ptr_payload x) b = refl
  pointer-Frame (string_view_payload x) b = refl

  external-Frame :
      (options : Options) (p : Payload D) (b : Builder)
      → Frame external b (write_external D options p b)
  unfolding write_external
  external-Frame options p b = elim (Bool-cases options.disallow_externals) [
    | inl fails ↦ rw fails refl
    | inr passes ↦ rw passes (pointer-Frame p b)
  ]

  custom-Frame :
      (options : Options) (b : Builder)
      → Frame custom b (
          (if options.disallow_custom
              then throw builder_custom_disallowed
              else throw builder_unexpected_type)
            b)
  custom-Frame options b = elim (Bool-cases options.disallow_custom) [
    | inl fails ↦ rw fails refl
    | inr passes ↦ rw passes refl
  ]

  array-Frame :
      (flag : Bool) (b : Builder)
      → Frame array b (modify (add_compound_value (if flag then 0x13 else 0x06)) b)
  unfolding Adds
  array-Frame true b = add_compound_value-Opens 0x13 b (omega arith) refl
  array-Frame false b = add_compound_value-Opens 0x06 b (omega arith) refl

  object-Frame :
      (flag : Bool) (b : Builder)
      → Frame object b (modify (add_compound_value (if flag then 0x14 else 0x0b)) b)
  unfolding Adds
  object-Frame true b = add_compound_value-Opens 0x14 b (omega arith) refl
  object-Frame false b = add_compound_value-Opens 0x0b b (omega arith) refl

  pub write_item-Frame :
      (options : Options) (t : ValueType) (p : Payload D) (b : Builder)
      → Frame t b (write_item D options (record { value_type = t; payload = p }) b)
  unfolding write_item Adds add_utc_date
  write_item-Frame options null p b = (append_byte-Extends 0x18 b.out, refl, refl, refl)
  write_item-Frame options illegal p b = (append_byte-Extends 0x17 b.out, refl, refl, refl)
  write_item-Frame options min_key p b = (append_byte-Extends 0x1e b.out, refl, refl, refl)
  write_item-Frame options max_key p b = (append_byte-Extends 0x1f b.out, refl, refl, refl)
  write_item-Frame options bool p b = bool-Frame p b
  write_item-Frame options double p b =
      lift-Frame double (double_of D p) _ b (λ v. (headed-Extends 0x1b 8 _ b.out, refl, refl, refl))
  write_item-Frame options utc_date p b =
      lift-Frame utc_date (int64_of D p) _ b
        (λ v. (headed-Extends 0x1c 8 _ b.out, refl, refl, refl))
  write_item-Frame options small_int p b =
      lift-Frame small_int (int64_of D p) _ b (λ v. small_int-Frame v b)
  write_item-Frame options int p b =
      lift-Frame int (int64_of D p) _ b (λ v. (add_int-Extends v b.out, refl, refl, refl))
  write_item-Frame options uint p b =
      lift-Frame uint (uint64_of D p) _ b (λ v. (add_uint-Extends v b.out, refl, refl, refl))
  write_item-Frame options string p b =
      lift-Frame string (bytes_of D p) _ b (λ xs. (write_string-Extends xs b.out, refl, refl, refl))
  write_item-Frame options binary p b =
      lift-Frame binary (bytes_of D p) _ b (λ xs. (write_binary-Extends xs b.out, refl, refl, refl))
  write_item-Frame options array p b =
      lift-Frame array (unindexed D (record { value_type = array; payload = p })) _ b
        (λ flag. array-Frame flag b)
  write_item-Frame options object p b =
      lift-Frame object (unindexed D (record { value_type = object; payload = p })) _ b
        (λ flag. object-Frame flag b)
  write_item-Frame options external p b = external-Frame options p b
  write_item-Frame options bcd p b = refl
  write_item-Frame options tagged p b = refl
  write_item-Frame options custom p b = custom-Frame options b
  write_item-Frame options ValueType.none p b = refl
