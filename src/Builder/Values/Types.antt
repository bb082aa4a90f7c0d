-- ===== src/Builder/Values/Types.antt =====
-- The type that a value has once `set` has written it.
use velocypack.Prelude.{
  ℕ, ◌+◌, ◌-◌, ◌<◌, ◌≡◌, refl, ap, ◌∙◌, arith, Bool, true, false, leb, if◌then◌else◌, Bool-cases,
  inl, inr, leb→le,
}
use velocypack.Prelude.Int.{ℤ, pos, negsuc}
use velocypack.ValueType.{
  ValueType, illegal, null, bool, array, object, double, utc_date, external, min_key, max_key, int,
  uint, small_int, string, binary, bcd, custom, tagged,
}
use velocypack.SliceStaticData.{type_map}
use velocypack.Result.{Result, ok, throws, undefined}
use velocypack.Options.{Options}
use velocypack.Common.Integers.LittleEndian.{memcpy_out-before}
use velocypack.Builder.Output.{Output, append_byte, append_length}
use velocypack.Exception.{builder_unexpected_type, builder_custom_disallowed}
use velocypack.Builder.State.{Builder, Action, ◌>>=◌, modify, throw, add_compound_value}
use velocypack.Builder.Outcome.{Outcome}
use velocypack.Builder.Integers.{add_uint}
use velocypack.Builder.Signed.{add_int}
use velocypack.Builder.Output.Bytes.{head-append_length}
use velocypack.Builder.Values.{
  Doubles, Payload, no_payload, bool_payload, double_payload, int64_payload, uint64_payload,
  string_payload, char_ptr_payload, void_ptr_payload, string_view_payload, lift, write, write_item,
  write_bool, write_small_int, write_external, write_pointer, double_of, int64_of, uint64_of,
  bytes_of, unindexed, add_utc_date,
}
use velocypack.Builder.Values.Heads.{
  int_type, uint_type, byte_type, small_type, add_int-type, add_uint-type, write_string-type,
  write_binary-type,
}

-- The type that an item is written with: its own, but for the numbers that are SmallInts.
unfoldable pub int_written : Result ℤ → ValueType
int_written (ok v) = int_type v
int_written (throws e) = int
int_written undefined = int

unfoldable pub uint_written : Result ℕ → ValueType
uint_written (ok v) = uint_type v
uint_written (throws e) = uint
uint_written undefined = uint

unfoldable pub written_type : (D : Doubles) → ValueType → Payload D → ValueType
written_type D int p = int_written (int64_of D p)
written_type D uint p = uint_written (uint64_of D p)
written_type D t p = t

-- An item of type `t` is written, or nothing is.
abbrev Writes : ValueType → Builder → Result (Unit {0}) × Builder → Type 0
Writes t b = Outcome (λ _ b'. type_map (b'.out.bytes b.out.pos) ≡ t) (λ _ b'. b' ≡ b)

small_int-Writes : (v : ℤ) (b : Builder) → Writes small_int b (write_small_int v b)
unfolding write_small_int
small_int-Writes (pos n) b = elim (Bool-cases (leb n 9)) [
  | inl small ↦
      rw small ((small_type (n + 0x30) n b.out (omega (arith, leb→le n 9 small)) (omega arith)))
  | inr large ↦ rw large refl
]
small_int-Writes (negsuc n) b = elim (Bool-cases (leb n 5)) [
  | inl small ↦
      rw small (
        (small_type (0x40 - (n + 1)) (15 - n) b.out (omega arith)
          (omega (arith, leb→le n 5 small))))
  | inr large ↦ rw large refl
]

compound_type :
    (t : ValueType) (x : ℕ) (b : Builder)
    → x < 256
    → type_map x ≡ t
    → type_map ((add_compound_value x b).out.bytes b.out.pos) ≡ t
unfolding add_compound_value append_byte
compound_type t x b h e =
    ap type_map (memcpy_out-before _ (b.out.pos + 1) 8 0 b.out.pos (omega arith))
    ∙ byte_type t x b.out h e

lift-Writes :
    {A : Type 0} (t : ValueType) (r : Result A) (f : A → Action (Unit {0})) (b : Builder)
    → ((a : A) → Writes t b (f a b))
    → Writes t b ((lift r >>= f) b)
lift-Writes t (ok a) f b h = h a
lift-Writes t (throws e) f b h = refl
lift-Writes t undefined f b h = tt

module _ (D : Doubles) where
  bool-Writes : (p : Payload D) (b : Builder) → Writes bool b (write_bool D p b)
  unfolding write_bool type_map
  bool-Writes (bool_payload true) b = (byte_type bool 0x1a b.out (omega arith) refl)
  bool-Writes (bool_payload false) b = (byte_type bool 0x19 b.out (omega arith) refl)
  bool-Writes (no_payload x) b = refl
  bool-Writes (double_payload x) b = refl
  bool-Writes (int64_payload x) b = refl
  bool-Writes (uint64_payload x) b = refl
  bool-Writes (string_payload x) b = refl
  bool-Writes (char_ptr_payload x) b = refl
  bool-Writes (void_ptr_payload x) b = refl
  bool-Writes (string_view_payload x) b = refl

  eight_type :
      (t : ValueType) (x v : ℕ) (out : Output)
      → x < 256
      → type_map x ≡ t
      → type_map ((append_length 8 v (append_byte x out)).bytes out.pos) ≡ t
  eight_type t x v out h e = ap type_map (head-append_length x 8 v out h) ∙ e

  pointer-Writes : (p : Payload D) (b : Builder) → Writes external b (write_pointer D p b)
  unfolding write_pointer type_map
  pointer-Writes (void_ptr_payload x) b = (eight_type external 0x1d x b.out (omega arith) refl)
  pointer-Writes (bool_payload x) b = refl
  pointer-Writes (no_payload x) b = refl
  pointer-Writes (double_payload x) b = refl
  pointer-Writes (int64_payload x) b = refl
  pointer-Writes (uint64_payload x) b = refl
  pointer-Writes (string_payload x) b = refl
  pointer-Writes (char_ptr_payload x) b = refl
  pointer-Writes (string_view_payload x) b = refl

  external-Writes :
      (options : Options) (p : Payload D) (b : Builder)
      → Writes external b (write_external D options p b)
  unfolding write_external
  external-Writes options p b = elim (Bool-cases options.disallow_externals) [
    | inl fails ↦ rw fails refl
    | inr passes ↦ rw passes (pointer-Writes p b)
  ]

  array_type :
      (flag : Bool) (b : Builder)
      → Writes array b (modify (add_compound_value (if flag then 0x13 else 0x06)) b)
  unfolding type_map
  array_type true b = (compound_type array 0x13 b (omega arith) refl)
  array_type false b = (compound_type array 0x06 b (omega arith) refl)

  object_type :
      (flag : Bool) (b : Builder)
      → Writes object b (modify (add_compound_value (if flag then 0x14 else 0x0b)) b)
  unfolding type_map
  object_type true b = (compound_type object 0x14 b (omega arith) refl)
  object_type false b = (compound_type object 0x0b b (omega arith) refl)

  int-Writes :
      (r : Result ℤ) (b : Builder)
      → Writes (int_written r) b ((lift r >>= λ v. write (add_int v)) b)
  unfolding int_written
  int-Writes (ok v) b = add_int-type v b.out
  int-Writes (throws e) b = refl
  int-Writes undefined b = tt

  uint-Writes :
      (r : Result ℕ) (b : Builder)
      → Writes (uint_written r) b ((lift r >>= λ v. write (add_uint v)) b)
  unfolding uint_written
  uint-Writes (ok v) b = add_uint-type v b.out
  uint-Writes (throws e) b = refl
  uint-Writes undefined b = tt

  custom-Writes :
      (options : Options) (b : Builder)
      → Writes custom b (
          (if options.disallow_custom
              then throw builder_custom_disallowed
              else throw builder_unexpected_type)
            b)
  custom-Writes options b = elim (Bool-cases options.disallow_custom) [
    | inl fails ↦ rw fails refl
    | inr passes ↦ rw passes refl
  ]

  pub write_item-Writes :
      (options : Options) (t : ValueType) (p : Payload D) (b : Builder)
      → Writes
          (written_type D t p)
          b
          (write_item D options (record { value_type = t; payload = p }) b)
  unfolding write_item written_type type_map add_utc_date
  write_item-Writes options null p b = (byte_type null 0x18 b.out (omega arith) refl)
  write_item-Writes options illegal p b = (byte_type illegal 0x17 b.out (omega arith) refl)
  write_item-Writes options min_key p b = (byte_type min_key 0x1e b.out (omega arith) refl)
  write_item-Writes options max_key p b = (byte_type max_key 0x1f b.out (omega arith) refl)
  write_item-Writes options bool p b = bool-Writes p b
  write_item-Writes options double p b =
      lift-Writes double (double_of D p) _ b
        (λ v. (eight_type double 0x1b _ b.out (omega arith) refl))
  write_item-Writes options utc_date p b =
      lift-Writes utc_date (int64_of D p) _ b
        (λ v. (eight_type utc_date 0x1c _ b.out (omega arith) refl))
  write_item-Writes options small_int p b =
      lift-Writes small_int (int64_of D p) _ b (λ v. small_int-Writes v b)
  write_item-Writes options int p b = int-Writes (int64_of D p) b
  write_item-Writes options uint p b = uint-Writes (uint64_of D p) b
  write_item-Writes options string p b =
      lift-Writes string (bytes_of D p) _ b (λ xs. (write_string-type xs b.out))
  write_item-Writes options binary p b =
      lift-Writes binary (bytes_of D p) _ b (λ xs. (write_binary-type xs b.out))
  write_item-Writes options array p b =
      lift-Writes array (unindexed D (record { value_type = array; payload = p })) _ b
        (λ flag. array_type flag b)
  write_item-Writes options object p b =
      lift-Writes object (unindexed D (record { value_type = object; payload = p })) _ b
        (λ flag. object_type flag b)
  write_item-Writes options external p b = external-Writes options p b
  write_item-Writes options bcd p b = refl
  write_item-Writes options tagged p b = refl
  write_item-Writes options custom p b = custom-Writes options b
  write_item-Writes options ValueType.none p b = refl
