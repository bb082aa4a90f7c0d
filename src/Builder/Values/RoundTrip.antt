-- ===== src/Builder/Values/RoundTrip.antt =====
-- What `set` has written for Strings, dates and doubles, the Slice functions read.
use velocypack.Prelude.{
  ℕ, ◌+◌, ◌-◌, ◌^◌, ◌≤◌, ◌<◌, ◌≡◌, refl, sym, ap, ◌∙◌, arith, Bool, true, false, not, ◌||◌, ◌&&◌,
  leb, ◌==◌, Bool-cases, inl, inr, List, [], length, All, leb→le, between, List-cases,
}
use velocypack.Prelude.Int.{ℤ, IsI64}
use velocypack.ValueType.{eq, int, string, uint}
use velocypack.SliceStaticData.{type_map}
use velocypack.Memory.{Memory, bytes_at}
use velocypack.Result.{ok}
use velocypack.Options.{Options}
use velocypack.Common.{to_u64, read_integer_fixed, memcpy_in}
use velocypack.Common.Integers.LittleEndian.{memcpy_in-agree, memcpy_in-memcpy_out}
use velocypack.Common.Integers.Signed.{to_i64-to_u64}
use velocypack.Slice.{
  copy_string, get_utc_date, get_double_bits, is_utc_date, is_double, is_type, type_of,
}
use velocypack.Builder.Output.{Output, append_byte, append_length, write_bytes}
use velocypack.Builder.Output.Bytes.{
  append_byte_self, append_length-memcpy_out, head-append_length, write_bytes-before,
  bytes_at-write_bytes,
}
use velocypack.Builder.State.{
  Builder, ◌>>◌, return, >>=-ok, check_key_has_valid_type, is_open_object, head_at, is_object_head,
}
use velocypack.Builder.Values.{
  int64_of, Doubles, Payload, Value, bytes_of, set_value, write_item, write_string, add_utc_date,
}
use velocypack.Builder.Signed.{add_int}
use velocypack.Builder.Signed.RoundTrip.{to_u64-lt}

-- The state accepts the item: where a key is due, the item may be one.
unfoldable pub accepts : Builder → Bool → Bool
unfolding is_open_object
accepts b may_be_key = not (is_open_object b) || b.key_written || may_be_key

accepts-key : (b : Builder) → accepts b true ≡ true
unfolding accepts
accepts-key b = ground arith

pub check_key-accepts :
    (may_be_key : Bool) (b : Builder)
    → accepts b may_be_key ≡ true
    → (k : Bool) × (check_key_has_valid_type may_be_key b ≡ (ok tt, record b { key_written = k }))
unfolding accepts is_open_object check_key_has_valid_type head_at
check_key-accepts may_be_key b h = elim (List-cases b.stack) [
  | inl empty ↦ rw empty (b.key_written, refl)
  | inr (top, rest, some) ↦
      let h' = rw some at h in
      elim (Bool-cases (is_object_head (b.out.bytes top.start_pos))) [
        | inl object ↦
            let valid : (not b.key_written && not may_be_key) ≡ false = ground arith in
            rw (some, object, valid) (not b.key_written, refl)
        | inr other ↦ rw (some, other) (b.key_written, refl)
      ]
]

read_length :
    (x v : ℕ) (xs : List ℕ) (out : Output)
    → v < 2 ^ 64
    → read_integer_fixed
        (write_bytes xs (append_length 8 v (append_byte x out))).bytes
        8
        (out.pos + 1)
      ≡ v
unfolding read_integer_fixed append_byte
read_length x v xs out h =
    let opened = append_byte x out in
    let (e, p) = append_length-memcpy_out 8 v opened in
    memcpy_in-agree _ (append_length 8 v opened).bytes (out.pos + 1) 8
      (λ a lo hi. write_bytes-before xs (append_length 8 v opened) a (omega (arith, p)))
    ∙ ap (λ (m : Memory). memcpy_in m (out.pos + 1) 8) e
    ∙ memcpy_in-memcpy_out opened.bytes (out.pos + 1) 8 v (omega arith)

copy_short :
    (m : Memory) (s n : ℕ) → n ≤ 126 → m s ≡ 0x40 + n → copy_string m s ≡ ok (bytes_at m (s + 1) n)
unfolding copy_string
copy_short m s n few head =
    let inside : between 0x40 0xbe (m s) ≡ true = ground arith in
    let e : m s - 0x40 ≡ n = omega arith in rw inside (ap (λ (k : ℕ). ok (bytes_at m (s + 1) k)) e)

copy_long :
    (m : Memory) (s n : ℕ)
    → m s ≡ 0xbf
    → read_integer_fixed m 8 (s + 1) ≡ n
    → copy_string m s ≡ ok (bytes_at m (s + 9) n)
unfolding copy_string
copy_long m s n head e =
    let place : s + 1 + 8 ≡ s + 9 = omega arith in
    let outside : between 0x40 0xbe (m s) ≡ false = ground arith in
    let long : (m s == 0xbf) ≡ true = ground arith in rw (outside, long, e, place) refl

pub copy_string-write_string :
    (xs : List ℕ) (out : Output)
    → All (λ b. b < 256) xs
    → length xs < 2 ^ 64
    → copy_string (write_string xs out).bytes out.pos ≡ ok xs
unfolding write_string append_byte
copy_string-write_string xs out bytes short = elim (Bool-cases (leb (length xs) 126)) [
  | inl small ↦
      let few = leb→le _ _ small in
      let opened = append_byte (0x40 + length xs) out in
      rw small (
        copy_short (write_bytes xs opened).bytes out.pos (length xs) few (
          write_bytes-before xs opened out.pos (omega arith)
          ∙ append_byte_self (0x40 + length xs) out (omega (arith, few)))
        ∙ ap ok (bytes_at-write_bytes xs opened bytes))
  | inr large ↦
      let opened = append_length 8 (length xs) (append_byte 0xbf out) in
      let p : opened.pos ≡ out.pos + 9 =
        omega (arith, (append_length-memcpy_out 8 (length xs) (append_byte 0xbf out)).1) in
      rw large (
        copy_long (write_bytes xs opened).bytes out.pos (length xs)
          (write_bytes-before xs opened out.pos (omega (arith, p))
            ∙ head-append_length 0xbf 8 (length xs) out (omega arith))
          (read_length 0xbf (length xs) xs out short)
        ∙ ap ok (
            ap (λ (q : ℕ). bytes_at (write_bytes xs opened).bytes q (length xs)) (sym p)
            ∙ bytes_at-write_bytes xs opened bytes))
]

read_eight :
    (x v : ℕ) (out : Output)
    → v < 2 ^ 64
    → read_integer_fixed (append_length 8 v (append_byte x out)).bytes 8 (out.pos + 1) ≡ v
unfolding append_length write_bytes
read_eight x v out h = read_length x v [] out h

-- For every int64_t and every output so far, getUTCDate at the place where `addUTCDate` begins to write
-- gives the number.
pub get_utc_date-add_utc_date :
    (v : ℤ) (out : Output) → IsI64 v → get_utc_date (add_utc_date v out).bytes out.pos ≡ ok v
unfolding get_utc_date is_utc_date is_type type_of add_utc_date type_map
get_utc_date-add_utc_date v out h =
    rw
      (
        head-append_length 0x1c 8 (to_u64 v) out (omega arith),
        read_eight 0x1c (to_u64 v) out (to_u64-lt v),
        to_i64-to_u64 v h,
      )
      refl

pub get_double_bits-append_length :
    (bits : ℕ) (out : Output)
    → bits < 2 ^ 64
    → get_double_bits (append_length 8 bits (append_byte 0x1b out)).bytes out.pos ≡ ok bits
unfolding get_double_bits is_double is_type type_of type_map
get_double_bits-append_length bits out h =
    rw (head-append_length 0x1b 8 bits out (omega arith), read_eight 0x1b bits out h) refl

module _ (D : Doubles) where
  pub set_value-writes :
      (options : Options) (item : Value D) (b b1 b2 : Builder)
      → check_key_has_valid_type (eq item.value_type string || eq item.value_type uint) b
        ≡ (ok tt, b1)
      → write_item D options item b1 ≡ (ok tt, b2)
      → set_value D options item b ≡ (ok b.out.pos, b2)
  unfolding set_value
  set_value-writes options item b b1 b2 passes written =
      let check = check_key_has_valid_type (eq item.value_type string || eq item.value_type uint) in
      let set = write_item D options item in
      >>=-ok (check >> set) (λ _. return b.out.pos) b b2 tt
        (>>=-ok check (λ _. set) b b1 tt passes ∙ written)

  pub write_item-string :
      (options : Options) (p : Payload D) (xs : List ℕ) (b : Builder)
      → bytes_of D p ≡ ok xs
      → write_item D options (record { value_type = string; payload = p }) b
        ≡ (ok tt, record b { out = write_string xs b.out })
  unfolding write_item
  write_item-string options p xs b given = rw given refl

  -- For every item of type String that holds bytes, fewer than 2 ^ 64: `set` succeeds in every state of
  -- the Builder, changes the buffer and at most the key flag, and copyString at the place that it returns
  -- gives the bytes.
  pub copy_string-set_value :
      (options : Options) (p : Payload D) (xs : List ℕ) (b : Builder)
      → bytes_of D p ≡ ok xs
      → All (λ c. c < 256) xs
      → length xs < 2 ^ 64
      → (k : Bool) × (set_value D options (record { value_type = string; payload = p }) b
          ≡ (ok b.out.pos, record b { key_written = k; out = write_string xs b.out }))
        × (copy_string (write_string xs b.out).bytes b.out.pos ≡ ok xs)
  copy_string-set_value options p xs b given bytes short =
      let (k, passes) = check_key-accepts true b (accepts-key b) in
      let b1 = record b { key_written = k } in
      (
        k,
        set_value-writes options (record { value_type = string; payload = p }) b b1
            (record b1 { out = write_string xs b.out }) passes
            (write_item-string options p xs b1 given),
        copy_string-write_string xs b.out bytes short,
      )

  pub write_item-int :
      (options : Options) (p : Payload D) (v : ℤ) (b : Builder)
      → int64_of D p ≡ ok v
      → write_item D options (record { value_type = int; payload = p }) b
        ≡ (ok tt, record b { out = add_int v b.out })
  unfolding write_item
  write_item-int options p v b given = rw given refl
