-- ===== src/Builder/Close/Compact/RoundTrip.antt =====
-- An Array or Object that `closeCompactArrayOrObject` has written, as it is read back.
use velocypack.Prelude.{
  ℕ, suc, ◌+◌, ◌-◌, ◌%◌, ◌^◌, ◌≤◌, ◌<◌, ◌≡◌, refl, ap, ◌∙◌, sym, arith, Bool, true, false, ◌==◌,
  if◌then◌else◌, Bool-cases, inl, inr, ==_iff,
}
use velocypack.SliceStaticData.{type_map, fixed_type_lengths}
use velocypack.Memory.{Memory, memmove, memmove-outside, memmove-inside, update_self, update_ne}
use velocypack.Result.{ok}
use velocypack.Common.{
  get_variable_value_length, read_variable_value_length, store_variable_value_length,
}
use velocypack.Common.VarLength.Width.{get_variable_value_length_lem}
use velocypack.Common.VarLength.RoundTrip.Groups.{
  read_variable-store_groups, read_variable-store_agree, store_groups-Behind, store_groups-Beyond,
}
use velocypack.Slice.{
  byte_size, byte_size_loop, byte_size_dynamic, compound_byte_size, address_space, length,
  compact_length, is_array, is_object, is_type, type_of,
}
use velocypack.Builder.Output.{Output, patch}
use velocypack.Builder.Close.Compact.{compact_sizes, compact_output}
use native.Mathlib.Nat.{pow-suc}

-- The byte length takes the bytes that are set aside for it.
pub compact_sizes_lem :
    (size : ℕ)
    → size + 12 < 2 ^ 64
    → (k : ℕ) × ((compact_sizes size).0 ≡ suc k)
      × (k ≤ 10)
      × ((compact_sizes size).1 ≡ size + suc k)
      × (size + suc k < 128 ^ suc k)
unfolding compact_sizes
compact_sizes_lem size h =
    let (k, e, le, fits, needed) = get_variable_value_length_lem size (omega arith) in
    let (k', e', le', fits', needed') =
      get_variable_value_length_lem (size + suc k) (omega arith) in
    elim (Bool-cases (get_variable_value_length (size + suc k) == suc k)) [
      | inl same ↦
          let eq : k' ≡ k = omega (arith, (==_iff _ _).0 same, e') in
          rw (e, same) (k, refl, omega (arith, le), refl, rw eq at fits')
      | inr other ↦
          rw (e, other)
            (
              suc k,
              omega arith,
              omega (arith, le),
              omega arith,
              omega (arith, fits, le, pow-suc 128 (suc k)),
            )
    ]

-- The fields of a compact Array or Object in memory.
module _ (m : Memory) (s total n : ℕ) (is_arr : Bool) (head : m s ≡ (if is_arr then 0x13 else 0x14))
    (size : read_variable_value_length false m (s + 1) ≡ ok total)
    (count : read_variable_value_length true m (s + total - 1) ≡ ok n) where
  size_loop : (fuel : ℕ) → byte_size_loop (suc fuel) m s ≡ ok total
  unfolding byte_size_loop byte_size_dynamic compound_byte_size type_map fixed_type_lengths
  size_loop fuel = elim (Bool-cases is_arr) [
    | inl array ↦ let at : m s ≡ 0x13 = rw array at head in rw (at, size, at) refl
    | inr none ↦ let at : m s ≡ 0x14 = rw none at head in rw (at, size, at) refl
  ]

  compact-byte_size : byte_size m s ≡ ok total
  unfolding byte_size address_space
  compact-byte_size = size_loop (2 ^ 64 - 1)

  compact-length : length m s ≡ ok n
  unfolding length compact_length is_array is_object is_type type_of type_map
  compact-length = elim (Bool-cases is_arr) [
    | inl array ↦ rw (head, array, size, count) refl
    | inr none ↦ rw (head, none, size, count) refl
  ]

head_byte :
    (is_arr : Bool) → (if is_arr then 0x13 else 0x14) % 256 ≡ (if is_arr then 0x13 else 0x14)
head_byte true = refl
head_byte false = refl

-- For every open Array or Object whose compact form has a byte length of eight bytes at most: what
-- `closeCompactArrayOrObject` writes has at `pos` the byte size up to the new end of the buffer and the
-- number of members, and the bytes of the members follow the byte length as they were.
pub compact_output_lem :
    (pos : ℕ) (is_array : Bool) (n : ℕ) (out : Output)
    → pos + 9 ≤ out.pos
    → out.pos + 30 < 2 ^ 64
    → n < 2 ^ 64
    → let b_len = (compact_sizes (out.pos - (pos + 8) + get_variable_value_length n)).0 in
      let closed = compact_output pos is_array n out in
      b_len < 9
      → (byte_size closed.bytes pos ≡ ok (closed.pos - pos))
        × (length closed.bytes pos ≡ ok n)
        × ((i : ℕ)
            → i < out.pos - (pos + 9)
            → closed.bytes (pos + 1 + b_len + i) ≡ out.bytes (pos + 9 + i))
unfolding compact_output patch
compact_output_lem pos is_array n out room small few short =
    let (kn, en, len, fn, neededn) = get_variable_value_length_lem n few in
    let size = out.pos - (pos + 8) + get_variable_value_length n in
    let (k, e, le, total, fits) = compact_sizes_lem size (omega (arith, en, len)) in
    let opened = patch pos (if is_array then 0x13 else 0x14) out in
    let b_len = (compact_sizes size).0 in
    let moved = memmove opened.bytes (pos + (1 + b_len)) (pos + 9) (opened.pos - (pos + 9)) in
    let bytes = (compact_sizes size).1 in
    let sized = store_variable_value_length false moved (pos + 1) bytes in
    let q = pos + bytes - 1 in
    let m = store_variable_value_length true sized q n in
    let far : (a : ℕ) → a + kn < q → m a ≡ sized a =
      λ a h. store_groups-Beyond kn true sized q n a len (omega (arith, total, en, e)) fn h in
    let k9 : k ≤ 9 = omega (arith, e, short) in
    let held : bytes < 128 ^ suc k = rw total fits in
    let before : (a : ℕ) → a < pos + 1 → sized a ≡ moved a =
      λ a h. store_groups-Behind k false moved (pos + 1) bytes a k9 tt held h in
    let behind : (a : ℕ) → pos + 1 + k < a → sized a ≡ moved a =
      λ a h. store_groups-Beyond k false moved (pos + 1) bytes a k9 tt held h in
    let end : out.pos - 8 + (get_variable_value_length n + b_len) - pos ≡ bytes =
      omega (arith, total, en, e) in
    let head : m pos ≡ (if is_array then 0x13 else 0x14) =
      far pos (omega (arith, total, en))
      ∙ before pos (omega arith)
      ∙ memmove-outside opened.bytes (pos + (1 + b_len)) (pos + 9) (opened.pos - (pos + 9)) pos
          (omega arith)
      ∙ update_self out.bytes pos _
      ∙ head_byte is_array in
    let read_size : read_variable_value_length false m (pos + 1) ≡ ok bytes =
      read_variable-store_agree k moved m (pos + 1) bytes k9 held (omega (arith, total, en, len))
        (λ a lo hi. far a (omega (arith, total, en))) in
    let read_count : read_variable_value_length true m q ≡ ok n =
      read_variable-store_groups kn true sized q n len (omega (arith, total, en)) fn few in
    (
      compact-byte_size m pos bytes n is_array head read_size read_count ∙ ap ok (sym end),
      compact-length m pos bytes n is_array head read_size read_count,
      λ i h.
          far (pos + 1 + b_len + i) (omega (arith, total, en, e))
          ∙ behind (pos + 1 + b_len + i) (omega (arith, e))
          ∙ ap moved (omega arith)
          ∙ memmove-inside opened.bytes (pos + (1 + b_len)) (pos + 9) (opened.pos - (pos + 9)) i h
          ∙ update_ne out.bytes pos _ (pos + 9 + i) (λ z. omega arith),
    )
