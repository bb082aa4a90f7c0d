-- ===== src/Builder/Values/Heads.antt =====
-- The head bytes that `set` writes, against the types of the items.
use velocypack.Prelude.{
  ℕ, zero, suc, ◌+◌, ◌-◌, ◌/◌, ◌%◌, ◌^◌, ◌≤◌, ◌<◌, ◌≡◌, refl, ap, ◌∙◌, arith, true, leb, ◌==◌,
  if◌then◌else◌, false, Bool-cases, inl, inr, List, length, all_below, all_below_sound, leb→le,
  bit_and, ◌&&◌,
}
use velocypack.Prelude.Int.{ℤ, pos, negsuc, leb_ℤ}
use velocypack.ValueType.{ValueType, eq, eq→≡, int, uint, small_int, string, binary}
use velocypack.SliceStaticData.{type_map}
use velocypack.Memory.{update_self, update_ne}
use velocypack.Builder.Output.{Output, append_byte, patch, advance}
use velocypack.Builder.Output.Bytes.{
  append_byte_self, append_length-memcpy_out, head-append_length, write_bytes-before,
}
use velocypack.Builder.Integers.{append_uint_loop, append_uint, add_uint}
use velocypack.Builder.Signed.{
  magnitude, int_length_loop, int_length, append_bytes, append_int, add_int,
}
use velocypack.Builder.Values.{write_string, write_binary}

-- The type of the byte at the place where a function begins to write.
abbrev HeadType : ValueType → (Output → Output) → Output → Type 0
HeadType t f out = type_map ((f out).bytes out.pos) ≡ t

pub byte_type :
    (t : ValueType) (x : ℕ) (out : Output)
    → x < 256
    → type_map x ≡ t
    → type_map ((append_byte x out).bytes out.pos) ≡ t
byte_type t x out h e = ap type_map (append_byte_self x out h) ∙ e

range_type :
    (t : ValueType) (base n k : ℕ)
    → all_below n (λ i. eq (type_map (base + i)) t) ≡ true
    → k < n
    → type_map (base + k) ≡ t
range_type t base n k h lt = eq→≡ _ _ (all_below_sound n _ k h lt)

small_types : all_below 16 (λ i. eq (type_map (0x30 + i)) small_int) ≡ true
unfolding all_below type_map
small_types = refl

int_types : all_below 8 (λ i. eq (type_map (0x20 + i)) int) ≡ true
unfolding all_below type_map
int_types = refl

uint_types : all_below 8 (λ i. eq (type_map (0x28 + i)) uint) ≡ true
unfolding all_below type_map
uint_types = refl

string_types : all_below 127 (λ i. eq (type_map (0x40 + i)) string) ≡ true
unfolding all_below type_map
string_types = refl

binary_types : all_below 8 (λ i. eq (type_map (0xc0 + i)) binary) ≡ true
unfolding all_below type_map
binary_types = refl

pub small_type :
    (x k : ℕ) (out : Output)
    → k < 16
    → x ≡ 0x30 + k
    → type_map ((append_byte x out).bytes out.pos) ≡ small_int
small_type x k out h e =
    byte_type small_int x out (omega arith)
      (ap type_map e ∙ range_type small_int 0x30 16 k small_types h)

-- `vSize` behind the loop is from 1 to 8.
loop_size :
    (k v size : ℕ) (out : Output)
    → (extra : ℕ) × ((append_uint_loop k v size out).0 ≡ size + suc extra) × (extra ≤ k)
unfolding append_uint_loop
loop_size zero v size out = (0, omega arith, omega arith)
loop_size (suc k) v size out =
    let out' = append_byte (bit_and v 0xff) out in
    let (extra, e, h) = loop_size k (v / 2 ^ 8) (size + 1) out' in
    elim (Bool-cases (v / 2 ^ 8 == 0)) [
      | inl none_left ↦ rw none_left (0, omega arith, omega arith)
      | inr left ↦ rw left (suc extra, omega (arith, e), omega (arith, h))
    ]

uint_head :
    (v base : ℕ) (out : Output)
    → base + 8 < 256
    → (k : ℕ) × (k < 8) × ((append_uint v base out).bytes out.pos ≡ base + 1 + k)
unfolding append_uint patch
uint_head v base out h =
    let (k, e, le) = loop_size 7 v 0 (advance out) in
    (
      k,
      omega (arith, le),
      update_self _ out.pos ((base + (append_uint_loop 7 v 0 (advance out)).0) % 256)
          ∙ omega (arith, e, le),
    )

-- The numbers that are written as SmallInts, of the types UInt and Int: 0 to 9, and -6 to 9.
unfoldable pub uint_type : ℕ → ValueType
uint_type v = if leb v 9 then small_int else uint

unfoldable pub int_type : ℤ → ValueType
int_type v = if leb_ℤ (negsuc 5) v && leb_ℤ v (pos 9) then small_int else int

pub add_uint-type : (v : ℕ) (out : Output) → type_map ((add_uint v out).bytes out.pos) ≡ uint_type v
unfolding add_uint uint_type
add_uint-type v out = elim (Bool-cases (leb v 9)) [
  | inl small ↦ rw small (small_type (0x30 + v) v out (omega (arith, leb→le v 9 small)) refl)
  | inr large ↦
      let (k, lt, e) = uint_head v 0x27 out (omega arith) in
      rw large (ap type_map e ∙ range_type uint 0x28 8 k uint_types lt)
]

int_loop_size : (rounds x size : ℕ) → int_length_loop rounds x size ≤ size + rounds
unfolding int_length_loop
int_loop_size zero x size = omega arith
int_loop_size (suc rounds) x size = ground (arith, int_loop_size rounds (x / 2 ^ 8) (size + 1))

int_length-bounds : (v : ℤ) → (k : ℕ) × (int_length v ≡ suc k) × (k < 8)
unfolding int_length
int_length-bounds v =
    let size = int_length_loop 7 (magnitude v) 0 in
    elim (Bool-cases (leb_ℤ (negsuc 0x7f) v && leb_ℤ v (pos 0x7f))) [
      | inl one ↦ rw one (0, omega arith, omega arith)
      | inr more ↦ rw more (size, omega arith, omega (arith, int_loop_size 7 (magnitude v) 0))
    ]

append_bytes-before :
    (n x : ℕ) (out : Output) (a : ℕ) → a < out.pos → (append_bytes n x out).bytes a ≡ out.bytes a
unfolding append_bytes append_byte
append_bytes-before zero x out a h = refl
append_bytes-before (suc n) x out a h =
    append_bytes-before n (x / 2 ^ 8) (append_byte (bit_and x 0xff) out) a (omega arith)
    ∙ update_ne out.bytes out.pos _ a (λ e. omega arith)

append_int-type : (v : ℤ) (out : Output) → type_map ((append_int v 0x1f out).bytes out.pos) ≡ int
unfolding append_int append_byte
append_int-type v out =
    let (k, e, lt) = int_length-bounds v in
    ap type_map (
      append_bytes-before _ _ (append_byte (0x1f + int_length v) out) out.pos (omega arith)
      ∙ append_byte_self (0x1f + int_length v) out (omega (arith, e, lt))
      ∙ omega (arith, e))
    ∙ range_type int 0x20 8 k int_types lt

pub add_int-type : (v : ℤ) (out : Output) → type_map ((add_int v out).bytes out.pos) ≡ int_type v
unfolding add_int int_type
add_int-type (pos n) out = elim (Bool-cases (leb n 9)) [
  | inl small ↦
      let both : (leb_ℤ (negsuc 5) (pos n) && leb_ℤ (pos n) (pos 9)) ≡ true = ground arith in
      rw (both, small) (small_type (0x30 + n) n out (omega (arith, leb→le n 9 small)) refl)
  | inr large ↦
      let both : (leb_ℤ (negsuc 5) (pos n) && leb_ℤ (pos n) (pos 9)) ≡ false = ground arith in
      rw (both, large) (append_int-type (pos n) out)
]
add_int-type (negsuc n) out = elim (Bool-cases (leb n 5)) [
  | inl small ↦
      let both : (leb_ℤ (negsuc 5) (negsuc n) && leb_ℤ (negsuc n) (pos 9)) ≡ true = ground arith in
      rw (both, small)
        (small_type (0x40 - (n + 1)) (15 - n) out (omega arith) (omega (arith, leb→le n 5 small)))
  | inr large ↦
      let both : (leb_ℤ (negsuc 5) (negsuc n) && leb_ℤ (negsuc n) (pos 9)) ≡ false = ground arith in
      rw (both, large) (append_int-type (negsuc n) out)
]

pub write_string-type :
    (xs : List ℕ) (out : Output) → type_map ((write_string xs out).bytes out.pos) ≡ string
unfolding write_string append_byte type_map
write_string-type xs out = elim (Bool-cases (leb (length xs) 126)) [
  | inl small ↦ rw small (
      ap type_map (
        write_bytes-before xs (append_byte (0x40 + length xs) out) out.pos (omega arith)
        ∙ append_byte_self (0x40 + length xs) out (omega (arith, leb→le _ _ small)))
      ∙ range_type string 0x40 127 (length xs) string_types (omega (arith, leb→le _ _ small)))
  | inr large ↦ rw large (
      ap type_map (
        write_bytes-before xs _ out.pos
          (omega (arith, (append_length-memcpy_out 8 (length xs) (append_byte 0xbf out)).1))
        ∙ head-append_length 0xbf 8 (length xs) out (omega arith)))
]

append_uint_loop-pos :
    (k v size : ℕ) (out : Output) → out.pos < (append_uint_loop k v size out).1.pos
unfolding append_uint_loop append_byte
append_uint_loop-pos zero v size out = omega arith
append_uint_loop-pos (suc k) v size out =
    ground (arith, append_uint_loop-pos k (v / 2 ^ 8) (size + 1) (append_byte (bit_and v 0xff) out))

pub write_binary-type :
    (xs : List ℕ) (out : Output) → type_map ((write_binary xs out).bytes out.pos) ≡ binary
unfolding write_binary append_uint patch advance
write_binary-type xs out =
    let (k, lt, e) = uint_head (length xs) 0xbf out (omega arith) in
    ap type_map (
      write_bytes-before xs (append_uint (length xs) 0xbf out) out.pos
        (omega (arith, append_uint_loop-pos 7 (length xs) 0 (advance out)))
      ∙ e)
    ∙ range_type binary 0xc0 8 k binary_types lt
