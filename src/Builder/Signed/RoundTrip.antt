-- ===== src/Builder/Signed/RoundTrip.antt =====
-- What `addInt` has written, `getInt` reads.
use velocypack.Prelude.{
  ℕ, zero, suc, ◌+◌, ◌-◌, ◌*◌, ◌/◌, ◌%◌, ◌^◌, ◌≤◌, ◌<◌, ◌≡◌, refl, ap, ◌∙◌, arith, true, false, leb,
  ltb, ◌==◌, ==_iff, between, if◌then◌else◌, bit_and, ◌&&◌, Bool-cases, inl, inr, leb→le, get_or,
  all_below, all_below_sound, and-left, and-right,
}
use velocypack.Prelude.Bits.{bit_and_ff}
use velocypack.Prelude.Int.{ℤ, pos, negsuc, ◌+ℤ◌, ◌-ℤ◌, IsI64}
use native.Mathlib.Nat.{pow-suc}
use velocypack.Result.{ok}
use velocypack.Memory.{Memory, IsByteMemory, update, update_self}
use velocypack.Common.{memcpy_in, memcpy_out, read_integer_non_empty, to_i64, to_u64, cast_u64}
use velocypack.Common.Integers.LittleEndian.{
  read_integer_non_empty-memcpy_in, memcpy_in-memcpy_out, memcpy_out-before,
}
use velocypack.Common.Integers.Signed.{to_i64-to_u64}
use velocypack.Slice.{get_int, get_small_int_unchecked, read_signed, max_values}
use velocypack.Builder.Output.{Output, append_byte}
use velocypack.Builder.Integers.RoundTrip.{update-IsByteMemory, memcpy_out-IsByteMemory}
use velocypack.Builder.Signed.{
  int_length_loop, magnitude, int_length, int_bits, append_bytes, append_int, add_int,
}

-- Half of the range of k + 1 bytes.
half : ℕ → ℕ
half k = 128 * 256 ^ k

loop-half :
    (rounds x size : ℕ)
    → x < half rounds
    → 1 ≤ rounds
    → (extra : ℕ) × (int_length_loop rounds x size ≡ size + suc extra)
      × (suc extra ≤ rounds)
      × (x < half (suc extra))
unfolding int_length_loop half
loop-half zero x size h lo = absurd (omega arith)
loop-half (suc zero) x size h lo = (0, ground arith, omega arith, omega arith)
loop-half (suc (suc rounds)) x size h lo = elim (Bool-cases (leb 0x80 (x / 2 ^ 8))) [
  | inl large ↦
      let (extra, e, few, fits) =
        loop-half (suc rounds) (x / 256) (size + 1) (omega (arith, pow-suc 256 (suc rounds)))
          (omega arith) in
      (suc extra, rw large (omega (arith, e)), omega arith, omega (arith, pow-suc 256 (suc extra)))
  | inr small ↦ (0, rw small refl, omega arith, ground arith)
]

-- The length is 1 to 8 and holds the number and its sign.
int_length-half :
    (v : ℤ) → IsI64 v → (k : ℕ) × (int_length v ≡ suc k) × (k ≤ 7) × (magnitude v < half k)
unfolding int_length half
int_length-half (pos n) h = elim (Bool-cases (leb n 127)) [
  | inl small ↦ (0, ground arith, omega arith, omega (arith, leb→le n 127 small))
  | inr large ↦
      let (extra, e, few, fits) = loop-half 7 n 0 (omega (arith, h.0)) (omega arith) in
      (suc extra, ground (arith, e), few, fits)
]
int_length-half (negsuc n) h = elim (Bool-cases (leb n 127)) [
  | inl small ↦ (0, ground arith, omega arith, omega (arith, leb→le n 127 small))
  | inr large ↦
      let (extra, e, few, fits) = loop-half 7 n 0 (omega (arith, h.1)) (omega arith) in
      (suc extra, ground (arith, e), few, fits)
]

bytes-memcpy_out :
    (size x : ℕ) (out : Output)
    → (append_bytes size x out).bytes ≡ memcpy_out out.bytes out.pos size x
unfolding append_bytes memcpy_out append_byte
bytes-memcpy_out zero x out = refl
bytes-memcpy_out (suc size) x out =
    bytes-memcpy_out size (x / 256) (append_byte (bit_and x 0xff) out)
    ∙ ap (λ (b : ℕ). memcpy_out (update out.bytes out.pos b) (out.pos + 1) size (x / 256))
        (omega (arith, bit_and_ff x))

-- `maxValues` and `shift`, and that they leave room in 64 bits.
halves :
    (k : ℕ)
    → (get_or max_values k 0 == half k && 2 ^ (suc k * 8 - 1) == half k && leb (half k) (2 ^ 55))
      ≡ true
    → (get_or max_values k 0 ≡ half k) × (2 ^ (suc k * 8 - 1) ≡ half k) × (half k ≤ 2 ^ 55)
halves k h = (
  (==_iff _ _).0 (and-left _ _ (and-left _ _ h)),
  (==_iff _ _).0 (and-right _ _ (and-left _ _ h)),
  leb→le _ _ (and-right _ _ h),
)

halves_hold :
    all_below 7 (λ k.
      get_or max_values k 0 == half k && 2 ^ (suc k * 8 - 1) == half k && leb (half k) (2 ^ 55))
    ≡ true
unfolding all_below half
halves_hold = refl

half_table :
    (k : ℕ)
    → k < 7
    → (get_or max_values k 0 ≡ half k) × (2 ^ (suc k * 8 - 1) ≡ half k) × (half k ≤ 2 ^ 55)
half_table k lt = halves k (all_below_sound 7 _ k halves_hold lt)

bits_meaning :
    (v : ℤ) (h : ℕ)
    → magnitude v < h
    → h ≤ 2 ^ 55
    → ((if ltb (int_bits v h) h then pos (int_bits v h) else pos (int_bits v h) -ℤ pos (2 * h)) ≡ v)
      × (int_bits v h < 2 * h)
unfolding int_bits cast_u64 ◌-ℤ◌ ◌+ℤ◌
bits_meaning (pos n) h lt le = (ground arith, ground arith)
bits_meaning (negsuc n) h lt le = (ground arith, ground arith)

-- What `getInt` makes of a head and the bytes behind it.
read_int :
    (m : Memory) (s k x : ℕ) (v : ℤ)
    → IsByteMemory m
    → k ≤ 7
    → m s ≡ 0x20 + k
    → memcpy_in m (s + 1) (suc k) ≡ x
    → (if k == 7 then to_i64 x else (if ltb x (half k) then pos x else pos x -ℤ pos (2 * half k)))
      ≡ v
    → get_int m s ≡ ok v
unfolding get_int read_signed
read_int m s k x v bytes few head content meaning =
    let width : m s - 0x1f ≡ suc k = omega arith in
    let place : m s - 0x20 ≡ k = omega arith in
    let e : read_integer_non_empty m (s + 1) (m s - 0x1f) ≡ x =
      ap (λ (w : ℕ). read_integer_non_empty m (s + 1) w) width
      ∙ read_integer_non_empty-memcpy_in m (s + 1) (suc k) bytes (omega arith) (omega arith)
      ∙ content in
    let inside : between 0x20 0x27 (m s) ≡ true = ground arith in
    elim (Bool-cases (k == 7)) [
      | inl seven ↦
          let last : (m s == 0x27) ≡ true = ground arith in
          rw (inside, last, e) (ap ok (rw seven at meaning))
      | inr fewer ↦
          let other : (m s == 0x27) ≡ false = ground arith in
          let table : get_or max_values (m s - 0x20) 0 ≡ half k =
            ap (λ (i : ℕ). get_or max_values i 0) place ∙ (half_table k (ground arith)).0 in
          rw (inside, other, e, table) (ap ok (rw fewer at meaning))
    ]

pub to_u64-lt : (v : ℤ) → to_u64 v < 2 ^ 64
unfolding to_u64 cast_u64
to_u64-lt (pos n) = omega arith
to_u64-lt (negsuc n) = omega arith

half_double : (k : ℕ) → 2 * half k ≡ 256 ^ suc k
unfolding half
half_double k = omega (arith, pow-suc 256 k)

read_small : (m : Memory) (s n : ℕ) → n ≤ 9 → m s ≡ 0x30 + n → get_int m s ≡ ok (pos n)
unfolding get_int get_small_int_unchecked
read_small m s n h head = ground arith

read_small_negative :
    (m : Memory) (s n : ℕ) → n ≤ 5 → m s ≡ 0x40 - (n + 1) → get_int m s ≡ ok (negsuc n)
unfolding get_int get_small_int_unchecked ◌-ℤ◌
read_small_negative m s n h head = ground arith

-- The bytes that `appendInt` writes mean the number.
append_int-meaning :
    (v : ℤ) (k : ℕ)
    → IsI64 v
    → k ≤ 7
    → magnitude v < half k
    → (x : ℕ) × ((if suc k == 8 then to_u64 v else int_bits v (2 ^ (suc k * 8 - 1))) ≡ x)
      × (x < 256 ^ suc k)
      × ((if k == 7
            then to_i64 x
            else (if ltb x (half k) then pos x else pos x -ℤ pos (2 * half k)))
          ≡ v)
append_int-meaning v k range few fits = elim (Bool-cases (k == 7)) [
  | inl seven ↦
      let e : k ≡ 7 = (==_iff k 7).0 seven in
      let full : (suc k == 8) ≡ true = ground arith in
      (
        to_u64 v,
        rw full refl,
        (omega (arith, to_u64-lt v, ap (λ (j : ℕ). 256 ^ suc j) e)),
        rw seven (to_i64-to_u64 v range),
      )
  | inr fewer ↦
      let lt : k < 7 = ground arith in
      let part : (suc k == 8) ≡ false = ground arith in
      let (table, shift, room) = half_table k lt in
      let (meaning, bound) = bits_meaning v (half k) fits room in
      (
        int_bits v (half k),
        rw (part, shift) refl,
        (omega (arith, bound, half_double k)),
        rw fewer meaning,
      )
]

get_int-append_int :
    (v : ℤ) (out : Output)
    → IsByteMemory out.bytes
    → IsI64 v
    → get_int (append_int v 0x1f out).bytes out.pos ≡ ok v
unfolding append_int append_byte
get_int-append_int v out bytes range =
    let (k, length, few, fits) = int_length-half v range in
    let (x, bits, bound, meaning) = append_int-meaning v k range few fits in
    let head = (0x1f + suc k) % 256 in
    let start = update out.bytes out.pos head in
    let m = memcpy_out start (out.pos + 1) (suc k) x in
    rw (length, bits, bytes-memcpy_out (suc k) x (append_byte (0x1f + suc k) out))
      (read_int m out.pos k x v
        (memcpy_out-IsByteMemory start (out.pos + 1) (suc k) x
          (update-IsByteMemory out.bytes out.pos head bytes (omega arith)))
        few
        (memcpy_out-before start (out.pos + 1) (suc k) x out.pos (omega arith)
          ∙ update_self out.bytes out.pos head
          ∙ omega arith)
        (memcpy_in-memcpy_out start (out.pos + 1) (suc k) x bound) meaning)

-- For every int64_t and every output so far, `getInt` at the place where `addInt` begins to write gives
-- the number.
pub get_int-add_int :
    (v : ℤ) (out : Output)
    → IsByteMemory out.bytes
    → IsI64 v
    → get_int (add_int v out).bytes out.pos ≡ ok v
unfolding add_int append_byte
get_int-add_int (pos n) out bytes range = elim (Bool-cases (leb n 9)) [
  | inl small ↦ rw small (
      read_small (append_byte (0x30 + n) out).bytes out.pos n (leb→le n 9 small)
        (update_self out.bytes out.pos ((0x30 + n) % 256) ∙ omega (arith, leb→le n 9 small)))
  | inr large ↦ rw large (get_int-append_int (pos n) out bytes range)
]
get_int-add_int (negsuc n) out bytes range = elim (Bool-cases (leb n 5)) [
  | inl small ↦ rw small (
      read_small_negative (append_byte (0x40 - (n + 1)) out).bytes out.pos n (leb→le n 5 small)
        (update_self out.bytes out.pos ((0x40 - (n + 1)) % 256) ∙ omega (arith, leb→le n 5 small)))
  | inr large ↦ rw large (get_int-append_int (negsuc n) out bytes range)
]
