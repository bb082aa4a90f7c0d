-- ===== src/Builder/Integers/RoundTrip.antt =====
-- What `addUInt` has written, `getUInt` reads.
use velocypack.Prelude.{
  ℕ, zero, suc, ◌+◌, ◌-◌, ◌/◌, ◌%◌, ◌^◌, ◌≤◌, ◌<◌, ◌≡◌, refl, ap, ◌∙◌, arith, true, leb, ◌==◌,
  ==_iff, between, if◌then◌else◌, bit_and, Bool-cases, inl, inr, leb→le,
}
use velocypack.Prelude.Bits.{bit_and_ff}
use native.Mathlib.Nat.{pow-suc}
use velocypack.Result.{ok}
use velocypack.Memory.{Memory, IsByteMemory, update, update_self, update_ne}
use velocypack.Common.{memcpy_in, memcpy_out, read_integer_non_empty}
use velocypack.Common.Integers.LittleEndian.{read_integer_non_empty-memcpy_in, memcpy_in-memcpy_out}
use velocypack.Slice.{get_uint}
use velocypack.Builder.Output.{Output, append_byte, advance, patch}
use velocypack.Builder.Integers.{append_uint_loop, append_uint, add_uint}

-- The bytes that the loop writes.
byte_count : ℕ → ℕ → ℕ
byte_count zero v = 1
byte_count (suc k) v = let more = byte_count k (v / 256) in if v / 256 == 0 then 1 else suc more

byte_count-bounds :
    (k v : ℕ)
    → v < 256 ^ suc k
    → (1 ≤ byte_count k v) × (byte_count k v ≤ suc k) × (v < 256 ^ byte_count k v)
unfolding byte_count
byte_count-bounds zero v h = (omega arith, omega arith, h)
byte_count-bounds (suc k) v h = ground (
  arith,
  pow-suc 256 (byte_count k (v / 256)),
  byte_count-bounds k (v / 256) (omega (arith, pow-suc 256 (suc k))),
)

one_byte :
    (out : Output) (v : ℕ)
    → (append_byte (bit_and v 0xff) out).bytes ≡ update out.bytes out.pos (v % 256)
unfolding append_byte
one_byte out v = ap (update out.bytes out.pos) (omega (arith, bit_and_ff v))

loop-memcpy_out :
    (k v size : ℕ) (out : Output)
    → ((append_uint_loop k v size out).0 ≡ size + byte_count k v)
      × ((append_uint_loop k v size out).1.bytes ≡ memcpy_out out.bytes out.pos (byte_count k v) v)
unfolding append_uint_loop byte_count memcpy_out append_byte
loop-memcpy_out zero v size out = (refl, one_byte out v)
loop-memcpy_out (suc k) v size out = elim (Bool-cases (v / 256 == 0)) [
  | inl none_left ↦ rw none_left (refl, one_byte out v)
  | inr left ↦
      let out' = append_byte (bit_and v 0xff) out in
      let (count, bytes) = loop-memcpy_out k (v / 256) (size + 1) out' in
      rw left (
        omega (arith, count),
        bytes
            ∙ ap (λ (b : Memory). memcpy_out b (out.pos + 1) (byte_count k (v / 256)) (v / 256))
                (one_byte out v),
      )
]

pub update-IsByteMemory :
    (m : Memory) (p b : ℕ) → IsByteMemory m → b < 256 → IsByteMemory (update m p b)
unfolding update
update-IsByteMemory m p b bytes h a = ground (arith, bytes a)

pub memcpy_out-IsByteMemory :
    (m : Memory) (p n v : ℕ) → IsByteMemory m → IsByteMemory (memcpy_out m p n v)
unfolding memcpy_out
memcpy_out-IsByteMemory m p zero v bytes = bytes
memcpy_out-IsByteMemory m p (suc n) v bytes =
    memcpy_out-IsByteMemory (update m p (v % 256)) (p + 1) n (v / 256)
      (update-IsByteMemory m p (v % 256) bytes (omega arith))

memcpy_in-update :
    (m : Memory) (p b start n : ℕ)
    → p < start
    → memcpy_in (update m p b) start n ≡ memcpy_in m start n
unfolding memcpy_in
memcpy_in-update m p b start zero h = refl
memcpy_in-update m p b start (suc n) h = omega (
  arith,
  update_ne m p b start (λ e. omega arith),
  memcpy_in-update m p b (start + 1) n (omega arith),
)

-- What `getUInt` reads from a head and the bytes behind it.
read_uint :
    (m : Memory) (s n : ℕ)
    → IsByteMemory m
    → 1 ≤ n
    → n ≤ 8
    → m s ≡ 0x27 + n
    → get_uint m s ≡ ok (memcpy_in m (s + 1) n)
unfolding get_uint read_integer_non_empty
read_uint m s n bytes lo hi head =
    let e : read_integer_non_empty m (s + 1) n ≡ memcpy_in m (s + 1) n =
      read_integer_non_empty-memcpy_in m (s + 1) n bytes lo hi in
    let width : m s - 0x27 ≡ n = omega arith in
    let e' : read_integer_non_empty m (s + 1) (m s - 0x27) ≡ memcpy_in m (s + 1) n =
      ap (λ (k : ℕ). read_integer_non_empty m (s + 1) k) width ∙ e in
    elim (Bool-cases (m s == 0x28)) [
      | inl one ↦
          let single : 1 ≡ n = omega (arith, (==_iff (m s) 0x28).0 one) in
          rw one (ap ok (ap (λ (k : ℕ). read_integer_non_empty m (s + 1) k) single ∙ e))
      | inr several ↦
          let above : between 0x29 0x2f (m s) ≡ true = ground arith in
          rw (several, above) (ap ok e')
    ]

small_read : (m : Memory) (s v : ℕ) → v ≤ 9 → m s ≡ 0x30 + v → get_uint m s ≡ ok v
unfolding get_uint
small_read m s v h head = ground arith

-- For every uint64_t and every output so far, `getUInt` at the place where `addUInt` begins to write
-- gives the number.
pub get_uint-add_uint :
    (v : ℕ) (out : Output)
    → IsByteMemory out.bytes
    → v < 2 ^ 64
    → get_uint (add_uint v out).bytes out.pos ≡ ok v
unfolding add_uint append_uint patch advance append_byte
get_uint-add_uint v out bytes h = elim (Bool-cases (leb v 9)) [
  | inl small ↦ rw small (
      small_read _ out.pos v (leb→le v 9 small)
        (update_self out.bytes out.pos ((0x30 + v) % 256) ∙ omega (arith, leb→le v 9 small)))
  | inr large ↦
      let n = byte_count 7 v in
      let (lo, hi, fits) = byte_count-bounds 7 v (omega arith) in
      let (count, written) = loop-memcpy_out 7 v 0 (advance out) in
      let size : (append_uint_loop 7 v 0 (advance out)).0 ≡ n = omega (arith, count) in
      let body = memcpy_out out.bytes (out.pos + 1) n v in
      let m = update body out.pos ((0x27 + n) % 256) in
      rw (large, written, size)
        (read_uint m out.pos n
            (update-IsByteMemory body out.pos ((0x27 + n) % 256)
              (memcpy_out-IsByteMemory out.bytes (out.pos + 1) n v bytes) (omega arith))
            lo hi (update_self body out.pos ((0x27 + n) % 256) ∙ omega arith)
          ∙ ap ok (
              memcpy_in-update body out.pos ((0x27 + n) % 256) (out.pos + 1) n (omega arith)
              ∙ memcpy_in-memcpy_out out.bytes (out.pos + 1) n v fits))
]
