-- ===== src/Builder/Output/Bytes.antt =====
-- What `appendLengthUnchecked` and a copy of bytes leave in memory.
use velocypack.Prelude.{
  ℕ, zero, suc, ◌+◌, ◌/◌, ◌%◌, ◌<◌, ◌≡◌, refl, ap, ◌∙◌, arith, bit_and, List, [], ◌∷◌, All, length,
}
use velocypack.Prelude.Bits.{bit_and_ff}
use velocypack.Memory.{update, update_self, update_ne, bytes_at}
use velocypack.Common.{memcpy_out}
use velocypack.Common.Integers.LittleEndian.{memcpy_out-before}
use velocypack.Builder.Output.{Output, append_byte, append_length, write_bytes}

pub append_length-memcpy_out :
    (n v : ℕ) (out : Output)
    → ((append_length n v out).bytes ≡ memcpy_out out.bytes out.pos n v)
      × ((append_length n v out).pos ≡ out.pos + n)
unfolding append_length memcpy_out append_byte
append_length-memcpy_out zero v out = (refl, omega arith)
append_length-memcpy_out (suc n) v out =
    let (bytes, pos) = append_length-memcpy_out n (v / 256) (append_byte (bit_and v 0xff) out) in
    (
      bytes
          ∙ ap (λ (b : ℕ). memcpy_out (update out.bytes out.pos b) (out.pos + 1) n (v / 256))
              (omega (arith, bit_and_ff v)),
      omega (arith, pos),
    )

pub write_bytes-pos : (xs : List ℕ) (out : Output) → (write_bytes xs out).pos ≡ out.pos + length xs
unfolding write_bytes append_byte
write_bytes-pos [] out = omega arith
write_bytes-pos (x ∷ xs) out = omega (arith, write_bytes-pos xs (append_byte x out))

pub write_bytes-before :
    (xs : List ℕ) (out : Output) (a : ℕ) → a < out.pos → (write_bytes xs out).bytes a ≡ out.bytes a
unfolding write_bytes append_byte
write_bytes-before [] out a h = refl
write_bytes-before (x ∷ xs) out a h =
    write_bytes-before xs (append_byte x out) a (omega arith)
    ∙ update_ne out.bytes out.pos (x % 256) a (λ e. omega arith)

pub bytes_at-write_bytes :
    (xs : List ℕ) (out : Output)
    → All (λ b. b < 256) xs
    → bytes_at (write_bytes xs out).bytes out.pos (length xs) ≡ xs
unfolding bytes_at write_bytes append_byte
bytes_at-write_bytes [] out h = refl
bytes_at-write_bytes (x ∷ xs) out h =
    let out' = append_byte x out in
    let first : (write_bytes xs out').bytes out.pos ≡ x =
      write_bytes-before xs out' out.pos (omega arith)
      ∙ update_self out.bytes out.pos (x % 256)
      ∙ omega (arith, h.0) in
    rw first (ap (λ (l : List ℕ). x ∷ l) (bytes_at-write_bytes xs out' h.1))

pub append_byte_self : (x : ℕ) (out : Output) → x < 256 → (append_byte x out).bytes out.pos ≡ x
unfolding append_byte
append_byte_self x out h = update_self out.bytes out.pos (x % 256) ∙ omega arith

pub append_length-before :
    (n v : ℕ) (out : Output) (a : ℕ) → a < out.pos → (append_length n v out).bytes a ≡ out.bytes a
append_length-before n v out a h =
    rw (append_length-memcpy_out n v out).0 (memcpy_out-before out.bytes out.pos n v a h)

-- What follows a head byte leaves it.
pub head-append_length :
    (x n v : ℕ) (out : Output) → x < 256 → (append_length n v (append_byte x out)).bytes out.pos ≡ x
unfolding append_byte
head-append_length x n v out h =
    append_length-before n v (append_byte x out) out.pos (omega arith) ∙ append_byte_self x out h
