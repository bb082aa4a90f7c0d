-- ===== src/Builder/Output/Extends.antt =====
-- Writing at the end of the buffer leaves what stands before it.
use velocypack.Prelude.{
  ℕ, zero, suc, ◌+◌, ◌/◌, ◌%◌, ◌^◌, ◌≤◌, ◌<◌, ◌≡◌, refl, ◌∙◌, arith, leb, ◌==◌, bit_and, List, [],
  ◌∷◌, Bool-cases, inl, inr,
}
use velocypack.Prelude.Int.{ℤ, pos, negsuc}
use velocypack.Memory.{update_ne}
use velocypack.Builder.Output.{Output, append_byte, append_length, write_bytes, patch, advance}
use velocypack.Builder.Integers.{append_uint_loop, append_uint, add_uint}
use velocypack.Builder.Signed.{append_bytes, append_int, add_int}

abbrev pub Extends : Output → Output → Type 0
Extends out out' = (out.pos ≤ out'.pos) × ((a : ℕ) → a < out.pos → out'.bytes a ≡ out.bytes a)

pub Extends-refl : (out : Output) → Extends out out
Extends-refl out = (omega arith, λ a h. refl)

pub Extends-trans :
    (out out' out'' : Output) → Extends out out' → Extends out' out'' → Extends out out''
Extends-trans out out' out'' (le, same) (le', same') =
    (omega arith, λ a h. same' a (omega arith) ∙ same a h)

pub append_byte-Extends : (x : ℕ) (out : Output) → Extends out (append_byte x out)
unfolding append_byte
append_byte-Extends x out =
    (omega arith, λ a h. update_ne out.bytes out.pos (x % 256) a (λ e. omega arith))

advance-Extends : (out : Output) → Extends out (advance out)
unfolding advance
advance-Extends out = (omega arith, λ a h. refl)

pub append_length-Extends : (n v : ℕ) (out : Output) → Extends out (append_length n v out)
unfolding append_length
append_length-Extends zero v out = Extends-refl out
append_length-Extends (suc n) v out =
    let out' = append_byte (bit_and v 0xff) out in
    Extends-trans out out' _ (append_byte-Extends (bit_and v 0xff) out)
      (append_length-Extends n (v / 2 ^ 8) out')

pub headed-Extends :
    (x n v : ℕ) (out : Output) → Extends out (append_length n v (append_byte x out))
headed-Extends x n v out =
    Extends-trans out (append_byte x out) _ (append_byte-Extends x out)
      (append_length-Extends n v (append_byte x out))

pub write_bytes-Extends : (xs : List ℕ) (out : Output) → Extends out (write_bytes xs out)
unfolding write_bytes
write_bytes-Extends [] out = Extends-refl out
write_bytes-Extends (x ∷ xs) out =
    Extends-trans out (append_byte x out) _ (append_byte-Extends x out)
      (write_bytes-Extends xs (append_byte x out))

append_bytes-Extends : (n x : ℕ) (out : Output) → Extends out (append_bytes n x out)
unfolding append_bytes
append_bytes-Extends zero x out = Extends-refl out
append_bytes-Extends (suc n) x out =
    let out' = append_byte (bit_and x 0xff) out in
    Extends-trans out out' _ (append_byte-Extends (bit_and x 0xff) out)
      (append_bytes-Extends n (x / 2 ^ 8) out')

loop-Extends : (k v size : ℕ) (out : Output) → Extends out (append_uint_loop k v size out).1
unfolding append_uint_loop
loop-Extends zero v size out = append_byte-Extends (bit_and v 0xff) out
loop-Extends (suc k) v size out =
    let out' = append_byte (bit_and v 0xff) out in
    elim (Bool-cases (v / 2 ^ 8 == 0)) [
      | inl none_left ↦ rw none_left (append_byte-Extends (bit_and v 0xff) out)
      | inr left ↦ rw left (
          Extends-trans out out' _ (append_byte-Extends (bit_and v 0xff) out)
            (loop-Extends k (v / 2 ^ 8) (size + 1) out'))
    ]

-- The head byte that is patched lies where the buffer ended.
pub append_uint-Extends : (v base : ℕ) (out : Output) → Extends out (append_uint v base out)
unfolding append_uint patch
append_uint-Extends v base out =
    let out' = advance out in
    let (le, same) = Extends-trans out out' _ (advance-Extends out) (loop-Extends 7 v 0 out') in
    (le, λ a h. update_ne _ out.pos _ a (λ e. omega arith) ∙ same a h)

pub add_uint-Extends : (v : ℕ) (out : Output) → Extends out (add_uint v out)
unfolding add_uint
add_uint-Extends v out = elim (Bool-cases (leb v 9)) [
  | inl small ↦ rw small (append_byte-Extends (0x30 + v) out)
  | inr large ↦ rw large (append_uint-Extends v 0x27 out)
]

append_int-Extends : (v : ℤ) (base : ℕ) (out : Output) → Extends out (append_int v base out)
unfolding append_int
append_int-Extends v base out =
    Extends-trans out (append_byte _ out) _ (append_byte-Extends _ out)
      (append_bytes-Extends _ _ (append_byte _ out))

pub add_int-Extends : (v : ℤ) (out : Output) → Extends out (add_int v out)
unfolding add_int
add_int-Extends (pos n) out = elim (Bool-cases (leb n 9)) [
  | inl small ↦ rw small (append_byte-Extends _ out)
  | inr large ↦ rw large (append_int-Extends (pos n) 0x1f out)
]
add_int-Extends (negsuc n) out = elim (Bool-cases (leb n 5)) [
  | inl small ↦ rw small (append_byte-Extends _ out)
  | inr large ↦ rw large (append_int-Extends (negsuc n) 0x1f out)
]
