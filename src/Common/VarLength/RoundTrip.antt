-- ===== src/Common/VarLength/RoundTrip.antt =====
-- `readVariableValueLength` reads what `storeVariableValueLength` stored, in both directions.
pub mod Groups
use velocypack.Prelude.{
  ℕ, zero, suc, ◌+◌, ◌-◌, ◌*◌, ◌/◌, ◌%◌, ◌^◌, ◌≤◌, ◌<◌, bit_and, bit_or, ◌≡◌, refl, ap, ◌∙◌, Bool,
  true, false, arith, ltb, ◌==◌, inl, inr, Bool-cases, ltb→lt,
}
use velocypack.Prelude.Bits.{bit_and_7f, bit_and_80, bit_or_80}
use velocypack.Memory.{Memory, update, update_self, update_ne}
use velocypack.Result.{ok}
use velocypack.Common.VarLength.{
  next, read_variable_loop, read_variable_value_length, store_variable_loop,
  store_variable_value_length,
}
use native.Mathlib.Nat.{pow-suc}
use native.Mathlib.Numerals.{towards_suc}

-- `a` lies on the side of `dst` that a store from `dst` on does not reach.
abbrev pub Behind : Bool → ℕ → ℕ → Type 0
Behind true dst a = dst < a
Behind false dst a = a < dst

-- A store of k + 1 bytes downwards needs k addresses below `dst`.
abbrev pub HasRoom : Bool → ℕ → ℕ → Type 0
HasRoom true k dst = k ≤ dst
HasRoom false k dst = Unit {0}

pub store_loop-Behind :
    (k : ℕ) (reverse : Bool) (m : Memory) (dst v a : ℕ)
    → HasRoom reverse k dst
    → Behind reverse dst a
    → store_variable_loop k reverse m dst v a ≡ m a
unfolding store_variable_loop next
store_loop-Behind zero true m dst v a r h = update_ne m dst _ a (λ e. omega arith)
store_loop-Behind zero false m dst v a r h = update_ne m dst _ a (λ e. omega arith)
store_loop-Behind (suc k) true m dst v a r h =
    let b = bit_or v 0x80 % 256 in
    ground (
      arith,
      update_ne m dst (bit_and v 0x7f % 256) a (λ e. omega arith),
      update_ne m dst b a (λ e. omega arith),
      store_loop-Behind k true (update m dst b) (dst - 1) (v / 2 ^ 7) a (omega arith) (omega arith),
    )
store_loop-Behind (suc k) false m dst v a r h =
    let b = bit_or v 0x80 % 256 in
    ground (
      arith,
      update_ne m dst (bit_and v 0x7f % 256) a (λ e. omega arith),
      update_ne m dst b a (λ e. omega arith),
      store_loop-Behind k false (update m dst b) (dst + 1) (v / 2 ^ 7) a tt (omega arith),
    )

-- One round of the reader, on a last byte and on any other.
read_last :
    (k : ℕ) (reverse : Bool) (m : Memory) (dst len shift b : ℕ)
    → m dst ≡ b
    → b < 128
    → len + b * 2 ^ shift < 2 ^ 64
    → read_variable_loop (suc k) reverse m dst len shift ≡ ok (len + b * 2 ^ shift)
unfolding read_variable_loop
read_last k reverse m dst len shift b e h fits = rw e (ground (arith, bit_and_7f b, bit_and_80 b))

read_more :
    (k : ℕ) (reverse : Bool) (m : Memory) (dst len shift g : ℕ)
    → m dst ≡ g + 128
    → g < 128
    → len + g * 2 ^ shift < 2 ^ 64
    → read_variable_loop (suc k) reverse m dst len shift
      ≡ read_variable_loop k reverse m (next reverse dst) (len + g * 2 ^ shift) (shift + 7)
unfolding read_variable_loop
read_more k reverse m dst len shift g e h fits =
    let low : bit_and (g + 128) 0x7f ≡ g = omega (arith, bit_and_7f (g + 128)) in
    let high : bit_and (g + 128) 0x80 ≡ 128 = omega (arith, bit_and_80 (g + 128)) in
    let sum : (len + g * 2 ^ shift % 2 ^ 64) % 2 ^ 64 ≡ len + g * 2 ^ shift = omega arith in
    rw (e, low, high, sum) refl

split_group : (v s : ℕ) → v * 2 ^ s ≡ v % 128 * 2 ^ s + v / 128 * 2 ^ (s + 7)
split_group v s =
    let p : 2 ^ (s + 7) ≡ 128 * 2 ^ s = simp towards_suc (omega arith) in
    let d : v ≡ v % 128 + 128 * (v / 128) = omega arith in
    omega (arith, ap (λ (t : ℕ). v / 128 * t) p, ap (λ (t : ℕ). t * 2 ^ s) d)

room_next :
    (k : ℕ) (reverse : Bool) (dst : ℕ)
    → HasRoom reverse (suc k) dst
    → HasRoom reverse k (next reverse dst)
unfolding next
room_next k true dst r = omega arith
room_next k false dst r = tt

Behind-next :
    (k : ℕ) (reverse : Bool) (dst : ℕ)
    → HasRoom reverse (suc k) dst
    → Behind reverse (next reverse dst) dst
unfolding next
Behind-next k true dst r = omega arith
Behind-next k false dst r = omega arith

read_loop-store_loop :
    (k : ℕ) (reverse : Bool) (m : Memory) (dst v len shift : ℕ)
    → HasRoom reverse k dst
    → v < 128 ^ suc k
    → len + v * 2 ^ shift < 2 ^ 64
    → read_variable_loop (suc k) reverse (store_variable_loop k reverse m dst v) dst len shift
      ≡ ok (len + v * 2 ^ shift)
unfolding store_variable_loop
read_loop-store_loop zero reverse m dst v len shift r h fits =
    read_last 0 reverse _ dst len shift v (update_self m dst _ ∙ omega (arith, bit_and_7f v))
      (omega arith) fits
read_loop-store_loop (suc k) reverse m dst v len shift r h fits = elim (Bool-cases (ltb v 128)) [
  | inl small ↦ rw small (
      read_last (suc k) reverse _ dst len shift v
        (update_self m dst _ ∙ omega (arith, bit_and_7f v, ltb→lt v 128 small)) (ltb→lt v 128 small)
        fits)
  | inr large ↦ rw large (
      read_more (suc k) reverse _ dst len shift (v % 128)
        (store_loop-Behind k reverse m' (next reverse dst) (v / 2 ^ 7) dst
            (room_next k reverse dst r) (Behind-next k reverse dst r)
          ∙ update_self m dst _
          ∙ bit_or_80 v)
        (omega arith) (omega (arith, split_group v shift))
      ∙ read_loop-store_loop k reverse m' (next reverse dst) (v / 2 ^ 7) _ (shift + 7)
          (room_next k reverse dst r) (omega (arith, pow-suc 128 (suc k)))
          (omega (arith, split_group v shift))
      ∙ ap ok (omega (arith, split_group v shift)))
]
  where
    m' : Memory
    m' = update m dst (bit_or v 0x80 % 256)

-- For every uint64_t the reader gives back the value that was stored, forwards from `dst`, and backwards
-- where nine addresses lie below `dst`.
pub read_variable-store_variable :
    (reverse : Bool) (m : Memory) (dst value : ℕ)
    → HasRoom reverse 9 dst
    → value < 2 ^ 64
    → read_variable_value_length reverse (store_variable_value_length reverse m dst value) dst
      ≡ ok value
unfolding read_variable_value_length store_variable_value_length
read_variable-store_variable reverse m dst value r h =
    read_loop-store_loop 9 reverse m dst value 0 0 r (omega arith) (omega arith)
    ∙ ap ok (omega arith)
