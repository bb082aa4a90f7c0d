-- ===== src/Common/VarLength/RoundTrip/Groups.antt =====
-- How many bytes a stored length takes, and which bytes are left alone.
use velocypack.Prelude.{
  ℕ, zero, suc, ◌+◌, ◌-◌, ◌*◌, ◌/◌, ◌%◌, ◌^◌, ◌≤◌, ◌<◌, bit_and, bit_or, ◌≡◌, refl, ap, ◌∙◌, Bool,
  true, false, arith, ltb, ◌==◌, inl, inr, Bool-cases,
}
use velocypack.Memory.{Memory, update, update_ne}
use velocypack.Result.{ok}
use velocypack.Common.VarLength.{
  next, read_variable_loop, read_variable_value_length, store_variable_loop,
  store_variable_value_length,
}
use native.Mathlib.Nat.{pow-suc}
use velocypack.Common.VarLength.RoundTrip.{Behind, HasRoom, store_loop-Behind, read_loop-store_loop}

-- Rounds that are left over change nothing.
store_loop-rounds :
    (k n : ℕ) (reverse : Bool) (m : Memory) (dst v : ℕ)
    → k ≤ n
    → v < 128 ^ suc k
    → store_variable_loop n reverse m dst v ≡ store_variable_loop k reverse m dst v
unfolding store_variable_loop
store_loop-rounds zero zero reverse m dst v le h = refl
store_loop-rounds zero (suc n) reverse m dst v le h =
    let small : ltb v 128 ≡ true = ground arith in rw small refl
store_loop-rounds (suc k) zero reverse m dst v le h = absurd (omega arith)
store_loop-rounds (suc k) (suc n) reverse m dst v le h =
    rw
      (store_loop-rounds k n reverse (update m dst (bit_or v 0x80 % 256)) (next reverse dst)
        (v / 2 ^ 7) (omega arith) (omega (arith, pow-suc 128 (suc k))))
      refl

read_loop-rounds :
    (k n : ℕ) (reverse : Bool) (m : Memory) (p len shift v : ℕ)
    → k ≤ n
    → read_variable_loop k reverse m p len shift ≡ ok v
    → read_variable_loop n reverse m p len shift ≡ ok v
unfolding read_variable_loop
read_loop-rounds zero n reverse m p len shift v le h = absurd (ground (arith, h))
read_loop-rounds (suc k) zero reverse m p len shift v le h = absurd (omega arith)
read_loop-rounds (suc k) (suc n) reverse m p len shift v le h =
    let len' = (len + bit_and (m p) 0x7f * 2 ^ shift % 2 ^ 64) % 2 ^ 64 in
    elim (Bool-cases (bit_and (m p) 0x80 == 0)) [
      | inl last ↦ rw last (rw last at h)
      | inr more ↦ rw more (
          read_loop-rounds k n reverse m (next reverse p) len' (shift + 7) v (omega arith)
            (rw more at h))
    ]

-- A value of k + 1 groups takes k + 1 bytes, and no more room than that.
pub read_variable-store_groups :
    (k : ℕ) (reverse : Bool) (m : Memory) (dst value : ℕ)
    → k ≤ 9
    → HasRoom reverse k dst
    → value < 128 ^ suc k
    → value < 2 ^ 64
    → read_variable_value_length reverse (store_variable_value_length reverse m dst value) dst
      ≡ ok value
unfolding read_variable_value_length store_variable_value_length
read_variable-store_groups k reverse m dst value le r h small =
    rw (store_loop-rounds k 9 reverse m dst value le h) (
      read_loop-rounds (suc k) 10 reverse (store_variable_loop k reverse m dst value) dst 0 0 value
        (omega arith)
        (read_loop-store_loop k reverse m dst value 0 0 r h (omega arith) ∙ ap ok (omega arith)))

pub store_groups-Behind :
    (k : ℕ) (reverse : Bool) (m : Memory) (dst value a : ℕ)
    → k ≤ 9
    → HasRoom reverse k dst
    → value < 128 ^ suc k
    → Behind reverse dst a
    → store_variable_value_length reverse m dst value a ≡ m a
unfolding store_variable_value_length
store_groups-Behind k reverse m dst value a le r h behind =
    rw (store_loop-rounds k 9 reverse m dst value le h)
      (store_loop-Behind k reverse m dst value a r behind)

-- The bytes beyond those that a value takes are left alone too.
abbrev pub Beyond : Bool → ℕ → ℕ → ℕ → Type 0
Beyond true k dst a = a + k < dst
Beyond false k dst a = dst + k < a

store_loop-Beyond :
    (k : ℕ) (reverse : Bool) (m : Memory) (dst v a : ℕ)
    → HasRoom reverse k dst
    → Beyond reverse k dst a
    → store_variable_loop k reverse m dst v a ≡ m a
unfolding store_variable_loop next
store_loop-Beyond zero true m dst v a r h = update_ne m dst _ a (λ e. omega arith)
store_loop-Beyond zero false m dst v a r h = update_ne m dst _ a (λ e. omega arith)
store_loop-Beyond (suc k) true m dst v a r h =
    let b = bit_or v 0x80 % 256 in
    ground (
      arith,
      update_ne m dst (bit_and v 0x7f % 256) a (λ e. omega arith),
      update_ne m dst b a (λ e. omega arith),
      store_loop-Beyond k true (update m dst b) (dst - 1) (v / 2 ^ 7) a (omega arith) (omega arith),
    )
store_loop-Beyond (suc k) false m dst v a r h =
    let b = bit_or v 0x80 % 256 in
    ground (
      arith,
      update_ne m dst (bit_and v 0x7f % 256) a (λ e. omega arith),
      update_ne m dst b a (λ e. omega arith),
      store_loop-Beyond k false (update m dst b) (dst + 1) (v / 2 ^ 7) a tt (omega arith),
    )

pub store_groups-Beyond :
    (k : ℕ) (reverse : Bool) (m : Memory) (dst value a : ℕ)
    → k ≤ 9
    → HasRoom reverse k dst
    → value < 128 ^ suc k
    → Beyond reverse k dst a
    → store_variable_value_length reverse m dst value a ≡ m a
unfolding store_variable_value_length
store_groups-Beyond k reverse m dst value a le r h beyond =
    rw (store_loop-rounds k 9 reverse m dst value le h)
      (store_loop-Beyond k reverse m dst value a r beyond)

read_loop-agree :
    (k : ℕ) (m m' : Memory) (p len shift : ℕ)
    → ((a : ℕ) → p ≤ a → a < p + k → m a ≡ m' a)
    → read_variable_loop k false m p len shift ≡ read_variable_loop k false m' p len shift
unfolding read_variable_loop next
read_loop-agree zero m m' p len shift same = refl
read_loop-agree (suc k) m m' p len shift same =
    rw
      (
        same p (omega arith) (omega arith),
        read_loop-agree k m m' (p + 1) ((len + bit_and (m' p) 0x7f * 2 ^ shift % 2 ^ 64) % 2 ^ 64)
            (shift + 7) (λ a lo hi. same a (omega arith) (omega arith)),
      )
      refl

-- The reader gives the value back from every memory that has the bytes that were stored forwards.
pub read_variable-store_agree :
    (k : ℕ) (m m' : Memory) (dst value : ℕ)
    → k ≤ 9
    → value < 128 ^ suc k
    → value < 2 ^ 64
    → ((a : ℕ) → dst ≤ a → a ≤ dst + k → m' a ≡ store_variable_value_length false m dst value a)
    → read_variable_value_length false m' dst ≡ ok value
unfolding read_variable_value_length store_variable_value_length
read_variable-store_agree k m m' dst value le h small same =
    read_loop-rounds (suc k) 10 false m' dst 0 0 value (omega arith) (
      read_loop-agree (suc k) m' (store_variable_loop k false m dst value) dst 0 0 (λ a lo hi.
        same a lo (omega arith)
        ∙ ap (λ (s : Memory). s a) (store_loop-rounds k 9 false m dst value le h))
      ∙ read_loop-store_loop k false m dst value 0 0 tt h (omega arith)
      ∙ ap ok (omega arith))
