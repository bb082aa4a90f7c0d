-- ===== src/Validator/Lengths/Agree.antt =====
-- Two versions of the recursive call that agree on short values, and what the callers need to know of
-- the pointers that they compute.
use velocypack.Prelude.{
  ℕ, zero, suc, ◌+◌, ◌*◌, ◌≤◌, ◌<◌, ◌≡◌, refl, ap, ◌∙◌, Bool, true, false, arith, ltb, ◌==◌, ◌||◌,
  if◌then◌else◌, ltb→lt, bit_and,
}
use velocypack.Result.{
  Result, ok, ◌>>=◌, Ensures, returned, thrown, lost, Ensures-if, Ensures-self, Ensures-weaken,
}
use velocypack.Memory.{Memory}
use velocypack.Common.{next}
use velocypack.Slice.{byte_size}
use velocypack.Validator.Lengths.{
  PartValidator, require, read_length_loop, read_variable_length_value, validate_buffer_length,
  skip_padding,
}
use velocypack.Validator.Lengths.Accepts.{require-Ensures, validate_buffer_length-eq-ok}

-- The two versions are one on values of less than `limit` bytes.
abbrev pub Agree : PartValidator → PartValidator → ℕ → Type 0
Agree recur recur' limit =
    (n ptr len : ℕ) (sub : Bool) → len < limit → recur n ptr len sub ≡ recur' n ptr len sub

-- What is accepted has no more bytes than it was given.
abbrev pub Sized : Memory → PartValidator → Type 0
Sized m recur =
    (n ptr len n' size : ℕ) → recur n ptr len true ≡ ok n' → byte_size m ptr ≡ ok size → size ≤ len

module _ {ℓ κ} {A : Type ℓ} {B : Type κ} where
  pub same_then {ι} :
      {P : A → Type ι} {r : Result A} {f g : A → Result B}
      → Ensures P r
      → ((a : A) → P a → f a ≡ g a)
      → (r >>= f) ≡ (r >>= g)
  same_then (returned {a} h) k = k a h
  same_then thrown k = refl
  same_then lost k = refl

  pub call_then :
      {r r' : Result A} {f g : A → Result B}
      → r ≡ r'
      → ((a : A) → r ≡ ok a → f a ≡ g a)
      → (r >>= f) ≡ (r' >>= g)
  call_then {r} {g} e k = same_then (Ensures-self r) k ∙ ap (λ (x : Result A). x >>= g) e

pub same_if {ℓ} :
    {A : Type ℓ} (b : Bool) {x y x' y' : A}
    → (b ≡ true → x ≡ x')
    → (b ≡ false → y ≡ y')
    → (if b then x else y) ≡ (if b then x' else y')
same_if true p q = p refl
same_if false p q = q refl

pub below-Ensures : (a b : ℕ) → Ensures (λ _. a < b) (require (ltb a b))
below-Ensures a b = Ensures-weaken (require-Ensures (ltb a b)) λ _ h. ltb→lt a b h

pub buffer-Ensures :
    (expected actual : ℕ)
    → Ensures (λ _. expected ≤ actual) (validate_buffer_length expected actual true)
buffer-Ensures expected actual =
    Ensures-weaken (Ensures-self (validate_buffer_length expected actual true))
      λ _ h. (validate_buffer_length-eq-ok expected actual true h).0

-- Where the pointer stands behind `ReadVariableLengthValue`.
abbrev pub Moves : Bool → ℕ → ℕ → Type 0
Moves true p p' = p' ≤ p
Moves false p p' = p < p'

step-Moves : (reverse : Bool) (p : ℕ) → Moves reverse p (next reverse p)
unfolding next
step-Moves true p = omega arith
step-Moves false p = omega arith

Moves-next : (reverse : Bool) (p p' : ℕ) → Moves reverse (next reverse p) p' → Moves reverse p p'
unfolding next
Moves-next true p p' h = omega arith
Moves-next false p p' h = omega arith

read_length_loop-Moves :
    (rounds : ℕ) (reverse : Bool) (m : Memory) (p end value shifter : ℕ)
    → Ensures
        (λ (_, p'). Moves reverse p p')
        (read_length_loop rounds reverse m p end value shifter)
unfolding read_length_loop
read_length_loop-Moves zero reverse m p end value shifter = lost
read_length_loop-Moves (suc rounds) reverse m p end value shifter =
    Ensures-if (bit_and (m p) 0x80 == 0) (λ _. returned (step-Moves reverse p))
      λ _.
        Ensures-if (next reverse p == end || ltb (7 * 8) (shifter + 7)) (λ _. thrown)
          λ _.
            Ensures-weaken
              (read_length_loop-Moves rounds reverse m (next reverse p) end _ (shifter + 7))
              λ (_, p') h. Moves-next reverse p p' h

pub read_variable_length_value-Moves :
    (reverse : Bool) (m : Memory) (p end : ℕ)
    → Ensures (λ (_, p'). Moves reverse p p') (read_variable_length_value reverse m p end)
unfolding read_variable_length_value
read_variable_length_value-Moves reverse m p end = read_length_loop-Moves 9 reverse m p end 0 0

pub skip_padding-ge : (left : ℕ) (m : Memory) (p : ℕ) → p ≤ skip_padding left m p
unfolding skip_padding
skip_padding-ge zero m p = omega arith
skip_padding-ge (suc left) m p = ground (arith, skip_padding-ge left m (p + 1))
