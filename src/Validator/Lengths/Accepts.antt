-- ===== src/Validator/Lengths/Accepts.antt =====
-- What the length checks let pass.
use velocypack.Prelude.{ℕ, ◌≤◌, ◌≡◌, refl, ◌⊎◌, inl, inr, Bool, true, false, arith}
use velocypack.Result.{Result, ok, ◌>>◌, >>=-eq-ok, Ensures, returned, thrown}
use velocypack.Memory.{Memory}
use velocypack.Slice.{byte_size}
use velocypack.Validator.Lengths.{require, validate_buffer_length, validate_slice_length}

pub require-eq-ok {ℓ} :
    {B : Type ℓ} (b : Bool) (k : Result B) {v : B}
    → (require b >> k) ≡ ok v
    → (b ≡ true) × (k ≡ ok v)
require-eq-ok true k h = (refl, h)
require-eq-ok false k h = cc

pub validate_buffer_length-eq-ok :
    (expected actual : ℕ) (sub : Bool)
    → validate_buffer_length expected actual sub ≡ ok tt
    → (expected ≤ actual) × ((sub ≡ true) ⊎ (expected ≡ actual))
unfolding validate_buffer_length
validate_buffer_length-eq-ok expected actual true h = (ground arith, inl refl)
validate_buffer_length-eq-ok expected actual false h = (ground arith, inr (ground arith))

pub validate_buffer_length-pass :
    (expected actual : ℕ) → expected ≤ actual → validate_buffer_length expected actual true ≡ ok tt
unfolding validate_buffer_length
validate_buffer_length-pass expected actual h = ground arith

pub validate_slice_length-eq-ok :
    (m : Memory) (ptr len : ℕ) (sub : Bool)
    → validate_slice_length m ptr len sub ≡ ok tt
    → (size : ℕ) × (byte_size m ptr ≡ ok size) × (size ≤ len) × ((sub ≡ true) ⊎ (size ≡ len))
unfolding validate_slice_length
validate_slice_length-eq-ok m ptr len sub h =
    let (size, e, rest) = >>=-eq-ok (byte_size m ptr) _ h in
    let (le, exact) = validate_buffer_length-eq-ok size len sub rest in (size, e, le, exact)

pub require-Ensures : (b : Bool) → Ensures (λ _. b ≡ true) (require b)
require-Ensures true = returned refl
require-Ensures false = thrown
