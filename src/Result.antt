-- ===== src/Result.antt =====
-- The outcome of a call: a value, a thrown exception, or nothing that C++ defines.
use velocypack.Prelude.{◌≡◌, refl, Bool, true, false, if◌then◌else◌}
use mathlib.Core.Path.{subst}
use velocypack.Exception.{ExceptionType}

-- `undefined` stands for undefined behaviour (a shift by 64 or more) and for a loop with no end.
pub data Result {ℓ} (A : Type ℓ) : Type ℓ where
  ok : A → Result A
  throws : ExceptionType → Result A
  undefined : Result A

infixl 5 ◌>>=◌ ◌>>◌
abbrev pub ◌>>=◌ {ℓ κ} : {A : Type ℓ} {B : Type κ} → Result A → (A → Result B) → Result B
ok a >>= f = f a
throws e >>= f = throws e
undefined >>= f = undefined

abbrev pub ◌>>◌ {ℓ} : {B : Type ℓ} → Result (Unit {0}) → Result B → Result B
m >> k = m >>= λ _. k

-- `if (b) throw Exception(e);`
abbrev pub throw_if : Bool → ExceptionType → Result (Unit {0})
throw_if true e = throws e
throw_if false e = ok tt

pub >>=-eq-ok {ℓ κ} :
    {A : Type ℓ} {B : Type κ} (r : Result A) (f : A → Result B) {b : B}
    → (r >>= f) ≡ ok b
    → (a : A) × (r ≡ ok a) × (f a ≡ ok b)
>>=-eq-ok (ok a) f h = (a, refl, h)
>>=-eq-ok (throws e) f h = cc
>>=-eq-ok undefined f h = cc

pub throw_if-eq-ok {ℓ} :
    {B : Type ℓ} (b : Bool) (e : ExceptionType) (k : Result B) {v : B}
    → (throw_if b e >> k) ≡ ok v
    → (b ≡ false) × (k ≡ ok v)
throw_if-eq-ok true e k h = cc
throw_if-eq-ok false e k h = (refl, h)

-- `P` holds of the value, if there is one.
pub data Ensures {ℓ κ} {A : Type ℓ} (P : A → Type κ) : Result A → Type (ℓ ⊔ κ) where
  returned : {a : A} → P a → Ensures P (ok a)
  thrown : {e : ExceptionType} → Ensures P (throws e)
  lost : Ensures P undefined

module _ {ℓ κ} {A : Type ℓ} {P : A → Type κ} where
  pub Ensures-ok : {r : Result A} {a : A} → Ensures P r → r ≡ ok a → P a
  Ensures-ok (returned h) e = subst P (cc) h
  Ensures-ok thrown e = cc
  Ensures-ok lost e = cc

  pub Ensures-if :
      (b : Bool) {x y : Result A}
      → (b ≡ true → Ensures P x)
      → (b ≡ false → Ensures P y)
      → Ensures P (if b then x else y)
  Ensures-if true f g = f refl
  Ensures-if false f g = g refl

  pub Ensures-bind {ℓ' κ'} :
      {B : Type ℓ'} {Q : B → Type κ'} {call : Result A} {next : A → Result B}
      → Ensures P call
      → ((a : A) → P a → Ensures Q (next a))
      → Ensures Q (call >>= next)
  Ensures-bind (returned {a} h) k = k a h
  Ensures-bind thrown k = thrown
  Ensures-bind lost k = lost

-- What holds of a value holds of the result with the equation that it is one.
pub Ensures-self {ℓ} : {A : Type ℓ} (r : Result A) → Ensures (λ a. r ≡ ok a) r
Ensures-self (ok a) = returned refl
Ensures-self (throws e) = thrown
Ensures-self undefined = lost

pub throw_if-Ensures : (b : Bool) (e : ExceptionType) → Ensures (λ _. b ≡ false) (throw_if b e)
throw_if-Ensures true e = thrown
throw_if-Ensures false e = returned refl

pub Ensures-weaken {ℓ κ κ'} :
    {A : Type ℓ} {P : A → Type κ} {Q : A → Type κ'} {r : Result A}
    → Ensures P r
    → ((a : A) → P a → Q a)
    → Ensures Q r
Ensures-weaken (returned {a} h) k = returned (k a h)
Ensures-weaken thrown k = thrown
Ensures-weaken lost k = lost
