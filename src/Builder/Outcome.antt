-- ===== src/Builder/Outcome.antt =====
-- What an operation on a Builder leaves when it returns and when it throws. Nothing is said of an outcome
-- that C++ leaves undefined.
use velocypack.Exception.{ExceptionType}
use velocypack.Result.{Result, ok, throws, undefined}
use velocypack.Builder.State.{Builder, Action, continue_with, clean_up}

abbrev pub Outcome :
    {A : Type 0}
    → (A → Builder → Type 0)
    → (ExceptionType → Builder → Type 0)
    → Result A × Builder
    → Type 0
Outcome P Q (ok a, b) = P a b
Outcome P Q (throws e, b) = Q e b
Outcome P Q (undefined, b) = Unit {0}

module _ {A : Type 0} (P : A → Builder → Type 0) (Q : ExceptionType → Builder → Type 0) where
  -- The outcome of two steps.
  pub continue_with-Outcome :
      {B : Type 0} (P' : B → Builder → Type 0) (Q' : ExceptionType → Builder → Type 0)
      (r : Result A × Builder) (f : A → Action B)
      → Outcome P Q r
      → ((a : A) (b : Builder) → P a b → Outcome P' Q' (f a b))
      → ((e : ExceptionType) (b : Builder) → Q e b → Q' e b)
      → Outcome P' Q' (continue_with r f)
  continue_with-Outcome P' Q' (ok a, b) f h next failed = next a b h
  continue_with-Outcome P' Q' (throws e, b) f h next failed = failed e b h
  continue_with-Outcome P' Q' (undefined, b) f h next failed = tt

  pub clean_up-Outcome :
      (Q' : ExceptionType → Builder → Type 0) (clean : Builder → Builder) (r : Result A × Builder)
      → Outcome P Q r
      → ((e : ExceptionType) (b : Builder) → Q e b → Q' e (clean b))
      → Outcome P Q' (clean_up clean r)
  clean_up-Outcome Q' clean (ok a, b) h failed = h
  clean_up-Outcome Q' clean (throws e, b) h failed = failed e b h
  clean_up-Outcome Q' clean (undefined, b) h failed = tt

  pub weaken-Outcome :
      (P' : A → Builder → Type 0) (Q' : ExceptionType → Builder → Type 0) (r : Result A × Builder)
      → Outcome P Q r
      → ((a : A) (b : Builder) → P a b → P' a b)
      → ((e : ExceptionType) (b : Builder) → Q e b → Q' e b)
      → Outcome P' Q' r
  weaken-Outcome P' Q' (ok a, b) h returned failed = returned a b h
  weaken-Outcome P' Q' (throws e, b) h returned failed = failed e b h
  weaken-Outcome P' Q' (undefined, b) h returned failed = tt
