-- ===== src/Memory.antt =====
-- The bytes that `uint8_t const*` pointers read, and the buffers that the code writes. A pointer is an
-- address, and a memory gives every address its byte, so a read outside of an object is not trapped.
use velocypack.Prelude.{
  ℕ, zero, suc, ◌+◌, ◌-◌, ◌<◌, ltb, leb, ◌&&◌, true, refl, ◌≡◌, ◌≢◌, List, [], ◌∷◌, arith, ◌==◌,
  if◌then◌else◌, get_or, All,
}

abbrev pub Memory : Type 0
Memory = ℕ → ℕ

-- Every read gives a byte.
abbrev pub IsByteMemory : Memory → Type 0
IsByteMemory m = (a : ℕ) → m a < 256

-- The list at address 0, and zeros behind it.
abbrev pub from_list : List ℕ → Memory
from_list xs a = get_or xs a 0

pub from_list-IsByteMemory : (xs : List ℕ) → All (λ b. b < 256) xs → IsByteMemory (from_list xs)
from_list-IsByteMemory [] h a = omega arith
from_list-IsByteMemory (x ∷ xs) h zero = h.0
from_list-IsByteMemory (x ∷ xs) h (suc a) = from_list-IsByteMemory xs h.1 a

-- `*p = b`
unfoldable pub update : Memory → ℕ → ℕ → Memory
update m p b a = if a == p then b else m a

pub update_self : (m : Memory) (p b : ℕ) → update m p b p ≡ b
unfolding update
update_self m p b = ground arith

pub update_ne : (m : Memory) (p b a : ℕ) → a ≢ p → update m p b a ≡ m a
unfolding update
update_ne m p b a h = ground arith

-- The bytes of a list stand at an address and those behind it.
abbrev pub Holds : Memory → ℕ → List ℕ → Type 0
Holds m p [] = Unit {0}
Holds m p (x ∷ xs) = (m p ≡ x) × Holds m (p + 1) xs

-- The `n` bytes from an address on.
unfoldable pub bytes_at : Memory → ℕ → ℕ → List ℕ
bytes_at m p zero = []
bytes_at m p (suc n) = m p ∷ bytes_at m (p + 1) n

-- `memmove(dst, src, n)`
unfoldable pub memmove : Memory → ℕ → ℕ → ℕ → Memory
memmove m dst src n a = if leb dst a && ltb a (dst + n) then m (src + (a - dst)) else m a

pub memmove-outside : (m : Memory) (dst src n a : ℕ) → a < dst → memmove m dst src n a ≡ m a
unfolding memmove
memmove-outside m dst src n a h = ground arith

pub memmove-inside :
    (m : Memory) (dst src n i : ℕ) → i < n → memmove m dst src n (dst + i) ≡ m (src + i)
unfolding memmove
memmove-inside m dst src n i h =
    let inside : (leb dst (dst + i) && ltb (dst + i) (dst + n)) ≡ true = ground arith in
    let place : src + (dst + i - dst) ≡ src + i = omega arith in rw (inside, place) refl
