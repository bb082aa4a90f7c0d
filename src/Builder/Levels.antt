-- ===== src/Builder/Levels.antt =====
-- The open Arrays and Objects of a Builder: the invariant of its stack, and the numbers of members that
-- stack and index entries stand for.
pub mod Steps
use velocypack.Prelude.{
  ℕ, suc, ◌+◌, ◌-◌, ◌≤◌, ◌<◌, ◌≡◌, refl, ap, ◌∙◌, arith, Bool, true, false, ◌||◌, List, [], ◌∷◌,
  length, Bool-cases, List-cases, inl, inr,
}
use velocypack.Memory.{Memory}
use velocypack.Builder.State.{
  Builder, Compound, is_array_head, is_object_head, is_open_object, head_at,
}

-- From the innermost level outwards: each has its head and eight bytes before the next one begins, and
-- has its index entries before those of the next one.
unfoldable pub IsNested : Memory → List Compound → ℕ → ℕ → Type 0
IsNested m [] end count = Unit {0}
IsNested m (c ∷ rest) end count =
    (c.start_pos + 9 ≤ end)
    × (c.index_start_pos ≤ count)
    × ((is_array_head (m c.start_pos) || is_object_head (m c.start_pos)) ≡ true)
    × IsNested m rest c.start_pos c.index_start_pos

-- A key that waits for its value has its index entry in the innermost level, which is an Object.
unfoldable pub KeyFits : Memory → List Compound → ℕ → Bool → Type 0
KeyFits m stack count false = Unit {0}
KeyFits m [] count true = true ≡ false
KeyFits m (c ∷ rest) count true =
    (is_object_head (m c.start_pos) ≡ true) × (c.index_start_pos < count)

unfoldable pub IsWellFormed : Builder → Type 0
unfolding IsNested KeyFits
IsWellFormed b =
    IsNested b.out.bytes b.stack b.out.pos (length b.indexes)
    × KeyFits b.out.bytes b.stack (length b.indexes) b.key_written

-- The numbers of members of the open levels, the innermost first.
unfoldable pub counts : List Compound → ℕ → List ℕ
counts [] n = []
counts (c ∷ rest) n = (n - c.index_start_pos) ∷ counts rest c.index_start_pos

unfoldable pub member_counts : Builder → List ℕ
unfolding counts
member_counts b = counts b.stack (length b.indexes)

-- One member more in the innermost level.
unfoldable pub bump : List ℕ → List ℕ
bump [] = []
bump (n ∷ rest) = suc n ∷ rest

pub IsNested-grows :
    (m m' : Memory) (stack : List Compound) (end end' count count' : ℕ)
    → ((a : ℕ) → a < end → m' a ≡ m a)
    → end ≤ end'
    → count ≤ count'
    → IsNested m stack end count
    → IsNested m' stack end' count'
unfolding IsNested
IsNested-grows m m' [] end end' count count' same le le' h = tt
IsNested-grows m m' (c ∷ rest) end end' count count' same le le' (room, place, head, outer) = (
  omega arith,
  omega arith,
  rw (same c.start_pos (omega arith)) head,
  IsNested-grows m m' rest c.start_pos c.start_pos c.index_start_pos c.index_start_pos
      (λ a h. same a (omega arith)) (omega arith) (omega arith) outer,
)

pub KeyFits-grows :
    (m m' : Memory) (stack : List Compound) (end count : ℕ) (key : Bool)
    → ((a : ℕ) → a < end → m' a ≡ m a)
    → IsNested m stack end count
    → KeyFits m stack count key
    → KeyFits m' stack count key
unfolding IsNested KeyFits
KeyFits-grows m m' stack end count false same nested h = tt
KeyFits-grows m m' [] end count true same nested h = h
KeyFits-grows m m' (c ∷ rest) end count true same (room, place, head, outer) (object, few) =
    (rw (same c.start_pos (omega arith)) object, few)

pub counts-suc :
    (m : Memory) (stack : List Compound) (end n : ℕ)
    → IsNested m stack end n
    → counts stack (n + 1) ≡ bump (counts stack n)
unfolding IsNested counts bump
counts-suc m [] end n h = refl
counts-suc m (c ∷ rest) end n (room, place, head, outer) =
    ap (λ (k : ℕ). k ∷ counts rest c.index_start_pos) (omega arith)

-- An open Object with an index entry is ready for either state of the flag.
pub KeyFits-either :
    (m : Memory) (stack : List Compound) (count : ℕ) (key : Bool)
    → KeyFits m stack count true
    → KeyFits m stack count key
unfolding KeyFits
KeyFits-either m stack count true h = h
KeyFits-either m stack count false h = tt

-- Where the innermost level is no Object, no key waits.
pub KeyFits-no_object :
    (b : Builder)
    → KeyFits b.out.bytes b.stack (length b.indexes) b.key_written
    → is_open_object b ≡ false
    → b.key_written ≡ false
unfolding KeyFits is_open_object head_at
KeyFits-no_object b h other = elim (Bool-cases b.key_written) [
  | inr none ↦ none
  | inl key ↦ elim (List-cases b.stack) [
    | inl empty ↦ key ∙ (rw (key, empty) at h)
    | inr (top, rest, some) ↦
        let object = (rw (key, some) at h).0 in
        let none = rw some at other in absurd (ground (arith, object, none))
  ]
]
