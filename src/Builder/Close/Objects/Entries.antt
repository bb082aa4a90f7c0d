-- ===== src/Builder/Close/Objects/Entries.antt =====
-- The index entries of an Object while it is closed: they are moved and sorted in place, and dropped with
-- the level.
use velocypack.Prelude.{
  ℕ, zero, suc, ◌+◌, ◌-◌, ◌*◌, ◌≤◌, ◌≡◌, refl, ap, ◌∙◌, arith, Bool-cases, inl, inr, if◌then◌else◌,
  leb, List, [], ◌∷◌, ◌++◌, length, length-append, map, take, drop,
}
use velocypack.Memory.{Memory}
use velocypack.Result.{Result, ok}
use velocypack.Options.{PaddingBehavior}
use velocypack.Builder.Output.{Output}
use velocypack.Builder.State.{Builder, Compound, close_level}
use velocypack.Builder.Close.Names.{sort_object_index}
use velocypack.Builder.Close.Names.Sorted.{IsReordering, sort_object_index_lem}
use velocypack.Builder.Close.Objects.{moves_members, place_members, put_entries}

take-shorter :
    (s k : ℕ) (xs ys : List ℕ) → s ≤ k → k ≤ length xs → take s (take k xs ++ ys) ≡ take s xs
take-shorter zero k xs ys le room = refl
take-shorter (suc s) zero xs ys le room = absurd (omega arith)
take-shorter (suc s) (suc k) [] ys le room = absurd (omega arith)
take-shorter (suc s) (suc k) (x ∷ xs) ys le room =
    ap (λ (l : List ℕ). x ∷ l) (take-shorter s k xs ys (omega arith) (omega arith))

length-take : (k : ℕ) (xs : List ℕ) → k ≤ length xs → length (take k xs) ≡ k
length-take zero xs h = refl
length-take (suc k) [] h = absurd (omega arith)
length-take (suc k) (x ∷ xs) h = omega (arith, length-take k xs (omega arith))

pub length-drop : (n : ℕ) (xs : List ℕ) → length (drop n xs) ≡ length xs - n
length-drop zero xs = omega arith
length-drop (suc n) [] = omega arith
length-drop (suc n) (x ∷ xs) = omega (arith, length-drop n xs)

pub length-map : (f : ℕ → ℕ) (xs : List ℕ) → length (map f xs) ≡ length xs
length-map f [] = refl
length-map f (x ∷ xs) = ap suc (length-map f xs)

pub length-placed :
    (behavior : PaddingBehavior) (pos os : ℕ) (indexes : List ℕ) (out : Output)
    → length (place_members behavior pos os indexes out).1 ≡ length indexes
unfolding place_members
length-placed behavior pos os indexes out = elim (Bool-cases (moves_members behavior os)) [
  | inr stays ↦ rw stays refl
  | inl moves ↦ rw moves (length-map (λ i. i - (9 - (1 + 2 * os))) indexes)
]

-- The table that is written has an entry for each member.
pub length-sorted :
    (translated : Memory → ℕ → Result (List ℕ)) (m : Memory) (pos n : ℕ) (moved entries : List ℕ)
    → (if leb 2 n then sort_object_index translated m pos moved else ok moved) ≡ ok entries
    → length entries ≡ length moved
unfolding IsReordering
length-sorted translated m pos n moved entries h = elim (Bool-cases (leb 2 n)) [
  | inl several ↦ (sort_object_index_lem translated m pos moved entries (rw several at h)).0
  | inr one ↦
      let same : ok moved ≡ ok entries = rw one at h in
      let e : entries ≡ moved = cc in ap (λ (l : List ℕ). length l) e
]

length-put_entries :
    (entries : List ℕ) (b : Builder)
    → length entries ≤ length b.indexes
    → length (put_entries entries b).indexes ≡ length b.indexes
unfolding put_entries
length-put_entries entries b h = omega (
  arith,
  length-append (take (length b.indexes - length entries) b.indexes) entries,
  length-take (length b.indexes - length entries) b.indexes (omega arith),
)

module _ (top : Compound) (rest : List Compound) where
  close_level-put_entries :
      (entries : List ℕ) (b : Builder)
      → b.stack ≡ top ∷ rest
      → top.index_start_pos + length entries ≤ length b.indexes
      → close_level (put_entries entries b) ≡ close_level b
  unfolding close_level put_entries
  close_level-put_entries entries b some room = rw some (
      ap (λ (l : List ℕ). record b { stack = rest; indexes = l })
        (take-shorter top.index_start_pos (length b.indexes - length entries) b.indexes entries
          (omega arith) (omega arith)))

  put_stack :
      (entries : List ℕ) (b : Builder)
      → b.stack ≡ top ∷ rest
      → (put_entries entries b).stack ≡ top ∷ rest
  unfolding put_entries
  put_stack entries b some = some

  -- Once the level is closed, nothing is left of the entries, as they were moved and as they were sorted.
  pub close_level-entries :
      (moved entries : List ℕ) (b : Builder)
      → b.stack ≡ top ∷ rest
      → length entries ≡ length moved
      → top.index_start_pos + length moved ≤ length b.indexes
      → close_level (put_entries entries (put_entries moved b)) ≡ close_level b
  close_level-entries moved entries b some same room =
      close_level-put_entries entries (put_entries moved b) (put_stack moved b some)
        (omega (arith, same, length-put_entries moved b (omega arith)))
      ∙ close_level-put_entries moved b some room
