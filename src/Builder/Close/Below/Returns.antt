-- ===== src/Builder/Close/Below/Returns.antt =====
-- src/Builder.cpp: `close` in all its branches.
use velocypack.Prelude.{
  ℕ, ◌+◌, ◌^◌, ◌≤◌, ◌<◌, ◌≡◌, refl, arith, false, ◌==◌, if◌then◌else◌, List, [], ◌∷◌, length, drop,
  Bool-cases, List-cases, inl, inr,
}
use velocypack.Memory.{Memory}
use velocypack.Result.{Result, ok}
use velocypack.Options.{Options}
use velocypack.Builder.State.{Builder, Compound, is_array_head, head_at}
use velocypack.Builder.Outcome.{Outcome}
use velocypack.Builder.Levels.{IsWellFormed, IsNested}
use velocypack.Builder.Close.{close_empty_array_or_object}
use velocypack.Builder.Close.Objects.{close, close_indexed, close_compact, wants_compact}
use velocypack.Builder.Close.Objects.Entries.{length-drop}
use velocypack.Builder.Close.Below.Closes.{
  Closes, close_empty-Closes, close_indexed-Closes, close_compact-Closes,
}

innermost :
    (b : Builder) (top : Compound) (rest : List Compound)
    → b.stack ≡ top ∷ rest
    → IsWellFormed b
    → top.index_start_pos ≤ length b.indexes
unfolding IsWellFormed IsNested
innermost b top rest some well = (rw some at well.0).1

module _ (translated : Memory → ℕ → Result (List ℕ)) (options : Options) (b : Builder) where
  -- The branches of `close`.
  module _ (top : Compound) (rest : List Compound) (some : b.stack ≡ top ∷ rest) where
    abbrev pub indexes : List ℕ
    indexes = drop top.index_start_pos b.indexes

    pub close-some : close translated options b ≡ (
        if length indexes == 0
        then (
          ok tt,
          close_empty_array_or_object top.start_pos (is_array_head (b.out.bytes top.start_pos)) b,
        )
        else if wants_compact translated options (b.out.bytes top.start_pos) (length indexes)
        then close_compact translated options top.start_pos indexes b
        else close_indexed translated options top.start_pos indexes b)
    unfolding close head_at
    close-some = rw some refl

  close-empty :
      b.stack ≡ [] → Outcome (λ _ b'. Closes b b') (λ _ _. Unit {0}) (close translated options b)
  unfolding close
  close-empty empty = rw empty tt

  -- When `close` returns, no key waited, and the buffer and the index entries stay below 2 ^ 64: the
  -- innermost level is gone, the levels outside of it have the members that they had, no key waits, and
  -- the invariant of the levels holds again.
  pub close-Closes :
      IsWellFormed b
      → b.key_written ≡ false
      → b.out.pos + 30 < 2 ^ 64
      → length b.indexes < 2 ^ 64
      → Outcome (λ _ b'. Closes b b') (λ _ _. Unit {0}) (close translated options b)
  close-Closes well none short few = elim (List-cases b.stack) [
    | inl empty ↦ close-empty empty
    | inr (top, rest, some) ↦
        let xs = drop top.index_start_pos b.indexes in
        let fewer : length xs < 2 ^ 64 = omega (arith, length-drop top.index_start_pos b.indexes) in
        let place : top.index_start_pos + length xs ≤ length b.indexes =
          omega
            (arith, length-drop top.index_start_pos b.indexes, innermost b top rest some well) in
        let head = b.out.bytes top.start_pos in
        rw (close-some top rest some) (elim (Bool-cases (length xs == 0)) [
          | inl empty ↦ rw empty (close_empty-Closes b top rest some well none (is_array_head head))
          | inr several ↦ elim (Bool-cases (wants_compact translated options head (length xs))) [
            | inl compact ↦
                rw (several, compact)
                  (close_compact-Closes b top rest some well none translated options xs short fewer
                    place)
            | inr indexed ↦
                rw (several, indexed)
                  (close_indexed-Closes b top rest some well none translated options xs place)
          ]
        ])
  ]
