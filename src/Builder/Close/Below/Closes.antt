-- ===== src/Builder/Close/Below/Closes.antt =====
-- src/Builder.cpp: what `close` leaves of the levels.
use velocypack.Prelude.{
  ℕ, ◌+◌, ◌-◌, ◌^◌, ◌≤◌, ◌<◌, ◌≡◌, refl, ap, sym, arith, Bool, false, ltb, if◌then◌else◌, List, ◌∷◌,
  length, drop, Bool-cases, inl, inr, ltb→lt,
}
use velocypack.Memory.{Memory}
use velocypack.Result.{Result, ok, throws, undefined}
use velocypack.Options.{Options}
use velocypack.Common.{get_variable_value_length}
use velocypack.Builder.Output.{Output, patch}
use velocypack.Builder.State.{
  Builder, Compound, continue_with, close_level, is_array_head, is_object_head,
}
use velocypack.Builder.Outcome.{Outcome}
use velocypack.Builder.Levels.{IsWellFormed, IsNested, member_counts}
use velocypack.Builder.Levels.Steps.{close_level-IsWellFormed}
use velocypack.Builder.Close.{close_empty_array_or_object}
use velocypack.Builder.Close.Arrays.{close_array, format_of, need_index_table}
use velocypack.Builder.Close.Compact.{close_compact_array_or_object, compact_output, compact_sizes}
use velocypack.Builder.Close.Objects.{
  close_object, close_indexed, close_compact, finish_object, place_members, check_duplicates,
  put_entries, write_object, object_offset_size,
}
use mathlib.Core.Path.{subst}
use velocypack.Builder.Close.Objects.Entries.{close_level-entries, length-placed, length-sorted}
use velocypack.Builder.Close.Below.{
  KeepsBelow, KeepsBelow-trans, KeepsBelow-end, patch-KeepsBelow, write_object-KeepsBelow,
  place_members-KeepsBelow, write_array-KeepsBelow, compact_output-KeepsBelow,
}

-- The innermost level is gone, and those outside of it are as they were.
unfoldable pub Closes : Builder → Builder → Type 0
Closes b b' =
    IsWellFormed b'
    × (b'.stack ≡ drop 1 b.stack)
    × (member_counts b' ≡ drop 1 (member_counts b))
    × (b'.key_written ≡ false)

module _ (b : Builder) (top : Compound) (rest : List Compound) (some : b.stack ≡ top ∷ rest)
    (well : IsWellFormed b) (none : b.key_written ≡ false) where
  closed_rest :
      (out : Output)
      → ((close_level (record b { out = out })).stack ≡ drop 1 b.stack)
        × ((close_level (record b { out = out })).key_written ≡ false)
  unfolding close_level
  closed_rest out = rw some (refl, none)

  -- A level that is sealed with bytes at its begin or behind it.
  sealed :
      (out : Output)
      → KeepsBelow top.start_pos b.out out
      → Closes b (close_level (record b { out = out }))
  unfolding Closes KeepsBelow
  sealed out (end, same) =
      let (well', count) = close_level-IsWellFormed b top rest out some well none end same in
      let (levels, key) = closed_rest out in
      (well', levels, sym (ap (λ (l : List ℕ). drop 1 l) count), key)

  room : top.start_pos + 9 ≤ b.out.pos
  unfolding IsWellFormed IsNested
  room = (rw some at well.0).0

  shorter : (x : ℕ) → top.start_pos ≤ (patch top.start_pos x b.out).pos - 8
  unfolding patch
  shorter x = omega (arith, room)

  pub close_empty-Closes :
      (is_array : Bool) → Closes b (close_empty_array_or_object top.start_pos is_array b)
  unfolding close_empty_array_or_object KeepsBelow
  close_empty-Closes is_array =
      let x = if is_array then 0x01 else 0x0a in
      let out = patch top.start_pos x b.out in
      let low : top.start_pos ≤ b.out.pos = omega (arith, room) in
      sealed (record { bytes = out.bytes; pos = out.pos - 8 })
        (shorter x, (patch-KeepsBelow top.start_pos x b.out low).1)

  close_array-Closes :
      (options : Options) (indexes : List ℕ)
      → Closes b (close_array options top.start_pos indexes b)
  unfolding close_array
  close_array-Closes options indexes =
      let format = format_of options top.start_pos indexes b.out in
      let table = need_index_table (b.out.pos - top.start_pos) indexes in
      sealed _ (write_array-KeepsBelow top.start_pos table format.0 format.1 indexes b.out room)

  module _ (translated : Memory → ℕ → Result (List ℕ)) (options : Options) where
    any_result :
        (r : Result (Unit {0})) (c : Builder)
        → Closes b c
        → Outcome (λ _ b'. Closes b b') (λ _ _. Unit {0}) (r, c)
    any_result (ok _) c h = h
    any_result (throws e) c h = tt
    any_result undefined c h = tt

    -- A result on the way to the end of `close`.
    sealed_result :
        (r : Result (Unit {0})) (c : Builder)
        → Closes b (close_level c)
        → Outcome
            (λ _ b'. Closes b b')
            (λ _ _. Unit {0})
            (continue_with (r, c) (λ _ b'. (ok tt, close_level b')))
    sealed_result (ok _) c h = h
    sealed_result (throws e) c h = tt
    sealed_result undefined c h = tt

    finish_object-Closes :
        (os n : ℕ) (placed : Output) (moved : List ℕ) (r : Result (List ℕ))
        → KeepsBelow top.start_pos b.out placed
        → top.index_start_pos + length moved ≤ length b.indexes
        → ((entries : List ℕ) → r ≡ ok entries → length entries ≡ length moved)
        → Outcome
            (λ _ b'. Closes b b')
            (λ _ _. Unit {0})
            (finish_object translated options top.start_pos os n
              (put_entries moved (record b { out = placed }))
              r)
    unfolding finish_object put_entries
    finish_object-Closes os n placed moved (throws e) keeps place count = tt
    finish_object-Closes os n placed moved undefined keeps place count = tt
    finish_object-Closes os n placed moved (ok entries) keeps place count =
        let out = write_object top.start_pos os entries placed in
        let written : KeepsBelow top.start_pos b.out out =
          KeepsBelow-trans top.start_pos b.out placed out keeps (
            write_object-KeepsBelow top.start_pos os entries placed
              (KeepsBelow-end top.start_pos b.out placed keeps)) in
        let same =
          close_level-entries top rest moved entries (record b { out = out }) some
            (count entries refl) place in
        sealed_result _ _ (subst (Closes b) (sym same) (sealed out written))

    close_object-Closes :
        (indexes : List ℕ)
        → top.index_start_pos + length indexes ≤ length b.indexes
        → Outcome
            (λ _ b'. Closes b b')
            (λ _ _. Unit {0})
            (close_object translated options top.start_pos indexes b)
    unfolding close_object
    close_object-Closes indexes place =
        let os =
          object_offset_size options.padding_behavior (b.out.pos - top.start_pos)
            (length indexes) in
        let count = length-placed options.padding_behavior top.start_pos os indexes b.out in
        let (placed, moved) =
          place_members options.padding_behavior top.start_pos os indexes b.out in
        finish_object-Closes os (length indexes) placed moved _
          (place_members-KeepsBelow options.padding_behavior top.start_pos os indexes b.out room)
          (omega (arith, count))
          (length-sorted translated placed.bytes top.start_pos (length indexes) moved)

    pub close_indexed-Closes :
        (indexes : List ℕ)
        → top.index_start_pos + length indexes ≤ length b.indexes
        → Outcome
            (λ _ b'. Closes b b')
            (λ _ _. Unit {0})
            (close_indexed translated options top.start_pos indexes b)
    unfolding close_indexed
    close_indexed-Closes indexes place =
        elim (Bool-cases (is_array_head (b.out.bytes top.start_pos))) [
          | inl array ↦ rw array (close_array-Closes options indexes)
          | inr other ↦ rw other (close_object-Closes indexes place)
        ]

    module _ (indexes : List ℕ) (short : b.out.pos + 30 < 2 ^ 64) (few : length indexes < 2 ^ 64)
        (place : top.index_start_pos + length indexes ≤ length b.indexes) where
      pub close_compact-Closes :
          Outcome
            (λ _ b'. Closes b b')
            (λ _ _. Unit {0})
            (close_compact translated options top.start_pos indexes b)
      unfolding close_compact close_compact_array_or_object
      close_compact-Closes =
          let n = length indexes in
          let head = b.out.bytes top.start_pos in
          let b_len =
            (compact_sizes (b.out.pos - (top.start_pos + 8) + get_variable_value_length n)).0 in
          elim (Bool-cases (ltb b_len 9)) [
            | inr long ↦ rw long (close_indexed-Closes indexes place)
            | inl fits ↦
                let out = compact_output top.start_pos (is_array_head head) n b.out in
                let b' = close_level (record b { out = out }) in
                let closes : Closes b b' = sealed out (
                  compact_output-KeepsBelow top.start_pos (is_array_head head) n b.out room short
                    few (ltb→lt b_len 9 fits)) in
                elim (Bool-cases (is_object_head head)) [
                  | inr array ↦ rw (fits, array) closes
                  | inl object ↦
                      rw (fits, object)
                        (any_result
                          (check_duplicates translated options b'.out.bytes top.start_pos n) b'
                          closes)
                ]
          ]
