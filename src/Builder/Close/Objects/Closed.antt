-- ===== src/Builder/Close/Objects/Closed.antt =====
-- src/Builder.cpp: `close` for an Object that gets an index table, from the stack of open levels to the
-- bytes that are read back.
use velocypack.Prelude.{
  ℕ, ◌+◌, ◌-◌, ◌*◌, ◌^◌, ◌≤◌, ◌<◌, ◌≡◌, refl, ap, ◌∙◌, arith, true, false, leb, ◌==◌, List, [], ◌∷◌,
  length, drop, All,
}
use mathlib.Core.List.{Perm}
use velocypack.Memory.{Memory, IsByteMemory}
use velocypack.Result.{Result, ok}
use velocypack.Options.{Options, PaddingBehavior}
use velocypack.Builder.Output.{Output}
use velocypack.Builder.State.{Builder, Compound, close_level}
use velocypack.Builder.Close.Names.{sort_object_index}
use velocypack.Builder.Close.Names.Sorted.{sort_object_index_lem, IsReordering}
use velocypack.Builder.Close.Objects.{
  close, close_indexed, close_object, finish_object, put_entries, check_duplicates,
  object_offset_size, place_members, write_object, wants_compact,
}
use velocypack.Builder.Close.Objects.Fits.{
  moved_size, object_offset_size-FitsWidth, closed_object-ReadsTable,
}
use velocypack.Builder.Close.Objects.Members.{
  HasMembers, first_member, write_object-HasMembers, placed-inside,
}
use velocypack.Builder.Close.Objects.Entries.{length-drop, length-placed, close_level-entries}
use velocypack.Builder.Close.Below.Returns.{close-some}
use velocypack.Builder.Close.Table.Objects.{ReadsTable}

abbrev pub width_of : PaddingBehavior → ℕ → List ℕ → Output → ℕ
width_of behavior pos indexes out = object_offset_size behavior (out.pos - pos) (length indexes)

-- The members at their place, and their entries.
abbrev pub placed_object : PaddingBehavior → ℕ → List ℕ → Output → Output × List ℕ
placed_object behavior pos indexes out =
    place_members behavior pos (width_of behavior pos indexes out) indexes out

-- The Object with a given table.
abbrev pub closed_object : PaddingBehavior → ℕ → List ℕ → List ℕ → Output → Output
closed_object behavior pos indexes entries out =
    write_object pos (width_of behavior pos indexes out) entries
      (placed_object behavior pos indexes out).0

pub All-below : (n k : ℕ) (xs : List ℕ) → n ≤ k → All (λ i. i < n) xs → All (λ i. i < k) xs
All-below n k [] le h = tt
All-below n k (x ∷ xs) le (first, h) = (omega arith, All-below n k xs le h)

module _ (translated : Memory → ℕ → Result (List ℕ)) (options : Options) (pos : ℕ)
    (indexes entries : List ℕ) (b : Builder)
    (sorted : sort_object_index translated
        (placed_object options.padding_behavior pos indexes b.out).0.bytes
        pos
        (placed_object options.padding_behavior pos indexes b.out).1
      ≡ ok entries) where
  closed : Output
  closed = closed_object options.padding_behavior pos indexes entries b.out

  module _ (bytes : IsByteMemory b.out.bytes) (room : pos + 9 ≤ b.out.pos)
      (fits : b.out.pos + 8 * length indexes + 8 < 2 ^ 64) (several : 2 ≤ length indexes)
      (inside : All (λ i. i < b.out.pos - pos) indexes) where
    closed_reads :
        Perm entries (placed_object options.padding_behavior pos indexes b.out).1
        × ReadsTable closed.bytes pos (closed.pos - pos) entries
        × HasMembers pos
            (first_member options.padding_behavior
              (width_of options.padding_behavior pos indexes b.out))
            b.out
            closed
    unfolding closed IsReordering
    closed_reads =
        let behavior = options.padding_behavior in
        let os = width_of behavior pos indexes b.out in
        let (placed, moved) = placed_object behavior pos indexes b.out in
        let (same, perm, each) =
          sort_object_index_lem translated placed.bytes pos moved entries sorted in
        let (width, total, header) =
          object_offset_size-FitsWidth behavior (b.out.pos - pos) (length indexes) (omega arith)
            (omega arith) in
        let count : length entries ≡ length indexes =
          same ∙ length-placed behavior pos os indexes b.out in
        let narrow : All (λ i. i < 256 ^ os) moved =
          All-below (moved_size behavior os (b.out.pos - pos)) (256 ^ os) moved
            (omega (arith, total))
            (placed-inside behavior pos os (b.out.pos - pos) indexes b.out (omega arith) inside) in
        (
          perm,
          closed_object-ReadsTable behavior pos indexes entries b.out bytes room fits count
              (omega (arith, count)) (each (λ i. i < 256 ^ os) narrow),
          write_object-HasMembers behavior pos os indexes entries b.out bytes room width,
        )

  close_object-sealed :
      (top : Compound) (rest : List Compound)
      → b.stack ≡ top ∷ rest
      → top.index_start_pos + length indexes ≤ length b.indexes
      → 2 ≤ length indexes
      → check_duplicates translated options closed.bytes pos (length entries) ≡ ok tt
      → close_object translated options pos indexes b
        ≡ (ok tt, close_level (record b { out = closed }))
  unfolding close_object finish_object closed put_entries IsReordering
  close_object-sealed top rest some place several unique =
      let many : leb 2 (length indexes) ≡ true = ground arith in
      let (placed, moved) = placed_object options.padding_behavior pos indexes b.out in
      let (count, _, _) = sort_object_index_lem translated placed.bytes pos moved entries sorted in
      let same =
        length-placed options.padding_behavior pos
          (width_of options.padding_behavior pos indexes b.out) indexes b.out in
      rw (many, sorted, unique)
        (ap (λ (c : Builder). (ok tt, c))
          (close_level-entries top rest moved entries (record b { out = closed }) some count
            (omega (arith, same, place))))

wants_index_table :
    (translated : Memory → ℕ → Result (List ℕ)) (options : Options) (head n : ℕ)
    → head ≡ 0x0b
    → options.build_unindexed_objects ≡ false
    → 2 ≤ n
    → wants_compact translated options head n ≡ false
unfolding wants_compact
wants_index_table translated options head n e indexed several =
    let two : (n == 1) ≡ false = ground arith in rw (e, indexed, two) refl

close_indexed-object :
    (translated : Memory → ℕ → Result (List ℕ)) (options : Options) (pos : ℕ) (indexes : List ℕ)
    (b : Builder)
    → b.out.bytes pos ≡ 0x0b
    → close_indexed translated options pos indexes b ≡ close_object translated options pos indexes b
unfolding close_indexed
close_indexed-object translated options pos indexes b head = rw head refl

-- For an open Object of two members or more, each of which begins inside of it, whose head is 0x0b,
-- and options that build index tables: in a buffer of bytes that ends below 2 ^ 64, where the sort
-- finds the names of the keys and the check for duplicates passes or is not wanted, close returns with
-- the innermost level closed; the table has the moved entries of the members in some order, the Object
-- is read back with its byte size, its number of members and its table, and the bytes of the members
-- stand behind the header as they were.
pub close-ReadsTable :
    (translated : Memory → ℕ → Result (List ℕ)) (options : Options) (b : Builder) (top : Compound)
    (rest : List Compound) (entries : List ℕ)
    → b.stack ≡ top ∷ rest
    → b.out.bytes top.start_pos ≡ 0x0b
    → options.build_unindexed_objects ≡ false
    → IsByteMemory b.out.bytes
    → top.start_pos + 9 ≤ b.out.pos
    → let pos = top.start_pos in
      let indexes = drop top.index_start_pos b.indexes in
      let behavior = options.padding_behavior in
      let placed = placed_object behavior pos indexes b.out in
      let closed = closed_object behavior pos indexes entries b.out in
      b.out.pos + 8 * length indexes + 8 < 2 ^ 64
      → 2 ≤ length indexes
      → All (λ i. i < b.out.pos - pos) indexes
      → sort_object_index translated placed.0.bytes pos placed.1 ≡ ok entries
      → check_duplicates translated options closed.bytes pos (length entries) ≡ ok tt
      → (close translated options b ≡ (ok tt, close_level (record b { out = closed })))
        × Perm entries placed.1
        × ReadsTable closed.bytes pos (closed.pos - pos) entries
        × HasMembers pos (first_member behavior (width_of behavior pos indexes b.out)) b.out closed
unfolding closed
close-ReadsTable translated options b top rest entries some head indexed bytes room fits several
      inside sorted unique =
    let indexes = drop top.index_start_pos b.indexes in
    let more : (length indexes == 0) ≡ false = ground arith in
    let place : top.index_start_pos + length indexes ≤ length b.indexes =
      omega (arith, several, length-drop top.index_start_pos b.indexes) in
    let wanted =
      wants_index_table translated options (b.out.bytes top.start_pos) (length indexes) head indexed
        several in
    let (perm, table, members) =
      closed_reads translated options top.start_pos indexes entries b sorted bytes room fits several
        inside in
    (
      close-some translated options b top rest some
          ∙ rw (more, wanted) (close_indexed-object translated options top.start_pos indexes b head)
          ∙ close_object-sealed translated options top.start_pos indexes entries b sorted top rest
              some place several unique,
      perm,
      table,
      members,
    )
