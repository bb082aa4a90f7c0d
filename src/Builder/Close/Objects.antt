-- ===== src/Builder/Close/Objects.antt =====
-- src/Builder.cpp: `close`, with the part that it does itself for Objects with an index table.
pub mod Fits
pub mod Members
pub mod Closed
pub mod Entries
use velocypack.Prelude.{
  ℕ, ◌+◌, ◌-◌, ◌*◌, ◌==◌, ltb, leb, ◌&&◌, ◌||◌, not, Bool, true, false, if◌then◌else◌, List, [],
  ◌∷◌, length, map, drop, take, ◌++◌,
}
use velocypack.Options.{Options, PaddingBehavior, no_padding, flexible, use_padding}
use velocypack.Memory.{Memory}
use velocypack.Exception.{builder_need_open_compound, duplicate_attribute_name}
use velocypack.Result.{Result, ok, throws, undefined, throw_if}
use velocypack.Builder.Output.{Output, patch}
use velocypack.Builder.State.{
  Builder, Compound, Action, continue_with, close_level, head_at, is_array_head, is_object_head,
}
use velocypack.Builder.Close.{
  removes_padding, move_down, write_index_table, write_lengths, close_empty_array_or_object,
}
use velocypack.Builder.Close.Compact.{close_compact_array_or_object}
use velocypack.Builder.Close.Arrays.{close_array}
use velocypack.Builder.Close.Names.{sort_object_index, check_attribute_uniqueness}

-- `effectivePaddingForOneByteMembers` and `effectivePaddingForTwoByteMembers`
unfoldable pub effective_padding : PaddingBehavior → ℕ → ℕ
effective_padding behavior width = elim behavior [
  | use_padding ↦ if width == 1 then 6 else 4
  | no_padding ↦ 0
  | flexible ↦ 0
]

-- `offsetSize`, of the size up to here and the number of members. The size is at least nine.
unfoldable pub object_offset_size : PaddingBehavior → ℕ → ℕ → ℕ
object_offset_size behavior size n =
    if leb (size + n - 6 + effective_padding behavior 1) 0xff
    then 1
    else if leb (size + 2 * n + effective_padding behavior 2) 0xffff
    then 2
    else if leb (size + 4 * n) 0xffffffff
    then 4
    else 8

unfoldable pub object_type : ℕ → ℕ
object_type offset_size =
    if offset_size == 1
    then 0x0b
    else if offset_size == 2
    then 0x0b + 1
    else if offset_size == 4
    then 0x0b + 2
    else 0x0b + 3

-- Whether the members move down over the padding.
unfoldable pub moves_members : PaddingBehavior → ℕ → Bool
moves_members behavior offset_size = ltb offset_size 4 && removes_padding behavior offset_size

-- The bytes behind the members, once the entries are sorted.
unfoldable pub write_object : ℕ → ℕ → List ℕ → Output → Output
write_object pos offset_size entries out =
    let filled = patch pos (object_type offset_size) (write_index_table offset_size entries out) in
    write_lengths pos offset_size true (length entries) filled

-- The head byte, and the members where they are to stand, with their entries.
unfoldable pub place_members : PaddingBehavior → ℕ → ℕ → List ℕ → Output → Output × List ℕ
place_members behavior pos offset_size indexes out =
    let target = 1 + 2 * offset_size in
    let headed = patch pos 0x0b out in
    if moves_members behavior offset_size
    then (move_down pos target headed, map (λ i. i - (9 - target)) indexes)
    else (headed, indexes)

-- The index entries of the innermost level, which are the last ones, are changed in place.
unfoldable pub put_entries : List ℕ → Builder → Builder
put_entries entries b = record b {
  indexes = take (length b.indexes - length entries) b.indexes ++ entries;
}

-- `advance(offsetSize * n)` for the table, before the sort.
unfoldable pub advance_table : ℕ → ℕ → Builder → Builder
advance_table offset_size n b = record b {
  out = record { bytes = b.out.bytes; pos = b.out.pos + offset_size * n };
}

module _ (translated : Memory → ℕ → Result (List ℕ)) where
  -- The check at the end, where the options want it.
  unfoldable pub check_duplicates : Options → Memory → ℕ → ℕ → Result (Unit {0})
  check_duplicates options m pos n =
      if options.check_attribute_uniqueness && ltb 1 n
      then elim (check_attribute_uniqueness translated m pos n) [
        | ok unique ↦ throw_if (not unique) duplicate_attribute_name
        | throws e ↦ throws e
        | undefined ↦ undefined
      ]
      else ok tt

  -- Behind the sort, of a Builder with the members at their place and their entries. Where the sort
  -- throws, there is room for the table, and the entries are in no certain order. A duplicate is found
  -- with the level still open.
  unfoldable pub finish_object :
      Options → ℕ → ℕ → ℕ → Builder → Result (List ℕ) → Result (Unit {0}) × Builder
  unfolding put_entries advance_table
  finish_object options pos offset_size n b (ok entries) =
      let written : Builder =
        put_entries entries (record b { out = write_object pos offset_size entries b.out }) in
      continue_with (check_duplicates options written.out.bytes pos (length entries), written)
        (λ _ b'. (ok tt, close_level b'))
  finish_object options pos offset_size n b (throws e) = (throws e, advance_table offset_size n b)
  finish_object options pos offset_size n b undefined = (undefined, advance_table offset_size n b)

  unfoldable pub close_object : Options → ℕ → List ℕ → Action (Unit {0})
  unfolding put_entries
  close_object options pos indexes b =
      let behavior = options.padding_behavior in
      let n = length indexes in
      let offset_size = object_offset_size behavior (b.out.pos - pos) n in
      let (placed, entries) = place_members behavior pos offset_size indexes b.out in
      finish_object options pos offset_size n (put_entries entries (record b { out = placed }))
        (if leb 2 n then sort_object_index translated placed.bytes pos entries else ok entries)

  -- Whether the compact format is tried.
  unfoldable pub wants_compact : Options → ℕ → ℕ → Bool
  wants_compact options head n =
      head == 0x13
      || head == 0x14
      || (head == 0x06 && options.build_unindexed_arrays)
      || (head == 0x0b && (options.build_unindexed_objects || n == 1))

  unfoldable pub close_indexed : Options → ℕ → List ℕ → Action (Unit {0})
  close_indexed options pos indexes b =
      if is_array_head (b.out.bytes pos)
      then (ok tt, close_array options pos indexes b)
      else close_object options pos indexes b

  -- `closeCompactArrayOrObject`, and the rest when it gives up.
  unfoldable pub close_compact : Options → ℕ → List ℕ → Action (Unit {0})
  close_compact options pos indexes b =
      let head = b.out.bytes pos in
      let n = length indexes in
      let (done, b') = close_compact_array_or_object pos (is_array_head head) n b in
      if done
      then (if is_object_head head then check_duplicates options b'.out.bytes pos n else ok tt, b')
      else close_indexed options pos indexes b'

  -- `close()`
  unfoldable pub close : Options → Action (Unit {0})
  close options b = elim b.stack [
    | [] ↦ (throws builder_need_open_compound, b)
    | top ∷ _ ↦
        let pos = top.start_pos in
        let head = head_at b top in
        let indexes = drop top.index_start_pos b.indexes in
        if length indexes == 0
        then (ok tt, close_empty_array_or_object pos (is_array_head head) b)
        else if wants_compact options head (length indexes)
        then close_compact options pos indexes b
        else close_indexed options pos indexes b
  ]
