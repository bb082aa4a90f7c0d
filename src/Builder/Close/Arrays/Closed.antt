-- ===== src/Builder/Close/Arrays/Closed.antt =====
-- src/Builder.cpp: `close` for an Array that gets an index table, from the stack of open levels to the
-- bytes that are read back.
use velocypack.Prelude.{
  ℕ, ◌+◌, ◌-◌, ◌*◌, ◌%◌, ◌^◌, ◌≤◌, ◌<◌, ◌≡◌, refl, ◌∙◌, arith, Bool, true, false, ltb, ◌==◌,
  if◌then◌else◌, List, ◌∷◌, length, map, drop, All, Bool-cases, inl, inr,
}
use mathlib.Core.Path.{subst}
use velocypack.Memory.{
  Memory, IsByteMemory, memmove-inside, memmove-outside, update_self, update_ne,
}
use velocypack.SliceStaticData.{type_map, fixed_type_lengths, width_map}
use velocypack.Result.{Result, ok}
use velocypack.Options.{Options}
use velocypack.Common.{memcpy_out}
use velocypack.Common.Integers.LittleEndian.{memcpy_out-after}
use velocypack.Builder.Output.{Output, patch}
use velocypack.Builder.Integers.RoundTrip.{update-IsByteMemory}
use velocypack.Builder.State.{Builder, Compound, close_level}
use velocypack.Builder.Close.{move_down, write_index_table, write_lengths, determine_array_type}
use velocypack.Builder.Close.Arrays.{close_array, format_of, need_index_table, write_array}
use velocypack.Builder.Close.Arrays.Fits.{array_first, ArrayFits, padded-ArrayFits}
use velocypack.Builder.Close.Objects.{close, close_indexed, wants_compact}
use velocypack.Builder.Close.Objects.Fits.{memmove-IsByteMemory}
use velocypack.Builder.Close.Objects.Entries.{length-map}
use velocypack.Builder.Close.Objects.Members.{HasMembers, shifted-inside}
use velocypack.Builder.Close.Objects.Closed.{All-below}
use velocypack.Builder.Close.Below.{write_index_table-KeepsBelow, KeepsBelow}
use velocypack.Builder.Close.Below.Returns.{close-some}
use velocypack.Builder.Close.Table.{IsWidth, count_room, write_index_table_lem}
use velocypack.Builder.Close.Table.Lengths.{header_room}
use velocypack.Builder.Close.Table.Reads.{is_table_head}
use velocypack.Builder.Close.Table.Objects.{ReadsTable, written_ReadsTable, few_members, above_head}

-- The members at their place behind the head byte, and their entries.
unfoldable pub placed_array : ℕ → ℕ → Bool → Output → Output
placed_array pos os allow out =
    let headed = patch pos (determine_array_type true os) out in
    if allow then move_down pos (1 + 2 * os) headed else headed

unfoldable pub array_entries : ℕ → Bool → List ℕ → List ℕ
array_entries os allow indexes =
    if allow then map (λ i. i - (9 - (1 + 2 * os))) indexes else indexes

write_array-steps :
    (pos os : ℕ) (allow : Bool) (indexes : List ℕ) (out : Output)
    → write_array pos true os allow indexes out
      ≡ write_lengths pos os true
          (length indexes)
          (write_index_table os (array_entries os allow indexes) (placed_array pos os allow out))
unfolding write_array array_entries placed_array
write_array-steps pos os allow indexes out = refl

length-array_entries :
    (os : ℕ) (allow : Bool) (indexes : List ℕ)
    → length (array_entries os allow indexes) ≡ length indexes
unfolding array_entries
length-array_entries os true indexes = length-map (λ i. i - (9 - (1 + 2 * os))) indexes
length-array_entries os false indexes = refl

entries-inside :
    (os size : ℕ) (allow : Bool) (indexes : List ℕ)
    → 9 ≤ size
    → All (λ i. i < size) indexes
    → All (λ i. i < size - (9 - array_first os allow)) (array_entries os allow indexes)
unfolding array_entries array_first
entries-inside os size true indexes big inside =
    shifted-inside (9 - (1 + 2 * os)) size indexes (omega arith) inside
entries-inside os size false indexes big inside =
    All-below size (size - 0) indexes (omega arith) inside

array_heads :
    (os : ℕ)
    → IsWidth os
    → (is_table_head (determine_array_type true os) os ≡ true)
      × (determine_array_type true os % 256 ≡ determine_array_type true os)
unfolding IsWidth is_table_head determine_array_type width_map fixed_type_lengths type_map
array_heads os (inl one) = rw one (refl, refl)
array_heads os (inr (inl two)) = rw two (refl, refl)
array_heads os (inr (inr (inl four))) = rw four (refl, refl)
array_heads os (inr (inr (inr eight))) = rw eight (refl, refl)

-- What the steps before the table leave.
placed_array_lem :
    (pos os : ℕ) (allow : Bool) (out : Output)
    → IsWidth os
    → IsByteMemory out.bytes
    → pos + 9 ≤ out.pos
    → IsByteMemory (placed_array pos os allow out).bytes
      × ((placed_array pos os allow out).pos ≡ out.pos - (9 - array_first os allow))
      × ((placed_array pos os allow out).bytes pos ≡ determine_array_type true os)
      × HasMembers pos (array_first os allow) out (placed_array pos os allow out)
unfolding placed_array array_first move_down patch HasMembers
placed_array_lem pos os true out width bytes room =
    let x = determine_array_type true os in
    (
      memmove-IsByteMemory _ (pos + (1 + 2 * os)) (pos + 9) (out.pos - (pos + 9))
          (update-IsByteMemory out.bytes pos (x % 256) bytes (omega arith)),
      refl,
      memmove-outside _ (pos + (1 + 2 * os)) (pos + 9) (out.pos - (pos + 9)) pos (omega arith)
          ∙ update_self out.bytes pos (x % 256)
          ∙ (array_heads os width).1,
      λ j h.
          memmove-inside _ (pos + (1 + 2 * os)) (pos + 9) (out.pos - (pos + 9)) j h
          ∙ update_ne out.bytes pos _ (pos + 9 + j) (λ e. omega arith),
    )
placed_array_lem pos os false out width bytes room =
    let x = determine_array_type true os in
    (
      update-IsByteMemory out.bytes pos (x % 256) bytes (omega arith),
      omega arith,
      update_self out.bytes pos (x % 256) ∙ (array_heads os width).1,
      λ j h. update_ne out.bytes pos _ (pos + 9 + j) (λ e. omega arith),
    )

-- The lengths behind the head leave the members.
write_lengths-members :
    (pos os n : ℕ) (out : Output) (a : ℕ)
    → pos + header_room os ≤ a
    → (write_lengths pos os true n out).bytes a ≡ out.bytes a
unfolding write_lengths
write_lengths-members pos os n out a lo =
    let m = memcpy_out out.bytes (pos + 1) os (out.pos - pos) in
    elim (Bool-cases (ltb os 8)) [
      | inl both ↦
          let lo' : pos + (1 + os + os) ≤ a = rw both at lo in
          rw both (
            memcpy_out-after m (pos + 1 + os) os n a (omega (arith, lo'))
            ∙ memcpy_out-after out.bytes (pos + 1) os (out.pos - pos) a (omega (arith, lo')))
      | inr none ↦
          let lo' : pos + (1 + os) ≤ a = rw none at lo in
          rw none (memcpy_out-after out.bytes (pos + 1) os (out.pos - pos) a (omega (arith, lo')))
    ]

module _ (pos : ℕ) (os : ℕ) (allow : Bool) (indexes : List ℕ) (out : Output)
    (bytes : IsByteMemory out.bytes) (room : pos + 9 ≤ out.pos)
    (fits : ArrayFits (os, allow) (out.pos - pos) (length indexes)) where
  written_array-HasMembers :
      HasMembers pos (array_first os allow) out (write_array pos true os allow indexes out)
  unfolding HasMembers ArrayFits KeepsBelow write_array write_lengths array_entries placed_array
  written_array-HasMembers j h =
      let (width, total, header, few) = fits in
      let xs = array_entries os allow indexes in
      let placed = placed_array pos os allow out in
      let (placed_bytes, end, head, members) = placed_array_lem pos os allow out width bytes room in
      let a = pos + array_first os allow + j in
      let filled = write_index_table os xs placed in
      let lengths : (write_array pos true os allow indexes out).bytes a ≡ filled.bytes a =
        write_lengths-members pos os (length indexes) filled a (omega (arith, header)) in
      lengths
      ∙ (write_index_table-KeepsBelow (a + 1) os xs placed (omega (arith, end, few, h))).1 a
          (omega arith)
      ∙ members j h

  written_array-ReadsTable :
      2 ≤ length indexes
      → All (λ i. i < out.pos - pos) indexes
      → let written = write_array pos true os allow indexes out in
        ReadsTable written.bytes pos (written.pos - pos) (array_entries os allow indexes)
  unfolding ArrayFits write_array write_lengths array_entries placed_array
  written_array-ReadsTable several inside =
      let (width, total, header, few) = fits in
      let xs = array_entries os allow indexes in
      let placed = placed_array pos os allow out in
      let (placed_bytes, end, head, members) = placed_array_lem pos os allow out width bytes room in
      let same = length-array_entries os allow indexes in
      let fit : All (λ x. x < 256 ^ os) xs =
        All-below (out.pos - pos - (9 - array_first os allow)) (256 ^ os) xs (omega (arith, total))
          (entries-inside os (out.pos - pos) allow indexes (omega arith) inside) in
      let above : pos + header_room os ≤ placed.pos = omega (arith, end, header) in
      let small : placed.pos + os * length xs + count_room os < pos + 256 ^ os =
        rw same (omega (arith, end, total, few)) in
      let (filled_end, filled_bytes, before, entries, count) =
        write_index_table_lem os xs placed width fit placed_bytes
          (few_members os (length xs) pos placed.pos width small above) in
      subst
        (λ n.
          let written = write_lengths pos os true n (write_index_table os xs placed) in
          ReadsTable written.bytes pos (written.pos - pos) xs)
        same
        (written_ReadsTable pos os (determine_array_type true os) placed.pos xs
          (write_index_table os xs placed) width (filled_end, filled_bytes, entries, count) above
          (omega (arith, filled_end, small)) (omega (arith, same)) (array_heads os width).0
          (before pos (above_head os pos placed.pos above) ∙ head))

-- `format_of` where an index table is wanted.
format_of-ArrayFits :
    (options : Options) (pos : ℕ) (indexes : List ℕ) (out : Output)
    → need_index_table (out.pos - pos) indexes ≡ true
    → pos + 9 ≤ out.pos
    → out.pos + 8 * length indexes + 8 < 2 ^ 64
    → ArrayFits (format_of options pos indexes out) (out.pos - pos) (length indexes)
unfolding format_of
format_of-ArrayFits options pos indexes out needed room fits = rw needed (
    padded-ArrayFits options.padding_behavior (out.pos - pos) (length indexes) _ _ (omega arith)
      (omega arith))

wants_array_table :
    (translated : Memory → ℕ → Result (List ℕ)) (options : Options) (head n : ℕ)
    → head ≡ 0x06
    → options.build_unindexed_arrays ≡ false
    → wants_compact translated options head n ≡ false
unfolding wants_compact
wants_array_table translated options head n e indexed = rw (e, indexed) refl

-- `close_array` where an index table is wanted.
abbrev pub closed_array : Options → ℕ → List ℕ → Output → Output
closed_array options pos indexes out =
    let (os, allow) = format_of options pos indexes out in write_array pos true os allow indexes out

close_indexed-array :
    (translated : Memory → ℕ → Result (List ℕ)) (options : Options) (pos : ℕ) (indexes : List ℕ)
    (b : Builder)
    → b.out.bytes pos ≡ 0x06
    → need_index_table (b.out.pos - pos) indexes ≡ true
    → close_indexed translated options pos indexes b
      ≡ (ok tt, close_level (record b { out = closed_array options pos indexes b.out }))
unfolding close_indexed close_array
close_indexed-array translated options pos indexes b head needed = rw (head, needed) refl

-- For an open Array of two members or more, each of which begins inside of it, whose head is 0x06, with
-- members for which an index table is needed, and options that build index tables: in a buffer of bytes
-- that ends below 2 ^ 64, close returns with the innermost level closed; the Array is read back with its
-- byte size, its number of members and a table of the members in their order, each entry moved with its
-- member, and the bytes of the members stand behind the header as they were.
pub close_array-ReadsTable :
    (translated : Memory → ℕ → Result (List ℕ)) (options : Options) (b : Builder) (top : Compound)
    (rest : List Compound)
    → b.stack ≡ top ∷ rest
    → b.out.bytes top.start_pos ≡ 0x06
    → options.build_unindexed_arrays ≡ false
    → IsByteMemory b.out.bytes
    → top.start_pos + 9 ≤ b.out.pos
    → let pos = top.start_pos in
      let indexes = drop top.index_start_pos b.indexes in
      let (os, allow) = format_of options pos indexes b.out in
      let closed = closed_array options pos indexes b.out in
      b.out.pos + 8 * length indexes + 8 < 2 ^ 64
      → 2 ≤ length indexes
      → All (λ i. i < b.out.pos - pos) indexes
      → need_index_table (b.out.pos - pos) indexes ≡ true
      → (close translated options b ≡ (ok tt, close_level (record b { out = closed })))
        × ReadsTable closed.bytes pos (closed.pos - pos) (array_entries os allow indexes)
        × HasMembers pos (array_first os allow) b.out closed
close_array-ReadsTable translated options b top rest some head indexed bytes room fits several
      inside needed =
    let pos = top.start_pos in
    let indexes = drop top.index_start_pos b.indexes in
    let (os, allow) = format_of options pos indexes b.out in
    let format = format_of-ArrayFits options pos indexes b.out needed room fits in
    let more : (length indexes == 0) ≡ false = ground arith in
    let wanted =
      wants_array_table translated options (b.out.bytes pos) (length indexes) head indexed in
    (
      close-some translated options b top rest some
          ∙ rw (more, wanted) (close_indexed-array translated options pos indexes b head needed),
      written_array-ReadsTable pos os allow indexes b.out bytes room format several inside,
      written_array-HasMembers pos os allow indexes b.out bytes room format,
    )
