-- ===== src/Builder/Close/Table/Objects.antt =====
-- An Object or Array that `close` has written with an index table, as it is read back.
use velocypack.Prelude.{
  ℕ, ◌+◌, ◌-◌, ◌*◌, ◌%◌, ◌^◌, ◌≤◌, ◌<◌, ◌≡◌, refl, ◌∙◌, arith, true, List, length, get_or, All, inl,
  inr,
}
use velocypack.Memory.{Memory, IsByteMemory, update_self, update_ne}
use velocypack.SliceStaticData.{type_map, fixed_type_lengths, width_map}
use velocypack.Result.{ok}
use velocypack.Common.Integers.LittleEndian.{memcpy_in-agree}
use velocypack.Slice.{byte_size, length as slice_length, get_nth_offset, nth_by_table}
use velocypack.Builder.Output.{Output, patch}
use velocypack.Builder.Integers.RoundTrip.{update-IsByteMemory}
use velocypack.Builder.Close.{write_index_table, write_lengths}
use velocypack.Builder.Close.Objects.{write_object, object_type}
use velocypack.Builder.Close.Table.{
  IsWidth, entry_place, entry_place-from, write_index_table_lem, count_room,
}
use velocypack.Builder.Close.Table.Lengths.{
  HasTable, header_room, closed, lengths_bytes, read_total, read_count, read_entry,
}
use velocypack.Builder.Close.Table.Reads.{
  is_table_head, table-byte_size, table-length, table-get_nth_offset,
}

few_entries :
    (os n pos base total : ℕ)
    → IsWidth os
    → base + os * n + count_room os ≡ pos + total
    → pos ≤ base
    → total < 256 ^ os
    → (n < 256 ^ os) × (total < 2 ^ 64)
unfolding IsWidth
few_entries os n pos base total (inl one) e le lt =
    let e' = rw one at e in let lt' = rw one at lt in rw one (omega arith, omega arith)
few_entries os n pos base total (inr (inl two)) e le lt =
    let e' = rw two at e in let lt' = rw two at lt in rw two (omega arith, omega arith)
few_entries os n pos base total (inr (inr (inl four))) e le lt =
    let e' = rw four at e in let lt' = rw four at lt in rw four (omega arith, omega arith)
few_entries os n pos base total (inr (inr (inr eight))) e le lt =
    let e' = rw eight at e in let lt' = rw eight at lt in rw eight (omega arith, omega arith)

-- The byte size, the number of members and the place of each member, as they are read at `pos`.
unfoldable pub ReadsTable : Memory → ℕ → ℕ → List ℕ → Type 0
ReadsTable m pos size xs =
    (byte_size m pos ≡ ok size)
    × (slice_length m pos ≡ ok (length xs))
    × ((i : ℕ) → i < length xs → get_nth_offset m pos i ≡ ok (get_or xs i 0))

pub written_ReadsTable :
    (pos os h base : ℕ) (xs : List ℕ) (filled : Output)
    → IsWidth os
    → HasTable os (length xs) (λ i. get_or xs i 0) base filled
    → pos + header_room os ≤ base
    → filled.pos < pos + 256 ^ os
    → 2 ≤ length xs
    → is_table_head h os ≡ true
    → filled.bytes pos ≡ h
    → ReadsTable (write_lengths pos os true (length xs) filled).bytes pos (filled.pos - pos) xs
unfolding ReadsTable closed
written_ReadsTable pos os h base xs filled width table room small several is_table head =
    let n = length xs in
    let entry : ℕ → ℕ = λ i. get_or xs i 0 in
    let total = filled.pos - pos in
    let ends : filled.pos ≡ pos + total = omega (arith, table.0) in
    let short : total < 256 ^ os = omega arith in
    let (few, fits) =
      few_entries os n pos base total width (omega (arith, table.0)) (omega arith) short in
    let m = (write_lengths pos os true n filled).bytes in
    let at_head : m pos ≡ h =
      (lengths_bytes pos os n base entry filled width table room few total ends short).2 pos
        (omega arith)
      ∙ head in
    let size = read_total pos os n base entry filled width table room few total ends short in
    let count = read_count pos os n base entry filled width table room few total ends short in
    let entries : (i : ℕ) → i < n → nth_by_table m pos os total n i ≡ entry i = (λ i lt.
      read_entry pos os n base entry filled width table room few total ends short i lt fits) in
    (
      table-byte_size m pos h os total n entry at_head is_table size count entries,
      table-length m pos h os total n entry at_head is_table size count entries,
      λ i lt.
          table-get_nth_offset m pos h os total n entry at_head is_table size count entries i lt
            several,
    )

pub above_head : (os pos base : ℕ) → pos + header_room os ≤ base → pos < base
above_head os pos base h = ground arith

pub few_members :
    (os n pos base : ℕ)
    → IsWidth os
    → base + os * n + count_room os < pos + 256 ^ os
    → pos + header_room os ≤ base
    → n < 2 ^ 64
unfolding IsWidth
few_members os n pos base (inl one) lt le = let lt' = rw one at lt in omega arith
few_members os n pos base (inr (inl two)) lt le = let lt' = rw two at lt in omega arith
few_members os n pos base (inr (inr (inl four))) lt le = let lt' = rw four at lt in omega arith
few_members os n pos base (inr (inr (inr eight))) lt le = let lt' = rw eight at lt in omega arith

object_heads : (os : ℕ) → IsWidth os → is_table_head (object_type os) os ≡ true
unfolding IsWidth is_table_head object_type width_map fixed_type_lengths type_map
object_heads os (inl one) = rw one refl
object_heads os (inr (inl two)) = rw two refl
object_heads os (inr (inr (inl four))) = rw four refl
object_heads os (inr (inr (inr eight))) = rw eight refl

object_byte : (os : ℕ) → IsWidth os → object_type os % 256 ≡ object_type os
unfolding IsWidth object_type
object_byte os (inl one) = rw one refl
object_byte os (inr (inl two)) = rw two refl
object_byte os (inr (inr (inl four))) = rw four refl
object_byte os (inr (inr (inr eight))) = rw eight refl

-- For every width, members before the table and entries that fit, and two members or more: an Object that
-- is written with an index table has at `pos` the byte size up to the new end of the buffer, as many
-- members as there are entries, and each member where its entry says.
pub write_object-ReadsTable :
    (pos os : ℕ) (xs : List ℕ) (out : Output)
    → IsWidth os
    → IsByteMemory out.bytes
    → All (λ x. x < 256 ^ os) xs
    → 2 ≤ length xs
    → pos + header_room os ≤ out.pos
    → out.pos + os * length xs + count_room os < pos + 256 ^ os
    → ReadsTable (write_object pos os xs out).bytes pos ((write_object pos os xs out).pos - pos) xs
unfolding write_object patch write_lengths
write_object-ReadsTable pos os xs out width bytes fit several room small =
    let h = object_type os in
    let above = above_head os pos out.pos room in
    let filled = write_index_table os xs out in
    let (end, filled_bytes, before, entries, count) =
      write_index_table_lem os xs out width fit bytes
        (few_members os (length xs) pos out.pos width small room) in
    written_ReadsTable pos os h out.pos xs (patch pos h filled) width
      (
        end,
        update-IsByteMemory filled.bytes pos (h % 256) filled_bytes (omega arith),
        λ i lt.
            memcpy_in-agree _ filled.bytes (entry_place os out.pos i) os (λ a lo hi.
              update_ne filled.bytes pos (h % 256) a
                (λ e. omega (arith, entry_place-from os out.pos i)))
            ∙ entries i lt,
        λ e.
            memcpy_in-agree _ filled.bytes (out.pos + os * length xs) 8
              (λ a lo hi. update_ne filled.bytes pos (h % 256) a (λ e'. omega arith))
            ∙ count e,
      )
      room (omega (arith, end)) several (object_heads os width)
      (update_self filled.bytes pos (h % 256) ∙ object_byte os width)
