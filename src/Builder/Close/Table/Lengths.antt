-- ===== src/Builder/Close/Table/Lengths.antt =====
-- The byte length, the number of members and the entries that are read once `write_lengths` is done.
use velocypack.Prelude.{
  ℕ, ◌+◌, ◌-◌, ◌*◌, ◌^◌, ◌≤◌, ◌<◌, ◌≡◌, refl, ap, ◌∙◌, arith, true, ltb, if◌then◌else◌, Bool-cases,
  inl, inr,
}
use velocypack.Memory.{IsByteMemory}
use velocypack.Common.{memcpy_in, memcpy_out, read_integer_non_empty}
use velocypack.Common.Integers.LittleEndian.{
  memcpy_in-memcpy_out, memcpy_in-agree, memcpy_out-before, memcpy_out-after,
  read_integer_non_empty-memcpy_in,
}
use velocypack.Slice.{stored_length, nth_by_table}
use velocypack.Builder.Output.{Output}
use velocypack.Builder.Integers.RoundTrip.{memcpy_out-IsByteMemory}
use velocypack.Builder.Close.{write_lengths}
use velocypack.Builder.Close.Table.{
  IsWidth, IsWidth-bounds, entry_place, entry_place-from, slice_place, count_room,
}

-- A table of `n` entries that stands from `base` to the end of the output.
abbrev pub HasTable : ℕ → ℕ → (ℕ → ℕ) → ℕ → Output → Type 0
HasTable os n entry base filled =
    (filled.pos ≡ base + os * n + count_room os)
    × IsByteMemory filled.bytes
    × ((i : ℕ) → i < n → memcpy_in filled.bytes (entry_place os base i) os ≡ entry i)
    × (os ≡ 8 → memcpy_in filled.bytes (base + os * n) 8 ≡ n)

-- The bytes that the head and the lengths behind it take.
abbrev pub header_room : ℕ → ℕ
header_room os = if ltb os 8 then 1 + os + os else 1 + os

count_room-eight : (os : ℕ) → os ≡ 8 → count_room os ≡ 8
count_room-eight os e = rw e refl

module _ (pos os n base : ℕ) (entry : ℕ → ℕ) (filled : Output) (width : IsWidth os)
    (table : HasTable os n entry base filled) (room : pos + header_room os ≤ base)
    (few : n < 256 ^ os) (total : ℕ) (ends : filled.pos ≡ pos + total)
    (small : total < 256 ^ os) where
  unfoldable pub closed : Output
  closed = write_lengths pos os true n filled

  pub lengths_bytes :
      IsByteMemory closed.bytes
      × ((a : ℕ) → base ≤ a → closed.bytes a ≡ filled.bytes a)
      × ((a : ℕ) → a < pos + 1 → closed.bytes a ≡ filled.bytes a)
      × (memcpy_in closed.bytes (pos + 1) os ≡ total)
      × (ltb os 8 ≡ true → memcpy_in closed.bytes (pos + 1 + os) os ≡ n)
  unfolding closed write_lengths
  lengths_bytes =
      let size : filled.pos - pos ≡ total = omega (arith, ends) in
      let m = memcpy_out filled.bytes (pos + 1) os (filled.pos - pos) in
      let m-bytes = memcpy_out-IsByteMemory filled.bytes (pos + 1) os (filled.pos - pos) table.1 in
      let read : memcpy_in m (pos + 1) os ≡ total =
        memcpy_in-memcpy_out filled.bytes (pos + 1) os (filled.pos - pos) (rw size small) ∙ size in
      elim (Bool-cases (ltb os 8)) [
        | inl narrow ↦
            let room' : pos + (1 + os + os) ≤ base = rw narrow at room in
            rw narrow (
              memcpy_out-IsByteMemory m (pos + 1 + os) os n m-bytes,
              λ a h.
                  memcpy_out-after m (pos + 1 + os) os n a (omega arith)
                  ∙ memcpy_out-after filled.bytes (pos + 1) os (filled.pos - pos) a (omega arith),
              λ a h.
                  memcpy_out-before m (pos + 1 + os) os n a (omega arith)
                  ∙ memcpy_out-before filled.bytes (pos + 1) os (filled.pos - pos) a h,
              memcpy_in-agree _ m (pos + 1) os
                    (λ a lo hi. memcpy_out-before m (pos + 1 + os) os n a hi)
                  ∙ read,
              λ e. memcpy_in-memcpy_out m (pos + 1 + os) os n few,
            )
        | inr wide ↦
            let room' : pos + (1 + os) ≤ base = rw wide at room in
            rw wide (
              m-bytes,
              λ a h. memcpy_out-after filled.bytes (pos + 1) os (filled.pos - pos) a (omega arith),
              λ a h. memcpy_out-before filled.bytes (pos + 1) os (filled.pos - pos) a h,
              read,
              λ e. absurd (ground arith),
            )
      ]

  pub read_total : read_integer_non_empty closed.bytes (pos + 1) os ≡ total
  read_total =
      let (lo, hi) = IsWidth-bounds os width in
      read_integer_non_empty-memcpy_in closed.bytes (pos + 1) os lengths_bytes.0 lo hi
      ∙ lengths_bytes.3

  pub read_entry :
      (i : ℕ) → i < n → total < 2 ^ 64 → nth_by_table closed.bytes pos os total n i ≡ entry i
  unfolding nth_by_table
  read_entry i lt short =
      let (lo, hi) = IsWidth-bounds os width in
      let place = entry_place os base i in
      ap (λ (p : ℕ). read_integer_non_empty closed.bytes p os)
        (slice_place os pos base total n i width lt short (omega (arith, table.0, ends))
          (omega arith))
      ∙ read_integer_non_empty-memcpy_in closed.bytes place os lengths_bytes.0 lo hi
      ∙ memcpy_in-agree closed.bytes filled.bytes place os
          (λ a from to. lengths_bytes.1 a (omega (arith, entry_place-from os base i)))
      ∙ table.2 i lt

  pub read_count : stored_length closed.bytes pos os total ≡ n
  unfolding stored_length
  read_count =
      let (lo, hi) = IsWidth-bounds os width in
      elim (Bool-cases (ltb os 8)) [
        | inl narrow ↦
            let place : pos + os + 1 ≡ pos + 1 + os = omega arith in
            rw (narrow, place)
              (read_integer_non_empty-memcpy_in closed.bytes (pos + 1 + os) os lengths_bytes.0 lo hi
                ∙ lengths_bytes.4 narrow)
        | inr wide ↦
            let eight : os ≡ 8 = ground arith in
            let place : pos + total - os ≡ base + os * n =
              omega (arith, table.0, ends, count_room-eight os eight) in
            rw (wide, place)
              (read_integer_non_empty-memcpy_in closed.bytes (base + os * n) os lengths_bytes.0 lo
                  hi
                ∙ memcpy_in-agree closed.bytes filled.bytes (base + os * n) os
                    (λ a from to. lengths_bytes.1 a (omega arith))
                ∙ ap (λ (w : ℕ). memcpy_in filled.bytes (base + os * n) w) eight
                ∙ table.3 eight)
      ]
