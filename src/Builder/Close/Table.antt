-- ===== src/Builder/Close/Table.antt =====
-- The index table and the lengths that a closed Array or Object stores are those that the Slice functions
-- read.
pub mod Lengths
pub mod Reads
pub mod Objects
use velocypack.Prelude.{
  ℕ, zero, suc, ◌+◌, ◌-◌, ◌*◌, ◌/◌, ◌%◌, ◌^◌, ◌≤◌, ◌<◌, ◌≡◌, refl, ap, ◌∙◌, sym, arith, Bool, true,
  false, ltb, ◌==◌, ◌&&◌, if◌then◌else◌, List, [], ◌∷◌, length, get_or, All, Bool-cases, inl, inr,
  ◌⊎◌, ==_iff,
}
use velocypack.Memory.{Memory, IsByteMemory, update, update_self, update_ne}
use velocypack.Common.{memcpy_in, memcpy_out, read_integer_non_empty}
use velocypack.Common.Integers.LittleEndian.{
  memcpy_in-memcpy_out, memcpy_in-agree, memcpy_out-before, memcpy_out-after,
  read_integer_non_empty-memcpy_in,
}
use velocypack.Slice.{stored_length, nth_by_table, sub64, add64, mul64}
use velocypack.Builder.Output.{Output, patch, append_length}
use velocypack.Builder.Output.Bytes.{append_length-memcpy_out}
use velocypack.Builder.Integers.RoundTrip.{update-IsByteMemory, memcpy_out-IsByteMemory}
use velocypack.Builder.Close.{write_entries, write_index_table, write_lengths}

pub write_entries-before :
    (os : ℕ) (xs : List ℕ) (m : Memory) (base a : ℕ) → a < base → write_entries os xs m base a ≡ m a
unfolding write_entries
write_entries-before os [] m base a h = refl
write_entries-before os (x ∷ xs) m base a h =
    write_entries-before os xs (memcpy_out m base os x) (base + os) a (omega arith)
    ∙ memcpy_out-before m base os x a h

write_entries-IsByteMemory :
    (os : ℕ) (xs : List ℕ) (m : Memory) (base : ℕ)
    → IsByteMemory m
    → IsByteMemory (write_entries os xs m base)
unfolding write_entries
write_entries-IsByteMemory os [] m base bytes = bytes
write_entries-IsByteMemory os (x ∷ xs) m base bytes =
    write_entries-IsByteMemory os xs (memcpy_out m base os x) (base + os)
      (memcpy_out-IsByteMemory m base os x bytes)

-- Where an entry stands.
pub entry_place : ℕ → ℕ → ℕ → ℕ
entry_place os base zero = base
entry_place os base (suc i) = entry_place os (base + os) i

pub entry_place-from : (os base i : ℕ) → base ≤ entry_place os base i
unfolding entry_place
entry_place-from os base zero = omega arith
entry_place-from os base (suc i) = omega (arith, entry_place-from os (base + os) i)

entry-write_entries :
    (os : ℕ) (xs : List ℕ) (m : Memory) (base i : ℕ)
    → All (λ x. x < 256 ^ os) xs
    → i < length xs
    → memcpy_in (write_entries os xs m base) (entry_place os base i) os ≡ get_or xs i 0
unfolding write_entries entry_place
entry-write_entries os [] m base i fit h = absurd (omega arith)
entry-write_entries os (x ∷ xs) m base zero fit h =
    memcpy_in-agree _ (memcpy_out m base os x) base os
      (λ a lo hi. write_entries-before os xs (memcpy_out m base os x) (base + os) a hi)
    ∙ memcpy_in-memcpy_out m base os x fit.0
entry-write_entries os (x ∷ xs) m base (suc i) fit h =
    entry-write_entries os xs (memcpy_out m base os x) (base + os) i fit.1 (omega arith)

-- The widths that lengths and entries have, and what is linear for each of them.
unfoldable pub IsWidth : ℕ → Type 0
IsWidth os = (os ≡ 1) ⊎ ((os ≡ 2) ⊎ ((os ≡ 4) ⊎ (os ≡ 8)))

pub IsWidth-bounds : (os : ℕ) → IsWidth os → (1 ≤ os) × (os ≤ 8)
unfolding IsWidth
IsWidth-bounds os (inl one) = (omega arith, omega arith)
IsWidth-bounds os (inr (inl two)) = (omega arith, omega arith)
IsWidth-bounds os (inr (inr (inl four))) = (omega arith, omega arith)
IsWidth-bounds os (inr (inr (inr eight))) = (omega arith, omega arith)

place_1 : (base i : ℕ) → entry_place 1 base i ≡ base + i
unfolding entry_place
place_1 base zero = omega arith
place_1 base (suc i) = omega (arith, place_1 (base + 1) i)

place_2 : (base i : ℕ) → entry_place 2 base i ≡ base + 2 * i
unfolding entry_place
place_2 base zero = omega arith
place_2 base (suc i) = omega (arith, place_2 (base + 2) i)

place_4 : (base i : ℕ) → entry_place 4 base i ≡ base + 4 * i
unfolding entry_place
place_4 base zero = omega arith
place_4 base (suc i) = omega (arith, place_4 (base + 4) i)

place_8 : (base i : ℕ) → entry_place 8 base i ≡ base + 8 * i
unfolding entry_place
place_8 base zero = omega arith
place_8 base (suc i) = omega (arith, place_8 (base + 8) i)

-- `ie_base` of `getNthOffset`, for a total length that holds the table.
pub slice_place :
    (os start table_base end n i : ℕ)
    → IsWidth os
    → i < n
    → end < 2 ^ 64
    → table_base + os * n + (if os == 8 then 8 else 0) ≡ start + end
    → start ≤ table_base
    → start + sub64 (add64 (sub64 end (mul64 n os)) (mul64 i os)) (if os == 8 then 8 else 0)
      ≡ entry_place os table_base i
unfolding IsWidth
slice_place os start table_base end n i (inl one) lt small e le =
    rw one (omega (arith, place_1 table_base i, rw one at e))
slice_place os start table_base end n i (inr (inl two)) lt small e le =
    rw two (omega (arith, place_2 table_base i, rw two at e))
slice_place os start table_base end n i (inr (inr (inl four))) lt small e le =
    rw four (omega (arith, place_4 table_base i, rw four at e))
slice_place os start table_base end n i (inr (inr (inr eight))) lt small e le =
    rw eight (omega (arith, place_8 table_base i, rw eight at e))

-- The number behind a table of 8-byte entries.
abbrev pub count_room : ℕ → ℕ
count_room os = if os == 8 then 8 else 0

entry_end : (os base i n : ℕ) → os ≡ 8 → i < n → entry_place os base i + os ≤ base + os * n
entry_end os base i n eight lt = rw eight (omega (arith, place_8 base i))

module _ (os : ℕ) (xs : List ℕ) (out : Output) (width : IsWidth os)
    (fit : All (λ x. x < 256 ^ os) xs) (bytes : IsByteMemory out.bytes) where
  table_bytes : Memory
  table_bytes = write_entries os xs out.bytes out.pos

  -- What `write_index_table` leaves.
  pub write_index_table_lem :
      length xs < 2 ^ 64
      → let filled = write_index_table os xs out in
        (filled.pos ≡ out.pos + os * length xs + count_room os)
        × IsByteMemory filled.bytes
        × ((a : ℕ) → a < out.pos → filled.bytes a ≡ out.bytes a)
        × ((i : ℕ)
            → i < length xs
            → memcpy_in filled.bytes (entry_place os out.pos i) os ≡ get_or xs i 0)
        × (os ≡ 8 → memcpy_in filled.bytes (out.pos + os * length xs) 8 ≡ length xs)
  unfolding write_index_table table_bytes
  write_index_table_lem few = elim (Bool-cases (os == 8)) [
    | inl eight ↦
        let q = out.pos + os * length xs in
        let e8 : os ≡ 8 = (==_iff os 8).0 eight in
        let table : Output = record { bytes = table_bytes; pos = q } in
        let (written, end) = append_length-memcpy_out 8 (length xs) table in
        rw (eight, written, end)
          (
            refl,
            memcpy_out-IsByteMemory table_bytes q 8 (length xs)
                (write_entries-IsByteMemory os xs out.bytes out.pos bytes),
            λ a h.
                memcpy_out-before table_bytes q 8 (length xs) a (omega arith)
                ∙ write_entries-before os xs out.bytes out.pos a h,
            λ i h.
                memcpy_in-agree _ table_bytes (entry_place os out.pos i) os (λ a lo hi.
                  memcpy_out-before table_bytes q 8 (length xs) a
                    (omega (arith, hi, entry_end os out.pos i (length xs) e8 h)))
                ∙ entry-write_entries os xs out.bytes out.pos i fit h,
            λ e. memcpy_in-memcpy_out table_bytes q 8 (length xs) (omega arith),
          )
    | inr narrow ↦ rw narrow (
      omega arith,
      write_entries-IsByteMemory os xs out.bytes out.pos bytes,
      λ a h. write_entries-before os xs out.bytes out.pos a h,
      λ i h. entry-write_entries os xs out.bytes out.pos i fit h,
      λ e. absurd (ground arith),
    )
  ]
