-- ===== src/Builder/Close/Below.antt =====
-- What `close` writes stands at the begin of the innermost level or behind it: the levels outside of it
-- keep their bytes.

pub mod Closes
pub mod Returns
use velocypack.Prelude.{
  ℕ, zero, suc, ◌+◌, ◌-◌, ◌*◌, ◌%◌, ◌^◌, ◌≤◌, ◌<◌, ◌≡◌, refl, ◌∙◌, arith, Bool, true, false, ltb,
  ◌==◌, ◌&&◌, if◌then◌else◌, List, [], ◌∷◌, length, map, Bool-cases, inl, inr,
}
use velocypack.Memory.{Memory, memmove, memmove-outside, update_ne}
use velocypack.Options.{Options, PaddingBehavior}
use velocypack.Common.{memcpy_out, get_variable_value_length, store_variable_value_length}
use velocypack.Common.Integers.LittleEndian.{memcpy_out-before}
use velocypack.Common.VarLength.Width.{get_variable_value_length_lem}
use velocypack.Common.VarLength.RoundTrip.Groups.{store_groups-Behind, store_groups-Beyond}
use velocypack.Builder.Output.{Output, patch}
use velocypack.Builder.Output.Bytes.{append_length-memcpy_out}
use velocypack.Builder.Close.{
  move_down, write_index_table, write_lengths, write_entries, determine_array_type,
}
use velocypack.Builder.Close.Compact.{compact_output, compact_sizes}
use velocypack.Builder.Close.Compact.RoundTrip.{compact_sizes_lem}
use velocypack.Builder.Close.Arrays.{write_array}
use velocypack.Builder.Close.Objects.{place_members, write_object, moves_members, object_type}
use velocypack.Builder.Close.Table.{write_entries-before}

-- The bytes below a place are the same, and the buffer does not end below it.
unfoldable pub KeepsBelow : ℕ → Output → Output → Type 0
KeepsBelow pos out out' = (pos ≤ out'.pos) × ((a : ℕ) → a < pos → out'.bytes a ≡ out.bytes a)

pub KeepsBelow-trans :
    (pos : ℕ) (out out' out'' : Output)
    → KeepsBelow pos out out'
    → KeepsBelow pos out' out''
    → KeepsBelow pos out out''
unfolding KeepsBelow
KeepsBelow-trans pos out out' out'' (_, first) (end, second) = (end, λ a h. second a h ∙ first a h)

KeepsBelow-refl : (pos : ℕ) (out : Output) → pos ≤ out.pos → KeepsBelow pos out out
unfolding KeepsBelow
KeepsBelow-refl pos out room = (room, λ a h. refl)

pub KeepsBelow-end : (pos : ℕ) (out out' : Output) → KeepsBelow pos out out' → pos ≤ out'.pos
unfolding KeepsBelow
KeepsBelow-end pos out out' (end, _) = end

pub patch-KeepsBelow :
    (pos x : ℕ) (out : Output) → pos ≤ out.pos → KeepsBelow pos out (patch pos x out)
unfolding KeepsBelow patch
patch-KeepsBelow pos x out room =
    (room, λ a h. update_ne out.bytes pos (x % 256) a (λ e. omega arith))

move_down-KeepsBelow :
    (pos target : ℕ) (out : Output)
    → pos + 9 ≤ out.pos
    → KeepsBelow pos out (move_down pos target out)
unfolding KeepsBelow move_down
move_down-KeepsBelow pos target out room = (
  omega arith,
  λ a h. memmove-outside out.bytes (pos + target) (pos + 9) (out.pos - (pos + 9)) a (omega arith),
)

pub write_index_table-KeepsBelow :
    (pos os : ℕ) (xs : List ℕ) (out : Output)
    → pos ≤ out.pos
    → KeepsBelow pos out (write_index_table os xs out)
unfolding KeepsBelow write_index_table
write_index_table-KeepsBelow pos os xs out room =
    let q = out.pos + os * length xs in
    let table : Output = record { bytes = write_entries os xs out.bytes out.pos; pos = q } in
    let (written, end) = append_length-memcpy_out 8 (length xs) table in
    elim (Bool-cases (os == 8)) [
      | inl eight ↦
          rw (eight, written, end)
            (
              omega arith,
              λ a h.
                  memcpy_out-before table.bytes q 8 (length xs) a (omega arith)
                  ∙ write_entries-before os xs out.bytes out.pos a (omega arith),
            )
      | inr narrow ↦
          rw narrow
            (omega arith, λ a h. write_entries-before os xs out.bytes out.pos a (omega arith))
    ]

write_lengths-KeepsBelow :
    (pos os : ℕ) (table : Bool) (n : ℕ) (out : Output)
    → pos ≤ out.pos
    → KeepsBelow pos out (write_lengths pos os table n out)
unfolding KeepsBelow write_lengths
write_lengths-KeepsBelow pos os table n out room =
    let m = memcpy_out out.bytes (pos + 1) os (out.pos - pos) in
    let first : (a : ℕ) → a < pos → m a ≡ out.bytes a =
      λ a h. memcpy_out-before out.bytes (pos + 1) os (out.pos - pos) a (omega arith) in
    elim (Bool-cases (ltb os 8 && table)) [
      | inl both ↦
          rw both (room, λ a h. memcpy_out-before m (pos + 1 + os) os n a (omega arith) ∙ first a h)
      | inr none ↦ rw none (room, first)
    ]

-- The steps behind the members, with the head byte first or last.
pub write_object-KeepsBelow :
    (pos os : ℕ) (entries : List ℕ) (out : Output)
    → pos ≤ out.pos
    → KeepsBelow pos out (write_object pos os entries out)
unfolding write_object KeepsBelow
write_object-KeepsBelow pos os entries out room =
    let table = write_index_table os entries out in
    let filled = patch pos (object_type os) table in
    let first = write_index_table-KeepsBelow pos os entries out room in
    let second = patch-KeepsBelow pos (object_type os) table first.0 in
    KeepsBelow-trans pos out table _ first (
      KeepsBelow-trans pos table filled _ second
        (write_lengths-KeepsBelow pos os true (length entries) filled second.0))

patched_room : (pos x : ℕ) (out : Output) → pos + 9 ≤ out.pos → pos + 9 ≤ (patch pos x out).pos
unfolding patch
patched_room pos x out h = h

pub place_members-KeepsBelow :
    (behavior : PaddingBehavior) (pos os : ℕ) (indexes : List ℕ) (out : Output)
    → pos + 9 ≤ out.pos
    → KeepsBelow pos out (place_members behavior pos os indexes out).0
unfolding place_members
place_members-KeepsBelow behavior pos os indexes out room =
    let headed = patch pos 0x0b out in
    let first = patch-KeepsBelow pos 0x0b out (omega arith) in
    elim (Bool-cases (moves_members behavior os)) [
      | inl moves ↦ rw moves (
          KeepsBelow-trans pos out headed _ first
            (move_down-KeepsBelow pos (1 + 2 * os) headed (patched_room pos 0x0b out room)))
      | inr stays ↦ rw stays first
    ]

pub write_array-KeepsBelow :
    (pos : ℕ) (table : Bool) (os : ℕ) (allow : Bool) (indexes : List ℕ) (out : Output)
    → pos + 9 ≤ out.pos
    → KeepsBelow pos out (write_array pos table os allow indexes out)
unfolding write_array
write_array-KeepsBelow pos table os allow indexes out room =
    let target = if table then 1 + 2 * os else 1 + 2 * os - os in
    let headed = patch pos (determine_array_type table os) out in
    let moved = if allow then move_down pos target headed else headed in
    let entries = if allow then map (λ i. i - (9 - target)) indexes else indexes in
    let filled = if table then write_index_table os entries moved else moved in
    let first = patch-KeepsBelow pos (determine_array_type table os) out (omega arith) in
    let there = patched_room pos (determine_array_type table os) out room in
    let second : KeepsBelow pos headed moved =
      elim allow
        as (λ a. KeepsBelow pos headed (if a then move_down pos target headed else headed)) [
          | true ↦ move_down-KeepsBelow pos target headed there
          | false ↦ KeepsBelow-refl pos headed (omega (arith, there))
        ] in
    let third : KeepsBelow pos moved filled =
      elim table
        as (λ t. KeepsBelow pos moved (if t then write_index_table os entries moved else moved)) [
          | true ↦
              write_index_table-KeepsBelow pos os entries moved
                (KeepsBelow-end pos headed moved second)
          | false ↦ KeepsBelow-refl pos moved (KeepsBelow-end pos headed moved second)
        ] in
    KeepsBelow-trans pos out headed _ first (
      KeepsBelow-trans pos headed moved _ second (
        KeepsBelow-trans pos moved filled _ third (
          write_lengths-KeepsBelow pos os table (length indexes) filled
            (KeepsBelow-end pos moved filled third))))

pub compact_output-KeepsBelow :
    (pos : ℕ) (is_array : Bool) (n : ℕ) (out : Output)
    → pos + 9 ≤ out.pos
    → out.pos + 30 < 2 ^ 64
    → n < 2 ^ 64
    → (compact_sizes (out.pos - (pos + 8) + get_variable_value_length n)).0 < 9
    → KeepsBelow pos out (compact_output pos is_array n out)
unfolding KeepsBelow compact_output patch
compact_output-KeepsBelow pos is_array n out room small few short =
    let (kn, en, len, fn, neededn) = get_variable_value_length_lem n few in
    let size = out.pos - (pos + 8) + get_variable_value_length n in
    let (k, e, le, total, fits) = compact_sizes_lem size (omega (arith, en, len)) in
    let opened = patch pos (if is_array then 0x13 else 0x14) out in
    let b_len = (compact_sizes size).0 in
    let moved = memmove opened.bytes (pos + (1 + b_len)) (pos + 9) (opened.pos - (pos + 9)) in
    let bytes = (compact_sizes size).1 in
    let sized = store_variable_value_length false moved (pos + 1) bytes in
    (
      omega arith,
      λ a h.
          store_groups-Beyond kn true sized (pos + bytes - 1) n a len (omega (arith, total, en, e))
            fn (omega (arith, total, en, e))
          ∙ store_groups-Behind k false moved (pos + 1) bytes a (omega (arith, e, short)) tt
              (rw total fits) (omega arith)
          ∙ memmove-outside opened.bytes (pos + (1 + b_len)) (pos + 9) (opened.pos - (pos + 9)) a
              (omega arith)
          ∙ update_ne out.bytes pos _ a (λ e'. omega arith),
    )
