-- ===== src/Builder/Close/Objects/Fits.antt =====
-- The width that `close` picks for the lengths and the entries of an Object, and the Object that it writes
-- with that width.
use velocypack.Prelude.{
  ℕ, ◌+◌, ◌-◌, ◌*◌, ◌^◌, ◌≤◌, ◌<◌, ◌≡◌, refl, arith, true, ltb, leb, ◌&&◌, if◌then◌else◌, List,
  length, All, Bool-cases, inl, inr, leb→le,
}
use velocypack.Options.{PaddingBehavior, no_padding, flexible, use_padding}
use velocypack.Memory.{Memory, IsByteMemory, memmove}
use velocypack.Builder.Output.{Output, patch}
use velocypack.Builder.Integers.RoundTrip.{update-IsByteMemory}
use velocypack.Builder.Close.{removes_padding, move_down}
use velocypack.Builder.Close.Objects.{
  effective_padding, object_offset_size, moves_members, place_members, write_object,
}
use velocypack.Builder.Close.Table.{IsWidth, count_room}
use velocypack.Builder.Close.Table.Lengths.{header_room}
use velocypack.Builder.Close.Table.Objects.{ReadsTable, write_object-ReadsTable}

-- The size once the members have moved.
unfoldable pub moved_size : PaddingBehavior → ℕ → ℕ → ℕ
moved_size behavior os size = if moves_members behavior os then size - (9 - (1 + 2 * os)) else size

-- That a width holds the size of the whole Object, and the header stands before the members.
abbrev pub FitsWidth : PaddingBehavior → ℕ → ℕ → ℕ → Type 0
FitsWidth behavior os size n =
    IsWidth os
    × (moved_size behavior os size + os * n + count_room os < 256 ^ os)
    × (header_room os ≤ moved_size behavior os size)

one_byte :
    (behavior : PaddingBehavior) (size n : ℕ)
    → 9 ≤ size
    → leb (size + n - 6 + effective_padding behavior 1) 0xff ≡ true
    → (moved_size behavior 1 size + 1 * n + 0 < 256) × (3 ≤ moved_size behavior 1 size)
unfolding effective_padding moved_size moves_members removes_padding
one_byte use_padding size n lo h = (ground arith, ground arith)
one_byte no_padding size n lo h = (ground arith, ground arith)
one_byte flexible size n lo h = (ground arith, ground arith)

two_bytes :
    (behavior : PaddingBehavior) (size n : ℕ)
    → 9 ≤ size
    → leb (size + 2 * n + effective_padding behavior 2) 0xffff ≡ true
    → (moved_size behavior 2 size + 2 * n + 0 < 65536) × (5 ≤ moved_size behavior 2 size)
unfolding effective_padding moved_size moves_members removes_padding
two_bytes use_padding size n lo h = (ground arith, ground arith)
two_bytes no_padding size n lo h = (ground arith, ground arith)
two_bytes flexible size n lo h = (ground arith, ground arith)

-- From a size of at least the nine header bytes on, and while everything stays below 2 ^ 64: the width
-- that `close` chooses for an Object is 1, 2, 4 or 8, and the total size of the Object at that width is
-- below 256 to its power; the members lie behind the header of that width.
pub object_offset_size-FitsWidth :
    (behavior : PaddingBehavior) (size n : ℕ)
    → 9 ≤ size
    → size + 8 * n + 8 < 2 ^ 64
    → FitsWidth behavior (object_offset_size behavior size n) size n
unfolding object_offset_size effective_padding moved_size moves_members removes_padding IsWidth
object_offset_size-FitsWidth behavior size n lo hi =
    elim (Bool-cases (leb (size + n - 6 + effective_padding behavior 1) 0xff)) [
      | inl one ↦
          rw one
            (inl refl, (one_byte behavior size n lo one).0, (one_byte behavior size n lo one).1)
      | inr more ↦ elim (Bool-cases (leb (size + 2 * n + effective_padding behavior 2) 0xffff)) [
        | inl two ↦
            rw (more, two)
              (
                inr (inl refl),
                (two_bytes behavior size n lo two).0,
                (two_bytes behavior size n lo two).1,
              )
        | inr most ↦ elim (Bool-cases (leb (size + 4 * n) 0xffffffff)) [
          | inl four ↦
              rw (more, most, four)
                (inr (inr (inl refl)), omega (arith, leb→le _ _ four), omega arith)
          | inr all ↦ rw (more, most, all) (inr (inr (inr refl)), omega arith, omega arith)
        ]
      ]
    ]

pub memmove-IsByteMemory :
    (m : Memory) (dst src n : ℕ) → IsByteMemory m → IsByteMemory (memmove m dst src n)
unfolding memmove
memmove-IsByteMemory m dst src n bytes a = elim (Bool-cases (leb dst a && ltb a (dst + n))) [
  | inl inside ↦ rw inside (bytes (src + (a - dst)))
  | inr outside ↦ rw outside (bytes a)
]

pub place_members_lem :
    (behavior : PaddingBehavior) (pos os : ℕ) (indexes : List ℕ) (out : Output)
    → IsByteMemory out.bytes
    → pos + 9 ≤ out.pos
    → IsByteMemory (place_members behavior pos os indexes out).0.bytes
      × ((place_members behavior pos os indexes out).0.pos
          ≡ pos + moved_size behavior os (out.pos - pos))
unfolding place_members moved_size move_down patch
place_members_lem behavior pos os indexes out bytes room =
    elim (Bool-cases (moves_members behavior os)) [
      | inl moves ↦ rw moves (
        memmove-IsByteMemory _ (pos + (1 + 2 * os)) (pos + 9) (out.pos - (pos + 9))
            (update-IsByteMemory out.bytes pos 0x0b bytes (omega arith)),
        omega arith,
      )
      | inr stays ↦
          rw stays (update-IsByteMemory out.bytes pos 0x0b bytes (omega arith), omega arith)
    ]

-- For every padding behaviour, in a buffer of bytes whose end stays below 2 ^ 64, and for an Object of two
-- members or more that is open at `pos`: with the width that `close` picks, the Object that it writes has
-- the byte size up to the new end of the buffer, as many members as there are entries, and each member
-- where its entry says. The entries are any that the width holds, one for each member.
pub closed_object-ReadsTable :
    (behavior : PaddingBehavior) (pos : ℕ) (indexes entries : List ℕ) (out : Output)
    → IsByteMemory out.bytes
    → pos + 9 ≤ out.pos
    → out.pos + 8 * length indexes + 8 < 2 ^ 64
    → length entries ≡ length indexes
    → 2 ≤ length entries
    → let os = object_offset_size behavior (out.pos - pos) (length indexes) in
      let placed = (place_members behavior pos os indexes out).0 in
      All (λ x. x < 256 ^ os) entries
      → ReadsTable
          (write_object pos os entries placed).bytes
          pos
          ((write_object pos os entries placed).pos - pos)
          entries
closed_object-ReadsTable behavior pos indexes entries out bytes room fits same several inside =
    let os = object_offset_size behavior (out.pos - pos) (length indexes) in
    let placed = (place_members behavior pos os indexes out).0 in
    let (width, total, header) =
      object_offset_size-FitsWidth behavior (out.pos - pos) (length indexes) (omega arith)
        (omega arith) in
    let (placed_bytes, end) = place_members_lem behavior pos os indexes out bytes room in
    write_object-ReadsTable pos os entries placed width placed_bytes inside several
      (omega (arith, end, header)) (rw same (omega (arith, end, total)))
