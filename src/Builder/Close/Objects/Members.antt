-- ===== src/Builder/Close/Objects/Members.antt =====
-- src/Builder.cpp: the members of an Object that `close` has written with an index table.
use velocypack.Prelude.{
  ℕ, ◌+◌, ◌-◌, ◌*◌, ◌≤◌, ◌<◌, ◌≡◌, refl, ◌∙◌, arith, ltb, if◌then◌else◌, List, [], ◌∷◌, length, map,
  All, Bool-cases, inl, inr,
}
use velocypack.Options.{PaddingBehavior, no_padding, flexible, use_padding}
use velocypack.Memory.{IsByteMemory, memmove-inside, update_ne}
use velocypack.Common.{memcpy_out}
use velocypack.Common.Integers.LittleEndian.{memcpy_out-after}
use velocypack.Builder.Output.{Output, patch}
use velocypack.Builder.Close.{move_down, write_index_table, write_lengths, removes_padding}
use velocypack.Builder.Close.Objects.{object_type, moves_members, place_members, write_object}
use velocypack.Builder.Close.Below.{KeepsBelow, write_index_table-KeepsBelow}
use velocypack.Builder.Close.Objects.Fits.{moved_size, place_members_lem}
use velocypack.Builder.Close.Table.{IsWidth}
use velocypack.Builder.Close.Table.Lengths.{header_room}

-- Where the first member stands in the closed Object, from its head on.
unfoldable pub first_member : PaddingBehavior → ℕ → ℕ
first_member behavior os = if moves_members behavior os then 1 + 2 * os else 9

-- The bytes of the members of an open Object, at their place in another buffer.
unfoldable pub HasMembers : ℕ → ℕ → Output → Output → Type 0
HasMembers pos first out out' =
    (j : ℕ) → j < out.pos - (pos + 9) → out'.bytes (pos + first + j) ≡ out.bytes (pos + 9 + j)

place_members-HasMembers :
    (behavior : PaddingBehavior) (pos os : ℕ) (indexes : List ℕ) (out : Output)
    → HasMembers pos (first_member behavior os) out (place_members behavior pos os indexes out).0
unfolding HasMembers first_member place_members move_down patch
place_members-HasMembers behavior pos os indexes out j h =
    elim (Bool-cases (moves_members behavior os)) [
      | inl moves ↦ rw moves (
          memmove-inside _ (pos + (1 + 2 * os)) (pos + 9) (out.pos - (pos + 9)) j h
          ∙ update_ne out.bytes pos _ (pos + 9 + j) (λ e. omega arith))
      | inr stays ↦ rw stays (update_ne out.bytes pos _ (pos + 9 + j) (λ e. omega arith))
    ]

-- What is written around the members leaves them.
write_object-members :
    (pos os : ℕ) (xs : List ℕ) (out : Output) (a : ℕ)
    → pos + header_room os ≤ a
    → a < out.pos
    → (write_object pos os xs out).bytes a ≡ out.bytes a
unfolding write_object write_lengths patch KeepsBelow
write_object-members pos os xs out a lo hi =
    let n = length xs in
    let table = write_index_table os xs out in
    let m0 = (patch pos (object_type os) table).bytes in
    let m = memcpy_out m0 (pos + 1) os (table.pos - pos) in
    let before : table.bytes a ≡ out.bytes a =
      (write_index_table-KeepsBelow (a + 1) os xs out (omega arith)).1 a (omega arith) in
    elim (Bool-cases (ltb os 8)) [
      | inl both ↦
          let lo' : pos + (1 + os + os) ≤ a = rw both at lo in
          let first : m a ≡ table.bytes a =
            memcpy_out-after m0 (pos + 1) os (table.pos - pos) a (omega (arith, lo'))
            ∙ update_ne table.bytes pos _ a (λ e. omega (arith, lo')) in
          rw both (memcpy_out-after m (pos + 1 + os) os n a (omega (arith, lo')) ∙ first ∙ before)
      | inr none ↦
          let lo' : pos + (1 + os) ≤ a = rw none at lo in
          let first : m a ≡ table.bytes a =
            memcpy_out-after m0 (pos + 1) os (table.pos - pos) a (omega (arith, lo'))
            ∙ update_ne table.bytes pos _ a (λ e. omega (arith, lo')) in
          rw none (first ∙ before)
    ]

first_member-header :
    (behavior : PaddingBehavior) (os : ℕ)
    → IsWidth os
    → (header_room os ≤ first_member behavior os) × (first_member behavior os ≤ 9)
unfolding first_member moves_members IsWidth removes_padding
first_member-header use_padding os (inl one) = rw one (omega arith, omega arith)
first_member-header use_padding os (inr (inl two)) = rw two (omega arith, omega arith)
first_member-header no_padding os (inl one) = rw one (omega arith, omega arith)
first_member-header no_padding os (inr (inl two)) = rw two (omega arith, omega arith)
first_member-header flexible os (inl one) = rw one (omega arith, omega arith)
first_member-header flexible os (inr (inl two)) = rw two (omega arith, omega arith)
first_member-header behavior os (inr (inr (inl four))) = rw four (omega arith, omega arith)
first_member-header behavior os (inr (inr (inr eight))) = rw eight (omega arith, omega arith)

moved_size-first_member :
    (behavior : PaddingBehavior) (os size : ℕ)
    → moved_size behavior os size ≡ size - (9 - first_member behavior os)
unfolding moved_size first_member
moved_size-first_member behavior os size = elim (Bool-cases (moves_members behavior os)) [
  | inl moves ↦ rw moves refl
  | inr stays ↦ rw stays (omega arith)
]

-- The whole of the bytes that `close` writes has the members behind its header.
pub write_object-HasMembers :
    (behavior : PaddingBehavior) (pos os : ℕ) (indexes entries : List ℕ) (out : Output)
    → IsByteMemory out.bytes
    → pos + 9 ≤ out.pos
    → IsWidth os
    → HasMembers pos
        (first_member behavior os)
        out
        (write_object pos os entries (place_members behavior pos os indexes out).0)
unfolding HasMembers
write_object-HasMembers behavior pos os indexes entries out bytes room width j h =
    let (header, few) = first_member-header behavior os width in
    let (_, end) = place_members_lem behavior pos os indexes out bytes room in
    let size = moved_size-first_member behavior os (out.pos - pos) in
    write_object-members pos os entries (place_members behavior pos os indexes out).0
      (pos + first_member behavior os + j) (omega (arith, header)) (omega (arith, few, end, size))
    ∙ place_members-HasMembers behavior pos os indexes out j h

pub shifted-inside :
    (gap size : ℕ) (indexes : List ℕ)
    → gap < size
    → All (λ i. i < size) indexes
    → All (λ i. i < size - gap) (map (λ i. i - gap) indexes)
shifted-inside gap size [] lt inside = tt
shifted-inside gap size (i ∷ rest) lt (first, inside) =
    (omega arith, shifted-inside gap size rest lt inside)

-- The entries are moved with the members, and each stays inside of the Object.
pub placed-inside :
    (behavior : PaddingBehavior) (pos os size : ℕ) (indexes : List ℕ) (out : Output)
    → 9 ≤ size
    → All (λ i. i < size) indexes
    → All (λ i. i < moved_size behavior os size) (place_members behavior pos os indexes out).1
unfolding place_members moved_size
placed-inside behavior pos os size indexes out big inside =
    elim (Bool-cases (moves_members behavior os)) [
      | inr stays ↦ rw stays inside
      | inl moves ↦ rw moves (shifted-inside (9 - (1 + 2 * os)) size indexes (omega arith) inside)
    ]
