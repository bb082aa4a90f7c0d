-- ===== src/Builder/Close.antt =====
-- src/Builder.cpp: the steps with which `close` seals an Array or Object. All sums are of lengths in
-- one buffer, below 2 ^ 64.
pub mod Compact
pub mod Arrays
pub mod Table
pub mod Names
pub mod Objects
pub mod Below
use velocypack.Prelude.{
  ℕ, zero, suc, ◌+◌, ◌-◌, ◌*◌, ◌==◌, ltb, not, ◌&&◌, ◌||◌, Bool, true, false, if◌then◌else◌, List,
  [], ◌∷◌, length, take, map,
}
use velocypack.Options.{Options, PaddingBehavior, no_padding, flexible, use_padding}
use velocypack.Memory.{Memory, memmove}
use velocypack.Common.{memcpy_out}
use velocypack.Builder.Output.{Output, patch, append_length}
use velocypack.Builder.State.{Builder, close_level}

-- The two cases in which the code moves the members down over the padding.
unfoldable pub removes_padding : PaddingBehavior → ℕ → Bool
removes_padding behavior offset_size = elim behavior [
  | no_padding ↦ true
  | flexible ↦ offset_size == 1
  | use_padding ↦ false
]

-- The loop of `isAllowedToMemmove`: no member is a None, which would look like padding.
unfoldable pub no_none : Memory → ℕ → List ℕ → Bool
no_none m start [] = true
no_none m start (index ∷ rest) = if m (start + index) == 0 then false else no_none m start rest

-- `isAllowedToMemmove`, of the first 8 - 2 * offsetSize members.
unfoldable pub is_allowed_to_memmove : Options → Memory → ℕ → List ℕ → ℕ → Bool
is_allowed_to_memmove options m start indexes offset_size =
    removes_padding options.padding_behavior offset_size
    && no_none m start (take (8 - 2 * offset_size) indexes)

-- `determineArrayType`
unfoldable pub determine_array_type : Bool → ℕ → ℕ
determine_array_type need_index_table offset_size =
    let type = if need_index_table then 0x06 else 0x02 in
    if offset_size == 2
    then type + 1
    else if offset_size == 4
    then type + 2
    else if offset_size == 8
    then type + 3
    else type

-- The members behind the nine bytes at `pos` move to `pos + target`.
unfoldable pub move_down : ℕ → ℕ → Output → Output
move_down pos target out = record {
  bytes = memmove out.bytes (pos + target) (pos + 9) (out.pos - (pos + 9));
  pos = out.pos - (9 - target);
}

-- The loops that write the index table.
unfoldable pub write_entries : ℕ → List ℕ → Memory → ℕ → Memory
write_entries offset_size [] m base = m
write_entries offset_size (x ∷ xs) m base =
    write_entries offset_size xs (memcpy_out m base offset_size x) (base + offset_size)

-- The index table, and the number of members behind it if entries are of 8 bytes.
unfoldable pub write_index_table : ℕ → List ℕ → Output → Output
write_index_table offset_size entries out =
    let n = length entries in
    let table : Output = record {
      bytes = write_entries offset_size entries out.bytes out.pos;
      pos = out.pos + offset_size * n;
    } in
    if offset_size == 8 then append_length 8 n table else table

-- The byte length behind the head, and the number of members behind that if it belongs there.
unfoldable pub write_lengths : ℕ → ℕ → Bool → ℕ → Output → Output
write_lengths pos offset_size need_nr_subs n out =
    let m = memcpy_out out.bytes (pos + 1) offset_size (out.pos - pos) in
    record {
      bytes =
          if ltb offset_size 8 && need_nr_subs
          then memcpy_out m (pos + 1 + offset_size) offset_size n
          else m;
      pos = out.pos;
    }

-- `closeEmptyArrayOrObject`
unfoldable pub close_empty_array_or_object : ℕ → Bool → Builder → Builder
close_empty_array_or_object pos is_array b =
    let out = patch pos (if is_array then 0x01 else 0x0a) b.out in
    close_level (record b { out = record { bytes = out.bytes; pos = out.pos - 8 } })
