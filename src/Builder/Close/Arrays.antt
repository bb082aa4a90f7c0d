-- ===== src/Builder/Close/Arrays.antt =====
-- src/Builder.cpp: `closeArray`.
pub mod Fits
pub mod Closed
use velocypack.Prelude.{
  ℕ, ◌+◌, ◌-◌, ◌*◌, ◌==◌, leb, ltb, not, ◌&&◌, Bool, true, false, if◌then◌else◌, List, [], ◌∷◌,
  length, map,
}
use velocypack.Options.{Options, PaddingBehavior, no_padding, flexible, use_padding}
use velocypack.Slice.{sub64, mul64}
use velocypack.Builder.Output.{Output, patch}
use velocypack.Builder.State.{Builder, close_level}
use velocypack.Builder.Close.{
  is_allowed_to_memmove, determine_array_type, move_down, write_index_table, write_lengths,
}

-- Every member begins `sub_len` behind the one before it, and ends `sub_len` behind its begin.
unfoldable pub same_steps : ℕ → ℕ → List ℕ → Bool
same_steps sub_len end [] = true
same_steps sub_len end (i ∷ []) = sub64 end i == sub_len
same_steps sub_len end (i ∷ j ∷ rest) = sub64 j i == sub_len && same_steps sub_len end (j ∷ rest)

-- `needIndexTable`, which is also `needNrSubs`. `end` is `_pos - pos`.
unfoldable pub need_index_table : ℕ → List ℕ → Bool
need_index_table end [] = true
need_index_table end (i ∷ []) = false
need_index_table end (i ∷ j ∷ rest) =
    let sub_len = sub64 j i in
    if sub64 end i == mul64 (length (i ∷ j ∷ rest)) sub_len
    then not (same_steps sub_len end (i ∷ j ∷ rest))
    else true

-- `offsetSize` and `allowMemmove` as the code finds them, given what is allowed for one and two bytes.
unfoldable pub array_format : ℕ → ℕ → Bool → Bool → Bool → ℕ × Bool
array_format size n table allow1 allow2 =
    if leb (size + (if table then n else 0) - (if allow1 then (if table then 6 else 7) else 0)) 0xff
    then (1, allow1)
    else if leb
        (size + (if table then 2 * n else 0) - (if allow2 then (if table then 4 else 6) else 0))
        0xffff
    then (2, allow2)
    else if leb (size + (if table then 4 * n else 0)) 0xffffffff
    then (4, false)
    else (8, false)

-- With padding the members stand behind nine bytes anyway.
unfoldable pub use_padding_format : PaddingBehavior → Bool → ℕ × Bool → ℕ × Bool
use_padding_format behavior table (offset_size, allow) =
    let wide = ltb offset_size 8 && not table in
    elim behavior [
      | use_padding ↦ if wide then (8, false) else (offset_size, allow)
      | no_padding ↦ (offset_size, allow)
      | flexible ↦ (offset_size, allow)
    ]

unfoldable pub format_of : Options → ℕ → List ℕ → Output → ℕ × Bool
format_of options pos indexes out =
    let table = need_index_table (out.pos - pos) indexes in
    use_padding_format options.padding_behavior table (
      array_format (out.pos - pos) (length indexes) table
        (is_allowed_to_memmove options out.bytes pos indexes 1)
        (is_allowed_to_memmove options out.bytes pos indexes 2))

-- The writes, once the format is known: `target` is where the first member is to stand.
unfoldable pub write_array : ℕ → Bool → ℕ → Bool → List ℕ → Output → Output
write_array pos table offset_size allow indexes out =
    let target = if table then 1 + 2 * offset_size else 1 + 2 * offset_size - offset_size in
    let headed = patch pos (determine_array_type table offset_size) out in
    let moved = if allow then move_down pos target headed else headed in
    let entries = if allow then map (λ i. i - (9 - target)) indexes else indexes in
    let filled = if table then write_index_table offset_size entries moved else moved in
    write_lengths pos offset_size table (length indexes) filled

unfoldable pub close_array : Options → ℕ → List ℕ → Builder → Builder
close_array options pos indexes b =
    let (offset_size, allow) = format_of options pos indexes b.out in
    let table = need_index_table (b.out.pos - pos) indexes in
    close_level (record b { out = write_array pos table offset_size allow indexes b.out })
