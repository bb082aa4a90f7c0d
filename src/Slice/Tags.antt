-- ===== src/Slice/Tags.antt =====
-- include/velocypack/SliceBase.h: the tags in front of a value. A uint64_t of addresses is as many
-- rounds as a loop over the tags can make before it has left memory.
pub mod Search
use velocypack.Prelude.{
  ℕ, zero, suc, ◌+◌, ◌%◌, ◌^◌, ◌==◌, if◌then◌else◌, Bool, true, false, List, [], ◌∷◌, ◌++◌,
}
use velocypack.ValueType.{eq, tagged}
use velocypack.Exception.{internal_error}
use velocypack.Result.{Result, ok, throws, undefined, ◌>>=◌}
use velocypack.SliceStaticData.{type_map}
use velocypack.Memory.{Memory}
use velocypack.Common.{read_integer_fixed}
use velocypack.Slice.Head.{is_tagged}

unfoldable pub address_space : ℕ
address_space = 2 ^ 64

-- `tagOffset(start)`
unfoldable pub tag_offset : Memory → ℕ → ℕ
tag_offset m start =
    if eq (type_map (m start)) tagged
    then if m start == 0xee then 2 else if m start == 0xef then 9 else 0
    else 0

-- The loop of `tagsOffset`: the sum `ret` is a uint8_t.
unfoldable pub tags_offset_loop : ℕ → Memory → ℕ → ℕ → Result ℕ
tags_offset_loop zero m start ret = undefined
tags_offset_loop (suc fuel) m start ret =
    let offset = tag_offset m start in
    let more = tags_offset_loop fuel m (start + offset) ((ret + offset) % 2 ^ 8) in
    if eq (type_map (m start)) tagged then if offset == 0 then ok ret else more else ok ret

unfoldable pub tags_offset : Memory → ℕ → Result ℕ
tags_offset m start = tags_offset_loop address_space m start 0

-- `valueStart()`
unfoldable pub value_start : Memory → ℕ → Result ℕ
value_start m s = do offset ← tags_offset m s; ok (s + offset)

-- `value()`
unfoldable pub value : Memory → ℕ → Result ℕ
value m s = if is_tagged m s then value_start m s else ok s

unfoldable pub get_first_tag : Memory → ℕ → ℕ
get_first_tag m s =
    if is_tagged m s
    then (if m s == 0xee
        then read_integer_fixed m 1 (s + 1)
        else if m s == 0xef
        then read_integer_fixed m 8 (s + 1)
        else 0)
    else 0

-- The loop of `getTags`.
unfoldable pub get_tags_loop : ℕ → Memory → ℕ → List ℕ → Result (List ℕ)
get_tags_loop zero m start ret = undefined
get_tags_loop (suc fuel) m start ret =
    let short = get_tags_loop fuel m (start + 2) (ret ++ read_integer_fixed m 1 (start + 1) ∷ []) in
    let long = get_tags_loop fuel m (start + 9) (ret ++ read_integer_fixed m 8 (start + 1) ∷ []) in
    if eq (type_map (m start)) tagged
    then if m start == 0xee then short else if m start == 0xef then long else throws internal_error
    else ok ret

unfoldable pub get_tags : Memory → ℕ → Result (List ℕ)
get_tags m s = if is_tagged m s then get_tags_loop address_space m s [] else ok []

-- The loop of `hasTag`.
unfoldable pub has_tag_loop : ℕ → Memory → ℕ → ℕ → Result Bool
has_tag_loop zero m tag_id start = undefined
has_tag_loop (suc fuel) m tag_id start =
    let short = has_tag_loop fuel m tag_id (start + 2) in
    let long = has_tag_loop fuel m tag_id (start + 9) in
    if eq (type_map (m start)) tagged
    then (if m start == 0xee
        then if read_integer_fixed m 1 (start + 1) == tag_id then ok true else short
        else if m start == 0xef
        then if read_integer_fixed m 8 (start + 1) == tag_id then ok true else long
        else throws internal_error)
    else ok false

unfoldable pub has_tag : Memory → ℕ → ℕ → Result Bool
has_tag m s tag_id = has_tag_loop address_space m tag_id s
