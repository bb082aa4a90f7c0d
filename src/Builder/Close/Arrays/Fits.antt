-- ===== src/Builder/Close/Arrays/Fits.antt =====
-- The width that `closeArray` picks for the lengths and the entries of an Array with an index table.
use velocypack.Prelude.{
  ℕ, ◌+◌, ◌-◌, ◌*◌, ◌^◌, ◌≤◌, ◌<◌, ◌≡◌, refl, arith, Bool, true, false, leb, ltb, ◌&&◌,
  if◌then◌else◌, Bool-cases, inl, inr, leb→le,
}
use velocypack.Options.{PaddingBehavior, no_padding, flexible, use_padding}
use velocypack.Builder.Close.Arrays.{array_format, use_padding_format}
use velocypack.Builder.Close.Table.{IsWidth, count_room}
use velocypack.Builder.Close.Table.Lengths.{header_room}

-- Where the first member stands, from the head on.
unfoldable pub array_first : ℕ → Bool → ℕ
array_first os allow = if allow then 1 + 2 * os else 9

-- A width that holds the size of the whole Array, with the header before the members.
unfoldable pub ArrayFits : ℕ × Bool → ℕ → ℕ → Type 0
ArrayFits (os, allow) size n =
    IsWidth os
    × (size - (9 - array_first os allow) + os * n + count_room os < 256 ^ os)
    × (header_room os ≤ array_first os allow)
    × (array_first os allow ≤ 9)

array_format-ArrayFits :
    (size n : ℕ) (allow1 allow2 : Bool)
    → 9 ≤ size
    → size + 8 * n + 8 < 2 ^ 64
    → ArrayFits (array_format size n true allow1 allow2) size n
unfolding array_format ArrayFits array_first IsWidth
array_format-ArrayFits size n allow1 allow2 lo hi =
    elim (Bool-cases (leb (size + n - (if allow1 then 6 else 0)) 0xff)) [
      | inl one ↦ rw one (one_byte allow1 one)
      | inr more ↦ elim (Bool-cases (leb (size + 2 * n - (if allow2 then 4 else 0)) 0xffff)) [
        | inl two ↦ rw (more, two) (two_bytes allow2 two)
        | inr most ↦ elim (Bool-cases (leb (size + 4 * n) 0xffffffff)) [
          | inl four ↦
              rw (more, most, four)
                (inr (inr (inl refl)), omega (arith, leb→le _ _ four), omega arith, omega arith)
          | inr all ↦
              rw (more, most, all) (inr (inr (inr refl)), omega arith, omega arith, omega arith)
        ]
      ]
    ]
  where
    one_byte :
        (allow : Bool)
        → leb (size + n - (if allow then 6 else 0)) 0xff ≡ true
        → ArrayFits (1, allow) size n
    one_byte true h = (inl refl, omega (arith, leb→le _ _ h), omega arith, omega arith)
    one_byte false h = (inl refl, omega (arith, leb→le _ _ h), omega arith, omega arith)

    two_bytes :
        (allow : Bool)
        → leb (size + 2 * n - (if allow then 4 else 0)) 0xffff ≡ true
        → ArrayFits (2, allow) size n
    two_bytes true h = (inr (inl refl), omega (arith, leb→le _ _ h), omega arith, omega arith)
    two_bytes false h = (inr (inl refl), omega (arith, leb→le _ _ h), omega arith, omega arith)

-- With an index table the padding behaviour changes nothing here.
pub padded-ArrayFits :
    (behavior : PaddingBehavior) (size n : ℕ) (allow1 allow2 : Bool)
    → 9 ≤ size
    → size + 8 * n + 8 < 2 ^ 64
    → ArrayFits (use_padding_format behavior true (array_format size n true allow1 allow2)) size n
unfolding use_padding_format
padded-ArrayFits use_padding size n allow1 allow2 lo hi =
    let no_change : (ltb (array_format size n true allow1 allow2).0 8 && false) ≡ false =
      ground arith in
    rw no_change (array_format-ArrayFits size n allow1 allow2 lo hi)
padded-ArrayFits no_padding size n allow1 allow2 lo hi =
    array_format-ArrayFits size n allow1 allow2 lo hi
padded-ArrayFits flexible size n allow1 allow2 lo hi =
    array_format-ArrayFits size n allow1 allow2 lo hi
