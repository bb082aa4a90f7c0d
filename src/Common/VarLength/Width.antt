-- ===== src/Common/VarLength/Width.antt =====
-- `getVariableValueLength` counts the groups of seven bits that a number needs.
use velocypack.Prelude.{
  ℕ, zero, suc, ◌+◌, ◌/◌, ◌^◌, ◌≤◌, ◌<◌, ◌≡◌, refl, ◌⊎◌, inl, arith, ltb, if◌then◌else◌,
}
use velocypack.Common.VarLength.{value_length_loop, get_variable_value_length}
use native.Mathlib.Nat.{pow-suc}

-- The groups of `v` beyond the first.
further_groups : ℕ → ℕ → ℕ
further_groups zero v = 0
further_groups (suc k) v =
    let more = further_groups k (v / 128) in if ltb v 128 then 0 else suc more

loop-further_groups : (k v len : ℕ) → value_length_loop k v len ≡ len + further_groups k v
unfolding value_length_loop further_groups
loop-further_groups zero v len = omega arith
loop-further_groups (suc k) v len = ground (arith, loop-further_groups k (v / 128) (len + 1))

further_groups-enough :
    (k v : ℕ) → v < 128 ^ suc k → (v < 128 ^ suc (further_groups k v)) × (further_groups k v ≤ k)
unfolding further_groups
further_groups-enough zero v h = (h, omega arith)
further_groups-enough (suc k) v h = ground (
  arith,
  pow-suc 128 (suc (further_groups k (v / 128))),
  further_groups-enough k (v / 128) (omega (arith, pow-suc 128 (suc k))),
)

further_groups-needed : (k v : ℕ) → (further_groups k v ≡ 0) ⊎ (128 ^ further_groups k v ≤ v)
unfolding further_groups
further_groups-needed zero v = inl refl
further_groups-needed (suc k) v =
    ground (arith, pow-suc 128 (further_groups k (v / 128)), further_groups-needed k (v / 128))

-- Of a uint64_t the result is 1 to 10, that many groups of seven bits hold the value, and unless it is 1
-- one group fewer does not.
pub get_variable_value_length_lem :
    (v : ℕ)
    → v < 2 ^ 64
    → (extra : ℕ) × (get_variable_value_length v ≡ suc extra)
      × (extra ≤ 9)
      × (v < 128 ^ suc extra)
      × ((extra ≡ 0) ⊎ (128 ^ extra ≤ v))
unfolding get_variable_value_length
get_variable_value_length_lem v h =
    let fits : v < 128 ^ 10 = omega arith in
    let (wide, few) = further_groups-enough 9 v fits in
    (
      further_groups 9 v,
      omega (arith, loop-further_groups 9 v 1),
      few,
      wide,
      further_groups-needed 9 v,
    )
