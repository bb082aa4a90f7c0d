-- ===== src/Common/Integers/Signed.antt =====
-- `toUInt64` and `toInt64` are two's complement, and each undoes the other.
use velocypack.Prelude.{ℕ, ◌-◌, ◌^◌, ◌≤◌, ◌<◌, ◌≡◌, arith}
use velocypack.Prelude.Int.{ℤ, pos, negsuc, IsI64}
use velocypack.Common.Integers.{to_u64, to_i64}

pub to_u64_negsuc : (n : ℕ) → n < 2 ^ 63 → to_u64 (negsuc n) ≡ 2 ^ 64 - 1 - n
unfolding to_u64
to_u64_negsuc n h = ground arith

pub to_u64_pos : (n : ℕ) → n < 2 ^ 63 → to_u64 (pos n) ≡ n
unfolding to_u64
to_u64_pos n h = omega arith

pub to_i64_small : (v : ℕ) → v < 2 ^ 63 → to_i64 v ≡ pos v
unfolding to_i64
to_i64_small v h = ground arith

pub to_i64_large : (v : ℕ) → 2 ^ 63 ≤ v → v < 2 ^ 64 → to_i64 v ≡ negsuc (2 ^ 64 - 1 - v)
unfolding to_i64
to_i64_large v lo hi = ground arith

-- Every int64_t comes back from its uint64_t.
pub to_i64-to_u64 : (v : ℤ) → IsI64 v → to_i64 (to_u64 v) ≡ v
to_i64-to_u64 (pos n) h = ground (arith, to_u64_pos n, to_i64_small n)
to_i64-to_u64 (negsuc n) h = ground (arith, to_u64_negsuc n, to_i64_large (2 ^ 64 - 1 - n))
