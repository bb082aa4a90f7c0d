-- ===== src/Builder/Output.antt =====
-- include/velocypack/Builder.h: the bytes that a Builder has written. `reserve` makes room for more of
-- them and leaves those that are there.
pub mod Bytes
pub mod Extends
use velocypack.Prelude.{ℕ, zero, suc, ◌+◌, ◌/◌, ◌%◌, ◌^◌, bit_and, List, [], ◌∷◌}
use velocypack.Memory.{Memory, update}

-- `_start` and `_pos`, where `_pos` is an address.
pub record Output : Type 0 where
  pub bytes : Memory
  pub pos : ℕ

-- `appendByte` and `appendByteUnchecked`
unfoldable pub append_byte : ℕ → Output → Output
append_byte value out = record {
  bytes = update out.bytes out.pos (value % 2 ^ 8);
  pos = out.pos + 1;
}

-- `advance(1)`
unfoldable pub advance : Output → Output
advance out = record { bytes = out.bytes; pos = out.pos + 1 }

-- `_start[p] = value`
unfoldable pub patch : ℕ → ℕ → Output → Output
patch p value out = record { bytes = update out.bytes p (value % 2 ^ 8); pos = out.pos }

-- `appendLengthUnchecked<n>(v)`
unfoldable pub append_length : ℕ → ℕ → Output → Output
unfolding append_byte
append_length zero v out = out
append_length (suc n) v out = append_length n (v / 2 ^ 8) (append_byte (bit_and v 0xff) out)

-- `memcpy(_start + _pos, p, size)` and `advance(size)`, for the bytes at p.
unfoldable pub write_bytes : List ℕ → Output → Output
unfolding append_byte
write_bytes [] out = out
write_bytes (b ∷ bytes) out = write_bytes bytes (append_byte b out)
