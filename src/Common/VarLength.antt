-- ===== src/Common/VarLength.antt =====
-- include/velocypack/velocypack-common.h: lengths in unsigned LEB128 format, seven bits a byte with the
-- lowest group first; in the reverse format each byte stands one address below the one before it.
pub mod Width
pub mod RoundTrip
use velocypack.Prelude.{
  ℕ, zero, suc, ◌+◌, ◌-◌, ◌*◌, ◌/◌, ◌%◌, ◌^◌, bit_and, bit_or, Bool, true, false, ltb, ◌==◌,
  if◌then◌else◌,
}
use velocypack.Memory.{Memory, update}
use velocypack.Result.{Result, ok, undefined}

-- `while (value >= 0x80U) { value >>= 7; ++len; }`. A uint64_t has ten groups at most.
unfoldable pub value_length_loop : ℕ → ℕ → ℕ → ℕ
value_length_loop zero value len = len
value_length_loop (suc rounds) value len =
    let more = value_length_loop rounds (value / 2 ^ 7) (len + 1) in
    if ltb value 0x80 then len else more

unfoldable pub get_variable_value_length : ℕ → ℕ
unfolding value_length_loop
get_variable_value_length value = value_length_loop 9 value 1

-- `--p` or `++p`
unfoldable pub next : Bool → ℕ → ℕ
next reverse p = if reverse then p - 1 else p + 1

-- The do-while loop, with `shift` for its variable p. In the eleventh round the shift is 70, which C++
-- leaves undefined.
unfoldable pub read_variable_loop : ℕ → Bool → Memory → ℕ → ℕ → ℕ → Result ℕ
read_variable_loop zero reverse m source len shift = undefined
read_variable_loop (suc rounds) reverse m source len shift =
    let v = m source in
    let len' = (len + bit_and v 0x7f * 2 ^ shift % 2 ^ 64) % 2 ^ 64 in
    let more = read_variable_loop rounds reverse m (next reverse source) len' (shift + 7) in
    if bit_and v 0x80 == 0 then ok len' else more

unfoldable pub read_variable_value_length : Bool → Memory → ℕ → Result ℕ
unfolding read_variable_loop next
read_variable_value_length reverse m source = read_variable_loop 10 reverse m source 0 0

-- Both branches of `storeVariableValueLength`, which differ in the direction only.
unfoldable pub store_variable_loop : ℕ → Bool → Memory → ℕ → ℕ → Memory
store_variable_loop zero reverse m dst value = update m dst (bit_and value 0x7f % 256)
store_variable_loop (suc rounds) reverse m dst value =
    let more =
      store_variable_loop rounds reverse (update m dst (bit_or value 0x80 % 256)) (next reverse dst)
        (value / 2 ^ 7) in
    if ltb value 0x80 then update m dst (bit_and value 0x7f % 256) else more

unfoldable pub store_variable_value_length : Bool → Memory → ℕ → ℕ → Memory
unfolding store_variable_loop next update
store_variable_value_length reverse m dst value = store_variable_loop 9 reverse m dst value
