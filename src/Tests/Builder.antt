-- ===== src/Tests/Builder.antt =====
-- A Builder at work: runs, and the theorems at concrete inputs.
use velocypack.Prelude.{ℕ, ◌≡◌, refl, arith, Bool, true, false, [], ◌∷◌}
use velocypack.Prelude.Int.{pos, negsuc}
use velocypack.ValueType.{int, string}
use velocypack.Result.{ok}
use velocypack.Options.{defaults}
use velocypack.Memory.{from_list}
use velocypack.Slice.{type_of, copy_string, get_utc_date}
use velocypack.Builder.State.{Builder, is_open_object, head_at, open_compound_value}
use velocypack.Builder.Outcome.{Outcome}
use velocypack.Builder.Levels.{IsNested, KeyFits, IsWellFormed, member_counts}
use velocypack.Builder.Levels.Steps.{open_compound_value-IsWellFormed}
use velocypack.Builder.Values.{
  Doubles, Value, int64_payload, string_payload, bytes_of, set_value, write_string, add_utc_date,
}
use velocypack.Builder.Values.Types.{written_type}
use velocypack.Builder.Values.Set.{Kept, set_value-Outcome}
use velocypack.Builder.Values.RoundTrip.{copy_string-set_value, get_utc_date-add_utc_date}
use velocypack.Builder.Add.{add_internal}
use velocypack.Builder.Add.Members.{add_member, add_internal-IsWellFormed, add_internal-add_member}
use velocypack.Builder.Add.Errors.{Unchanged, add_internal-Unchanged}

-- Doubles that are whole numbers.
abbrev whole : Doubles
whole = record {
  Double = ℕ;
  of_i64 = λ i. 0;
  of_u64 = λ u. u;
  to_signed = λ d. ok (pos d);
  to_unsigned = λ d. ok d;
  is_negative = λ d. false;
  bits = λ d. d;
}

-- An Array that has been opened, with no members yet.
abbrev in_array : Builder
in_array = record {
  out = record { bytes = from_list (0x06 ∷ []); pos = 9 };
  stack = record { start_pos = 0; index_start_pos = 0 } ∷ [];
  indexes = [];
  key_written = false;
}

in_array-IsWellFormed : IsWellFormed in_array
unfolding IsWellFormed IsNested KeyFits
in_array-IsWellFormed = ((omega arith, omega arith, refl, tt), tt)

no_object : is_open_object in_array ≡ false
unfolding is_open_object head_at
no_object = refl

abbrev minus_three : Value whole
minus_three = record { value_type = int; payload = int64_payload (negsuc 2) }

-- A String cannot be made of a number.
abbrev misfit : Value whole
misfit = record { value_type = string; payload = int64_payload (negsuc 2) }

set_value-Outcome_example :
    Outcome
      (λ p b'.
        (p ≡ 9) × (type_of b'.out.bytes p ≡ written_type whole int (int64_payload (negsuc 2))))
      (λ _ b'. Kept in_array b')
      (set_value whole defaults minus_three in_array)
set_value-Outcome_example = set_value-Outcome whole defaults minus_three in_array

copy_string-set_value_example :
    (k : Bool) × (set_value whole defaults
        (record { value_type = string; payload = string_payload (0x61 ∷ 0x62 ∷ []) })
        in_array
      ≡ (
        ok 9,
        record in_array { key_written = k; out = write_string (0x61 ∷ 0x62 ∷ []) in_array.out },
      ))
    × (copy_string (write_string (0x61 ∷ 0x62 ∷ []) in_array.out).bytes 9 ≡ ok (0x61 ∷ 0x62 ∷ []))
unfolding bytes_of
copy_string-set_value_example =
    copy_string-set_value whole defaults (string_payload (0x61 ∷ 0x62 ∷ [])) (0x61 ∷ 0x62 ∷ [])
      in_array refl (omega arith, (omega arith, tt)) (omega arith)

get_utc_date-add_utc_date_example :
    get_utc_date (add_utc_date (negsuc 4) in_array.out).bytes 9 ≡ ok (negsuc 4)
get_utc_date-add_utc_date_example =
    get_utc_date-add_utc_date (negsuc 4) in_array.out (omega arith, omega arith)

add_internal-IsWellFormed_example :
    Outcome
      (λ _ b'. IsWellFormed b')
      (λ _ _. Unit {0})
      (add_internal (set_value whole defaults minus_three) in_array)
add_internal-IsWellFormed_example =
    add_internal-IsWellFormed whole defaults minus_three in_array in_array-IsWellFormed

add_internal-add_member_example :
    Outcome
      (λ _ b'. member_counts b' ≡ add_member false false (member_counts in_array))
      (λ _ _. Unit {0})
      (add_internal (set_value whole defaults minus_three) in_array)
add_internal-add_member_example =
    add_internal-add_member whole defaults minus_three in_array in_array-IsWellFormed

add_internal-Unchanged_example :
    Outcome
      (λ _ _. Unit {0})
      (λ _ b'. Unchanged in_array b')
      (add_internal (set_value whole defaults misfit) in_array)
add_internal-Unchanged_example =
    add_internal-Unchanged whole defaults misfit in_array in_array-IsWellFormed no_object

open_compound_value-IsWellFormed_example :
    Outcome
      (λ _ b'.
        IsWellFormed b' × (member_counts b' ≡ add_member true false (member_counts in_array)))
      (λ _ b'. b' ≡ in_array)
      (open_compound_value 0x0b in_array)
open_compound_value-IsWellFormed_example =
    open_compound_value-IsWellFormed 0x0b in_array (omega arith) refl in_array-IsWellFormed
