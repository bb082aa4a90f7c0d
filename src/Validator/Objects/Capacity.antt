-- ===== src/Validator/Objects/Capacity.antt =====
-- The table of offsets that `validateIndexedObject` fills.
use velocypack.Prelude.{ℕ, ◌≡◌, refl, ltb, leb, length, List, [], ◌∷◌, ◌++◌}
use velocypack.Result.{Ensures, returned, lost, Ensures-if}
use velocypack.Validator.Objects.{capacity, record_offset}

-- Where the offset is recorded, it stands at the end.
pub record_offset-append :
    (nr offset : ℕ) (offsets : List ℕ)
    → Ensures (λ offsets'. offsets' ≡ offsets ++ offset ∷ []) (record_offset nr offsets offset)
unfolding record_offset
record_offset-append nr offset offsets =
    Ensures-if (leb nr 128)
      (λ _. Ensures-if (ltb (length offsets) (capacity nr)) (λ _. returned refl) (λ _. lost))
      (λ _. returned refl)
