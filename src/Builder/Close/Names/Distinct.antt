-- ===== src/Builder/Close/Names/Distinct.antt =====
-- The check for duplicates against what it means: no name occurs twice.
use velocypack.Prelude.{
  ℕ, ◌≡◌, ◌≢◌, ◌↔◌, refl, sym, arith, Bool, true, false, List, [], ◌∷◌, All, Bool-cases, inl, inr,
}
use velocypack.Result.{ok}
use velocypack.Builder.Close.Names.{same_name, contains_name, unique_set, unique_unsorted}
use velocypack.Builder.Close.Names.Unique.{unsorted-set, same_name_refl, same_name_sound}

-- Each name differs from all that follow.
unfoldable pub AreDistinct : List (List ℕ) → Type 0
AreDistinct [] = Unit {0}
AreDistinct (name ∷ rest) = All (λ other. name ≢ other) rest × AreDistinct rest

AreFresh : List (List ℕ) → List (List ℕ) → Type 0
AreFresh keys names = All (λ name. contains_name name keys ≡ false) names

same_name-differs : (a b : List ℕ) → same_name a b ≡ false → a ≢ b
same_name-differs a b h e = absurd (ground (arith, same_name_refl a, rw (sym e) at h))

differs-same_name : (a b : List ℕ) → a ≢ b → same_name a b ≡ false
differs-same_name a b h = elim (Bool-cases (same_name a b)) [
  | inl e ↦ absurd (h (same_name_sound a b e))
  | inr other ↦ other
]

-- With a key more, the names that are fresh are those that were and differ from it.
split_fresh :
    (key : List ℕ) (keys names : List (List ℕ))
    → AreFresh (key ∷ keys) names
    → All (λ other. key ≢ other) names × AreFresh keys names
unfolding contains_name AreFresh
split_fresh key keys [] h = (tt, tt)
split_fresh key keys (name ∷ rest) (first, h) =
    let (differ, fresh) = split_fresh key keys rest h in
    ((same_name-differs key name (ground arith), differ), (ground arith, fresh))

join_fresh :
    (key : List ℕ) (keys names : List (List ℕ))
    → All (λ other. key ≢ other) names
    → AreFresh keys names
    → AreFresh (key ∷ keys) names
unfolding contains_name AreFresh
join_fresh key keys [] differ fresh = tt
join_fresh key keys (name ∷ rest) (first, differ) (new, fresh) =
    (rw (differs-same_name key name first, new) refl, join_fresh key keys rest differ fresh)

set-AreDistinct :
    (keys names : List (List ℕ))
    → unique_set keys names ≡ true
    → AreDistinct names × AreFresh keys names
unfolding unique_set AreDistinct AreFresh
set-AreDistinct keys [] h = (tt, tt)
set-AreDistinct keys (name ∷ rest) h = elim (Bool-cases (contains_name name keys)) [
  | inl found ↦ absurd (ground (arith, rw found at h))
  | inr new ↦
      let (distinct, fresh) = set-AreDistinct (name ∷ keys) rest (rw new at h) in
      let (differ, others) = split_fresh name keys rest fresh in ((differ, distinct), (new, others))
]

distinct-set :
    (keys names : List (List ℕ))
    → AreDistinct names
    → AreFresh keys names
    → unique_set keys names ≡ true
unfolding unique_set AreDistinct AreFresh
distinct-set keys [] distinct fresh = refl
distinct-set keys (name ∷ rest) (differ, distinct) (new, fresh) =
    rw new (distinct-set (name ∷ keys) rest distinct (join_fresh name keys rest differ fresh))

no_keys : (names : List (List ℕ)) → AreFresh [] names
unfolding AreFresh contains_name
no_keys [] = tt
no_keys (name ∷ rest) = (refl, no_keys rest)

-- For every list of names, the check for names that are in no order returns, which also says that its
-- array of keys is not overrun, and it returns true exactly when no name occurs twice.
pub unique_unsorted-AreDistinct :
    (names : List (List ℕ))
    → (unique : Bool) × (unique_unsorted names ≡ ok unique) × ((unique ≡ true) ↔ AreDistinct names)
unfolding AreFresh
unique_unsorted-AreDistinct names = (
  unique_set [] names,
  unsorted-set names,
  (λ h. (set-AreDistinct [] names h).0, λ distinct. distinct-set [] names distinct (no_keys names)),
)
