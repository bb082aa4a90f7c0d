-- ===== src/Builder/Close/Names/Unique.antt =====
-- The three checks for duplicate attribute names decide the same.
use velocypack.Prelude.{
  ℕ, suc, ◌≡◌, refl, ap, ◌∙◌, sym, Bool, true, false, ◌||◌, leb, ltb, ◌==◌, if◌then◌else◌, List, [],
  ◌∷◌, ◌++◌, length, length-append, leb→le, ◌≤◌, ◌+◌, Bool-cases, inl, inr, ◌⊎◌, arith, ==_iff,
  and-left, and-right,
}
use velocypack.Result.{ok}
use velocypack.Builder.Close.Names.{
  memcmp, comes_before, same_name, contains_name, unique_brute, unique_set, unique_unsorted,
  unique_next, unique_sorted, linear_cutoff,
}

contains-append :
    (name : List ℕ) (xs ys : List (List ℕ))
    → contains_name name (xs ++ ys) ≡ (contains_name name xs || contains_name name ys)
unfolding contains_name
contains-append name [] ys = refl
contains-append name (x ∷ xs) ys = rw (contains-append name xs ys) (ground arith)

-- Two lists of keys with the same members are as good as each other, while the array has room.
brute-set :
    (keys keys' names : List (List ℕ))
    → length keys + length names ≤ 4
    → ((name : List ℕ) → contains_name name keys ≡ contains_name name keys')
    → unique_brute keys names ≡ ok (unique_set keys' names)
unfolding unique_brute unique_set contains_name linear_cutoff
brute-set keys keys' [] few agree = refl
brute-set keys keys' (name ∷ rest) few agree =
    let room : ltb (length keys) 4 ≡ true = ground arith in
    let later =
      brute-set (keys ++ name ∷ []) (name ∷ keys') rest
        (omega (arith, length-append keys (name ∷ [])))
        (λ other. contains-append other keys (name ∷ []) ∙ rw (agree other) (ground arith)) in
    elim (Bool-cases (contains_name name keys')) [
      | inl found ↦ rw (agree name, found) refl
      | inr fresh ↦ rw (agree name, fresh, room) later
    ]

-- The order of names: the first byte that differs decides, and a proper prefix comes first.
unfoldable pub name_less : List ℕ → List ℕ → Bool
name_less a b = comes_before (memcmp a b) (ltb (length a) (length b))

pub ltb-suc : (a b : ℕ) → ltb (suc a) (suc b) ≡ ltb a b
ltb-suc a b = ground arith

unfoldable pub lex : List ℕ → List ℕ → Bool
lex [] [] = false
lex [] (y ∷ ys) = true
lex (x ∷ xs) [] = false
lex (x ∷ xs) (y ∷ ys) =
    let rest = lex xs ys in if ltb x y then true else if ltb y x then false else rest

pub name_less-lex : (a b : List ℕ) → name_less a b ≡ lex a b
unfolding name_less lex memcmp comes_before
name_less-lex [] [] = refl
name_less-lex [] (y ∷ ys) = ground arith
name_less-lex (x ∷ xs) [] = ground arith
name_less-lex (x ∷ xs) (y ∷ ys) = elim (Bool-cases (ltb x y)) [
  | inl lt ↦ rw lt refl
  | inr ge ↦ elim (Bool-cases (ltb y x)) [
    | inl gt ↦ rw (ge, gt) refl
    | inr eq ↦ rw (ge, eq, ltb-suc (length xs) (length ys)) (name_less-lex xs ys)
  ]
]

pub lex_trans : (a b c : List ℕ) → lex a b ≡ true → lex b c ≡ true → lex a c ≡ true
unfolding lex
lex_trans [] [] c h k = absurd (ground arith)
lex_trans a (y ∷ ys) [] h k = absurd (ground arith)
lex_trans [] (y ∷ ys) (z ∷ zs) h k = refl
lex_trans (x ∷ xs) [] c h k = absurd (ground arith)
lex_trans (x ∷ xs) (y ∷ ys) (z ∷ zs) h k = ground (arith, lex_trans xs ys zs)

pub same_name_sound : (a b : List ℕ) → same_name a b ≡ true → a ≡ b
unfolding same_name
same_name_sound [] [] h = refl
same_name_sound [] (y ∷ ys) h = absurd (ground arith)
same_name_sound (x ∷ xs) [] h = absurd (ground arith)
same_name_sound (x ∷ xs) (y ∷ ys) h =
    rw ((==_iff x y).0 (and-left (x == y) (same_name xs ys) h))
      (ap (λ (l : List ℕ). y ∷ l) (same_name_sound xs ys (and-right (x == y) (same_name xs ys) h)))

pub same_name_refl : (a : List ℕ) → same_name a a ≡ true
unfolding same_name
same_name_refl [] = refl
same_name_refl (x ∷ xs) = rw (same_name_refl xs) (ground arith)

pub lex-total : (a b : List ℕ) → same_name a b ≡ false → lex b a ≡ false → lex a b ≡ true
unfolding lex same_name
lex-total [] [] h k = absurd (ground arith)
lex-total [] (y ∷ ys) h k = refl
lex-total (x ∷ xs) [] h k = absurd (ground arith)
lex-total (x ∷ xs) (y ∷ ys) h k = ground (arith, lex-total xs ys)

-- No name comes before the one in front of it.
unfoldable pub IsSorted : List (List ℕ) → Type 0
IsSorted [] = Unit {0}
IsSorted (a ∷ []) = Unit {0}
IsSorted (a ∷ b ∷ rest) = (name_less b a ≡ false) × IsSorted (b ∷ rest)

-- Of the keys that were looked at, `previous` is the last and none comes behind it.
UpTo : List ℕ → List (List ℕ) → Type 0
UpTo previous keys =
    (contains_name previous keys ≡ true)
    × ((name : List ℕ)
        → contains_name name keys ≡ true
        → (name ≡ previous) ⊎ (lex name previous ≡ true))

pub lex_irrefl : (a : List ℕ) → lex a a ≡ false
unfolding lex
lex_irrefl [] = refl
lex_irrefl (x ∷ xs) = ground (arith, lex_irrefl xs)

UpTo-next :
    (previous name : List ℕ) (keys : List (List ℕ))
    → UpTo previous keys
    → same_name previous name ≡ false
    → lex name previous ≡ false
    → (contains_name name keys ≡ false) × UpTo name (name ∷ keys)
unfolding UpTo contains_name
UpTo-next previous name keys (last, upto) differs sorted =
    let above = lex-total previous name differs sorted in
    (
      elim (Bool-cases (contains_name name keys)) [
        | inr fresh ↦ fresh
        | inl found ↦ elim (upto name found) [
          | inl e ↦ absurd (ground (arith, same_name_refl previous, rw e at differs))
          | inr before ↦ absurd (ground (arith, before, sorted))
        ]
      ],
      (
        rw (same_name_refl name) refl,
        λ other found. elim (Bool-cases (same_name name other)) [
          | inl here ↦ inl (sym (same_name_sound name other here))
          | inr there ↦ elim (upto other (rw there at found)) [
            | inl e ↦ inr (rw e above)
            | inr before ↦ inr (lex_trans other previous name before above)
          ]
        ],
      ),
    )

next-set :
    (previous : List ℕ) (keys names : List (List ℕ))
    → UpTo previous keys
    → IsSorted (previous ∷ names)
    → unique_next previous names ≡ unique_set keys names
unfolding unique_next unique_set IsSorted UpTo
next-set previous keys [] upto sorted = refl
next-set previous keys (name ∷ rest) upto (first, sorted) =
    elim (Bool-cases (same_name previous name)) [
      | inl repeated ↦
          let found : contains_name name keys ≡ true =
            ap (λ (n : List ℕ). contains_name n keys) (sym (same_name_sound previous name repeated))
            ∙ upto.0 in
          rw (repeated, found) refl
      | inr differs ↦
          let (fresh, upto') =
            UpTo-next previous name keys upto differs (sym (name_less-lex name previous) ∙ first) in
          rw (differs, fresh) (next-set name (name ∷ keys) rest upto' sorted)
    ]

pub unsorted-set : (names : List (List ℕ)) → unique_unsorted names ≡ ok (unique_set [] names)
unfolding unique_unsorted linear_cutoff
unsorted-set names = elim (Bool-cases (leb (length names) 4)) [
  | inl few ↦
      rw few (brute-set [] [] names (omega (arith, leb→le (length names) 4 few)) (λ name. refl))
  | inr many ↦ rw many refl
]

sorted-set : (names : List (List ℕ)) → IsSorted names → unique_sorted names ≡ unique_set [] names
unfolding unique_sorted unique_set contains_name UpTo
sorted-set [] sorted = refl
sorted-set (name ∷ rest) sorted = next-set name (name ∷ []) rest (only name) sorted
  where
    only : (name : List ℕ) → UpTo name (name ∷ [])
    only name = (
      rw (same_name_refl name) refl,
      λ other found. elim (Bool-cases (same_name name other)) [
        | inl here ↦ inl (sym (same_name_sound name other here))
        | inr there ↦ absurd (ground (arith, found, there))
      ],
    )

-- On names in the order of the index table, comparing neighbours decides what comparing all of them
-- decides.
pub unique_sorted-unique_unsorted :
    (names : List (List ℕ)) → IsSorted names → ok (unique_sorted names) ≡ unique_unsorted names
unique_sorted-unique_unsorted names sorted =
    ap ok (sorted-set names sorted) ∙ sym (unsorted-set names)
