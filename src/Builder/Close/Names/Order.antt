-- ===== src/Builder/Close/Names/Order.antt =====
-- The order in which the entries of an Object are put.
use velocypack.Prelude.{
  ℕ, zero, suc, ◌+◌, ◌-◌, ◌≡◌, refl, ap, ◌∙◌, sym, true, false, ◌&&◌, ltb, between, if◌then◌else◌,
  List, [], ◌∷◌, length, map, All, Bool-cases, inl, inr, arith, and-left, and-right,
}
use mathlib.Core.List.{Perm}
use velocypack.Memory.{Memory, bytes_at}
use mathlib.Core.Path.{subst}
use velocypack.Result.{Result, ok, throws, undefined, >>=-eq-ok}
use velocypack.Builder.Close.Names.{
  memcmp, SortEntry, entry_less, short_less, insert_entry, sort_entries, find_attr_name,
  read_entries, sort_object_index,
}
use velocypack.Builder.Close.Names.Sorted.{
  offsets, All-sort_entries, IsReordering, sort_object_index_lem,
}
use velocypack.Builder.Close.Names.Unique.{
  name_less, name_less-lex, lex, lex_trans, lex_irrefl, IsSorted,
}

bytes_of_ok : Result (List ℕ) → List ℕ
bytes_of_ok (ok xs) = xs
bytes_of_ok (throws e) = []
bytes_of_ok undefined = []

length-bytes_at : (m : Memory) (p n : ℕ) → length (bytes_at m p n) ≡ n
unfolding bytes_at
length-bytes_at m p zero = refl
length-bytes_at m p (suc n) = omega (arith, length-bytes_at m (p + 1) n)

minimum : ℕ → ℕ → ℕ
minimum j k = if ltb k j then k else j

minimum-zero : (k : ℕ) → minimum 0 k ≡ 0
unfolding minimum
minimum-zero k = ground arith

minimum-suc : (j k : ℕ) → minimum (suc j) (suc k) ≡ suc (minimum j k)
unfolding minimum
minimum-suc j k = ground arith

minimum-suc_zero : (j : ℕ) → minimum (suc j) 0 ≡ 0
unfolding minimum
minimum-suc_zero j = ground arith

-- `memcmp` looks at as many bytes as both have.
memcmp-minimum :
    (m : Memory) (p q j k : ℕ)
    → memcmp (bytes_at m p (minimum j k)) (bytes_at m q (minimum j k))
      ≡ memcmp (bytes_at m p j) (bytes_at m q k)
unfolding memcmp bytes_at
memcmp-minimum m p q zero k = rw (minimum-zero k) refl
memcmp-minimum m p q (suc j) zero = rw (minimum-suc_zero j) refl
memcmp-minimum m p q (suc j) (suc k) =
    rw (minimum-suc j k, memcmp-minimum m (p + 1) (q + 1) j k) refl

module _ (translated : Memory → ℕ → Result (List ℕ)) where
  -- The comparison that reads short names in place is the comparison of the names, for two entries that
  -- hold the names that `findAttrName` finds at their offsets.
  pub short_less-entry_less :
      (m : Memory) (base : ℕ) (a b : SortEntry)
      → find_attr_name translated m (base + a.offset) ≡ ok a.name
      → find_attr_name translated m (base + b.offset) ≡ ok b.name
      → short_less m base a b ≡ entry_less a b
  unfolding short_less entry_less find_attr_name minimum bytes_of_ok
  short_less-entry_less m base a b ha hb =
      let aa = base + a.offset in
      let bb = base + b.offset in
      elim (Bool-cases (between 0x40 0xbe (m aa) && between 0x40 0xbe (m bb))) [
        | inr other ↦ rw other refl
        | inl both ↦
            let sa = and-left (between 0x40 0xbe (m aa)) (between 0x40 0xbe (m bb)) both in
            let sb = and-right (between 0x40 0xbe (m aa)) (between 0x40 0xbe (m bb)) both in
            let ea : bytes_at m (aa + 1) (m aa - 0x40) ≡ a.name = ap bytes_of_ok (rw sa at ha) in
            let eb : bytes_at m (bb + 1) (m bb - 0x40) ≡ b.name = ap bytes_of_ok (rw sb at hb) in
            let size : ltb (m aa) (m bb) ≡ ltb (m aa - 0x40) (m bb - 0x40) = ground arith in
            rw
              (
                both,
                size,
                memcmp-minimum m (aa + 1) (bb + 1) (m aa - 0x40) (m bb - 0x40),
                sym ea,
                sym eb,
                length-bytes_at m (aa + 1) (m aa - 0x40),
                length-bytes_at m (bb + 1) (m bb - 0x40),
              )
              refl
      ]

names : List SortEntry → List (List ℕ)
names es = map (λ e. e.name) es

lex-asym : (a b : List ℕ) → lex a b ≡ true → lex b a ≡ false
lex-asym a b h = elim (Bool-cases (lex b a)) [
  | inr below ↦ below
  | inl more ↦ absurd (ground (arith, lex_trans a b a h more, lex_irrefl a))
]

less-asym : (a b : List ℕ) → name_less a b ≡ true → name_less b a ≡ false
less-asym a b h = name_less-lex b a ∙ lex-asym a b (sym (name_less-lex a b) ∙ h)

insert-IsSorted :
    (e : SortEntry) (es : List SortEntry)
    → IsSorted (names es)
    → IsSorted (names (insert_entry entry_less e es))
unfolding IsSorted names insert_entry entry_less name_less
insert-IsSorted e [] sorted = tt
insert-IsSorted e (f ∷ []) sorted = elim (Bool-cases (entry_less f e)) [
  | inl before ↦ rw before (less-asym f.name e.name before, tt)
  | inr behind ↦ rw behind (behind, tt)
]
insert-IsSorted e (f ∷ g ∷ rest) (first, sorted) = elim (Bool-cases (entry_less f e)) [
  | inr behind ↦ rw behind (behind, (first, sorted))
  | inl before ↦ elim (Bool-cases (entry_less g e)) [
    | inl later ↦
        let more : IsSorted (names (insert_entry entry_less e (g ∷ rest))) =
          insert-IsSorted e (g ∷ rest) sorted in
        rw (before, later) (first, rw later at more)
    | inr here ↦ rw (before, here) (less-asym f.name e.name before, (here, sorted))
  ]
]

names-IsSorted : (es : List SortEntry) → IsSorted (names (sort_entries entry_less es))
unfolding sort_entries IsSorted names
names-IsSorted [] = tt
names-IsSorted (e ∷ es) = insert-IsSorted e (sort_entries entry_less es) (names-IsSorted es)

-- No name comes, in the lexicographic order of the bytes, before the one in front of it.
unfoldable pub IsLexSorted : List (List ℕ) → Type 0
IsLexSorted [] = Unit {0}
IsLexSorted (a ∷ []) = Unit {0}
IsLexSorted (a ∷ b ∷ rest) = (lex b a ≡ false) × IsLexSorted (b ∷ rest)

IsSorted-IsLexSorted : (ns : List (List ℕ)) → IsSorted ns → IsLexSorted ns
unfolding IsSorted IsLexSorted
IsSorted-IsLexSorted [] h = tt
IsSorted-IsLexSorted (a ∷ []) h = tt
IsSorted-IsLexSorted (a ∷ b ∷ rest) (first, h) =
    (sym (name_less-lex b a) ∙ first, IsSorted-IsLexSorted (b ∷ rest) h)

module _ (translated : Memory → ℕ → Result (List ℕ)) (m : Memory) (base : ℕ) where
  -- An entry has the name that is found at its offset.
  IsRead : SortEntry → Type 0
  IsRead e = find_attr_name translated m (base + e.offset) ≡ ok e.name

  read_entries-IsRead :
      (xs : List ℕ) (es : List SortEntry)
      → read_entries translated m base xs ≡ ok es
      → All IsRead es
  unfolding read_entries IsRead
  read_entries-IsRead [] [] h = tt
  read_entries-IsRead [] (e ∷ es) h = cc
  read_entries-IsRead (x ∷ xs) es h =
      let (name, found, h1) = >>=-eq-ok (find_attr_name translated m (base + x)) _ h in
      let (entries, e, h2) = >>=-eq-ok (read_entries translated m base xs) _ h1 in
      let same : (record { name = name; offset = x } ∷ entries) ≡ es = cc in
      subst (All IsRead) same (found, read_entries-IsRead xs entries e)

  IsRead-read_entries :
      (es : List SortEntry) → All IsRead es → read_entries translated m base (offsets es) ≡ ok es
  unfolding read_entries IsRead offsets
  IsRead-read_entries [] h = refl
  IsRead-read_entries (e ∷ es) (first, h) = rw (first, IsRead-read_entries es h) refl

  -- On such entries both comparisons sort alike.
  insert-alike :
      (e : SortEntry) (es : List SortEntry)
      → IsRead e
      → All IsRead es
      → insert_entry (short_less m base) e es ≡ insert_entry entry_less e es
  unfolding insert_entry IsRead
  insert-alike e [] h hs = refl
  insert-alike e (f ∷ rest) h (first, hs) =
      rw (short_less-entry_less translated m base f e first h, insert-alike e rest h hs) refl

  sort-alike :
      (es : List SortEntry)
      → All IsRead es
      → sort_entries (short_less m base) es ≡ sort_entries entry_less es
  unfolding sort_entries
  sort-alike [] hs = refl
  sort-alike (e ∷ es) (h, hs) =
      rw (sort-alike es hs)
        (insert-alike e (sort_entries entry_less es) h (All-sort_entries entry_less IsRead es hs))

  sort_object_index-entries :
      (xs ys : List ℕ)
      → sort_object_index translated m base xs ≡ ok ys
      → (es : List SortEntry) × (read_entries translated m base xs ≡ ok es)
        × (offsets (sort_entries entry_less es) ≡ ys)
  unfolding sort_object_index offsets
  sort_object_index-entries xs ys h =
      let (es, e, h1) = >>=-eq-ok (read_entries translated m base xs) _ h in
      let alike = sort-alike es (read_entries-IsRead xs es e) in
      elim (Bool-cases (ltb 32 (length xs))) [
        | inl many ↦
            let h2 : ok (offsets (sort_entries entry_less es)) ≡ ok ys = rw many at h1 in
            (es, e, cc)
        | inr few ↦
            let h2 : ok (offsets (sort_entries entry_less es)) ≡ ok ys = rw (few, alike) at h1 in
            (es, e, cc)
      ]

  -- Where the sort of an index table returns, by either comparison: the table holds the same offsets, each
  -- as often as before, and the names of the keys that they lead to are in the lexicographic order of
  -- their bytes.
  pub sort_object_index-IsLexSorted :
      (xs ys : List ℕ)
      → sort_object_index translated m base xs ≡ ok ys
      → Perm ys xs
        × ((es : List SortEntry) × (read_entries translated m base ys ≡ ok es)
            × IsLexSorted (map (λ e. e.name) es))
  unfolding names IsReordering
  sort_object_index-IsLexSorted xs ys h =
      let (es, e, same) = sort_object_index-entries xs ys h in
      let sorted = sort_entries entry_less es in
      let (_, perm, _) = sort_object_index_lem translated m base xs ys h in
      let read = All-sort_entries entry_less IsRead es (read_entries-IsRead xs es e) in
      (
        perm,
        (
          sorted,
          ap (λ (l : List ℕ). read_entries translated m base l) (sym same)
              ∙ IsRead-read_entries sorted read,
          IsSorted-IsLexSorted (names sorted) (names-IsSorted es),
        ),
      )
