-- ===== src/Builder/Close/Names/Sorted.antt =====
-- What the sort of the index table does to the entries, whatever the order is.
use velocypack.Prelude.{
  ℕ, suc, ◌+◌, ◌≡◌, refl, ap, ◌∙◌, Bool, List, [], ◌∷◌, length, map, All, Bool-cases, inl, inr, ltb,
}
use mathlib.Core.Path.{subst}
use mathlib.Core.List.{Perm}
use mathlib.Core.List.Perm
use velocypack.Memory.{Memory}
use velocypack.Result.{Result, ok, >>=-eq-ok}
use velocypack.Builder.Close.Names.{
  SortEntry, entry_less, short_less, insert_entry, sort_entries, find_attr_name, read_entries,
  sort_object_index,
}

unfoldable pub offsets : List SortEntry → List ℕ
offsets es = map (λ e. e.offset) es

module _ (before : SortEntry → SortEntry → Bool) where
  insert_entry-Perm :
      (e : SortEntry) (es : List SortEntry) → Perm (insert_entry before e es) (e ∷ es)
  unfolding insert_entry
  insert_entry-Perm e [] = Perm.refl (e ∷ [])
  insert_entry-Perm e (f ∷ rest) = elim (Bool-cases (before f e)) [
    | inr here ↦ rw here (Perm.refl (e ∷ f ∷ rest))
    | inl later ↦
        rw later (Perm.trans (Perm.cons f (insert_entry-Perm e rest)) (Perm.swap e f rest))
  ]

  pub sort_entries-Perm : (es : List SortEntry) → Perm (sort_entries before es) es
  unfolding sort_entries
  sort_entries-Perm [] = Perm.refl []
  sort_entries-Perm (e ∷ es) =
      Perm.trans (insert_entry-Perm e (sort_entries before es)) (Perm.cons e (sort_entries-Perm es))

  length-insert_entry :
      (e : SortEntry) (es : List SortEntry)
      → length (offsets (insert_entry before e es)) ≡ suc (length (offsets es))
  unfolding insert_entry offsets
  length-insert_entry e [] = refl
  length-insert_entry e (f ∷ rest) = elim (Bool-cases (before f e)) [
    | inr here ↦ rw here refl
    | inl later ↦ rw later (ap suc (length-insert_entry e rest))
  ]

  length-sort_entries :
      (es : List SortEntry) → length (offsets (sort_entries before es)) ≡ length (offsets es)
  unfolding sort_entries offsets
  length-sort_entries [] = refl
  length-sort_entries (e ∷ es) =
      length-insert_entry e (sort_entries before es) ∙ ap suc (length-sort_entries es)

  module _ (P : SortEntry → Type 0) where
    All-insert_entry :
        (e : SortEntry) (es : List SortEntry) → P e → All P es → All P (insert_entry before e es)
    unfolding insert_entry
    All-insert_entry e [] p ps = (p, tt)
    All-insert_entry e (f ∷ rest) p (q, qs) = elim (Bool-cases (before f e)) [
      | inr here ↦ rw here (p, (q, qs))
      | inl later ↦ rw later (q, All-insert_entry e rest p qs)
    ]

    pub All-sort_entries : (es : List SortEntry) → All P es → All P (sort_entries before es)
    unfolding sort_entries
    All-sort_entries [] ps = tt
    All-sort_entries (e ∷ es) (p, ps) =
        All-insert_entry e (sort_entries before es) p (All-sort_entries es ps)

All-offsets : (P : ℕ → Type 0) (es : List SortEntry) → All P (offsets es) → All (λ e. P e.offset) es
unfolding offsets
All-offsets P [] ps = tt
All-offsets P (e ∷ es) (p, ps) = (p, All-offsets P es ps)

offsets-All : (P : ℕ → Type 0) (es : List SortEntry) → All (λ e. P e.offset) es → All P (offsets es)
unfolding offsets
offsets-All P [] ps = tt
offsets-All P (e ∷ es) (p, ps) = (p, offsets-All P es ps)

-- The same entries in some order.
unfoldable pub IsReordering : List ℕ → List ℕ → Type 1
IsReordering xs ys = (length ys ≡ length xs) × Perm ys xs × ((P : ℕ → Type 0) → All P xs → All P ys)

sorted_by :
    (before : SortEntry → SortEntry → Bool) (es : List SortEntry) (xs ys : List ℕ)
    → offsets es ≡ xs
    → ok (offsets (sort_entries before es)) ≡ ok ys
    → IsReordering xs ys
unfolding IsReordering offsets
sorted_by before es xs ys same h =
    let e : offsets (sort_entries before es) ≡ ys = cc in
    let found : IsReordering (offsets es) (offsets (sort_entries before es)) = (
      length-sort_entries before es,
      Perm.map (λ f. f.offset) (sort_entries-Perm before es),
      λ P ps.
          offsets-All P (sort_entries before es)
            (All-sort_entries before (λ e. P e.offset) es (All-offsets P es ps)),
    ) in
    subst (λ l. IsReordering l ys) same (subst (λ l. IsReordering (offsets es) l) e found)

ok-offsets : (es fs : List SortEntry) → ok es ≡ ok fs → offsets fs ≡ offsets es
ok-offsets es fs h = cc

module _ (translated : Memory → ℕ → Result (List ℕ)) (m : Memory) (base : ℕ) where
  pub read_entries-offsets :
      (xs : List ℕ) (es : List SortEntry)
      → read_entries translated m base xs ≡ ok es
      → offsets es ≡ xs
  unfolding read_entries offsets
  read_entries-offsets [] es h = ok-offsets [] es h
  read_entries-offsets (x ∷ xs) es h =
      let (name, _, h1) = >>=-eq-ok (find_attr_name translated m (base + x)) _ h in
      let (entries, e, h2) = >>=-eq-ok (read_entries translated m base xs) _ h1 in
      ok-offsets (record { name = name; offset = x } ∷ entries) es h2
      ∙ ap (λ (l : List ℕ). x ∷ l) (read_entries-offsets xs entries e)

  -- The entries of the table that `sortObjectIndex` leaves.
  pub sort_object_index_lem :
      (xs ys : List ℕ) → sort_object_index translated m base xs ≡ ok ys → IsReordering xs ys
  unfolding sort_object_index offsets
  sort_object_index_lem xs ys h =
      let (es, e, h1) = >>=-eq-ok (read_entries translated m base xs) _ h in
      let same : offsets es ≡ xs = read_entries-offsets xs es e in
      elim (Bool-cases (ltb 32 (length xs))) [
        | inl many ↦ sorted_by entry_less es xs ys same (rw many at h1)
        | inr few ↦ sorted_by (short_less m base) es xs ys same (rw few at h1)
      ]
