-- ===== src/Slice/Tags/Search.antt =====
-- `hasTag` against `getTags`.
use velocypack.Prelude.{
  ℕ, zero, suc, ◌+◌, ◌-◌, ◌^◌, ◌==◌, ◌≡◌, refl, ◌∙◌, sym, ap, Bool, true, false, ◌||◌, List, [],
  ◌∷◌, ◌++◌, if◌then◌else◌, Bool-cases, inl, inr,
}
use velocypack.ValueType.{eq, tagged}
use velocypack.Result.{Result, ok}
use velocypack.SliceStaticData.{type_map}
use velocypack.Memory.{Memory}
use velocypack.Common.{read_integer_fixed}
use velocypack.Slice.Head.{is_tagged}
use velocypack.Slice.Tags.{address_space, get_tags_loop, get_tags, has_tag_loop, has_tag}

-- The list holds the tag.
unfoldable pub contains : ℕ → List ℕ → Bool
contains tag [] = false
contains tag (x ∷ xs) = x == tag || contains tag xs

append_assoc : (xs ys zs : List ℕ) → (xs ++ ys) ++ zs ≡ xs ++ (ys ++ zs)
append_assoc [] ys zs = refl
append_assoc (x ∷ xs) ys zs = ap (λ (l : List ℕ). x ∷ l) (append_assoc xs ys zs)

append_nil : (xs : List ℕ) → xs ≡ xs ++ []
append_nil [] = refl
append_nil (x ∷ xs) = ap (λ (l : List ℕ). x ∷ l) (append_nil xs)

-- The tags that the rest of the loop finds, and what the search for one of them gives.
Found : ℕ → Memory → ℕ → ℕ → List ℕ → List ℕ → Type 0
Found fuel m tag start ret tags =
    (more : List ℕ) × (tags ≡ ret ++ more)
    × (has_tag_loop fuel m tag start ≡ ok (contains tag more))

-- A tag in front of what the rest finds.
Found_more :
    (r : Result Bool) (tag v : ℕ) (ret more tags : List ℕ)
    → tags ≡ (ret ++ v ∷ []) ++ more
    → r ≡ ok (contains tag more)
    → (tags ≡ ret ++ v ∷ more) × ((if v == tag then ok true else r) ≡ ok (contains tag (v ∷ more)))
unfolding contains
Found_more r tag v ret more tags e found = (
  e ∙ append_assoc ret (v ∷ []) more,
  elim (Bool-cases (v == tag)) [ inl same ↦ rw same refl | inr other ↦ rw other found ],
)

get_tags_loop-Found :
    (fuel : ℕ) (m : Memory) (tag start : ℕ) (ret tags : List ℕ)
    → get_tags_loop fuel m start ret ≡ ok tags
    → Found fuel m tag start ret tags
unfolding get_tags_loop has_tag_loop Found contains
get_tags_loop-Found zero m tag start ret tags h = cc
get_tags_loop-Found (suc fuel) m tag start ret tags h =
    elim (Bool-cases (eq (type_map (m start)) tagged)) [
      | inr last ↦
          let e : ok ret ≡ ok tags = rw last at h in
          ([], (let e' : ret ≡ tags = cc in sym e' ∙ append_nil ret), rw last refl)
      | inl first ↦ elim (Bool-cases (m start == 0xee)) [
        | inl short ↦
            let (more, e, found) =
              get_tags_loop-Found fuel m tag (start + 2)
                (ret ++ read_integer_fixed m 1 (start + 1) ∷ []) tags (rw (first, short) at h) in
            let (e', found') =
              Found_more (has_tag_loop fuel m tag (start + 2)) tag
                (read_integer_fixed m 1 (start + 1)) ret more tags e found in
            (read_integer_fixed m 1 (start + 1) ∷ more, e', rw (first, short) found')
        | inr other ↦ elim (Bool-cases (m start == 0xef)) [
          | inl long ↦
              let (more, e, found) =
                get_tags_loop-Found fuel m tag (start + 9)
                  (ret ++ read_integer_fixed m 8 (start + 1) ∷ []) tags
                  (rw (first, other, long) at h) in
              let (e', found') =
                Found_more (has_tag_loop fuel m tag (start + 9)) tag
                  (read_integer_fixed m 8 (start + 1)) ret more tags e found in
              (read_integer_fixed m 8 (start + 1) ∷ more, e', rw (first, other, long) found')
          | inr neither ↦ cc (rw (first, other, neither) at h)
        ]
      ]
    ]

no_tags :
    (fuel : ℕ) (m : Memory) (s tag : ℕ)
    → eq (type_map (m s)) tagged ≡ false
    → has_tag_loop (suc fuel) m tag s ≡ ok false
unfolding has_tag_loop
no_tags fuel m s tag h = rw h refl

untagged :
    (m : Memory) (s tag : ℕ) → is_tagged m s ≡ false → has_tag_loop address_space m tag s ≡ ok false
unfolding address_space is_tagged
untagged m s tag h = no_tags (2 ^ 64 - 1) m s tag h

-- Where `getTags` gives a list, `hasTag` says of every tag whether it is in the list.
pub has_tag-get_tags :
    (m : Memory) (s tag : ℕ) (tags : List ℕ)
    → get_tags m s ≡ ok tags
    → has_tag m s tag ≡ ok (contains tag tags)
unfolding get_tags has_tag Found contains
has_tag-get_tags m s tag tags h = elim (Bool-cases (is_tagged m s)) [
  | inl first ↦
      let (more, e, found) = get_tags_loop-Found address_space m tag s [] tags (rw first at h) in
      rw e found
  | inr plain ↦
      let e : ok [] ≡ ok tags = rw plain at h in
      let e' : [] ≡ tags = cc in
      untagged m s tag plain ∙ ap (λ (l : List ℕ). ok (contains tag l)) e'
]
