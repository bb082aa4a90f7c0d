-- ===== src/Builder/Close/Names.antt =====
-- src/Builder.cpp: the names of attributes, their order and the check for duplicates. `sortEntries` and
-- `duplicateKeys` are empty when a call begins.
pub mod Unique
pub mod Sorted
pub mod Order
pub mod Distinct
use velocypack.Prelude.{
  ℕ, zero, suc, ◌+◌, ◌-◌, ◌*◌, ◌%◌, ◌^◌, ◌==◌, ltb, leb, between, ◌&&◌, ◌||◌, not, Bool, true,
  false, if◌then◌else◌, List, [], ◌∷◌, ◌++◌, length, map,
}
use velocypack.Memory.{Memory, bytes_at}
use velocypack.Result.{Result, ok, undefined, ◌>>=◌}
use velocypack.Slice.{key_at, is_sorted}

-- `for (i = 8; i >= 1; i--) { len = (len << 8) + base[i]; }`
unfoldable pub long_length : ℕ → Memory → ℕ → ℕ → ℕ
long_length zero m base len = len
long_length (suc i) m base len = long_length i m base ((len * 2 ^ 8 + m (base + suc i)) % 2 ^ 64)

-- What `memcmp` says of as many bytes as both have.
pub data Comparison : Type 0 where
  less same greater : Comparison

unfoldable pub memcmp : List ℕ → List ℕ → Comparison
memcmp [] ys = same
memcmp (x ∷ xs) [] = same
memcmp (x ∷ xs) (y ∷ ys) =
    let rest = memcmp xs ys in if ltb x y then less else if ltb y x then greater else rest

-- `c < 0 || (c == 0 && shorter)`
unfoldable pub comes_before : Comparison → Bool → Bool
comes_before less shorter = true
comes_before same shorter = shorter
comes_before greater shorter = false

-- `SortEntry`, with the bytes of the name for its place and size.
pub record SortEntry : Type 0 where
  pub name : List ℕ
  pub offset : ℕ

-- The order of `sortObjectIndexLong`.
unfoldable pub entry_less : SortEntry → SortEntry → Bool
entry_less a b = comes_before (memcmp a.name b.name) (ltb (length a.name) (length b.name))

abbrev is_short : ℕ → Bool
is_short head = between 0x40 0xbe head

-- The order of `sortObjectIndexShort`, which reads short names in place.
unfoldable pub short_less : Memory → ℕ → SortEntry → SortEntry → Bool
short_less m base a b =
    let aa = base + a.offset in
    let bb = base + b.offset in
    let size = (if ltb (m bb - 0x40) (m aa - 0x40) then m bb - 0x40 else m aa - 0x40) in
    if is_short (m aa) && is_short (m bb)
    then comes_before (memcmp (bytes_at m (aa + 1) size) (bytes_at m (bb + 1) size))
        (ltb (m aa) (m bb))
    else entry_less a b

-- What `std::sort` leaves. It is free to put equal names in any order; here they stay in the order of the
-- list.
unfoldable pub insert_entry :
    (SortEntry → SortEntry → Bool) → SortEntry → List SortEntry → List SortEntry
insert_entry before e [] = e ∷ []
insert_entry before e (f ∷ rest) =
    let later = insert_entry before e rest in if before f e then f ∷ later else e ∷ f ∷ rest

unfoldable pub sort_entries : (SortEntry → SortEntry → Bool) → List SortEntry → List SortEntry
sort_entries before [] = []
sort_entries before (e ∷ rest) = insert_entry before e (sort_entries before rest)

-- Equal sizes and `memcmp(...) == 0`.
unfoldable pub same_name : List ℕ → List ℕ → Bool
same_name [] [] = true
same_name [] (y ∷ ys) = false
same_name (x ∷ xs) [] = false
same_name (x ∷ xs) (y ∷ ys) = x == y && same_name xs ys

-- Among the keys that have been looked at.
unfoldable pub contains_name : List ℕ → List (List ℕ) → Bool
contains_name name [] = false
contains_name name (other ∷ rest) = same_name other name || contains_name name rest

-- `linearAttributeUniquenessCutoff`
unfoldable pub linear_cutoff : ℕ
linear_cutoff = 4

-- The loop of `checkAttributeUniquenessUnsortedBrute`. Its array has `linear_cutoff` places for keys; the
-- source writes the next one without a test, and a write behind the array is undefined.
unfoldable pub unique_brute : List (List ℕ) → List (List ℕ) → Result Bool
unfolding linear_cutoff
unique_brute keys [] = ok true
unique_brute keys (name ∷ rest) =
    let later = unique_brute (keys ++ name ∷ []) rest in
    if contains_name name keys
    then ok false
    else if ltb (length keys) linear_cutoff
    then later
    else undefined

-- The loop of `checkAttributeUniquenessUnsortedSet`, which only knows which keys it has.
unfoldable pub unique_set : List (List ℕ) → List (List ℕ) → Bool
unique_set keys [] = true
unique_set keys (name ∷ rest) =
    let later = unique_set (name ∷ keys) rest in if contains_name name keys then false else later

unfoldable pub unique_unsorted : List (List ℕ) → Result Bool
unfolding unique_brute unique_set linear_cutoff
unique_unsorted names =
    if leb (length names) linear_cutoff then unique_brute [] names else ok (unique_set [] names)

-- The loop of `checkAttributeUniquenessSorted`, with the name before.
unfoldable pub unique_next : List ℕ → List (List ℕ) → Bool
unique_next previous [] = true
unique_next previous (name ∷ rest) =
    let later = unique_next name rest in if same_name previous name then false else later

unfoldable pub unique_sorted : List (List ℕ) → Bool
unfolding unique_next
unique_sorted [] = true
unique_sorted (name ∷ rest) = unique_next name rest

-- The name of a key that is no String comes from the attribute translator.
module _ (translated : Memory → ℕ → Result (List ℕ)) where
  -- `findAttrName(base, len)`
  unfoldable pub find_attr_name : Memory → ℕ → Result (List ℕ)
  find_attr_name m base =
      if is_short (m base)
      then ok (bytes_at m (base + 1) (m base - 0x40))
      else if m base == 0xbf
      then ok (bytes_at m (base + 1 + 8) (long_length 8 m base 0))
      else translated m base

  unfoldable pub read_entries : Memory → ℕ → List ℕ → Result (List SortEntry)
  read_entries m base [] = ok []
  read_entries m base (offset ∷ rest) = do
    name ← find_attr_name m (base + offset)
    entries ← read_entries m base rest
    ok (record { name = name; offset = offset } ∷ entries)

  -- `sortObjectIndex`. The names are read first: with two entries or more the comparisons read them all.
  unfoldable pub sort_object_index : Memory → ℕ → List ℕ → Result (List ℕ)
  sort_object_index m base indexes = do
    entries ← read_entries m base indexes
    ok (
        map (λ e. e.offset)
          (if ltb 32 (length indexes)
            then sort_entries entry_less entries
            else sort_entries (short_less m base) entries))

  -- The keys that the iterators give, from a position on.
  unfoldable pub key_names : ℕ → Memory → ℕ → ℕ → Result (List (List ℕ))
  key_names zero m s position = ok []
  key_names (suc left) m s position = do
    key ← key_at m s position
    name ← find_attr_name m key
    names ← key_names left m s (position + 1)
    ok (name ∷ names)

  -- `checkAttributeUniqueness(obj)`
  unfoldable pub check_attribute_uniqueness : Memory → ℕ → ℕ → Result Bool
  check_attribute_uniqueness m s n = do
    names ← key_names n m s 0
    if is_sorted m s then ok (unique_sorted names) else unique_unsorted names
