-- ===== src/Builder/Add/Levels.antt =====
-- `add` of a Value keeps the invariant of the levels, and adds one member to the innermost one.
use velocypack.Prelude.{
  ℕ, ◌+◌, ◌-◌, ◌<◌, ◌≡◌, refl, ap, ◌∙◌, arith, Bool, true, false, ◌||◌, ◌&&◌, not, List, [], ◌∷◌,
  ◌++◌, length, length-append, if◌then◌else◌, Bool-cases, List-cases, inl, inr,
}
use velocypack.ValueType.{ValueType, eq, array, object, string, uint}
use velocypack.Builder.State.{
  Builder, Compound, is_open_object, head_at, is_object_head, report_add,
}
use velocypack.Builder.Levels.{
  IsNested, KeyFits, IsWellFormed, counts, member_counts, bump, IsNested-grows, KeyFits-grows,
  counts-suc, KeyFits-either, KeyFits-no_object,
}
use velocypack.Builder.Values.Frame.{Adds}
use velocypack.Builder.Values.Set.{SetEffect}
use velocypack.Builder.Add.{report_unless_key}

-- `reportAdd` with a level open.
report_add-indexes :
    (b : Builder) (top : Compound) (rest : List Compound)
    → b.stack ≡ top ∷ rest
    → report_add b ≡ record b { indexes = b.indexes ++ (b.out.pos - top.start_pos) ∷ [] }
unfolding report_add
report_add-indexes b top rest some = rw some refl

-- The number of index entries behind it.
unfoldable pub reported : Builder → ℕ
reported b = if b.key_written then length b.indexes else length b.indexes + 1

pub report-Kept :
    (b : Builder) (top : Compound) (rest : List Compound)
    → b.stack ≡ top ∷ rest
    → ((report_unless_key b).out ≡ b.out)
      × ((report_unless_key b).stack ≡ b.stack)
      × ((report_unless_key b).key_written ≡ b.key_written)
      × (length (report_unless_key b).indexes ≡ reported b)
unfolding report_unless_key reported report_add
report-Kept b top rest some = elim (Bool-cases b.key_written) [
  | inl key ↦ rw key (refl, refl, refl, refl)
  | inr none ↦ rw (none, some) (refl, refl, refl, length-append b.indexes _)
]

-- The invariant once the item is reported, and before it is written.
pub report-IsWellFormed : (b : Builder) → IsWellFormed b → IsWellFormed (report_unless_key b)
unfolding IsWellFormed report_unless_key report_add KeyFits
report-IsWellFormed b h = elim (Bool-cases b.key_written) [
  | inl key ↦ rw key (rw key at h)
  | inr none ↦ elim (List-cases b.stack) [
    | inl empty ↦ rw (none, empty) (rw (none, empty) at h)
    | inr (top, rest, some) ↦ rw none (
        rw some (
          IsNested-grows b.out.bytes b.out.bytes (top ∷ rest) b.out.pos b.out.pos (length b.indexes)
              _ (λ a lt. refl) (omega arith)
              (omega (arith, length-append b.indexes ((b.out.pos - top.start_pos) ∷ [])))
              (rw some at h.0),
          tt,
        ))
  ]
]

-- Behind the report an open Object has an entry in its level.
unfoldable pub HasEntry : Builder → Type 0
unfolding KeyFits
HasEntry b = KeyFits b.out.bytes b.stack (length b.indexes) (is_open_object b)

reported-lt :
    (b : Builder) (top : Compound) (rest : List Compound)
    → b.stack ≡ top ∷ rest
    → IsWellFormed b
    → top.index_start_pos < reported b
unfolding IsWellFormed IsNested KeyFits reported
reported-lt b top rest some h = elim (Bool-cases b.key_written) [
  | inl key ↦ rw key ((rw (key, some) at h.1).1)
  | inr none ↦ rw none (omega (arith, (rw some at h.0).1))
]

pub is_open_object-top :
    (b : Builder) (top : Compound) (rest : List Compound)
    → b.stack ≡ top ∷ rest
    → is_open_object b ≡ is_object_head (b.out.bytes top.start_pos)
unfolding is_open_object head_at
is_open_object-top b top rest some = rw some refl

HasEntry-lt :
    (b : Builder) (top : Compound) (rest : List Compound)
    → b.stack ≡ top ∷ rest
    → top.index_start_pos < length b.indexes
    → HasEntry b
unfolding HasEntry KeyFits
HasEntry-lt b top rest some lt = elim (Bool-cases (is_object_head (b.out.bytes top.start_pos))) [
  | inl is_obj ↦ rw (is_open_object-top b top rest some, is_obj, some) (is_obj, lt)
  | inr other ↦ rw (is_open_object-top b top rest some, other) tt
]

pub report-HasEntry :
    (b : Builder) (top : Compound) (rest : List Compound)
    → b.stack ≡ top ∷ rest
    → IsWellFormed b
    → HasEntry (report_unless_key b)
unfolding IsWellFormed report_unless_key KeyFits IsNested
report-HasEntry b top rest some h =
    let (out, stack, flag, count) = report-Kept b top rest some in
    HasEntry-lt (report_unless_key b) top rest (stack ∙ some)
      (rw count (reported-lt b top rest some h))

-- The flag behind `checkKeyHasValidType` fits.
flag-KeyFits :
    (b : Builder) (flag : Bool)
    → IsWellFormed b
    → HasEntry b
    → flag ≡ (if is_open_object b then not b.key_written else b.key_written)
    → KeyFits b.out.bytes b.stack (length b.indexes) flag
unfolding IsWellFormed HasEntry
flag-KeyFits b flag h entry e = elim (Bool-cases (is_open_object b)) [
  | inl is_obj ↦ KeyFits-either b.out.bytes b.stack (length b.indexes) flag (rw is_obj at entry)
  | inr other ↦ rw e (rw other h.1)
]

-- No Array or Object is written where a key is due.
compound-no_key :
    (b : Builder) (flag is_key : Bool)
    → IsWellFormed b
    → is_key ≡ false
    → flag ≡ (if is_open_object b then not b.key_written else b.key_written)
    → (is_open_object b && not b.key_written && not is_key) ≡ false
    → flag ≡ false
unfolding IsWellFormed
compound-no_key b flag is_key h compound e key = elim (Bool-cases (is_open_object b)) [
  | inl is_obj ↦ ground (arith, e, key, compound, is_obj)
  | inr other ↦ e ∙ rw other (KeyFits-no_object b h.1 other)
]

not_key : (t : ValueType) → (eq t array || eq t object) ≡ true → (eq t string || eq t uint) ≡ false
not_key t h = ground arith

pub set-IsWellFormed :
    (t : ValueType) (b b' : Builder)
    → IsWellFormed b
    → HasEntry b
    → SetEffect t b b'
    → IsWellFormed b'
unfolding IsWellFormed Adds IsNested KeyFits
set-IsWellFormed t b b' h entry (b1, (out, stack, indexes), flag, key, adds) =
    elim (Bool-cases (eq t array || eq t object)) [
      | inl compound ↦
          let (ext, st, ix, kw, room, head) = rw (compound, out, stack, indexes) at adds in
          let none =
            compound-no_key b b1.key_written (eq t string || eq t uint) h (not_key t compound) flag
              key in
          rw (st, ix, kw, none)
            (
              (
                omega (arith, room),
                omega arith,
                head,
                IsNested-grows b.out.bytes b'.out.bytes b.stack b.out.pos b.out.pos
                    (length b.indexes) (length b.indexes) ext.1 (omega arith) (omega arith) h.0,
              ),
              tt,
            )
      | inr simple ↦
          let (ext, st, ix, kw) = rw (simple, out, stack, indexes) at adds in
          rw (st, ix, kw)
            (
              IsNested-grows b.out.bytes b'.out.bytes b.stack b.out.pos b'.out.pos
                  (length b.indexes) (length b.indexes) ext.1 ext.0 (omega arith) h.0,
              KeyFits-grows b.out.bytes b'.out.bytes b.stack b.out.pos (length b.indexes)
                  b1.key_written ext.1 h.0 (flag-KeyFits b b1.key_written h entry flag),
            )
    ]

-- The levels behind `set`, which opens one for an Array or Object.
pub set-counts :
    (t : ValueType) (b b' : Builder)
    → SetEffect t b b'
    → member_counts b'
      ≡ (if eq t array || eq t object then 0 ∷ member_counts b else member_counts b)
unfolding Adds member_counts counts
set-counts t b b' (b1, (out, stack, indexes), flag, key, adds) =
    elim (Bool-cases (eq t array || eq t object)) [
      | inl compound ↦
          let (ext, st, ix, rest, room, head) = rw (compound, out, stack, indexes) at adds in
          rw (compound, st, ix)
            (ap (λ (n : ℕ). n ∷ counts b.stack (length b.indexes)) (omega arith))
      | inr simple ↦
          let (ext, st, ix, kw) = rw (simple, out, stack, indexes) at adds in
          rw (simple, st, ix) refl
    ]

pub report-counts :
    (b : Builder) (top : Compound) (rest : List Compound)
    → b.stack ≡ top ∷ rest
    → IsWellFormed b
    → member_counts (report_unless_key b)
      ≡ (if b.key_written then member_counts b else bump (member_counts b))
unfolding member_counts IsWellFormed reported
report-counts b top rest some h =
    let (out, stack, flag, count) = report-Kept b top rest some in
    elim (Bool-cases b.key_written) [
      | inl key ↦ rw (stack, count, key) (refl)
      | inr none ↦
          rw (stack, count, none) (counts-suc b.out.bytes b.stack b.out.pos (length b.indexes) h.0)
    ]
