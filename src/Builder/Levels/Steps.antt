-- ===== src/Builder/Levels/Steps.antt =====
-- Opening and closing a level.
use velocypack.Prelude.{
  ℕ, suc, ◌-◌, ◌≤◌, ◌<◌, ◌≡◌, refl, ap, ◌∙◌, arith, Bool, true, false, ◌||◌, List, [], ◌∷◌, length,
  length-append, take, zero, Bool-cases, List-cases, inl, inr,
}
use velocypack.Exception.{builder_need_open_array}
use velocypack.Result.{ok, throws}
use velocypack.Builder.Output.{Output}
use velocypack.Builder.State.{
  Builder, Compound, is_array_head, is_object_head, head_at, report_add, add_compound_value,
  open_compound_value, close_level,
}
use velocypack.Builder.Outcome.{Outcome}
use velocypack.Builder.Levels.{
  IsNested, KeyFits, IsWellFormed, counts, member_counts, bump, IsNested-grows, counts-suc,
}
use velocypack.Builder.Values.Frame.{Opens, add_compound_value-Opens}
use velocypack.Builder.Add.Members.{add_member}

length-take : (xs : List ℕ) (n : ℕ) → n ≤ length xs → length (take n xs) ≡ n
length-take xs zero h = refl
length-take [] (suc n) h = absurd (omega arith)
length-take (x ∷ xs) (suc n) h = omega (arith, length-take xs n (omega arith))

-- A level that is opened holds no members, and those outside of it stay.
Opens-IsWellFormed :
    (b b' : Builder)
    → Opens b b'
    → b.key_written ≡ false
    → IsNested b.out.bytes b.stack b.out.pos (length b.indexes)
    → IsWellFormed b' × (member_counts b' ≡ 0 ∷ member_counts b)
unfolding IsWellFormed IsNested KeyFits member_counts counts
Opens-IsWellFormed b b' (ext, st, ix, kw, room, first) none nested = (
  rw (st, ix, kw, none)
      (
        (
          omega (arith, room),
          omega arith,
          first,
          IsNested-grows b.out.bytes b'.out.bytes b.stack b.out.pos b.out.pos (length b.indexes)
              (length b.indexes) ext.1 (omega arith) (omega arith) nested,
        ),
        tt,
      ),
  rw (st, ix) (ap (λ (n : ℕ). n ∷ counts b.stack (length b.indexes)) (omega arith)),
)

report-IsNested :
    (b : Builder) (top : Compound) (rest : List Compound)
    → b.stack ≡ top ∷ rest
    → IsNested b.out.bytes b.stack b.out.pos (length b.indexes)
    → IsNested
        (report_add b).out.bytes
        (report_add b).stack
        (report_add b).out.pos
        (length (report_add b).indexes)
      × (member_counts (report_add b) ≡ bump (member_counts b))
      × ((report_add b).key_written ≡ b.key_written)
unfolding report_add member_counts
report-IsNested b top rest some nested =
    let more = length-append b.indexes ((b.out.pos - top.start_pos) ∷ []) in
    rw some (
      IsNested-grows b.out.bytes b.out.bytes (top ∷ rest) b.out.pos b.out.pos (length b.indexes) _
          (λ a lt. refl) (omega arith) (omega (arith, more)) (rw some at nested),
      ap (λ (n : ℕ). counts (top ∷ rest) n) more
          ∙ counts-suc b.out.bytes (top ∷ rest) b.out.pos (length b.indexes) (rw some at nested),
      refl,
    )

no_level-key : (b : Builder) → IsWellFormed b → b.stack ≡ [] → b.key_written ≡ false
unfolding IsWellFormed KeyFits
no_level-key b h empty = elim (Bool-cases b.key_written) [
  | inl key ↦ key ∙ (rw (key, empty) at h.1)
  | inr none ↦ none
]

opened :
    (x : ℕ) (b : Builder)
    → x < 256
    → (is_array_head x || is_object_head x) ≡ true
    → b.key_written ≡ false
    → IsNested b.out.bytes b.stack b.out.pos (length b.indexes)
    → IsWellFormed (add_compound_value x b)
      × (member_counts (add_compound_value x b) ≡ 0 ∷ member_counts b)
opened x b small head none nested =
    Opens-IsWellFormed b (add_compound_value x b) (add_compound_value-Opens x b small head) none
      nested

one_more : (key : Bool) (ns : List ℕ) → key ≡ false → 0 ∷ bump ns ≡ add_member true key ns
unfolding add_member
one_more key ns none = rw none refl

-- The branches of `openCompoundValue`.
opens-empty :
    (x : ℕ) (b : Builder) → b.stack ≡ [] → open_compound_value x b ≡ (ok tt, add_compound_value x b)
unfolding open_compound_value
opens-empty x b empty = rw empty refl

module _ (x : ℕ) (b : Builder) (top : Compound) (rest : List Compound)
    (some : b.stack ≡ top ∷ rest) where
  opens-value :
      b.key_written ≡ true
      → open_compound_value x b ≡ (ok tt, add_compound_value x (record b { key_written = false }))
  unfolding open_compound_value
  opens-value key = rw (some, key) refl

  opens-refused :
      b.key_written ≡ false
      → is_array_head (b.out.bytes top.start_pos) ≡ false
      → open_compound_value x b ≡ (throws builder_need_open_array, b)
  unfolding open_compound_value head_at
  opens-refused none other = rw (some, none, other) refl

  opens-member :
      b.key_written ≡ false
      → is_array_head (b.out.bytes top.start_pos) ≡ true
      → open_compound_value x b ≡ (ok tt, add_compound_value x (report_add b))
  unfolding open_compound_value head_at
  opens-member none is_arr = rw (some, none, is_arr) refl

-- For each of the four heads, `openCompoundValue` keeps the invariant of the levels and does to the
-- numbers of members what the abstract `add` of an Array or Object does, or it throws and the Builder is
-- as it was.
pub open_compound_value-IsWellFormed :
    (x : ℕ) (b : Builder)
    → x < 256
    → (is_array_head x || is_object_head x) ≡ true
    → IsWellFormed b
    → Outcome
        (λ _ b'.
          IsWellFormed b' × (member_counts b' ≡ add_member true b.key_written (member_counts b)))
        (λ _ b'. b' ≡ b)
        (open_compound_value x b)
unfolding open_compound_value add_member IsWellFormed member_counts counts bump
open_compound_value-IsWellFormed x b small head h = elim (List-cases b.stack) [
  | inl empty ↦
      let none = no_level-key b h empty in
      let (well, count) = opened x b small head none h.0 in
      rw (opens-empty x b empty) (well, rw (none, empty) (rw empty at count))
  | inr (top, rest, some) ↦ elim (Bool-cases b.key_written) [
    | inl key ↦
        let (well, count) = opened x (record b { key_written = false }) small head refl h.0 in
        rw (opens-value x b top rest some key) (well, rw key count)
    | inr none ↦ elim (Bool-cases (is_array_head (b.out.bytes top.start_pos))) [
      | inr other ↦ rw (opens-refused x b top rest some none other) refl
      | inl is_arr ↦
          let (nested, more, flag) = report-IsNested b top rest some h.0 in
          let (well, count) = opened x (report_add b) small head (flag ∙ none) nested in
          rw (opens-member x b top rest some none is_arr) (
            well,
            count ∙ ap (λ (l : List ℕ). 0 ∷ l) more ∙ one_more b.key_written (member_counts b) none,
          )
    ]
  ]
]

-- The rest of the state once the innermost level is closed, whatever was written behind its begin.
pub close_level-IsWellFormed :
    (b : Builder) (top : Compound) (rest : List Compound) (out : Output)
    → b.stack ≡ top ∷ rest
    → IsWellFormed b
    → b.key_written ≡ false
    → top.start_pos ≤ out.pos
    → ((a : ℕ) → a < top.start_pos → out.bytes a ≡ b.out.bytes a)
    → IsWellFormed (close_level (record b { out = out }))
      × (member_counts b
          ≡ (length b.indexes - top.index_start_pos)
            ∷ member_counts (close_level (record b { out = out })))
unfolding IsWellFormed IsNested KeyFits member_counts counts close_level
close_level-IsWellFormed b top rest out some h none room same =
    let (inner, place, head, outer) = rw some at h.0 in
    let count = length-take b.indexes top.index_start_pos place in
    (
      rw (some, none, count)
          (
            IsNested-grows b.out.bytes out.bytes rest top.start_pos out.pos top.index_start_pos
                top.index_start_pos same room (omega arith) outer,
            tt,
          ),
      rw (some, count) refl,
    )
