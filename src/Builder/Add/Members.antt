-- ===== src/Builder/Add/Members.antt =====
-- `add` of a Value against the levels of the Builder.
use velocypack.Prelude.{
  ℕ, ◌-◌, ◌≡◌, refl, ap, ◌∙◌, Bool, true, false, ◌||◌, List, [], ◌∷◌, ◌++◌, if◌then◌else◌,
  Bool-cases, List-cases, inl, inr,
}
use velocypack.ValueType.{eq, array, object}
use velocypack.Exception.{ExceptionType}
use velocypack.Options.{Options}
use velocypack.Builder.State.{
  Builder, Compound, Action, is_open_object, report_add, cleanup_add, clean_up,
}
use velocypack.Builder.Outcome.{Outcome, clean_up-Outcome, weaken-Outcome}
use velocypack.Builder.Levels.{IsWellFormed, KeyFits, member_counts, counts, bump}
use velocypack.Builder.Values.{Doubles, Value, set_value}
use velocypack.Builder.Values.Set.{set_value-SetEffect}
use velocypack.Builder.Add.{report_unless_key, add_internal}
use velocypack.Builder.Add.Levels.{
  HasEntry, report-IsWellFormed, report-HasEntry, set-IsWellFormed, set-counts, report-counts,
}

-- The abstract `add`: one member more in the innermost level, unless the item is the value of a key that
-- has been counted; an Array or Object begins a level of its own.
unfoldable pub add_member : Bool → Bool → List ℕ → List ℕ
add_member is_compound is_value levels =
    let counted = if is_value then levels else bump levels in
    if is_compound then 0 ∷ counted else counted

pub add_internal-empty : (set : Action ℕ) (b : Builder) → b.stack ≡ [] → add_internal set b ≡ set b
unfolding add_internal
add_internal-empty set b empty = rw empty refl

report-empty : (b : Builder) → b.stack ≡ [] → report_unless_key b ≡ b
unfolding report_unless_key report_add
report-empty b empty = elim (Bool-cases b.key_written) [
  | inl key ↦ rw key refl
  | inr none ↦ rw none (
      ap
        (λ (levels : List Compound). elim levels [
          | [] ↦ record b { key_written = false }
          | top ∷ _ ↦ record b {
            key_written = false;
            indexes = b.indexes ++ (b.out.pos - top.start_pos) ∷ [];
          }
        ])
        empty)
]

pub add_internal-some :
    (set : Action ℕ) (b : Builder) (top : Compound) (rest : List Compound)
    → b.stack ≡ top ∷ rest
    → add_internal set b ≡ clean_up cleanup_add (set (report_unless_key b))
unfolding add_internal
add_internal-some set b top rest some = rw some refl

report-Ready :
    (b : Builder)
    → IsWellFormed b
    → IsWellFormed (report_unless_key b) × HasEntry (report_unless_key b)
unfolding HasEntry is_open_object KeyFits
report-Ready b h = elim (List-cases b.stack) [
  | inl empty ↦ (report-IsWellFormed b h, rw (report-empty b empty, empty) tt)
  | inr (top, rest, some) ↦ (report-IsWellFormed b h, report-HasEntry b top rest some h)
]

-- `add` returns what `set` returns behind the report.
add-returns :
    (P : ℕ → Builder → Type 0) (Q : ExceptionType → Builder → Type 0) (set : Action ℕ) (b : Builder)
    → Outcome P Q (set (report_unless_key b))
    → Outcome P (λ _ _. Unit {0}) (add_internal set b)
add-returns P Q set b h = elim (List-cases b.stack) [
  | inl empty ↦
      rw (add_internal-empty set b empty)
        (weaken-Outcome P Q P _ (set b) (rw (report-empty b empty) at h) (λ _ _ p. p) (λ _ _ q. tt))
  | inr (top, rest, some) ↦
      rw (add_internal-some set b top rest some)
        (clean_up-Outcome P Q _ cleanup_add (set (report_unless_key b)) h (λ _ _ q. tt))
]

no_levels :
    (is_compound key : Bool) → (if is_compound then 0 ∷ [] else []) ≡ add_member is_compound key []
unfolding add_member bump
no_levels true true = refl
no_levels true false = refl
no_levels false true = refl
no_levels false false = refl

report-add_member :
    (b : Builder) (is_compound : Bool)
    → IsWellFormed b
    → (if is_compound
        then 0 ∷ member_counts (report_unless_key b)
        else member_counts (report_unless_key b))
      ≡ add_member is_compound b.key_written (member_counts b)
unfolding add_member member_counts counts bump
report-add_member b is_compound h = elim (List-cases b.stack) [
  | inl empty ↦ rw (report-empty b empty, empty) (no_levels is_compound b.key_written)
  | inr (top, rest, some) ↦ rw (report-counts b top rest some h) refl
]

module _ (D : Doubles) where
  -- When `add` returns for a Value, the invariant of the levels that held before holds.
  pub add_internal-IsWellFormed :
      (options : Options) (item : Value D) (b : Builder)
      → IsWellFormed b
      → Outcome
          (λ _ b'. IsWellFormed b')
          (λ _ _. Unit {0})
          (add_internal (set_value D options item) b)
  add_internal-IsWellFormed options item b h =
      let (ready, entry) = report-Ready b h in
      let b1 = report_unless_key b in
      add-returns _ (λ _ _. Unit {0}) (set_value D options item) b
        (weaken-Outcome _ _ _ _ (set_value D options item b1)
          (set_value-SetEffect D options item b1)
          (λ _ b' effect. set-IsWellFormed item.value_type b1 b' ready entry effect) (λ _ _ q. tt))

  -- When `add` returns for a Value, the numbers of members of the open levels are those of the abstract
  -- `add`, for every Builder for which the invariant of the levels holds.
  pub add_internal-add_member :
      (options : Options) (item : Value D) (b : Builder)
      → IsWellFormed b
      → Outcome
          (λ _ b'.
            member_counts b'
            ≡ add_member
                (eq item.value_type array || eq item.value_type object)
                b.key_written
                (member_counts b))
          (λ _ _. Unit {0})
          (add_internal (set_value D options item) b)
  add_internal-add_member options item b h =
      let b1 = report_unless_key b in
      add-returns _ (λ _ _. Unit {0}) (set_value D options item) b
        (weaken-Outcome _ _ _ _ (set_value D options item b1)
          (set_value-SetEffect D options item b1)
          (λ _ b' effect.
            set-counts item.value_type b1 b' effect
            ∙ report-add_member b (eq item.value_type array || eq item.value_type object) h)
          (λ _ _ q. tt))
