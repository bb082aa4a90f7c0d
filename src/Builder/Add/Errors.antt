-- ===== src/Builder/Add/Errors.antt =====
-- What `add` of a Value leaves when it throws.
use velocypack.Prelude.{
  ℕ, ◌-◌, ◌≡◌, refl, ap, ◌∙◌, false, List, [], ◌∷◌, ◌++◌, List-cases, inl, inr, drop_last,
  drop_last-append,
}
use velocypack.Options.{Options}
use velocypack.Builder.State.{Builder, Compound, is_open_object, report_add, cleanup_add}
use velocypack.Builder.Outcome.{Outcome, clean_up-Outcome, weaken-Outcome}
use velocypack.Builder.Levels.{IsWellFormed, KeyFits-no_object}
use velocypack.Builder.Values.{Doubles, Value, set_value}
use velocypack.Builder.Values.Set.{Kept, set_value-SetEffect}
use velocypack.Builder.Add.{report_unless_key, add_internal}
use velocypack.Builder.Add.Levels.{report-Kept, is_open_object-top}
use velocypack.Builder.Add.Members.{add_internal-empty, add_internal-some}

-- Nothing is changed.
abbrev pub Unchanged : Builder → Builder → Type 0
Unchanged b b' = Kept b b' × (b'.key_written ≡ b.key_written)

report-indexes :
    (b : Builder) (top : Compound) (rest : List Compound)
    → b.stack ≡ top ∷ rest
    → b.key_written ≡ false
    → (report_unless_key b).indexes ≡ b.indexes ++ (b.out.pos - top.start_pos) ∷ []
unfolding report_unless_key report_add
report-indexes b top rest some none = rw (none, some) refl

report-no_object :
    (b : Builder) (top : Compound) (rest : List Compound)
    → b.stack ≡ top ∷ rest
    → is_open_object b ≡ false
    → is_open_object (report_unless_key b) ≡ false
report-no_object b top rest some other =
    let (out, stack, flag, count) = report-Kept b top rest some in
    is_open_object-top (report_unless_key b) top rest (stack ∙ some)
    ∙ rw out (rw (is_open_object-top b top rest some) at other)

-- `cleanupAdd` takes the entry back.
cleanup-Unchanged :
    (b b' : Builder) (top : Compound) (rest : List Compound)
    → b.stack ≡ top ∷ rest
    → b.key_written ≡ false
    → Kept (report_unless_key b) b'
    → b'.key_written ≡ (report_unless_key b).key_written
    → Unchanged b (cleanup_add b')
unfolding cleanup_add
cleanup-Unchanged b b' top rest some none (out, stack, indexes) key =
    let (out1, stack1, flag, count) = report-Kept b top rest some in
    (
      (
        out ∙ out1,
        stack ∙ stack1,
        ap (λ (l : List ℕ). drop_last l) (indexes ∙ report-indexes b top rest some none)
            ∙ drop_last-append b.indexes (b.out.pos - top.start_pos),
      ),
      key ∙ flag,
    )

module _ (D : Doubles) where
  -- When `add` throws for a Value, and no Object is the innermost open level, the Builder is as it was:
  -- its bytes, its levels, its index entries and the key flag.
  pub add_internal-Unchanged :
      (options : Options) (item : Value D) (b : Builder)
      → IsWellFormed b
      → is_open_object b ≡ false
      → Outcome
          (λ _ _. Unit {0})
          (λ _ b'. Unchanged b b')
          (add_internal (set_value D options item) b)
  unfolding IsWellFormed
  add_internal-Unchanged options item b h other = elim (List-cases b.stack) [
    | inl empty ↦ rw (add_internal-empty (set_value D options item) b empty) (
        weaken-Outcome _ _ _ _ (set_value D options item b) (set_value-SetEffect D options item b)
          (λ _ _ _. tt) (λ _ b' kept. (kept.0, kept.1 other)))
    | inr (top, rest, some) ↦
        let b1 = report_unless_key b in
        rw (add_internal-some (set_value D options item) b top rest some) (
          clean_up-Outcome _ _ _ cleanup_add (set_value D options item b1)
            (weaken-Outcome _ _ (λ _ _. Unit {0}) _ (set_value D options item b1)
              (set_value-SetEffect D options item b1) (λ _ _ _. tt) (λ _ _ kept. kept))
            (λ _ b' kept.
              cleanup-Unchanged b b' top rest some (KeyFits-no_object b h.1 other) kept.0
                (kept.1 (report-no_object b top rest some other))))
  ]
