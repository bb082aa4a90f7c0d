-- ===== src/Utf8Helper/Sound.antt =====
-- What the automaton accepts is UTF-8.
use velocypack.Prelude.{
  ℕ, ◌≤◌, ◌<◌, ◌≡◌, refl, List, [], ◌∷◌, ◌⊎◌, inl, inr, if◌then◌else◌, arith, true, Option, none,
  some, Bool-cases, between,
}
use mathlib.Core.Bool.{false≢true}
use velocypack.Utf8Helper.Steps.{
  Mode, start, tail1, tail2, tail3, after_e0, after_ed, after_f0, after_f4, lead, next_mode, run,
  run-cons, run_option,
}
use velocypack.Utf8Helper.Spec.{IsUtf8, prepend_one, prepend_two, prepend_three, prepend_four}

-- A byte in a range, and the rest of the input behind it.
abbrev pub Then : ℕ → ℕ → (List ℕ → Type 0) → List ℕ → Type 0
Then lo hi P bs = (b : ℕ) × (r : List ℕ) × (bs ≡ b ∷ r) × (lo ≤ b) × (b ≤ hi) × P r

-- What the input in front of a mode is, if the automaton accepts it from there.
abbrev pub Follows : Mode → List ℕ → Type 0
Follows start = IsUtf8
Follows tail1 = Then 0x80 0xbf IsUtf8
Follows tail2 = Then 0x80 0xbf (Then 0x80 0xbf IsUtf8)
Follows tail3 = Then 0x80 0xbf (Then 0x80 0xbf (Then 0x80 0xbf IsUtf8))
Follows after_e0 = Then 0xa0 0xbf (Then 0x80 0xbf IsUtf8)
Follows after_ed = Then 0x80 0x9f (Then 0x80 0xbf IsUtf8)
Follows after_f0 = Then 0x90 0xbf (Then 0x80 0xbf (Then 0x80 0xbf IsUtf8))
Follows after_f4 = Then 0x80 0x8f (Then 0x80 0xbf (Then 0x80 0xbf IsUtf8))

-- The lead bytes of each mode.
abbrev Leads : ℕ → Mode → Type 0
Leads b start = b < 0x80
Leads b tail1 = (0xc2 ≤ b) × (b < 0xe0)
Leads b after_e0 = b ≡ 0xe0
Leads b after_ed = b ≡ 0xed
Leads b tail2 = (0xe0 < b) × (b < 0xf0) × ((b < 0xed) ⊎ (0xed < b))
Leads b after_f0 = b ≡ 0xf0
Leads b tail3 = (0xf0 < b) × (b < 0xf4)
Leads b after_f4 = b ≡ 0xf4

lead-Leads : (b : ℕ) (mode : Mode) → lead b ≡ some mode → Leads b mode
lead-Leads b start h = ground arith
lead-Leads b tail1 h = ground arith
lead-Leads b _ h = ground arith

from_lead : (b : ℕ) (bs : List ℕ) (mode : Mode) → Leads b mode → Follows mode bs → IsUtf8 (b ∷ bs)
from_lead b bs start h u = prepend_one b bs h u
from_lead b bs tail1 h (t, r, e, lo, hi, u) = rw e (prepend_two b t r h.0 h.1 lo hi u)
from_lead b bs tail2 h (t, r, e, lo, hi, (t', r', e', lo', hi', u)) =
    rw (e, e')
      (prepend_three b t t' r' (omega arith) (omega arith) lo hi lo' hi' (omega arith) (omega arith)
        u)
from_lead b bs after_e0 h (t, r, e, lo, hi, (t', r', e', lo', hi', u)) =
    rw (e, e')
      (prepend_three b t t' r' (omega arith) (omega arith) (omega arith) hi lo' hi' (omega arith)
        (omega arith) u)
from_lead b bs after_ed h (t, r, e, lo, hi, (t', r', e', lo', hi', u)) =
    rw (e, e')
      (prepend_three b t t' r' (omega arith) (omega arith) lo (omega arith) lo' hi' (omega arith)
        (omega arith) u)
from_lead b bs tail3 h (t, r, e, lo, hi, (t', r', e', lo', hi', (t'', r'', e'', lo'', hi'', u))) =
    rw (e, e', e'')
      (prepend_four b t t' t'' r'' (omega arith) (omega arith) lo hi lo' hi' lo'' hi'' (omega arith)
        (omega arith) u)
from_lead b bs after_f0 h
      (t, r, e, lo, hi, (t', r', e', lo', hi', (t'', r'', e'', lo'', hi'', u))) =
    rw (e, e', e'')
      (prepend_four b t t' t'' r'' (omega arith) (omega arith) (omega arith) hi lo' hi' lo'' hi''
        (omega arith) (omega arith) u)
from_lead b bs after_f4 h
      (t, r, e, lo, hi, (t', r', e', lo', hi', (t'', r'', e'', lo'', hi'', u))) =
    rw (e, e', e'')
      (prepend_four b t t' t'' r'' (omega arith) (omega arith) lo (omega arith) lo' hi' lo'' hi''
        (omega arith) (omega arith) u)

-- One byte of a trailing range.
from_inside :
    (lo hi b : ℕ) (bs : List ℕ) (mode : Mode) (P : List ℕ → Type 0)
    → (run mode bs ≡ true → P bs)
    → run_option (if between lo hi b then some mode else none) bs ≡ true
    → Then lo hi P (b ∷ bs)
from_inside lo hi b bs mode P f h = elim (Bool-cases (between lo hi b)) [
  | inl e ↦ (b, bs, refl, ground arith, ground arith, f (rw e at h))
  | inr e ↦ absurd (false≢true (rw e at h))
]

from_run_option :
    (b : ℕ) (bs : List ℕ) (o : Option Mode)
    → ((mode : Mode) → run mode bs ≡ true → Follows mode bs)
    → lead b ≡ o
    → run_option o bs ≡ true
    → IsUtf8 (b ∷ bs)
from_run_option b bs none ih e h = absurd (false≢true h)
from_run_option b bs (some mode) ih e h = from_lead b bs mode (lead-Leads b mode e) (ih mode h)

run_sound_nil : (mode : Mode) → run mode [] ≡ true → Follows mode []
unfolding run
run_sound_nil start h = ([], tt, refl)
run_sound_nil tail1 h = absurd (false≢true h)
run_sound_nil tail2 h = absurd (false≢true h)
run_sound_nil tail3 h = absurd (false≢true h)
run_sound_nil after_e0 h = absurd (false≢true h)
run_sound_nil after_ed h = absurd (false≢true h)
run_sound_nil after_f0 h = absurd (false≢true h)
run_sound_nil after_f4 h = absurd (false≢true h)

run_sound_cons :
    (b : ℕ) (bs : List ℕ) (mode : Mode)
    → ((mode' : Mode) → run mode' bs ≡ true → Follows mode' bs)
    → run_option (next_mode mode b) bs ≡ true
    → Follows mode (b ∷ bs)
run_sound_cons b bs start ih h = from_run_option b bs (lead b) ih refl h
run_sound_cons b bs tail1 ih h = from_inside 0x80 0xbf b bs start (Follows start) (ih start) h
run_sound_cons b bs tail2 ih h = from_inside 0x80 0xbf b bs tail1 (Follows tail1) (ih tail1) h
run_sound_cons b bs tail3 ih h = from_inside 0x80 0xbf b bs tail2 (Follows tail2) (ih tail2) h
run_sound_cons b bs after_e0 ih h = from_inside 0xa0 0xbf b bs tail1 (Follows tail1) (ih tail1) h
run_sound_cons b bs after_ed ih h = from_inside 0x80 0x9f b bs tail1 (Follows tail1) (ih tail1) h
run_sound_cons b bs after_f0 ih h = from_inside 0x90 0xbf b bs tail2 (Follows tail2) (ih tail2) h
run_sound_cons b bs after_f4 ih h = from_inside 0x80 0x8f b bs tail2 (Follows tail2) (ih tail2) h

pub run_sound : (bs : List ℕ) (mode : Mode) → run mode bs ≡ true → Follows mode bs
run_sound [] mode h = run_sound_nil mode h
run_sound (b ∷ bs) mode h =
    run_sound_cons b bs mode (λ mode' h'. run_sound bs mode' h') (rw (run-cons mode b bs) at h)
