-- ===== src/Utf8Helper/Steps.antt =====
-- The transition table read as byte ranges, with a mode for each state of the automaton.
use velocypack.Prelude.{
  ℕ, zero, suc, ◌+◌, ◌<◌, ◌≡◌, refl, ◌∙◌, sym, ◌⊎◌, inl, inr, List, [], ◌∷◌, Bool, true, false,
  Option, none, some, ltb, ◌==◌, ==_iff, between, if◌then◌else◌, all_below, all_below_sound,
}
use velocypack.Memory.{Memory, bytes_at, IsByteMemory}
use velocypack.Utf8Helper.{states, next_state, valid_loop}

-- What has been read of the current character: nothing; all but one, two or three trailing bytes; or a
-- lead byte that restricts the byte behind it.
pub data Mode : Type 0 where
  start tail1 tail2 tail3 after_e0 after_ed after_f0 after_f4 : Mode

abbrev pub code : Mode → ℕ
code start = 0
code tail1 = 2
code tail2 = 3
code after_e0 = 4
code after_ed = 5
code after_f0 = 6
code tail3 = 7
code after_f4 = 8

abbrev pub code? : Option Mode → ℕ
code? none = 1
code? (some m) = code m

abbrev pub lead : ℕ → Option Mode
lead b =
    if ltb b 0x80
    then some start
    else if ltb b 0xc2
    then none
    else if ltb b 0xe0
    then some tail1
    else if b == 0xe0
    then some after_e0
    else if b == 0xed
    then some after_ed
    else if ltb b 0xf0
    then some tail2
    else if b == 0xf0
    then some after_f0
    else if ltb b 0xf4
    then some tail3
    else if b == 0xf4
    then some after_f4
    else none

abbrev inside : ℕ → ℕ → Mode → ℕ → Option Mode
inside lo hi m b = if between lo hi b then some m else none

abbrev pub next_mode : Mode → ℕ → Option Mode
next_mode start b = lead b
next_mode tail1 b = inside 0x80 0xbf start b
next_mode tail2 b = inside 0x80 0xbf tail1 b
next_mode tail3 b = inside 0x80 0xbf tail2 b
next_mode after_e0 b = inside 0xa0 0xbf tail1 b
next_mode after_ed b = inside 0x80 0x9f tail1 b
next_mode after_f0 b = inside 0x90 0xbf tail2 b
next_mode after_f4 b = inside 0x80 0x8f tail2 b

agrees : Mode → Bool
agrees mode = all_below 256 (λ b. next_state (code mode) b == code? (next_mode mode b))

agrees_all : (mode : Mode) → agrees mode ≡ true
unfolding agrees all_below next_state states
agrees_all start = refl
agrees_all tail1 = refl
agrees_all tail2 = refl
agrees_all tail3 = refl
agrees_all after_e0 = refl
agrees_all after_ed = refl
agrees_all after_f0 = refl
agrees_all after_f4 = refl

pub next_state-next_mode :
    (mode : Mode) (b : ℕ) → b < 256 → next_state (code mode) b ≡ code? (next_mode mode b)
unfolding agrees
next_state-next_mode mode b h = (==_iff _ _).0 (all_below_sound 256 _ b (agrees_all mode) h)

-- The automaton over a list of bytes.
unfoldable pub run : Mode → List ℕ → Bool
run start [] = true
run _ [] = false
run mode (b ∷ bs) = elim (next_mode mode b) [ none ↦ false | some mode' ↦ run mode' bs ]

abbrev pub run_option : Option Mode → List ℕ → Bool
run_option o bs = elim o [ none ↦ false | some mode ↦ run mode bs ]

pub run-cons :
    (mode : Mode) (b : ℕ) (bs : List ℕ) → run mode (b ∷ bs) ≡ run_option (next_mode mode b) bs
unfolding run
run-cons start b bs = refl
run-cons tail1 b bs = refl
run-cons _ b bs = refl

code?-cases : (o : Option Mode) → (o ≡ none) ⊎ ((code? o == 1) ≡ false)
code?-cases none = inl refl
code?-cases (some start) = inr refl
code?-cases (some _) = inr refl

valid_loop_end : (m : Memory) (p : ℕ) (mode : Mode) → valid_loop 0 m p (code mode) ≡ run mode []
unfolding valid_loop run
valid_loop_end m p start = refl
valid_loop_end m p tail1 = refl
valid_loop_end m p _ = refl

valid_loop_step :
    (n : ℕ) (m : Memory) (p state : ℕ) (o : Option Mode)
    → next_state state (m p) ≡ code? o
    → valid_loop (suc n) m p state
      ≡ elim o [ none ↦ false | some mode ↦ valid_loop n m (p + 1) (code mode) ]
unfolding valid_loop
valid_loop_step n m p state none e = rw e
valid_loop_step n m p state (some start) e = rw e
valid_loop_step n m p state (some _) e = rw e

after_step :
    (n : ℕ) (m : Memory) (p : ℕ)
    → ((mode : Mode) → valid_loop n m (p + 1) (code mode) ≡ run mode (bytes_at m (p + 1) n))
    → (o : Option Mode)
    → (elim o [ none ↦ false | some mode ↦ valid_loop n m (p + 1) (code mode) ])
      ≡ run_option o (bytes_at m (p + 1) n)
after_step n m p ih none = refl
after_step n m p ih (some mode) = ih mode

-- The loop over memory is the automaton over the bytes that it reads.
pub valid_loop-run :
    (n : ℕ) (m : Memory) (p : ℕ) (mode : Mode)
    → IsByteMemory m
    → valid_loop n m p (code mode) ≡ run mode (bytes_at m p n)
valid_loop-run zero m p mode b = unfold bytes_at in valid_loop_end m p mode
valid_loop-run (suc n) m p mode b =
    valid_loop_step n m p (code mode) (next_mode mode (m p)) (next_state-next_mode mode (m p) (b p))
    ∙ after_step n m p (λ mode'. valid_loop-run n m (p + 1) mode' b) (next_mode mode (m p))
    ∙ sym (unfold bytes_at in run-cons mode (m p) (bytes_at m (p + 1) n))
