-- ===== src/Utf8Helper/Complete.antt =====
-- The automaton accepts UTF-8.
use velocypack.Prelude.{
  ℕ, ◌+◌, ◌/◌, ◌%◌, ◌≤◌, ◌<◌, ◌≡◌, refl, ap, ◌∙◌, List, [], ◌∷◌, ◌++◌, ◌⊎◌, ◌≢◌, inl, inr, ltb,
  arith, All, true, some, Bool-cases, ltb→lt, ltb→ge,
}
use velocypack.Utf8Helper.Steps.{
  Mode, start, tail1, tail2, tail3, after_e0, after_ed, after_f0, after_f4, next_mode, run,
  run-cons, run_option,
}
use velocypack.Utf8Helper.Spec.{IsScalar, encode, encode_all}

-- The automaton consumes an encoded character.
run-byte :
    (mode : Mode) (b : ℕ) (bs : List ℕ) {mode' : Mode}
    → next_mode mode b ≡ some mode'
    → run mode (b ∷ bs) ≡ run mode' bs
run-byte mode b bs e = run-cons mode b bs ∙ ap (λ o. run_option o bs) e

run_tail1 : (t : ℕ) (bs : List ℕ) → 0x80 ≤ t → t ≤ 0xbf → run tail1 (t ∷ bs) ≡ run start bs
run_tail1 t bs lo hi = run-byte tail1 t bs (ground arith)

run_tail2 :
    (t u : ℕ) (bs : List ℕ)
    → 0x80 ≤ t
    → t ≤ 0xbf
    → 0x80 ≤ u
    → u ≤ 0xbf
    → run tail2 (t ∷ u ∷ bs) ≡ run start bs
run_tail2 t u bs lo hi lo' hi' = run-byte tail2 t (u ∷ bs) (ground arith) ∙ run_tail1 u bs lo' hi'

run_two :
    (b t : ℕ) (bs : List ℕ)
    → 0xc2 ≤ b
    → b < 0xe0
    → 0x80 ≤ t
    → t ≤ 0xbf
    → run start (b ∷ t ∷ bs) ≡ run start bs
run_two b t bs h1 h2 lo hi = run-byte start b (t ∷ bs) (ground arith) ∙ run_tail1 t bs lo hi

-- The lead bytes of three, by the range of the byte behind them.
run_three :
    (b t u : ℕ) (bs : List ℕ)
    → ((b ≡ 0xe0) × (0xa0 ≤ t)) ⊎ ((b ≡ 0xed) × (t ≤ 0x9f)) ⊎ ((0xe0 < b) × (b < 0xf0) × (b ≢ 0xed))
    → 0x80 ≤ t
    → t ≤ 0xbf
    → 0x80 ≤ u
    → u ≤ 0xbf
    → run start (b ∷ t ∷ u ∷ bs) ≡ run start bs
run_three b t u bs (inl (e, h)) lo hi lo' hi' =
    run-byte start b (t ∷ u ∷ bs) {mode' = after_e0} (ground arith)
    ∙ run-byte after_e0 t (u ∷ bs) (ground arith)
    ∙ run_tail1 u bs lo' hi'
run_three b t u bs (inr (inl (e, h))) lo hi lo' hi' =
    run-byte start b (t ∷ u ∷ bs) {mode' = after_ed} (ground arith)
    ∙ run-byte after_ed t (u ∷ bs) (ground arith)
    ∙ run_tail1 u bs lo' hi'
run_three b t u bs (inr (inr h)) lo hi lo' hi' =
    run-byte start b (t ∷ u ∷ bs) {mode' = tail2} (ground arith) ∙ run_tail2 t u bs lo hi lo' hi'

run_four :
    (b t u v : ℕ) (bs : List ℕ)
    → ((b ≡ 0xf0) × (0x90 ≤ t)) ⊎ ((b ≡ 0xf4) × (t ≤ 0x8f)) ⊎ ((0xf0 < b) × (b < 0xf4))
    → 0x80 ≤ t
    → t ≤ 0xbf
    → 0x80 ≤ u
    → u ≤ 0xbf
    → 0x80 ≤ v
    → v ≤ 0xbf
    → run start (b ∷ t ∷ u ∷ v ∷ bs) ≡ run start bs
run_four b t u v bs (inl (e, h)) lo hi lo' hi' lo'' hi'' =
    run-byte start b (t ∷ u ∷ v ∷ bs) {mode' = after_f0} (ground arith)
    ∙ run-byte after_f0 t (u ∷ v ∷ bs) (ground arith)
    ∙ run_tail2 u v bs lo' hi' lo'' hi''
run_four b t u v bs (inr (inl (e, h))) lo hi lo' hi' lo'' hi'' =
    run-byte start b (t ∷ u ∷ v ∷ bs) {mode' = after_f4} (ground arith)
    ∙ run-byte after_f4 t (u ∷ v ∷ bs) (ground arith)
    ∙ run_tail2 u v bs lo' hi' lo'' hi''
run_four b t u v bs (inr (inr h)) lo hi lo' hi' lo'' hi'' =
    run-byte start b (t ∷ u ∷ v ∷ bs) {mode' = tail3} (ground arith)
    ∙ run-byte tail3 t (u ∷ v ∷ bs) (ground arith)
    ∙ run_tail2 u v bs lo' hi' lo'' hi''

run-encode : (c : ℕ) (bs : List ℕ) → IsScalar c → run start (encode c ++ bs) ≡ run start bs
run-encode c bs h = elim (Bool-cases (ltb c 0x80)) [
  | inl e ↦ rw e (run-byte start c bs (ground arith))
  | inr e ↦ rw e (elim (Bool-cases (ltb c 0x800)) [
    | inl e' ↦ rw e' (run_two _ _ bs (ground arith) (ground arith) (omega arith) (omega arith))
    | inr e' ↦ rw e' (elim (Bool-cases (ltb c 0x10000)) [
      | inl e'' ↦ rw e'' (
          run_three _ _ _ bs (three (ltb→ge c 0x800 e') (ltb→lt c 0x10000 e'')) (omega arith)
            (omega arith) (omega arith) (omega arith))
      | inr e'' ↦ rw e'' (
          run_four _ _ _ _ bs (four (ltb→ge c 0x10000 e'')) (omega arith) (omega arith)
            (omega arith) (omega arith) (omega arith) (omega arith))
    ])
  ])
]
  where
    three :
        0x800 ≤ c
        → c < 0x10000
        → ((0xe0 + c / 4096 ≡ 0xe0) × (0xa0 ≤ 0x80 + c / 64 % 64))
          ⊎ ((0xe0 + c / 4096 ≡ 0xed) × (0x80 + c / 64 % 64 ≤ 0x9f))
          ⊎ ((0xe0 < 0xe0 + c / 4096) × (0xe0 + c / 4096 < 0xf0) × (0xe0 + c / 4096 ≢ 0xed))
    three lo hi = grind arith

    four :
        0x10000 ≤ c
        → ((0xf0 + c / 262144 ≡ 0xf0) × (0x90 ≤ 0x80 + c / 4096 % 64))
          ⊎ ((0xf0 + c / 262144 ≡ 0xf4) × (0x80 + c / 4096 % 64 ≤ 0x8f))
          ⊎ ((0xf0 < 0xf0 + c / 262144) × (0xf0 + c / 262144 < 0xf4))
    four lo = grind arith

pub run_complete : (cs : List ℕ) → All IsScalar cs → run start (encode_all cs) ≡ true
run_complete [] h = unfold run in refl
run_complete (c ∷ cs) h = run-encode c (encode_all cs) h.0 ∙ run_complete cs h.1
