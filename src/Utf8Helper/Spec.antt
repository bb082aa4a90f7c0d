-- ===== src/Utf8Helper/Spec.antt =====
-- UTF-8 as RFC 3629 defines it: the encodings of the Unicode scalar values, one after the other.
use velocypack.Prelude.{
  ℕ, ◌+◌, ◌-◌, ◌*◌, ◌/◌, ◌%◌, ◌≤◌, ◌<◌, ◌≡◌, ap, List, [], ◌∷◌, ◌++◌, ◌⊎◌, inl, ltb, if◌then◌else◌,
  arith, All,
}

-- A code point that is no surrogate.
abbrev pub IsScalar : ℕ → Type 0
IsScalar c = (c < 0xd800) ⊎ ((0xe000 ≤ c) × (c < 0x110000))

-- A trailing byte with six bits.
abbrev trail : ℕ → ℕ
trail c = 0x80 + c % 64

abbrev pub encode : ℕ → List ℕ
encode c =
    if ltb c 0x80
    then c ∷ []
    else if ltb c 0x800
    then (0xc0 + c / 64) ∷ trail c ∷ []
    else if ltb c 0x10000
    then (0xe0 + c / 4096) ∷ trail (c / 64) ∷ trail c ∷ []
    else (0xf0 + c / 262144) ∷ trail (c / 4096) ∷ trail (c / 64) ∷ trail c ∷ []

abbrev pub encode_all : List ℕ → List ℕ
encode_all [] = []
encode_all (c ∷ cs) = encode c ++ encode_all cs

-- The bytes are the encodings of some scalar values.
abbrev pub IsUtf8 : List ℕ → Type 0
IsUtf8 bs = (cs : List ℕ) × All IsScalar cs × (bs ≡ encode_all cs)

encode_one : (c : ℕ) → c < 0x80 → encode c ≡ c ∷ []
encode_one c h = ground arith

encode_two :
    (b t : ℕ)
    → 0xc2 ≤ b
    → b < 0xe0
    → 0x80 ≤ t
    → t ≤ 0xbf
    → encode ((b - 0xc0) * 64 + (t - 0x80)) ≡ b ∷ t ∷ []
encode_two b t h1 h2 h3 h4 = ground arith

encode_three :
    (b t u : ℕ)
    → 0xe0 ≤ b
    → b < 0xf0
    → 0x80 ≤ t
    → t ≤ 0xbf
    → 0x80 ≤ u
    → u ≤ 0xbf
    → 0x800 ≤ (b - 0xe0) * 4096 + (t - 0x80) * 64
    → encode ((b - 0xe0) * 4096 + (t - 0x80) * 64 + (u - 0x80)) ≡ b ∷ t ∷ u ∷ []
encode_three b t u h1 h2 h3 h4 h5 h6 h7 = ground arith

encode_four :
    (b t u v : ℕ)
    → 0xf0 ≤ b
    → b ≤ 0xf4
    → 0x80 ≤ t
    → t ≤ 0xbf
    → 0x80 ≤ u
    → u ≤ 0xbf
    → 0x80 ≤ v
    → v ≤ 0xbf
    → 0x10000 ≤ (b - 0xf0) * 262144 + (t - 0x80) * 4096
    → encode ((b - 0xf0) * 262144 + (t - 0x80) * 4096 + (u - 0x80) * 64 + (v - 0x80))
      ≡ b ∷ t ∷ u ∷ v ∷ []
encode_four b t u v h1 h2 h3 h4 h5 h6 h7 h8 h9 = ground arith

-- A character in front of UTF-8.
prepend : (c : ℕ) (bs : List ℕ) → IsScalar c → IsUtf8 bs → IsUtf8 (encode c ++ bs)
prepend c bs h (cs, all, e) = (c ∷ cs, (h, all), ap (λ r. encode c ++ r) e)

pub prepend_one : (b : ℕ) (bs : List ℕ) → b < 0x80 → IsUtf8 bs → IsUtf8 (b ∷ bs)
prepend_one b bs h u = rw (encode_one b h) at (prepend b bs (inl (omega arith)) u)

pub prepend_two :
    (b t : ℕ) (bs : List ℕ)
    → 0xc2 ≤ b
    → b < 0xe0
    → 0x80 ≤ t
    → t ≤ 0xbf
    → IsUtf8 bs
    → IsUtf8 (b ∷ t ∷ bs)
prepend_two b t bs h1 h2 h3 h4 u =
    rw (encode_two b t h1 h2 h3 h4) at
      (prepend ((b - 0xc0) * 64 + (t - 0x80)) bs (inl (omega arith)) u)

pub prepend_three :
    (b t u : ℕ) (bs : List ℕ)
    → 0xe0 ≤ b
    → b < 0xf0
    → 0x80 ≤ t
    → t ≤ 0xbf
    → 0x80 ≤ u
    → u ≤ 0xbf
    → 0x800 ≤ (b - 0xe0) * 4096 + (t - 0x80) * 64
    → (b < 0xed) ⊎ ((t < 0xa0) × (b ≡ 0xed)) ⊎ (0xed < b)
    → IsUtf8 bs
    → IsUtf8 (b ∷ t ∷ u ∷ bs)
prepend_three b t u bs h1 h2 h3 h4 h5 h6 h7 h8 w =
    rw (encode_three b t u h1 h2 h3 h4 h5 h6 h7) at
      (prepend ((b - 0xe0) * 4096 + (t - 0x80) * 64 + (u - 0x80)) bs (omega arith) w)

pub prepend_four :
    (b t u v : ℕ) (bs : List ℕ)
    → 0xf0 ≤ b
    → b ≤ 0xf4
    → 0x80 ≤ t
    → t ≤ 0xbf
    → 0x80 ≤ u
    → u ≤ 0xbf
    → 0x80 ≤ v
    → v ≤ 0xbf
    → 0x10000 ≤ (b - 0xf0) * 262144 + (t - 0x80) * 4096
    → (b < 0xf4) ⊎ (t ≤ 0x8f)
    → IsUtf8 bs
    → IsUtf8 (b ∷ t ∷ u ∷ v ∷ bs)
prepend_four b t u v bs h1 h2 h3 h4 h5 h6 h7 h8 h9 h10 w =
    rw (encode_four b t u v h1 h2 h3 h4 h5 h6 h7 h8 h9) at (
      prepend ((b - 0xf0) * 262144 + (t - 0x80) * 4096 + (u - 0x80) * 64 + (v - 0x80)) bs
        (omega arith) w)
