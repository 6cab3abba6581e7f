-- ===== src/Util/Utf8/Encoding.antt =====
-- UTF-8 as the standard has it: the bytes of a Unicode scalar value.
use thinger_http.Common.{
  ℕ, ◌+◌, ◌-◌, ◌*◌, ◌/◌, ◌%◌, ◌<◌, ◌≤◌, ◌≡◌, List, [], ◌∷◌, ◌++◌, ltb, if◌then◌else◌, ◌⊎◌, inl, inr,
  length, Bytes, arith,
}
use thinger_http.Common.{Bool-cases}

-- A Unicode scalar value: a code point that is not a surrogate.
abbrev pub IsScalar : ℕ → Type 0
IsScalar c = (c < 55296) ⊎ ((57344 ≤ c) × (c < 1114112))

-- UTF-8 by the table of the standard: the bits of the code point, six to a continuation byte.
unfoldable pub encode : ℕ → Bytes
encode c =
    if ltb c 128
    then c ∷ []
    else if ltb c 2048
    then (192 + c / 64) ∷ (128 + c % 64) ∷ []
    else if ltb c 65536
    then (224 + c / 4096) ∷ (128 + c / 64 % 64) ∷ (128 + c % 64) ∷ []
    else (240 + c / 262144) ∷ (128 + c / 4096 % 64) ∷ (128 + c / 64 % 64) ∷ (128 + c % 64) ∷ []

abbrev pub encode_all : List ℕ → Bytes
encode_all [] = []
encode_all (c ∷ cs) = encode c ++ encode_all cs

pub encode-two :
    (b1 b2 : ℕ)
    → 194 ≤ b1
    → b1 ≤ 223
    → 128 ≤ b2
    → b2 ≤ 191
    → encode ((b1 - 192) * 64 + (b2 - 128)) ≡ b1 ∷ b2 ∷ []
unfolding encode
encode-two b1 b2 h1 h2 h3 h4 = ground arith

pub encode-three :
    (b1 b2 b3 : ℕ)
    → 224 ≤ b1
    → b1 ≤ 239
    → 128 ≤ b2
    → b2 ≤ 191
    → 128 ≤ b3
    → b3 ≤ 191
    → (b1 ≡ 224 → 160 ≤ b2)
    → encode ((b1 - 224) * 4096 + (b2 - 128) * 64 + (b3 - 128)) ≡ b1 ∷ b2 ∷ b3 ∷ []
unfolding encode
encode-three b1 b2 b3 h1 h2 h3 h4 h5 h6 h7 = ground arith

pub encode-four :
    (b1 b2 b3 b4 : ℕ)
    → 240 ≤ b1
    → b1 ≤ 244
    → 128 ≤ b2
    → b2 ≤ 191
    → 128 ≤ b3
    → b3 ≤ 191
    → 128 ≤ b4
    → b4 ≤ 191
    → (b1 ≡ 240 → 144 ≤ b2)
    → encode ((b1 - 240) * 262144 + (b2 - 128) * 4096 + (b3 - 128) * 64 + (b4 - 128))
      ≡ b1 ∷ b2 ∷ b3 ∷ b4 ∷ []
unfolding encode
encode-four b1 b2 b3 b4 h1 h2 h3 h4 h5 h6 h7 h8 h9 = ground arith

pub encode_one : (c : ℕ) → c < 128 → encode c ≡ c ∷ []
unfolding encode
encode_one c h = ground arith

pub encode_two : (c : ℕ) → 128 ≤ c → c < 2048 → encode c ≡ (192 + c / 64) ∷ (128 + c % 64) ∷ []
unfolding encode
encode_two c h1 h2 = ground arith

pub encode_three :
    (c : ℕ)
    → 2048 ≤ c
    → c < 65536
    → encode c ≡ (224 + c / 4096) ∷ (128 + c / 64 % 64) ∷ (128 + c % 64) ∷ []
unfolding encode
encode_three c h1 h2 = ground arith

pub encode_four :
    (c : ℕ)
    → 65536 ≤ c
    → encode c
      ≡ (240 + c / 262144) ∷ (128 + c / 4096 % 64) ∷ (128 + c / 64 % 64) ∷ (128 + c % 64) ∷ []
unfolding encode
encode_four c h = ground arith

pub data Size (c : ℕ) : Type 0 where
  size1 : c < 128 → Size c
  size2 : 128 ≤ c → c < 2048 → Size c
  size3 : 2048 ≤ c → c < 65536 → Size c
  size4 : 65536 ≤ c → Size c

pub Size-of : (c : ℕ) → Size c
Size-of c = elim (Bool-cases (ltb c 128)) [
  | inl e ↦ size1 (ground arith)
  | inr e ↦ elim (Bool-cases (ltb c 2048)) [
    | inl d ↦ size2 (ground arith) (ground arith)
    | inr d ↦ elim (Bool-cases (ltb c 65536)) [
      | inl k ↦ size3 (ground arith) (ground arith)
      | inr k ↦ size4 (ground arith)
    ]
  ]
]

pub encode_pos : (c : ℕ) → 0 < length (encode c)
unfolding encode
encode_pos c = ground arith
