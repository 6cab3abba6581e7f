-- ===== src/Util/Utf8/Advance.antt =====
-- A round of the loop of `is_valid` reads one scalar value.
use thinger_http.Common.{
  ℕ, ◌+◌, ◌-◌, ◌*◌, ◌<◌, ◌≤◌, ◌≡◌, ap, sym, Bool, Option, none, some, [], ◌∷◌, ◌++◌, leb, ◌==◌,
  ◌&&◌, within, if◌then◌else◌, inl, inr, drop, Bytes, arith,
}
use thinger_http.Common.{Bool-cases}
use thinger_http.Util.Utf8.{is_continuation, two_bytes, three_bytes, four_bytes, advance}
use thinger_http.Util.Utf8.Encoding.{
  IsScalar, encode, encode-two, encode-three, encode-four, encode_one,
}

-- What the loop advances by: the encoding of a scalar value.
abbrev pub Advances : Bytes → Option ℕ → Type 0
Advances bytes none = Unit
Advances bytes (some n) = (c : ℕ) × IsScalar c × (bytes ≡ encode c ++ drop n bytes) × (0 < n)

two_bytes-Advances :
    (b1 : ℕ) (rest : Bytes) → 194 ≤ b1 → b1 ≤ 223 → Advances (b1 ∷ rest) (two_bytes rest)
unfolding two_bytes
two_bytes-Advances b1 [] h1 h2 = tt
two_bytes-Advances b1 (b2 ∷ rest) h1 h2 = elim (Bool-cases (is_continuation b2)) [
  | inl e ↦ rw e (
    (b1 - 192) * 64 + (b2 - 128),
    ground arith,
    ap (λ t. t ++ rest) (sym (encode-two b1 b2 h1 h2 (ground arith) (ground arith))),
    omega arith,
  )
  | inr e ↦ rw e tt
]

abbrev second_of_three : ℕ → ℕ → Bool
second_of_three b1 b2 =
    if b1 == 224
    then within 160 191 b2
    else if b1 == 237
    then within 128 159 b2
    else is_continuation b2

three_bytes-Advances :
    (b1 : ℕ) (rest : Bytes) → 224 ≤ b1 → b1 ≤ 239 → Advances (b1 ∷ rest) (three_bytes b1 rest)
unfolding three_bytes
three_bytes-Advances b1 [] h1 h2 = tt
three_bytes-Advances b1 (b2 ∷ []) h1 h2 = tt
three_bytes-Advances b1 (b2 ∷ b3 ∷ rest) h1 h2 = elim (Bool-cases (is_continuation b3)) [
  | inr e ↦ rw e tt
  | inl e ↦ elim (Bool-cases (second_of_three b1 b2)) [
    | inr d ↦ rw (e, d) tt
    | inl d ↦
        rw (e, d)
          (
            (b1 - 224) * 4096 + (b2 - 128) * 64 + (b3 - 128),
            ground arith,
            ap (λ t. t ++ rest)
                (sym (
                  encode-three b1 b2 b3 h1 h2 (ground arith) (ground arith) (ground arith)
                    (ground arith) (ground arith))),
            omega arith,
          )
  ]
]

abbrev second_of_four : ℕ → ℕ → Bool
second_of_four b1 b2 =
    if b1 == 240
    then within 144 191 b2
    else if b1 == 244
    then within 128 143 b2
    else is_continuation b2

four_bytes-Advances :
    (b1 : ℕ) (rest : Bytes) → 240 ≤ b1 → b1 ≤ 244 → Advances (b1 ∷ rest) (four_bytes b1 rest)
unfolding four_bytes
four_bytes-Advances b1 [] h1 h2 = tt
four_bytes-Advances b1 (b2 ∷ []) h1 h2 = tt
four_bytes-Advances b1 (b2 ∷ b3 ∷ []) h1 h2 = tt
four_bytes-Advances b1 (b2 ∷ b3 ∷ b4 ∷ rest) h1 h2 =
    elim (Bool-cases (is_continuation b3 && is_continuation b4)) [
      | inr e ↦ rw e tt
      | inl e ↦ elim (Bool-cases (second_of_four b1 b2)) [
        | inr d ↦ rw (e, d) tt
        | inl d ↦
            rw (e, d)
              (
                (b1 - 240) * 262144 + (b2 - 128) * 4096 + (b3 - 128) * 64 + (b4 - 128),
                ground arith,
                ap (λ t. t ++ rest)
                    (sym (
                      encode-four b1 b2 b3 b4 h1 h2 (ground arith) (ground arith) (ground arith)
                        (ground arith) (ground arith) (ground arith) (ground arith))),
                omega arith,
              )
      ]
    ]

pub advance-Advances : (b1 : ℕ) (rest : Bytes) → Advances (b1 ∷ rest) (advance b1 rest)
unfolding advance
advance-Advances b1 rest = elim (Bool-cases (leb b1 127)) [
  | inl e ↦
      rw e (b1, ground arith, ap (λ t. t ++ rest) (sym (encode_one b1 (ground arith))), omega arith)
  | inr e1 ↦ elim (Bool-cases (within 194 223 b1)) [
    | inl e ↦ rw (e1, e) (two_bytes-Advances b1 rest (ground arith) (ground arith))
    | inr e2 ↦ elim (Bool-cases (within 224 239 b1)) [
      | inl e ↦ rw (e1, e2, e) (three_bytes-Advances b1 rest (ground arith) (ground arith))
      | inr e3 ↦ elim (Bool-cases (within 240 244 b1)) [
        | inl e ↦ rw (e1, e2, e3, e) (four_bytes-Advances b1 rest (ground arith) (ground arith))
        | inr e ↦ rw (e1, e2, e3, e) tt
      ]
    ]
  ]
]
