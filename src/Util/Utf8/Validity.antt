-- ===== src/Util/Utf8/Validity.antt =====
-- The validator accepts the encodings of sequences of Unicode scalar values, and nothing else.
use thinger_http.Common.{
  ℕ, suc, zero, ◌<◌, ◌≤◌, ◌≡◌, ◌↔◌, refl, ap, ◌∙◌, true, false, Option, none, some, List, [], ◌∷◌,
  ◌++◌, All, length, length-append, drop, Bytes, arith,
}
use thinger_http.Util.Utf8.{two_bytes, three_bytes, four_bytes, advance, valid_loop, is_valid}
use thinger_http.Util.Utf8.Encoding.{
  IsScalar, encode, encode_all, encode_one, encode_two, encode_three, encode_four, size1, size2,
  size3, size4, Size-of, encode_pos,
}
use thinger_http.Util.Utf8.Advance.{Advances, advance-Advances}

valid_loop-advance :
    (f b1 n : ℕ) (rest : Bytes)
    → advance b1 rest ≡ some n
    → valid_loop (suc f) (b1 ∷ rest) ≡ valid_loop f (drop n (b1 ∷ rest))
unfolding valid_loop
valid_loop-advance f b1 n rest e = rw (valid_loop, e) refl

advance_one : (c : ℕ) (rest : Bytes) → c < 128 → advance c rest ≡ some 1
unfolding advance
advance_one c rest h = ground arith

advance_two :
    (b1 b2 : ℕ) (rest : Bytes)
    → 194 ≤ b1
    → b1 ≤ 223
    → 128 ≤ b2
    → b2 ≤ 191
    → advance b1 (b2 ∷ rest) ≡ some 2
unfolding advance two_bytes
advance_two b1 b2 rest h1 h2 h3 h4 = ground arith

advance_three :
    (b1 b2 b3 : ℕ) (rest : Bytes)
    → 224 ≤ b1
    → b1 ≤ 239
    → 128 ≤ b2
    → b2 ≤ 191
    → 128 ≤ b3
    → b3 ≤ 191
    → (b1 ≡ 224 → 160 ≤ b2)
    → (b1 ≡ 237 → b2 ≤ 159)
    → advance b1 (b2 ∷ b3 ∷ rest) ≡ some 3
unfolding advance three_bytes
advance_three b1 b2 b3 rest h1 h2 h3 h4 h5 h6 h7 h8 = ground arith

advance_four :
    (b1 b2 b3 b4 : ℕ) (rest : Bytes)
    → 240 ≤ b1
    → b1 ≤ 244
    → 128 ≤ b2
    → b2 ≤ 191
    → 128 ≤ b3
    → b3 ≤ 191
    → 128 ≤ b4
    → b4 ≤ 191
    → (b1 ≡ 240 → 144 ≤ b2)
    → (b1 ≡ 244 → b2 ≤ 143)
    → advance b1 (b2 ∷ b3 ∷ b4 ∷ rest) ≡ some 4
unfolding advance four_bytes
advance_four b1 b2 b3 b4 rest h1 h2 h3 h4 h5 h6 h7 h8 h9 h10 = ground arith

-- One round of the loop reads one scalar value.
pub valid_loop-encode :
    (f c : ℕ) (rest : Bytes)
    → IsScalar c
    → valid_loop (suc f) (encode c ++ rest) ≡ valid_loop f rest
valid_loop-encode f c rest s = elim (Size-of c) [
  | size1 h ↦ rw (encode_one c h) (valid_loop-advance f c 1 rest (advance_one c rest h))
  | size2 h k ↦ rw (encode_two c h k) (
      valid_loop-advance f _ 2 _
        (advance_two _ _ rest (omega arith) (omega arith) (omega arith) (omega arith)))
  | size3 h k ↦ rw (encode_three c h k) (
      valid_loop-advance f _ 3 _ (
        advance_three _ _ _ rest (omega arith) (omega arith) (omega arith) (omega arith)
          (omega arith) (omega arith) (omega arith) (omega arith)))
  | size4 h ↦ rw (encode_four c h) (
      valid_loop-advance f _ 4 _ (
        advance_four _ _ _ _ rest (omega arith) (omega arith) (omega arith) (omega arith)
          (omega arith) (omega arith) (omega arith) (omega arith) (omega arith) (omega arith)))
]

valid_loop-encode_all :
    (f : ℕ) (cs : List ℕ)
    → All IsScalar cs
    → length (encode_all cs) ≤ f
    → valid_loop f (encode_all cs) ≡ true
valid_loop-encode_all f [] s le = unfold valid_loop in refl
valid_loop-encode_all zero (c ∷ cs) (s, ss) le =
    absurd (omega (arith, encode_pos c, length-append (encode c) (encode_all cs)))
valid_loop-encode_all (suc f) (c ∷ cs) (s, ss) le =
    valid_loop-encode f c (encode_all cs) s
    ∙ valid_loop-encode_all f cs ss
        (omega (arith, encode_pos c, length-append (encode c) (encode_all cs)))

abbrev IsEncoded : Bytes → Type 0
IsEncoded bytes = (cs : List ℕ) × All IsScalar cs × (bytes ≡ encode_all cs)

round-IsEncoded :
    (f : ℕ) (bytes : Bytes) (o : Option ℕ)
    → ((rest : Bytes) → valid_loop f rest ≡ true → IsEncoded rest)
    → Advances bytes o
    → elim o [ none ↦ false | some n ↦ valid_loop f (drop n bytes) ] ≡ true
    → IsEncoded bytes
round-IsEncoded f bytes none ih a e = cc
round-IsEncoded f bytes (some n) ih (c, s, p, pos) e =
    let (cs, ss, q) = ih (drop n bytes) e in (c ∷ cs, (s, ss), p ∙ ap (λ t. encode c ++ t) q)

valid_loop-IsEncoded : (f : ℕ) (bytes : Bytes) → valid_loop f bytes ≡ true → IsEncoded bytes
unfolding valid_loop
valid_loop-IsEncoded f [] e = ([], tt, refl)
valid_loop-IsEncoded zero (b1 ∷ rest) e = cc
valid_loop-IsEncoded (suc f) (b1 ∷ rest) e =
    round-IsEncoded f (b1 ∷ rest) (advance b1 rest) (λ t. valid_loop-IsEncoded f t)
      (advance-Advances b1 rest) e

-- A text is valid exactly if it is the encoding of some sequence of Unicode scalar values: no
-- overlong form, no surrogate, nothing above U+10FFFF and no sequence that is cut short.
pub is_valid-encode_all :
    (bytes : Bytes)
    → (is_valid bytes ≡ true) ↔ ((cs : List ℕ) × All IsScalar cs × (bytes ≡ encode_all cs))
unfolding is_valid
is_valid-encode_all bytes = (
  valid_loop-IsEncoded (length bytes) bytes,
  λ (cs, ss, p). ap is_valid p ∙ valid_loop-encode_all (length (encode_all cs)) cs ss (omega arith),
)
