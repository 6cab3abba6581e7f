-- ===== src/Tests/Utf8Validation.antt =====
-- The UTF-8 validator at concrete inputs.
use thinger_http.Common.{
  ℕ, suc, zero, ap, some, inl, arith, length, ◌++◌, Bytes, ◌≡◌, ◌↔◌, refl, true, false, List, [],
  ◌∷◌, All,
}
use thinger_http.Util.Utf8.{is_valid, file_is_valid}
use thinger_http.Util.Utf8.Encoding.{IsScalar, encode_all}
use thinger_http.Util.Utf8.Files.{IsAscii, file_is_valid_cut}
use thinger_http.Util.Utf8.Validity.{is_valid-encode_all}

is_valid-encode_all_example :
    (is_valid (226 ∷ 130 ∷ 172 ∷ 65 ∷ []) ≡ true)
    ↔ ((cs : List ℕ) × All IsScalar cs × (226 ∷ 130 ∷ 172 ∷ 65 ∷ [] ≡ encode_all cs))
is_valid-encode_all_example = is_valid-encode_all (226 ∷ 130 ∷ 172 ∷ 65 ∷ [])

euro : is_valid (226 ∷ 130 ∷ 172 ∷ 65 ∷ []) ≡ true
unfolding is_valid
euro = refl

surrogate : is_valid (237 ∷ 160 ∷ 128 ∷ []) ≡ false
unfolding is_valid
surrogate = refl

letters : ℕ → Bytes
letters zero = []
letters (suc n) = b'a' ∷ letters n

letters-IsAscii : (n : ℕ) → All IsAscii (letters n)
unfolding letters
letters-IsAscii zero = tt
letters-IsAscii (suc n) = (omega arith, letters-IsAscii n)

length-letters : (n : ℕ) → length (letters n) ≡ n
unfolding letters
length-letters zero = refl
length-letters (suc n) = ap suc (length-letters n)

file_is_valid_cut_example :
    let text = encode_all (letters 4095 ++ 233 ∷ []) in
    (is_valid text ≡ true) × (file_is_valid (some text) ≡ false)
file_is_valid_cut_example =
    file_is_valid_cut (letters 4095) [] 233 (letters-IsAscii 4095) (length-letters 4095)
      (omega arith) (inl (omega arith), tt)
