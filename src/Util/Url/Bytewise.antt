-- ===== src/Util/Url/Bytewise.antt =====
-- The decoder on the code of one byte, with any text behind it.
use thinger_http.Common.{
  ℕ, ◌+◌, ◌*◌, ◌/◌, ◌%◌, ◌<◌, ◌≡◌, ◌≢◌, refl, true, ◌||◌, some, [], ◌∷◌, ◌++◌, inl, inr, ◌==◌,
  Bool-cases, Bytes, arith,
}
use thinger_http.Util.Url.{
  hex_digit, hex_char, is_unreserved, percent, url_encode_byte, uri_path_encode_byte, push_front,
  decode_escape, url_decode?,
}

hex_digit-hex_char : (n : ℕ) → n < 16 → hex_digit (hex_char n) ≡ some n
unfolding hex_digit hex_char
hex_digit-hex_char n h = ground arith

pub url_decode?-plain :
    (c : ℕ) (rest : Bytes)
    → c ≢ b'%'
    → c ≢ b'+'
    → url_decode? (c ∷ rest) ≡ push_front c (url_decode? rest)
unfolding url_decode?
url_decode?-plain c [] h k = ground arith
url_decode?-plain c (d ∷ []) h k = ground arith
url_decode?-plain c (d ∷ e ∷ rest) h k = ground arith

pub url_decode?-plus :
    (rest : Bytes) → url_decode? (b'+' ∷ rest) ≡ push_front b' ' (url_decode? rest)
unfolding url_decode?
url_decode?-plus [] = refl
url_decode?-plus (d ∷ []) = refl
url_decode?-plus (d ∷ e ∷ rest) = refl

pub url_decode?-percent :
    (c : ℕ) (rest : Bytes)
    → c < 256
    → url_decode? (percent c ++ rest) ≡ push_front c (url_decode? rest)
unfolding url_decode? percent
url_decode?-percent c rest h =
    let joined : c / 16 * 16 + c % 16 ≡ c = omega arith in
    rw (
      hex_digit-hex_char (c / 16) (omega arith),
      hex_digit-hex_char (c % 16) (omega arith),
      decode_escape,
      joined,
    )

pub is_unreserved-ne : (c : ℕ) → is_unreserved c ≡ true → (c ≢ b'%') × (c ≢ b'+')
unfolding is_unreserved
is_unreserved-ne c h = ground arith

pub url_decode?-url_encode_byte :
    (c : ℕ) (rest : Bytes)
    → c < 256
    → url_decode? (url_encode_byte c ++ rest) ≡ push_front c (url_decode? rest)
unfolding url_encode_byte
url_decode?-url_encode_byte c rest h = elim (Bool-cases (is_unreserved c)) [
  | inl kept ↦
      rw kept (url_decode?-plain c rest (is_unreserved-ne c kept).0 (is_unreserved-ne c kept).1)
  | inr coded ↦ rw coded (url_decode?-percent c rest h)
]

uri_kept-ne : (c : ℕ) → (is_unreserved c || c == b'/') ≡ true → (c ≢ b'%') × (c ≢ b'+')
unfolding is_unreserved
uri_kept-ne c h = ground arith

pub url_decode?-uri_path_encode_byte :
    (c : ℕ) (rest : Bytes)
    → c < 256
    → url_decode? (uri_path_encode_byte c ++ rest) ≡ push_front c (url_decode? rest)
unfolding uri_path_encode_byte
url_decode?-uri_path_encode_byte c rest h = elim (Bool-cases (is_unreserved c || c == b'/')) [
  | inl kept ↦
      let (not_percent, not_plus) = uri_kept-ne c kept in
      rw kept (url_decode?-plain c rest not_percent not_plus)
  | inr coded ↦ rw coded (url_decode?-percent c rest h)
]
