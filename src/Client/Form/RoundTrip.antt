-- ===== src/Client/Form/RoundTrip.antt =====
-- A server reads the fields of a form that is sent URL-encoded.
use thinger_http.Common.{
  ℕ, ◌<◌, ◌≡◌, refl, sym, ap, ◌∙◌, false, inl, inr, some, List, [], ◌∷◌, ◌++◌, ◌==◌, append_assoc,
  append-nil, if_false, Bool-cases, Bytes, IsBytes, All, All-append, is_empty, arith,
}
use thinger_http.Util.Url.{
  Multimap, is_unreserved, percent, url_decode?, push_front, parse_url_encoded_data,
}
use thinger_http.Util.Url.Bytewise.{
  url_decode?-plain, url_decode?-plus, url_decode?-percent, is_unreserved-ne,
}
use thinger_http.Util.Url.Pairs.{
  IsPlain, Encodes, IsPair, emplace_all, pair_text, later_text, pairs_text, percent-IsPlain,
  is_unreserved-IsPlain, parse_url_encoded_data-pairs_text,
}
use thinger_http.Client.Form.{
  Form, form_encode_byte, form_encode, append_fields, build_urlencoded, is_multipart, body,
}

form_encode_byte-IsPlain : (c : ℕ) → c < 256 → All IsPlain (form_encode_byte c)
unfolding form_encode_byte
form_encode_byte-IsPlain c h = elim (Bool-cases (is_unreserved c)) [
  | inl e ↦ rw (e) (is_unreserved-IsPlain c e, tt)
  | inr e ↦ rw (e) (elim (Bool-cases (c == b' ')) [
    | inl space ↦ rw (space) (ground arith, tt)
    | inr other ↦ rw (other) (percent-IsPlain c h)
  ])
]

form_encode-IsPlain : (value : Bytes) → IsBytes value → All IsPlain (form_encode value)
unfolding form_encode
form_encode-IsPlain [] h = tt
form_encode-IsPlain (c ∷ value) h =
    All-append IsPlain (form_encode_byte c) (form_encode value) (form_encode_byte-IsPlain c h.0)
      (form_encode-IsPlain value h.1)

url_decode?-form_encode_byte :
    (c : ℕ) (rest : Bytes)
    → c < 256
    → url_decode? (form_encode_byte c ++ rest) ≡ push_front c (url_decode? rest)
unfolding form_encode_byte
url_decode?-form_encode_byte c rest h = elim (Bool-cases (is_unreserved c)) [
  | inl e ↦ rw (e) (url_decode?-plain c rest (is_unreserved-ne c e).0 (is_unreserved-ne c e).1)
  | inr e ↦ rw (e) (elim (Bool-cases (c == b' ')) [
    | inl space ↦
        let is : b' ' ≡ c = ground (arith, space) in
        rw (space) (url_decode?-plus rest ∙ ap (λ d. push_front d (url_decode? rest)) is)
    | inr other ↦ rw (other) (url_decode?-percent c rest h)
  ])
]

url_decode?-form_encode :
    (value : Bytes) → IsBytes value → url_decode? (form_encode value) ≡ some value
unfolding form_encode
url_decode?-form_encode [] h = unfold url_decode? in refl
url_decode?-form_encode (c ∷ value) (b, h) =
    url_decode?-form_encode_byte c (form_encode value) b
    ∙ ap (push_front c) (url_decode?-form_encode value h)

form_encode-keeps : (c : ℕ) (value : Bytes) → is_empty (form_encode (c ∷ value)) ≡ false
unfolding form_encode form_encode_byte percent
form_encode-keeps c value = ground arith

form_encode-Encodes : Encodes form_encode
form_encode-Encodes = record {
  plain = form_encode-IsPlain;
  decodes = url_decode?-form_encode;
  keeps = form_encode-keeps;
}

abbrev text_of : Bytes × Bytes → Bytes
text_of entry = pair_text form_encode form_encode-Encodes entry

not_empty : (xs ys : Bytes) → is_empty (xs ++ b'=' ∷ ys) ≡ false
not_empty [] ys = refl
not_empty (x ∷ xs) ys = refl

pub append_not_empty : (xs ys : Bytes) → is_empty ys ≡ false → is_empty (xs ++ ys) ≡ false
append_not_empty [] ys h = h
append_not_empty (x ∷ xs) ys h = refl

append_fields-later_text :
    (result : Bytes) (pairs : List (Bytes × Bytes))
    → is_empty result ≡ false
    → append_fields result pairs ≡ result ++ later_text form_encode form_encode-Encodes pairs
unfolding append_fields
append_fields-later_text result [] h = sym (append-nil result)
append_fields-later_text result ((name, value) ∷ pairs) h =
    let pair = text_of (name, value) in
    rw (h) (
      append_fields-later_text ((result ++ b'&' ∷ []) ++ pair) pairs (
        append_not_empty (result ++ b'&' ∷ []) pair
          (not_empty (form_encode name) (form_encode value)))
      ∙ append_assoc (result ++ b'&' ∷ []) pair (later_text form_encode form_encode-Encodes pairs)
      ∙ append_assoc result (b'&' ∷ []) (pair ++ later_text form_encode form_encode-Encodes pairs))

append_fields-pairs_text :
    (pairs : List (Bytes × Bytes))
    → append_fields [] pairs ≡ pairs_text form_encode form_encode-Encodes pairs
unfolding append_fields
append_fields-pairs_text [] = refl
append_fields-pairs_text ((name, value) ∷ pairs) =
    append_fields-later_text (text_of (name, value)) pairs
      (not_empty (form_encode name) (form_encode value))

-- For a form without files whose fields are of bytes (numbers below 256) and have names that are
-- not empty: the parser of URL-encoded data adds exactly the fields of the form to the store, in
-- order, when it is given the body of the form.
pub parse_url_encoded_data-body :
    (drawn : Bytes) (f : Form) (store : Multimap)
    → is_multipart f ≡ false
    → All IsPair f.form_fields
    → parse_url_encoded_data (body drawn f).0 store ≡ emplace_all f.form_fields store
unfolding body build_urlencoded
parse_url_encoded_data-body drawn f store plain h =
    ap (λ (p : Bytes × Form). parse_url_encoded_data p.0 store)
      (if_false (is_multipart f) _ _ plain)
    ∙ ap (λ t. parse_url_encoded_data t store) (append_fields-pairs_text f.form_fields)
    ∙ parse_url_encoded_data-pairs_text form_encode form_encode-Encodes f.form_fields store h
