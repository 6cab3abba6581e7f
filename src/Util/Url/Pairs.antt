-- ===== src/Util/Url/Pairs.antt =====
-- Reading what is written as `key=value` pairs with `&` between them.
use thinger_http.Common.{
  ℕ, ◌<◌, ◌≡◌, ◌≢◌, refl, sym, ap, ◌∙◌, true, false, inl, inr, Option, none, some, List, [], ◌∷◌,
  ◌++◌, ◌==◌, append_assoc, append-nil, Bool-cases, Bytes, IsBytes, All, All-append, ◌/◌, ◌%◌,
  is_empty, arith,
}
use thinger_http.Util.Url.{
  Multimap, split_at, url_decode, url_decode?, url_encode, url_encode_byte, percent, hex_char,
  is_unreserved, emplace, store_pair, parse_pairs, parse_url_encoded_data, encode_pair,
  encode_pairs, get_url_encoded_data,
}
use thinger_http.Util.Url.RoundTrip.{url_decode?-url_encode}

-- Text between the separators.
abbrev pub IsPlain : ℕ → Type 0
IsPlain c = (c ≢ b'&') × (c ≢ b'=')

-- What the pairs rely on: an encoder whose output has no separator and is decoded.
pub record Encodes (encode : Bytes → Bytes) : Type 0 where
  pub plain : (value : Bytes) → IsBytes value → All IsPlain (encode value)
  pub decodes : (value : Bytes) → IsBytes value → url_decode? (encode value) ≡ some value
  pub keeps : (c : ℕ) (value : Bytes) → is_empty (encode (c ∷ value)) ≡ false

-- A pair that the reader stores: its key is not empty.
pub record IsPair (entry : Bytes × Bytes) : Type 0 where
  pub named : is_empty entry.0 ≡ false
  pub key_bytes : IsBytes entry.0
  pub value_bytes : IsBytes entry.1

-- The entries, one after the other.
abbrev pub emplace_all : List (Bytes × Bytes) → Multimap → Multimap
emplace_all [] store = store
emplace_all ((key, value) ∷ entries) store = emplace_all entries (emplace key value store)

split_at-plain :
    (key rest : Bytes) → All IsPlain key → split_at b'=' (key ++ b'=' ∷ rest) ≡ (key, b'=' ∷ rest)
unfolding split_at
split_at-plain [] rest h = refl
split_at-plain (c ∷ key) rest h =
    let e : (c == b'=') ≡ false = ground (arith, h.0.1) in rw (e, split_at-plain key rest h.1) refl

abbrev IsInside : Bytes → Type 0
IsInside = All (λ c. c ≢ b'&')

IsPlain-IsInside : (xs : Bytes) → All IsPlain xs → IsInside xs
IsPlain-IsInside [] h = tt
IsPlain-IsInside (c ∷ xs) h = (h.0.0, IsPlain-IsInside xs h.1)

parse_pairs-append_inside :
    (cur xs rest : Bytes) (store : Multimap)
    → IsInside xs
    → parse_pairs cur (xs ++ rest) store ≡ parse_pairs (cur ++ xs) rest store
unfolding parse_pairs
parse_pairs-append_inside cur [] rest store h =
    ap (λ t. parse_pairs t rest store) (sym (append-nil cur))
parse_pairs-append_inside cur (c ∷ xs) rest store h =
    let e : (c == b'&') ≡ false = ground (arith, h.0) in
    rw (e) (
      parse_pairs-append_inside (cur ++ c ∷ []) xs rest store h.1
      ∙ ap (λ t. parse_pairs t rest store) (append_assoc cur (c ∷ []) xs))

module _ (encode : Bytes → Bytes) (good : Encodes encode) where
  abbrev pub pair_text : Bytes × Bytes → Bytes
  pair_text (key, value) = encode key ++ b'=' ∷ encode value

  -- The pairs behind the first, each with a separator in front.
  abbrev pub later_text : List (Bytes × Bytes) → Bytes
  later_text [] = []
  later_text (entry ∷ entries) = b'&' ∷ (pair_text entry ++ later_text entries)

  url_decode-encode : (value : Bytes) → IsBytes value → url_decode (encode value) ≡ value
  unfolding url_decode
  url_decode-encode value h =
      ap (λ (o : Option Bytes). elim o [ none ↦ [] | some out ↦ out ]) (good.decodes value h)

  key_stays : (key : Bytes) → is_empty key ≡ false → is_empty (encode key) ≡ false
  key_stays [] h = cc
  key_stays (c ∷ key) h = good.keeps c key

  store_pair-pair_text :
      (entry : Bytes × Bytes) (store : Multimap)
      → IsPair entry
      → store_pair (pair_text entry) store ≡ emplace entry.0 entry.1 store
  unfolding store_pair
  store_pair-pair_text (key, value) store h =
      rw
        (
          split_at-plain (encode key) (encode value) (good.plain key h.key_bytes),
          key_stays key h.named,
          url_decode-encode key h.key_bytes,
          url_decode-encode value h.value_bytes,
        )
        refl

  pair_text-IsInside : (entry : Bytes × Bytes) → IsPair entry → IsInside (pair_text entry)
  pair_text-IsInside (key, value) h =
      All-append (λ c. c ≢ b'&') (encode key) (b'=' ∷ encode value)
        (IsPlain-IsInside (encode key) (good.plain key h.key_bytes))
        (ground arith, IsPlain-IsInside (encode value) (good.plain value h.value_bytes))

  parse_pairs-later_text :
      (cur : Bytes) (entries : List (Bytes × Bytes)) (store : Multimap)
      → All IsPair entries
      → parse_pairs cur (later_text entries) store ≡ emplace_all entries (store_pair cur store)
  unfolding parse_pairs
  parse_pairs-later_text cur [] store h = refl
  parse_pairs-later_text cur (entry ∷ entries) store h =
      parse_pairs-append_inside [] (pair_text entry) (later_text entries) (store_pair cur store)
        (pair_text-IsInside entry h.0)
      ∙ parse_pairs-later_text (pair_text entry) entries (store_pair cur store) h.1
      ∙ ap (emplace_all entries) (store_pair-pair_text entry (store_pair cur store) h.0)

  -- The text of all pairs.
  abbrev pub pairs_text : List (Bytes × Bytes) → Bytes
  pairs_text [] = []
  pairs_text (entry ∷ entries) = pair_text entry ++ later_text entries

  pub parse_url_encoded_data-pairs_text :
      (entries : List (Bytes × Bytes)) (store : Multimap)
      → All IsPair entries
      → parse_url_encoded_data (pairs_text entries) store ≡ emplace_all entries store
  unfolding parse_url_encoded_data
  parse_url_encoded_data-pairs_text [] store h = unfold parse_pairs store_pair split_at in refl
  parse_url_encoded_data-pairs_text (entry ∷ entries) store h =
      parse_pairs-append_inside [] (pair_text entry) (later_text entries) store
        (pair_text-IsInside entry h.0)
      ∙ parse_pairs-later_text (pair_text entry) entries store h.1
      ∙ ap (emplace_all entries) (store_pair-pair_text entry store h.0)

-- What one byte is written as.
hex_char-IsPlain : (n : ℕ) → n < 16 → IsPlain (hex_char n)
unfolding hex_char
hex_char-IsPlain n h = ground arith

pub percent-IsPlain : (c : ℕ) → c < 256 → All IsPlain (percent c)
unfolding percent
percent-IsPlain c h = (
  ground arith,
  (hex_char-IsPlain (c / 16) (omega arith), (hex_char-IsPlain (c % 16) (omega arith), tt)),
)

pub is_unreserved-IsPlain : (c : ℕ) → is_unreserved c ≡ true → IsPlain c
unfolding is_unreserved
is_unreserved-IsPlain c h = ground arith

url_encode_byte-IsPlain : (c : ℕ) → c < 256 → All IsPlain (url_encode_byte c)
unfolding url_encode_byte
url_encode_byte-IsPlain c h = elim (Bool-cases (is_unreserved c)) [
  | inl e ↦ rw (e) (is_unreserved-IsPlain c e, tt)
  | inr e ↦ rw (e) (percent-IsPlain c h)
]

url_encode-IsPlain : (value : Bytes) → IsBytes value → All IsPlain (url_encode value)
unfolding url_encode
url_encode-IsPlain [] h = tt
url_encode-IsPlain (c ∷ value) h =
    All-append IsPlain (url_encode_byte c) (url_encode value) (url_encode_byte-IsPlain c h.0)
      (url_encode-IsPlain value h.1)

url_encode-keeps : (c : ℕ) (value : Bytes) → is_empty (url_encode (c ∷ value)) ≡ false
unfolding url_encode url_encode_byte percent
url_encode-keeps c value = ground arith

url_encode-Encodes : Encodes url_encode
url_encode-Encodes = record {
  plain = url_encode-IsPlain;
  decodes = url_decode?-url_encode;
  keeps = url_encode-keeps;
}

encode_pairs-later_text :
    (entries : List (Bytes × Bytes))
    → encode_pairs false entries ≡ later_text url_encode url_encode-Encodes entries
unfolding encode_pairs encode_pair
encode_pairs-later_text [] = refl
encode_pairs-later_text ((key, value) ∷ entries) =
    ap (λ t. b'&' ∷ (pair_text url_encode url_encode-Encodes (key, value) ++ t))
      (encode_pairs-later_text entries)

get_url_encoded_data-pairs_text :
    (entries : List (Bytes × Bytes))
    → get_url_encoded_data entries ≡ pairs_text url_encode url_encode-Encodes entries
unfolding get_url_encoded_data encode_pairs encode_pair
get_url_encoded_data-pairs_text [] = refl
get_url_encoded_data-pairs_text ((key, value) ∷ entries) =
    ap (λ t. pair_text url_encode url_encode-Encodes (key, value) ++ t)
      (encode_pairs-later_text entries)

-- For pairs of bytes (numbers below 256) whose keys are not empty: parsing the text that is written
-- of them adds exactly those pairs to the store, in order, whatever separators or escapes the keys
-- and values hold.
pub parse_url_encoded_data-get_url_encoded_data :
    (entries : Multimap) (store : Multimap)
    → All IsPair entries
    → parse_url_encoded_data (get_url_encoded_data entries) store ≡ emplace_all entries store
parse_url_encoded_data-get_url_encoded_data entries store h =
    ap (λ t. parse_url_encoded_data t store) (get_url_encoded_data-pairs_text entries)
    ∙ parse_url_encoded_data-pairs_text url_encode url_encode-Encodes entries store h
