-- ===== src/Util/Url.antt =====
-- thinger/http/util/url.cpp: percent encoding, and the query string as a multimap. The multimap is
-- the sequence of its entries in the order of iteration. `reserve` has no effect on the result.
pub mod Bytewise
pub mod RoundTrip
pub mod Pairs
use thinger_http.Common.{
  ℕ, ◌+◌, ◌-◌, ◌*◌, ◌/◌, ◌%◌, Bool, true, false, ◌||◌, Option, none, some, List, [], ◌∷◌, ◌++◌, ltb,
  ◌==◌, within, if◌then◌else◌, Bytes, bytes_lt, is_empty,
}

-- `hex_digit`; `none` stands for -1.
unfoldable pub hex_digit : ℕ → Option ℕ
hex_digit c =
    if within b'0' b'9' c
    then some (c - b'0')
    else if within b'a' b'f' c
    then some (c - b'a' + 10)
    else if within b'A' b'F' c
    then some (c - b'A' + 10)
    else none

-- `std::isalnum` in the C locale
unfoldable pub is_alnum : ℕ → Bool
is_alnum c = within b'0' b'9' c || within b'a' b'z' c || within b'A' b'Z' c

unfoldable pub is_unreserved : ℕ → Bool
unfolding is_alnum
is_unreserved c = is_alnum c || c == b'-' || c == b'_' || c == b'.' || c == b'~'

-- `hex_chars[n]`
unfoldable pub hex_char : ℕ → ℕ
hex_char n = if ltb n 10 then b'0' + n else b'A' + (n - 10)

unfoldable pub percent : ℕ → Bytes
unfolding hex_char
percent c = b'%' ∷ hex_char (c / 16) ∷ hex_char (c % 16) ∷ []

-- One round of the loop of `url_encode`: what it appends for a byte.
unfoldable pub url_encode_byte : ℕ → Bytes
unfolding percent is_unreserved
url_encode_byte c = if is_unreserved c then c ∷ [] else percent c

unfoldable pub url_encode : Bytes → Bytes
unfolding url_encode_byte
url_encode [] = []
url_encode (c ∷ value) = url_encode_byte c ++ url_encode value

unfoldable pub uri_path_encode_byte : ℕ → Bytes
unfolding percent is_unreserved
uri_path_encode_byte c = if is_unreserved c || c == b'/' then c ∷ [] else percent c

unfoldable pub uri_path_encode : Bytes → Bytes
unfolding uri_path_encode_byte
uri_path_encode [] = []
uri_path_encode (c ∷ value) = uri_path_encode_byte c ++ uri_path_encode value

-- `out += c` in front of what the loop appends later
abbrev pub push_front : ℕ → Option Bytes → Option Bytes
push_front c none = none
push_front c (some out) = some (c ∷ out)

-- the two digits behind `%`, then the rest of the loop
unfoldable pub decode_escape : Option ℕ → Option ℕ → Option Bytes → Option Bytes
decode_escape none lo rest = none
decode_escape (some hi) none rest = none
decode_escape (some hi) (some lo) rest = push_front (hi * 16 + lo) rest

-- `url_decode(in, out)`; `none` is the result `false`.
unfoldable pub url_decode? : Bytes → Option Bytes
unfolding decode_escape hex_digit
url_decode? [] = some []
url_decode? (c ∷ []) =
    if c == b'%' then none else if c == b'+' then some (b' ' ∷ []) else some (c ∷ [])
url_decode? (c ∷ d ∷ []) =
    if c == b'%'
    then none
    else if c == b'+'
    then push_front b' ' (url_decode? (d ∷ []))
    else push_front c (url_decode? (d ∷ []))
url_decode? (c ∷ d ∷ e ∷ rest) =
    let escaped = decode_escape (hex_digit d) (hex_digit e) (url_decode? rest) in
    let space = push_front b' ' (url_decode? (d ∷ e ∷ rest)) in
    let plain = push_front c (url_decode? (d ∷ e ∷ rest)) in
    if c == b'%' then escaped else if c == b'+' then space else plain

-- `url_decode(in)`
unfoldable pub url_decode : Bytes → Bytes
unfolding url_decode?
url_decode s = elim (url_decode? s) [ none ↦ [] | some out ↦ out ]

abbrev pub Multimap : Type 0
Multimap = List (Bytes × Bytes)

-- `std::multimap::emplace`: behind the last entry whose key is not greater.
unfoldable pub emplace : Bytes → Bytes → Multimap → Multimap
emplace k v [] = (k, v) ∷ []
emplace k v ((j, w) ∷ m) = if bytes_lt k j then (k, v) ∷ (j, w) ∷ m else (j, w) ∷ emplace k v m

-- `std::find`: what stands before the first `stop`, and what stands from it on.
unfoldable pub split_at : ℕ → Bytes → Bytes × Bytes
split_at stop [] = ([], [])
split_at stop (c ∷ cs) =
    let rest = split_at stop cs in if c == stop then ([], c ∷ cs) else (c ∷ rest.0, rest.1)

-- `value.assign(eq_pos + 1, pair_end)`, or the empty value where there is no `=`
abbrev pub behind : Bytes → Bytes
behind [] = []
behind (eq ∷ value) = value

-- the body of the loop for one `key=value` pair
unfoldable pub store_pair : Bytes → Multimap → Multimap
unfolding split_at url_decode emplace
store_pair pair store =
    let (key, from_eq) = split_at b'=' pair in
    if is_empty key then store else emplace (url_decode key) (url_decode (behind from_eq)) store

-- The loop of `parse_url_encoded_data`, over the pairs between `&`: `cur` is the pair read so far.
-- An empty pair stores nothing, so the pair behind a last `&` needs no test.
unfoldable pub parse_pairs : Bytes → Bytes → Multimap → Multimap
unfolding store_pair
parse_pairs cur [] store = store_pair cur store
parse_pairs cur (c ∷ cs) store =
    let next = parse_pairs [] cs (store_pair cur store) in
    let longer = parse_pairs (cur ++ c ∷ []) cs store in if c == b'&' then next else longer

unfoldable pub parse_url_encoded_data : Bytes → Multimap → Multimap
unfolding parse_pairs
parse_url_encoded_data s store = parse_pairs [] s store

unfoldable pub encode_pair : Bytes × Bytes → Bytes
unfolding url_encode
encode_pair (key, value) = url_encode key ++ b'=' ∷ url_encode value

-- The loop of `get_url_encoded_data`
unfoldable pub encode_pairs : Bool → Multimap → Bytes
unfolding encode_pair
encode_pairs first [] = []
encode_pairs first (entry ∷ store) =
    (if first then [] else b'&' ∷ []) ++ (encode_pair entry ++ encode_pairs false store)

unfoldable pub get_url_encoded_data : Multimap → Bytes
unfolding encode_pairs
get_url_encoded_data store = encode_pairs true store
