-- ===== src/Message/Headers.antt =====
-- thinger/http/common/headers.{hpp,cpp}: the header list and what the parser derives from it.
-- A reference to a header is its value; the empty static string of a failed lookup is [].
pub mod Laws
pub mod Framing
use thinger_http.Common.{
  ℕ, ◌+◌, ◌-◌, ◌*◌, ◌^◌, Bool, true, false, ◌&&◌, Option, none, some, List, [], ◌∷◌, ◌++◌, ltb, leb,
  within, if◌then◌else◌, Bytes, codes, is_empty,
}
use thinger_http.Boost.{Boost}
use thinger_http.Message.Header

-- `boost::tribool`
pub data Tribool : Type 0 where
  indeterminate : Tribool
  certain : Bool → Tribool

abbrev pub HttpHeader : Type 0
HttpHeader = Bytes × Bytes

pub record Headers : Type 0 where
  pub headers : List HttpHeader
  pub proxy_headers : List HttpHeader
  pub keep_alive_flag : Tribool
  pub upgrade : Bool
  pub stream : Bool
  pub content_length : ℕ
  pub http_version_major : ℕ
  pub http_version_minor : ℕ

abbrev pub new_headers : Headers
new_headers = record {
  headers = [];
  proxy_headers = [];
  keep_alive_flag = indeterminate;
  upgrade = false;
  stream = false;
  content_length = 0;
  http_version_major = 1;
  http_version_minor = 1;
}

-- The digits that `std::from_chars` reads at base 10, with the value so far.
unfoldable pub read_digits : ℕ → Bytes → ℕ
read_digits n [] = n
read_digits n (c ∷ cs) =
    let more = read_digits (n * 10 + (c - b'0')) cs in if within b'0' b'9' c then more else n

-- `std::from_chars` into a `size_t` of 64 bits: `none` where there is no digit or the value is out
-- of range, and nothing is said of what follows the digits.
unfoldable pub from_chars : Bytes → Option ℕ
unfolding read_digits
from_chars [] = none
from_chars (c ∷ cs) =
    let value = read_digits 0 (c ∷ cs) in
    if within b'0' b'9' c then (if ltb value (2 ^ 64) then some value else none) else none

-- What `process_header` stores in `content_length_`.
unfoldable pub parse_content_length : Bytes → ℕ
unfolding from_chars
parse_content_length value = elim (from_chars value) [ none ↦ 0 | some n ↦ n ]

-- `add_header`
unfoldable pub add_header : Bytes → Bytes → Headers → Headers
add_header key value h =
    if is_empty key then h else record h { headers = h.headers ++ (key, value) ∷ [] }

-- `add_proxy`
unfoldable pub add_proxy : Bytes → Bytes → Headers → Headers
add_proxy key value h =
    if is_empty key then h else record h { proxy_headers = h.proxy_headers ++ (key, value) ∷ [] }

unfoldable pub set_http_version_major : ℕ → Headers → Headers
set_http_version_major v h = record h { http_version_major = v }

unfoldable pub set_http_version_minor : ℕ → Headers → Headers
set_http_version_minor v h = record h { http_version_minor = v }

-- `keep_alive()`
unfoldable pub keep_alive : Headers → Bool
keep_alive h = elim h.keep_alive_flag [
  | indeterminate ↦ leb 1 h.http_version_major && leb 1 h.http_version_minor
  | certain b ↦ b
]

unfoldable pub empty_headers : Headers → Bool
empty_headers h = is_empty h.headers

module _ ⦃b : Boost⦄ where
  abbrev pub is_header : Bytes → Bytes → Bool
  is_header key header = b.iequals key header

  -- The body of the loop over the values of `Connection`.
  unfoldable pub connection_token : Headers → Bytes → Headers
  connection_token h str =
      if is_header str Header.keep_alive
      then record h { keep_alive_flag = certain true }
      else if is_header str Header.close
      then record h { keep_alive_flag = certain false }
      else if is_header str Header.upgrade
      then record h { upgrade = true }
      else h

  unfoldable pub connection_tokens : Headers → List Bytes → Headers
  unfolding connection_token
  connection_tokens h [] = h
  connection_tokens h (str ∷ strs) = connection_tokens (connection_token h (b.trim str)) strs

  abbrev is_indeterminate : Tribool → Bool
  is_indeterminate indeterminate = true
  is_indeterminate (certain _) = false

  -- the first `if` of `process_header`
  unfoldable pub process_connection : Bytes → Bytes → Headers → Headers
  unfolding connection_tokens
  process_connection key value h =
      if is_indeterminate h.keep_alive_flag && is_header key Header.connection
      then connection_tokens h (b.split_commas value)
      else h

  -- the `if` and `else if` behind it
  unfoldable pub process_value : Bytes → Bytes → Headers → Headers
  unfolding parse_content_length
  process_value key value h =
      if is_header key Header.accept
      then record h { stream = b.iequals value Header.event_stream }
      else if is_header key Header.content_length
      then record h { content_length = parse_content_length value }
      else h

  abbrev pub append_header : Bytes → Bytes → Headers → Headers
  append_header key value h = record h { headers = h.headers ++ (key, value) ∷ [] }

  -- `process_header`
  unfoldable pub process_header : Bytes → Bytes → Headers → Headers
  unfolding process_connection process_value
  process_header key value h =
      append_header key value (process_value key value (process_connection key value h))

  -- The loops of `has_header`, `get_header`, `get_headers_with_key`.
  unfoldable pub has_key : Bytes → List HttpHeader → Bool
  has_key key [] = false
  has_key key ((j, v) ∷ hs) = if is_header j key then true else has_key key hs

  unfoldable pub get_value : Bytes → List HttpHeader → Bytes
  get_value key [] = []
  get_value key ((j, v) ∷ hs) = if is_header j key then v else get_value key hs

  unfoldable pub values_with_key : Bytes → List HttpHeader → List Bytes
  values_with_key key [] = []
  values_with_key key ((j, v) ∷ hs) =
      if is_header j key then v ∷ values_with_key key hs else values_with_key key hs

  unfoldable pub has_header : Bytes → Headers → Bool
  unfolding has_key
  has_header key h = has_key key h.headers

  unfoldable pub get_header : Bytes → Headers → Bytes
  unfolding get_value
  get_header key h = get_value key h.headers

  unfoldable pub get_headers_with_key : Bytes → Headers → List Bytes
  unfolding values_with_key
  get_headers_with_key key h = values_with_key key h.headers

  -- The loop of `set_header` and `set_proxy`: the first header with the key gets the value.
  unfoldable pub set_value : Bytes → Bytes → List HttpHeader → List HttpHeader
  set_value key value [] = []
  set_value key value ((j, v) ∷ hs) =
      if is_header j key then (j, value) ∷ hs else (j, v) ∷ set_value key value hs

  unfoldable pub set_header : Bytes → Bytes → Headers → Headers
  unfolding set_value has_key add_header
  set_header key value h =
      if has_key key h.headers
      then record h { headers = set_value key value h.headers }
      else add_header key value h

  unfoldable pub set_proxy : Bytes → Bytes → Headers → Headers
  unfolding set_value has_key add_proxy
  set_proxy key value h =
      if has_key key h.proxy_headers
      then record h { proxy_headers = set_value key value h.proxy_headers }
      else add_proxy key value h

  -- The loop of `remove_header`: the first header with the key is erased.
  unfoldable pub erase_key : Bytes → List HttpHeader → List HttpHeader
  erase_key key [] = []
  erase_key key ((j, v) ∷ hs) = if is_header j key then hs else (j, v) ∷ erase_key key hs

  -- The new headers, and whether one was removed.
  unfoldable pub remove_header : Bytes → Headers → Headers × Bool
  unfolding erase_key has_key
  remove_header key h = (record h { headers = erase_key key h.headers }, has_key key h.headers)

  -- `set_keep_alive`
  unfoldable pub set_keep_alive : Bool → Headers → Headers
  unfolding set_header
  set_keep_alive on h =
      set_header Header.connection (if on then codes "Keep-Alive" else codes "Close")
        (record h { keep_alive_flag = certain on })
