-- ===== src/Server/RequestFactory/Line.antt =====
-- The cases of `request_factory::consume` for the request line.
use thinger_http.Common.{
  ℕ, ◌+◌, ◌-◌, ◌*◌, ◌%◌, ◌^◌, Bool, false, not, ◌&&◌, ◌||◌, Option, none, some, [], ◌∷◌, ◌==◌,
  if◌then◌else◌, Bytes,
}
use thinger_http.Util.Url.{url_decode?}
use thinger_http.Message.Headers
use thinger_http.Message.Headers.{Tribool, indeterminate, certain}
use thinger_http.Message.Request
use thinger_http.Message.Request.{Request, new_request}
use thinger_http.Message.Charset.{is_ctl, is_digit}
use thinger_http.Server.RequestFactory.Defs.{
  State, Parser, ◌>>=◌, Step, more, invalid, push1, is_no_token, with_req, ensure_req, method, uri,
  http_version_h, http_version_major, http_version_minor_start, http_version_minor,
  expecting_newline_1,
}

-- `find("..") != npos`
unfoldable pub has_dots : Bytes → Bool
has_dots [] = false
has_dots (c ∷ []) = false
has_dots (c ∷ d ∷ cs) = (c == b'.' && d == b'.') || has_dots (d ∷ cs)

-- `!parsed_uri.empty() && parsed_uri[0] == '/'`
unfoldable pub is_absolute : Bytes → Bool
is_absolute [] = false
is_absolute (c ∷ cs) = c == b'/'

-- the tests on the URI at its end
unfoldable pub end_uri : Option Bytes → Parser → Step
unfolding with_req has_dots is_absolute
end_uri none p = invalid (record p { temp_string1 = [] })
end_uri (some parsed) p =
    if not (is_absolute parsed) || has_dots parsed
    then invalid p
    else with_req (Request.set_uri p.temp_string1) p >>= λ q.
        more http_version_h (record q { temp_string1 = [] })

-- `case method_start`, `case method`, `case uri`
unfoldable pub consume_method_start : Parser → ℕ → Step
unfolding is_no_token
consume_method_start p c = if is_no_token c then invalid p else more method (push1 c p)

unfoldable pub consume_method : Parser → ℕ → Step
unfolding is_no_token ensure_req with_req
consume_method p c =
    if c == b' '
    then (with_req (Request.set_method_string p.temp_string1) (ensure_req p) >>= λ q.
        more uri (record q { temp_string1 = [] }))
    else if is_no_token c
    then invalid p
    else more method (push1 c p)

unfoldable pub consume_uri : Parser → ℕ → Step
unfolding end_uri is_ctl
consume_uri p c =
    if c == b' '
    then end_uri (url_decode? p.temp_string1) p
    else if is_ctl c
    then invalid p
    else more uri (push1 c p)

-- `tempInt_ = input - '0'`
abbrev pub first_digit : State → Parser → ℕ → Step
first_digit s p c = if is_digit c then more s (record p { temp_int = c - b'0' }) else invalid p

-- `tempInt_ = tempInt_ * 10 + input - '0'`
abbrev pub next_digit : Parser → ℕ → Parser
next_digit p c = record p { temp_int = (p.temp_int * 10 + (c - b'0')) % 2 ^ 64 }

abbrev pub set_major : ℕ → Request → Request
set_major v r = record r { base = Headers.set_http_version_major v r.base }

abbrev pub set_minor : ℕ → Request → Request
set_minor v r = record r { base = Headers.set_http_version_minor v r.base }

-- `case http_version_major`; the parameter of `on_http_major_version` has 8 bits.
unfoldable pub consume_major : Parser → ℕ → Step
unfolding with_req is_digit
consume_major p c =
    if c == b'.'
    then (with_req (set_major (p.temp_int % 256)) p >>= λ q. more http_version_minor_start q)
    else if is_digit c
    then more http_version_major (next_digit p c)
    else invalid p

-- `case http_version_minor`; the minor version goes through 16 bits into 8, and `tempInt_ = -1`
-- wraps around.
unfoldable pub consume_minor : Parser → ℕ → Step
unfolding with_req is_digit
consume_minor p c =
    if is_digit c
    then more http_version_minor (next_digit p c)
    else if c == b'\r'
    then (with_req (set_minor (p.temp_int % 2 ^ 16 % 256)) p >>= λ q.
        more expecting_newline_1 (record q { temp_int = 2 ^ 64 - 1 }))
    else invalid p
