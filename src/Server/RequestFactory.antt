-- ===== src/Server/RequestFactory.antt =====
-- thinger/http/server/request_factory.{hpp,cpp}: the request parser. `consume` returns `none` where
-- the code would call a method of the null pointer `req`, and otherwise the parser and a tribool.
-- `size_t` has 64 bits.
mod Defs
mod Line
mod Head
pub mod Safety
pub mod Pieces
pub mod RoundTrip
pub mod Body
pub mod Folding
use thinger_http.Common.{
  ℕ, ◌+◌, ◌-◌, ◌*◌, ◌%◌, ◌^◌, Bool, true, false, not, ◌&&◌, ◌||◌, Option, none, some, [], ◌∷◌, ◌++◌,
  ltb, ◌==◌, if◌then◌else◌, length, Bytes,
}
use thinger_http.Boost.{Boost}
use thinger_http.Util.Url.{url_decode?}
use thinger_http.Message.Headers
use thinger_http.Message.Headers.{Tribool, indeterminate, certain}
use thinger_http.Message.Request
use thinger_http.Message.Request.{Request, new_request}
use thinger_http.Message.Charset.{is_char, is_ctl, is_tspecial, is_digit}
pub use Defs.{
  State, Parser, request_factory, ◌>>=◌, Step, more, invalid, complete, expect, push1, push2,
  method_start, method, uri, http_version_h, http_version_t_1, http_version_t_2, http_version_p,
  http_version_slash, http_version_major_start, http_version_major, http_version_minor_start,
  http_version_minor, expecting_newline_1, header_line_start, header_lws, header_name,
  space_before_header_value, header_value, expecting_newline_2, expecting_newline_3, content,
}
unfoldable pub use Defs.{is_no_token, with_req, ensure_req}
pub use Line.{first_digit, next_digit, set_major, set_minor}
unfoldable pub use Line.{
  has_dots, is_absolute, end_uri, consume_method_start, consume_method, consume_uri, consume_major,
  consume_minor,
}
pub use Head.{empty_headers, is_blank}
unfoldable pub use Head.{
  consume_line_start, consume_lws, consume_name, consume_space, consume_value, end_headers,
  consume_newline_3, consume_content,
}

module _ ⦃b : Boost⦄ where
  -- The `switch` of `consume`.
  unfoldable pub consume_in : State → Parser → ℕ → Step
  unfolding consume_method_start consume_method consume_uri consume_major consume_minor
      consume_line_start consume_lws consume_name consume_space consume_value consume_newline_3
      consume_content
  consume_in method_start p c = consume_method_start p c
  consume_in method p c = consume_method p c
  consume_in uri p c = consume_uri p c
  consume_in http_version_h p c = expect (c == b'H') http_version_t_1 p
  consume_in http_version_t_1 p c = expect (c == b'T') http_version_t_2 p
  consume_in http_version_t_2 p c = expect (c == b'T') http_version_p p
  consume_in http_version_p p c = expect (c == b'P') http_version_slash p
  consume_in http_version_slash p c = expect (c == b'/') http_version_major_start p
  consume_in http_version_major_start p c = first_digit http_version_major p c
  consume_in http_version_major p c = consume_major p c
  consume_in http_version_minor_start p c = first_digit http_version_minor p c
  consume_in http_version_minor p c = consume_minor p c
  consume_in expecting_newline_1 p c = expect (c == b'\n') header_line_start p
  consume_in header_line_start p c = consume_line_start p c
  consume_in header_lws p c = consume_lws p c
  consume_in header_name p c = consume_name p c
  consume_in space_before_header_value p c = consume_space p c
  consume_in header_value p c = consume_value p c
  consume_in expecting_newline_2 p c = expect (c == b'\n') header_line_start p
  consume_in expecting_newline_3 p c = consume_newline_3 p c
  consume_in content p c = consume_content p c

  unfoldable pub consume : Parser → ℕ → Step
  unfolding consume_in
  consume p c = consume_in p.state p c

  -- a decided result ends the loop
  abbrev pub after_consume :
      Parser
      → Tribool
      → Bytes
      → (Parser → Option (Parser × Tribool × Bytes))
      → Option (Parser × Tribool × Bytes)
  after_consume q (certain result) cs loop = some (q, certain result, cs)
  after_consume q indeterminate cs loop = loop q

  -- `parse`: the parser, the result, and the input from `begin` on.
  unfoldable pub parse : Parser → Bytes → Option (Parser × Tribool × Bytes)
  unfolding consume
  parse p [] = some (p, indeterminate, [])
  parse p (c ∷ cs) = consume p c >>= λ s. after_consume s.0 s.1 cs (λ q. parse q cs)

-- `set_headers_only`
abbrev pub set_headers_only : Bool → Parser → Parser
set_headers_only b p = record p { headers_only = b }

-- `consume_request`
unfoldable pub consume_request : Parser → Parser × Option Request
consume_request p =
    (record p { req = none; state = method_start; temp_string1 = []; temp_string2 = [] }, p.req)
