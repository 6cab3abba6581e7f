-- ===== src/Server/RequestFactory/Head.antt =====
-- The cases of `request_factory::consume` for the headers and the body.
use thinger_http.Common.{
  ℕ, ◌+◌, Bool, not, ◌&&◌, ◌||◌, Option, none, some, [], ◌∷◌, ◌++◌, ltb, ◌==◌, if◌then◌else◌,
  length,
}
use thinger_http.Boost.{Boost}
use thinger_http.Message.Headers
use thinger_http.Message.Headers.{Tribool, indeterminate, certain}
use thinger_http.Message.Request
use thinger_http.Message.Request.{Request, new_request}
use thinger_http.Message.Charset.{is_ctl}
use thinger_http.Server.RequestFactory.Defs.{
  Parser, ◌>>=◌, Step, more, invalid, complete, push1, push2, is_no_token, with_req, header_lws,
  header_name, space_before_header_value, header_value, expecting_newline_2, expecting_newline_3,
  content,
}

-- `empty_headers()`, on `*req`
abbrev pub empty_headers : Parser → Option Bool
empty_headers p = elim p.req [ none ↦ none | some r ↦ some (Headers.empty_headers r.base) ]

abbrev pub is_blank : ℕ → Bool
is_blank c = c == b' ' || c == b'\t'

-- `case header_line_start`
unfoldable pub consume_line_start : Parser → ℕ → Step
unfolding is_no_token
consume_line_start p c =
    if c == b'\r'
    then more expecting_newline_3 p
    else empty_headers p >>= λ none_yet.
        if not none_yet && is_blank c
        then more header_lws p
        else if is_no_token c
        then invalid p
        else more header_name (record p { temp_string1 = c ∷ [] })

-- `case header_lws`
unfoldable pub consume_lws : Parser → ℕ → Step
unfolding is_ctl
consume_lws p c =
    if c == b'\r'
    then more expecting_newline_2 p
    else if is_blank c
    then more header_lws p
    else if is_ctl c
    then invalid p
    else more header_value (push1 c p)

-- `case header_name`
unfoldable pub consume_name : Parser → ℕ → Step
unfolding is_no_token
consume_name p c =
    if c == b':'
    then more space_before_header_value p
    else if is_no_token c
    then invalid p
    else more header_name (push1 c p)

-- `case space_before_header_value`
unfoldable pub consume_space : Parser → ℕ → Step
consume_space p c =
    if c == b' ' then more header_value (record p { temp_string2 = [] }) else invalid p

module _ ⦃b : Boost⦄ where
  -- `case header_value`
  unfoldable pub consume_value : Parser → ℕ → Step
  unfolding with_req is_ctl
  consume_value p c =
      if c == b'\r'
      then (with_req (Request.process_header p.temp_string1 p.temp_string2) p >>= λ q.
          more expecting_newline_2 q)
      else if is_ctl c
      then invalid p
      else more header_value (push2 c p)

-- `case expecting_newline_3`
unfoldable pub end_headers : Option Request → Parser → Step
end_headers none p = if p.headers_only then complete p else none
end_headers (some r) p =
    if p.headers_only || r.content_length == 0 then complete p else more content p

unfoldable pub consume_newline_3 : Parser → ℕ → Step
unfolding end_headers
consume_newline_3 p c = if c == b'\n' then end_headers p.req p else invalid p

-- `case content`
unfoldable pub consume_content : Parser → ℕ → Step
consume_content p c = elim p.req [
  | none ↦ none
  | some r ↦
      let q = record p { req = some (record r { content = r.content ++ c ∷ [] }) } in
      if ltb (length r.content + 1) r.content_length then more content q else complete q
]
