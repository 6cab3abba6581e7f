-- ===== src/Client/ResponseFactory/Head.antt =====
-- The cases of `response_factory::consume` for the status line and the headers.
use thinger_http.Common.{
  ℕ, ◌+◌, ◌-◌, ◌*◌, ◌%◌, ◌^◌, Bool, not, ◌&&◌, ◌||◌, Option, none, some, [], ◌∷◌, ◌==◌,
  if◌then◌else◌, Bytes, codes,
}
use thinger_http.Boost.{Boost}
use thinger_http.Message.Header
use thinger_http.Message.Headers
use thinger_http.Message.Headers.{Tribool, indeterminate, certain}
use thinger_http.Message.Response.{Response, set_status}
use thinger_http.Message.Charset.{is_char, is_ctl, is_digit}
use thinger_http.Client.ResponseFactory.Defs.{
  State, ContentType, Parser, ◌>>=◌, Step, more, invalid, push1, push2, is_no_token, is_blank,
  with_resp, ensure_resp, http_version_major, http_version_minor_start, http_version_minor,
  status_code, reason_phrase, expecting_newline_1, header_lws, header_name,
  space_before_header_value, header_value, expecting_newline_2, expecting_newline_3,
  lenght_delimited, chunked,
}

-- `tempInt_ = input - '0'`
abbrev pub first_digit : State → Parser → ℕ → Step
first_digit s p c = if is_digit c then more s (record p { temp_int = c - b'0' }) else invalid p

-- `tempInt_ = tempInt_ * 10 + input - '0'`
abbrev pub next_digit : Parser → ℕ → Parser
next_digit p c = record p { temp_int = (p.temp_int * 10 + (c - b'0')) % 2 ^ 64 }

abbrev pub set_major : ℕ → Response → Response
set_major v r = record r { base = Headers.set_http_version_major v r.base }

abbrev pub set_minor : ℕ → Response → Response
set_minor v r = record r { base = Headers.set_http_version_minor v r.base }

-- `case http_version_major`; the parameter of `on_http_major_version` has 8 bits.
unfoldable pub consume_major : Parser → ℕ → Step
unfolding with_resp ensure_resp is_digit
consume_major p c =
    if c == b'.'
    then (with_resp (set_major (p.temp_int % 256)) (ensure_resp p) >>= λ q.
        more http_version_minor_start q)
    else if is_digit c
    then more http_version_major (next_digit p c)
    else invalid p

-- `case http_version_minor`; the minor version goes through 16 bits into 8.
unfoldable pub consume_minor : Parser → ℕ → Step
unfolding with_resp is_digit
consume_minor p c =
    if is_digit c
    then more http_version_minor (next_digit p c)
    else if c == b' '
    then (with_resp (set_minor (p.temp_int % 2 ^ 16 % 256)) p >>= λ q.
        more status_code (record q { temp_int = 0 }))
    else invalid p

-- `case status_code`; the parameter of `on_http_status_code` has 16 bits.
unfoldable pub consume_status : Parser → ℕ → Step
unfolding with_resp is_digit set_status
consume_status p c =
    if is_digit c
    then more status_code (next_digit p c)
    else if c == b' '
    then (with_resp (set_status (p.temp_int % 2 ^ 16)) p >>= λ q. more reason_phrase q)
    else invalid p

abbrev pub set_reason_phrase : Bytes → Response → Response
set_reason_phrase reason r = record r { reason_phrase = reason }

-- `case reason_phrase`
unfoldable pub consume_reason : Parser → ℕ → Step
unfolding with_resp is_char
consume_reason p c =
    if c == b'\r'
    then (with_resp (set_reason_phrase p.temp_string1) p >>= λ q. more expecting_newline_1 q)
    else if is_char c || c == b' '
    then more reason_phrase (push1 c p)
    else invalid p

-- `empty_headers()`, on `*resp`
abbrev pub empty_headers : Parser → Option Bool
empty_headers p = elim p.resp [ none ↦ none | some r ↦ some (Headers.empty_headers r.base) ]

-- `case header_line_start`
unfoldable pub consume_line_start : Parser → ℕ → Step
unfolding is_no_token
consume_line_start p c =
    if c == b'\r'
    then more expecting_newline_3 p
    else empty_headers p >>= λ none_yet.
        if not none_yet && is_blank c
        then more header_lws p
        else if is_no_token c
        then invalid p
        else more header_name (record p { temp_string1 = c ∷ [] })

-- `case header_lws`
unfoldable pub consume_lws : Parser → ℕ → Step
unfolding is_ctl
consume_lws p c =
    if c == b'\r'
    then more expecting_newline_2 p
    else if is_blank c
    then more header_lws p
    else if is_ctl c
    then invalid p
    else more header_value (push1 c p)

-- `case header_name`
unfoldable pub consume_name : Parser → ℕ → Step
unfolding is_no_token
consume_name p c =
    if c == b':'
    then more space_before_header_value p
    else if is_no_token c
    then invalid p
    else more header_name (push1 c p)

-- `case space_before_header_value`
unfoldable pub consume_space : Parser → ℕ → Step
consume_space p c =
    if c == b' ' then more header_value (record p { temp_string2 = [] }) else invalid p

module _ ⦃b : Boost⦄ where
  -- The `content_` that `on_http_header` sets.
  unfoldable pub header_content_type : Bytes → Bytes → ContentType → ContentType
  header_content_type name value t =
      if b.iequals name Header.transfer_encoding && b.iequals value (codes "chunked")
      then chunked
      else if b.iequals name Header.content_length
      then lenght_delimited
      else t

  abbrev pub process_resp_header : Bytes → Bytes → Response → Response
  process_resp_header name value r = record r { base = Headers.process_header name value r.base }

  -- `on_http_header`
  unfoldable pub on_http_header : Bytes → Bytes → Parser → Option Parser
  unfolding with_resp header_content_type
  on_http_header name value p =
      with_resp (process_resp_header name value)
        (record p { content_type = header_content_type name value p.content_type })

  -- `case header_value`
  unfoldable pub consume_value : Parser → ℕ → Step
  unfolding on_http_header is_ctl
  consume_value p c =
      if c == b'\r'
      then (on_http_header p.temp_string1 p.temp_string2 p >>= λ q. more expecting_newline_2 q)
      else if is_ctl c
      then invalid p
      else more header_value (push2 c p)
