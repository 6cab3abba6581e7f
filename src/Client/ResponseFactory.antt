-- ===== src/Client/ResponseFactory.antt =====
-- thinger/http/client/response_factory.{hpp,cpp}: the response parser. `consume` returns `none` where
-- the code would call a method of the null pointer `resp`. The callbacks are fields, and what they
-- are given is recorded in `events`, the latest first; `reserve` and the log have no effect here.
mod Defs
mod Head
mod Content
pub mod Safety
pub mod Limits
pub mod Pieces
pub mod Chunks
pub mod RoundTrip
use thinger_http.Common.{
  ℕ, suc, ◌+◌, ◌-◌, ◌*◌, ◌%◌, ◌^◌, Bool, true, false, not, ◌&&◌, ◌||◌, Option, none, some, List, [],
  ◌∷◌, ◌++◌, ltb, leb, ◌==◌, within, if◌then◌else◌, length, take, Bytes, codes, is_empty, min,
}
use thinger_http.Boost.{Boost}
use thinger_http.Message.Header
use thinger_http.Message.Headers
use thinger_http.Message.Headers.{Tribool, indeterminate, certain}
use thinger_http.Message.Response.{Response, new_response, set_status}
use thinger_http.Message.Charset.{is_char, is_ctl, is_tspecial, is_digit}
pub use Defs.{
  State, ContentType, Event, Parser, max_headers_size, default_max_content_size, response_factory,
  ◌>>=◌, Step, more, invalid, complete, expect, push1, push2, is_blank, http_version_h,
  http_version_t_1, http_version_t_2, http_version_p, http_version_slash, http_version_major_start,
  http_version_major, http_version_minor_start, http_version_minor, status_code, reason_phrase,
  expecting_newline_1, header_line_start, header_lws, header_name, space_before_header_value,
  header_value, expecting_newline_2, expecting_newline_3, lenght_delimited_content,
  chunked_content_size, chunked_content_size_expecting_n, chunked_content,
  chunked_content_expecting_n, unset, lenght_delimited, chunked, chunk_event, stream_event,
}
unfoldable pub use Defs.{is_no_token, is_hexadecimal, get_hex_value, with_resp, ensure_resp}
pub use Head.{
  first_digit, next_digit, set_major, set_minor, set_reason_phrase, empty_headers,
  process_resp_header,
}
unfoldable pub use Head.{
  consume_major, consume_minor, consume_status, consume_reason, consume_line_start, consume_lws,
  consume_name, consume_space, header_content_type, on_http_header, consume_value,
}
pub use Content.{is_set, call_chunked, on_content_data, clear_content}
unfoldable pub use Content.{
  on_length_delimited_content, on_chunk_read, begin_content, end_headers, consume_delimited,
  consume_chunk_size, consume_chunk_newline, consume_chunk, stream_chunk, hand_chunk, next_chunk,
  consume_chunk_end,
}

-- `state_<=expecting_newline_3`
abbrev pub in_headers : State → Bool
in_headers lenght_delimited_content = false
in_headers chunked_content_size = false
in_headers chunked_content_size_expecting_n = false
in_headers chunked_content = false
in_headers chunked_content_expecting_n = false
in_headers _ = true

-- a decided result ends the loop
abbrev pub after_consume : Step → (Parser → Step) → Step
after_consume none loop = none
after_consume (some (q, certain result)) loop = some (q, certain result)
after_consume (some (q, indeterminate)) loop = loop q

-- What stands before the batch in `parse`: the callback, where there is one and content is due.
abbrev pub batching : State → Option (Bytes → ℕ → ℕ → Bool) → ℕ → Option (Bytes → ℕ → ℕ → Bool)
batching lenght_delimited_content (some callback) (suc left) = some callback
batching _ _ _ = none

-- The batch of `parse`: all of the input, or what is left of the content. So `continue` finds no
-- input, and the loop ends undecided.
unfoldable pub stream_batch : (Bytes → ℕ → ℕ → Bool) → Response → Parser → Bytes → Step
stream_batch callback r p input =
    let to_read = min (length input) p.temp_int in
    let bytes = take to_read input in
    let downloaded = (p.streaming_downloaded + to_read) % 2 ^ 64 in
    let q = record p {
      streaming_downloaded = downloaded;
      events = stream_event bytes downloaded r.content_length ∷ p.events;
    } in
    let left = p.temp_int - to_read in
    if callback bytes downloaded r.content_length
    then (if left == 0
        then complete (record q { temp_int = left })
        else some (record q { temp_int = left }, indeterminate))
    else invalid (record q { streaming_aborted = true })

module _ ⦃b : Boost⦄ where
  -- The `switch` of `consume`; the flag is `head_request`.
  unfoldable pub consume_in : Bool → State → Parser → ℕ → Step
  unfolding consume_major consume_minor consume_status consume_reason consume_line_start consume_lws
      consume_name consume_space consume_value end_headers consume_delimited consume_chunk_size
      consume_chunk_newline consume_chunk consume_chunk_end
  consume_in head http_version_h p c = expect (c == b'H') http_version_t_1 p
  consume_in head http_version_t_1 p c = expect (c == b'T') http_version_t_2 p
  consume_in head http_version_t_2 p c = expect (c == b'T') http_version_p p
  consume_in head http_version_p p c = expect (c == b'P') http_version_slash p
  consume_in head http_version_slash p c = expect (c == b'/') http_version_major_start p
  consume_in head http_version_major_start p c = first_digit http_version_major p c
  consume_in head http_version_major p c = consume_major p c
  consume_in head http_version_minor_start p c = first_digit http_version_minor p c
  consume_in head http_version_minor p c = consume_minor p c
  consume_in head status_code p c = consume_status p c
  consume_in head reason_phrase p c = consume_reason p c
  consume_in head expecting_newline_1 p c = expect (c == b'\n') header_line_start p
  consume_in head header_line_start p c = consume_line_start p c
  consume_in head header_lws p c = consume_lws p c
  consume_in head header_name p c = consume_name p c
  consume_in head space_before_header_value p c = consume_space p c
  consume_in head header_value p c = consume_value p c
  consume_in head expecting_newline_2 p c = expect (c == b'\n') header_line_start p
  consume_in head expecting_newline_3 p c =
      if c == b'\n' then end_headers head p.resp p else invalid p
  consume_in head lenght_delimited_content p c = consume_delimited p c
  consume_in head chunked_content_size p c = consume_chunk_size p c
  consume_in head chunked_content_size_expecting_n p c = consume_chunk_newline p c
  consume_in head chunked_content p c = consume_chunk p c
  consume_in head chunked_content_expecting_n p c = consume_chunk_end p c

  -- `consume`
  unfoldable pub consume : Bool → Parser → ℕ → Step
  unfolding consume_in
  consume head p c =
      let q = record p { headers_size = (p.headers_size + 1) % 2 ^ 64 } in
      if in_headers p.state
      then (if ltb max_headers_size q.headers_size then invalid q else consume_in head p.state q c)
      else consume_in head p.state p c

  -- `parse`. The iterators are copies, so what is not consumed is not seen by the caller.
  unfoldable pub parse : Bool → Parser → Bytes → Step
  unfolding consume stream_batch
  parse head p [] = some (p, indeterminate)
  parse head p (c ∷ cs) =
      let plain = after_consume (consume head p c) (λ q. parse head q cs) in
      elim (batching p.state p.on_streaming p.temp_int) [
        | none ↦ plain
        | some callback ↦ elim p.resp [ none ↦ none | some r ↦ stream_batch callback r p (c ∷ cs) ]
      ]

-- `reset`; `tempInt_`, `lastChunk_` and the limit stay.
unfoldable pub reset : Parser → Parser
reset p = record p {
  resp = none;
  content_type = unset;
  state = http_version_h;
  temp_string1 = [];
  temp_string2 = [];
  headers_size = 0;
  on_chunked = false;
  on_streaming = none;
  streaming_downloaded = 0;
  streaming_aborted = false;
}

-- `consume_response`, which logs through the pointer that it returns.
unfoldable pub consume_response : Parser → Option (Parser × Response)
unfolding reset
consume_response p = elim p.resp [ none ↦ none | some r ↦ some (reset p, r) ]

-- `setOnChunked`
abbrev pub set_on_chunked : Bool → Parser → Parser
set_on_chunked on p = record p { on_chunked = on }

-- `setOnStreaming`
abbrev pub set_on_streaming : Option (Bytes → ℕ → ℕ → Bool) → Parser → Parser
set_on_streaming callback p = record p {
  on_streaming = callback;
  streaming_downloaded = 0;
  streaming_aborted = false;
}

-- `set_max_content_size`
abbrev pub set_max_content_size : ℕ → Parser → Parser
set_max_content_size size p = record p { max_content_size = size }

-- `get_status_code`
unfoldable pub get_status_code : Parser → ℕ
get_status_code p = elim p.resp [ none ↦ 0 | some r ↦ r.status ]
