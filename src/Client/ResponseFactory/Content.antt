-- ===== src/Client/ResponseFactory/Content.antt =====
-- The cases of `response_factory::consume` for the end of the headers and the content.
use thinger_http.Common.{
  ℕ, ◌+◌, ◌-◌, ◌*◌, ◌%◌, ◌^◌, Bool, true, false, ◌||◌, Option, none, some, [], ◌∷◌, ◌++◌, ltb, leb,
  ◌==◌, if◌then◌else◌, length, Bytes, is_empty,
}
use thinger_http.Message.Response.{Response, new_response}
use thinger_http.Client.ResponseFactory.Defs.{
  ContentType, Parser, ◌>>=◌, Step, more, invalid, complete, is_hexadecimal, get_hex_value,
  with_resp, lenght_delimited_content, chunked_content_size, chunked_content_size_expecting_n,
  chunked_content, chunked_content_expecting_n, unset, lenght_delimited, chunked, chunk_event,
  stream_event,
}

abbrev pub is_set {ℓ} : {A : Type ℓ} → Option A → Bool
is_set none = false
is_set (some _) = true

-- `on_length_delimited_content`
unfoldable pub on_length_delimited_content : ℕ → Parser → Bool
on_length_delimited_content size p =
    if is_set p.on_streaming then true else leb size p.max_content_size

-- `on_chunk_read`; the sum wraps around.
unfoldable pub on_chunk_read : ℕ → Parser → Response → Bool
on_chunk_read size p r =
    if size == 0
    then true
    else if is_set p.on_streaming
    then true
    else leb ((length r.content + size) % 2 ^ 64) p.max_content_size

-- A call of `on_chunked_`, if it is set.
abbrev pub call_chunked : ℕ → Bytes → Parser → Parser
call_chunked kind bytes p =
    if p.on_chunked then record p { events = chunk_event kind bytes ∷ p.events } else p

-- The branches of `case expecting_newline_3` at the end of the headers.
unfoldable pub begin_content : Bool → ContentType → Response → Parser → Step
unfolding on_length_delimited_content
begin_content head unset r p = complete p
begin_content head lenght_delimited r p =
    if ltb 0 r.content_length
    then (if head
        then complete p
        else let q = record p { state = lenght_delimited_content; temp_int = r.content_length } in
          if on_length_delimited_content r.content_length q
          then more lenght_delimited_content q
          else invalid q)
    else complete p
begin_content head chunked r p =
    if head
    then complete p
    else more chunked_content_size
        (call_chunked 0 [] (record p { temp_int = 0; last_chunk = false }))

-- `get_content_length()` is called only for `lenght_delimited`.
unfoldable pub end_headers : Bool → Option Response → Parser → Step
unfolding begin_content
end_headers head none p = elim p.content_type [
  | lenght_delimited ↦ none
  | unset ↦ begin_content head unset new_response p
  | chunked ↦ begin_content head chunked new_response p
]
end_headers head (some r) p = begin_content head p.content_type r p

-- `on_content_data`
abbrev pub on_content_data : ℕ → Response → Response
on_content_data c r = record r { content = r.content ++ c ∷ [] }

-- `case lenght_delimited_content`; `--tempInt_` wraps around at 0.
unfoldable pub consume_delimited : Parser → ℕ → Step
unfolding with_resp
consume_delimited p c = with_resp (on_content_data c) p >>= λ q.
    let left = (q.temp_int + 2 ^ 64 - 1) % 2 ^ 64 in
    if ltb 0 left
    then more lenght_delimited_content (record q { temp_int = left })
    else complete (record q { temp_int = left })

-- `case chunked_content_size`
unfoldable pub consume_chunk_size : Parser → ℕ → Step
unfolding is_hexadecimal get_hex_value
consume_chunk_size p c =
    if is_hexadecimal c
    then more chunked_content_size
        (record p { temp_int = (p.temp_int * 16 + get_hex_value c) % 2 ^ 64 })
    else if c == b'\r'
    then more chunked_content_size_expecting_n
        (record p { last_chunk = (if p.temp_int == 0 then true else p.last_chunk) })
    else invalid p

-- `case chunked_content_size_expecting_n`
unfoldable pub consume_chunk_newline : Parser → ℕ → Step
unfolding on_chunk_read
consume_chunk_newline p c =
    if c == b'\n'
    then elim p.resp [
      | none ↦ if p.temp_int == 0 || is_set p.on_streaming then more chunked_content p else none
      | some r ↦ if on_chunk_read p.temp_int p r then more chunked_content p else invalid p
    ]
    else invalid p

-- `case chunked_content`
unfoldable pub consume_chunk : Parser → ℕ → Step
unfolding with_resp
consume_chunk p c =
    if ltb 0 p.temp_int
    then (with_resp (on_content_data c) p >>= λ q.
        more chunked_content (record q { temp_int = q.temp_int - 1 }))
    else if c == b'\r'
    then more chunked_content_expecting_n p
    else invalid p

-- The callbacks at the end of a chunk that is not the last one.
abbrev pub clear_content : Response → Response
clear_content r = record r { content = [] }

unfoldable pub stream_chunk : (Bytes → ℕ → ℕ → Bool) → Response → Parser → Step
stream_chunk callback r p =
    let downloaded = (p.streaming_downloaded + length r.content) % 2 ^ 64 in
    let q = record p {
      streaming_downloaded = downloaded;
      events = stream_event r.content downloaded 0 ∷ p.events;
    } in
    if callback r.content downloaded 0
    then more chunked_content_size (record q { resp = some (clear_content r) })
    else invalid (record q { streaming_aborted = true })

-- the `else if(on_chunked_)`
unfoldable pub hand_chunk : Response → Parser → Step
hand_chunk r p =
    if p.on_chunked
    then more chunked_content_size
        (record p { events = chunk_event 1 r.content ∷ p.events; resp = some (clear_content r) })
    else more chunked_content_size p

unfoldable pub next_chunk : Option (Bytes → ℕ → ℕ → Bool) → Option Response → Parser → Step
unfolding stream_chunk hand_chunk
next_chunk none none p = if p.on_chunked then none else more chunked_content_size p
next_chunk none (some r) p = hand_chunk r p
next_chunk (some callback) none p = none
next_chunk (some callback) (some r) p =
    if is_empty r.content then hand_chunk r p else stream_chunk callback r p

-- `case chunked_content_expecting_n`
unfoldable pub consume_chunk_end : Parser → ℕ → Step
unfolding next_chunk
consume_chunk_end p c =
    if c == b'\n'
    then (if p.last_chunk
        then complete (call_chunked 2 [] p)
        else next_chunk p.on_streaming p.resp
            (record p { temp_int = 0; state = chunked_content_size }))
    else invalid p
