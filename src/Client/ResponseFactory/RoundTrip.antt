-- ===== src/Client/ResponseFactory/RoundTrip.antt =====
-- The parser reads what `http_response::to_buffer` writes.
use thinger_http.Common.{
  ℕ, suc, ◌+◌, ◌^◌, ◌<◌, ◌≤◌, ◌≡◌, refl, ◌∙◌, sym, Bool, true, false, none, some, List, [], ◌∷◌,
  ◌++◌, append_assoc, All, Bytes, length, length-append, arith,
}
use thinger_http.Boost.{Boost}
use thinger_http.Message.Headers.{HttpHeader, certain}
use thinger_http.Message.Status.{
  Status, status_code, status_string, find_status, get_status_string, statuses,
}
use thinger_http.Message.Request.{header_line, header_lines}
use thinger_http.Message.Response.{Response, to_buffer, set_status}
use thinger_http.Client.ResponseFactory.{
  Parser, ContentType, unset, lenght_delimited, header_line_start, expecting_newline_3,
  lenght_delimited_content, header_content_type, process_resp_header, max_headers_size, parse,
}
use thinger_http.Client.ResponseFactory.Pieces.{
  IsSendableHeader, reason_of, head_at, begun, fresh, parse_status_line, parse-header_line,
}
use thinger_http.Client.ResponseFactory.Chunks.{at, with_content}

find_status-status_code : (s : Status) → find_status (status_code s) statuses ≡ some s
unfolding find_status
find_status-status_code Status.ok = refl
find_status-status_code _ = refl

abbrev last_header : HttpHeader → List HttpHeader → HttpHeader
last_header h [] = h
last_header h (k ∷ hs) = last_header k hs

module _ ⦃b : Boost⦄ where
  -- The response after its headers have been processed in order, and how its body is delimited.
  abbrev pub deliver : List HttpHeader → Response → Response
  deliver [] r = r
  deliver ((key, value) ∷ hs) r = deliver hs (process_resp_header key value r)

  abbrev pub delimited_by : List HttpHeader → ContentType → ContentType
  delimited_by [] t = t
  delimited_by ((key, value) ∷ hs) t = delimited_by hs (header_content_type key value t)

  deliver_keeps :
      (hs : List HttpHeader) (r : Response)
      → ((deliver hs r).content ≡ r.content) × ((deliver hs r).status ≡ r.status)
  deliver_keeps [] r = (refl, refl)
  deliver_keeps ((key, value) ∷ hs) r = deliver_keeps hs (process_resp_header key value r)

  module _ (head : Bool) (p : Parser) where
    parse-header_lines :
        (hs : List HttpHeader) (h : HttpHeader) (tail : Bytes) (n size : ℕ) (t : ContentType)
        (r : Response)
        → All IsSendableHeader hs
        → size + length (header_lines hs) ≤ max_headers_size
        → let u = last_header h hs in
          parse head (head_at header_line_start h.0 h.1 n size t r p) (header_lines hs ++ tail)
          ≡ parse head
              (head_at header_line_start u.0 u.1 n
                (size + length (header_lines hs))
                (delimited_by hs t)
                (deliver hs r)
                p)
              tail
    unfolding header_lines
    parse-header_lines [] h tail n size t r k le = let e : size + 0 ≡ size = omega arith in rw e
    parse-header_lines ((key, value) ∷ hs) h tail n size t r (k, ks) le =
        let line = length (header_line (key, value)) in
        let total = length-append (header_line (key, value)) (header_lines hs) in
        let e : size + line + length (header_lines hs)
            ≡ size + length (header_lines ((key, value) ∷ hs)) =
          omega arith in
        rw (append_assoc, ← e)
          (parse-header_line head p key value h.0 h.1 _ n size t r k (omega arith)
            ∙ parse-header_lines hs (key, value) tail n (size + line)
                (header_content_type key value t) (process_resp_header key value r) ks
                (omega arith))

    parse_delimited :
        (body : Bytes) (c : ℕ) (rest : Bytes) (r : Response)
        → p.on_streaming ≡ none
        → length body < 2 ^ 63
        → parse head (at lenght_delimited_content (suc (length body)) r p) (c ∷ (body ++ rest))
          ≡ some (
            at lenght_delimited_content 0 (with_content (r.content ++ c ∷ body) r) p,
            certain true,
          )
    unfolding parse
    parse_delimited [] c rest r e lt = ground arith
    parse_delimited (d ∷ body) c rest r e lt = ground (
      arith,
      parse_delimited body d rest (with_content (r.content ++ c ∷ []) r) e (omega arith),
      append_assoc r.content (c ∷ []) (d ∷ body),
    )

  -- A response that a server sends: a status of the list, well-formed headers of at most 8192 bytes
  -- together with the status line, the last of which that says how the body is delimited gives its
  -- length.
  pub record IsReadable (s : Status) (r : Response) (p : Parser) : Type 0 where
    pub known : r.status ≡ status_code s
    pub headers_ok : All IsSendableHeader r.headers
    pub small :
        length (status_string s) + 2 + length (header_lines r.headers) + 2 ≤ max_headers_size
    pub buffered : p.on_streaming ≡ none
    pub delimited : delimited_by r.headers unset ≡ lenght_delimited
    pub counted : (deliver r.headers (begun s)).content_length ≡ length r.content
    pub fits : length r.content ≤ p.max_content_size
    pub bounded : p.max_content_size < 2 ^ 63

  get_status_string-status :
      (s : Status) (n : ℕ)
      → n ≡ status_code s
      → get_status_string (find_status n statuses) ≡ status_string s
  unfolding get_status_string
  get_status_string-status s n e = rw (e, find_status-status_code s)

  module _ (s : Status) (r : Response) (rest : Bytes) where
    -- what follows the status line
    abbrev head_tail : Bytes
    head_tail = header_lines r.headers ++ (b'\r' ∷ b'\n' ∷ (r.content ++ rest))

    to_buffer-append :
        r.status ≡ status_code s
        → to_buffer r ++ rest ≡ status_string s ++ (b'\r' ∷ b'\n' ∷ head_tail)
    unfolding to_buffer
    to_buffer-append e = simp (get_status_string-status s r.status e, append_assoc)

  parse_begin_content :
      (t1 t2 tail : Bytes) (n size left : ℕ) (r : Response) (p : Parser)
      → p.on_streaming ≡ none
      → r.content_length ≡ left
      → 0 < left
      → left ≤ p.max_content_size
      → size + 2 ≤ max_headers_size
      → parse false
          (head_at header_line_start t1 t2 n size lenght_delimited r p)
          (b'\r' ∷ b'\n' ∷ tail)
        ≡ parse false
            (at lenght_delimited_content left r
              (head_at header_line_start t1 t2 n (size + 2) lenght_delimited r p))
            tail
  unfolding parse
  parse_begin_content t1 t2 tail n size left r p e same pos fits small = ground arith

  parse_end_headers :
      (body t1 t2 rest : Bytes) (n size : ℕ) (r : Response) (p : Parser)
      → p.on_streaming ≡ none
      → r.content ≡ []
      → r.content_length ≡ length body
      → length body ≤ p.max_content_size
      → p.max_content_size < 2 ^ 63
      → size + 2 ≤ max_headers_size
      → (q : Parser) × (parse false
            (head_at header_line_start t1 t2 n size lenght_delimited r p)
            (b'\r' ∷ b'\n' ∷ (body ++ rest))
          ≡ some (q, certain true))
        × (q.resp ≡ some (with_content body r))
  parse_end_headers [] t1 t2 rest n size r p e empty l fits lt small = (
    head_at expecting_newline_3 t1 t2 n (size + 2) lenght_delimited r p,
    unfold parse in ground arith,
    ground arith,
  )
  parse_end_headers (c ∷ body) t1 t2 rest n size r p e empty l fits lt small =
      let p' = head_at header_line_start t1 t2 n (size + 2) lenght_delimited r p in
      (
        at lenght_delimited_content 0 (with_content (c ∷ body) r) p',
        parse_begin_content t1 t2 _ n size (suc (length body)) r p e l (omega arith) (omega arith)
              small
            ∙ parse_delimited false p' body c rest r e (omega arith)
            ∙ rw empty,
        refl,
      )

  begun_keeps : (s : Status) → ((begun s).content ≡ []) × ((begun s).status ≡ status_code s)
  unfolding set_status
  begun_keeps s = (refl, refl)

  -- A response with a status of the list and well-formed headers that fit in 8192 bytes with the
  -- status line, delimited by a Content-Length that is the size of its body, within a limit below
  -- 2^63, is read back by a parser that waits for a response and does not stream (`IsReadable`): it
  -- is complete after its body, whatever follows, with this body and status, and its headers
  -- processed in the order in which they were written.
  pub parse-response_buffer :
      (s : Status) (r : Response) (p : Parser) (rest : Bytes)
      → IsReadable s r p
      → (q : Parser) × (t : Response) × (parse false (fresh p) (to_buffer r ++ rest)
          ≡ some (q, certain true))
        × (q.resp ≡ some t)
        × (t ≡ with_content r.content (deliver r.headers (begun s)))
        × (t.status ≡ r.status)
  parse-response_buffer s r p rest h =
      let read = deliver r.headers (begun s) in
      let u = last_header (reason_of s, []) r.headers in
      let size = length (status_string s) + 2 in
      let keeps = deliver_keeps r.headers (begun s) in
      let (q, ended, taken) =
        parse_end_headers r.content u.0 u.1 rest (status_code s)
          (size + length (header_lines r.headers)) read p h.buffered (keeps.0 ∙ (begun_keeps s).0)
          h.counted h.fits h.bounded h.small in
      (
        q,
        with_content r.content read,
        rw (to_buffer-append s r rest h.known) (
            parse_status_line false p s _
            ∙ parse-header_lines false p r.headers (reason_of s, []) _ (status_code s) size unset
                (begun s) h.headers_ok (omega (arith, h))
            ∙ rw h.delimited ended),
        taken,
        refl,
        keeps.1 ∙ (begun_keeps s).1 ∙ sym h.known,
      )
