-- ===== src/Server/RequestFactory/Body.antt =====
-- Reading the body, where the parser is asked for more than the headers.
use thinger_http.Common.{
  ℕ, suc, ◌+◌, ◌^◌, ◌-◌, ◌≡◌, refl, ◌∙◌, true, false, some, [], ◌∷◌, ◌++◌, append_assoc, Bytes,
  length, length-append, arith,
}
use thinger_http.Boost.{Boost}
use thinger_http.Message.Headers.{certain}
use thinger_http.Message.Request.{Request, new_request, to_buffer}
use thinger_http.Message.Request.Frame.{set_uri-keeps}
use thinger_http.Server.RequestFactory.{
  Parser, request_factory, header_line_start, expecting_newline_3, content, parse,
}
use thinger_http.Server.RequestFactory.Pieces.{at}
use thinger_http.Server.RequestFactory.RoundTrip.{
  IsSendable, sent_headers, received, deliver, last_header, parse_request_line, parse-header_lines,
  to_buffer-append, deliver-Same,
}

-- The request with more of its body.
abbrev pub with_content : Bytes → Request → Request
with_content body r = record r { content = body }

module _ ⦃b : Boost⦄ where
  parse_content :
      (body : Bytes) (c : ℕ) (t1 t2 rest : Bytes) (n : ℕ) (r : Request)
      → length r.content + suc (length body) ≡ r.content_length
      → parse (at false content t1 t2 n (some r)) (c ∷ (body ++ rest))
        ≡ some (
          at false content t1 t2 n (some (with_content (r.content ++ c ∷ body) r)),
          certain true,
          rest,
        )
  unfolding parse
  parse_content [] c t1 t2 rest n r e = ground arith
  parse_content (d ∷ body) c t1 t2 rest n r e = ground (
    arith,
    parse_content body d t1 t2 rest n (with_content (r.content ++ c ∷ []) r),
    length-append r.content (c ∷ []),
    append_assoc r.content (c ∷ []) (d ∷ body),
  )

  parse_end_headers_body :
      (body t1 t2 rest : Bytes) (n : ℕ) (r : Request)
      → r.content ≡ []
      → r.content_length ≡ length body
      → (q : Parser) × (parse
            (at false header_line_start t1 t2 n (some r))
            (b'\r' ∷ b'\n' ∷ (body ++ rest))
          ≡ some (q, certain true, rest))
        × (q.req ≡ some (with_content body r))
  unfolding parse
  parse_end_headers_body [] t1 t2 rest n r e l =
      (at false expecting_newline_3 t1 t2 n (some r), ground arith, ground arith)
  parse_end_headers_body (c ∷ body) t1 t2 rest n r e l = (
    at false content t1 t2 n (some (with_content (c ∷ body) r)),
    ground (arith, parse_content body c t1 t2 rest n r),
    refl,
  )

  deliver_content : (r : Request) → (deliver (sent_headers r) (received r)).content ≡ []
  deliver_content r =
      (deliver-Same (sent_headers r) (received r)).content
      ∙ (set_uri-keeps r.uri (record new_request { method = r.method })).2

  -- A request as in `parse-to_buffer` (`IsSendable`), for which the Content-Length that the server
  -- reads is the size of the body, is taken whole by a fresh parser, with this body, and nothing of
  -- what follows it.
  pub parse-to_buffer_body :
      (r : Request) (rest : Bytes)
      → IsSendable r
      → let s = deliver (sent_headers r) (received r) in
        s.content_length ≡ length r.content
        → (q : Parser) × (parse request_factory (to_buffer r ++ rest)
            ≡ some (q, certain true, rest))
          × (q.req ≡ some (with_content r.content s))
  parse-to_buffer_body r rest h e =
      let u = last_header ([], []) (sent_headers r) in
      let s = deliver (sent_headers r) (received r) in
      let (q, ended, taken) =
        parse_end_headers_body r.content u.0 u.1 rest (2 ^ 64 - 1) s (deliver_content r) e in
      (
        q,
        rw (to_buffer-append r rest) (
            parse_request_line r false _ h
            ∙ parse-header_lines (sent_headers r) false ([], []) _ _ (received r) h.headers_ok
            ∙ ended),
        taken,
      )
