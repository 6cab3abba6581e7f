-- ===== src/Server/RequestFactory/RoundTrip.antt =====
-- The parser reads what `http_request::to_buffer` writes.
use thinger_http.Common.{
  ℕ, ◌^◌, ◌-◌, ◌≡◌, ◌≢◌, refl, ◌∙◌, Bool, true, none, some, List, [], ◌∷◌, ◌++◌, append_assoc, All,
  Bytes, arith,
}
use thinger_http.Boost.{Boost}
use thinger_http.Util.Url.{url_decode?}
use thinger_http.Message.Headers.{HttpHeader, certain}
use thinger_http.Message.Header
use thinger_http.Message.Method.{Method, method_string}
use thinger_http.Message.Request
use thinger_http.Message.Request.{
  Request, new_request, header_line, header_lines, not_replaced, to_buffer,
}
use thinger_http.Message.Request.Frame.{
  SameRequest, process_header-Same, set_uri-uri, set_uri-keeps,
}
use thinger_http.Server.RequestFactory.{
  Parser, request_factory, set_headers_only, method_start, header_line_start, expecting_newline_3,
  set_major, set_minor, parse,
}
use thinger_http.Server.RequestFactory.Safety.{DecodesSafely}
use thinger_http.Server.RequestFactory.Pieces.{
  at, IsUriByte, IsSendableHeader, parse_uri, parse_end_uri, parse_method, parse_version,
  parse-header_line,
}

-- The headers in the order in which `to_buffer` writes them.
abbrev pub sent_headers : Request → List HttpHeader
sent_headers r = r.proxy_headers ++ not_replaced r.proxy_headers r.headers

-- A request that the server accepts: a known method, a URI with no space or control character
-- whose decoded form is a safe path, and well-formed headers.
pub record IsSendable (r : Request) : Type 0 where
  pub known : r.method ≢ Method.unknown
  pub uri_bytes : All IsUriByte r.uri
  pub uri_safe : DecodesSafely (url_decode? r.uri)
  pub headers_ok : All IsSendableHeader (sent_headers r)

-- The request that the parser holds before the headers.
abbrev pub received : Request → Request
received r =
    set_minor 1 (set_major 1 (Request.set_uri r.uri (record new_request { method = r.method })))

received_method : (r : Request) → (received r).method ≡ r.method
received_method r = (set_uri-keeps r.uri (record new_request { method = r.method })).0

received_uri : (r : Request) → (received r).uri ≡ r.uri
received_uri r = set_uri-uri r.uri (record new_request { method = r.method })

abbrev pub last_header : HttpHeader → List HttpHeader → HttpHeader
last_header h [] = h
last_header h (k ∷ hs) = last_header k hs

header_lines-append :
    (hs ks : List HttpHeader) → header_lines (hs ++ ks) ≡ header_lines hs ++ header_lines ks
unfolding header_lines
header_lines-append [] ks = refl
header_lines-append (h ∷ hs) ks = simp (header_lines-append hs ks, append_assoc)

module _ ⦃b : Boost⦄ where
  -- The headers given to `process_header`, in order.
  abbrev pub deliver : List HttpHeader → Request → Request
  deliver [] r = r
  deliver ((key, value) ∷ hs) r = deliver hs (Request.process_header key value r)

  pub parse-header_lines :
      (hs : List HttpHeader) (only : Bool) (t : HttpHeader) (tail : Bytes) (n : ℕ) (r : Request)
      → All IsSendableHeader hs
      → let u = last_header t hs in
        parse (at only header_line_start t.0 t.1 n (some r)) (header_lines hs ++ tail)
        ≡ parse (at only header_line_start u.0 u.1 n (some (deliver hs r))) tail
  unfolding header_lines
  parse-header_lines [] only t tail n r h = refl
  parse-header_lines ((key, value) ∷ hs) only t tail n r (k, h) = rw append_assoc (
      parse-header_line only key value t.0 t.1 _ n r k
      ∙ parse-header_lines hs only (key, value) tail n (Request.process_header key value r) h)

  parse_end_headers :
      (t1 t2 tail : Bytes) (n : ℕ) (r : Request)
      → parse (at true header_line_start t1 t2 n (some r)) (b'\r' ∷ b'\n' ∷ tail)
        ≡ some (at true expecting_newline_3 t1 t2 n (some r), certain true, tail)
  unfolding parse
  parse_end_headers t1 t2 tail n r = refl

  pub deliver-Same : (hs : List HttpHeader) (r : Request) → SameRequest r (deliver hs r)
  deliver-Same [] r = ground arith
  deliver-Same ((key, value) ∷ hs) r =
      ground (
        arith,
        process_header-Same key value r,
        deliver-Same hs (Request.process_header key value r),
      )

  pub parse_request_line :
      (r : Request) (only : Bool) (tail : Bytes)
      → IsSendable r
      → parse (at only method_start [] [] 0 none) (
          method_string r.method
          ++ (b' ' ∷ (r.uri ++ (b' ' ∷ (Header.http_1_1 ++ (Header.crlf ++ tail))))))
        ≡ parse (at only header_line_start [] [] (2 ^ 64 - 1) (some (received r))) tail
  parse_request_line r only tail s =
      parse_method only r.method 0 _ s.known
      ∙ parse_uri only r.uri [] [] _ 0 (some (record new_request { method = r.method })) s.uri_bytes
      ∙ parse_end_uri only (url_decode? r.uri) r.uri [] _ 0 _ refl s.uri_safe
      ∙ parse_version only 0 _ tail

  module _ (r : Request) (rest : Bytes) where
    -- what follows the request line
    abbrev pub head_tail : Bytes
    head_tail = header_lines (sent_headers r) ++ (Header.crlf ++ (r.content ++ rest))

    pub to_buffer-append :
        to_buffer r ++ rest
        ≡ method_string r.method
          ++ (b' ' ∷ (r.uri ++ (b' ' ∷ (Header.http_1_1 ++ (Header.crlf ++ head_tail)))))
    unfolding to_buffer
    to_buffer-append = simp (header_lines-append, append_assoc)

  -- A request with a known method, a URI of plain characters that decodes to a safe path, and well-
  -- formed headers (`IsSendable`), written by `to_buffer`, is read back by a fresh parser of
  -- headers only, whatever follows: the bytes up to the blank line are taken, the body and what
  -- follows it are left, and the parser holds the method and the URI that were sent, with the
  -- headers processed in the order in which they were written.
  pub parse-to_buffer :
      (r : Request) (rest : Bytes)
      → IsSendable r
      → (q : Parser) × (s : Request) × (parse
            (set_headers_only true request_factory)
            (to_buffer r ++ rest)
          ≡ some (q, certain true, r.content ++ rest))
        × (q.req ≡ some s)
        × (s ≡ deliver (sent_headers r) (received r))
        × (s.method ≡ r.method)
        × (s.uri ≡ r.uri)
  parse-to_buffer r rest h =
      let u = last_header ([], []) (sent_headers r) in
      let s = deliver (sent_headers r) (received r) in
      let same = deliver-Same (sent_headers r) (received r) in
      (
        at true expecting_newline_3 u.0 u.1 (2 ^ 64 - 1) (some s),
        s,
        rw (to_buffer-append r rest) (
            parse_request_line r true _ h
            ∙ parse-header_lines (sent_headers r) true ([], []) _ _ (received r) h.headers_ok
            ∙ parse_end_headers u.0 u.1 (r.content ++ rest) _ s),
        refl,
        refl,
        same.method ∙ received_method r,
        same.uri ∙ received_uri r,
      )
