-- ===== src/Tests/ResponseParsing.antt =====
-- The response parser at concrete inputs.
use thinger_http.Common.{
  ◌-◌, ◌*◌, ◌^◌, ◌<◌, ◌≤◌, ◌≡◌, ◌≢◌, refl, true, false, none, some, List, [], ◌∷◌, ◌++◌, codes,
  arith, bytes_eq,
}
use thinger_http.Message.Charset.{is_ctl}
use thinger_http.Message.Headers.{HttpHeader, certain, indeterminate, new_headers}
use thinger_http.Message.Headers
use thinger_http.Message.Status.{Status, status_code, status_string}
use thinger_http.Message.Request.{header_lines}
use thinger_http.Message.Response.{Response, new_response, to_buffer, set_status}
use thinger_http.Client.ResponseFactory.{
  Parser, response_factory, header_content_type, http_version_t_2, http_version_p, is_no_token,
  consume_response, on_chunk_read, parse,
}
use thinger_http.Client.ResponseFactory.Safety.{parse-safe, start}
use thinger_http.Client.ResponseFactory.Limits.{
  unfed, fed, on_chunk_read_wraps, parse-headers_size_le,
}
use thinger_http.Client.ResponseFactory.Pieces.{fresh, begun}
use thinger_http.Client.ResponseFactory.Chunks.{with_content, Chunk}
use thinger_http.Client.ResponseFactory.RoundTrip.{IsReadable, deliver, parse-response_buffer}
use thinger_http.Tests.Ascii.{ascii, ascii_iequals, lower}

parse-safe_example :
    (parse false response_factory (codes "HTTP/1.1 200") ≢ none)
    × ((q : Parser)
        → parse false response_factory (codes "HTTP/1.1 200") ≡ some (q, certain true)
        → consume_response q ≢ none)
parse-safe_example = parse-safe false (codes "HTTP/1.1 200") start

abbrev five : Response
five = record new_response { content = codes "01234" }

on_chunk_read_wraps_example :
    (on_chunk_read (2 ^ 64 - 3) response_factory five ≡ true) × (8 * 1048576 < 2 ^ 64 - 3)
on_chunk_read_wraps_example =
    on_chunk_read_wraps 3 response_factory five (omega arith) (omega arith) (omega arith)
      (omega arith) (omega arith)

abbrev two_bytes : Parser
two_bytes = record response_factory { state = http_version_t_2; headers_size = 2 }

two_bytes_run : parse false response_factory (codes "HT") ≡ some (two_bytes, indeterminate)
unfolding parse
two_bytes_run = refl

abbrev http_bytes : Parser
http_bytes = record response_factory { state = http_version_p; headers_size = 3 }

http_bytes_run : parse false two_bytes (codes "T") ≡ some (http_bytes, indeterminate)
unfolding parse
http_bytes_run = refl

parse-headers_size_le_example : (http_bytes.headers_size ≡ 3) × (3 ≤ 8192)
parse-headers_size_le_example =
    parse-headers_size_le false response_factory refl
      (fed (codes "T") (fed (codes "HT") unfed two_bytes_run) http_bytes_run) refl

abbrev hello : List Chunk
hello =
    (record { size = codes "00b"; bytes = codes "hello world" })
    ∷ (record { size = codes "1"; bytes = codes "!" })
    ∷ []

abbrev page : Response
page = record new_response {
  base = record new_headers { headers = (codes "Content-Length", codes "3") ∷ [] };
  content = codes "abc";
  status = 404;
}

page-IsReadable : IsReadable Status.not_found page response_factory
unfolding is_ctl is_no_token header_lines status_string status_code Headers.process_header
    Headers.set_http_version_minor Headers.set_http_version_major set_status ascii_iequals bytes_eq
    lower header_content_type
page-IsReadable = record {
  known = refl;
  headers_ok = ground arith;
  small = omega arith;
  buffered = refl;
  delimited = refl;
  counted = refl;
  fits = omega arith;
  bounded = omega arith;
}

parse-response_buffer_example :
    (q : Parser) × (t : Response) × (parse false
        (fresh response_factory)
        (to_buffer page ++ codes "HTTP")
      ≡ some (q, certain true))
    × (q.resp ≡ some t)
    × (t ≡ with_content (codes "abc") (deliver page.headers (begun Status.not_found)))
    × (t.status ≡ 404)
parse-response_buffer_example =
    parse-response_buffer Status.not_found page response_factory (codes "HTTP") page-IsReadable
