-- ===== src/Tests/RequestParsing.antt =====
-- The request parser at concrete inputs.
use thinger_http.Common.{
  ◌-◌, ◌^◌, ◌≡◌, ◌≢◌, refl, true, false, none, some, [], ◌∷◌, ◌++◌, Bytes, codes, arith, bytes_eq,
}
use thinger_http.Message.Charset.{is_ctl}
use thinger_http.Util.Url.{url_decode?, parse_url_encoded_data}
use thinger_http.Message.Headers.{HttpHeader, certain, new_headers}
use thinger_http.Message.Headers
use thinger_http.Message.Method.{Method, get_method}
use thinger_http.Message.Request
use thinger_http.Message.Request.{Request, new_request, to_buffer, store_query}
use thinger_http.Server.RequestFactory.{
  Parser, expecting_newline_3, request_factory, set_headers_only, parse, is_no_token, has_dots,
  is_absolute,
}
use thinger_http.Server.RequestFactory.Safety.{parse-ne-none, parse-IsSafePath, start, IsSafePath}
use thinger_http.Server.RequestFactory.RoundTrip.{
  IsSendable, parse-to_buffer, sent_headers, received, deliver,
}
use thinger_http.Server.RequestFactory.{header_line_start}
use thinger_http.Server.RequestFactory.Pieces.{at}
use thinger_http.Server.RequestFactory.Body.{parse-to_buffer_body, with_content}
use thinger_http.Server.RequestFactory.Folding.{parse-fold}
use thinger_http.Tests.Ascii.{ascii, ascii_iequals, ascii_trim, split_from, lower}

abbrev line : Bytes
line = codes "GET /a?b=c HTTP/1.1\r\nAccept: x\r\n\r\nrest"

-- What the parser holds behind the blank line of `line`.
abbrev taken : Parser
taken = record request_factory {
  state = expecting_newline_3;
  temp_string1 = codes "Accept";
  temp_string2 = codes "x";
  temp_int = 2 ^ 64 - 1;
  req = some (record new_request {
    base = record new_headers { headers = (codes "Accept", codes "x") ∷ [] };
    method = Method.get;
    uri = codes "/a?b=c";
    resource = codes "/a";
    uri_params = (codes "b", codes "c") ∷ [];
  });
}

run : parse request_factory line ≡ some (taken, certain true, codes "rest")
unfolding parse is_no_token Request.set_method_string Request.set_uri Request.process_header
    Headers.process_header Headers.empty_headers Headers.set_http_version_major
    Headers.set_http_version_minor bytes_eq ascii_iequals ascii_trim get_method
    parse_url_encoded_data
run = refl

parse-ne-none_example : parse request_factory line ≢ none
parse-ne-none_example = parse-ne-none start line

abbrev post_a : Request
post_a = record new_request {
  base = record new_headers {
    headers = (codes "Content-Length", codes "2") ∷ (codes "X-A", codes "b c") ∷ [];
  };
  method = Method.post;
  uri = codes "/a%20b?q=1";
  content = codes "hi";
}

post_a-IsSendable : IsSendable post_a
unfolding is_ctl is_no_token url_decode? has_dots is_absolute Request.not_replaced
post_a-IsSendable = record {
  known = λ e. cc;
  uri_bytes = ground arith;
  uri_safe = (refl, refl);
  headers_ok = ground arith;
}

parse-to_buffer_example :
    (q : Parser) × (s : Request) × (parse
        (set_headers_only true request_factory)
        (to_buffer post_a ++ codes "GET")
      ≡ some (q, certain true, codes "hiGET"))
    × (q.req ≡ some s)
    × (s ≡ deliver (sent_headers post_a) (received post_a))
    × (s.method ≡ Method.post)
    × (s.uri ≡ codes "/a%20b?q=1")
parse-to_buffer_example = parse-to_buffer post_a (codes "GET") post_a-IsSendable

parse-IsSafePath_example :
    (r : Request) × (path : Bytes) × (taken.req ≡ some r)
    × (url_decode? r.uri ≡ some path)
    × IsSafePath path
parse-IsSafePath_example = parse-IsSafePath line start run

post_a_length : (deliver (sent_headers post_a) (received post_a)).content_length ≡ 2
unfolding Request.not_replaced Request.process_header Headers.process_header Request.set_uri
    ascii_iequals ascii_trim parse_url_encoded_data bytes_eq split_from lower
    Headers.set_http_version_minor Headers.set_http_version_major
post_a_length = refl

parse-to_buffer_body_example :
    let s = deliver (sent_headers post_a) (received post_a) in
    (q : Parser) × (parse request_factory (to_buffer post_a ++ codes "GET")
      ≡ some (q, certain true, codes "GET"))
    × (q.req ≡ some (with_content (codes "hi") s))
parse-to_buffer_body_example =
    parse-to_buffer_body post_a (codes "GET") post_a-IsSendable post_a_length

parse-fold_example :
    parse
      (at false header_line_start (codes "Accept") (codes "x") 0 (some post_a))
      (codes " yz\r\n")
    ≡ parse
        (at false header_line_start
          (codes "Accepty")
          (codes "xz")
          0
          (some (Request.process_header (codes "Accepty") (codes "xz") post_a)))
        []
parse-fold_example =
    parse-fold false b'y' (codes "Accept") (codes "x") (codes "z") [] 0 post_a
      (unfold Headers.empty_headers in refl) (unfold is_ctl in refl) refl
      (unfold is_ctl in (refl, tt))
