-- ===== src/Server/RequestFactory/Pieces.antt =====
-- The parser over one piece of a request, with any `tail` behind it.
use thinger_http.Common.{
  ℕ, ◌-◌, ◌^◌, ◌≡◌, ◌≢◌, refl, ◌∙◌, Bool, false, Option, none, some, [], ◌∷◌, ◌++◌, append-nil,
  append_assoc, All, Bytes, bytes_eq, arith,
}
use thinger_http.Boost.{Boost}
use thinger_http.Util.Url.{url_decode?}
use thinger_http.Message.Headers.{HttpHeader}
use thinger_http.Message.Header
use thinger_http.Message.Charset.{is_ctl}
use thinger_http.Message.Request
use thinger_http.Message.Method.{Method, get_method, method_string}
use thinger_http.Message.Request.{Request, new_request, header_line}
use thinger_http.Server.RequestFactory.{
  State, Parser, method_start, uri, http_version_h, header_line_start, header_name, header_value,
  is_no_token, end_uri, set_major, set_minor, consume_name, parse,
}
use thinger_http.Server.RequestFactory.Safety.{DecodesSafely}

-- A byte of a header name or a method.
abbrev pub IsToken : ℕ → Type 0
IsToken c = is_no_token c ≡ false

-- A byte of a header value.
abbrev pub IsText : ℕ → Type 0
IsText c = is_ctl c ≡ false

-- A byte of a URI.
abbrev pub IsUriByte : ℕ → Type 0
IsUriByte c = (is_ctl c ≡ false) × (c ≢ b' ')

abbrev pub at : Bool → State → Bytes → Bytes → ℕ → Option Request → Parser
at only s name value n req = record {
  state = s;
  temp_string1 = name;
  temp_string2 = value;
  temp_int = n;
  headers_only = only;
  req = req;
}

module _ ⦃b : Boost⦄ (only : Bool) where
  parse_name :
      (name t1 t2 tail : Bytes) (n : ℕ) (req : Option Request)
      → All IsToken name
      → parse (at only header_name t1 t2 n req) (name ++ tail)
        ≡ parse (at only header_name (t1 ++ name) t2 n req) tail
  parse_name [] t1 t2 tail n req h = rw append-nil
  parse_name (c ∷ name) t1 t2 tail n req (k, h) =
      step ∙ parse_name name (t1 ++ c ∷ []) t2 tail n req h ∙ rw append_assoc
    where
      step :
          parse (at only header_name t1 t2 n req) (c ∷ (name ++ tail))
          ≡ parse (at only header_name (t1 ++ c ∷ []) t2 n req) (name ++ tail)
      step = unfold parse consume_name is_no_token in ground arith

  pub parse_value :
      (value t1 t2 tail : Bytes) (n : ℕ) (req : Option Request)
      → All IsText value
      → parse (at only header_value t1 t2 n req) (value ++ tail)
        ≡ parse (at only header_value t1 (t2 ++ value) n req) tail
  parse_value [] t1 t2 tail n req h = rw append-nil
  parse_value (c ∷ value) t1 t2 tail n req (k, h) =
      step ∙ parse_value value t1 (t2 ++ c ∷ []) tail n req h ∙ rw append_assoc
    where
      step :
          parse (at only header_value t1 t2 n req) (c ∷ (value ++ tail))
          ≡ parse (at only header_value t1 (t2 ++ c ∷ []) n req) (value ++ tail)
      step = unfold parse in ground arith

  pub parse_uri :
      (u t1 t2 tail : Bytes) (n : ℕ) (req : Option Request)
      → All IsUriByte u
      → parse (at only uri t1 t2 n req) (u ++ tail) ≡ parse (at only uri (t1 ++ u) t2 n req) tail
  parse_uri [] t1 t2 tail n req h = rw append-nil
  parse_uri (c ∷ u) t1 t2 tail n req (k, h) =
      step ∙ parse_uri u (t1 ++ c ∷ []) t2 tail n req h ∙ rw append_assoc
    where
      step :
          parse (at only uri t1 t2 n req) (c ∷ (u ++ tail))
          ≡ parse (at only uri (t1 ++ c ∷ []) t2 n req) (u ++ tail)
      step = unfold parse in ground arith

  pub parse_end_uri :
      (o : Option Bytes) (u t2 tail : Bytes) (n : ℕ) (r : Request)
      → url_decode? u ≡ o
      → DecodesSafely o
      → parse (at only uri u t2 n (some r)) (b' ' ∷ tail)
        ≡ parse (at only http_version_h [] t2 n (some (Request.set_uri u r))) tail
  unfolding parse
  parse_end_uri none u t2 tail n r e safe = absurd safe
  parse_end_uri (some path) u t2 tail n r e safe = rw (e, end_uri) (ground arith)

  pub parse_method :
      (m : Method) (n : ℕ) (tail : Bytes)
      → m ≢ Method.unknown
      → parse (at only method_start [] [] n none) (method_string m ++ (b' ' ∷ tail))
        ≡ parse (at only uri [] [] n (some (record new_request { method = m }))) tail
  unfolding parse method_string is_no_token Request.set_method_string get_method bytes_eq
  parse_method Method.get n tail h = refl
  parse_method Method.head n tail h = refl
  parse_method Method.post n tail h = refl
  parse_method Method.put n tail h = refl
  parse_method Method.delete n tail h = refl
  parse_method Method.trace n tail h = refl
  parse_method Method.options n tail h = refl
  parse_method Method.connect n tail h = refl
  parse_method Method.patch n tail h = refl
  parse_method Method.unknown n tail h = absurd (h refl)

  pub parse_version :
      (n : ℕ) (r : Request) (tail : Bytes)
      → parse (at only http_version_h [] [] n (some r)) (Header.http_1_1 ++ (Header.crlf ++ tail))
        ≡ parse
            (at only header_line_start [] [] (2 ^ 64 - 1) (some (set_minor 1 (set_major 1 r))))
            tail
  unfolding parse
  parse_version n r tail = refl

-- A header that a client may send.
abbrev pub IsSendableHeader : HttpHeader → Type 0
IsSendableHeader (key, value) = (key ≢ []) × All IsToken key × All IsText value

module _ ⦃b : Boost⦄ (only : Bool) where
  parse_line_start :
      (c : ℕ) (t1 t2 tail : Bytes) (n : ℕ) (r : Request)
      → IsToken c
      → parse (at only header_line_start t1 t2 n (some r)) (c ∷ tail)
        ≡ parse (at only header_name (c ∷ []) t2 n (some r)) tail
  unfolding parse is_no_token
  parse_line_start c t1 t2 tail n r h = ground arith

  parse_separator :
      (t1 t2 tail : Bytes) (n : ℕ) (r : Request)
      → parse (at only header_name t1 t2 n (some r)) (b':' ∷ b' ' ∷ tail)
        ≡ parse (at only header_value t1 [] n (some r)) tail
  unfolding parse
  parse_separator t1 t2 tail n r = refl

  pub parse_end_value :
      (t1 t2 tail : Bytes) (n : ℕ) (r : Request)
      → parse (at only header_value t1 t2 n (some r)) (b'\r' ∷ b'\n' ∷ tail)
        ≡ parse (at only header_line_start t1 t2 n (some (Request.process_header t1 t2 r))) tail
  unfolding parse
  parse_end_value t1 t2 tail n r = refl

  pub parse-header_line :
      (key value t1 t2 tail : Bytes) (n : ℕ) (r : Request)
      → IsSendableHeader (key, value)
      → parse (at only header_line_start t1 t2 n (some r)) (header_line (key, value) ++ tail)
        ≡ parse
            (at only header_line_start key value n (some (Request.process_header key value r)))
            tail
  unfolding header_line
  parse-header_line [] value t1 t2 tail n r h = absurd (h.0 refl)
  parse-header_line (c ∷ name) value t1 t2 tail n r (ne, (k, ks), vs) = simp append_assoc (
      parse_line_start c t1 t2 _ n r k
      ∙ parse_name only name (c ∷ []) t2 _ n (some r) ks
      ∙ parse_separator (c ∷ name) t2 _ n r
      ∙ parse_value only value (c ∷ name) [] _ n (some r) vs
      ∙ parse_end_value (c ∷ name) value tail n r)
