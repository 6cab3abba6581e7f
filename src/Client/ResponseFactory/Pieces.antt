-- ===== src/Client/ResponseFactory/Pieces.antt =====
-- The parser over the pieces of a head, with any `tail` behind them.
use thinger_http.Common.{
  ℕ, suc, ◌+◌, ◌≤◌, ◌≡◌, ◌≢◌, refl, ◌∙◌, ap, Bool, false, none, some, [], ◌∷◌, ◌++◌, append_assoc,
  append-nil, All, Bytes, length, drop, length-append, arith,
}
use thinger_http.Boost.{Boost}
use thinger_http.Message.Headers.{HttpHeader}
use thinger_http.Message.Header
use thinger_http.Message.Charset.{is_ctl}
use thinger_http.Message.Status.{Status, status_code, status_string}
use thinger_http.Message.Request.{header_line}
use thinger_http.Message.Response.{Response, new_response, set_status}
use thinger_http.Client.ResponseFactory.{
  State, Parser, ContentType, unset, http_version_h, header_line_start, header_name, header_value,
  is_no_token, set_major, set_minor, set_reason_phrase, header_content_type, process_resp_header,
  max_headers_size, parse,
}

abbrev pub IsToken : ℕ → Type 0
IsToken c = is_no_token c ≡ false

abbrev pub IsText : ℕ → Type 0
IsText c = is_ctl c ≡ false

-- A header that a server may send.
abbrev pub IsSendableHeader : HttpHeader → Type 0
IsSendableHeader (key, value) = (key ≢ []) × All IsToken key × All IsText value

abbrev pub head_at : State → Bytes → Bytes → ℕ → ℕ → ContentType → Response → Parser → Parser
head_at s t1 t2 n size t r p = record p {
  state = s;
  temp_string1 = t1;
  temp_string2 = t2;
  temp_int = n;
  headers_size = size;
  content_type = t;
  resp = some r;
}

-- What stands behind the code in the status line.
abbrev pub reason_of : Status → Bytes
reason_of s = drop 13 (status_string s)

-- The response that the parser holds after the status line.
abbrev pub begun : Status → Response
begun s =
    set_reason_phrase (reason_of s)
      (set_status (status_code s) (set_minor 1 (set_major 1 new_response)))

-- A parser that waits for a response.
abbrev pub fresh : Parser → Parser
fresh p = record p {
  state = http_version_h;
  temp_string1 = [];
  temp_string2 = [];
  headers_size = 0;
  content_type = unset;
  resp = none;
}

length-header_line :
    (key value : Bytes) → length (header_line (key, value)) ≡ length key + 2 + length value + 2
unfolding header_line
length-header_line key value = omega (
  arith,
  length-append key (Header.name_value_separator ++ (value ++ Header.crlf)),
  length-append value Header.crlf,
)

module _ ⦃b : Boost⦄ (head : Bool) (p : Parser) where
  pub parse_status_line :
      (s : Status) (tail : Bytes)
      → parse head (fresh p) (status_string s ++ (b'\r' ∷ b'\n' ∷ tail))
        ≡ parse head
            (head_at header_line_start
              (reason_of s)
              []
              (status_code s)
              (length (status_string s) + 2)
              unset
              (begun s)
              p)
            tail
  unfolding parse status_string status_code set_status
  parse_status_line Status.ok tail = refl
  parse_status_line _ tail = refl

  parse_name :
      (name t1 t2 tail : Bytes) (n size : ℕ) (t : ContentType) (r : Response)
      → All IsToken name
      → size + length name ≤ max_headers_size
      → parse head (head_at header_name t1 t2 n size t r p) (name ++ tail)
        ≡ parse head (head_at header_name (t1 ++ name) t2 n (size + length name) t r p) tail
  parse_name [] t1 t2 tail n size t r h le =
      let e : size + 0 ≡ size = omega arith in rw (append-nil, e)
  parse_name (c ∷ name) t1 t2 tail n size t r (k, h) le =
      let e : suc size + length name ≡ size + suc (length name) = omega arith in
      step
      ∙ parse_name name (t1 ++ c ∷ []) t2 tail n (suc size) t r h (omega arith)
      ∙ rw (append_assoc, e)
    where
      step :
          parse head (head_at header_name t1 t2 n size t r p) (c ∷ (name ++ tail))
          ≡ parse head (head_at header_name (t1 ++ c ∷ []) t2 n (suc size) t r p) (name ++ tail)
      step = unfold parse is_no_token in ground arith

  parse_value :
      (value t1 t2 tail : Bytes) (n size : ℕ) (t : ContentType) (r : Response)
      → All IsText value
      → size + length value ≤ max_headers_size
      → parse head (head_at header_value t1 t2 n size t r p) (value ++ tail)
        ≡ parse head (head_at header_value t1 (t2 ++ value) n (size + length value) t r p) tail
  parse_value [] t1 t2 tail n size t r h le =
      let e : size + 0 ≡ size = omega arith in rw (append-nil, e)
  parse_value (c ∷ value) t1 t2 tail n size t r (k, h) le =
      let e : suc size + length value ≡ size + suc (length value) = omega arith in
      step
      ∙ parse_value value t1 (t2 ++ c ∷ []) tail n (suc size) t r h (omega arith)
      ∙ rw (append_assoc, e)
    where
      step :
          parse head (head_at header_value t1 t2 n size t r p) (c ∷ (value ++ tail))
          ≡ parse head (head_at header_value t1 (t2 ++ c ∷ []) n (suc size) t r p) (value ++ tail)
      step = unfold parse in ground arith

  parse_line_start :
      (c : ℕ) (t1 t2 tail : Bytes) (n size : ℕ) (t : ContentType) (r : Response)
      → IsToken c
      → size + 1 ≤ max_headers_size
      → parse head (head_at header_line_start t1 t2 n size t r p) (c ∷ tail)
        ≡ parse head (head_at header_name (c ∷ []) t2 n (size + 1) t r p) tail
  unfolding parse is_no_token
  parse_line_start c t1 t2 tail n size t r h le = ground arith

  parse_separator :
      (t1 t2 tail : Bytes) (n size : ℕ) (t : ContentType) (r : Response)
      → size + 2 ≤ max_headers_size
      → parse head (head_at header_name t1 t2 n size t r p) (b':' ∷ b' ' ∷ tail)
        ≡ parse head (head_at header_value t1 [] n (size + 2) t r p) tail
  unfolding parse
  parse_separator t1 t2 tail n size t r le = ground arith

  parse_end_value :
      (t1 t2 tail : Bytes) (n size : ℕ) (t : ContentType) (r : Response)
      → size + 2 ≤ max_headers_size
      → parse head (head_at header_value t1 t2 n size t r p) (b'\r' ∷ b'\n' ∷ tail)
        ≡ parse head
            (head_at header_line_start t1 t2 n
              (size + 2)
              (header_content_type t1 t2 t)
              (process_resp_header t1 t2 r)
              p)
            tail
  unfolding parse
  parse_end_value t1 t2 tail n size t r le = ground arith

  pub parse-header_line :
      (key value t1 t2 tail : Bytes) (n size : ℕ) (t : ContentType) (r : Response)
      → IsSendableHeader (key, value)
      → size + length (header_line (key, value)) ≤ max_headers_size
      → parse head (head_at header_line_start t1 t2 n size t r p) (header_line (key, value) ++ tail)
        ≡ parse head
            (head_at header_line_start key value n
              (size + length (header_line (key, value)))
              (header_content_type key value t)
              (process_resp_header key value r)
              p)
            tail
  unfolding header_line
  parse-header_line [] value t1 t2 tail n size t r h le = absurd (h.0 refl)
  parse-header_line (c ∷ name) value t1 t2 tail n size t r (ne, (k, ks), vs) le =
      let total : length (header_line (c ∷ name, value))
          ≡ suc (length name) + 2 + length value + 2 =
        length-header_line (c ∷ name) value in
      let e : size + 1 + length name + 2 + length value + 2
          ≡ size + length (header_line (c ∷ name, value)) =
        omega arith in
      simp append_assoc (
        parse_line_start c t1 t2 _ n size t r k (omega arith)
        ∙ parse_name name (c ∷ []) t2 _ n (size + 1) t r ks (omega arith)
        ∙ parse_separator (c ∷ name) t2 _ n (size + 1 + length name) t r (omega arith)
        ∙ parse_value value (c ∷ name) [] _ n (size + 1 + length name + 2) t r vs (omega arith)
        ∙ parse_end_value (c ∷ name) value tail n (size + 1 + length name + 2 + length value) t r
            (omega arith)
        ∙ ap
            (λ total.
              parse head
                (head_at header_line_start (c ∷ name) value n total
                  (header_content_type (c ∷ name) value t) (process_resp_header (c ∷ name) value r)
                  p)
                tail)
            e)
