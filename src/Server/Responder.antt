-- ===== src/Server/Responder.antt =====
-- thinger/http/server/response.{hpp,cpp}: the object by which a handler answers a request, here with
-- the request it answers. Logging is left out.
pub mod Answers
pub mod Framing
pub mod Calls
pub mod Once
use thinger_http.Common.{
  ℕ, Bool, true, false, ◌||◌, ◌&&◌, not, Option, none, some, List, [], ◌∷◌, ◌++◌, ltb,
  if◌then◌else◌, length, Bytes, codes, is_empty, starts_with, contains,
}
use thinger_http.Boost.{Boost}
use thinger_http.Libraries.{Zlib}
use thinger_http.Message.Header
use thinger_http.Message.Headers
use thinger_http.Message.Headers.{Headers}
use thinger_http.Message.Status.{Status, status_code}
use thinger_http.Message.Request.{Request}
use thinger_http.Message.Response.{
  Response, new_response, set_status, set_content, set_content_type,
}
use thinger_http.Server.Exchange.{Exchange, Sent, request_of, change_at}

pub record Responder : Type 0 where
  pub exchange : Exchange
  -- the address of `response_`
  pub response : Option ℕ
  pub responded : Bool
  pub cors_enabled : Bool

-- `response::response`
abbrev pub new_responder : Bool → Exchange → Responder
new_responder cors x = record {
  exchange = x;
  response = none;
  responded = false;
  cors_enabled = cors;
}

-- `is_compressible_content_type`
unfoldable pub is_compressible_content_type : Bytes → Bool
unfolding starts_with
is_compressible_content_type type =
    starts_with (codes "text/") type
    || starts_with (codes "application/json") type
    || starts_with (codes "application/xml") type
    || starts_with (codes "application/javascript") type
    || starts_with (codes "application/x-javascript") type
    || starts_with (codes "image/svg+xml") type

abbrev pub add : Bytes → Bytes → Response → Response
add key value r = record r { base = Headers.add_header key value r.base }

-- The headers of `prepare_response` and `send_response` for CORS.
unfoldable pub add_cors : Bool → Response → Response
add_cors false r = r
add_cors true r = add (codes "Access-Control-Allow-Credentials") (codes "true") (
    add (codes "Access-Control-Allow-Headers")
      (codes "Content-Type, Authorization, X-Requested-With")
      (add (codes "Access-Control-Allow-Methods")
        (codes "GET, POST, PUT, DELETE, OPTIONS, HEAD, PATCH")
        (add (codes "Access-Control-Allow-Origin") (codes "*") r)))

abbrev on_responses : (List Response → List Response) → Responder → Responder
on_responses f t = record t { exchange = record t.exchange { responses = f t.exchange.responses } }

-- A change of `*response_`, which is not null when the code makes one.
unfoldable pub on_response : (Response → Response) → Responder → Responder
unfolding change_at
on_response f t = elim t.response [ none ↦ t | some a ↦ on_responses (change_at a f) t ]

abbrev give : Sent → Exchange → Exchange
give s x = if x.connected then record x { sent = s ∷ x.sent } else x

abbrev hand_over_to : Option ℕ → Bool → Exchange → Exchange
hand_over_to none last x = x
hand_over_to (some a) last x = give (Sent.head a last) x

-- The end of `send_prepared_response`, `send_response`, `start_chunked`: `handle_stream`.
unfoldable pub hand_over : Bool → Responder → Responder
hand_over last t = record t { exchange = hand_over_to t.response last t.exchange; responded = true }

-- A chunk that the stream is given.
abbrev pub add_chunk : Bytes → Bool → Responder → Responder
add_chunk bytes last t = record t { exchange = give (Sent.chunk bytes last) t.exchange }

-- `write_chunk`
unfoldable pub write_chunk : Bytes → Responder → Responder × Bool
write_chunk bytes t =
    if t.responded && t.exchange.connected then (add_chunk bytes false t, true) else (t, false)

-- `end_chunked`
unfoldable pub end_chunked : Responder → Responder × Bool
end_chunked t =
    if t.responded && t.exchange.connected then (add_chunk [] true t, true) else (t, false)

abbrev pub text_plain : Bytes
text_plain = codes "text/plain"

module _ ⦃b : Boost⦄ ⦃z : Zlib⦄ where
  -- The response that `prepare_response` makes.
  unfoldable pub prepared : Bool → Request → Response
  unfolding add_cors
  prepared cors http = add_cors cors (record new_response {
    base = Headers.set_keep_alive (Headers.keep_alive http.base) new_response.base;
  })

  -- `prepare_response`
  unfoldable pub prepare_response : Responder → Responder
  unfolding prepared
  prepare_response t = elim t.response [
    | some a ↦ t
    | none ↦
        record (on_responses (λ rs. rs ++ prepared t.cors_enabled (request_of t.exchange) ∷ []) t) {
          response = some (length t.exchange.responses);
        }
  ]

  unfoldable pub store_compressed : Bytes → Option Bytes → Response → Response
  unfolding set_content
  store_compressed encoding none r = r
  store_compressed encoding (some bytes) r =
      add (codes "Content-Encoding") encoding (set_content bytes r)

  -- `compress_response_if_needed`
  unfoldable pub compress_response : Request → Response → Response
  unfolding store_compressed is_compressible_content_type contains
  compress_response http r =
      let type = Headers.get_header Header.content_type r.base in
      let accept = Headers.get_header (codes "Accept-Encoding") http.base in
      if ltb (length r.content) 200
      then r
      else if Headers.has_header (codes "Content-Encoding") r.base
      then r
      else if is_empty type || not (is_compressible_content_type type)
      then r
      else if is_empty accept
      then r
      else if contains (codes "gzip") accept
      then store_compressed (codes "gzip") (z.gzip r.content) r
      else if contains (codes "deflate") accept
      then store_compressed (codes "deflate") (z.deflate r.content) r
      else r

  abbrev compress : Responder → Responder
  compress t = on_response (compress_response (request_of t.exchange)) t

  -- `send_prepared_response`
  unfoldable pub send_prepared_response : Responder → Responder
  unfolding prepare_response on_response compress_response hand_over
  send_prepared_response t =
      if t.responded then t else hand_over true (compress (prepare_response t))

  abbrev pub set_typed : Bytes → Bytes → Response → Response
  set_typed content type r = set_content_type type (set_content content r)

  -- `send`
  unfoldable pub send : Bytes → Bytes → Responder → Responder
  unfolding prepare_response on_response set_content set_content_type send_prepared_response
  send text type t = send_prepared_response (on_response (set_typed text type) (prepare_response t))

  -- `html`
  unfoldable pub html : Bytes → Responder → Responder
  unfolding send
  html text t = send text (codes "text/html") t

  -- `json`, of a value that `dump` has written
  unfoldable pub json : Bytes → Status → Responder → Responder
  unfolding prepare_response on_response set_content set_content_type send_prepared_response
  json dumped s t = send_prepared_response (
      on_response (λ r. set_typed dumped (codes "application/json") (set_status (status_code s) r))
        (prepare_response t))

  abbrev pub set_message : Bytes → Response → Response
  set_message message r = if is_empty message then r else set_typed message text_plain r

  -- `error`
  unfoldable pub error : Status → Bytes → Responder → Responder
  unfolding prepare_response on_response set_content set_content_type send_prepared_response
  error s message t =
      send_prepared_response
        (on_response (λ r. set_message message (set_status (status_code s) r)) (prepare_response t))

  -- `status`
  unfoldable pub status : Status → Responder → Responder
  unfolding prepare_response on_response
  status s t =
      if t.responded then t else on_response (set_status (status_code s)) (prepare_response t)

  -- `header`
  unfoldable pub header : Bytes → Bytes → Responder → Responder
  unfolding prepare_response on_response
  header key value t = if t.responded then t else on_response (add key value) (prepare_response t)

  -- `redirect`
  unfoldable pub redirect : Bytes → Status → Responder → Responder
  unfolding prepare_response on_response send_prepared_response
  redirect url s t = send_prepared_response (
      on_response (λ r. add (codes "Location") url (set_status (status_code s) r))
        (prepare_response t))

  -- `response_ = response` in `send_response`, which gives it an address of its own, and the headers
  unfoldable pub adopt : Response → Responder → Responder
  unfolding add_cors
  adopt given t =
      let base =
        Headers.set_keep_alive (Headers.keep_alive (request_of t.exchange).base) given.base in
      let full = add_cors t.cors_enabled (record given { base = base }) in
      record (on_responses (λ rs. rs ++ full ∷ []) t) {
        response = some (length t.exchange.responses);
      }

  -- `send_response`
  unfoldable pub send_response : Response → Responder → Responder
  unfolding on_response compress_response hand_over adopt
  send_response given t = if t.responded then t else hand_over true (compress (adopt given t))

  -- The response of `start_chunked`.
  abbrev pub chunked_head : Bytes → Status → Response → Response
  chunked_head type s r = add (codes "X-Content-Type-Options") (codes "nosniff") (
      add Header.transfer_encoding (codes "chunked")
        (set_content_type type (set_status (status_code s) r)))

  -- `start_chunked`
  unfoldable pub start_chunked : Bytes → Status → Responder → Responder × Bool
  unfolding prepare_response on_response set_content_type hand_over
  start_chunked type s t =
      if not t.responded && t.exchange.connected
      then (hand_over false (on_response (chunked_head type s) (prepare_response t)), true)
      else (t, false)
