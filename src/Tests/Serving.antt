-- ===== src/Tests/Serving.antt =====
-- A server with a guard and bodies, at concrete inputs.
use thinger_http.Common.{
  ◌*◌, ◌<◌, ◌≤◌, ◌≡◌, refl, true, false, [], ◌∷◌, ◌++◌, if◌then◌else◌, length, take, codes,
  starts_with, arith,
}
use thinger_http.Util.Base64.{encode}
use thinger_http.Message.Headers.{new_headers, has_header, get_header, has_key, get_value}
use thinger_http.Message.Method
use thinger_http.Message.Request.{new_request, has_pending_body}
use thinger_http.Server.ChunkedDecoder.Encoding.{chunk_bytes}
use thinger_http.Server.RequestBody.{new_server_request}
use thinger_http.Server.RequestBody.Available.{available}
use thinger_http.Server.RequestBody.SizedBody.{AwaitsSized}
use thinger_http.Server.Exchange.{Exchange, request_of, new_exchange, set_auth_user}
use thinger_http.Server.Responder.{new_responder}
use thinger_http.Server.BasicAuth.{Verify, is_user, basic, authorization, basic_auth}
use thinger_http.Server.BasicAuth.Access.{basic_auth-encode}
use thinger_http.Server.HttpServer.{HttpServer, new_server}
use thinger_http.Server.HttpServer.Guard.{Guarded, serve-Guarded}
use thinger_http.Server.HttpServer.Bodies.{
  limited, Waits, Called, Refused, RefusedUnread, dispatch-sized, dispatch-chunks,
}
use thinger_http.Tests.Ascii.{ascii, lower, ascii_iequals}
use thinger_http.Tests.BodyReading.{cut, chunks, cut-Awaits}
use thinger_http.Tests.Routing.{exact, no_codec, no_json, router, route_at}

abbrev ann : Verify
ann = is_user (codes "ann") (codes "x:y")

abbrev guarded_server : HttpServer Unit
guarded_server = record new_server {
  router = router;
  middlewares = basic_auth ⦃b = ascii⦄ (codes "/users") (codes "staff") ann ∷ [];
}

-- GET /users/ann with the credentials `ann:x:y`
abbrev known : Exchange
known = new_exchange true (
    new_server_request
      (record new_request {
        base = record new_headers {
          headers = (authorization, basic ++ encode (codes "ann" ++ b':' ∷ codes "x:y")) ∷ [];
        };
        method = Method.get;
        uri = codes "/users/ann";
      })
      [])

serve-Guarded_example : Guarded ⦃b = ascii⦄ ann [] 1 guarded_server known
unfolding starts_with
serve-Guarded_example =
    serve-Guarded ⦃b = ascii⦄ (codes "/users") (codes "staff") ann [] 1 guarded_server known refl
      refl refl

abbrev done : Exchange → Exchange
done x = record x { passed = true }

basic_auth-encode_example :
    (basic_auth ⦃b = ascii⦄
      (codes "/users")
      (codes "staff")
      ann
      done
      (new_responder false known)).exchange
    ≡ done (
        if starts_with (codes "/users") (request_of known).uri
        then set_auth_user (codes "ann") known
        else known)
unfolding has_header get_header has_key get_value ascii_iequals lower is_user
basic_auth-encode_example =
    basic_auth-encode ⦃b = ascii⦄ (codes "/users") (codes "staff") ann done false known
      (codes "ann") (codes "x:y") refl (ground arith) (ground arith) refl refl refl

-- A chunked body of three bytes, with the limit of a new server.
abbrev chunked_upload : Exchange
chunked_upload = new_exchange true cut

chunked_upload-Waits : Waits (route_at (codes "/") []) chunked_upload
unfolding has_pending_body
chunked_upload-Waits = record { connected = refl; not_deferred = refl; pending = refl }

dispatch-chunks_example :
    (length (chunk_bytes chunks) ≤ 8 * 1024 * 1024
      → Called ⦃b = ascii⦄ 32 new_server
          (route_at (codes "/") [])
          chunked_upload
          chunked_upload-Waits
          (chunk_bytes chunks))
    × (8 * 1024 * 1024 < length (chunk_bytes chunks)
        → Refused ⦃b = ascii⦄ 32 new_server
            (route_at (codes "/") [])
            chunked_upload
            chunked_upload-Waits)
dispatch-chunks_example =
    dispatch-chunks ⦃b = ascii⦄ 32 new_server (route_at (codes "/") []) chunked_upload
      chunked_upload-Waits chunks (b'G' ∷ []) cut-Awaits (omega arith)

-- Three bytes by Content-Length, two of them ahead.
abbrev sized_upload : Exchange
sized_upload =
    new_exchange true
      (record (new_server_request
        (record new_request { base = record new_headers { content_length = 3 } })
        ((b'c' ∷ b'd' ∷ []) ∷ [])) { read_ahead = b'a' ∷ b'b' ∷ [] })

sized_upload-Waits : Waits (route_at (codes "/") []) sized_upload
unfolding has_pending_body
sized_upload-Waits = record { connected = refl; not_deferred = refl; pending = refl }

sized_upload-AwaitsSized : AwaitsSized ⦃b = ascii⦄ (limited {J = Unit} new_server sized_upload)
unfolding has_header has_key
sized_upload-AwaitsSized = record {
  not_chunked = refl;
  plain = refl;
  nothing_read = refl;
  full = (omega arith, tt);
}

dispatch-sized_example :
    (3 ≤ 8 * 1024 * 1024
      → 3 ≤ length (available (limited {J = Unit} new_server sized_upload))
      → Called ⦃b = ascii⦄ 1 new_server
          (route_at (codes "/") [])
          sized_upload
          sized_upload-Waits
          (take 3 (available (limited {J = Unit} new_server sized_upload))))
    × (8 * 1024 * 1024 < 3
        → RefusedUnread ⦃b = ascii⦄ 1 new_server
            (route_at (codes "/") [])
            sized_upload
            sized_upload-Waits)
dispatch-sized_example =
    dispatch-sized ⦃b = ascii⦄ 1 new_server (route_at (codes "/") []) sized_upload
      sized_upload-Waits sized_upload-AwaitsSized
