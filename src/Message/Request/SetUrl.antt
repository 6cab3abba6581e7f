-- ===== src/Message/Request/SetUrl.antt =====
-- thinger/http/common/http_request.cpp: `set_url` and `set_content`.
use thinger_http.Common.{
  Bool, true, false, ◌||◌, Option, none, some, length, if◌then◌else◌, Bytes, codes, bytes_eq,
  is_empty,
}
use thinger_http.Boost.{Boost}
use thinger_http.Libraries.{UrlParts, UriRegex}
use thinger_http.Message.Header
use thinger_http.Message.Headers
use thinger_http.Message.Request.{Request, set_host, set_port, set_uri}

module _ ⦃b : Boost⦄ where
  -- `set_header` of a request
  abbrev pub set_request_header : Bytes → Bytes → Request → Request
  set_request_header key value r = record r { base = Headers.set_header key value r.base }

  -- `add_header` of a request
  abbrev pub add_request_header : Bytes → Bytes → Request → Request
  add_request_header key value r = record r { base = Headers.add_header key value r.base }

  -- `set_content(content)`
  unfoldable pub set_request_content : Bytes → Request → Request
  set_request_content content r =
      set_request_header Header.content_length (b.decimal (length content))
        (record r { content = content })

  -- The last `if` of `set_url`
  unfoldable pub upgrade_websocket_url : Bytes → Request → Request
  upgrade_websocket_url protocol r =
      if bytes_eq protocol (codes "wss") || bytes_eq protocol (codes "ws")
      then set_request_header (codes "Upgrade") (codes "websocket")
          (set_request_header Header.connection (codes "upgrade") r)
      else r

  abbrev pub store_port : Bytes → Request → Request
  store_port port r = if is_empty port then r else set_port port r

  -- What `set_url` does with the parts of the URL.
  unfoldable pub store_url : UrlParts → Request → Request
  unfolding set_host set_port set_uri upgrade_websocket_url
  store_url p r =
      let placed = store_port p.port (set_host p.host r) in
      let secure = bytes_eq p.protocol (codes "https") || bytes_eq p.protocol (codes "wss") in
      upgrade_websocket_url p.protocol (
        set_uri (if is_empty p.uri then codes "/" else p.uri)
          (record placed { protocol = p.protocol; ssl = secure }))

  abbrev pub store_match : Option UrlParts → Request → Request × Bool
  store_match none r = (r, false)
  store_match (some p) r = (store_url p r, true)

  -- `set_url`
  unfoldable pub set_url : ⦃u : UriRegex⦄ → Bytes → Request → Request × Bool
  unfolding store_url
  set_url ⦃u⦄ url r = store_match (u.split_url url) r
