-- ===== src/Client/RequestBuilder.antt =====
-- thinger/http/client/request_builder.hpp: a request that is put together call by call, up to the
-- methods that return the response. Those that stream, download or call back are left out.
pub mod Multipart
use thinger_http.Common.{ℕ, Option, List, [], ◌∷◌, if◌then◌else◌, Bytes, is_empty}
use thinger_http.Boost.{Boost}
use thinger_http.Libraries.{UriRegex}
use thinger_http.Message.Header
use thinger_http.Message.Method
use thinger_http.Message.Method.{Method}
use thinger_http.Message.Request.{Request, new_request, set_method}
use thinger_http.Message.Request.SetUrl.{
  set_url, set_request_content, set_request_header, add_request_header,
}
use thinger_http.Message.Response.{Response}
use thinger_http.Client.Cookie.{Clock}
use thinger_http.Client.Form
use thinger_http.Client.Form.{Form}
use thinger_http.Client.HttpClient.{Network, Client, send}

-- `request_builder`, less its client
pub record Builder : Type 0 where
  pub request : Request
  pub body_content : Bytes
  pub body_content_type : Bytes
  pub protocol : Bytes

-- `unix_socket`
unfoldable pub unix_socket : Bytes → Builder → Builder
unix_socket path q = record q { request = record q.request { unix_socket = path } }

-- `protocol`
unfoldable pub protocol : Bytes → Builder → Builder
protocol proto q = record q { protocol = proto }

-- `body`
unfoldable pub body : Bytes → Bytes → Builder → Builder
body content type q = record q { body_content = content; body_content_type = type }

-- `body`, of a form, which is changed where it has no boundary yet
unfoldable pub form_body : Bytes → Bytes → Form → Builder → Builder × Form
unfolding body Form.body Form.content_type
form_body drawn again f q =
    let (content, kept) = Form.body drawn f in
    let (type, left) = Form.content_type again kept in (body content type q, left)

module _ ⦃b : Boost⦄ where
  -- `request_builder::request_builder`
  unfoldable pub new_builder : ⦃u : UriRegex⦄ → Bytes → Builder
  unfolding set_url
  new_builder url = record {
    request = (set_url url new_request).0;
    body_content = [];
    body_content_type = [];
    protocol = [];
  }

  -- `header`
  unfoldable pub header : Bytes → Bytes → Builder → Builder
  header name value q = record q { request = add_request_header name value q.request }

  -- `headers`, in the order of the map
  unfoldable pub headers : List (Bytes × Bytes) → Builder → Builder
  unfolding header
  headers [] q = q
  headers ((name, value) ∷ hdrs) q = headers hdrs (header name value q)

  -- `set_content(content, content_type)`
  unfoldable pub set_typed_content : Bytes → Bytes → Request → Request
  unfolding set_request_content
  set_typed_content content type r =
      set_request_header Header.content_type type (set_request_content content r)

  -- The request that `execute` sends.
  unfoldable pub ready_request : Method → Builder → Request
  unfolding set_method set_typed_content
  ready_request m q =
      let r = set_method m q.request in
      if is_empty q.body_content then r else set_typed_content q.body_content q.body_content_type r

  module _ ⦃u : UriRegex⦄ {N : Type 0} ⦃n : Network N⦄ (clock : Clock) where
    -- `execute`
    unfoldable pub execute : ℕ → Method → Builder → Client N → Option (Option Response × Client N)
    unfolding ready_request send
    execute fuel m q client =
        send clock fuel (record { http = ready_request m q; cookies = [] }) client

    -- `get`
    unfoldable pub get : ℕ → Builder → Client N → Option (Option Response × Client N)
    unfolding execute
    get fuel q client = execute fuel Method.get q client

    -- `post`
    unfoldable pub post : ℕ → Builder → Client N → Option (Option Response × Client N)
    unfolding execute
    post fuel q client = execute fuel Method.post q client

    -- `put`
    unfoldable pub put : ℕ → Builder → Client N → Option (Option Response × Client N)
    unfolding execute
    put fuel q client = execute fuel Method.put q client

    -- `patch`
    unfoldable pub patch : ℕ → Builder → Client N → Option (Option Response × Client N)
    unfolding execute
    patch fuel q client = execute fuel Method.patch q client

    -- `del`
    unfoldable pub del : ℕ → Builder → Client N → Option (Option Response × Client N)
    unfolding execute
    del fuel q client = execute fuel Method.delete q client

    -- `head`
    unfoldable pub head : ℕ → Builder → Client N → Option (Option Response × Client N)
    unfolding execute
    head fuel q client = execute fuel Method.head q client

    -- `options`
    unfoldable pub options : ℕ → Builder → Client N → Option (Option Response × Client N)
    unfolding execute
    options fuel q client = execute fuel Method.options q client
