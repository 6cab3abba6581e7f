-- ===== src/Client/HttpClient.antt =====
-- thinger/http/client/http_client_base.{hpp,cpp}: requests with redirects, and the choice of a
-- connection. The coroutines run one after the other. The network is a state of its own: what
-- `client_connection` does with it is a parameter. A port that `std::stoi` refuses is not modelled.
pub mod Bounds
pub mod Connections
pub mod Carries
pub mod Redirects
pub mod Origins
use thinger_http.Common.{
  ℕ, zero, suc, ◌+◌, ◌%◌, ◌^◌, Bool, true, false, ◌&&◌, ◌||◌, not, Option, none, some, List, [],
  ◌∷◌, ltb, ◌==◌, if◌then◌else◌, Bytes, codes, bytes_eq, is_empty,
}
use thinger_http.Boost.{Boost}
use thinger_http.Libraries.{UriRegex}
use thinger_http.Message.Header
use thinger_http.Message.Headers
use thinger_http.Message.Headers.{read_digits}
use thinger_http.Message.Method.{Method}
use thinger_http.Message.Request.{
  Request, new_request, set_method, get_port, get_base_path, get_url,
}
use thinger_http.Message.Request.SetUrl.{
  set_url, set_request_content, set_request_header, add_request_header,
}
use thinger_http.Message.Response.{Response, is_redirect_response}
use thinger_http.Client.Cookie.{Clock}
use thinger_http.Client.CookieStore.{CookieStore, update_from_headers, get_cookie_string}
use thinger_http.Client.ConnectionPool.{Key, Pool, get_connection, store_connection}

-- What the client does with its connections: whether one still exists, whether it is open, a new one
-- for a request, and `send_request`.
pub record Network (N : Type 0) : Type 0 where
  pub alive : N → ℕ → Bool
  pub is_open : N → ℕ → Bool
  pub connect : Request → N → ℕ × N
  pub send_request : ℕ → Request → N → Option Response × N

-- A request with its cookie store.
pub record ClientRequest : Type 0 where
  pub http : Request
  pub cookies : CookieStore

pub record Settings : Type 0 where
  pub max_redirects : ℕ
  pub follow_redirects : Bool
  pub user_agent : Bytes
  pub auto_decompress : Bool
  pub unix_socket : Bytes

pub record Client (N : Type 0) : Type 0 where
  pub settings : Settings
  pub pool : Pool
  pub network : N
  -- the requests that were sent, and by which connection, the latest first
  pub sent : List (ℕ × Request)

abbrev pub user_agent_header : Bytes
user_agent_header = codes "User-Agent"

abbrev pub accept_encoding : Bytes
accept_encoding = codes "Accept-Encoding"

abbrev pub authorization : Bytes
authorization = codes "Authorization"

abbrev pub location : Bytes
location = codes "Location"

abbrev pub cookie : Bytes
cookie = codes "Cookie"

-- The key of the pool for a request
unfoldable pub key_of : Request → Key
unfolding get_port read_digits
key_of r =
    if is_empty r.unix_socket
    then record {
      host = r.host;
      port = read_digits 0 (get_port r) % 2 ^ 16;
      ssl = r.ssl;
      unix_path = [];
    }
    else record { host = []; port = 0; ssl = false; unix_path = r.unix_socket }

-- Which method a redirect has.
abbrev pub becomes_get : Method → Bool
becomes_get Method.post = true
becomes_get Method.put = true
becomes_get Method.delete = true
becomes_get _ = false

unfoldable pub redirect_method : Method → ℕ → Method
redirect_method m status =
    if status == 303
    then Method.get
    else if (status == 301 || status == 302) && becomes_get m
    then Method.get
    else m

module _ ⦃b : Boost⦄ where
  -- `apply_default_headers`
  unfoldable pub apply_default_headers : Settings → Request → Request
  apply_default_headers s r =
      let named =
        if Headers.has_header user_agent_header r.base
        then r
        else add_request_header user_agent_header s.user_agent r in
      if s.auto_decompress && not (Headers.has_header accept_encoding named.base)
      then add_request_header accept_encoding (codes "gzip, deflate") named
      else named

  -- The copy of a header that the request has.
  unfoldable pub copy_header : Bytes → Request → Request → Request
  copy_header key from r =
      if Headers.has_header key from.base
      then add_request_header key (Headers.get_header key from.base) r
      else r

  -- The `if` for the statuses 307 and 308.
  unfoldable pub copy_body : ℕ → Request → Request → Request
  unfolding set_request_content copy_header
  copy_body status from r =
      if (status == 307 || status == 308) && not (is_empty from.content)
      then copy_header Header.content_length from
          (copy_header Header.content_type from (set_request_content from.content r))
      else r

  -- The `if` for cookies.
  unfoldable pub copy_cookies : Clock → CookieStore → Response → Request → Request
  unfolding update_from_headers get_cookie_string
  copy_cookies clock store response r =
      let (next, updated) = update_from_headers clock response.base store in
      if updated then set_request_header cookie (get_cookie_string next) r else r

module _ ⦃b : Boost⦄ ⦃u : UriRegex⦄ where
  -- `is_same_origin`
  unfoldable pub is_same_origin : Bytes → Bytes → Bool
  unfolding set_url get_base_path
  is_same_origin url1 url2 =
      let (req1, valid1) = set_url url1 new_request in
      let (req2, valid2) = set_url url2 new_request in
      valid1 && valid2 && bytes_eq (get_base_path req1) (get_base_path req2)

  -- `create_request`
  unfoldable pub create_request : Settings → Method → Bytes → Request
  unfolding set_method set_url apply_default_headers
  create_request s m url =
      let placed = (set_url url (set_method m new_request)).0 in
      apply_default_headers s
        (if is_empty s.unix_socket then placed else record placed { unix_socket = s.unix_socket })

  -- The `if` for the authorization.
  unfoldable pub copy_authorization : Request → Bytes → Request → Request
  unfolding is_same_origin get_url
  copy_authorization from url r =
      if Headers.has_header authorization from.base && is_same_origin (get_url from) url
      then add_request_header authorization (Headers.get_header authorization from.base) r
      else r

  -- The request that follows a redirect.
  unfoldable pub redirect_request : Settings → Clock → ClientRequest → Response → Request
  unfolding create_request redirect_method copy_body copy_authorization copy_cookies
  redirect_request s clock from response =
      let url = Headers.get_header location response.base in
      let created = create_request s (redirect_method from.http.method response.status) url in
      copy_cookies clock from.cookies response
        (copy_authorization from.http url (copy_body response.status from.http created))

-- A connection of the pool, where it is open, or a new one that the pool then has.
module _ {N : Type 0} ⦃n : Network N⦄ where
  unfoldable pub reuse_or_connect : Request → Option ℕ × Pool → Client N → ℕ × Client N
  unfolding store_connection key_of
  reuse_or_connect r (some c, pool) client =
      if n.is_open client.network c
      then (c, record client { pool = pool })
      else let (made, net) = n.connect r client.network in
        (made, record client { pool = store_connection (key_of r) (some made) pool; network = net })
  reuse_or_connect r (none, pool) client =
      let (made, net) = n.connect r client.network in
      (made, record client { pool = store_connection (key_of r) (some made) pool; network = net })

  -- `get_or_create_connection`
  unfoldable pub get_or_create_connection : Request → Client N → ℕ × Client N
  unfolding reuse_or_connect get_connection key_of
  get_or_create_connection r client =
      reuse_or_connect r (get_connection (n.alive client.network) (key_of r) client.pool) client

  -- The call of `send_request`
  unfoldable pub send_once : ℕ → Request → Client N → Option Response × Client N
  send_once c r client =
      let (response, net) = n.send_request c r client.network in
      (response, record client { network = net; sent = (c, r) ∷ client.sent })

module _ ⦃b : Boost⦄ where
  -- Whether a response is followed, after so many redirects.
  unfoldable pub follows : Settings → ℕ → Response → Bool
  unfolding is_redirect_response
  follows s count r =
      s.follow_redirects
      && is_redirect_response r
      && ltb count s.max_redirects
      && Headers.has_header location r.base

module _ ⦃b : Boost⦄ ⦃u : UriRegex⦄ {N : Type 0} ⦃n : Network N⦄ (clock : Clock) where
  -- What `send_with_redirects` does with an answer. `again` sends the next request.
  unfoldable pub on_response :
      (ℕ → ClientRequest → ℕ → Client N → Option (Option Response × Client N))
      → ClientRequest
      → ℕ
      → Option Response × Client N
      → Option (Option Response × Client N)
  unfolding follows redirect_request get_or_create_connection
  on_response again from count (none, client) = some (none, client)
  on_response again from count (some response, client) =
      let next = redirect_request client.settings clock from response in
      let (c, ready) = get_or_create_connection next client in
      let rest = again (count + 1) (record { http = next; cookies = [] }) c ready in
      if follows client.settings count response then rest else some (some response, client)

  -- `send_with_redirects` on fuel, `none` without it.
  unfoldable pub send_with_redirects :
      ℕ → ℕ → ClientRequest → ℕ → Client N → Option (Option Response × Client N)
  unfolding on_response send_once
  send_with_redirects zero count from c client = none
  send_with_redirects (suc fuel) count from c client =
      on_response (send_with_redirects fuel) from count (send_once c from.http client)

  -- `send`
  unfoldable pub send : ℕ → ClientRequest → Client N → Option (Option Response × Client N)
  unfolding send_with_redirects get_or_create_connection
  send fuel r client =
      let (c, ready) = get_or_create_connection r.http client in
      send_with_redirects fuel 0 r c ready
