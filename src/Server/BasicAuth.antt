-- ===== src/Server/BasicAuth.antt =====
-- thinger/http/server/http_server_base.cpp: the middleware of `set_basic_auth`. The test for a null
-- request is left out: a request has its HTTP request from its constructor.
pub mod Access
use thinger_http.Common.{
  Bool, true, false, ◌&&◌, not, Option, none, some, List, [], ◌∷◌, ◌++◌, if◌then◌else◌, drop, Bytes,
  codes, bytes_eq, starts_with,
}
use thinger_http.Boost.{Boost}
use thinger_http.Libraries.{Zlib}
use thinger_http.Util.Base64.{decode}
use thinger_http.Util.Url.{split_at}
use thinger_http.Message.Headers.{has_header, get_header}
use thinger_http.Message.Status.{unauthorized}
use thinger_http.Server.Exchange.{Exchange, request_of, set_auth_user}
use thinger_http.Server.Responder.{Responder, send, status, header, text_plain}
use thinger_http.Server.HttpServer.{Middleware, HttpServer, use_middleware}

-- `auth_verify_function`
abbrev pub Verify : Type 0
Verify = Bytes → Bytes → Bool

-- The overload for one user.
unfoldable pub is_user : Bytes → Bytes → Verify
is_user username password u p = bytes_eq u username && bytes_eq p password

-- The overload for a map of users.
unfoldable pub is_one_of : List (Bytes × Bytes) → Verify
is_one_of [] u p = false
is_one_of ((name, password) ∷ users) u p =
    if bytes_eq name u then bytes_eq password p else is_one_of users u p

abbrev pub authorization : Bytes
authorization = codes "Authorization"

abbrev pub basic : Bytes
basic = codes "Basic "

module _ ⦃b : Boost⦄ ⦃z : Zlib⦄ where
  -- The answer 401 that names the realm.
  unfoldable pub challenge : Bytes → Bytes → Responder → Responder
  unfolding send header status
  challenge realm text t = send text text_plain (
      header (codes "WWW-Authenticate") (codes "Basic realm=\"" ++ (realm ++ b'"' ∷ []))
        (status unauthorized t))

  -- The answer 401 to what is no `username:password`.
  unfoldable pub refuse_format : Responder → Responder
  unfolding send status
  refuse_format t = send (codes "Invalid credentials format") text_plain (status unauthorized t)

  -- `next()`, after a change of the request
  abbrev pub go_on : (Exchange → Exchange) → (Exchange → Exchange) → Responder → Responder
  go_on next f t = record t { exchange = next (f t.exchange) }

  -- What stands before the first `:`, and from it on.
  unfoldable pub check_credentials : Bytes → Verify → Bytes × Bytes → Middleware
  unfolding challenge refuse_format set_auth_user
  check_credentials realm verify (username, []) next t = refuse_format t
  check_credentials realm verify (username, colon ∷ password) next t =
      if verify username password
      then go_on next (set_auth_user username) t
      else challenge realm (codes "Invalid username or password") t

  unfoldable pub basic_auth : Bytes → Bytes → Verify → Middleware
  unfolding check_credentials challenge split_at decode starts_with has_header get_header
  basic_auth path_prefix realm verify next t =
      let http = request_of t.exchange in
      let auth_header = get_header authorization http.base in
      if not (starts_with path_prefix http.uri)
      then go_on next (λ x. x) t
      else if not (has_header authorization http.base)
      then challenge realm (codes "Authentication required") t
      else if not (starts_with basic auth_header)
      then challenge realm (codes "Invalid authentication") t
      else check_credentials realm verify (split_at b':' (decode (drop 6 auth_header))) next t

  -- `set_basic_auth`
  unfoldable pub set_basic_auth :
      {J : Type 0} → Bytes → Bytes → Verify → HttpServer J → HttpServer J
  unfolding use_middleware basic_auth
  set_basic_auth path_prefix realm verify s = use_middleware (basic_auth path_prefix realm verify) s
