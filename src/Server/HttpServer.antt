-- ===== src/Server/HttpServer.antt =====
-- thinger/http/server/http_server_base.{hpp,cpp}: the server's routes and middlewares, and what it
-- does with a request. A middleware is a function of `next` and of the object that it answers by; one
-- that throws is not modelled, nor one that calls `next` after it has returned.
pub mod Guard
pub mod Bodies
use thinger_http.Common.{
  ℕ, ◌*◌, Bool, true, false, ◌&&◌, not, Option, none, some, List, [], ◌∷◌, ◌++◌, ltb, if◌then◌else◌,
  Bytes, codes,
}
use thinger_http.Boost.{Boost}
use thinger_http.Libraries.{Zlib, Regex, JsonLib}
use thinger_http.Message.Method.{Method}
use thinger_http.Message.Status.{payload_too_large}
use thinger_http.Message.Request.{has_pending_body}
use thinger_http.Server.RequestBody.{ServerRequest, read_body}
use thinger_http.Server.Exchange.{Exchange, RouteInfo, AuthLevel, request_of}
use thinger_http.Server.Responder.{Responder, new_responder, error}
use thinger_http.Server.Routing.{
  Outcome, returned, map_outcome, Handler, Callback, awaitable, Route, Router, find_route,
  handle_unmatched, run_callback, run_callback_coro, append_route,
}

-- `middleware_function`
abbrev pub Middleware : Type 0
Middleware = (Exchange → Exchange) → Responder → Responder

pub record HttpServer (J : Type 0) : Type 0 where
  pub router : Router J
  pub middlewares : List Middleware
  pub cors_enabled : Bool
  pub ssl_enabled : Bool
  pub max_body_size : ℕ

-- `http_server_base()`
abbrev pub new_server : {J : Type 0} → HttpServer J
new_server = record {
  router = record { routes = []; cors_enabled = false; fallback_handler = none };
  middlewares = [];
  cors_enabled = false;
  ssl_enabled = false;
  max_body_size = 8 * 1024 * 1024;
}

module _ {J : Type 0} where
  -- `route::operator=`: an awaitable callback defers the body.
  unfoldable pub set_callback : Callback J → RouteInfo → Route J
  set_callback (awaitable f) r = record {
    info = record r { deferred_body = true };
    callback = awaitable f;
  }
  set_callback c r = record { info = r; callback = c }

  -- `router_[m][path] = handler`, of a route that the constructor has made
  unfoldable pub add_route : Method → RouteInfo → Callback J → HttpServer J → HttpServer J
  unfolding append_route set_callback
  add_route m r handler s = record s {
    router = record s.router { routes = append_route m (set_callback handler r) s.router.routes };
  }

  -- `use`
  unfoldable pub use_middleware : Middleware → HttpServer J → HttpServer J
  use_middleware m s = record s { middlewares = s.middlewares ++ m ∷ [] }

  -- `set_not_found_handler`
  unfoldable pub set_not_found_handler : Handler → HttpServer J → HttpServer J
  set_not_found_handler handler s = record s {
    router = record s.router { fallback_handler = some handler };
  }

  -- `enable_cors`
  unfoldable pub enable_cors : Bool → HttpServer J → HttpServer J
  enable_cors enabled s = record s { cors_enabled = enabled }

  -- `enable_ssl`
  unfoldable pub enable_ssl : Bool → HttpServer J → HttpServer J
  enable_ssl enabled s = record s { ssl_enabled = enabled }

  -- `set_max_body_size`
  unfoldable pub set_max_body_size : ℕ → HttpServer J → HttpServer J
  set_max_body_size size s = record s { max_body_size = size }

-- `execute_middlewares`
unfoldable pub execute_middlewares : Bool → List Middleware → Exchange → Exchange
execute_middlewares cors [] x = record x { passed = true }
execute_middlewares cors (m ∷ ms) x =
    if x.connected then (m (execute_middlewares cors ms) (new_responder cors x)).exchange else x

abbrev pub with_request : ServerRequest → Exchange → Exchange
with_request r x = record x { server_request = r }

module _ ⦃b : Boost⦄ ⦃z : Zlib⦄ where
  -- The answer to a body that is too large.
  unfoldable pub reject_body : Bool → Exchange → Exchange
  unfolding error
  reject_body cors x =
      (error payload_too_large (codes "Payload Too Large") (new_responder cors x)).exchange

-- `none` where a body is read on too little fuel.
module _ ⦃b : Boost⦄ ⦃z : Zlib⦄ {J : Type 0} ⦃l : JsonLib J⦄ where
  -- `matched_route->handle_request(*req, res)`
  unfoldable pub call_route : HttpServer J → Route J → Exchange → Outcome Exchange
  unfolding run_callback
  call_route s r x =
      map_outcome (λ t. t.exchange) (run_callback r.callback (new_responder s.cors_enabled x))

  -- The end of the branch for a pending body, after `read_body`.
  unfoldable pub call_with_body :
      HttpServer J → Route J → Exchange → Option (Bool × ServerRequest) → Option (Outcome Exchange)
  unfolding call_route reject_body
  call_with_body s r x none = none
  call_with_body s r x (some (false, read)) =
      some (returned (reject_body s.cors_enabled (with_request read x)))
  call_with_body s r x (some (true, read)) = some (call_route s r (with_request read x))

  -- The branch for a pending body.
  unfoldable pub call_pending : ℕ → HttpServer J → Route J → Exchange → Option (Outcome Exchange)
  unfolding call_with_body reject_body read_body
  call_pending fuel s r x =
      let http = request_of x in
      if not http.chunked_transfer && ltb s.max_body_size http.content_length
      then some (returned (reject_body s.cors_enabled x))
      else call_with_body s r x (
          read_body z.gunzip z.inflate fuel
            (record x.server_request { max_body_size = s.max_body_size }))

  -- The three ways to call the route that has matched, or none.
  unfoldable pub dispatch :
      ℕ → HttpServer J → Option (Route J) → Exchange → Option (Outcome Exchange)
  unfolding call_pending call_route run_callback_coro handle_unmatched has_pending_body
  dispatch fuel s none x = some (handle_unmatched s.router x)
  dispatch fuel s (some r) x =
      if r.deferred_body
      then some (
          map_outcome (λ t. t.exchange)
            (run_callback_coro r.callback (new_responder s.cors_enabled x)))
      else if has_pending_body (request_of x)
      then call_pending fuel s r x
      else some (call_route s r x)

-- The handler of a connection, behind `find_route`.
module _ ⦃b : Boost⦄ ⦃z : Zlib⦄ {J : Type 0} ⦃l : JsonLib J⦄ where
  unfoldable pub serve_found :
      ℕ → HttpServer J → Option (Route J) × Exchange → Option (Outcome Exchange)
  unfolding execute_middlewares dispatch
  serve_found fuel s (matched, x) =
      let guarded =
        execute_middlewares s.cors_enabled s.middlewares (record x { passed = false }) in
      if guarded.passed then dispatch fuel s matched guarded else some (returned guarded)

-- The handler that `setup_connection_handler` gives to a connection.
module _ ⦃b : Boost⦄ ⦃z : Zlib⦄ ⦃e : Regex⦄ {J : Type 0} ⦃l : JsonLib J⦄ where
  unfoldable pub serve : ℕ → HttpServer J → Exchange → Option (Outcome Exchange)
  unfolding serve_found find_route
  serve fuel s x =
      if x.connected then serve_found fuel s (find_route s.router x) else some (returned x)
