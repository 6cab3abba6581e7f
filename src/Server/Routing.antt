-- ===== src/Server/Routing.antt =====
-- thinger/http/server/routing: routes, the callback of a route, and the choice of a route. A handler
-- is a function of the object that it answers by, and of the JSON value it takes; it returns or
-- throws. The code without JSON schemas is modelled.
pub mod Match
pub mod Params
use thinger_http.Common.{
  Bool, true, false, Option, none, some, List, [], ◌∷◌, ◌++◌, if◌then◌else◌, Bytes, codes, is_empty,
}
use thinger_http.Boost.{Boost}
use thinger_http.Libraries.{Zlib, Regex, JsonLib}
use thinger_http.Util.Url.{Multimap}
use thinger_http.Message.Method.{Method}
use thinger_http.Message.Status.{Status, bad_request, internal_server_error, not_allowed, not_found}
use thinger_http.Message.Request.{Request, get_path}
use thinger_http.Server.Exchange.{
  Exchange, RouteInfo, AuthLevel, request_of, set_matched_route, set_param,
}
use thinger_http.Server.Responder.{Responder, new_responder, send, error, status, text_plain}

pub data Outcome (A : Type 0) : Type 0 where
  returned : A → Outcome A
  threw : A → Outcome A

-- The state where the call ended.
abbrev pub state_of : {A : Type 0} → Outcome A → A
state_of (returned a) = a
state_of (threw a) = a

abbrev pub map_outcome : {A B : Type 0} → (A → B) → Outcome A → Outcome B
map_outcome f (returned a) = returned (f a)
map_outcome f (threw a) = threw (f a)

abbrev pub Handler : Type 0
Handler = Responder → Outcome Responder

-- `callback_`
pub data Callback (J : Type 0) : Type 0 where
  response_only : Handler → Callback J
  json_response : (J → Handler) → Callback J
  request_response : Handler → Callback J
  request_json_response : (J → Handler) → Callback J
  awaitable : Handler → Callback J

pub record Route (J : Type 0) : Type 0 where
  pub info : RouteInfo
  pub open info use *
  pub callback : Callback J

-- `routes_`, a map from methods to routes
abbrev pub Routes : Type 0 → Type 0
Routes J = List (Method × List (Route J))

-- `route_handler`
pub record Router (J : Type 0) : Type 0 where
  pub routes : Routes J
  pub cors_enabled : Bool
  pub fallback_handler : Option Handler

abbrev pub same_method : Method → Method → Bool
same_method Method.get Method.get = true
same_method Method.head Method.head = true
same_method Method.post Method.post = true
same_method Method.put Method.put = true
same_method Method.delete Method.delete = true
same_method Method.trace Method.trace = true
same_method Method.options Method.options = true
same_method Method.connect Method.connect = true
same_method Method.patch Method.patch = true
same_method Method.unknown Method.unknown = true
same_method _ _ = false

-- `routes_.find`
unfoldable pub method_routes : {J : Type 0} → Method → Routes J → Option (List (Route J))
method_routes m [] = none
method_routes m ((n, rs) ∷ routes) = if same_method n m then some rs else method_routes m routes

-- The loop over the parameters of the route that matches.
unfoldable pub store_params : List Bytes → List (Option Bytes) → Multimap → Multimap
unfolding set_param
store_params [] groups m = m
store_params (p ∷ ps) [] m = m
store_params (p ∷ ps) (none ∷ groups) m = store_params ps groups m
store_params (p ∷ ps) (some v ∷ groups) m = store_params ps groups (set_param p v m)

-- The body of the loop over the routes, where a route matches.
unfoldable pub accept_route : {J : Type 0} → Route J → List (Option Bytes) → Exchange → Exchange
unfolding store_params set_matched_route
accept_route r groups x =
    set_matched_route r.info (record x { params = store_params r.parameters groups x.params })

-- `(*this)[m]` of a router, then `[pattern] = callback`
unfoldable pub append_route : {J : Type 0} → Method → Route J → Routes J → Routes J
append_route m r [] = (m, r ∷ []) ∷ []
append_route m r ((n, rs) ∷ routes) =
    if same_method n m then (n, rs ++ r ∷ []) ∷ routes else (n, rs) ∷ append_route m r routes

module _ ⦃e : Regex⦄ {J : Type 0} where
  -- `matches`
  unfoldable pub matches : Route J → Bytes → Option (List (Option Bytes))
  matches r path = e.regex_match r.regex path

  -- A round of the loop over the routes of the method, with what the later rounds give.
  unfoldable pub or_match :
      Option (List (Option Bytes))
      → Route J
      → Exchange
      → Option (Route J) × Exchange
      → Option (Route J) × Exchange
  unfolding accept_route
  or_match none r x rest = rest
  or_match (some groups) r x rest = (some r, accept_route r groups x)

  unfoldable pub first_match : Bytes → List (Route J) → Exchange → Option (Route J) × Exchange
  unfolding matches or_match
  first_match path [] x = (none, x)
  first_match path (r ∷ rs) x = or_match (matches r path) r x (first_match path rs x)

  abbrev pub search_routes :
      Option (List (Route J)) → Bytes → Exchange → Option (Route J) × Exchange
  search_routes none path x = (none, x)
  search_routes (some rs) path x = first_match path rs x

  -- `find_route`
  unfoldable pub find_route : Router J → Exchange → Option (Route J) × Exchange
  unfolding method_routes first_match get_path
  find_route router x =
      search_routes (method_routes (request_of x).method router.routes) (get_path (request_of x)) x

module _ ⦃b : Boost⦄ ⦃z : Zlib⦄ {J : Type 0} ⦃l : JsonLib J⦄ where
  -- The callbacks that take a JSON value.
  unfoldable pub with_json : (J → Handler) → Handler
  unfolding error
  with_json f t =
      let body = (request_of t.exchange).content in
      if is_empty body then f l.null t else elim (l.parse body) [
        | none ↦ returned (error bad_request (codes "Invalid JSON") t)
        | some j ↦ f j t
      ]

  -- `route::handle_request`
  unfoldable pub run_callback : Callback J → Handler
  unfolding with_json error
  run_callback (response_only f) t = f t
  run_callback (json_response f) t = with_json f t
  run_callback (request_response f) t = f t
  run_callback (request_json_response f) t = with_json f t
  run_callback (awaitable f) t = returned (
      error internal_server_error
        (codes "Awaitable route handler invoked synchronously; use handle_request_coro() instead")
        t)

  -- `route::handle_request_coro`
  unfoldable pub run_callback_coro : Callback J → Handler
  unfolding run_callback
  run_callback_coro (awaitable f) t = f t
  run_callback_coro c t = run_callback c t

-- The status of a request that no route takes, from the routes of its method.
abbrev pub unmatched_status : {A : Type 0} → Option A → Status
unmatched_status none = not_allowed
unmatched_status (some rs) = not_found

module _ ⦃b : Boost⦄ ⦃z : Zlib⦄ where
  -- `send_error_response`
  unfoldable pub send_error_response : Bool → Status → Exchange → Exchange
  unfolding status send
  send_error_response cors s x =
      if x.connected then (send [] text_plain (status s (new_responder cors x))).exchange else x

module _ ⦃b : Boost⦄ ⦃z : Zlib⦄ {J : Type 0} where
  -- the end of `handle_unmatched`, behind the fallback
  unfoldable pub reject_unmatched : Router J → Exchange → Exchange
  unfolding method_routes send_error_response
  reject_unmatched router x =
      send_error_response router.cors_enabled
        (unmatched_status (method_routes (request_of x).method router.routes)) x

  -- The `if` for the fallback
  unfoldable pub try_fallback : Option Handler → Router J → Exchange → Outcome Exchange
  unfolding reject_unmatched
  try_fallback none router x = returned (reject_unmatched router x)
  try_fallback (some f) router x =
      if x.connected
      then map_outcome (λ t. t.exchange) (f (new_responder router.cors_enabled x))
      else returned (reject_unmatched router x)

  -- `handle_unmatched`
  unfoldable pub handle_unmatched : Router J → Exchange → Outcome Exchange
  unfolding try_fallback
  handle_unmatched router x = try_fallback router.fallback_handler router x

  -- The `try` of `route_handler::handle_request`
  unfoldable pub catch_errors : Router J → Outcome Responder → Exchange
  unfolding send_error_response
  catch_errors router (returned t) = t.exchange
  catch_errors router (threw t) =
      send_error_response router.cors_enabled internal_server_error t.exchange

module _ ⦃b : Boost⦄ ⦃z : Zlib⦄ ⦃e : Regex⦄ {J : Type 0} ⦃l : JsonLib J⦄ where
  -- What it does with the route that `find_route` has found.
  unfoldable pub handle_found : Router J → Option (Route J) × Exchange → Outcome Exchange × Bool
  unfolding handle_unmatched catch_errors run_callback
  handle_found router (none, x) = (handle_unmatched router x, true)
  handle_found router (some r, x) =
      if x.connected
      then (
        returned
            (catch_errors router (run_callback r.callback (new_responder router.cors_enabled x))),
        true,
      )
      else (returned x, false)

  -- `route_handler::handle_request`
  unfoldable pub handle_request : Router J → Exchange → Outcome Exchange × Bool
  unfolding handle_found find_route
  handle_request router x = handle_found router (find_route router x)
