-- ===== src/Server/HttpServer/Guard.antt =====
-- A server whose first middleware is that of `set_basic_auth`.
use mathlib.Core.Path.{subst}
use thinger_http.Common.{
  ℕ, ◌≡◌, refl, sym, ap, ◌∙◌, Bool, true, false, if_true, if_false, if◌then◌else◌, Option, none,
  some, List, ◌∷◌, Bytes, starts_with,
}
use thinger_http.Boost.{Boost}
use thinger_http.Libraries.{Regex, Zlib, JsonLib}
use thinger_http.Message.Status.{unauthorized}
use thinger_http.Server.Exchange.{Exchange, request_of, set_auth_user, set_matched_route}
use thinger_http.Server.Responder.Answers.{IsAnswered}
use thinger_http.Server.RequestBody.{ServerRequest, read_body}
use thinger_http.Server.Routing.{Route, Router, returned, find_route, accept_route}
use thinger_http.Server.Routing.Match.{Found, nothing, first, find_route-Found}
use thinger_http.Server.BasicAuth.{Verify, basic_auth}
use thinger_http.Server.BasicAuth.Access.{Presents, Judged, admitted, refused, basic_auth-Judged}
use thinger_http.Server.HttpServer.{
  HttpServer, Middleware, execute_middlewares, serve_found, serve, dispatch, call_pending,
  call_with_body, call_route,
}

-- `find_route` leaves the request and the connection alone.
pub record Keeps (x y : Exchange) : Type 0 where
  pub request : y.server_request ≡ x.server_request
  pub connected : y.connected ≡ x.connected
  pub sent : y.sent ≡ x.sent
  pub responses : y.responses ≡ x.responses

module _ ⦃e : Regex⦄ {J : Type 0} where
  Found-Keeps :
      {path : Bytes} {rs : List (Route J)} {x : Exchange} {o : Option (Route J) × Exchange}
      → Found path rs x o
      → Keeps x o.1
  unfolding accept_route set_matched_route
  Found-Keeps (nothing skipped same) = record {
    request = ap (λ (o : Option (Route J) × Exchange). o.1.server_request) same;
    connected = ap (λ (o : Option (Route J) × Exchange). o.1.connected) same;
    sent = ap (λ (o : Option (Route J) × Exchange). o.1.sent) same;
    responses = ap (λ (o : Option (Route J) × Exchange). o.1.responses) same;
  }
  Found-Keeps (first r groups f same) = record {
    request = ap (λ (o : Option (Route J) × Exchange). o.1.server_request) same;
    connected = ap (λ (o : Option (Route J) × Exchange). o.1.connected) same;
    sent = ap (λ (o : Option (Route J) × Exchange). o.1.sent) same;
    responses = ap (λ (o : Option (Route J) × Exchange). o.1.responses) same;
  }

  pub find_route-Keeps : (router : Router J) (x : Exchange) → Keeps x (find_route router x).1
  find_route-Keeps router x = Found-Keeps (find_route-Found router x)

-- The request where the middlewares begin.
abbrev pub routed : ⦃e : Regex⦄ {J : Type 0} → HttpServer J → Exchange → Exchange
routed s x = record (find_route s.router x).1 { passed = false }

-- The server without its first middleware.
abbrev pub with_middlewares : {J : Type 0} → List Middleware → HttpServer J → HttpServer J
with_middlewares ms s = record s { middlewares = ms }

module _ ⦃b : Boost⦄ ⦃z : Zlib⦄ where
  execute_middlewares-Judged :
      (path_prefix realm : Bytes) (verify : Verify) (ms : List Middleware) (cors : Bool)
      (x : Exchange)
      → x.connected ≡ true
      → starts_with path_prefix (request_of x).uri ≡ true
      → Judged verify
          (execute_middlewares cors ms)
          x
          (execute_middlewares cors (basic_auth path_prefix realm verify ∷ ms) x)
  unfolding execute_middlewares
  execute_middlewares-Judged path_prefix realm verify ms cors x h guarded =
      subst (Judged verify (execute_middlewares cors ms) x) (sym (if_true x.connected _ x h))
        (basic_auth-Judged path_prefix realm verify (execute_middlewares cors ms) cors x h guarded)

module _ ⦃b : Boost⦄ ⦃z : Zlib⦄ {J : Type 0} ⦃l : JsonLib J⦄ (s : HttpServer J)
    (ms : List Middleware) where
  call_with_body-with_middlewares :
      (r : Route J) (x : Exchange) (o : Option (Bool × ServerRequest))
      → call_with_body (with_middlewares ms s) r x o ≡ call_with_body s r x o
  unfolding call_with_body call_route
  call_with_body-with_middlewares r x none = refl
  call_with_body-with_middlewares r x (some (false, read)) = refl
  call_with_body-with_middlewares r x (some (true, read)) = refl

  -- Nothing behind the middlewares reads them.
  dispatch-with_middlewares :
      (fuel : ℕ) (o : Option (Route J)) (x : Exchange)
      → dispatch fuel (with_middlewares ms s) o x ≡ dispatch fuel s o x
  unfolding dispatch call_pending call_route
  dispatch-with_middlewares fuel none x = refl
  dispatch-with_middlewares fuel (some r) x =
      rw
        (call_with_body-with_middlewares r x (
          read_body z.gunzip z.inflate fuel
            (record x.server_request { max_body_size = s.max_body_size })))
        refl

-- What a guarded server does: it goes on in the name of a user who is verified, or answers 401.
pub data Guarded ⦃b : Boost⦄ ⦃z : Zlib⦄ ⦃e : Regex⦄ {J : Type 0} ⦃l : JsonLib J⦄ (verify : Verify)
    (ms : List Middleware) (fuel : ℕ) (s : HttpServer J) (x : Exchange) : Type 0 where
  passes :
      (name pass : Bytes)
      → Presents (request_of x) name pass
      → verify name pass ≡ true
      → serve fuel s x
        ≡ serve_found fuel
            (with_middlewares ms s)
            ((find_route s.router x).0, set_auth_user name (routed s x))
      → Guarded verify ms fuel s x
  stopped :
      ((name pass : Bytes) → Presents (request_of x) name pass → verify name pass ≡ false)
      → (y : Exchange) → IsAnswered unauthorized (routed s x) y
      → serve fuel s x ≡ some (returned y)
      → Guarded verify ms fuel s x

-- The end of the handler, at what the middlewares have done.
module _ ⦃b : Boost⦄ ⦃z : Zlib⦄ {J : Type 0} ⦃l : JsonLib J⦄ where
  serve_found-lem :
      (fuel : ℕ) (s : HttpServer J) (o : Option (Route J) × Exchange) (y : Exchange)
      → execute_middlewares s.cors_enabled s.middlewares (record o.1 { passed = false }) ≡ y
      → serve_found fuel s o ≡ (if y.passed then dispatch fuel s o.0 y else some (returned y))
  unfolding serve_found
  serve_found-lem fuel s (matched, x) y same =
      ap (λ (g : Exchange). if g.passed then dispatch fuel s matched g else some (returned g)) same

module _ ⦃b : Boost⦄ ⦃z : Zlib⦄ ⦃e : Regex⦄ {J : Type 0} ⦃l : JsonLib J⦄ where
  Presents-routed :
      (s : HttpServer J) (x : Exchange)
      → Presents (request_of (routed s x)) ≡ Presents (request_of x)
  Presents-routed s x =
      ap (λ (r : ServerRequest). Presents r.http_request) (find_route-Keeps s.router x).request

  Judged_serve :
      (verify : Verify) (ms : List Middleware) (fuel : ℕ) (s : HttpServer J) (x y : Exchange)
      → x.connected ≡ true
      → Judged verify (execute_middlewares s.cors_enabled ms) (routed s x) y
      → execute_middlewares s.cors_enabled s.middlewares (routed s x) ≡ y
      → Guarded verify ms fuel s x
  unfolding serve set_auth_user
  Judged_serve verify ms fuel s x y h (admitted name pass p v same) run =
      let found = find_route s.router x in
      let rest = with_middlewares ms s in
      passes name pass (subst (λ (P : Bytes → Bytes → Type 0). P name pass) (Presents-routed s x) p)
        v
        (if_true x.connected (serve_found fuel s found) _ h
          ∙ serve_found-lem fuel s found y run
          ∙ ap (λ d. if y.passed then d else some (returned y))
              (sym (dispatch-with_middlewares s ms fuel found.0 y))
          ∙ sym (serve_found-lem fuel rest (found.0, set_auth_user name (routed s x)) y (sym same)))
  Judged_serve verify ms fuel s x y h (refused never (r, same, st)) run =
      let found = find_route s.router x in
      stopped
        (subst
          (λ (P : Bytes → Bytes → Type 0).
            (name pass : Bytes) → P name pass → verify name pass ≡ false)
          (Presents-routed s x) never)
        y (r, same, st)
        (if_true x.connected (serve_found fuel s found) _ h
          ∙ serve_found-lem fuel s found y run
          ∙ if_false y.passed _ _ (ap (λ (q : Exchange). q.passed) same))

  -- Where the first middleware is that of `set_basic_auth`, the connection is there and the URI
  -- begins with the prefix: either the request presents a user and a password that are verified,
  -- and the handler does what the server without that middleware does in the name of the user; or
  -- it presents none that are verified, and the handler returns after one answer 401, with nothing
  -- else done.
  pub serve-Guarded :
      (path_prefix realm : Bytes) (verify : Verify) (ms : List Middleware) (fuel : ℕ)
      (s : HttpServer J) (x : Exchange)
      → s.middlewares ≡ basic_auth path_prefix realm verify ∷ ms
      → x.connected ≡ true
      → starts_with path_prefix (request_of x).uri ≡ true
      → Guarded verify ms fuel s x
  serve-Guarded path_prefix realm verify ms fuel s x chain h guarded =
      let keeps = find_route-Keeps s.router x in
      let begins =
        execute_middlewares-Judged path_prefix realm verify ms s.cors_enabled (routed s x)
          (keeps.connected ∙ h)
          (ap (λ (r : ServerRequest). starts_with path_prefix r.http_request.uri) keeps.request
            ∙ guarded) in
      Judged_serve verify ms fuel s x _ h begins
        (ap (λ l. execute_middlewares s.cors_enabled l (routed s x)) chain)
