-- ===== src/Client/HttpClient/Origins.antt =====
-- The request that follows a redirect, as the statuses and the origins of the two URLs call for.
use mathlib.Core.Path.{subst}
use thinger_http.Common.{
  ℕ, ◌≡◌, ◌≢◌, refl, sym, ap, ◌∙◌, ◌⊎◌, Bool, true, false, ◌&&◌, ◌||◌, not, Option, none, some, [],
  ◌∷◌, ◌++◌, ◌==◌, if◌then◌else◌, if_elim, All, Bytes, bytes_eq, codes, is_empty, arith,
}
use thinger_http.Boost.{Boost}
use thinger_http.Libraries.{UriRegex, UrlParts}
use thinger_http.Util.Url.{split_at, url_decode}
use thinger_http.Message.Headers
use thinger_http.Message.Method.{Method}
use thinger_http.Message.Request.{
  Request, new_request, set_host, set_port, set_uri, update_host_header, get_port, https_port,
  http_port, is_default_port, get_base_path, get_url, store_resource, store_query, break_query,
}
use thinger_http.Message.Request.SetUrl.{
  set_url, store_match, store_url, store_port, upgrade_websocket_url,
}
use thinger_http.Message.Response.{Response}
use thinger_http.Client.Cookie.{Clock}
use thinger_http.Client.HttpClient.{
  Settings, ClientRequest, is_same_origin, becomes_get, redirect_method, redirect_request,
}
use thinger_http.Client.HttpClient.Carries.{TellsApart, is_authorized}
use thinger_http.Client.HttpClient.Redirects.{kept_body, redirect_request-Carries}

-- The method behind a redirect by 301 or 302.
abbrev pub moved_method : Method → Method
moved_method Method.get = Method.get
moved_method Method.head = Method.head
moved_method Method.post = Method.get
moved_method Method.put = Method.get
moved_method Method.delete = Method.get
moved_method Method.trace = Method.trace
moved_method Method.options = Method.options
moved_method Method.connect = Method.connect
moved_method Method.patch = Method.patch
moved_method Method.unknown = Method.unknown

-- The method that each status calls for.
pub record CalledFor (status : ℕ) (m n : Method) : Type 0 where
  pub moved : (status ≡ 301) ⊎ (status ≡ 302) → n ≡ moved_method m
  pub see_other : status ≡ 303 → n ≡ Method.get
  pub kept : (status ≡ 307) ⊎ (status ≡ 308) → n ≡ m

becomes_get-moved_method : (m : Method) → (if becomes_get m then Method.get else m) ≡ moved_method m
becomes_get-moved_method Method.get = refl
becomes_get-moved_method Method.head = refl
becomes_get-moved_method Method.post = refl
becomes_get-moved_method Method.put = refl
becomes_get-moved_method Method.delete = refl
becomes_get-moved_method Method.trace = refl
becomes_get-moved_method Method.options = refl
becomes_get-moved_method Method.connect = refl
becomes_get-moved_method Method.patch = refl
becomes_get-moved_method Method.unknown = refl

redirect_method-CalledFor :
    (status : ℕ) (m : Method) → CalledFor status m (redirect_method m status)
unfolding redirect_method
redirect_method-CalledFor status m = record {
  moved = λ k. ground (arith, k, becomes_get-moved_method m);
  see_other = λ k. ground (arith, k);
  kept = λ k. ground (arith, k);
}

-- Where the code takes a URL to be: the scheme, the host in lower case, and the port, if it is
-- given and neither 80 nor, for https, 443.
abbrev pub is_secure : UrlParts → Bool
is_secure p = bytes_eq p.protocol (codes "https") || bytes_eq p.protocol (codes "wss")

abbrev pub has_usual_port : UrlParts → Bool
has_usual_port p =
    is_empty p.port
    || bytes_eq (codes "80") p.port
    || (is_secure p && bytes_eq (codes "443") p.port)

abbrev pub origin_text : ⦃b : Boost⦄ → UrlParts → Bytes
origin_text ⦃b⦄ p =
    (if is_secure p then codes "https://" else codes "http://")
    ++ (if has_usual_port p then b.to_lower p.host else b.to_lower p.host ++ b':' ∷ p.port)

-- Both are URLs, and of the same origin.
abbrev pub are_same_origin : ⦃b : Boost⦄ → Option UrlParts → Option UrlParts → Bool
are_same_origin (some p) (some q) = bytes_eq (origin_text p) (origin_text q)
are_same_origin _ _ = false

-- The group of the host in `uri_regex` takes no colon.
pub record SplitsPorts (u : UriRegex) : Type 0 where
  pub no_colon :
      (url : Bytes) (p : UrlParts) → u.split_url url ≡ some p → All (λ c. c ≢ b':') p.host

-- Where a request goes.
record Goes (host port : Bytes) (ssl : Bool) (r : Request) : Type 0 where
  to_host : r.host ≡ host
  to_port : r.port ≡ port
  secured : r.ssl ≡ ssl

module _ {host port : Bytes} {ssl : Bool} where
  store_query-Goes :
      (q : Bytes) (r : Request) → Goes host port ssl r → Goes host port ssl (store_query q r)
  unfolding store_query
  store_query-Goes [] r g = g
  store_query-Goes (c ∷ cs) r g = record {
    to_host = ground (arith, g.to_host);
    to_port = ground (arith, g.to_port);
    secured = ground (arith, g.secured);
  }

  store_resource-Goes :
      (from u : Bytes) (r : Request)
      → Goes host port ssl r
      → Goes host port ssl (store_resource from u r)
  unfolding store_resource
  store_resource-Goes [] u r g = store_query-Goes u r g
  store_resource-Goes (c ∷ cs) u r g =
      let (found, rest) = break_query (c ∷ cs) in
      store_query-Goes rest (record r { resource = url_decode found })
        (record { to_host = g.to_host; to_port = g.to_port; secured = g.secured })

  set_uri-Goes : (u : Bytes) (r : Request) → Goes host port ssl r → Goes host port ssl (set_uri u r)
  unfolding set_uri
  set_uri-Goes u r g =
      let stored = store_resource-Goes (split_at b'/' u).1 u r g in
      record { to_host = stored.to_host; to_port = stored.to_port; secured = stored.secured }

  module _ ⦃b : Boost⦄ where
    same-Goes :
        (r : Request) (h : Headers.Headers)
        → Goes host port ssl r
        → Goes host port ssl (record r { base = h })
    same-Goes r h g = record { to_host = g.to_host; to_port = g.to_port; secured = g.secured }

    update_host_header-Goes :
        (r : Request) → Goes host port ssl r → Goes host port ssl (update_host_header r)
    unfolding update_host_header
    update_host_header-Goes r g =
        if_elim (Goes host port ssl)
          (not (bytes_eq (get_port r) https_port) && not (bytes_eq (get_port r) http_port)) _ _
          (λ e. same-Goes r _ g) (λ e. same-Goes r _ g)

    upgrade-Goes :
        (protocol : Bytes) (r : Request)
        → Goes host port ssl r
        → Goes host port ssl (upgrade_websocket_url protocol r)
    unfolding upgrade_websocket_url
    upgrade-Goes protocol r g =
        if_elim (Goes host port ssl)
          (bytes_eq protocol (codes "wss") || bytes_eq protocol (codes "ws")) _ _
          (λ e. same-Goes r _ g) (λ e. g)

split_at-none : (host : Bytes) → All (λ c. c ≢ b':') host → split_at b':' host ≡ (host, [])
unfolding split_at
split_at-none [] all = refl
split_at-none (c ∷ cs) (other, all) =
    let e : (c == b':') ≡ false = ground (arith, other) in rw (e, split_at-none cs all) refl

module _ ⦃b : Boost⦄ where
  set_host-Goes :
      (host : Bytes)
      → All (λ c. c ≢ b':') host
      → Goes (b.to_lower host) [] false (set_host host new_request)
  unfolding set_host
  set_host-Goes host all = rw (split_at-none host all) (
      update_host_header-Goes (record new_request { host = b.to_lower host })
        (record { to_host = refl; to_port = refl; secured = refl }))

  store_port-Goes :
      (host port : Bytes) (r : Request)
      → Goes host [] false r
      → Goes host port false (store_port port r)
  unfolding set_port
  store_port-Goes host [] r g = g
  store_port-Goes host (c ∷ cs) r g =
      let s = record r { port = c ∷ cs } in
      let there : Goes host (c ∷ cs) false s = record {
        to_host = g.to_host;
        to_port = refl;
        secured = g.secured;
      } in
      if_elim (Goes host (c ∷ cs) false)
        (not (bytes_eq (c ∷ cs) https_port) && not (bytes_eq (c ∷ cs) http_port)) _ _
        (λ e. same-Goes s _ there) (λ e. there)

  store_url-Goes :
      (p : UrlParts)
      → All (λ c. c ≢ b':') p.host
      → Goes (b.to_lower p.host) p.port (is_secure p) (store_url p new_request)
  unfolding store_url
  store_url-Goes p all =
      let placed = store_port p.port (set_host p.host new_request) in
      let there = store_port-Goes (b.to_lower p.host) p.port _ (set_host-Goes p.host all) in
      let from = record placed { protocol = p.protocol; ssl = is_secure p } in
      let uri = if is_empty p.uri then codes "/" else p.uri in
      upgrade-Goes p.protocol (set_uri uri from) (
        set_uri-Goes uri from
          (record { to_host = there.to_host; to_port = there.to_port; secured = refl }))

  usual_port :
      (s on_443 on_80 : Bool) (host port scheme : Bytes)
      → scheme
          ++ (if (if is_empty port then true else (s && on_443) || on_80)
              then host
              else host
                ++ b':' ∷ (if is_empty port then (if s then https_port else http_port) else port))
        ≡ scheme ++ (if is_empty port || on_80 || (s && on_443) then host else host ++ b':' ∷ port)
  usual_port s on_443 on_80 host [] scheme = refl
  usual_port false on_443 true host (c ∷ cs) scheme = refl
  usual_port false on_443 false host (c ∷ cs) scheme = refl
  usual_port true true true host (c ∷ cs) scheme = refl
  usual_port true true false host (c ∷ cs) scheme = refl
  usual_port true false true host (c ∷ cs) scheme = refl
  usual_port true false false host (c ∷ cs) scheme = refl

  get_base_path-origin_text :
      (p : UrlParts) (r : Request)
      → Goes (b.to_lower p.host) p.port (is_secure p) r
      → get_base_path r ≡ origin_text p
  unfolding get_base_path is_default_port get_port
  get_base_path-origin_text p r g =
      rw (g.to_host, g.to_port, g.secured)
        (usual_port (is_secure p) (bytes_eq https_port p.port) (bytes_eq http_port p.port)
          (b.to_lower p.host) p.port _)

module _ ⦃b : Boost⦄ ⦃u : UriRegex⦄ where
  -- The request that follows a redirect.
  pub record NextRequest (from : Request) (response : Response) (next : Request) : Type 0 where
    pub method : CalledFor response.status from.method next.method
    pub content : next.content ≡ kept_body response.status from.content
    pub authorizes : is_authorized next ≡ (
        is_authorized from
        && are_same_origin
            (u.split_url (get_url from))
            (u.split_url (Headers.get_header (codes "Location") response.base)))

module _ ⦃b : Boost⦄ ⦃u : UriRegex⦄ (splits : SplitsPorts u) where
  origin_of :
      (url : Bytes) (p : UrlParts)
      → u.split_url url ≡ some p
      → get_base_path (store_url p new_request) ≡ origin_text p
  origin_of url p e =
      get_base_path-origin_text p (store_url p new_request)
        (store_url-Goes p (splits.no_colon url p e))

  same_parts :
      (url1 url2 : Bytes) (o1 o2 : Option UrlParts)
      → u.split_url url1 ≡ o1
      → u.split_url url2 ≡ o2
      → ((store_match o1 new_request).1
          && (store_match o2 new_request).1
          && bytes_eq
              (get_base_path (store_match o1 new_request).0)
              (get_base_path (store_match o2 new_request).0))
        ≡ are_same_origin o1 o2
  same_parts url1 url2 none o2 e1 e2 = refl
  same_parts url1 url2 (some p) none e1 e2 = refl
  same_parts url1 url2 (some p) (some q) e1 e2 = rw (origin_of url1 p e1, origin_of url2 q e2) refl

  is_same_origin-are_same_origin :
      (url1 url2 : Bytes)
      → is_same_origin url1 url2 ≡ are_same_origin (u.split_url url1) (u.split_url url2)
  unfolding is_same_origin set_url
  is_same_origin-are_same_origin url1 url2 = same_parts url1 url2 _ _ refl refl

  -- Where the pattern of a URL takes no colon into the host, and equality up to case tells the
  -- header names of the code from `Authorization`, the request that follows a redirect has: the
  -- method GET behind 301 and 302 if it was POST, PUT or DELETE, and else the same, GET behind 303,
  -- and the same behind 307 and 308; the body of the request behind 307 and 308, and none
  -- otherwise; and an `Authorization` exactly if the request had one, its URL and the Location both
  -- match the pattern, and the two agree in scheme (http or https), host in lower case, and port,
  -- where 80, and 443 of https, count as no port.
  pub redirect_request-NextRequest :
      (s : Settings) (clock : Clock) (from : ClientRequest) (response : Response)
      → TellsApart b
      → NextRequest from.http response (redirect_request s clock from response)
  redirect_request-NextRequest s clock from response apart =
      let carried = redirect_request-Carries apart s clock from response in
      record {
        method =
            subst (CalledFor response.status from.http.method) (sym carried.method)
              (redirect_method-CalledFor response.status from.http.method);
        content = carried.content;
        authorizes =
            carried.authorizes
            ∙ ap (λ t. is_authorized from.http && t) (is_same_origin-are_same_origin _ _);
      }
