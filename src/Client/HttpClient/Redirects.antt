-- ===== src/Client/HttpClient/Redirects.antt =====
-- What a redirected request carries.
use mathlib.Core.Path.{subst}
use thinger_http.Common.{
  ℕ, ◌≡◌, refl, sym, ◌∙◌, inl, inr, Bool, true, false, ◌&&◌, ◌||◌, not, Option, none, some, [], ◌∷◌,
  ◌==◌, if◌then◌else◌, if_elim, if_true, if_false, Bool-cases, Bytes, codes, is_empty, arith,
}
use thinger_http.Boost.{Boost}
use thinger_http.Libraries.{UriRegex, UrlParts}
use thinger_http.Message.Header
use thinger_http.Message.Headers
use thinger_http.Message.Headers.{has_key}
use thinger_http.Message.Method.{Method}
use thinger_http.Message.Request.{Request, new_request, set_method, has_default_length, get_url}
use thinger_http.Message.Request.SetUrl.{
  set_url, store_match, set_request_content, set_request_header, add_request_header,
}
use thinger_http.Message.Response.{Response}
use thinger_http.Client.Cookie.{Clock}
use thinger_http.Client.CookieStore.{CookieStore, update_from_headers, get_cookie_string}
use thinger_http.Client.HttpClient.{
  Settings, ClientRequest, authorization, user_agent_header, accept_encoding, location, cookie,
  apply_default_headers, copy_header, copy_body, copy_cookies, is_same_origin, create_request,
  copy_authorization, redirect_method, redirect_request,
}
use thinger_http.Client.HttpClient.Carries.{
  TellsApart, is_authorized, Carries, add_header-Carries, set_header-Carries, store_url-Carries,
  same_message-Carries, has_key-append,
}

-- The body that a redirect keeps.
abbrev pub kept_body : ℕ → Bytes → Bytes
kept_body status content = if status == 307 || status == 308 then content else []

module _ ⦃b : Boost⦄ (apart : TellsApart b) where
  set_method-Carries : (m : Method) → Carries m [] false (set_method m new_request)
  unfolding set_method Headers.has_header has_key
  set_method-Carries m =
      let named = record new_request { method = m } in
      let fresh : Carries m [] false named = record {
        method = refl;
        content = refl;
        authorizes = refl;
      } in
      if_elim (Carries m [] false)
        (has_default_length m && not (Headers.has_header Header.content_length new_request.base))
        (set_request_header Header.content_length (codes "0") named) named
        (λ e. set_header-Carries Header.content_length (codes "0") named apart.content_length fresh)
        (λ e. fresh)

  module _ {m : Method} {body : Bytes} {a : Bool} where
    apply_default_headers-Carries :
        (s : Settings) (r : Request)
        → Carries m body a r
        → Carries m body a (apply_default_headers s r)
    unfolding apply_default_headers
    apply_default_headers-Carries s r c =
        let agent = add_request_header user_agent_header s.user_agent r in
        let named = if Headers.has_header user_agent_header r.base then r else agent in
        let held =
          if_elim (Carries m body a) (Headers.has_header user_agent_header r.base) r agent (λ e. c)
            (λ e. add_header-Carries user_agent_header s.user_agent r apart.agent c) in
        if_elim (Carries m body a)
          (s.auto_decompress && not (Headers.has_header accept_encoding named.base))
          (add_request_header accept_encoding (codes "gzip, deflate") named) named
          (λ e.
            add_header-Carries accept_encoding (codes "gzip, deflate") named apart.encoding held)
          (λ e. held)

    copy_header-Carries :
        (key : Bytes) (from r : Request)
        → b.iequals key authorization ≡ false
        → Carries m body a r
        → Carries m body a (copy_header key from r)
    unfolding copy_header
    copy_header-Carries key from r h c =
        if_elim (Carries m body a) (Headers.has_header key from.base)
          (add_request_header key (Headers.get_header key from.base) r) r
          (λ e. add_header-Carries key (Headers.get_header key from.base) r h c) (λ e. c)

    copy_cookies-Carries :
        (clock : Clock) (store : CookieStore) (response : Response) (r : Request)
        → Carries m body a r
        → Carries m body a (copy_cookies clock store response r)
    unfolding copy_cookies
    copy_cookies-Carries clock store response r c =
        let (next, updated) = update_from_headers clock response.base store in
        if_elim (Carries m body a) updated (set_request_header cookie (get_cookie_string next) r) r
          (λ e. set_header-Carries cookie (get_cookie_string next) r apart.cookies c) (λ e. c)

  set_content-Carries :
      {m : Method} {a : Bool} (content : Bytes) (r : Request)
      → Carries m [] a r
      → Carries m content a (set_request_content content r)
  unfolding set_request_content
  set_content-Carries content r c =
      set_header-Carries Header.content_length _ (record r { content = content })
        apart.content_length
        (record { method = c.method; content = refl; authorizes = c.authorizes })

  empty_body : (content : Bytes) → not (is_empty content) ≡ false → content ≡ []
  empty_body [] h = refl
  empty_body (c ∷ cs) h = cc

  copy_body-Carries :
      {m : Method} {a : Bool} (status : ℕ) (from r : Request)
      → Carries m [] a r
      → Carries m (kept_body status from.content) a (copy_body status from r)
  unfolding copy_body
  copy_body-Carries {m} {a} status from r c =
      let keeps = status == 307 || status == 308 in
      let filled = set_request_content from.content r in
      let typed = copy_header Header.content_type from filled in
      let measured = copy_header Header.content_length from typed in
      if_elim (Carries m (kept_body status from.content) a) (keeps && not (is_empty from.content))
        measured r
        (λ e.
          let kept : keeps ≡ true = ground (arith, e) in
          subst (λ t. Carries m t a measured) (sym (if_true keeps from.content [] kept))
            (copy_header-Carries Header.content_length from typed apart.content_length (
              copy_header-Carries Header.content_type from filled apart.content_type
                (set_content-Carries from.content r c))))
        (λ e. record {
          method = c.method;
          content =
              c.content
              ∙ sym (
                  if_elim (λ t. t ≡ []) keeps from.content []
                    (λ k. empty_body from.content (ground (arith, e, k))) (λ k. refl));
          authorizes = c.authorizes;
        })

module _ ⦃b : Boost⦄ ⦃u : UriRegex⦄ (apart : TellsApart b) where
  placed-Carries :
      (o : Option UrlParts) (m : Method)
      → Carries m [] false (store_match o (set_method m new_request)).0
  placed-Carries none m = set_method-Carries apart m
  placed-Carries (some p) m =
      store_url-Carries apart p (set_method m new_request) (set_method-Carries apart m)

  create_request-Carries :
      (s : Settings) (m : Method) (url : Bytes) → Carries m [] false (create_request s m url)
  unfolding create_request set_url
  create_request-Carries s m url =
      let named = set_method m new_request in
      let placed = (set_url url named).0 in
      let fresh : Carries m [] false placed = placed-Carries (u.split_url url) m in
      apply_default_headers-Carries apart s
        (if is_empty s.unix_socket then placed else record placed { unix_socket = s.unix_socket })
        (if_elim (Carries m [] false) (is_empty s.unix_socket) placed
          (record placed { unix_socket = s.unix_socket }) (λ e. fresh)
          (λ e. same_message-Carries placed _ refl refl refl fresh))

  copy_authorization-Carries :
      {m : Method} {body : Bytes} (from : Request) (url : Bytes) (r : Request)
      → Carries m body false r
      → Carries m body
          (is_authorized from && is_same_origin (get_url from) url)
          (copy_authorization from url r)
  unfolding copy_authorization Headers.add_header Headers.has_header
  copy_authorization-Carries {m} {body} from url r c =
      let passes = is_authorized from && is_same_origin (get_url from) url in
      elim (Bool-cases passes) [
        | inl e ↦ subst (Carries m body passes) (sym (if_true passes _ r e)) (record {
          method = c.method;
          content = c.content;
          authorizes =
              has_key-append authorization authorization _ r.headers
              ∙ ground (arith, apart.self)
              ∙ sym e;
        })
        | inr e ↦
            subst (Carries m body passes) (sym (if_false passes _ r e))
              (record { method = c.method; content = c.content; authorizes = c.authorizes ∙ sym e })
      ]

  -- Where equality up to case tells the header names of the code from `Authorization`, the request
  -- that follows a redirect has the method of `redirect_method`, the body of the request for 307
  -- and 308 and none otherwise, and an `Authorization` exactly if the request had one and its URL
  -- and the location are of the same origin.
  pub redirect_request-Carries :
      (s : Settings) (clock : Clock) (from : ClientRequest) (response : Response)
      → Carries
          (redirect_method from.http.method response.status)
          (kept_body response.status from.http.content)
          (is_authorized from.http
            && is_same_origin (get_url from.http) (Headers.get_header location response.base))
          (redirect_request s clock from response)
  unfolding redirect_request
  redirect_request-Carries s clock from response =
      let m = redirect_method from.http.method response.status in
      let url = Headers.get_header location response.base in
      let created = create_request s m url in
      let bodied = copy_body response.status from.http created in
      copy_cookies-Carries apart clock from.cookies response
        (copy_authorization from.http url bodied)
        (copy_authorization-Carries from.http url bodied (
          copy_body-Carries apart response.status from.http created
            (create_request-Carries s m url)))
