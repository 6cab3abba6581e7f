-- ===== src/Client/HttpClient/Carries.antt =====
-- How the headers, the method and the body of a request change on the way to `send_request`.
use thinger_http.Common.{
  ◌≡◌, refl, ap, ◌∙◌, Bool, true, false, ◌&&◌, ◌||◌, not, List, [], ◌∷◌, ◌++◌, if◌then◌else◌,
  if_elim, bytes_eq, Bytes, codes, is_empty, arith,
}
use thinger_http.Boost.{Boost}
use thinger_http.Libraries.{UrlParts}
use thinger_http.Util.Url.{split_at}
use thinger_http.Message.Header
use thinger_http.Message.Headers
use thinger_http.Message.Headers.{Headers, HttpHeader, has_key, set_value}
use thinger_http.Message.Method.{Method}
use thinger_http.Message.Request.{
  Request, set_host, set_port, set_uri, get_port, https_port, http_port, update_host_header,
  host_and_port,
}
use thinger_http.Message.Request.Frame.{set_uri-keeps}
use thinger_http.Message.Request.SetUrl.{
  store_url, upgrade_websocket_url, set_request_header, add_request_header,
}
use thinger_http.Client.HttpClient.{authorization, user_agent_header, accept_encoding, cookie}

-- `boost::iequals` tells the header names of the code from `Authorization`.
pub record TellsApart (b : Boost) : Type 0 where
  pub host : b.iequals Header.host authorization ≡ false
  pub connection : b.iequals Header.connection authorization ≡ false
  pub upgrade : b.iequals (codes "Upgrade") authorization ≡ false
  pub content_length : b.iequals Header.content_length authorization ≡ false
  pub content_type : b.iequals Header.content_type authorization ≡ false
  pub agent : b.iequals user_agent_header authorization ≡ false
  pub encoding : b.iequals accept_encoding authorization ≡ false
  pub cookies : b.iequals cookie authorization ≡ false
  pub self : b.iequals authorization authorization ≡ true

module _ ⦃b : Boost⦄ where
  pub has_key-append :
      (key j v : Bytes) (hs : List HttpHeader)
      → has_key key (hs ++ (j, v) ∷ []) ≡ has_key key hs || b.iequals j key
  unfolding has_key
  has_key-append key j v [] = ground arith
  has_key-append key j v ((i, w) ∷ hs) = ground (arith, has_key-append key j v hs)

  has_key-set_value :
      (key j v : Bytes) (hs : List HttpHeader) → has_key key (set_value j v hs) ≡ has_key key hs
  unfolding has_key set_value
  has_key-set_value key j v [] = refl
  has_key-set_value key j v ((i, w) ∷ hs) = ground (arith, has_key-set_value key j v hs)

  abbrev pub is_authorized : Request → Bool
  is_authorized r = Headers.has_header authorization r.base

  -- The method of a request, its body, and whether it has an `Authorization`.
  pub record Carries (m : Method) (body : Bytes) (authorized : Bool) (r : Request) : Type 0 where
    pub method : r.method ≡ m
    pub content : r.content ≡ body
    pub authorizes : is_authorized r ≡ authorized

  module _ {m : Method} {body : Bytes} {a : Bool} where
    pub add_header-Carries :
        (key value : Bytes) (r : Request)
        → b.iequals key authorization ≡ false
        → Carries m body a r
        → Carries m body a (add_request_header key value r)
    unfolding Headers.add_header Headers.has_header
    add_header-Carries [] value r h c = c
    add_header-Carries (d ∷ ds) value r h c = record {
      method = c.method;
      content = c.content;
      authorizes =
          ground (arith, has_key-append authorization (d ∷ ds) value r.headers, c.authorizes);
    }

    pub set_header-Carries :
        (key value : Bytes) (r : Request)
        → b.iequals key authorization ≡ false
        → Carries m body a r
        → Carries m body a (set_request_header key value r)
    unfolding Headers.set_header Headers.has_header
    set_header-Carries key value r h c =
        if_elim (λ (d : Headers). Carries m body a (record r { base = d })) (has_key key r.headers)
          (record r.base { headers = set_value key value r.headers })
          (Headers.add_header key value r.base)
          (λ e. record {
            method = c.method;
            content = c.content;
            authorizes = has_key-set_value authorization key value r.headers ∙ c.authorizes;
          })
          (λ e. add_header-Carries key value r h c)

    -- Only the method, the body and the headers matter.
    pub same_message-Carries :
        (r s : Request)
        → s.method ≡ r.method
        → s.base ≡ r.base
        → s.content ≡ r.content
        → Carries m body a r
        → Carries m body a s
    same_message-Carries r s method base content c = record {
      method = method ∙ c.method;
      content = content ∙ c.content;
      authorizes = ap (λ (h : Headers). Headers.has_header authorization h) base ∙ c.authorizes;
    }

  module _ (apart : TellsApart b) {m : Method} {body : Bytes} {a : Bool} where
    update_host_header-Carries :
        (r : Request) → Carries m body a r → Carries m body a (update_host_header r)
    unfolding update_host_header
    update_host_header-Carries r c =
        if_elim (Carries m body a)
          (not (bytes_eq (get_port r) https_port) && not (bytes_eq (get_port r) http_port))
          (set_request_header Header.host (r.host ++ b':' ∷ r.port) r)
          (set_request_header Header.host r.host r)
          (λ e. set_header-Carries Header.host (r.host ++ b':' ∷ r.port) r apart.host c)
          (λ e. set_header-Carries Header.host r.host r apart.host c)

    split_host-Carries :
        (name from_colon : Bytes) (r : Request)
        → Carries m body a r
        → Carries m body a (host_and_port name from_colon r)
    split_host-Carries name [] r c = same_message-Carries r _ refl refl refl c
    split_host-Carries name (d ∷ port) r c = same_message-Carries r _ refl refl refl c

    set_host-Carries :
        (host : Bytes) (r : Request) → Carries m body a r → Carries m body a (set_host host r)
    unfolding set_host
    set_host-Carries host r c =
        let (name, from_colon) = split_at b':' host in
        let split = host_and_port name from_colon r in
        let named = split_host-Carries name from_colon r c in
        same_message-Carries (update_host_header (record split { host = b.to_lower split.host })) _
          refl refl refl
          (update_host_header-Carries (record split { host = b.to_lower split.host })
            (same_message-Carries split _ refl refl refl named))

    set_port-Carries :
        (port : Bytes) (r : Request) → Carries m body a r → Carries m body a (set_port port r)
    unfolding set_port
    set_port-Carries port r c =
        let s = record r { port = port } in
        let there = same_message-Carries r s refl refl refl c in
        if_elim (Carries m body a) (not (bytes_eq port https_port) && not (bytes_eq port http_port))
          (set_request_header Header.host (s.host ++ b':' ∷ s.port) s) s
          (λ e. set_header-Carries Header.host (s.host ++ b':' ∷ s.port) s apart.host there)
          (λ e. there)

    upgrade-Carries :
        (protocol : Bytes) (r : Request)
        → Carries m body a r
        → Carries m body a (upgrade_websocket_url protocol r)
    unfolding upgrade_websocket_url
    upgrade-Carries protocol r c =
        let connected = set_request_header Header.connection (codes "upgrade") r in
        if_elim (Carries m body a)
          (bytes_eq protocol (codes "wss") || bytes_eq protocol (codes "ws"))
          (set_request_header (codes "Upgrade") (codes "websocket") connected) r
          (λ e.
            set_header-Carries (codes "Upgrade") (codes "websocket") connected apart.upgrade
              (set_header-Carries Header.connection (codes "upgrade") r apart.connection c))
          (λ e. c)

    pub store_url-Carries :
        (p : UrlParts) (r : Request) → Carries m body a r → Carries m body a (store_url p r)
    unfolding store_url
    store_url-Carries p r c =
        let hosted = set_host p.host r in
        let held = set_host-Carries p.host r c in
        let placed = if is_empty p.port then hosted else set_port p.port hosted in
        let kept =
          if_elim (Carries m body a) (is_empty p.port) hosted (set_port p.port hosted) (λ e. held)
            (λ e. set_port-Carries p.port hosted held) in
        let secure = bytes_eq p.protocol (codes "https") || bytes_eq p.protocol (codes "wss") in
        let from = record placed { protocol = p.protocol; ssl = secure } in
        let uri = if is_empty p.uri then codes "/" else p.uri in
        let (same_method, same_base, same_content) = set_uri-keeps uri from in
        upgrade-Carries p.protocol (set_uri uri from)
          (same_message-Carries placed (set_uri uri from) same_method same_base same_content kept)
