-- ===== src/Message/Request.antt =====
-- thinger/http/common/http_request.{hpp,cpp}: a request. The cookie store and the callback for
-- chunks, which no operation here reads, are left out of the record.
pub mod Frame
pub mod SetUrl
use thinger_http.Common.{
  ℕ, ◌-◌, Bool, true, false, not, ◌&&◌, ◌||◌, List, [], ◌∷◌, ◌++◌, ltb, ◌==◌, if◌then◌else◌, length,
  Bytes, codes, bytes_eq, is_empty,
}
use thinger_http.Boost.{Boost}
use thinger_http.Util.Url.{
  Multimap, split_at, url_decode, parse_url_encoded_data, get_url_encoded_data, uri_path_encode,
  emplace,
}
use thinger_http.Message.Header
use thinger_http.Message.Headers
use thinger_http.Message.Headers.{Headers, HttpHeader}
use thinger_http.Message.Method.{Method, get_method, method_string}

pub record Request : Type 0 where
  pub base : Headers
  pub open base use *
  pub ssl : Bool
  pub method : Method
  pub uri : Bytes
  pub resource : Bytes
  pub uri_params : Multimap
  pub content : Bytes
  pub host : Bytes
  pub port : Bytes
  pub protocol : Bytes
  pub unix_socket : Bytes
  pub chunked_transfer : Bool

-- `http_request()`
abbrev pub new_request : Request
new_request = record {
  base = Headers.new_headers;
  ssl = false;
  method = Method.unknown;
  uri = [];
  resource = [];
  uri_params = [];
  content = [];
  host = [];
  port = [];
  protocol = [];
  unix_socket = [];
  chunked_transfer = false;
}

abbrev pub https_port : Bytes
https_port = codes "443"

abbrev pub http_port : Bytes
http_port = codes "80"

-- `set_method(const std::string&)`
unfoldable pub set_method_string : Bytes → Request → Request
set_method_string s r = record r { method = get_method s }

-- What the regular expression `(\/[^\?#]*)` takes, from its slash on, and what stands behind.
unfoldable pub break_query : Bytes → Bytes × Bytes
break_query [] = ([], [])
break_query (c ∷ cs) =
    let rest = break_query cs in
    if c == b'?' || c == b'#' then ([], c ∷ cs) else (c ∷ rest.0, rest.1)

-- the `if` of `set_uri` for the parameters, at what follows the resource
unfoldable pub store_query : Bytes → Request → Request
store_query [] r = r
store_query (c ∷ cs) r =
    if c == b'?' then record r { uri_params = parse_url_encoded_data cs r.uri_params } else r

-- the `if` of `set_uri` for the resource; the first argument stands from the first slash on
unfoldable pub store_resource : Bytes → Bytes → Request → Request
unfolding store_query break_query
store_resource [] uri r = store_query uri r
store_resource (c ∷ cs) uri r =
    let (found, rest) = break_query (c ∷ cs) in
    store_query rest (record r { resource = url_decode found })

-- `set_uri`
unfoldable pub set_uri : Bytes → Request → Request
unfolding store_resource
set_uri uri r = record (store_resource (split_at b'/' uri).1 uri r) { uri = uri }

-- `get_path`
unfoldable pub get_path : Request → Bytes
get_path r = (split_at b'?' r.uri).0

-- `refresh_uri`
unfoldable pub refresh_uri : Request → Request
refresh_uri r = record r {
  uri =
      if is_empty r.uri_params
      then uri_path_encode r.resource
      else uri_path_encode r.resource ++ b'?' ∷ get_url_encoded_data r.uri_params;
}

-- `set_resource`
unfoldable pub set_resource : Bytes → Request → Request
unfolding refresh_uri
set_resource resource r = refresh_uri (record r { resource = resource })

-- `add_uri_parameter`
unfoldable pub add_uri_parameter : Bytes → Bytes → Request → Request
unfolding refresh_uri
add_uri_parameter key value r =
    refresh_uri (record r { uri_params = emplace key value r.uri_params })

-- `get_port`
unfoldable pub get_port : Request → Bytes
get_port r = if is_empty r.port then (if r.ssl then https_port else http_port) else r.port

-- `is_default_port`
unfoldable pub is_default_port : Request → Bool
is_default_port r =
    if is_empty r.port
    then true
    else (r.ssl && bytes_eq https_port r.port) || bytes_eq http_port r.port

-- `get_base_path`
unfoldable pub get_base_path : Request → Bytes
unfolding is_default_port get_port
get_base_path r =
    (if r.ssl then codes "https://" else codes "http://")
    ++ (if is_default_port r then r.host else r.host ++ b':' ∷ get_port r)

-- `get_url`
unfoldable pub get_url : Request → Bytes
unfolding get_base_path
get_url r = get_base_path r ++ r.uri

-- `has_pending_body`
unfoldable pub has_pending_body : Request → Bool
has_pending_body r =
    (ltb 0 r.content_length && ltb (length r.content) r.content_length) || r.chunked_transfer

-- `pending_body_size`
unfoldable pub pending_body_size : Request → ℕ
pending_body_size r =
    if ltb (length r.content) r.content_length then r.content_length - length r.content else 0

module _ ⦃b : Boost⦄ where
  abbrev set_base : Bytes → Bytes → Request → Request
  set_base key value r = record r { base = Headers.set_header key value r.base }

  -- `set_host`, behind the split at `:`: the test on the port and the header
  unfoldable pub update_host_header : Request → Request
  unfolding get_port
  update_host_header r =
      if not (bytes_eq (get_port r) https_port) && not (bytes_eq (get_port r) http_port)
      then set_base Header.host (r.host ++ b':' ∷ r.port) r
      else set_base Header.host r.host r

  -- what stands from the first `:` on, if any, is the port without the `:`
  abbrev pub host_and_port : Bytes → Bytes → Request → Request
  host_and_port host [] r = record r { host = host }
  host_and_port host (colon ∷ port) r = record r { host = host; port = port }

  unfoldable pub set_host : Bytes → Request → Request
  unfolding update_host_header
  set_host host r =
      let (name, from_colon) = split_at b':' host in
      let split = host_and_port name from_colon r in
      update_host_header (record split { host = b.to_lower split.host })

  -- `set_port`
  unfoldable pub set_port : Bytes → Request → Request
  set_port port r =
      let s = record r { port = port } in
      if not (bytes_eq port https_port) && not (bytes_eq port http_port)
      then set_base Header.host (s.host ++ b':' ∷ s.port) s
      else s

  abbrev pub has_default_length : Method → Bool
  has_default_length Method.post = true
  has_default_length Method.put = true
  has_default_length Method.patch = true
  has_default_length _ = false

  -- `set_method(http::method)`
  unfoldable pub set_method : Method → Request → Request
  set_method m r =
      if has_default_length m && not (Headers.has_header Header.content_length r.base)
      then set_base Header.content_length (codes "0") (record r { method = m })
      else record r { method = m }

  -- `process_header`
  unfoldable pub process_header : Bytes → Bytes → Request → Request
  unfolding set_host
  process_header key value r =
      let base = Headers.process_header key value r.base in
      if b.iequals key Header.host
      then set_host value r
      else if b.iequals key Header.transfer_encoding && b.iequals value (codes "chunked")
      then record r { base = base; chunked_transfer = true }
      else record r { base = base }

-- One header line of `to_buffer`.
unfoldable pub header_line : HttpHeader → Bytes
header_line (key, value) = key ++ (Header.name_value_separator ++ (value ++ Header.crlf))

unfoldable pub header_lines : List HttpHeader → Bytes
unfolding header_line
header_lines [] = []
header_lines (h ∷ hs) = header_line h ++ header_lines hs

-- The set `proxy_headers` of `to_buffer` compares keys with their case.
unfoldable pub replaces : List HttpHeader → Bytes → Bool
replaces [] key = false
replaces ((j, v) ∷ proxies) key = if bytes_eq j key then true else replaces proxies key

unfoldable pub not_replaced : List HttpHeader → List HttpHeader → List HttpHeader
unfolding replaces
not_replaced proxies [] = []
not_replaced proxies ((key, value) ∷ hs) =
    if replaces proxies key then not_replaced proxies hs else (key, value) ∷ not_replaced proxies hs

-- `to_buffer`: the bytes of the buffers in order.
unfoldable pub to_buffer : Request → Bytes
unfolding header_lines not_replaced
to_buffer r =
    method_string r.method
    ++ (b' '
        ∷ (r.uri
            ++ (b' '
                ∷ (Header.http_1_1
                    ++ (Header.crlf
                        ++ (header_lines r.proxy_headers
                            ++ (header_lines (not_replaced r.proxy_headers r.headers)
                                ++ (Header.crlf ++ r.content))))))))
