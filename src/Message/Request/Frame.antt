-- ===== src/Message/Request/Frame.antt =====
-- What the header operations leave alone in a request.
use thinger_http.Common.{◌≡◌, refl, [], ◌∷◌, Bytes, arith}
use thinger_http.Boost.{Boost}
use thinger_http.Util.Url.{split_at, url_decode}
use thinger_http.Message.Request.{
  Request, update_host_header, host_and_port, set_host, process_header, set_uri, store_resource,
  store_query, break_query,
}

pub set_uri-uri : (u : Bytes) (r : Request) → (set_uri u r).uri ≡ u
unfolding set_uri
set_uri-uri u r = refl

abbrev KeepsMessage : Request → Request → Type 0
KeepsMessage r s = (s.method ≡ r.method) × (s.base ≡ r.base) × (s.content ≡ r.content)

store_query-keeps : (q : Bytes) (r : Request) → KeepsMessage r (store_query q r)
unfolding store_query
store_query-keeps [] r = (refl, refl, refl)
store_query-keeps (c ∷ cs) r = (ground arith, ground arith, ground arith)

store_resource-keeps : (from u : Bytes) (r : Request) → KeepsMessage r (store_resource from u r)
unfolding store_resource
store_resource-keeps [] u r = store_query-keeps u r
store_resource-keeps (c ∷ cs) u r =
    let (found, rest) = break_query (c ∷ cs) in
    store_query-keeps rest (record r { resource = url_decode found })

-- A URI changes neither the method, nor the headers, nor the body.
pub set_uri-keeps :
    (u : Bytes) (r : Request)
    → ((set_uri u r).method ≡ r.method)
      × ((set_uri u r).base ≡ r.base)
      × ((set_uri u r).content ≡ r.content)
unfolding set_uri
set_uri-keeps u r = store_resource-keeps (split_at b'/' u).1 u r

-- The fields that say where a request goes and what it carries.
pub record SameRequest (r s : Request) : Type 0 where
  pub method : s.method ≡ r.method
  pub uri : s.uri ≡ r.uri
  pub resource : s.resource ≡ r.resource
  pub uri_params : s.uri_params ≡ r.uri_params
  pub content : s.content ≡ r.content

module _ ⦃b : Boost⦄ where
  update_host_header-Same : (r : Request) → SameRequest r (update_host_header r)
  unfolding update_host_header
  update_host_header-Same r = ground arith

  split_host-Same :
      (name from_colon : Bytes) (r : Request) → SameRequest r (host_and_port name from_colon r)
  split_host-Same name [] r = ground arith
  split_host-Same name (c ∷ port) r = ground arith

  set_host-Same : (host : Bytes) (r : Request) → SameRequest r (set_host host r)
  unfolding set_host
  set_host-Same host r =
      let (name, from_colon) = split_at b':' host in
      let split = host_and_port name from_colon r in
      ground (
        arith,
        split_host-Same name from_colon r,
        update_host_header-Same (record split { host = b.to_lower split.host }),
      )

  -- A header changes neither the method, nor the URI and what was read from it, nor the body.
  pub process_header-Same :
      (key value : Bytes) (r : Request) → SameRequest r (process_header key value r)
  unfolding process_header
  process_header-Same key value r = ground (arith, set_host-Same value r)
