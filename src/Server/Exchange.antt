-- ===== src/Server/Exchange.antt =====
-- thinger/http/server/request.{hpp,cpp}: a request on its way through the server, and what its
-- stream was given. An `http_response` is shared by the object that writes it and the stream that it
-- was handed to, so it is known by its address in the list of all of them.
use Prim.Native.Nat.{ℕ, zero, suc}
use thinger_http.Common.{
  Bool, false, Option, none, some, List, [], ◌∷◌, if◌then◌else◌, Bytes, bytes_eq,
}
use thinger_http.Util.Url.{Multimap, emplace}
use thinger_http.Message.Request.{Request}
use thinger_http.Message.Response.{Response}
use thinger_http.Server.RequestBody.{ServerRequest}

-- `auth_level`
pub data AuthLevel : Type 0 where
  public user admin : AuthLevel

-- `route`, less its callback
pub record RouteInfo : Type 0 where
  pub pattern : Bytes
  pub regex : Bytes
  pub parameters : List Bytes
  pub auth_level : AuthLevel
  pub description : Bytes
  pub deferred_body : Bool

-- What `handle_stream` is given, a response by its address or a chunk, and its `last_frame`.
pub data Sent : Type 0 where
  head : ℕ → Bool → Sent
  chunk : Bytes → Bool → Sent

pub record Exchange : Type 0 where
  pub server_request : ServerRequest
  pub params : Multimap
  pub auth_user : Bytes
  pub matched_route : Option RouteInfo
  -- whether the connection and the stream of the request are still there
  pub connected : Bool
  -- `passed`, a local variable of the handler that `setup_connection_handler` sets
  pub passed : Bool
  -- the responses, by their address
  pub responses : List Response
  -- what the stream was given, the latest first
  pub sent : List Sent

abbrev pub request_of : Exchange → Request
request_of x = x.server_request.http_request

-- `request::request`
abbrev pub new_exchange : Bool → ServerRequest → Exchange
new_exchange connected r = record {
  server_request = r;
  params = [];
  auth_user = [];
  matched_route = none;
  connected = connected;
  passed = false;
  responses = [];
  sent = [];
}

-- `set_auth_user`
unfoldable pub set_auth_user : Bytes → Exchange → Exchange
set_auth_user name x = record x { auth_user = name }

-- `set_matched_route`
unfoldable pub set_matched_route : RouteInfo → Exchange → Exchange
set_matched_route r x = record x { matched_route = some r }

-- `get_required_auth_level`
unfoldable pub get_required_auth_level : Exchange → AuthLevel
get_required_auth_level x = elim x.matched_route [ none ↦ public | some r ↦ r.auth_level ]

-- `std::multimap::erase`
unfoldable pub erase : Bytes → Multimap → Multimap
erase k [] = []
erase k ((j, v) ∷ m) = if bytes_eq j k then erase k m else (j, v) ∷ erase k m

-- `set_uri_parameter`
unfoldable pub set_param : Bytes → Bytes → Multimap → Multimap
unfolding erase emplace
set_param k v m = emplace k v (erase k m)

-- `get_uri_parameter` and `operator[]`
unfoldable pub get_param : Bytes → Multimap → Bytes
get_param k [] = []
get_param k ((j, v) ∷ m) = if bytes_eq j k then v else get_param k m

-- A change of the response at an address.
unfoldable pub change_at : ℕ → (Response → Response) → List Response → List Response
change_at n f [] = []
change_at zero f (r ∷ rs) = f r ∷ rs
change_at (suc n) f (r ∷ rs) = r ∷ change_at n f rs
