-- ===== src/Tests/Routing.antt =====
-- Routes, their parameters and their answers, at concrete inputs.
use thinger_http.Common.{
  ◌≡◌, ◌≢◌, refl, true, false, none, some, List, [], ◌∷◌, ◌++◌, All, if◌then◌else◌, Bytes, codes,
  bytes_eq, arith,
}
use thinger_http.Libraries.{Regex, Zlib, JsonLib, Filesystem}
use thinger_http.Message.Method
use thinger_http.Message.Status.{not_found, not_allowed}
use thinger_http.Message.Request.{new_request, get_path}
use thinger_http.Server.RequestBody.{new_server_request}
use thinger_http.Server.Exchange.{Exchange, AuthLevel, request_of, new_exchange, get_param}
use thinger_http.Server.Responder.{send, text_plain}
use thinger_http.Server.Responder.Answers.{IsAnswered}
use thinger_http.Server.Responder.Framing.{IsFramed}
use thinger_http.Server.Responder.Calls.{
  Call, send_call, status_call, header_call, write_call, file_call, act_all, any_answer,
}
use thinger_http.Server.Responder.Once.{act_all-once}
use thinger_http.Server.Responder.{new_responder}
use thinger_http.Server.Routing.{
  Route, Router, Handler, returned, request_response, find_route, store_params, handle_unmatched,
  Routes,
}
use thinger_http.Server.Routing.Match.{
  Found, routes_for, find_route-Found, handle_unmatched-IsAnswered,
}
use thinger_http.Server.Routing.Params.{get_param-store_params}
use thinger_http.Tests.Ascii.{ascii}

-- Every regular expression is a text without groups, but for `/users/(.*)` on one path.
instance abbrev pub exact : Regex
exact = record {
  regex_match = λ regex path.
      if bytes_eq regex (codes "/users/(.*)")
      then (if bytes_eq path (codes "/users/ann") then some (some (codes "ann") ∷ []) else none)
      else if bytes_eq regex path
      then some []
      else none;
}

-- A file system without files.
instance abbrev pub no_files : Filesystem
no_files = record {
  canonical = λ path. none;
  weakly_canonical = λ path. none;
  join = λ base name. base ++ b'/' ∷ name;
  exists = λ path. false;
  is_regular_file = λ path. false;
  is_directory = λ path. false;
  contents = λ path. none;
  extension = λ path. [];
  filename = λ path. path;
}

instance abbrev pub no_codec : Zlib
no_codec = record {
  gzip = λ bytes. none;
  deflate = λ bytes. none;
  gunzip = λ bytes. none;
  inflate = λ bytes. none;
}

-- The only JSON value.
instance abbrev pub no_json : JsonLib Unit
no_json = record { parse = λ bytes. none; null = tt }

abbrev pub hello : Handler
hello t = returned (send ⦃b = ascii⦄ (codes "hello") text_plain t)

abbrev pub route_at : Bytes → List Bytes → Route Unit
route_at regex names = record {
  info = record {
    pattern = regex;
    regex = regex;
    parameters = names;
    auth_level = AuthLevel.public;
    description = [];
    deferred_body = false;
  };
  callback = request_response hello;
}

abbrev pub router : Router Unit
router = record {
  routes =
      (
        Method.get,
        route_at (codes "/") [] ∷ route_at (codes "/users/(.*)") (codes "user" ∷ []) ∷ [],
      )
      ∷ [];
  cors_enabled = false;
  fallback_handler = none;
}

abbrev pub asks : Bytes → Exchange
asks uri =
    new_exchange true
      (new_server_request (record new_request { method = Method.get; uri = uri }) [])

find_route-Found_example :
    Found
      (get_path (request_of (asks (codes "/users/ann"))))
      (routes_for router (asks (codes "/users/ann")))
      (asks (codes "/users/ann"))
      (find_route router (asks (codes "/users/ann")))
find_route-Found_example = find_route-Found router (asks (codes "/users/ann"))

abbrev lost : Exchange
lost = asks (codes "/x")

handle_unmatched-IsAnswered_example :
    (All (λ entry. entry.0 ≢ Method.get) router.routes
      → (y : Exchange) × (handle_unmatched ⦃b = ascii⦄ router lost ≡ returned y)
        × IsAnswered not_allowed lost y)
    × ((before after : Routes Unit) (rs : List (Route Unit))
        → router.routes ≡ before ++ (Method.get, rs) ∷ after
        → (y : Exchange) × (handle_unmatched ⦃b = ascii⦄ router lost ≡ returned y)
          × IsAnswered not_found lost y)
handle_unmatched-IsAnswered_example = handle_unmatched-IsAnswered ⦃b = ascii⦄ router lost refl refl

codes_differ : codes "a" ≢ codes "b"
codes_differ = ground arith

get_param-store_params_example :
    get_param
      (codes "b")
      (store_params (codes "a" ∷ codes "b" ∷ []) (none ∷ some (codes "2") ∷ []) [])
    ≡ codes "2"
unfolding bytes_eq
get_param-store_params_example =
    get_param-store_params (codes "b") (codes "a" ∷ codes "b" ∷ []) (none ∷ some (codes "2") ∷ [])
      [] ((codes_differ, tt), (tt, tt))

abbrev calls : List Call
calls =
    status_call not_found
    ∷ header_call (codes "X") (codes "1")
    ∷ send_call (codes "no") text_plain
    ∷ send_call (codes "again") text_plain
    ∷ write_call (codes "more")
    ∷ file_call false (codes "/a")
    ∷ []

act_all-once_example :
    IsFramed [] (act_all ⦃b = ascii⦄ calls (new_responder false (asks (codes "/x"))))
    × ((act_all ⦃b = ascii⦄ calls (new_responder false (asks (codes "/x")))).responded
        ≡ any_answer calls)
act_all-once_example = act_all-once ⦃b = ascii⦄ calls false (asks (codes "/x")) refl
