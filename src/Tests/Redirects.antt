-- ===== src/Tests/Redirects.antt =====
-- Requests of a client, with redirects, at concrete inputs.
use mathlib.Core.Path.{subst}
use thinger_http.Common.{
  All, ap, Option, none, ◌≢◌, ℕ, ◌+◌, refl, true, some, [], ◌∷◌, codes, bytes_eq, arith,
}
use thinger_http.Libraries.{UriRegex, UrlParts}
use thinger_http.Message.Headers.{new_headers}
use thinger_http.Message.Method
use thinger_http.Message.Request.{new_request}
use thinger_http.Message.Response.{Response, new_response}
use thinger_http.Client.ConnectionPool.Laws.{IsUnique}
use thinger_http.Client.HttpClient.{
  Network, Client, ClientRequest, Settings, authorization, location, send, get_or_create_connection,
  redirect_request,
}
use thinger_http.Client.HttpClient.Bounds.{Ends, send-Ends}
use thinger_http.Client.HttpClient.Connections.{Given, get_or_create_connection-Given}
use thinger_http.Client.HttpClient.Carries.{TellsApart}
use thinger_http.Client.HttpClient.Origins.{SplitsPorts, NextRequest, redirect_request-NextRequest}
use thinger_http.Tests.Ascii.{ascii, ascii_iequals, lower}
use thinger_http.Tests.Cookies.{clock}

-- `http://a/…` for every URL.
instance abbrev pub one_host : UriRegex
one_host = record {
  split_url =
      λ url. some (record { protocol = codes "http"; host = codes "a"; port = []; uri = url });
}

abbrev moved : Response
moved = record new_response {
  base = record new_headers { headers = (location, codes "/b") ∷ [] };
  status = 307;
}

-- A network that always answers by a redirect; its state is the number of connections made.
instance abbrev looping : Network ℕ
looping = record {
  alive = λ net c. true;
  is_open = λ net c. true;
  connect = λ r net. (net, net + 1);
  send_request = λ c r net. (some moved, net);
}

abbrev settings : Settings
settings = record {
  max_redirects = 5;
  follow_redirects = true;
  user_agent = codes "test";
  auto_decompress = true;
  unix_socket = [];
}

abbrev client : Client ℕ
client = record { settings = settings; pool = []; network = 0; sent = [] }

abbrev upload : ClientRequest
upload = record {
  http = record new_request {
    base = record new_headers { headers = (authorization, codes "Basic eA==") ∷ [] };
    method = Method.post;
    host = codes "a";
    uri = codes "/a";
    content = codes "abc";
  };
  cookies = [];
}

send-Ends_example : Ends 6 client (send ⦃b = ascii⦄ clock 6 upload client)
send-Ends_example = send-Ends ⦃b = ascii⦄ clock 6 upload client (omega arith)

get_or_create_connection-Given_example :
    Given upload.http client (get_or_create_connection upload.http client)
    × IsUnique (get_or_create_connection upload.http client).1.pool
get_or_create_connection-Given_example = get_or_create_connection-Given upload.http client tt

ascii-TellsApart : TellsApart ascii
unfolding ascii_iequals lower bytes_eq
ascii-TellsApart = record {
  host = refl;
  connection = refl;
  upgrade = refl;
  content_length = refl;
  content_type = refl;
  agent = refl;
  encoding = refl;
  cookies = refl;
  self = refl;
}

one_host-SplitsPorts : SplitsPorts one_host
one_host-SplitsPorts = record {
  no_colon = λ url p e.
      subst (All (λ c. c ≢ b':'))
        (ap (λ (o : Option UrlParts). elim o [ none ↦ [] | some q ↦ q.host ]) e) (ground arith, tt);
}

redirect_request-NextRequest_example :
    NextRequest ⦃b = ascii⦄ upload.http moved
      (redirect_request ⦃b = ascii⦄ settings clock upload moved)
redirect_request-NextRequest_example =
    redirect_request-NextRequest ⦃b = ascii⦄ one_host-SplitsPorts settings clock upload moved
      ascii-TellsApart
