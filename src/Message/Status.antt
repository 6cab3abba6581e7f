-- ===== src/Message/Status.antt =====
-- thinger/http/common/http_response.{hpp,cpp}: the status codes and the texts that go with them.
use thinger_http.Common.{ℕ, Option, none, some, List, [], ◌∷◌, if◌then◌else◌, ◌==◌, Bytes, codes}

-- `http_response::status`. The type of the enumeration can hold other numbers too: a status is kept
-- as its number, and `find_status` tells whether it is one of these.
pub data Status : Type 0 where
  ok created accepted no_content multiple_choices moved_permanently : Status
  moved_temporarily not_modified temporary_redirect permanent_redirect bad_request : Status
  unauthorized forbidden not_found not_allowed timed_out conflict payload_too_large : Status
  upgrade_required too_many_requests internal_server_error not_implemented : Status
  bad_gateway service_unavailable switching_protocols : Status

unfoldable pub status_code : Status → ℕ
status_code ok = 200
status_code created = 201
status_code accepted = 202
status_code no_content = 204
status_code multiple_choices = 300
status_code moved_permanently = 301
status_code moved_temporarily = 302
status_code not_modified = 304
status_code temporary_redirect = 307
status_code permanent_redirect = 308
status_code bad_request = 400
status_code unauthorized = 401
status_code forbidden = 403
status_code not_found = 404
status_code not_allowed = 405
status_code timed_out = 408
status_code conflict = 409
status_code payload_too_large = 413
status_code upgrade_required = 426
status_code too_many_requests = 429
status_code internal_server_error = 500
status_code not_implemented = 501
status_code bad_gateway = 502
status_code service_unavailable = 503
status_code switching_protocols = 101

abbrev pub statuses : List Status
statuses =
    ok ∷ created ∷ accepted ∷ no_content ∷ multiple_choices ∷ moved_permanently ∷ moved_temporarily
    ∷ not_modified ∷ temporary_redirect ∷ permanent_redirect ∷ bad_request ∷ unauthorized
    ∷ forbidden ∷ not_found ∷ not_allowed ∷ timed_out ∷ conflict ∷ payload_too_large
    ∷ upgrade_required ∷ too_many_requests ∷ internal_server_error ∷ not_implemented ∷ bad_gateway
    ∷ service_unavailable ∷ switching_protocols ∷ []

-- The enumerator with a number.
unfoldable pub find_status : ℕ → List Status → Option Status
unfolding status_code
find_status n [] = none
find_status n (s ∷ ss) = if n == status_code s then some s else find_status n ss

-- `get_status_string` of an enumerator
unfoldable pub status_string : Status → Bytes
status_string ok = codes "HTTP/1.1 200 OK"
status_string created = codes "HTTP/1.1 201 Created"
status_string accepted = codes "HTTP/1.1 202 Accepted"
status_string no_content = codes "HTTP/1.1 204 No Content"
status_string multiple_choices = codes "HTTP/1.1 300 Multiple Choices"
status_string moved_permanently = codes "HTTP/1.1 301 Moved Permanently"
status_string moved_temporarily = codes "HTTP/1.1 302 Moved Temporarily"
status_string not_modified = codes "HTTP/1.1 304 Not Modified"
status_string temporary_redirect = codes "HTTP/1.1 307 Temporary Redirect"
status_string permanent_redirect = codes "HTTP/1.1 308 Permanent Redirect"
status_string bad_request = codes "HTTP/1.1 400 Bad Request"
status_string unauthorized = codes "HTTP/1.1 401 Unauthorized"
status_string forbidden = codes "HTTP/1.1 403 Forbidden"
status_string not_found = codes "HTTP/1.1 404 Not Found"
status_string not_allowed = codes "HTTP/1.1 405 Method Not Allowed"
status_string timed_out = codes "HTTP/1.1 408 Request Timeout"
status_string conflict = codes "HTTP/1.1 409 Conflict"
status_string payload_too_large = codes "HTTP/1.1 413 Payload Too Large"
status_string upgrade_required = codes "HTTP/1.1 426 Upgrade Required"
status_string too_many_requests = codes "HTTP/1.1 429 Too Many Requests"
status_string internal_server_error = codes "HTTP/1.1 500 Internal Server Error"
status_string not_implemented = codes "HTTP/1.1 501 Not Implemented"
status_string bad_gateway = codes "HTTP/1.1 502 Bad Gateway"
status_string service_unavailable = codes "HTTP/1.1 503 Service Unavailable"
status_string switching_protocols = codes "HTTP/1.1 101 Switching Protocols"

-- `get_status_string`, with its default
unfoldable pub get_status_string : Option Status → Bytes
unfolding status_string
get_status_string none = codes "HTTP/1.1 000 Unknown Status"
get_status_string (some s) = status_string s

-- `stock_replies::to_string`; a status with no page of its own gets the page of error 500.
unfoldable pub stock_page : Status → Bytes
stock_page ok = []
stock_page created =
    codes "<html><head><title>Created</title></head><body><h1>201 Created</h1></body></html>"
stock_page accepted =
    codes "<html><head><title>Accepted</title></head><body><h1>202 Accepted</h1></body></html>"
stock_page no_content =
    codes "<html><head><title>No Content</title></head><body><h1>204 Content</h1></body></html>"
stock_page multiple_choices =
    codes
      "<html><head><title>Multiple Choices</title></head><body><h1>300 Multiple Choices</h1></body></html>"
stock_page moved_permanently =
    codes
      "<html><head><title>Moved Permanently</title></head><body><h1>301 Moved Permanently</h1></body></html>"
stock_page moved_temporarily =
    codes
      "<html><head><title>Moved Temporarily</title></head><body><h1>302 Moved Temporarily</h1></body></html>"
stock_page temporary_redirect =
    codes
      "<html><head><title>Temporary Redirect</title></head><body><h1>307 Temporary Redirect</h1></body></html>"
stock_page permanent_redirect =
    codes
      "<html><head><title>Permanet Redirect</title></head><body><h1>308 Permanent Redirect</h1></body></html>"
stock_page not_modified =
    codes
      "<html><head><title>Not Modified</title></head><body><h1>304 Not Modified</h1></body></html>"
stock_page bad_request =
    codes
      "<html><head><title>Bad Request</title></head><body><h1>400 Bad Request</h1></body></html>"
stock_page unauthorized =
    codes
      "<html><head><title>Unauthorized</title></head><body><h1>401 Unauthorized</h1></body></html>"
stock_page forbidden =
    codes "<html><head><title>Forbidden</title></head><body><h1>403 Forbidden</h1></body></html>"
stock_page not_found =
    codes "<html><head><title>Not Found</title></head><body><h1>404 Not Found</h1></body></html>"
stock_page timed_out =
    codes
      "<html><head><title>Request Timeout</title></head><body><h1>408 Request Timeout</h1></body></html>"
stock_page internal_server_error =
    codes
      "<html><head><title>Internal Server Error</title></head><body><h1>500 Internal Server Error</h1></body></html>"
stock_page not_implemented =
    codes
      "<html><head><title>Not Implemented</title></head><body><h1>501 Not Implemented</h1></body></html>"
stock_page bad_gateway =
    codes
      "<html><head><title>Bad Gateway</title></head><body><h1>502 Bad Gateway</h1></body></html>"
stock_page service_unavailable =
    codes
      "<html><head><title>Service Unavailable</title></head><body><h1>503 Service Unavailable</h1></body></html>"
stock_page too_many_requests =
    codes
      "<html><head><title>Too Many Requests</title></head><body><h1>429 Too Many Requests</h1></body></html>"
stock_page payload_too_large =
    codes
      "<html><head><title>Payload Too Large</title></head><body><h1>413 Payload Too Large</h1></body></html>"
stock_page _ =
    codes
      "<html><head><title>Internal Server Error</title></head><body><h1>500 Internal Server Error</h1></body></html>"
