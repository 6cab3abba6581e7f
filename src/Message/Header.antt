-- ===== src/Message/Header.antt =====
-- The header names and values of thinger/http/common/headers.hpp, and of namespace misc_strings.
use thinger_http.Common.{Bytes, codes, [], ◌∷◌}

abbrev pub content_type : Bytes
content_type = codes "Content-Type"

abbrev pub connection : Bytes
connection = codes "Connection"

abbrev pub accept : Bytes
accept = codes "Accept"

abbrev pub content_length : Bytes
content_length = codes "Content-Length"

abbrev pub transfer_encoding : Bytes
transfer_encoding = codes "Transfer-Encoding"

abbrev pub set_cookie : Bytes
set_cookie = codes "Set-Cookie"

abbrev pub host : Bytes
host = codes "Host"

-- `connection::keep_alive`
abbrev pub keep_alive : Bytes
keep_alive = codes "keep-alive"

-- `connection::close`
abbrev pub close : Bytes
close = codes "close"

-- `connection::upgrade`
abbrev pub upgrade : Bytes
upgrade = codes "upgrade"

-- `accept::event_stream`
abbrev pub event_stream : Bytes
event_stream = codes "text/event-stream"

abbrev pub name_value_separator : Bytes
name_value_separator = codes ": "

abbrev pub crlf : Bytes
crlf = b'\r' ∷ b'\n' ∷ []

abbrev pub http_1_1 : Bytes
http_1_1 = codes "HTTP/1.1"
