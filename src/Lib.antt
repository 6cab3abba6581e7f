-- ===== src/Lib.antt =====
-- The HTTP library thinger-http: a client and a server that share a message model.
--
-- A server reads the bytes of a connection with `request_factory`, a state machine that fills an
-- `http_request` one byte at a time; a client reads with `response_factory`, which fills an
-- `http_response` and can hand the body to callbacks as it arrives. Both messages are header lists
-- with what is derived from them (`headers`), and each writes itself by `to_buffer`, so what one
-- side writes is what the other side parses. URIs and queries go through the URL encoding.
--
-- - Common, Boost: shared names, lemmas and byte strings; the calls of boost::algorithm and of
--   boost::lexical_cast, which are parameters.
-- - Util/Url, Util/Utf8, Util/Base64: thinger/http/util/url.cpp, thinger/http/util/utf8.hpp and
--   thinger/util/base64.hpp.
-- - Message: thinger/http/common. Headers is headers.cpp, Method and Request are http_request.cpp,
--   Status and Response are http_response.cpp, Charset the character classes of the parsers.
-- - Server/RequestFactory: thinger/http/server/request_factory.{hpp,cpp}. Defs is the state, Line
--   and Head the cases of `consume`.
-- - Server/Connection: thinger/http/server/server_connection.{hpp,cpp} and http_stream.{hpp,cpp}, the
--   queue of pipelined requests and the writer, as the events of one `io_context` (Events).
-- - Server/ChunkedDecoder, Server/RequestBody: thinger/http/server/request.{hpp,cpp}. ChunkedDecoder
--   is the loop over the bytes of a raw read, and Reference the automaton that it is compared with;
--   RequestBody is the read-ahead, the reads and `read_body`.
-- - Client/ResponseFactory: thinger/http/client/response_factory.{hpp,cpp}. Defs is the state, Head
--   and Content the cases of `consume`.
-- - Client/ConnectionPool: thinger/http/client/connection_pool.{hpp,cpp}. Refinement has the
--   interleavings of its operations.
-- - Client/Cookie, Client/CookieStore: thinger/http/client/cookie.{hpp,cpp} and cookie_store.{hpp,cpp}.
-- - Asio/Frame, Asio/Websocket: thinger/asio/sockets/websocket.{hpp,cpp}. Frame is what
--   `send_message` writes; a socket is the bytes that are still to come.
-- - Client/HttpClient: thinger/http/client/http_client_base.{hpp,cpp}, requests with redirects over
--   the pool. Carries, Redirects and Origins are about the next request, Bounds about their number.
-- - Client/Form: thinger/http/client/form.{hpp,cpp}, forms and the body that they are sent as. It and
--   Util/Url/Pairs share the reading of what is written as pairs.
-- - Client/RequestBuilder: thinger/http/client/request_builder.hpp, the builder up to the methods that
--   return the response; Multipart is about the body of a form with files.
-- - Server/OutChunk: thinger/http/data/out_chunk.hpp, the frames of a response in chunks as bytes;
--   Delivery joins the responder, those bytes and the parser of the client.
-- - Server/Exchange, Server/Responder: thinger/http/server/request.{hpp,cpp} and response.{hpp,cpp}, a
--   request on its way through the server and the object by which it is answered. Responses are known
--   by their addresses, since the object shares them with the stream.
-- - Server/Routing: thinger/http/server/routing. Match is about `find_route`, Params about the
--   parameters of a path.
-- - Server/HttpServer, Server/BasicAuth, Server/StaticFiles: thinger/http/server/http_server_base.cpp,
--   the handler of a connection, the middleware of `set_basic_auth` and the handler of
--   `serve_static`. Guard joins the first two; Bodies joins the handler and `read_body`.
-- - Server/MimeTypes: thinger/http/server/mime_types.cpp.
-- - Libraries: zlib, std::regex, nlohmann::json, std::filesystem and std::hex, which are
--   parameters.
-- - Tests: the theorems at concrete inputs.
--
-- A byte is a number, a string a list of bytes, a `size_t` a number below 2^64 whose arithmetic is
-- reduced by hand. A call through a null pointer is the result `none`. `parse` is a recursion on the
-- input; the two loops of Utf8 run on as many rounds as there are bytes, each round taking one at least.
-- The loops that read from a socket (`read_frame`, `read_some_chunked`, `read_body`) run on fuel and
-- give `none` without it; more fuel than there are bytes to come is enough, since each round takes one.
-- `send` runs on fuel too; more than the redirects that are allowed is enough.
--
-- Not modelled: sockets, coroutines, timers and threads, TLS, compression, logging, the regular
-- expressions and what the constructor of a route does with them, JSON schemas, the loop of a server
-- connection that reads requests, the ping timer of a WebSocket and its close that waits for an
-- answer, the upgrades to WebSocket and to server-sent events, and the parts of the client and the
-- server that only drive these.
pub mod Common
pub mod Boost
pub mod Asio
pub mod Client
pub mod Libraries
pub mod Message
pub mod Server
pub mod Util
pub mod Tests
