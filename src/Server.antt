-- ===== src/Server.antt =====
-- thinger/http/server
pub mod RequestFactory
pub mod Connection
pub mod ChunkedDecoder
pub mod RequestBody
pub mod Exchange
pub mod MimeTypes
pub mod Responder
pub mod Routing
pub mod HttpServer
pub mod StaticFiles
pub mod OutChunk
pub mod BasicAuth
