-- ===== src/Tests.antt =====
-- The theorems at concrete inputs, and runs of the code.
mod Ascii
mod RequestParsing
mod ResponseParsing
mod Pooling
mod Utf8Validation
mod Websockets
mod Cookies
mod BodyReading
mod Base64Text
mod Pipelining
mod Routing
mod Serving
mod FileServing
mod Redirects
mod Forms
mod Chunks
