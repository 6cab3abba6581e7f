-- ===== src/Client.antt =====
-- thinger/http/client
pub mod ResponseFactory
pub mod ConnectionPool
pub mod Cookie
pub mod CookieStore
pub mod HttpClient
pub mod Form
pub mod RequestBuilder
