-- ===== src/Message.antt =====
-- thinger/http/common: the messages.
pub mod Header
pub mod Headers
pub mod Charset
pub mod Method
pub mod Request
pub mod Status
pub mod Response
