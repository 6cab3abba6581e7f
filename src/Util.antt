-- ===== src/Util.antt =====
-- http/util and util: encodings.
pub mod Url
pub mod Utf8
pub mod Base64
