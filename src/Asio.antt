-- ===== src/Asio.antt =====
-- thinger/asio
pub mod Frame
pub mod Websocket
