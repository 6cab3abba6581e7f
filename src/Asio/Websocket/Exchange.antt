-- ===== src/Asio/Websocket/Exchange.antt =====
-- What one end of a WebSocket writes and the other reads, messages and pings in any order.
use thinger_http.Common.{
  ℕ, suc, ◌^◌, ◌≤◌, ◌<◌, ◌≡◌, refl, ap, ◌∙◌, true, false, some, [], ◌++◌, length, Bytes, IsBytes,
  arith, ltb, leb, if◌then◌else◌,
}
use thinger_http.Asio.Frame.{message}
use thinger_http.Asio.Websocket.{
  Websocket, connection_aborted, received, failed, accepts, frame, send_pong, send_close, control,
  after_control, read_frame,
}
use thinger_http.Asio.Websocket.RoundTrip.{
  Peers, arrived, read_new_frame-data, read_new_frame-control,
}
use thinger_http.Asio.Websocket.Progress.{read_frame-inl, read_frame-inr}

-- A payload that is read at once: bytes, and not more of them than the reader's buffer holds.
pub record Fits (max_size : ℕ) (bytes : Bytes) : Type 0 where
  pub are_bytes : IsBytes bytes
  pub whole : length bytes ≤ max_size
  pub machine_size : length bytes < 2 ^ 64

-- The reader has read all of the last message.
pub record Between (r : Websocket) : Type 0 where
  pub complete : r.new_message ≡ true
  pub nothing_left : r.frame_remaining ≡ 0

abbrev pub text_or_binary : Websocket → ℕ
text_or_binary s = if s.binary then 2 else 1

module _ (rbe : ℕ → ℕ) (max_size : ℕ) (s r : Websocket) (peers : Peers rbe s r) where
  module _ (fuel : ℕ) (bytes rest : Bytes) (between : Between r) where
    pub starts : ltb 0 r.frame_remaining ≡ false
    starts = rw (between.nothing_left) refl

    data_opcode :
        (text_or_binary s < 16)
        × (leb 8 (text_or_binary s) ≡ false)
        × (accepts r.new_message true (text_or_binary s) ≡ true)
    unfolding accepts
    data_opcode = ground (arith, between.complete)

    -- Reading the frame of `write` gives the payload and leaves the bytes behind the frame.
    pub read_frame-write :
        Fits max_size bytes
        → read_frame rbe max_size (suc fuel) r (frame rbe s (text_or_binary s) bytes ++ rest)
          ≡ some (
            record (arrived rbe s r (text_or_binary s)) { new_message = true },
            rest,
            received bytes,
          )
    read_frame-write fits =
        let (small, is_data, ok) = data_opcode in
        read_frame-inl rbe max_size fuel r _ _ starts (
          read_new_frame-data rbe max_size s r (text_or_binary s) bytes rest peers small
            fits.machine_size ok fits.are_bytes is_data fits.whole)

    -- One step: the ping, and what is done about it.
    pub read_frame-send_pong :
        IsBytes bytes
        → length bytes ≤ 125
        → read_frame rbe max_size (suc fuel) r (frame rbe s 9 bytes ++ rest)
          ≡ read_frame rbe max_size fuel (send_pong rbe (arrived rbe s r 9) bytes) rest
    unfolding after_control control
    read_frame-send_pong h fits = read_frame-inr rbe max_size fuel r _ _ _ starts (
        read_new_frame-control rbe max_size s r 9 bytes rest peers (omega arith) (omega arith)
          (unfold accepts in rw (between.complete) refl) h refl fits)

    close_opcode : frame rbe s 136 [] ≡ frame rbe s 8 []
    unfolding frame message
    close_opcode = refl

    -- Where the reader has read all of the last message, the two ends play different roles and the
    -- masks are of bytes, a close is answered by a close, unless one was sent before, and the read
    -- fails as aborted.
    pub read_frame-close :
        let closed = record (arrived rbe s r 8) { close_received = true } in
        read_frame rbe max_size (suc fuel) r (frame rbe s 136 [] ++ rest)
        ≡ some (
          (if r.close_sent then closed else send_close rbe closed),
          rest,
          failed connection_aborted,
        )
    unfolding after_control control
    read_frame-close =
        ap (λ f. read_frame rbe max_size (suc fuel) r (f ++ rest)) close_opcode
        ∙ read_frame-inl rbe max_size fuel r _ _ starts (
            read_new_frame-control rbe max_size s r 8 [] rest peers (omega arith) (omega arith)
              (unfold accepts in rw (between.complete) refl) tt refl (omega arith))
