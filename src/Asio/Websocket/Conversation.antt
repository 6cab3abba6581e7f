-- ===== src/Asio/Websocket/Conversation.antt =====
-- A whole conversation: everything that one end writes, read by the other until nothing is left.
use thinger_http.Common.{
  ℕ, suc, zero, ◌≤◌, ◌<◌, ◌≡◌, refl, sym, ap, ◌∙◌, Option, none, some, List, [], ◌∷◌, ◌++◌, length,
  Bytes, IsBytes, All, arith, append_assoc, flatten, append-nil, inl, inr, Bool-cases,
  length-append,
}
use thinger_http.Asio.Frame.{message}
use thinger_http.Asio.Websocket.{
  Websocket, Step, received, failed, read_failed, frame, write, send_ping, send_pong, read_frame,
  read_new_frame,
}
use thinger_http.Asio.Websocket.RoundTrip.{Peers, arrived}
use thinger_http.Asio.Websocket.Progress.{read_frame-inl, read_frame_ends}
use thinger_http.Asio.Websocket.Exchange.{
  Fits, Between, text_or_binary, read_frame-write, read_frame-send_pong,
}

pub data Sent : Type 0 where
  written : Bytes → Sent
  pinged : Bytes → Sent

-- The payloads of the messages.
abbrev pub payloads : List Sent → List Bytes
payloads [] = []
payloads (written bytes ∷ es) = bytes ∷ payloads es
payloads (pinged bytes ∷ es) = payloads es

abbrev pub IsSendable : ℕ → Sent → Type 0
IsSendable max_size (written bytes) = Fits max_size bytes
IsSendable max_size (pinged bytes) = IsBytes bytes × (length bytes ≤ 125)

module _ (rbe : ℕ → ℕ) where
  abbrev pub send : Websocket → Sent → Websocket
  send s (written bytes) = write rbe s bytes
  send s (pinged bytes) = send_ping rbe s bytes

  abbrev pub send_all : Websocket → List Sent → Websocket
  send_all s [] = s
  send_all s (e ∷ es) = send_all (send s e) es

  abbrev sent_frame : Websocket → Sent → Bytes
  sent_frame s (written bytes) = frame rbe s (text_or_binary s) bytes
  sent_frame s (pinged bytes) = frame rbe s 9 bytes

  stream : Websocket → List Sent → Bytes
  stream s [] = []
  stream s (e ∷ es) = sent_frame s e ++ stream (send s e) es

  flatten-append : (xss : List Bytes) (xs : Bytes) → flatten (xss ++ (xs ∷ [])) ≡ flatten xss ++ xs
  flatten-append [] xs = append-nil xs
  flatten-append (ys ∷ xss) xs =
      ap (λ t. ys ++ t) (flatten-append xss xs) ∙ sym (append_assoc ys (flatten xss) xs)

  flatten-send :
      (s : Websocket) (e : Sent) → flatten (send s e).written ≡ flatten s.written ++ sent_frame s e
  unfolding write send_ping
  flatten-send s (written bytes) = flatten-append s.written (frame rbe s (text_or_binary s) bytes)
  flatten-send s (pinged bytes) = flatten-append s.written (frame rbe s 9 bytes)

  flatten-send_all :
      (s : Websocket) (es : List Sent)
      → flatten (send_all s es).written ≡ flatten s.written ++ stream s es
  unfolding stream
  flatten-send_all s [] = sym (append-nil (flatten s.written))
  flatten-send_all s (e ∷ es) =
      flatten-send_all (send s e) es
      ∙ ap (λ t. t ++ stream (send s e) es) (flatten-send s e)
      ∙ append_assoc (flatten s.written) (sent_frame s e) (stream (send s e) es)

  module _ (max_size : ℕ) where
    abbrev collect : (Websocket → Bytes → List Bytes) → Option Step → List Bytes
    collect again none = []
    collect again (some (ws, rest, received bytes)) = bytes ∷ again ws rest
    collect again (some (ws, rest, failed e)) = []

    -- The payloads of up to `n` reads with a buffer of `max_size`, until one fails.
    abbrev pub read_all : ℕ → Websocket → Bytes → List Bytes
    read_all zero ws input = []
    read_all (suc n) ws input =
        collect (read_all n) (read_frame rbe max_size (suc (length input)) ws input)

    -- More fuel than there are bytes makes no difference.
    enough :
        (fuel : ℕ) (ws : Websocket) (input : Bytes)
        → length input < fuel
        → read_frame rbe max_size fuel ws input
          ≡ read_frame rbe max_size (suc (length input)) ws input
    enough fuel ws input h =
        let (s, same) = read_frame_ends rbe max_size ws input in
        same fuel h ∙ sym (same (suc (length input)) (omega arith))

    read_all-nil : (n : ℕ) (r : Websocket) → Between r → read_all n r [] ≡ []
    read_all-nil zero r between = refl
    read_all-nil (suc n) r between =
        let fails : read_new_frame rbe max_size r [] ≡ inl (r, [], failed read_failed) =
          unfold read_new_frame in refl in
        ap (collect (read_all n))
          (read_frame-inl rbe max_size 0 r [] _ (rw (between.nothing_left) refl) fails)

    frame_is_some : (s : Websocket) (op : ℕ) (bytes : Bytes) → 1 ≤ length (frame rbe s op bytes)
    unfolding frame message
    frame_is_some s op bytes = elim (Bool-cases s.server_role) [
      | inl e ↦ rw (e) (omega arith)
      | inr e ↦ rw (e) (omega arith)
    ]

    read_all-stream :
        (n : ℕ) (s r : Websocket) (es : List Sent)
        → Peers rbe s r
        → Between r
        → All (IsSendable max_size) es
        → length es ≤ n
        → read_all n r (stream s es) ≡ payloads es
    unfolding stream write send_ping send_pong
    read_all-stream n s r [] peers between h k = read_all-nil n r between
    read_all-stream zero s r (e ∷ es) peers between h k = absurd (omega arith)
    read_all-stream (suc n) s r (written bytes ∷ es) peers between (fits, h) k =
        ap (collect (read_all n)) (
          read_frame-write rbe max_size s r peers _ bytes (stream (write rbe s bytes) es) between
            fits)
        ∙ ap (λ t. bytes ∷ t)
            (read_all-stream n (write rbe s bytes) _ es
              (record { random = peers.random; roles = peers.roles })
              (record { complete = refl; nothing_left = refl }) h (omega arith))
    read_all-stream (suc n) s r (pinged bytes ∷ es) peers between ((are_bytes, fits), h) k =
        let after = send_pong rbe (arrived rbe s r 9) bytes in
        let rest = stream (send_ping rbe s bytes) es in
        ap (collect (read_all n)) (
          read_frame-send_pong rbe max_size s r peers _ bytes rest between are_bytes fits
          ∙ enough _ after rest
              (omega (arith, length-append (frame rbe s 9 bytes) rest, frame_is_some s 9 bytes)))
        ∙ read_all-stream (suc n) (send_ping rbe s bytes) after es
            (record { random = peers.random; roles = peers.roles })
            (record { complete = between.complete; nothing_left = refl }) h (omega arith)

-- The messages that one end writes, pings in between, are what the other reads, in order: where
-- the two ends play different roles and the masks are of bytes, nothing was written before, the
-- reader has read all of the last message, each payload of a message is of bytes, has a 64-bit
-- size and fits the reader's buffer, each payload of a ping is of at most 125 bytes, and the reader
-- reads at least as often as something was sent.
pub read_all-send_all :
    (rbe : ℕ → ℕ) (max_size n : ℕ) (s r : Websocket) (es : List Sent)
    → Peers rbe s r
    → s.written ≡ []
    → Between r
    → All (IsSendable max_size) es
    → length es ≤ n
    → read_all rbe max_size n r (flatten (send_all rbe s es).written) ≡ payloads es
read_all-send_all rbe max_size n s r es peers none_before between h k =
    ap (read_all rbe max_size n r)
      (flatten-send_all rbe s es ∙ ap (λ w. flatten w ++ stream rbe s es) none_before)
    ∙ read_all-stream rbe max_size n s r es peers between h k
