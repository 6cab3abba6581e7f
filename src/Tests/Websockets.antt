-- ===== src/Tests/Websockets.antt =====
-- Frames of a client, read by a server.
use thinger_http.Common.{
  flatten, ℕ, ◌+◌, ◌*◌, ◌++◌, ◌%◌, ◌<◌, ◌≡◌, refl, true, false, some, List, [], ◌∷◌, arith,
}
use thinger_http.Asio.Websocket.{Websocket, websocket, frame, read_frame, Step}
use thinger_http.Asio.Websocket.RoundTrip.{Peers, arrived}
use thinger_http.Asio.Websocket.Progress.{read_frame_ends}
use thinger_http.Asio.Websocket.Exchange.{Between}
use thinger_http.Asio.Websocket.Pongs.{read_frame-ping}
use thinger_http.Asio.Websocket.Conversation.{
  Sent, written, pinged, send_all, read_all, read_all-send_all,
}

abbrev rbe : ℕ → ℕ
rbe n = (n * 37 + 11) % 256

abbrev client : Websocket
client = websocket false false

abbrev server : Websocket
server = websocket false true

client-server : Peers rbe client server
client-server = record { random = λ n. omega arith; roles = refl }

fresh : Between server
fresh = record { complete = refl; nothing_left = refl }

abbrev sent : List Sent
sent = written (b'h' ∷ b'i' ∷ []) ∷ pinged (b'x' ∷ []) ∷ written [] ∷ []

read_all-send_all_example :
    read_all rbe 16 3 server (flatten (send_all rbe client sent).written)
    ≡ (b'h' ∷ b'i' ∷ []) ∷ [] ∷ []
read_all-send_all_example =
    read_all-send_all rbe 16 3 client server sent client-server refl fresh
      (
        record {
          are_bytes = (omega arith, (omega arith, tt));
          whole = omega arith;
          machine_size = omega arith;
        },
        (
          ((omega arith, tt), omega arith),
          (record { are_bytes = tt; whole = omega arith; machine_size = omega arith }, tt),
        ),
      )
      (omega arith)

read_frame-ping_example :
    read_frame rbe 16 2 server (frame rbe client 9 (b'x' ∷ []) ++ (1 ∷ []))
    ≡ read_frame rbe 16 1
        (record (arrived rbe client server 9) { written = (138 ∷ 1 ∷ b'x' ∷ []) ∷ [] })
        (1 ∷ [])
read_frame-ping_example =
    read_frame-ping rbe 16 client server 1 (b'x' ∷ []) (1 ∷ []) client-server fresh
      (omega arith, tt) (omega arith)

read_frame_ends_example :
    (s : Step) × ((fuel : ℕ)
      → 3 < fuel
      → read_frame rbe 16 fuel server (129 ∷ 128 ∷ 1 ∷ []) ≡ some s)
read_frame_ends_example = read_frame_ends rbe 16 server (129 ∷ 128 ∷ 1 ∷ [])
