-- ===== src/Asio/Websocket.antt =====
-- thinger/asio/sockets/websocket.{hpp,cpp}: the frames of a WebSocket. The socket below is the bytes
-- that are still to come, and what was written to it; a read of more than there is fails. The
-- random bytes of the masks are a parameter. Timers are left out.
pub mod Frames
pub mod RoundTrip
pub mod Progress
pub mod Exchange
pub mod Pongs
pub mod Conversation
use thinger_http.Common.{
  ℕ, suc, zero, ◌+◌, ◌-◌, ◌*◌, ◌/◌, ◌%◌, ◌^◌, Bool, true, false, not, ◌&&◌, ◌||◌, Option, none,
  some, List, [], ◌∷◌, ◌++◌, ◌⊎◌, inl, inr, ltb, leb, ◌==◌, min, if◌then◌else◌, length, take, drop,
  Bytes,
}
use thinger_http.Asio.Frame.{apply_mask, message}

pub data Failure : Type 0 where
  read_failed invalid_argument connection_aborted : Failure

pub data Outcome : Type 0 where
  received : Bytes → Outcome
  failed : Failure → Outcome

pub record Websocket : Type 0 where
  pub binary : Bool
  pub server_role : Bool
  pub new_message : Bool
  pub message_opcode : ℕ
  pub frame_remaining : ℕ
  pub opcode : ℕ
  pub fin : Bool
  pub masked : Bool
  pub mask : Bytes
  pub close_received : Bool
  pub close_sent : Bool
  pub data_received : Bool
  pub pending_ping : Bool
  pub is_open : Bool
  -- how many random bytes were drawn
  pub drawn : ℕ
  -- what was written to the socket, a message at a time
  pub written : List Bytes

abbrev pub websocket : Bool → Bool → Websocket
websocket binary server = record {
  binary = binary;
  server_role = server;
  new_message = true;
  message_opcode = 0;
  frame_remaining = 0;
  opcode = 0;
  fin = false;
  masked = false;
  mask = [];
  close_received = false;
  close_sent = false;
  data_received = true;
  pending_ping = false;
  is_open = true;
  drawn = 0;
  written = [];
}

-- `socket_->read`
unfoldable pub read_exact : ℕ → Bytes → Option (Bytes × Bytes)
read_exact n input = if leb n (length input) then some (take n input, drop n input) else none

-- A big-endian number, from `n` on.
unfoldable pub big_endian : ℕ → Bytes → ℕ
big_endian n [] = n
big_endian n (x ∷ xs) = big_endian (n * 2 ^ 8 + x) xs

-- The length of the payload, from the seven bits of the header.
unfoldable pub read_size : ℕ → Bytes → Option (ℕ × Bytes)
unfolding read_exact big_endian
read_size n input =
    if n == 126
    then (elim (read_exact 2 input) [
      | none ↦ none
      | some (bytes, rest) ↦ some (big_endian 0 bytes, rest)
    ])
    else if n == 127
    then (elim (read_exact 8 input) [
      | none ↦ none
      | some (bytes, rest) ↦ some (big_endian 0 bytes, rest)
    ])
    else some (n, input)

-- Whether an opcode may stand here.
unfoldable pub accepts : Bool → Bool → ℕ → Bool
accepts new_message fin opcode =
    if new_message
    then (if opcode == 1 || opcode == 2
        then true
        else if opcode == 8 || opcode == 9 || opcode == 10
        then fin
        else false)
    else opcode == 0 || leb 8 opcode

unfoldable pub unmask : Websocket → Bytes → Bytes
unfolding apply_mask
unmask ws bytes = if ws.masked then apply_mask 0 ws.mask bytes else bytes

abbrev pub Step : Type 0
Step = Websocket × Bytes × Outcome

-- The first part of `read_frame`: what is left of a frame.
unfoldable pub read_remaining : ℕ → Websocket → Bytes → Step
unfolding read_exact unmask
read_remaining max_size ws input = elim (read_exact (min ws.frame_remaining max_size) input) [
  | none ↦ (ws, [], failed read_failed)
  | some (bytes, rest) ↦ (
    record ws { frame_remaining = ws.frame_remaining - length bytes },
    rest,
    received (unmask ws bytes),
  )
]

-- The last part: the payload of a data frame.
unfoldable pub read_payload : ℕ → Websocket → Bytes → Step
unfolding read_exact unmask
read_payload max_size ws input =
    if ws.frame_remaining == 0
    then (record ws { new_message = ws.fin || ws.new_message }, input, received [])
    else (elim (read_exact (min ws.frame_remaining max_size) input) [
      | none ↦ (ws, [], failed read_failed)
      | some (bytes, rest) ↦
          let left = ws.frame_remaining - length bytes in
          (
            record ws {
              frame_remaining = left;
              new_message = (if left == 0 then ws.fin else ws.new_message);
            },
            rest,
            received (unmask ws bytes),
          )
    ])

-- The two bytes that a frame starts with.
unfoldable pub begin_frame : Websocket → ℕ → ℕ → Websocket × Option Failure
unfolding accepts
begin_frame started b0 b1 =
    let ws = record started { data_received = true } in
    if not (b0 / 16 % 8 == 0)
    then (ws, some invalid_argument)
    else if ltb b1 128 && ws.server_role
    then (ws, some invalid_argument)
    else let op = b0 % 16 in
      let set = record ws { masked = leb 128 b1; fin = leb 128 b0; opcode = op } in
      if accepts set.new_message set.fin op
      then (
        record set {
          message_opcode =
              (if set.new_message && (op == 1 || op == 2) then op else set.message_opcode);
        },
        none,
      )
      else (set, some invalid_argument)

unfoldable pub read_mask : Websocket → Bytes → Option (Websocket × Bytes)
unfolding read_exact
read_mask ws input =
    if ws.masked
    then (elim (read_exact 4 input) [
      | none ↦ none
      | some (bytes, rest) ↦ some (record ws { mask = bytes }, rest)
    ])
    else some (ws, input)

-- What is left to do once a frame was read.
unfoldable pub read_on :
    (Websocket → Bytes → Option Step) → Step ⊎ (Websocket × Bytes) → Option Step
read_on again (inl result) = some result
read_on again (inr (next, rest)) = again next rest

-- The four bytes of a mask: `rbe()`, four times.
module _ (rbe : ℕ → ℕ) where
  abbrev pub random_mask : ℕ → Bytes
  random_mask n = rbe n ∷ rbe (n + 1) ∷ rbe (n + 2) ∷ rbe (n + 3) ∷ []

  -- What `send_message` writes.
  unfoldable pub frame : Websocket → ℕ → Bytes → Bytes
  unfolding message
  frame ws opcode payload =
      if ws.server_role
      then message true opcode [] payload
      else message false opcode (random_mask ws.drawn) payload

  unfoldable pub send_message : Websocket → ℕ → Bytes → Websocket
  unfolding frame
  send_message ws opcode payload = record ws {
    drawn = (if ws.server_role then ws.drawn else ws.drawn + 4);
    written = ws.written ++ (frame ws opcode payload ∷ []);
  }

  unfoldable pub send_ping : Websocket → Bytes → Websocket
  unfolding send_message
  send_ping ws payload = send_message ws 9 payload

  unfoldable pub send_pong : Websocket → Bytes → Websocket
  unfolding send_message
  send_pong ws payload = send_message ws 10 payload

  unfoldable pub write : Websocket → Bytes → Websocket
  unfolding send_message
  write ws payload = send_message ws (if ws.binary then 2 else 1) payload

  -- `send_close` once the other end's close has come: nothing is awaited.
  unfoldable pub send_close : Websocket → Websocket
  unfolding send_message
  send_close ws = record (send_message ws 136 []) { close_sent = true; is_open = false }

  -- The switch over a control frame whose payload was read. `none` goes on reading.
  unfoldable pub control : Websocket → Bytes → Websocket × Option Failure
  unfolding send_close send_pong
  control ws payload =
      if ws.opcode == 8
      then (
        let closed = record ws { close_received = true } in
            if ws.close_sent then closed else send_close closed,
        some connection_aborted,
      )
      else if ws.opcode == 9
      then (send_pong ws payload, none)
      else if ws.opcode == 10
      then (record ws { pending_ping = false; data_received = false }, none)
      else (ws, none)

  -- A control frame; one that the switch does not know counts as a data frame without payload.
  unfoldable pub after_control : ℕ → Websocket × Option Failure → Bytes → Step ⊎ (Websocket × Bytes)
  unfolding read_payload
  after_control max_size (ws, some e) rest = inl (ws, rest, failed e)
  after_control max_size (ws, none) rest =
      if leb ws.opcode 10 then inr (ws, rest) else inl (read_payload max_size ws rest)

  unfoldable pub read_control : ℕ → Websocket → Option (Bytes × Bytes) → Step ⊎ (Websocket × Bytes)
  unfolding unmask control after_control
  read_control max_size ws none = inl (ws, [], failed read_failed)
  read_control max_size ws (some (bytes, rest)) =
      after_control max_size (control (record ws { frame_remaining = 0 }) (unmask ws bytes)) rest

  -- From the mask on.
  unfoldable pub read_content :
      ℕ → Option (Websocket × Bytes) → Websocket → Step ⊎ (Websocket × Bytes)
  unfolding read_exact read_control read_payload
  read_content max_size none before = inl (before, [], failed read_failed)
  read_content max_size (some (ws, rest)) before =
      if leb 8 ws.opcode
      then read_control max_size ws (read_exact (min ws.frame_remaining 125) rest)
      else inl (read_payload max_size ws rest)

  -- From the size on.
  unfoldable pub read_sized : ℕ → Websocket → Option (ℕ × Bytes) → Step ⊎ (Websocket × Bytes)
  unfolding read_mask read_content
  read_sized max_size ws none = inl (ws, [], failed read_failed)
  read_sized max_size ws (some (size, rest)) =
      let sized = record ws { frame_remaining = size } in
      read_content max_size (read_mask sized rest) sized

  -- After the two bytes, of which the second gave `size`.
  unfoldable pub read_opened :
      ℕ → Websocket × Option Failure → ℕ → Bytes → Step ⊎ (Websocket × Bytes)
  unfolding read_size read_sized
  read_opened max_size (ws, none) size input = read_sized max_size ws (read_size size input)
  read_opened max_size (ws, some e) size input = inl (ws, input, failed e)

  -- A frame that starts here.
  unfoldable pub read_new_frame : ℕ → Websocket → Bytes → Step ⊎ (Websocket × Bytes)
  unfolding begin_frame read_opened
  read_new_frame max_size ws [] = inl (ws, [], failed read_failed)
  read_new_frame max_size ws (b0 ∷ []) = inl (ws, [], failed read_failed)
  read_new_frame max_size ws (b0 ∷ b1 ∷ input) =
      read_opened max_size (begin_frame ws b0 b1) (b1 % 128) input

  -- `read_frame` on fuel, which the calls of itself after a control frame use up.
  unfoldable pub read_frame : ℕ → ℕ → Websocket → Bytes → Option Step
  unfolding read_remaining read_new_frame read_on
  read_frame max_size zero ws input = none
  read_frame max_size (suc fuel) ws input =
      let begun = read_on (read_frame max_size fuel) (read_new_frame max_size ws input) in
      if ltb 0 ws.frame_remaining then some (read_remaining max_size ws input) else begun
