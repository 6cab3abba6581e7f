-- ===== src/Server/Connection.antt =====
-- thinger/http/server/server_connection.{hpp,cpp} and http_stream.{hpp,cpp}: the streams of a
-- connection and their way to the socket. A stream object is known by its address, the number of
-- streams made before it. A stream that has left the queue keeps the frames it is given and never
-- sends them, so only those of the queue are modelled. A frame is its bytes and what `end_stream`
-- says. Every operation is an event of the `io_context`, and ends where its coroutine waits.
pub mod Events
pub mod Flight
pub mod Order
pub mod Sound
pub mod Pending
pub mod Delivery
use thinger_http.Common.{
  ℕ, suc, ◌+◌, ◌%◌, ◌^◌, Bool, true, false, Option, none, some, List, [], ◌∷◌, ◌++◌, ◌==◌,
  if◌then◌else◌, Bytes,
}
use thinger_http.Boost.{Boost}
use thinger_http.Message.Headers
use thinger_http.Message.Status.{Status, bad_request}
use thinger_http.Message.Response.{Response, to_buffer, stock_http_reply}

pub record Frame : Type 0 where
  pub bytes : Bytes
  pub end_stream : Bool

pub record Stream : Type 0 where
  pub address : ℕ
  pub id : ℕ
  pub keep_alive : Bool
  pub frames : List Frame

-- A coroutine that runs `write_frame`: its stream and its frame.
abbrev pub Writer : Type 0
Writer = Stream × Frame

pub record Connection : Type 0 where
  pub request_queue : List Stream
  pub writing : Bool
  pub writers : List Writer
  pub running : Bool
  pub streams : ℕ
  -- the addresses whose `completed` has been called, the latest first
  pub completed : List ℕ
  -- what the socket was given, with the address of its stream, the latest first
  pub written : List (ℕ × Frame)

abbrev pub new_connection : Connection
new_connection = record {
  request_queue = [];
  writing = false;
  writers = [];
  running = true;
  streams = 0;
  completed = [];
  written = [];
}

-- `++request_id_`, of 32 bits
abbrev pub stream_id : ℕ → ℕ
stream_id address = (address + 1) % 2 ^ 32

-- The new stream of `read_loop`, and its push to the queue.
abbrev pub new_stream : Bool → Connection → Stream
new_stream keep_alive c = record {
  address = c.streams;
  id = stream_id c.streams;
  keep_alive = keep_alive;
  frames = [];
}

unfoldable pub push_stream : Bool → Connection → Connection
push_stream keep_alive c = record c {
  request_queue = c.request_queue ++ new_stream keep_alive c ∷ [];
  streams = c.streams + 1;
}

-- `add_frame`
unfoldable pub add_frame : ℕ → Frame → List Stream → List Stream
add_frame address f [] = []
add_frame address f (s ∷ q) =
    (if s.address == address then record s { frames = s.frames ++ f ∷ [] } else s)
    ∷ add_frame address f q

-- `process_output_queue`, behind the test of `writing_`
unfoldable pub start_writer : List Stream → Connection → Connection
start_writer [] c = c
start_writer (s ∷ q) c = elim s.frames [
  | [] ↦ c
  | f ∷ fs ↦ record c {
    request_queue = record s { frames = fs } ∷ q;
    writing = true;
    writers = c.writers ++ (s, f) ∷ [];
  }
]

unfoldable pub process_output_queue : Connection → Connection
unfolding start_writer
process_output_queue c = if c.writing then c else start_writer c.request_queue c

-- whether the stream at the front has this id
abbrev pub is_front : ℕ → List Stream → Bool
is_front id [] = false
is_front id (s ∷ q) = s.id == id

-- `handle_stream`; the stream may have left the queue.
unfoldable pub handle_stream : Stream → Frame → Connection → Connection
unfolding add_frame process_output_queue
handle_stream s f c =
    let added = record c { request_queue = add_frame s.address f c.request_queue } in
    if is_front s.id added.request_queue then process_output_queue added else added

-- `close`
unfoldable pub close : Connection → Connection
close c = record c { running = false }

abbrev pub pop : List Stream → List Stream
pop [] = []
pop (s ∷ q) = q

-- The end of `write_frame`, once the socket has been given the frame.
unfoldable pub end_frame : Writer → Connection → Connection
unfolding close
end_frame (s, f) c =
    if f.end_stream
    then (let done = record c { completed = s.address ∷ c.completed } in
        if s.keep_alive then record done { request_queue = pop done.request_queue } else close done)
    else c

-- The coroutine of `process_output_queue`, to its end.
unfoldable pub write_frame : Writer → Connection → Connection
unfolding end_frame process_output_queue
write_frame (s, f) c =
    let ended = end_frame (s, f) (record c { written = (s.address, f) ∷ c.written }) in
    process_output_queue (record ended { writing = false })

module _ ⦃b : Boost⦄ where
  -- `handle_stock_error`
  unfoldable pub handle_stock_error : Stream → Status → Connection → Connection
  unfolding handle_stream stock_http_reply
  handle_stock_error s status c =
      let reply = stock_http_reply status in
      let error = record reply { base = Headers.set_keep_alive s.keep_alive reply.base } in
      handle_stream s (record { bytes = to_buffer error; end_stream = true }) c

  -- The answer of `read_loop` to an invalid request.
  unfoldable pub reject : Connection → Connection
  unfolding push_stream handle_stock_error
  reject c = handle_stock_error (new_stream false c) bad_request (push_stream false c)
