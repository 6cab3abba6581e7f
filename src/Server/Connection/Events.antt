-- ===== src/Server/Connection/Events.antt =====
-- The events of a connection, in any order in which the threads bring them about.
use thinger_http.Common.{ℕ, ◌<◌, ◌≡◌, Bool, List, [], ◌∷◌, ◌++◌, ◌==◌, if◌then◌else◌}
use thinger_http.Server.Connection.{
  Frame, Stream, Writer, Connection, new_connection, stream_id, push_stream, handle_stream,
  write_frame, close,
}

-- The frames that have been given to `handle_stream` for each stream, in order.
abbrev pub Given : Type 0
Given = ℕ → List Frame

abbrev pub give : ℕ → Frame → Given → Given
give a f given = λ b. if a == b then given b ++ f ∷ [] else given b

-- The connections that can come about, with the frames given so far: requests arrive, handlers give
-- frames to the streams of the requests that have arrived, coroutines end, and timers close. An
-- invalid request is an arrival and a frame.
pub data Reach : Connection → Given → Type 0 where
  start : Reach new_connection (λ a. [])
  arrived :
      {c : Connection} {given : Given} (keep_alive : Bool)
      → Reach c given
      → Reach (push_stream keep_alive c) given
  handled :
      {c : Connection} {given : Given} (s : Stream) (f : Frame)
      → s.address < c.streams
      → s.id ≡ stream_id s.address
      → Reach c given
      → Reach (handle_stream s f c) (give s.address f given)
  wrote :
      {c : Connection} {given : Given} (before after : List Writer) (w : Writer)
      → c.writers ≡ before ++ w ∷ after
      → Reach c given
      → Reach (write_frame w (record c { writers = before ++ after })) given
  closed : {c : Connection} {given : Given} → Reach c given → Reach (close c) given
