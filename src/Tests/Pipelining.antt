-- ===== src/Tests/Pipelining.antt =====
-- The output queue of a connection at concrete inputs.
use thinger_http.Common.{◌≡◌, ◌≤◌, refl, true, false, List, [], ◌∷◌, ◌++◌, length, codes, arith}
use thinger_http.Server.Connection.{
  Frame, Stream, Writer, Connection, new_connection, new_stream, push_stream, handle_stream,
  write_frame,
}
use thinger_http.Server.Connection.Events.{Given, give, Reach, start, arrived, handled, wrote}
use thinger_http.Server.Connection.Order.{InOrder, written-InOrder}
use thinger_http.Server.Connection.Pending.{frames_of}
use thinger_http.Server.Connection.Delivery.{frames_of-given}

abbrev late : Frame
late = record { bytes = codes "second"; end_stream = true }

abbrev early : Frame
early = record { bytes = codes "first"; end_stream = true }

abbrev first : Stream
first = new_stream true new_connection

abbrev second : Stream
second = new_stream true (push_stream true new_connection)

-- Two requests arrive, and the second is answered first.
abbrev answered : Connection
answered =
    handle_stream first early
      (handle_stream second late (push_stream true (push_stream true new_connection)))

abbrev given : Given
given = give 0 early (give 1 late (λ a. []))

answered-Reach : Reach answered given
unfolding push_stream handle_stream
answered-Reach =
    handled first early (omega arith) refl
      (handled second late (omega arith) refl (arrived true (arrived true start)))

abbrev first_writer : Writer
first_writer = (record first { frames = early ∷ [] }, early)

-- The write of the first answer ends.
abbrev after_first : Connection
after_first = write_frame first_writer (record answered { writers = [] })

after_first-Reach : Reach after_first given
unfolding push_stream handle_stream
after_first-Reach = wrote {c = answered} {given = given} [] [] first_writer refl answered-Reach

sent : after_first.written ≡ (0, early) ∷ []
unfolding push_stream handle_stream write_frame
sent = refl

written-InOrder_example : InOrder after_first.written × (length after_first.writers ≤ 1)
written-InOrder_example = written-InOrder after_first-Reach

frames_of-given_example :
    ((later : List Frame) × (given 1 ≡ frames_of 1 after_first.written ++ later))
    × ((behind : List Stream) (s : Stream)
        → after_first.writing ≡ false
        → after_first.request_queue ≡ s ∷ behind
        → frames_of s.address after_first.written ≡ given s.address)
frames_of-given_example = frames_of-given 1 after_first-Reach
