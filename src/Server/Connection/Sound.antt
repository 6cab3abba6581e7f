-- ===== src/Server/Connection/Sound.antt =====
-- Every event keeps the queue and the writer in step.
use mathlib.Core.Path.{subst}
use thinger_http.Common.{◌≡◌, refl, sym, ◌∙◌, Bool, true, false, List, [], ◌∷◌, ◌++◌, arith}
use thinger_http.Server.Connection.{
  Frame, Stream, Writer, Connection, new_stream, push_stream, add_frame, start_writer,
  handle_stream, end_frame, write_frame, close,
}
use thinger_http.Server.Connection.Events.{Given, Reach, start, arrived, handled, wrote, closed}
use thinger_http.Server.Connection.Flight.{
  Flight, Rising, IsSound, Rising-append, Flight-append, IsFlying, handle_stream-IsFlying,
  write_frame-IsFlying, handle_stream-Rising, write_frame-Rising,
}

pub start_writer_streams :
    (q : List Stream) (c : Connection) → (start_writer q c).streams ≡ c.streams
unfolding start_writer
start_writer_streams [] c = refl
start_writer_streams (s ∷ q) c = ground arith

pub handle_stream_streams :
    (s : Stream) (f : Frame) (c : Connection) → (handle_stream s f c).streams ≡ c.streams
unfolding handle_stream
handle_stream_streams s f c =
    let q = add_frame s.address f c.request_queue in
    ground (arith, start_writer_streams q (record c { request_queue = q }))

pub write_frame_streams : (w : Writer) (c : Connection) → (write_frame w c).streams ≡ c.streams
unfolding write_frame
write_frame_streams (w, f) c =
    let ended = end_frame (w, f) (record c { written = (w.address, f) ∷ c.written }) in
    let e : ended.streams ≡ c.streams = unfold end_frame in ground arith in
    start_writer_streams ended.request_queue (record ended { writing = false }) ∙ e

-- A writer that runs is the only one, and the front of the queue is its stream.
pub record IsLone (writing : Bool) (before after : List Writer) (w : Stream) (q : List Stream)
    : Type 0 where
  pub busy : writing ≡ true
  pub first : before ≡ []
  pub last : after ≡ []
  pub front : Stream
  pub behind : List Stream
  pub queue_eq : q ≡ front ∷ behind
  pub address_eq : w.address ≡ front.address
  pub keep_eq : w.keep_alive ≡ front.keep_alive

pub Flight-IsLone :
    (writing : Bool) (before after : List Writer) (w : Stream) (f : Frame) (q : List Stream)
    → Flight writing (before ++ (w, f) ∷ after) q
    → IsLone writing before after w q
Flight-IsLone false [] after w f q h = absurd h
Flight-IsLone false (v ∷ before) after w f q h = absurd h
Flight-IsLone true [] [] w f [] h = absurd h
Flight-IsLone true [] (v ∷ after) w f q h = absurd h
Flight-IsLone true (v ∷ []) after w f q h = absurd h
Flight-IsLone true (v ∷ u ∷ before) after w f q h = absurd h
Flight-IsLone true [] [] w f (s ∷ q) (a, k) = record {
  busy = refl;
  first = refl;
  last = refl;
  front = s;
  behind = q;
  queue_eq = refl;
  address_eq = a;
  keep_eq = k;
}

-- What `Reach-IsSound` needs of a writer, with its neighbours.
pub Reach-IsLone :
    {c : Connection} (before after : List Writer) (w : Stream) (f : Frame)
    → c.writers ≡ before ++ (w, f) ∷ after
    → IsSound c
    → IsLone c.writing before after w c.request_queue
Reach-IsLone {c} before after w f e h =
    Flight-IsLone c.writing before after w f c.request_queue
      (subst (λ ws. Flight c.writing ws c.request_queue) e h.flight)

wrote-IsFlying :
    (c : Connection) (before after : List Writer) (w : Stream) (f : Frame)
    → IsLone c.writing before after w c.request_queue
    → IsFlying (write_frame (w, f) (record c { writers = before ++ after }))
wrote-IsFlying c before after w f l =
    subst (λ b. IsFlying (write_frame (w, f) (record c { writing = b; writers = before ++ after })))
      (sym l.busy)
      (subst (λ ws. IsFlying (write_frame (w, f) (record c { writing = true; writers = ws })))
        (sym (rw (l.first, l.last) refl)) (write_frame-IsFlying w f c.request_queue c))

-- The events of `Reach` keep all this.
pub Reach-IsSound : {c : Connection} {given : Given} → Reach c given → IsSound c
unfolding push_stream close
Reach-IsSound start = record { flight = tt; rising = omega arith }
Reach-IsSound (arrived {c} keep r) =
    let h = Reach-IsSound r in
    record {
      flight = Flight-append c.writing c.writers c.request_queue (new_stream keep c) refl h.flight;
      rising = Rising-append 0 c.streams c.request_queue keep h.rising;
    }
Reach-IsSound (handled {c} s f lt e r) =
    let h = Reach-IsSound r in
    record {
      flight =
          handle_stream-IsFlying c.writing c.writers c.request_queue 0 c.streams s f c e h.flight
            h.rising;
      rising =
          subst (λ n. Rising 0 n (handle_stream s f c).request_queue)
            (sym (handle_stream_streams s f c)) (handle_stream-Rising 0 c.streams s f c h.rising);
    }
Reach-IsSound (wrote {c} before after (w, f) e r) =
    let h = Reach-IsSound r in
    record {
      flight = wrote-IsFlying c before after w f (Reach-IsLone before after w f e h);
      rising =
          let d = record c { writers = before ++ after } in
          subst (λ n. Rising 0 n (write_frame (w, f) d).request_queue)
            (sym (write_frame_streams (w, f) d)) (write_frame-Rising 0 c.streams w f d h.rising);
    }
Reach-IsSound (closed r) =
    let h = Reach-IsSound r in record { flight = h.flight; rising = h.rising }
