-- ===== src/Server/Connection/Order.antt =====
-- Responses leave in the order of their requests.
use mathlib.Core.Path.{subst}
use thinger_http.Common.{
  ℕ, ◌+◌, ◌<◌, ◌≤◌, ◌≡◌, refl, ap, sym, ◌∙◌, Bool, true, false, List, [], ◌∷◌, ◌++◌, ◌⊎◌,
  if◌then◌else◌, length, arith,
}
use thinger_http.Server.Connection.{
  Frame, Stream, Writer, Connection, new_stream, push_stream, add_frame, start_writer,
  handle_stream, pop, end_frame, write_frame, close,
}
use thinger_http.Server.Connection.Events.{Given, Reach, start, arrived, handled, wrote, closed}
use thinger_http.Server.Connection.Flight.{Flight, Rising, IsSound}
use thinger_http.Server.Connection.Sound.{
  IsLone, Reach-IsSound, Reach-IsLone, handle_stream_streams, write_frame_streams,
}

-- `f` of stream `a` may be followed by a frame of stream `b`.
abbrev pub Precedes : ℕ → Frame → ℕ → Type 0
Precedes a f b = (a ≡ b) ⊎ ((a < b) × (f.end_stream ≡ true))

-- What was written, the latest first: the streams follow one another, each after the end of the last.
abbrev pub InOrder : List (ℕ × Frame) → Type 0
InOrder [] = Unit
InOrder ((b, g) ∷ []) = Unit
InOrder ((b, g) ∷ (a, f) ∷ w) = Precedes a f b × InOrder ((a, f) ∷ w)

-- The address of the stream at the front, or of the next one to come.
abbrev front : List Stream → ℕ → ℕ
front [] next = next
front (s ∷ q) next = s.address

abbrev Last : List (ℕ × Frame) → ℕ → Type 0
Last [] b = Unit
Last ((a, f) ∷ w) b = Precedes a f b

record IsOrdered (c : Connection) : Type 0 where
  ordered : InOrder c.written
  last : Last c.written (front c.request_queue c.streams)

front-append :
    (q : List Stream) (s : Stream) (n m : ℕ) → s.address ≡ n → front (q ++ s ∷ []) m ≡ front q n
front-append [] s n m e = e
front-append (t ∷ q) s n m e = refl

front-add_frame :
    (a : ℕ) (f : Frame) (q : List Stream) (n : ℕ) → front (add_frame a f q) n ≡ front q n
unfolding add_frame
front-add_frame a f [] n = refl
front-add_frame a f (s ∷ q) n = ground arith

front-start_writer :
    (q : List Stream) (c : Connection) (n : ℕ)
    → front q n ≡ front c.request_queue n
    → front (start_writer q c).request_queue n ≡ front c.request_queue n
unfolding start_writer
front-start_writer [] c n e = refl
front-start_writer (s ∷ q) c n e = ground arith

written-start_writer : (q : List Stream) (c : Connection) → (start_writer q c).written ≡ c.written
unfolding start_writer
written-start_writer [] c = refl
written-start_writer (s ∷ q) c = ground arith

front-handle_stream :
    (s : Stream) (f : Frame) (c : Connection) (n : ℕ)
    → front (handle_stream s f c).request_queue n ≡ front c.request_queue n
unfolding handle_stream
front-handle_stream s f c n =
    let q = add_frame s.address f c.request_queue in
    ground (
      arith,
      front-start_writer q (record c { request_queue = q }) n refl,
      front-add_frame s.address f c.request_queue n,
    )

pub written-handle_stream :
    (s : Stream) (f : Frame) (c : Connection) → (handle_stream s f c).written ≡ c.written
unfolding handle_stream
written-handle_stream s f c =
    let q = add_frame s.address f c.request_queue in
    ground (arith, written-start_writer q (record c { request_queue = q }))

-- The front behind a writer: the next stream, if the last frame of this one was written.
front-write_frame :
    (w : Stream) (f : Frame) (c : Connection) (n : ℕ)
    → front (write_frame (w, f) c).request_queue n ≡ (
        if f.end_stream
        then (if w.keep_alive then front (pop c.request_queue) n else front c.request_queue n)
        else front c.request_queue n)
unfolding write_frame
front-write_frame w f c n =
    let ended = end_frame (w, f) (record c { written = (w.address, f) ∷ c.written }) in
    front-start_writer ended.request_queue (record ended { writing = false }) n refl
    ∙ unfold end_frame in ground arith

pub written-write_frame :
    (w : Stream) (f : Frame) (c : Connection)
    → (write_frame (w, f) c).written ≡ (w.address, f) ∷ c.written
unfolding write_frame
written-write_frame w f c =
    let ended = end_frame (w, f) (record c { written = (w.address, f) ∷ c.written }) in
    written-start_writer ended.request_queue (record ended { writing = false })
    ∙ unfold end_frame in ground arith

Rising-le-front : (lo hi : ℕ) (q : List Stream) → Rising lo hi q → lo ≤ front q hi
Rising-le-front lo hi [] h = h
Rising-le-front lo hi (s ∷ q) (le, e, h) = le

pop-Precedes :
    (q : List Stream) (s : Stream) (w : Stream) (f : Frame) (behind : List Stream) (n : ℕ)
    → q ≡ s ∷ behind
    → w.address ≡ s.address
    → Rising 0 n q
    → Precedes w.address f
        (if f.end_stream then (if w.keep_alive then front (pop q) n else front q n) else front q n)
pop-Precedes q s w f behind n e a h =
    rw e (ground (arith, Rising-le-front (s.address + 1) n behind (subst (Rising 0 n) e h).2))

InOrder-written :
    (w : List (ℕ × Frame)) (a b : ℕ) (f : Frame)
    → InOrder w
    → Last w b
    → a ≡ b
    → InOrder ((a, f) ∷ w)
InOrder-written [] a b f h k e = tt
InOrder-written ((c, g) ∷ w) a b f h k e = (subst (λ n. Precedes c g n) (sym e) k, h)

wrote-IsOrdered :
    (c : Connection) (before after : List Writer) (w : Stream) (f : Frame)
    → IsSound c
    → IsLone c.writing before after w c.request_queue
    → IsOrdered c
    → IsOrdered (write_frame (w, f) (record c { writers = before ++ after }))
wrote-IsOrdered c before after w f sound l h =
    let d = record c { writers = before ++ after } in
    let at_front : w.address ≡ front c.request_queue c.streams =
      l.address_eq ∙ sym (ap (λ q. front q c.streams) l.queue_eq) in
    record {
      ordered = rw (written-write_frame w f d) (
          InOrder-written c.written w.address (front c.request_queue c.streams) f h.ordered h.last
            at_front);
      last =
          rw
            (
              written-write_frame w f d,
              write_frame_streams (w, f) d,
              front-write_frame w f d c.streams,
            )
            (pop-Precedes c.request_queue l.front w f l.behind c.streams l.queue_eq l.address_eq
              sound.rising);
    }

Reach-IsOrdered : {c : Connection} {given : Given} → Reach c given → IsOrdered c
unfolding push_stream close
Reach-IsOrdered start = record { ordered = tt; last = tt }
Reach-IsOrdered (arrived {c} keep r) =
    let h = Reach-IsOrdered r in
    record {
      ordered = h.ordered;
      last =
          rw (front-append c.request_queue (new_stream keep c) c.streams (c.streams + 1) refl)
            h.last;
    }
Reach-IsOrdered (handled {c} s f lt e r) =
    let h = Reach-IsOrdered r in
    record {
      ordered = rw (written-handle_stream s f c) h.ordered;
      last =
          rw
            (
              written-handle_stream s f c,
              handle_stream_streams s f c,
              front-handle_stream s f c c.streams,
            )
            h.last;
    }
Reach-IsOrdered (wrote {c} before after (w, f) e r) =
    let sound = Reach-IsSound r in
    wrote-IsOrdered c before after w f sound (Reach-IsLone before after w f e sound)
      (Reach-IsOrdered r)
Reach-IsOrdered (closed r) =
    let h = Reach-IsOrdered r in record { ordered = h.ordered; last = h.last }

-- Whatever the order in which requests arrive, handlers give frames and writes end: the frames are
-- given to the socket in the order of their requests, and the first frame of a request comes only
-- after the last frame of the one that was answered before it; at most one write is under way.
pub written-InOrder :
    {c : Connection} {given : Given} → Reach c given → InOrder c.written × (length c.writers ≤ 1)
written-InOrder {c} r = (
  (Reach-IsOrdered r).ordered,
  length-Flight c.writing c.writers c.request_queue (Reach-IsSound r).flight,
)
  where
    length-Flight :
        (writing : Bool) (ws : List Writer) (q : List Stream) → Flight writing ws q → length ws ≤ 1
    length-Flight false [] q h = omega arith
    length-Flight true (w ∷ []) q h = omega arith
    length-Flight true [] q h = absurd h
    length-Flight true (w ∷ v ∷ ws) q h = absurd h
    length-Flight false (w ∷ ws) q h = absurd h
