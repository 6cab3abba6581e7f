-- ===== src/Server/Connection/Flight.antt =====
-- At most one coroutine writes at a time, for the stream at the front of the queue, and while none
-- does, the stream at the front has no frame to send.
use thinger_http.Common.{
  ℕ, ◌+◌, ◌≤◌, ◌≡◌, refl, Bool, true, false, List, [], ◌∷◌, ◌++◌, ◌==◌, inl, inr, Bool-cases, arith,
}
use thinger_http.Server.Connection.{
  Frame, Stream, Writer, Connection, stream_id, add_frame, start_writer, process_output_queue,
  is_front, handle_stream, pop, end_frame, write_frame,
}

abbrev pub Flight : Bool → List Writer → List Stream → Type 0
Flight false [] [] = Unit
Flight false [] (s ∷ q) = s.frames ≡ []
Flight true ((w, f) ∷ []) (s ∷ q) = (w.address ≡ s.address) × (w.keep_alive ≡ s.keep_alive)
Flight _ _ _ = ⊥

-- The addresses of the queue rise from `lo` on, below `hi`, and give the ids.
abbrev pub Rising : ℕ → ℕ → List Stream → Type 0
Rising lo hi [] = lo ≤ hi
Rising lo hi (s ∷ q) = (lo ≤ s.address) × (s.id ≡ stream_id s.address) × Rising (s.address + 1) hi q

pub record IsSound (c : Connection) : Type 0 where
  pub flight : Flight c.writing c.writers c.request_queue
  pub rising : Rising 0 c.streams c.request_queue

pub Rising-append :
    (lo hi : ℕ) (q : List Stream) (keep : Bool)
    → Rising lo hi q
    → Rising lo
        (hi + 1)
        (q ++ (record { address = hi; id = stream_id hi; keep_alive = keep; frames = [] } ∷ []))
Rising-append lo hi [] keep h = (h, refl, omega arith)
Rising-append lo hi (s ∷ q) keep (le, e, h) = (le, e, Rising-append (s.address + 1) hi q keep h)

Rising-add_frame :
    (lo hi a : ℕ) (f : Frame) (q : List Stream) → Rising lo hi q → Rising lo hi (add_frame a f q)
unfolding add_frame
Rising-add_frame lo hi a f [] h = h
Rising-add_frame lo hi a f (s ∷ q) (le, e, h) =
    ground (arith, Rising-add_frame (s.address + 1) hi a f q h)

pub Rising-weaken : (lo mid hi : ℕ) (q : List Stream) → lo ≤ mid → Rising mid hi q → Rising lo hi q
Rising-weaken lo mid hi [] le h = omega arith
Rising-weaken lo mid hi (s ∷ q) le h = (omega arith, h.1, h.2)

pub Flight-append :
    (writing : Bool) (ws : List Writer) (q : List Stream) (s : Stream)
    → s.frames ≡ []
    → Flight writing ws q
    → Flight writing ws (q ++ s ∷ [])
Flight-append false [] [] s e h = e
Flight-append false [] (t ∷ q) s e h = h
Flight-append true ((w, f) ∷ []) (t ∷ q) s e h = h
Flight-append true ((w, f) ∷ []) [] s e h = absurd h
Flight-append true [] q s e h = absurd h
Flight-append true (w ∷ v ∷ ws) q s e h = absurd h
Flight-append false (w ∷ ws) q s e h = absurd h

-- A connection with these fields.
abbrev pub with_fields : Bool → List Writer → List Stream → Connection → Connection
with_fields writing ws q c = record c { writing = writing; writers = ws; request_queue = q }

abbrev pub IsFlying : Connection → Type 0
IsFlying c = Flight c.writing c.writers c.request_queue

start_writer-IsFlying :
    (q : List Stream) (c : Connection) → IsFlying (start_writer q (with_fields false [] q c))
unfolding start_writer
start_writer-IsFlying [] c = tt
start_writer-IsFlying (s ∷ q) c = start s.frames refl
  where
    start :
        (fs : List Frame)
        → s.frames ≡ fs
        → IsFlying (elim fs [
          | [] ↦ with_fields false [] (s ∷ q) c
          | f ∷ fs ↦ record (with_fields false [] (s ∷ q) c) {
            request_queue = record s { frames = fs } ∷ q;
            writing = true;
            writers = (s, f) ∷ [];
          }
        ])
    start [] e = e
    start (f ∷ fs) e = (refl, refl)

-- A writer starts, or the queue stands as it was; only a frame of the first stream goes.
start_writer-Rising :
    (lo hi : ℕ) (q : List Stream) (c : Connection)
    → Rising lo hi q
    → Rising lo hi c.request_queue
    → Rising lo hi (start_writer q c).request_queue
unfolding start_writer
start_writer-Rising lo hi [] c h k = k
start_writer-Rising lo hi (s ∷ q) c h k = ground arith

process_output_queue-Rising :
    (lo hi : ℕ) (c : Connection)
    → Rising lo hi c.request_queue
    → Rising lo hi (process_output_queue c).request_queue
unfolding process_output_queue
process_output_queue-Rising lo hi c h =
    ground (arith, start_writer-Rising lo hi c.request_queue c h h)

pub handle_stream-IsFlying :
    (writing : Bool) (ws : List Writer) (q : List Stream) (lo hi : ℕ) (s : Stream) (f : Frame)
    (c : Connection)
    → s.id ≡ stream_id s.address
    → Flight writing ws q
    → Rising lo hi q
    → IsFlying (handle_stream s f (with_fields writing ws q c))
unfolding handle_stream
handle_stream-IsFlying false [] [] lo hi s f c e h r = tt
handle_stream-IsFlying false [] (t ∷ q) lo hi s f c e h (le, k, r) =
    elim (Bool-cases (t.address == s.address)) [
      | inl d ↦ rw d (
          ground (
            arith,
            start_writer-IsFlying
                (record t { frames = t.frames ++ f ∷ [] } ∷ add_frame s.address f q) c,
          ))
      | inr d ↦ rw d (ground (arith, start_writer-IsFlying (t ∷ add_frame s.address f q) c))
    ]
handle_stream-IsFlying true ((w, g) ∷ []) (t ∷ q) lo hi s f c e h r = ground arith
handle_stream-IsFlying true ((w, g) ∷ []) [] lo hi s f c e h r = absurd h
handle_stream-IsFlying true [] q lo hi s f c e h r = absurd h
handle_stream-IsFlying true (w ∷ v ∷ ws) q lo hi s f c e h r = absurd h
handle_stream-IsFlying false (w ∷ ws) q lo hi s f c e h r = absurd h

pub write_frame-IsFlying :
    (w : Stream) (f : Frame) (q : List Stream) (c : Connection)
    → IsFlying (write_frame (w, f) (with_fields true [] q c))
unfolding write_frame
write_frame-IsFlying w f q c = ground (
  arith,
  start_writer-IsFlying q (record c { written = (w.address, f) ∷ c.written }),
  start_writer-IsFlying q (record c {
    written = (w.address, f) ∷ c.written;
    completed = w.address ∷ c.completed;
    running = false;
  }),
  start_writer-IsFlying (pop q)
      (record c { written = (w.address, f) ∷ c.written; completed = w.address ∷ c.completed }),
)

pub handle_stream-Rising :
    (lo hi : ℕ) (s : Stream) (f : Frame) (c : Connection)
    → Rising lo hi c.request_queue
    → Rising lo hi (handle_stream s f c).request_queue
unfolding handle_stream
handle_stream-Rising lo hi s f c h =
    let added = record c { request_queue = add_frame s.address f c.request_queue } in
    let k = Rising-add_frame lo hi s.address f c.request_queue h in
    elim (Bool-cases (is_front s.id added.request_queue)) [
      | inl e ↦ rw e (process_output_queue-Rising lo hi added k)
      | inr e ↦ rw e k
    ]

pop-Rising : (lo hi : ℕ) (q : List Stream) → Rising lo hi q → Rising lo hi (pop q)
pop-Rising lo hi [] h = h
pop-Rising lo hi (s ∷ q) (le, e, h) = Rising-weaken lo (s.address + 1) hi q (omega arith) h

pub write_frame-Rising :
    (lo hi : ℕ) (w : Stream) (f : Frame) (c : Connection)
    → Rising lo hi c.request_queue
    → Rising lo hi (write_frame (w, f) c).request_queue
unfolding write_frame
write_frame-Rising lo hi w f c h =
    let ended = end_frame (w, f) (record c { written = (w.address, f) ∷ c.written }) in
    process_output_queue-Rising lo hi (record ended { writing = false })
      (unfold end_frame in ground (arith, pop-Rising lo hi c.request_queue h))
