-- ===== src/Server/Connection/Pending.antt =====
-- The frames of a stream on their way: written, held by a coroutine, or in the queue.
use thinger_http.Common.{
  ℕ, ◌+◌, ◌≡◌, refl, ap, sym, ◌∙◌, Bool, true, false, List, [], ◌∷◌, ◌++◌, ◌&&◌, ◌==◌, inl, inr,
  if◌then◌else◌, append-nil, append_assoc, Bool-cases, arith,
}
use thinger_http.Server.Connection.{
  Frame, Stream, Writer, Connection, add_frame, start_writer, process_output_queue, is_front,
  handle_stream, pop, end_frame, write_frame, close,
}
use thinger_http.Server.Connection.Flight.{Flight, Rising, IsSound}

-- The frames of a stream that were written, in order.
unfoldable pub frames_of : ℕ → List (ℕ × Frame) → List Frame
frames_of a [] = []
frames_of a ((b, f) ∷ w) = if b == a then frames_of a w ++ f ∷ [] else frames_of a w

-- Its frames that a coroutine holds, and those in its queue.
unfoldable pub flying : ℕ → List Writer → List Frame
flying a [] = []
flying a ((w, f) ∷ ws) = if w.address == a then f ∷ flying a ws else flying a ws

unfoldable pub waiting : ℕ → List Stream → List Frame
waiting a [] = []
waiting a (s ∷ q) = if s.address == a then s.frames else waiting a q

unfoldable pub is_queued : ℕ → List Stream → Bool
is_queued a [] = false
is_queued a (s ∷ q) = if s.address == a then true else is_queued a q

abbrev pub pending : ℕ → Connection → List Frame
pending a c = flying a c.writers ++ waiting a c.request_queue

pending-start_writer :
    (a : ℕ) (q : List Stream) (c : Connection)
    → c.writers ≡ []
    → c.request_queue ≡ q
    → (pending a (start_writer q c) ≡ pending a c)
      × (is_queued a (start_writer q c).request_queue ≡ is_queued a c.request_queue)
unfolding start_writer flying waiting is_queued
pending-start_writer a [] c e k = (refl, refl)
pending-start_writer a (s ∷ q) c e k = ground arith

Flight-idle : (ws : List Writer) (q : List Stream) → Flight false ws q → ws ≡ []
Flight-idle [] q h = refl
Flight-idle (w ∷ ws) q h = absurd h

add_frame-waiting :
    (a b : ℕ) (f : Frame) (q : List Stream) (lo hi : ℕ)
    → Rising lo hi q
    → (waiting a (add_frame b f q)
        ≡ (if b == a && is_queued a q then waiting a q ++ f ∷ [] else waiting a q))
      × (is_queued a (add_frame b f q) ≡ is_queued a q)
unfolding add_frame waiting is_queued
add_frame-waiting a b f [] lo hi h = ground arith
add_frame-waiting a b f (s ∷ q) lo hi (le, e, h) =
    ground (arith, add_frame-waiting a b f q (s.address + 1) hi h)

pending-process_output_queue :
    (a : ℕ) (c : Connection)
    → (c.writing ≡ false → c.writers ≡ [])
    → (pending a (process_output_queue c) ≡ pending a c)
      × (is_queued a (process_output_queue c).request_queue ≡ is_queued a c.request_queue)
unfolding process_output_queue
pending-process_output_queue a c h = elim (Bool-cases c.writing) [
  | inl e ↦ rw e (refl, refl)
  | inr e ↦ simp e (pending-start_writer a c.request_queue c (h e) refl)
]

pending-add_frame :
    (a b : ℕ) (f : Frame) (c : Connection) (lo hi : ℕ)
    → Rising lo hi c.request_queue
    → pending a (record c { request_queue = add_frame b f c.request_queue })
      ≡ (if b == a && is_queued a c.request_queue then pending a c ++ f ∷ [] else pending a c)
pending-add_frame a b f c lo hi h =
    let (e, _) = add_frame-waiting a b f c.request_queue lo hi h in
    elim (Bool-cases (b == a && is_queued a c.request_queue)) [
      | inl k ↦ ap (λ t. flying a c.writers ++ t) e ∙ rw (k, append_assoc) refl
      | inr k ↦ ap (λ t. flying a c.writers ++ t) e ∙ rw k refl
    ]

Flight-idle_if :
    (writing : Bool) (ws : List Writer) (q : List Stream)
    → Flight writing ws q
    → writing ≡ false
    → ws ≡ []
Flight-idle_if false ws q h e = Flight-idle ws q h
Flight-idle_if true ws q h e = cc

pub pending-handle_stream :
    (a : ℕ) (s : Stream) (f : Frame) (c : Connection)
    → IsSound c
    → (pending a (handle_stream s f c) ≡ (
        if s.address == a && is_queued a c.request_queue
        then pending a c ++ f ∷ []
        else pending a c))
      × (is_queued a (handle_stream s f c).request_queue ≡ is_queued a c.request_queue)
unfolding handle_stream
pending-handle_stream a s f c h =
    let q = add_frame s.address f c.request_queue in
    let added = record c { request_queue = q } in
    let e = pending-add_frame a s.address f c 0 c.streams h.rising in
    let (_, k) = add_frame-waiting a s.address f c.request_queue 0 c.streams h.rising in
    let (e', k') =
      pending-process_output_queue a added
        (Flight-idle_if c.writing c.writers c.request_queue h.flight) in
    elim (Bool-cases (is_front s.id q)) [ inl d ↦ rw d (e' ∙ e, k' ∙ k) | inr d ↦ rw d (e, k) ]

waiting_absent : (a : ℕ) (q : List Stream) → is_queued a q ≡ false → waiting a q ≡ []
unfolding waiting is_queued
waiting_absent a [] h = refl
waiting_absent a (s ∷ q) h = ground (arith, waiting_absent a q)

-- A stream that is popped takes its frames along.
waiting-pop :
    (a : ℕ) (s : Stream) (q : List Stream)
    → is_queued s.address q ≡ false
    → (waiting a (s ∷ q) ≡ waiting a q ++ (if s.address == a then s.frames else []))
      × (is_queued a q ≡ true
          → (is_queued a (s ∷ q) ≡ true) × ((if s.address == a then s.frames else []) ≡ []))
unfolding waiting is_queued
waiting-pop a s q h = elim (Bool-cases (s.address == a)) [
  | inl e ↦
      let k : s.address ≡ a = ground arith in
      rw e (
        ap (λ t. t ++ s.frames) (sym (waiting_absent a q (rw (← k) h))),
        λ queued. cc (ap (λ n. is_queued n q) k),
      )
  | inr e ↦ rw e (sym (append-nil (waiting a q)), λ queued. (queued, refl))
]

-- What is left pending behind a writer, and what goes with its stream.
abbrev Remains : ℕ → List Stream → Connection → Type 0
Remains a q d =
    (lost : List Frame) × (waiting a q ≡ pending a d ++ lost)
    × (is_queued a d.request_queue ≡ true → (is_queued a q ≡ true) × (lost ≡ []))

Remains-process_output_queue :
    (a : ℕ) (q : List Stream) (d : Connection)
    → d.writers ≡ []
    → Remains a q d
    → Remains a q (process_output_queue d)
Remains-process_output_queue a q d e (lost, p, k) =
    let (p', k') = pending-process_output_queue a d (λ _. e) in
    (lost, p ∙ ap (λ t. t ++ lost) (sym p'), λ queued. k (sym k' ∙ queued))

pub pending_quiet :
    (a : ℕ) (d : Connection) (q : List Stream)
    → d.writers ≡ []
    → d.request_queue ≡ q
    → pending a d ≡ waiting a q
unfolding flying
pending_quiet a d q e k =
    ap (λ ws. flying a ws ++ waiting a d.request_queue) e ∙ ap (λ r. waiting a r) k

Remains-all :
    (a : ℕ) (q : List Stream) (d : Connection)
    → d.writers ≡ []
    → d.request_queue ≡ q
    → Remains a q d
Remains-all a q d e k = (
  [],
  sym (append-nil (pending a d) ∙ pending_quiet a d q e k),
  λ queued. (ap (λ r. is_queued a r) (sym k) ∙ queued, refl),
)

Remains-pop :
    (a : ℕ) (s : Stream) (q : List Stream) (d : Connection)
    → d.writers ≡ []
    → d.request_queue ≡ q
    → is_queued s.address q ≡ false
    → Remains a (s ∷ q) d
Remains-pop a s q d e k n =
    let (p, r) = waiting-pop a s q n in
    (
      (if s.address == a then s.frames else []),
      p ∙ ap (λ t. t ++ (if s.address == a then s.frames else [])) (sym (pending_quiet a d q e k)),
      λ queued. r (ap (λ t. is_queued a t) (sym k) ∙ queued),
    )

end_frame-Remains :
    (a : ℕ) (c : Connection) (w : Stream) (f : Frame) (front : Stream) (behind : List Stream)
    → c.writers ≡ []
    → c.request_queue ≡ front ∷ behind
    → is_queued front.address behind ≡ false
    → ((end_frame (w, f) c).writers ≡ []) × Remains a (front ∷ behind) (end_frame (w, f) c)
unfolding end_frame close
end_frame-Remains a c w f front behind e q n = elim (Bool-cases f.end_stream) [
  | inr k ↦ simp k (e, Remains-all a (front ∷ behind) c e q)
  | inl k ↦ elim (Bool-cases w.keep_alive) [
    | inr l ↦
        simp (k, l)
          (
            e,
            Remains-all a (front ∷ behind)
                (record c { completed = w.address ∷ c.completed; running = false }) e q,
          )
    | inl l ↦
        simp (k, l)
          (
            e,
            Remains-pop a front behind
                (record c {
                  completed = w.address ∷ c.completed;
                  request_queue = pop c.request_queue;
                })
                e (ap pop q) n,
          )
  ]
]

pub write_frame-Remains :
    (a : ℕ) (c : Connection) (w : Stream) (f : Frame) (front : Stream) (behind : List Stream)
    → c.writers ≡ []
    → c.request_queue ≡ front ∷ behind
    → is_queued front.address behind ≡ false
    → Remains a (front ∷ behind) (write_frame (w, f) c)
unfolding write_frame
write_frame-Remains a c w f front behind e q n =
    let logged = record c { written = (w.address, f) ∷ c.written } in
    let (k, r) = end_frame-Remains a logged w f front behind e q n in
    Remains-process_output_queue a (front ∷ behind)
      (record (end_frame (w, f) logged) { writing = false }) k r
