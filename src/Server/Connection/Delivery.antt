-- ===== src/Server/Connection/Delivery.antt =====
-- What was written for a request is the beginning of what its handler gave.
use mathlib.Core.Path.{subst}
use thinger_http.Common.{
  ℕ, ◌+◌, ◌<◌, ◌≤◌, ◌≡◌, refl, ap, sym, ◌∙◌, Bool, true, false, List, [], ◌∷◌, ◌++◌, ◌&&◌, ◌==◌,
  ◌⊎◌, inl, inr, if◌then◌else◌, append-nil, append_assoc, arith,
}
use thinger_http.Server.Connection.{
  Frame, Stream, Writer, Connection, new_stream, push_stream, handle_stream, write_frame, close,
}
use thinger_http.Server.Connection.Events.{
  Given, give, Reach, start, arrived, handled, wrote, closed,
}
use thinger_http.Server.Connection.Flight.{Flight, Rising, IsSound}
use thinger_http.Server.Connection.Sound.{
  IsLone, Reach-IsSound, Reach-IsLone, handle_stream_streams, write_frame_streams,
}
use thinger_http.Server.Connection.Order.{written-handle_stream, written-write_frame}
use thinger_http.Server.Connection.Pending.{
  frames_of, flying, waiting, is_queued, pending, pending-handle_stream, pending_quiet,
  write_frame-Remains,
}

-- The frames given for a stream are those that were written, those that are to be, and those that
-- will not be since the stream has left the queue.
abbrev Kept : ℕ → Connection → Given → Type 0
Kept a c given =
    (lost : List Frame) × (given a ≡ frames_of a c.written ++ (pending a c ++ lost))
    × (is_queued a c.request_queue ≡ true → lost ≡ [])
    × (c.streams ≤ a → given a ≡ [])

append_nil_right : (xs ys : List Frame) → xs ++ ys ≡ [] → ys ≡ []
append_nil_right [] ys h = h
append_nil_right (x ∷ xs) ys h = cc

queue_append :
    (a : ℕ) (q : List Stream) (s : Stream)
    → s.frames ≡ []
    → (waiting a (q ++ s ∷ []) ≡ waiting a q)
      × (is_queued a (q ++ s ∷ []) ≡ true → (is_queued a q ≡ true) ⊎ (s.address ≡ a))
unfolding waiting is_queued
queue_append a [] s e = ground arith
queue_append a (t ∷ q) s e = ground (arith, queue_append a q s e)

arrived-Kept :
    (a : ℕ) (keep : Bool) (c : Connection) (given : Given)
    → Kept a c given
    → Kept a (push_stream keep c) given
unfolding push_stream
arrived-Kept a keep c given (lost, e, k, n) =
    let (w, q) = queue_append a c.request_queue (new_stream keep c) refl in
    (
      lost,
      rw w e,
      λ queued. elim (q queued) [
        | inl old ↦ k old
        | inr new ↦ append_nil_right (pending a c) lost (
            append_nil_right (frames_of a c.written) (pending a c ++ lost)
              (sym e ∙ n (omega arith)))
      ],
      λ le. n (omega arith),
    )

handled_lists :
    (hit queued : Bool) (f : Frame) (all before now later lost : List Frame)
    → all ≡ before ++ (now ++ lost)
    → later ≡ (if hit && queued then now ++ f ∷ [] else now)
    → (queued ≡ true → lost ≡ [])
    → (gone : List Frame) × ((if hit then all ++ f ∷ [] else all) ≡ before ++ (later ++ gone))
      × (queued ≡ true → gone ≡ [])
handled_lists false queued f all before now later lost e l k =
    (lost, e ∙ ap (λ t. before ++ (t ++ lost)) (sym l), k)
handled_lists true true f all before now later lost e l k =
    ([], rw (e, l, k refl) (simp (append_assoc, append-nil) refl), λ _. refl)
handled_lists true false f all before now later lost e l k =
    (lost ++ f ∷ [], rw (e, l) (simp append_assoc refl), λ h. cc)

wrote_lists :
    (hit : Bool) (f : Frame) (all before fly wait later lost gone : List Frame)
    → all ≡ before ++ ((fly ++ wait) ++ lost)
    → fly ≡ (if hit then f ∷ [] else [])
    → wait ≡ later ++ gone
    → all ≡ (if hit then before ++ f ∷ [] else before) ++ (later ++ (gone ++ lost))
wrote_lists false f all before fly wait later lost gone e l k =
    rw (e, l, k) (simp append_assoc refl)
wrote_lists true f all before fly wait later lost gone e l k = rw (e, l, k) (simp append_assoc refl)

handled-Kept :
    (a : ℕ) (s : Stream) (f : Frame) (c : Connection) (given : Given)
    → s.address < c.streams
    → IsSound c
    → Kept a c given
    → Kept a (handle_stream s f c) (give s.address f given)
handled-Kept a s f c given lt sound (lost, e, k, n) =
    let (p, q) = pending-handle_stream a s f c sound in
    let (gone, e', k') =
      handled_lists (s.address == a) (is_queued a c.request_queue) f (given a)
        (frames_of a c.written) (pending a c) (pending a (handle_stream s f c)) lost e p k in
    (
      gone,
      rw (written-handle_stream s f c) e',
      λ queued. k' (sym q ∙ queued),
      rw (handle_stream_streams s f c)
          (λ le. let far : (s.address == a) ≡ false = ground arith in rw far (n le)),
    )

flying_one :
    (a : ℕ) (w : Stream) (f : Frame)
    → flying a ((w, f) ∷ []) ≡ (if w.address == a then f ∷ [] else [])
unfolding flying
flying_one a w f = refl

not_queued_above : (a lo hi : ℕ) (q : List Stream) → a < lo → Rising lo hi q → is_queued a q ≡ false
unfolding is_queued
not_queued_above a lo hi [] lt h = refl
not_queued_above a lo hi (s ∷ q) lt (le, e, h) =
    ground (arith, not_queued_above a (s.address + 1) hi q (omega arith) h)

Rising-absent :
    (hi : ℕ) (s : Stream) (q : List Stream) → Rising 0 hi (s ∷ q) → is_queued s.address q ≡ false
Rising-absent hi s q (le, e, h) = not_queued_above s.address (s.address + 1) hi q (omega arith) h

wrote-Kept :
    (a : ℕ) (c : Connection) (before after : List Writer) (w : Stream) (f : Frame) (given : Given)
    → c.writers ≡ before ++ (w, f) ∷ after
    → IsSound c
    → IsLone c.writing before after w c.request_queue
    → Kept a c given
    → Kept a (write_frame (w, f) (record c { writers = before ++ after })) given
unfolding frames_of
wrote-Kept a c before after w f given e sound l (lost, p, k, n) =
    let c' = record c { writers = before ++ after } in
    let only : c.writers ≡ (w, f) ∷ [] = e ∙ rw (l.first, l.last) refl in
    let (gone, r, m) =
      write_frame-Remains a c' w f l.front l.behind (rw (l.first, l.last) refl) l.queue_eq (
        Rising-absent c.streams l.front l.behind
          (subst (Rising 0 c.streams) l.queue_eq sound.rising)) in
    (
      gone ++ lost,
      rw (written-write_frame w f c') (
          wrote_lists (w.address == a) f (given a) (frames_of a c.written) (flying a c.writers)
            (waiting a c.request_queue) (pending a (write_frame (w, f) c')) lost gone p
            (ap (flying a) only ∙ flying_one a w f) (ap (waiting a) l.queue_eq ∙ r)),
      λ queued.
          let (old, none_gone) = m queued in
          rw (none_gone, k (ap (is_queued a) l.queue_eq ∙ old)) refl,
      rw (write_frame_streams (w, f) c') n,
    )

Reach-Kept : {c : Connection} {given : Given} (a : ℕ) → Reach c given → Kept a c given
unfolding close
Reach-Kept a start = ([], unfold frames_of flying waiting in refl, λ q. refl, λ le. refl)
Reach-Kept a (arrived {c} {given} keep r) = arrived-Kept a keep c given (Reach-Kept a r)
Reach-Kept a (handled {c} {given} s f lt e r) =
    handled-Kept a s f c given lt (Reach-IsSound r) (Reach-Kept a r)
Reach-Kept a (wrote {c} {given} before after (w, f) e r) =
    let sound = Reach-IsSound r in
    wrote-Kept a c before after w f given e sound (Reach-IsLone before after w f e sound)
      (Reach-Kept a r)
Reach-Kept a (closed {c} {given} r) = Reach-Kept a r

Flight-empty :
    (writing : Bool) (ws : List Writer) (q behind : List Stream) (s : Stream)
    → Flight writing ws q
    → writing ≡ false
    → q ≡ s ∷ behind
    → (ws ≡ []) × (s.frames ≡ [])
Flight-empty false [] [] behind s h e k = cc
Flight-empty false [] (t ∷ q) behind s h e k = (refl, cc)
Flight-empty false (w ∷ ws) q behind s h e k = absurd h
Flight-empty true ws q behind s h e k = cc

front_is_queued :
    (s : Stream) (q : List Stream)
    → (waiting s.address (s ∷ q) ≡ s.frames) × (is_queued s.address (s ∷ q) ≡ true)
unfolding waiting is_queued
front_is_queued s q = ground arith

idle_front :
    (c : Connection) (given : Given) (behind : List Stream) (s : Stream)
    → c.writing ≡ false
    → c.request_queue ≡ s ∷ behind
    → IsSound c
    → Kept s.address c given
    → frames_of s.address c.written ≡ given s.address
idle_front c given behind s idle q sound (lost, e, k, _) =
    let (no_writer, no_frame) =
      Flight-empty c.writing c.writers c.request_queue behind s sound.flight idle q in
    let (w, queued) = front_is_queued s behind in
    let nothing : pending s.address c ≡ [] =
      pending_quiet s.address c (s ∷ behind) no_writer q ∙ w ∙ no_frame in
    sym (e ∙ rw (nothing, k (ap (is_queued s.address) q ∙ queued), append-nil) refl)

-- Whatever the order of the events, what was written for a request is the beginning of what its
-- handler gave, in order; and what is left while no write is under way is nothing for the request
-- at the front of the queue, so that no frame waits for an event that has come already.
pub frames_of-given :
    {c : Connection} {given : Given} (a : ℕ)
    → Reach c given
    → ((later : List Frame) × (given a ≡ frames_of a c.written ++ later))
      × ((behind : List Stream) (s : Stream)
          → c.writing ≡ false
          → c.request_queue ≡ s ∷ behind
          → frames_of s.address c.written ≡ given s.address)
frames_of-given {c} {given} a r =
    let (lost, e, _, _) = Reach-Kept a r in
    (
      (pending a c ++ lost, e),
      λ behind s idle q.
          idle_front c given behind s idle q (Reach-IsSound r) (Reach-Kept s.address r),
    )
