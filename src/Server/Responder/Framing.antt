-- ===== src/Server/Responder/Framing.antt =====
-- What the stream has been given through a `response`, and how each operation keeps its order.
use thinger_http.Common.{
  if_elim, ℕ, ◌≡◌, refl, ap, ◌∙◌, Bool, true, false, ◌&&◌, not, inl, inr, Option-cases, some, List,
  [], ◌∷◌, ◌++◌, if◌then◌else◌, length, Bytes, arith, Bool-cases, All,
}
use thinger_http.Boost.{Boost}
use thinger_http.Libraries.{Zlib}
use thinger_http.Message.Status.{Status}
use thinger_http.Message.Response.{Response}
use thinger_http.Server.Exchange.{request_of, Sent, head, chunk}
use thinger_http.Server.Responder.{
  Responder, set_typed, prepare_response, on_response, hand_over, chunked_head, add_chunk, adopt,
  send_prepared_response, compress_response, send, send_response, start_chunked, write_chunk,
  end_chunked,
}

abbrev pub IsChunk : Sent → Type 0
IsChunk s = (bytes : Bytes) × (last : Bool) × (s ≡ chunk bytes last)

-- One response, and chunks behind it.
pub record IsBegun (old sent : List Sent) : Type 0 where
  pub chunks : List Sent
  pub address : ℕ
  pub last : Bool
  pub order : sent ≡ chunks ++ head address last ∷ old
  pub are_chunks : All IsChunk chunks

-- Nothing yet, or an answer.
pub data IsFramed (old : List Sent) (t : Responder) : Type 0 where
  unanswered : t.responded ≡ false → t.exchange.sent ≡ old → IsFramed old t
  lost : t.responded ≡ true → t.exchange.connected ≡ false → t.exchange.sent ≡ old → IsFramed old t
  begun :
      t.responded ≡ true
      → t.exchange.connected ≡ true
      → IsBegun old t.exchange.sent
      → IsFramed old t

-- Two objects that have done the same so far.
pub record Same (t u : Responder) : Type 0 where
  pub sent : u.exchange.sent ≡ t.exchange.sent
  pub responded : u.responded ≡ t.responded
  pub connected : u.exchange.connected ≡ t.exchange.connected

pub Same-IsFramed : {old : List Sent} {t u : Responder} → Same t u → IsFramed old t → IsFramed old u
Same-IsFramed s (unanswered r e) = unanswered (s.responded ∙ r) (s.sent ∙ e)
Same-IsFramed s (lost r c e) = lost (s.responded ∙ r) (s.connected ∙ c) (s.sent ∙ e)
Same-IsFramed s (begun r c b) = begun (s.responded ∙ r) (s.connected ∙ c) (record {
  chunks = b.chunks;
  address = b.address;
  last = b.last;
  order = s.sent ∙ b.order;
  are_chunks = b.are_chunks;
})

pub Same-trans : {t u v : Responder} → Same t u → Same u v → Same t v
Same-trans p q = record {
  sent = q.sent ∙ p.sent;
  responded = q.responded ∙ p.responded;
  connected = q.connected ∙ p.connected;
}

pub Same-refl : {t : Responder} → Same t t
Same-refl = record { sent = refl; responded = refl; connected = refl }

pub on_response-Same : (f : Response → Response) (t : Responder) → Same t (on_response f t)
unfolding on_response
on_response-Same f t = elim (Option-cases t.response) [
  | inl e ↦ rw (e) Same-refl
  | inr (a, e) ↦ rw (e) (record { sent = refl; responded = refl; connected = refl })
]

-- An object with a response.
abbrev pub Prepared : Responder → Type 0
Prepared t = (a : ℕ) × (t.response ≡ some a)

pub on_response-Prepared :
    (f : Response → Response) (t : Responder) → Prepared t → Prepared (on_response f t)
unfolding on_response
on_response-Prepared f t (a, e) = rw (e) (a, refl)

module _ ⦃b : Boost⦄ ⦃z : Zlib⦄ where
  pub prepare_response-Same : (t : Responder) → Same t (prepare_response t)
  unfolding prepare_response
  prepare_response-Same t = elim (Option-cases t.response) [
    | inl e ↦ rw (e) (record { sent = refl; responded = refl; connected = refl })
    | inr (a, e) ↦ rw (e) Same-refl
  ]

  pub prepare_response-Prepared : (t : Responder) → Prepared (prepare_response t)
  unfolding prepare_response
  prepare_response-Prepared t = elim (Option-cases t.response) [
    | inl e ↦ rw (e) (length t.exchange.responses, refl)
    | inr (a, e) ↦ rw (e) (a, refl)
  ]

  -- The first answer, if the connection is still there.
  pub hand_over-IsFramed :
      (last : Bool) (t : Responder) {old : List Sent}
      → Prepared t
      → t.exchange.sent ≡ old
      → IsFramed old (hand_over last t)
  unfolding hand_over
  hand_over-IsFramed last t (a, e) same = elim (Bool-cases t.exchange.connected) [
    | inl c ↦
        rw (e, c)
          (begun refl refl (record {
            chunks = [];
            address = a;
            last = last;
            order = ap (λ l. head a last ∷ l) same;
            are_chunks = tt;
          }))
    | inr c ↦ rw (e, c) (lost refl refl same)
  ]

  pub unanswered_sent :
      {old : List Sent} (t : Responder)
      → t.responded ≡ false
      → IsFramed old t
      → t.exchange.sent ≡ old
  unanswered_sent t h (unanswered r e) = e
  unanswered_sent t h (lost r c e) = e
  unanswered_sent t h (begun r c b) = cc

  -- A response that is being written.
  unfoldable pub draft : (Response → Response) → Responder → Responder
  draft f t = on_response f (prepare_response t)

  pub draft-Same : (f : Response → Response) (t : Responder) → Same t (draft f t)
  unfolding draft
  draft-Same f t = Same-trans (prepare_response-Same t) (on_response-Same f (prepare_response t))

  pub draft-Prepared : (f : Response → Response) (t : Responder) → Prepared (draft f t)
  unfolding draft
  draft-Prepared f t = on_response-Prepared f (prepare_response t) (prepare_response-Prepared t)

  pub send_prepared_response-IsFramed :
      {old : List Sent} (t : Responder) → IsFramed old t → IsFramed old (send_prepared_response t)
  unfolding send_prepared_response draft
  send_prepared_response-IsFramed {old} t h =
      let f = compress_response (request_of (prepare_response t).exchange) in
      if_elim (IsFramed _) t.responded t (hand_over true (draft f t)) (λ r. h)
        (λ r.
          hand_over-IsFramed true (draft f t) (draft-Prepared f t)
            ((draft-Same f t).sent ∙ unanswered_sent t r h))

  pub draft_sent-IsFramed :
      {old : List Sent} (f : Response → Response) (t : Responder)
      → IsFramed old t
      → IsFramed old (send_prepared_response (draft f t))
  draft_sent-IsFramed f t h =
      send_prepared_response-IsFramed (draft f t) (Same-IsFramed (draft-Same f t) h)

  pub send-IsFramed :
      {old : List Sent} (text type : Bytes) (t : Responder)
      → IsFramed old t
      → IsFramed old (send text type t)
  unfolding send draft
  send-IsFramed text type t h = draft_sent-IsFramed (set_typed text type) t h

  pub kept-IsFramed :
      {old : List Sent} (f : Response → Response) (t : Responder)
      → IsFramed old t
      → IsFramed old (if t.responded then t else draft f t)
  kept-IsFramed f t h =
      if_elim (IsFramed _) t.responded t (draft f t) (λ r. h)
        (λ r. Same-IsFramed (draft-Same f t) h)

  pub send_response-IsFramed :
      {old : List Sent} (given : Response) (t : Responder)
      → IsFramed old t
      → IsFramed old (send_response given t)
  unfolding send_response adopt
  send_response-IsFramed given t h =
      let f = compress_response (request_of (adopt given t).exchange) in
      let own = adopt given t in
      let same : Same t own = record { sent = refl; responded = refl; connected = refl } in
      if_elim (IsFramed _) t.responded t (hand_over true (on_response f own)) (λ r. h)
        (λ r.
          hand_over-IsFramed true (on_response f own)
            (on_response-Prepared f own (length t.exchange.responses, refl))
            ((Same-trans same (on_response-Same f own)).sent ∙ unanswered_sent t r h))

  pub start_chunked-IsFramed :
      {old : List Sent} (type : Bytes) (s : Status) (t : Responder)
      → IsFramed old t
      → IsFramed old (start_chunked type s t).0
  unfolding start_chunked draft
  start_chunked-IsFramed {old} type s t h =
      let f = chunked_head type s in
      if_elim (λ (p : Responder × Bool). IsFramed old p.0) (not t.responded && t.exchange.connected)
        (hand_over false (draft f t), true) (t, false)
        (λ r.
          hand_over-IsFramed false (draft f t) (draft-Prepared f t)
            ((draft-Same f t).sent ∙ unanswered_sent t (ground arith) h))
        (λ r. h)

  -- A chunk behind an answer.
  pub append-IsFramed :
      {old : List Sent} (bytes : Bytes) (last : Bool) (t : Responder)
      → (t.responded && t.exchange.connected) ≡ true
      → IsFramed old t
      → IsFramed old (add_chunk bytes last t)
  append-IsFramed bytes last t c (unanswered r e) = absurd (ground arith)
  append-IsFramed bytes last t c (lost r d e) = absurd (ground arith)
  append-IsFramed bytes last t c (begun r d b) = rw (d) (
      begun r refl (record {
        chunks = chunk bytes last ∷ b.chunks;
        address = b.address;
        last = b.last;
        order = ap (λ l. chunk bytes last ∷ l) b.order;
        are_chunks = ((bytes, last, refl), b.are_chunks);
      }))

  pub write_chunk-IsFramed :
      {old : List Sent} (bytes : Bytes) (t : Responder)
      → IsFramed old t
      → IsFramed old (write_chunk bytes t).0
  unfolding write_chunk
  write_chunk-IsFramed {old} bytes t h =
      if_elim (λ (p : Responder × Bool). IsFramed old p.0) (t.responded && t.exchange.connected)
        (add_chunk bytes false t, true) (t, false) (λ r. append-IsFramed bytes false t r h) (λ r. h)

  pub end_chunked-IsFramed :
      {old : List Sent} (t : Responder) → IsFramed old t → IsFramed old (end_chunked t).0
  unfolding end_chunked
  end_chunked-IsFramed {old} t h =
      if_elim (λ (p : Responder × Bool). IsFramed old p.0) (t.responded && t.exchange.connected)
        (add_chunk [] true t, true) (t, false) (λ r. append-IsFramed [] true t r h) (λ r. h)
