-- ===== src/Client/ResponseFactory/Safety.antt =====
-- The parser calls no method of a null response.
use mathlib.Core.Path.{subst, sym}
use thinger_http.Common.{
  ℕ, ◌+◌, ◌%◌, ◌^◌, ◌≡◌, ◌≢◌, refl, Bool, true, Option, none, some, [], ◌∷◌, Bytes, arith,
}
use thinger_http.Boost.{Boost}
use thinger_http.Message.Headers.{Tribool, indeterminate, certain}
use thinger_http.Message.Response.{Response}
use thinger_http.Client.ResponseFactory.{
  State, Parser, Step, ContentType, response_factory, http_version_h, http_version_t_1,
  http_version_t_2, http_version_p, http_version_slash, http_version_major_start,
  http_version_major, expecting_newline_3, chunked_content_expecting_n, begin_content, end_headers,
  next_chunk, consume_in, consume, after_consume, batching, stream_batch, parse, reset,
  consume_response, set_on_chunked, set_on_streaming, set_max_content_size,
}

abbrev IsThere : Option Response → Type 0
IsThere none = ⊥
IsThere (some r) = Unit

-- What the parser knows of its response in each state.
abbrev Knows : State → Option Response → Type 0
Knows http_version_h resp = Unit
Knows http_version_t_1 resp = Unit
Knows http_version_t_2 resp = Unit
Knows http_version_p resp = Unit
Knows http_version_slash resp = Unit
Knows http_version_major_start resp = Unit
Knows http_version_major resp = Unit
Knows _ resp = IsThere resp

abbrev Inv : Parser → Type 0
Inv p = Knows p.state p.resp

-- A completed response is there too.
abbrev Final : Tribool → Parser → Type 0
Final (certain true) p = IsThere p.resp
Final _ p = Unit

abbrev Ensures : Step → Type 0
Ensures none = ⊥
Ensures (some (q, t)) = Inv q × Final t q

begin_content-Ensures :
    (head : Bool) (t : ContentType) (r : Response) (p : Parser)
    → p.state ≡ expecting_newline_3
    → IsThere p.resp
    → Ensures (begin_content head t r p)
unfolding begin_content
begin_content-Ensures head ContentType.unset r p e k = ground arith
begin_content-Ensures head ContentType.lenght_delimited r p e k = ground arith
begin_content-Ensures head ContentType.chunked r p e k = ground arith

end_headers-Ensures :
    (head : Bool) (o : Option Response) (p : Parser)
    → p.resp ≡ o
    → p.state ≡ expecting_newline_3
    → IsThere o
    → Ensures (end_headers head o p)
unfolding end_headers
end_headers-Ensures head none p e s k = absurd k
end_headers-Ensures head (some r) p e s k =
    begin_content-Ensures head p.content_type r p s (subst IsThere (sym e) tt)

next_chunk-Ensures :
    (callback : Option (Bytes → ℕ → ℕ → Bool)) (o : Option Response) (p : Parser)
    → p.resp ≡ o
    → IsThere o
    → Inv p
    → Ensures (next_chunk callback o p)
unfolding next_chunk
next_chunk-Ensures callback none p e k i = absurd k
next_chunk-Ensures none (some r) p e k i = ground arith
next_chunk-Ensures (some callback) (some r) p e k i = ground arith

module _ ⦃b : Boost⦄ where
  consume_in-Ensures :
      (head : Bool) (s : State) (p : Parser) (c : ℕ)
      → p.state ≡ s
      → Knows s p.resp
      → Ensures (consume_in head s p c)
  unfolding consume_in
  consume_in-Ensures head http_version_h p c e k = ground arith
  consume_in-Ensures head http_version_t_1 p c e k = ground arith
  consume_in-Ensures head http_version_t_2 p c e k = ground arith
  consume_in-Ensures head http_version_p p c e k = ground arith
  consume_in-Ensures head http_version_slash p c e k = ground arith
  consume_in-Ensures head http_version_major_start p c e k = ground arith
  consume_in-Ensures head http_version_major p c e k = ground arith
  consume_in-Ensures head expecting_newline_3 p c e k =
      ground (arith, end_headers-Ensures head p.resp p refl e k)
  consume_in-Ensures head chunked_content_expecting_n p c e k = ground (
    arith,
    next_chunk-Ensures p.on_streaming p.resp
        (record p { temp_int = 0; state = State.chunked_content_size }) refl k k,
  )
  consume_in-Ensures head _ p c e k = ground arith

  consume-Ensures : (head : Bool) (p : Parser) (c : ℕ) → Inv p → Ensures (consume head p c)
  unfolding consume
  consume-Ensures head p c k = ground (
    arith,
    consume_in-Ensures head p.state p c refl k,
    consume_in-Ensures head p.state (record p { headers_size = (p.headers_size + 1) % 2 ^ 64 }) c
        refl k,
  )

  stream_batch-Ensures :
      (callback : Bytes → ℕ → ℕ → Bool) (r : Response) (p : Parser) (input : Bytes)
      → Inv p
      → IsThere p.resp
      → Ensures (stream_batch callback r p input)
  unfolding stream_batch
  stream_batch-Ensures callback r p input k there = ground arith

  after_consume-Ensures :
      (s : Step) (loop : Parser → Step)
      → Ensures s
      → ((q : Parser) → Inv q → Ensures (loop q))
      → Ensures (after_consume s loop)
  after_consume-Ensures none loop k ih = k
  after_consume-Ensures (some (q, indeterminate)) loop (k, f) ih = ih q k
  after_consume-Ensures (some (q, certain result)) loop (k, f) ih = (k, f)

  batching_there :
      (s : State) (o : Option (Bytes → ℕ → ℕ → Bool)) (left : ℕ) (callback : Bytes → ℕ → ℕ → Bool)
      → Knows s none
      → batching s o left ≢ some callback
  batching_there State.lenght_delimited_content o left callback k e = absurd k
  batching_there _ o left callback k e = cc

  -- A batch is taken only where content is due.
  batch-Ensures :
      (o : Option (Bytes → ℕ → ℕ → Bool)) (o' : Option Response) (p : Parser) (input : Bytes)
      (plain : Step)
      → batching p.state p.on_streaming p.temp_int ≡ o
      → p.resp ≡ o'
      → Inv p
      → Ensures plain
      → Ensures (elim o [
        | none ↦ plain
        | some callback ↦ elim o' [ none ↦ none | some r ↦ stream_batch callback r p input ]
      ])
  batch-Ensures none o' p input plain e e' k h = h
  batch-Ensures (some callback) none p input plain e e' k h =
      absurd
        (batching_there p.state p.on_streaming p.temp_int callback (subst (Knows p.state) e' k) e)
  batch-Ensures (some callback) (some r) p input plain e e' k h =
      stream_batch-Ensures callback r p input k (subst IsThere (sym e') tt)

  parse-Ensures : (head : Bool) (p : Parser) (input : Bytes) → Inv p → Ensures (parse head p input)
  unfolding parse
  parse-Ensures head p [] k = (k, tt)
  parse-Ensures head p (c ∷ cs) k =
      batch-Ensures (batching p.state p.on_streaming p.temp_int) p.resp p (c ∷ cs)
        (after_consume (consume head p c) (λ q. parse head q cs)) refl refl k
        (after_consume-Ensures (consume head p c) (λ q. parse head q cs)
          (consume-Ensures head p c k) (λ q k'. parse-Ensures head q cs k'))

  -- The parsers that a client connection can hold.
  pub data Reach : Parser → Type 0 where
    start : Reach response_factory
    fed :
        {p q : Parser} (head : Bool) (input : Bytes) {t : Tribool}
        → Reach p
        → parse head p input ≡ some (q, t)
        → Reach q
    chunked_to : {p : Parser} (on : Bool) → Reach p → Reach (set_on_chunked on p)
    streamed_to :
        {p : Parser} (callback : Option (Bytes → ℕ → ℕ → Bool))
        → Reach p
        → Reach (set_on_streaming callback p)
    limited_to : {p : Parser} (size : ℕ) → Reach p → Reach (set_max_content_size size p)
    restarted : {p : Parser} → Reach p → Reach (reset p)

  Reach-Inv : {p : Parser} → Reach p → Inv p
  unfolding reset
  Reach-Inv start = tt
  Reach-Inv (fed {p} head input r e) =
      (subst Ensures e (parse-Ensures head p input (Reach-Inv r))).0
  Reach-Inv (chunked_to on r) = Reach-Inv r
  Reach-Inv (streamed_to callback r) = Reach-Inv r
  Reach-Inv (limited_to size r) = Reach-Inv r
  Reach-Inv (restarted r) = tt

  -- Whatever a parser that a client can hold (fresh, fed, with any callbacks and limit, or reset)
  -- is fed next, it calls no method of a null response, and where it reports that the response is
  -- complete, `consume_response` has one to return.
  pub parse-safe :
      {p : Parser} (head : Bool) (input : Bytes)
      → Reach p
      → (parse head p input ≢ none)
        × ((q : Parser) → parse head p input ≡ some (q, certain true) → consume_response q ≢ none)
  unfolding consume_response
  parse-safe {p} head input r = (
    λ e. subst Ensures e (parse-Ensures head p input (Reach-Inv r)),
    λ q e. consumable q q.resp refl (subst Ensures e (parse-Ensures head p input (Reach-Inv r))).1,
  )
    where
      consumable :
          (q : Parser) (o : Option Response) → q.resp ≡ o → IsThere o → consume_response q ≢ none
      consumable q none e k = absurd k
      consumable q (some r) e k = ground arith
