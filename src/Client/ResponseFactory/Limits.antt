-- ===== src/Client/ResponseFactory/Limits.antt =====
-- The limits on the headers and on the content.
use mathlib.Core.Path.{subst}
use thinger_http.Common.{
  ℕ, suc, ◌+◌, ◌-◌, ◌%◌, ◌^◌, ◌<◌, ◌≤◌, ◌≡◌, refl, Bool, true, false, Option, none, some, [], ◌∷◌,
  Bytes, length, arith,
}
use thinger_http.Boost.{Boost}
use thinger_http.Message.Headers.{indeterminate, certain}
use thinger_http.Message.Response.{Response, new_response}
use thinger_http.Client.ResponseFactory.{
  State, ContentType, Parser, Step, max_headers_size, expecting_newline_3,
  chunked_content_expecting_n, lenght_delimited_content, begin_content, end_headers, next_chunk,
  on_chunk_read, in_headers, consume_in, consume, after_consume, stream_batch, batching, parse,
}

-- Where content of k bytes or more has been read, with k above 0 and the content and the limit
-- below 2^32, a chunk of the size 2^64 - k is taken, though it is larger than the limit.
pub on_chunk_read_wraps :
    (k : ℕ) (p : Parser) (r : Response)
    → 0 < k
    → k ≤ length r.content
    → length r.content < 2 ^ 32
    → length r.content ≤ p.max_content_size
    → p.max_content_size < 2 ^ 32
    → (on_chunk_read (2 ^ 64 - k) p r ≡ true) × (p.max_content_size < 2 ^ 64 - k)
unfolding on_chunk_read
on_chunk_read_wraps k p r pos small len below max = ground arith

-- A result that leaves the count of header bytes at `n`, and returns to the headers from nowhere else.
abbrev Counts : ℕ → State → Step → Type 0
Counts n s none = Unit
Counts n s (some (q, t)) = (q.headers_size ≡ n) × (in_headers q.state ≡ true → in_headers s ≡ true)

begin_content-Counts :
    (head : Bool) (t : ContentType) (r : Response) (p : Parser)
    → Counts p.headers_size expecting_newline_3 (begin_content head t r p)
unfolding begin_content
begin_content-Counts head ContentType.unset r p = ground arith
begin_content-Counts head ContentType.lenght_delimited r p = ground arith
begin_content-Counts head ContentType.chunked r p = ground arith

end_headers-Counts :
    (head : Bool) (o : Option Response) (p : Parser)
    → Counts p.headers_size expecting_newline_3 (end_headers head o p)
unfolding end_headers
end_headers-Counts head none p = ground (
  arith,
  begin_content-Counts head ContentType.unset new_response p,
  begin_content-Counts head ContentType.chunked new_response p,
)
end_headers-Counts head (some r) p = begin_content-Counts head p.content_type r p

next_chunk-Counts :
    (callback : Option (Bytes → ℕ → ℕ → Bool)) (o : Option Response) (p : Parser)
    → in_headers p.state ≡ false
    → Counts p.headers_size p.state (next_chunk callback o p)
unfolding next_chunk
next_chunk-Counts none none p e = ground arith
next_chunk-Counts none (some r) p e = ground arith
next_chunk-Counts (some callback) none p e = tt
next_chunk-Counts (some callback) (some r) p e = ground arith

module _ ⦃b : Boost⦄ where
  consume_in-Counts :
      (head : Bool) (s : State) (p : Parser) (c : ℕ)
      → p.state ≡ s
      → Counts p.headers_size s (consume_in head s p c)
  unfolding consume_in
  consume_in-Counts head expecting_newline_3 p c e =
      ground (arith, end_headers-Counts head p.resp p)
  consume_in-Counts head chunked_content_expecting_n p c e = ground (
    arith,
    next_chunk-Counts p.on_streaming p.resp
        (record p { temp_int = 0; state = State.chunked_content_size }) refl,
  )
  consume_in-Counts head _ p c e = ground arith

  -- Where `n` more bytes leave the parser in the headers, undecided, it was there before, and they
  -- are all counted, within the limit.
  abbrev InHeaders : ℕ → Parser → Step → Type 0
  InHeaders n p none = Unit
  InHeaders n p (some (q, certain result)) = Unit
  InHeaders n p (some (q, indeterminate)) =
      in_headers q.state ≡ true
      → (in_headers p.state ≡ true)
        × (p.headers_size ≤ max_headers_size
            → (q.headers_size ≡ p.headers_size + n) × (q.headers_size ≤ max_headers_size))

  consume-InHeaders : (head : Bool) (p : Parser) (c : ℕ) → InHeaders 1 p (consume head p c)
  unfolding consume
  consume-InHeaders head p c =
      let q = record p { headers_size = (p.headers_size + 1) % 2 ^ 64 } in
      ground
        (arith, consume_in-Counts head p.state p c refl, consume_in-Counts head p.state q c refl)

  InHeaders-trans :
      (n : ℕ) (p q : Parser) (s : Step)
      → InHeaders 1 p (some (q, indeterminate))
      → InHeaders n q s
      → InHeaders (suc n) p s
  InHeaders-trans n p q none h k = tt
  InHeaders-trans n p q (some (r, certain result)) h k = tt
  InHeaders-trans n p q (some (r, indeterminate)) h k = λ inside.
      let (before, counted) = k inside in
      let (first, first_counted) = h before in
      (
        first,
        λ below.
            let (e, le) = first_counted below in let (e', le') = counted le in (omega arith, le'),
      )

  after_consume-InHeaders :
      (n : ℕ) (p : Parser) (s : Step) (loop : Parser → Step)
      → InHeaders 1 p s
      → ((q : Parser) → InHeaders n q (loop q))
      → InHeaders (suc n) p (after_consume s loop)
  after_consume-InHeaders n p none loop h ih = tt
  after_consume-InHeaders n p (some (q, certain result)) loop h ih = tt
  after_consume-InHeaders n p (some (q, indeterminate)) loop h ih =
      InHeaders-trans n p q (loop q) h (ih q)

  stream_batch-InHeaders :
      (n : ℕ) (callback : Bytes → ℕ → ℕ → Bool) (r : Response) (p : Parser) (input : Bytes)
      → in_headers p.state ≡ false
      → InHeaders n p (stream_batch callback r p input)
  unfolding stream_batch
  stream_batch-InHeaders n callback r p input e = ground arith

  batching-in_headers :
      (s : State) (o : Option (Bytes → ℕ → ℕ → Bool)) (left : ℕ) (callback : Bytes → ℕ → ℕ → Bool)
      → batching s o left ≡ some callback
      → in_headers s ≡ false
  batching-in_headers lenght_delimited_content o left callback e = refl
  batching-in_headers _ o left callback e = cc

  batch-InHeaders :
      (n : ℕ) (o : Option (Bytes → ℕ → ℕ → Bool)) (o' : Option Response) (p : Parser)
      (input : Bytes) (plain : Step)
      → batching p.state p.on_streaming p.temp_int ≡ o
      → InHeaders n p plain
      → InHeaders n p (elim o [
        | none ↦ plain
        | some callback ↦ elim o' [ none ↦ none | some r ↦ stream_batch callback r p input ]
      ])
  batch-InHeaders n none o' p input plain e h = h
  batch-InHeaders n (some callback) none p input plain e h = tt
  batch-InHeaders n (some callback) (some r) p input plain e h =
      stream_batch-InHeaders n callback r p input
        (batching-in_headers p.state p.on_streaming p.temp_int callback e)

  parse-InHeaders :
      (head : Bool) (input : Bytes) (p : Parser) → InHeaders (length input) p (parse head p input)
  unfolding parse
  parse-InHeaders head [] p = λ inside. (inside, λ below. (omega arith, below))
  parse-InHeaders head (c ∷ cs) p =
      batch-InHeaders (suc (length cs)) (batching p.state p.on_streaming p.temp_int) p.resp p
        (c ∷ cs) (after_consume (consume head p c) (λ q. parse head q cs)) refl
        (after_consume-InHeaders (length cs) p (consume head p c) (λ q. parse head q cs)
          (consume-InHeaders head p c) (λ q. parse-InHeaders head cs q))

  -- A parser that was fed pieces of input, `n` bytes of them, and waits for more after each.
  pub data Fed (head : Bool) (p : Parser) : ℕ → Parser → Type 0 where
    unfed : Fed head p 0 p
    fed :
        {n : ℕ} {q r : Parser} (input : Bytes)
        → Fed head p n q
        → parse head q input ≡ some (r, indeterminate)
        → Fed head p (n + length input) r

  Fed-InHeaders :
      (head : Bool) (p : Parser) {n : ℕ} {q : Parser}
      → Fed head p n q
      → InHeaders n p (some (q, indeterminate))
  Fed-InHeaders head p unfed = λ inside. (inside, λ below. (omega arith, below))
  Fed-InHeaders head p (fed {q = q} input before e) = λ inside.
      let now = subst (InHeaders (length input) q) e (parse-InHeaders head input q) inside in
      let earlier = Fed-InHeaders head p before now.0 in
      (
        earlier.0,
        λ below.
            let (counted, le) = earlier.1 below in let (more, le') = now.1 le in (omega arith, le'),
      )

  -- A parser that had counted no header byte, as a new one or one whose response was taken, was
  -- then fed any pieces of input, was undecided after each of them, and waits for more of the
  -- headers, has counted every byte of the pieces, and there are 8192 at most.
  pub parse-headers_size_le :
      (head : Bool) (p : Parser) {n : ℕ} {q : Parser}
      → p.headers_size ≡ 0
      → Fed head p n q
      → in_headers q.state ≡ true
      → (q.headers_size ≡ n) × (n ≤ 8192)
  parse-headers_size_le head p fresh before inside =
      let (_, counted) = Fed-InHeaders head p before inside in
      let (all, le) = counted (omega arith) in (omega arith, omega arith)
