-- ===== src/Server/HttpServer/Bodies.antt =====
-- The body of a request on its way to the callback of a route.
use thinger_http.Common.{
  ℕ, ◌+◌, ◌≤◌, ◌<◌, ◌≡◌, ap, ◌∙◌, Bool, true, false, ◌&&◌, not, ltb, if_true, if_false, some, List,
  length, take, Bytes, codes, arith,
}
use thinger_http.Boost.{Boost}
use thinger_http.Libraries.{Zlib, JsonLib}
use thinger_http.Message.Status.{payload_too_large}
use thinger_http.Message.Request.{has_pending_body}
use thinger_http.Server.ChunkedDecoder.Encoding.{Chunk, chunk_bytes}
use thinger_http.Server.RequestBody.{ServerRequest, read_body}
use thinger_http.Server.RequestBody.Available.{available}
use thinger_http.Server.RequestBody.Bodies.{with_body}
use thinger_http.Server.RequestBody.WholeBody.{Awaits, read_body-chunks, read_body-too_long}
use thinger_http.Server.RequestBody.SizedBody.{AwaitsSized, read_body-sized}
use thinger_http.Server.Exchange.{Exchange, request_of}
use thinger_http.Server.Responder.Answers.{IsAnswered, error-IsAnswered}
use thinger_http.Server.Routing.{Route, returned}
use thinger_http.Server.HttpServer.{
  HttpServer, with_request, reject_body, call_route, call_with_body, call_pending, dispatch,
}

-- The request with the limit of the server on its body.
abbrev pub limited : {J : Type 0} → HttpServer J → Exchange → ServerRequest
limited s x = record x.server_request { max_body_size = s.max_body_size }

-- A request whose body the server reads before it calls the route.
pub record Waits {J : Type 0} (r : Route J) (x : Exchange) : Type 0 where
  pub connected : x.connected ≡ true
  pub not_deferred : r.deferred_body ≡ false
  pub pending : has_pending_body (request_of x) ≡ true

module _ ⦃b : Boost⦄ ⦃z : Zlib⦄ {J : Type 0} ⦃l : JsonLib J⦄ (fuel : ℕ) (s : HttpServer J)
    (r : Route J) (x : Exchange) (waits : Waits r x) where
  -- The callback runs, on a request with this body.
  pub record Called (body : Bytes) : Type 0 where
    pub read : ServerRequest
    pub holds : read.http_request ≡ with_body body (request_of x)
    pub calls : dispatch fuel s (some r) x ≡ some (call_route s r (with_request read x))

  -- The request is answered by 413, and nothing else happens, but for what has been read.
  pub record Refused : Type 0 where
    pub read : ServerRequest
    pub answered : Exchange
    pub answers : IsAnswered payload_too_large (with_request read x) answered
    pub refuses : dispatch fuel s (some r) x ≡ some (returned answered)

  -- The request is answered by 413, and nothing else happens: the request is as it was, and nothing
  -- of its body has been read.
  pub record RefusedUnread : Type 0 where
    pub answered : Exchange
    pub answers : IsAnswered payload_too_large x answered
    pub refuses : dispatch fuel s (some r) x ≡ some (returned answered)

  reads : dispatch fuel s (some r) x ≡ call_pending fuel s r x
  unfolding dispatch
  reads =
      if_false r.deferred_body _ _ waits.not_deferred
      ∙ if_true (has_pending_body (request_of x)) _ _ waits.pending

  reject_body-IsAnswered :
      (read : ServerRequest)
      → IsAnswered payload_too_large
          (with_request read x)
          (reject_body s.cors_enabled (with_request read x))
  unfolding reject_body
  reject_body-IsAnswered read =
      error-IsAnswered payload_too_large (codes "Payload Too Large") s.cors_enabled
        (with_request read x) waits.connected

  -- The test of the length that the header gives.
  abbrev says_too_long : Bool
  says_too_long =
      not (request_of x).chunked_transfer && ltb s.max_body_size (request_of x).content_length

  within_limit :
      says_too_long ≡ false
      → call_pending fuel s r x
        ≡ call_with_body s r x (read_body z.gunzip z.inflate fuel (limited s x))
  unfolding call_pending
  within_limit h = if_false says_too_long _ _ h

  Called-read_body :
      (body : Bytes) (read : ServerRequest)
      → says_too_long ≡ false
      → read_body z.gunzip z.inflate fuel (limited s x) ≡ some (true, read)
      → read.http_request ≡ with_body body (request_of x)
      → Called body
  unfolding call_with_body
  Called-read_body body read fits is holds = record {
    read = read;
    holds = holds;
    calls = reads ∙ within_limit fits ∙ ap (call_with_body s r x) is;
  }

  -- For a request to a route that does not defer its body, whose body of a given length awaits its
  -- read (`AwaitsSized`): where the length is within the limit of the server and as many bytes are
  -- available, the callback runs on the request with exactly the first of them as its body; where
  -- the length is above the limit, the request is answered once, by 413, with nothing of its body
  -- read and the request as it was, and the callback does not run.
  pub dispatch-sized :
      AwaitsSized (limited s x)
      → ((request_of x).content_length ≤ s.max_body_size
          → (request_of x).content_length ≤ length (available (limited s x))
          → Called (take (request_of x).content_length (available (limited s x))))
        × (s.max_body_size < (request_of x).content_length → RefusedUnread)
  unfolding call_pending
  dispatch-sized awaits = (
    λ fits enough.
        let (read, is, holds, _) =
          read_body-sized z.gunzip z.inflate fuel (limited s x) awaits enough in
        Called-read_body _ read (ground (arith, awaits.not_chunked)) is holds,
    λ over. record {
      answered = reject_body s.cors_enabled x;
      answers = reject_body-IsAnswered x.server_request;
      refuses = reads ∙ if_true says_too_long _ _ (ground (arith, awaits.not_chunked));
    },
  )

  -- For a request to a route that does not defer its body, whose chunked body awaits its read
  -- (`Awaits`), on fuel above the number of available bytes and one: where the bytes of the chunks
  -- are within the limit of the server, the callback runs on the request with exactly these bytes
  -- as its body; where they are more, the request is answered once, by 413, and the callback does
  -- not run.
  pub dispatch-chunks :
      (chunks : List Chunk) (rest : Bytes)
      → Awaits (limited s x) chunks rest
      → length (available (limited s x)) + 1 < fuel
      → (length (chunk_bytes chunks) ≤ s.max_body_size → Called (chunk_bytes chunks))
        × (s.max_body_size < length (chunk_bytes chunks) → Refused)
  unfolding call_with_body
  dispatch-chunks chunks rest awaits enough =
      let fits : says_too_long ≡ false = ground (arith, awaits.chunked) in
      (
        λ small.
            let (read, is, holds) =
              read_body-chunks z.gunzip z.inflate fuel (limited s x) chunks rest awaits enough
                small in
            Called-read_body _ read fits is holds,
        λ over.
            let (read, is) =
              read_body-too_long z.gunzip z.inflate fuel (limited s x) chunks rest awaits enough
                over in
            record {
              read = read;
              answered = reject_body s.cors_enabled (with_request read x);
              answers = reject_body-IsAnswered read;
              refuses = reads ∙ within_limit fits ∙ ap (call_with_body s r x) is;
            },
      )
