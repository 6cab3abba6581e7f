-- ===== src/Server/RequestBody/Bodies.antt =====
-- Reading a whole chunked body, however it arrives.
use thinger_http.Common.{
  ℕ, suc, zero, ◌+◌, ◌≤◌, ◌<◌, ◌≡◌, refl, sym, ap, ◌∙◌, Bool, true, false, Option, some, [], ◌++◌,
  ltb, ◌==◌, inl, inr, length, Bytes, arith, append_assoc, append-nil, length-append, Bool-cases,
}
use thinger_http.Message.Request.{Request}
use thinger_http.Server.ChunkedDecoder.Reference.{emit, IsValid}
use thinger_http.Server.RequestBody.{ServerRequest, read_some_chunked, read_chunks, add_chunk}
use thinger_http.Server.RequestBody.Available.{available, AreFull}
use thinger_http.Server.RequestBody.Parts.{read_some_chunked-Part}

-- What there is still to decode.
abbrev pub decoded : ServerRequest → Bytes
decoded r = emit r.chunking (available r)

abbrev pub with_body : Bytes → Request → Request
with_body body http = record http { content = body }

-- The body so far, with one part more.
abbrev grown : ServerRequest → Bytes → ServerRequest → ServerRequest
grown r output next = record next {
  http_request = with_body (r.http_request.content ++ output) next.http_request;
}

module _ (fuel : ℕ) (r : ServerRequest) (output : Bytes) (next : ServerRequest)
    (is : read_some_chunked fuel 8192 r ≡ some (output, next)) where
  added :
      read_chunks (suc fuel) r
      ≡ add_chunk (read_chunks fuel) r.http_request.content (some (output, next))
  unfolding read_chunks
  added = ap (add_chunk (read_chunks fuel) r.http_request.content) is

  chunks_end : (length output == 0) ≡ true → read_chunks (suc fuel) r ≡ some (true, next)
  chunks_end e = added ∙ unfold add_chunk in rw (e) refl

  chunks_over :
      (length output == 0) ≡ false
      → ltb next.max_body_size (length r.http_request.content + length output) ≡ true
      → read_chunks (suc fuel) r ≡ some (false, next)
  chunks_over e k = added ∙ unfold add_chunk in rw (e, k) refl

  chunks_on :
      (length output == 0) ≡ false
      → ltb next.max_body_size (length r.http_request.content + length output) ≡ false
      → read_chunks (suc fuel) r ≡ read_chunks fuel (grown r output next)
  chunks_on e k = added ∙ unfold add_chunk in rw (e, k) refl

-- The outcome of `read_chunks`: the decoded bytes behind the body, or a refusal when they are too
-- many.
pub record Whole (r : ServerRequest) (o : Option (Bool × ServerRequest)) : Type 0 where
  pub next : ServerRequest
  pub fits :
      length r.http_request.content + length (decoded r) ≤ r.max_body_size
      → (o ≡ some (true, next))
        × (next.http_request ≡ with_body (r.http_request.content ++ decoded r) r.http_request)
  pub over :
      r.max_body_size < length r.http_request.content + length (decoded r)
      → length r.http_request.content ≤ r.max_body_size
      → o ≡ some (false, next)

pub read_chunks-Whole :
    (fuel : ℕ) (r : ServerRequest)
    → IsValid r.chunking
    → AreFull r.socket
    → length (available r) + 1 < fuel
    → Whole r (read_chunks fuel r)
read_chunks-Whole zero r v full h = absurd (omega arith)
read_chunks-Whole (suc fuel) r v full h =
    let part = read_some_chunked-Part 8192 fuel r (omega arith) v full (omega arith) in
    let http = r.http_request in
    let body = http.content in
    elim part.moves [
      | inl (no_output, no_more) ↦
          let none_left : decoded r ≡ [] = part.same ∙ rw (no_output, no_more) refl in
          record {
            next = part.next;
            fits = λ _. (
              chunks_end fuel r part.output part.next part.is (rw (no_output) refl),
              rw (none_left, append-nil body) part.http,
            );
            over = λ k l. absurd (omega (arith, ap length none_left));
          }
      | inr (some_output, less) ↦
          let g = grown r part.output part.next in
          let rest = read_chunks-Whole fuel g part.valid part.full (omega arith) in
          let e : (length part.output == 0) ≡ false = ground arith in
          let size : length (decoded r) ≡ length part.output + length (decoded part.next) =
            ap length part.same ∙ length-append part.output (decoded part.next) in
          let grows : length (body ++ part.output) ≡ length body + length part.output =
            length-append body part.output in
          elim (Bool-cases (ltb part.next.max_body_size (length body + length part.output))) [
            | inl over ↦ record {
              next = part.next;
              fits = λ k. absurd (ground (arith, size, part.limit));
              over = λ k l. chunks_over fuel r part.output part.next part.is e over;
            }
            | inr on ↦
                let go = chunks_on fuel r part.output part.next part.is e on in
                record {
                  next = rest.next;
                  fits = λ k.
                      let (is, content) = rest.fits (omega (arith, size, grows, part.limit)) in
                      (
                        go ∙ is,
                        content
                            ∙ ap (with_body ((body ++ part.output) ++ decoded part.next)) part.http
                            ∙ ap (λ b. with_body b http)
                                (append_assoc body part.output (decoded part.next)
                                  ∙ ap (λ t. body ++ t) (sym part.same)),
                      );
                  over = λ k l.
                      go
                      ∙ rest.over (omega (arith, size, grows, part.limit)) (ground (arith, grows));
                }
          ]
    ]
