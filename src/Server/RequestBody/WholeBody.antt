-- ===== src/Server/RequestBody/WholeBody.antt =====
-- `read_body` of a chunked body.
use mathlib.Core.Path.{subst}
use thinger_http.Common.{
  ℕ, ◌+◌, ◌≤◌, ◌<◌, ◌≡◌, refl, sym, ap, ◌∙◌, true, false, Option, some, List, [], ◌++◌, length,
  Bytes, All, codes, arith,
}
use thinger_http.Boost.{Boost}
use thinger_http.Message.Headers
use thinger_http.Server.ChunkedDecoder.{new_chunking}
use thinger_http.Server.ChunkedDecoder.Reference.{emit, IsValid}
use thinger_http.Server.ChunkedDecoder.Encoding.{
  Chunk, IsChunk, body_text, chunk_bytes, emit-body_text,
}
use thinger_http.Server.RequestBody.{ServerRequest, read_chunks, read_body, decompress, finish_body}
use thinger_http.Server.RequestBody.Available.{available, AreFull}
use thinger_http.Server.RequestBody.Bodies.{decoded, with_body, read_chunks-Whole}

-- A request whose chunked body is still to be read, and its chunks; `rest` stands behind them.
pub record Awaits ⦃b : Boost⦄ (r : ServerRequest) (chunks : List Chunk) (rest : Bytes)
    : Type 0 where
  pub chunked : r.http_request.chunked_transfer ≡ true
  pub plain : Headers.has_header (codes "Content-Encoding") r.http_request.base ≡ false
  pub nothing_read : r.http_request.content ≡ []
  pub fresh : r.chunking ≡ new_chunking
  pub full : AreFull r.socket
  pub are_chunks : All IsChunk chunks
  pub arrives : available r ≡ body_text chunks ++ rest

module _ ⦃b : Boost⦄ (gzip deflate : Bytes → Option Bytes) (fuel : ℕ) (r : ServerRequest)
    (chunks : List Chunk) (rest : Bytes) (awaits : Awaits r chunks rest)
    (enough : length (available r) + 1 < fuel) where
  decoded-chunks : decoded r ≡ chunk_bytes chunks
  decoded-chunks =
      ap (λ c. emit c (available r)) awaits.fresh
      ∙ ap (emit new_chunking) awaits.arrives
      ∙ emit-body_text 0 chunks rest awaits.are_chunks

  fresh-IsValid : IsValid r.chunking
  fresh-IsValid = subst IsValid (sym awaits.fresh) tt

  total : length r.http_request.content + length (decoded r) ≡ length (chunk_bytes chunks)
  total = rw (awaits.nothing_read, decoded-chunks) (omega arith)

  read_body-chunked : read_body gzip deflate fuel r ≡ finish_body gzip deflate (read_chunks fuel r)
  unfolding read_body
  read_body-chunked = rw (awaits.chunked) refl

  decompress-plain :
      (next : ServerRequest)
      → Headers.has_header (codes "Content-Encoding") next.http_request.base ≡ false
      → decompress gzip deflate next ≡ (true, next)
  unfolding decompress
  decompress-plain next h = rw (h) refl

  -- Where a chunked body awaits its read, not compressed, in well-formed chunks (`IsChunk`) and a
  -- last chunk `0`, no piece of the socket is empty, and the bytes of the chunks are within the
  -- limit, `read_body` ends on any fuel above the number of available bytes and one, and stores
  -- exactly the bytes of the chunks, however they are cut into pieces and whatever follows.
  pub read_body-chunks :
      length (chunk_bytes chunks) ≤ r.max_body_size
      → (next : ServerRequest) × (read_body gzip deflate fuel r ≡ some (true, next))
        × (next.http_request ≡ with_body (chunk_bytes chunks) r.http_request)
  read_body-chunks fits =
      let whole = read_chunks-Whole fuel r fresh-IsValid awaits.full enough in
      let (is, http) = whole.fits (omega (arith, total)) in
      let http =
        http ∙ ap (λ t. with_body t r.http_request) (rw (awaits.nothing_read) decoded-chunks) in
      (
        whole.next,
        read_body-chunked
            ∙ ap (finish_body gzip deflate) is
            ∙ ap some (
                decompress-plain whole.next (
                  ap (λ h. Headers.has_header (codes "Content-Encoding") h.base) http
                  ∙ awaits.plain)),
        http,
      )

  -- Where the bytes of such a body (`Awaits`) are more than the limit, `read_body` ends on any fuel
  -- above the number of available bytes and one, and refuses the body.
  pub read_body-too_long :
      r.max_body_size < length (chunk_bytes chunks)
      → (next : ServerRequest) × (read_body gzip deflate fuel r ≡ some (false, next))
  read_body-too_long over =
      let whole = read_chunks-Whole fuel r fresh-IsValid awaits.full enough in
      (
        whole.next,
        read_body-chunked
            ∙ ap (finish_body gzip deflate)
                (whole.over (omega (arith, total)) (rw (awaits.nothing_read) (omega arith))),
      )
