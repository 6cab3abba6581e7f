-- ===== src/Tests/BodyReading.antt =====
-- Bodies that a server reads, at concrete inputs.
use thinger_http.Common.{ℕ, ◌≡◌, refl, true, Option, none, some, List, [], ◌∷◌, Bytes, codes, arith}
use thinger_http.Message.Headers.{new_headers, has_header}
use thinger_http.Message.Request.{Request, new_request}
use thinger_http.Server.ChunkedDecoder.{is_hex_char, hex_value}
use thinger_http.Server.ChunkedDecoder.Encoding.{Chunk, IsChunk}
use thinger_http.Server.RequestBody.{ServerRequest, new_server_request, set_read_ahead, read_body}
use thinger_http.Server.RequestBody.Bodies.{with_body}
use thinger_http.Server.RequestBody.WholeBody.{Awaits, read_body-chunks}
use thinger_http.Server.RequestBody.SizedBody.{AwaitsSized}
use thinger_http.Tests.Ascii.{ascii}

-- Decompression that always fails.
abbrev no_codec : Bytes → Option Bytes
no_codec bytes = none

abbrev pub chunks : List Chunk
chunks = record { digits = codes "3"; bytes = codes "abc" } ∷ []

abbrev pub chunked : Request
chunked = record new_request { chunked_transfer = true }

-- "3\r\nab", "c\r\n0", and "\r\n\r\nGET"
abbrev pub cut : ServerRequest
cut =
    record (new_server_request chunked
      ((b'c' ∷ 13 ∷ 10 ∷ b'0' ∷ []) ∷ (13 ∷ 10 ∷ 13 ∷ 10 ∷ b'G' ∷ []) ∷ [])) {
        read_ahead = b'3' ∷ 13 ∷ 10 ∷ b'a' ∷ b'b' ∷ [];
      }

abc-IsChunk : IsChunk (record { digits = codes "3"; bytes = codes "abc" })
unfolding is_hex_char hex_value
abc-IsChunk = record {
  are_digits = (refl, tt);
  counts = refl;
  holds = omega arith;
  machine_size = omega arith;
}

pub cut-Awaits : Awaits ⦃b = ascii⦄ cut chunks (b'G' ∷ [])
unfolding has_header
cut-Awaits = record {
  chunked = refl;
  plain = refl;
  nothing_read = refl;
  fresh = refl;
  full = (omega arith, (omega arith, tt));
  are_chunks = (abc-IsChunk, tt);
  arrives = refl;
}

read_body-chunks_example :
    (next : ServerRequest) × (read_body ⦃b = ascii⦄ no_codec no_codec 32 cut ≡ some (true, next))
    × (next.http_request ≡ with_body (codes "abc") chunked)
read_body-chunks_example =
    read_body-chunks ⦃b = ascii⦄ no_codec no_codec 32 cut chunks (b'G' ∷ []) cut-Awaits
      (omega arith) (omega arith)

-- The same body, with a limit of two bytes.
abbrev limited : ServerRequest
limited = record cut { max_body_size = 2 }

limited-Awaits : Awaits ⦃b = ascii⦄ limited chunks (b'G' ∷ [])
limited-Awaits = record {
  chunked = refl;
  plain = cut-Awaits.plain;
  nothing_read = refl;
  fresh = refl;
  full = cut-Awaits.full;
  are_chunks = cut-Awaits.are_chunks;
  arrives = refl;
}

abbrev sized : ℕ → ServerRequest
sized n = set_read_ahead (codes "ab") (
    new_server_request (record new_request { base = record new_headers { content_length = n } })
      (codes "cdG" ∷ []))

sized-AwaitsSized : (n : ℕ) → AwaitsSized ⦃b = ascii⦄ (sized n)
unfolding has_header set_read_ahead
sized-AwaitsSized n = record {
  not_chunked = refl;
  plain = refl;
  nothing_read = refl;
  full = (omega arith, tt);
}
