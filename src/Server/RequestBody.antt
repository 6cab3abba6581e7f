-- ===== src/Server/RequestBody.antt =====
-- thinger/http/server/request.{hpp,cpp}: how a server reads the body of a request. The socket is
-- the pieces that are still to arrive: a read takes of the first one. A write to a buffer of the
-- caller is returned.
pub mod Available
pub mod ChunkedReads
pub mod Parts
pub mod Bodies
pub mod WholeBody
pub mod SizedBody
use thinger_http.Common.{
  ℕ, suc, zero, ◌+◌, ◌-◌, ◌*◌, ◌^◌, Bool, true, false, ◌&&◌, Option, none, some, List, [], ◌∷◌,
  ◌++◌, ltb, leb, ◌==◌, min, if◌then◌else◌, length, take, drop, Bytes, codes, bytes_eq,
}
use thinger_http.Boost.{Boost}
use thinger_http.Message.Headers
use thinger_http.Message.Request.{Request}
use thinger_http.Server.ChunkedDecoder.{
  ChunkState, Chunking, done, new_chunking, chunk_batch, is_done, is_data, data_cr,
}

pub record ServerRequest : Type 0 where
  pub http_request : Request
  pub read_ahead : Bytes
  pub read_ahead_offset : ℕ
  pub chunking : Chunking
  pub max_body_size : ℕ
  pub socket : List Bytes

-- `request::request`
abbrev pub new_server_request : Request → List Bytes → ServerRequest
new_server_request http socket = record {
  http_request = http;
  read_ahead = [];
  read_ahead_offset = 0;
  chunking = new_chunking;
  max_body_size = 8 * 1024 * 1024;
  socket = socket;
}

unfoldable pub set_read_ahead : Bytes → ServerRequest → ServerRequest
set_read_ahead [] r = r
set_read_ahead (x ∷ xs) r = record r { read_ahead = x ∷ xs; read_ahead_offset = 0 }

unfoldable pub read_ahead_available : ServerRequest → ℕ
read_ahead_available r =
    if ltb r.read_ahead_offset (length r.read_ahead)
    then length r.read_ahead - r.read_ahead_offset
    else 0

-- `socket::read_some`
unfoldable pub read_some_socket : ℕ → List Bytes → Bytes × List Bytes
read_some_socket max_size [] = ([], [])
read_some_socket max_size (piece ∷ pieces) =
    if leb (length piece) max_size
    then (piece, pieces)
    else (take max_size piece, drop max_size piece ∷ pieces)

-- The first part of `raw_read_some` and of `read`.
unfoldable pub take_ahead : ℕ → ServerRequest → Bytes × ServerRequest
unfolding read_ahead_available
take_ahead max_size r =
    let from_ahead = min (read_ahead_available r) max_size in
    let offset = r.read_ahead_offset + from_ahead in
    (
      take from_ahead (drop r.read_ahead_offset r.read_ahead),
      (if leb (length r.read_ahead) offset
          then record r { read_ahead = []; read_ahead_offset = 0 }
          else record r { read_ahead_offset = offset }),
    )

unfoldable pub raw_read_some : ℕ → ServerRequest → Bytes × ServerRequest
unfolding read_ahead_available take_ahead read_some_socket
raw_read_some max_size r =
    if ltb 0 (read_ahead_available r)
    then take_ahead max_size r
    else let (bytes, pieces) = read_some_socket max_size r.socket in
      (bytes, record r { socket = pieces })

-- Whether the next round of `read_some_chunked` takes the fast path.
abbrev pub is_fast : Chunking → Bool
is_fast c = is_data c.state && ltb 0 c.remaining

-- The fast path, after its read.
unfoldable pub advance_chunk : ℕ → ServerRequest → ServerRequest
advance_chunk bytes r =
    let left = r.chunking.remaining - bytes in
    let state = if left == 0 then data_cr else r.chunking.state in
    record r { chunking = record r.chunking { remaining = left; state = state } }

-- `read_ahead_.assign(raw + i, raw + raw_bytes)`
unfoldable pub push_back : Bytes → ServerRequest → ServerRequest
push_back [] r = r
push_back (x ∷ raw) r = record r { read_ahead = x ∷ raw; read_ahead_offset = 0 }

-- The slow path, after its read.
unfoldable pub decode_batch : ℕ → Bytes → ServerRequest → Bytes × ServerRequest
unfolding chunk_batch push_back
decode_batch max_size raw r =
    let (next, output, left) = chunk_batch (length raw) max_size r.chunking [] raw in
    (output, push_back left (record r { chunking = next }))

-- A round of `read_some_chunked` that writes from the start of the buffer: the number of bytes
-- that were read, what was decoded, and the request.
unfoldable pub chunk_round : ℕ → ServerRequest → ℕ × Bytes × ServerRequest
unfolding raw_read_some advance_chunk decode_batch
chunk_round max_size r =
    if is_fast r.chunking
    then (let (bytes, read) = raw_read_some (min r.chunking.remaining max_size) r in
        (length bytes, bytes, advance_chunk (length bytes) read))
    else (let (raw, read) = raw_read_some 512 r in
        let (output, decoded) = decode_batch max_size raw read in (length raw, output, decoded))

-- `read_some_chunked` on fuel; `none` when the fuel is used up. A round that decodes something is
-- the last one.
unfoldable pub read_some_chunked : ℕ → ℕ → ServerRequest → Option (Bytes × ServerRequest)
unfolding chunk_round
read_some_chunked zero max_size r = none
read_some_chunked (suc fuel) max_size r =
    let (bytes, output, next) = chunk_round max_size r in
    let rest = read_some_chunked fuel max_size next in
    if is_done r.chunking.state
    then some ([], r)
    else if bytes == 0
    then some ([], next)
    else if length output == 0
    then rest
    else some (output, next)

-- `socket::read`: all that is asked for, or what there is.
unfoldable pub read_socket : ℕ → List Bytes → Bytes × List Bytes
read_socket n [] = ([], [])
read_socket n (piece ∷ pieces) =
    let (bytes, left) = read_socket (n - length piece) pieces in
    if leb (length piece) n then (piece ++ bytes, left) else (take n piece, drop n piece ∷ pieces)

-- The second part of `read`, after the bytes that were ahead.
unfoldable pub read_rest : ℕ → Bytes × ServerRequest → Bytes × ServerRequest
unfolding read_socket
read_rest n (ahead, r) =
    let (bytes, pieces) = read_socket (n - length ahead) r.socket in
    if ltb (length ahead) n then (ahead ++ bytes, record r { socket = pieces }) else (ahead, r)

-- `read` of a body that is not chunked.
unfoldable pub read_plain : ℕ → ServerRequest → Bytes × ServerRequest
unfolding read_ahead_available take_ahead read_rest
read_plain n r = read_rest n (if ltb 0 (read_ahead_available r) then take_ahead n r else ([], r))

-- A round of the loop of `read_body` over a chunked body, after its read; `again` goes on.
unfoldable pub add_chunk :
    (ServerRequest → Option (Bool × ServerRequest))
    → Bytes
    → Option (Bytes × ServerRequest)
    → Option (Bool × ServerRequest)
add_chunk again body none = none
add_chunk again body (some (bytes, next)) =
    let http = record next.http_request { content = body ++ bytes } in
    let rest = again (record next { http_request = http }) in
    if length bytes == 0
    then some (true, next)
    else if ltb next.max_body_size (length body + length bytes)
    then some (false, next)
    else rest

-- That loop, on fuel for it and for each of its reads. `none` when the fuel is used up, and
-- otherwise whether the body was within the limit.
unfoldable pub read_chunks : ℕ → ServerRequest → Option (Bool × ServerRequest)
unfolding read_some_chunked add_chunk
read_chunks zero r = none
read_chunks (suc fuel) r =
    add_chunk (read_chunks fuel) r.http_request.content (read_some_chunked fuel 8192 r)

abbrev zeros : ℕ → Bytes
zeros zero = []
zeros (suc n) = 0 ∷ zeros n

-- `std::string::resize`
unfoldable pub resize : ℕ → Bytes → Bytes
resize n xs = take n xs ++ zeros (n - length xs)

-- `util::gzip::decompress`, `util::deflate::decompress` and boost's comparison of strings.
module _ ⦃b : Boost⦄ (gzip deflate : Bytes → Option Bytes) where
  abbrev content_encoding : Bytes
  content_encoding = codes "Content-Encoding"

  -- The body, decompressed, or a failure.
  unfoldable pub store_decompressed : Option Bytes → ServerRequest → Bool × ServerRequest
  store_decompressed none r = (false, r)
  store_decompressed (some body) r =
      let http = r.http_request in
      let base = (Headers.remove_header content_encoding http.base).0 in
      (true, record r { http_request = record http { content = body; base = base } })

  unfoldable pub decompress : ServerRequest → Bool × ServerRequest
  unfolding store_decompressed
  decompress r =
      let encoding = Headers.get_header content_encoding r.http_request.base in
      if Headers.has_header content_encoding r.http_request.base
      then (if bytes_eq encoding (codes "gzip")
          then store_decompressed (gzip r.http_request.content) r
          else if bytes_eq encoding (codes "deflate")
          then store_decompressed (deflate r.http_request.content) r
          else (true, r))
      else (true, r)

  -- What `read_body` does once `read` has filled the body.
  unfoldable pub check_body : ℕ → Bytes × ServerRequest → Bool × ServerRequest
  unfolding decompress resize
  check_body size (bytes, next) =
      let old = next.http_request.content in
      let body = bytes ++ drop (length bytes) (resize size old) in
      let filled = record next { http_request = record next.http_request { content = body } } in
      if length bytes == size then decompress filled else (false, filled)

  -- `read_body` of a body that is not chunked; the length that is expected is the header's.
  unfoldable pub read_sized_body : ServerRequest → Bool × ServerRequest
  unfolding read_plain check_body
  read_sized_body r =
      let size = r.http_request.content_length in
      if size == 0 then (true, r) else check_body size (read_plain size r)

  abbrev finish_body : Option (Bool × ServerRequest) → Option (Bool × ServerRequest)
  finish_body none = none
  finish_body (some (true, r)) = some (decompress r)
  finish_body (some (false, r)) = some (false, r)

  unfoldable pub read_body : ℕ → ServerRequest → Option (Bool × ServerRequest)
  unfolding read_chunks decompress read_sized_body
  read_body fuel r =
      if r.http_request.chunked_transfer
      then finish_body (read_chunks fuel r)
      else some (read_sized_body r)
