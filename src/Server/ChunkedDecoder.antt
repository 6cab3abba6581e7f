-- ===== src/Server/ChunkedDecoder.antt =====
-- thinger/http/server/request.cpp: the chunked decoder, on the bytes of one raw read.
pub mod Reference
pub mod Rounds
pub mod Batches
pub mod Encoding
use thinger_http.Common.{
  ℕ, suc, zero, ◌+◌, ◌-◌, ◌*◌, ◌%◌, ◌^◌, Bool, true, false, ◌||◌, List, [], ◌∷◌, ◌++◌, ltb, leb,
  ◌==◌, within, min, if◌then◌else◌, length, take, drop, Bytes,
}

pub data ChunkState : Type 0 where
  size size_lf chunk_data data_cr data_lf trailer_lf done : ChunkState

pub record Chunking : Type 0 where
  pub state : ChunkState
  pub remaining : ℕ
  pub size_accum : ℕ

abbrev pub new_chunking : Chunking
new_chunking = record { state = size; remaining = 0; size_accum = 0 }

unfoldable pub is_hex_char : ℕ → Bool
is_hex_char c = within b'0' b'9' c || within b'a' b'f' c || within b'A' b'F' c

unfoldable pub hex_value : ℕ → ℕ
hex_value c =
    if within b'0' b'9' c
    then c - b'0'
    else if within b'a' b'f' c
    then c - b'a' + 10
    else if within b'A' b'F' c
    then c - b'A' + 10
    else 0

abbrev pub is_done : ChunkState → Bool
is_done done = true
is_done _ = false

abbrev pub is_data : ChunkState → Bool
is_data chunk_data = true
is_data _ = false

-- What was decoded, and what is left of the raw bytes.
abbrev pub Decoded : Type 0
Decoded = Chunking × Bytes × Bytes

-- The copy of the case `data`, into a buffer with `room`.
unfoldable pub copy_data : ℕ → Chunking → Bytes → Decoded
copy_data room c raw =
    let to_copy = min (min c.remaining (length raw)) room in
    let left = c.remaining - to_copy in
    (
      record c { remaining = left; state = (if left == 0 then data_cr else c.state) },
      take to_copy raw,
      drop to_copy raw,
    )

-- The case `size_lf` after its byte; `raw` stands behind it.
unfoldable pub begin_chunk : ℕ → Chunking → Bytes → Decoded
unfolding copy_data
begin_chunk room c [] =
    if c.size_accum == 0
    then (record c { state = trailer_lf }, [], [])
    else (record c { remaining = c.size_accum; size_accum = 0; state = chunk_data }, [], [])
begin_chunk room c (x ∷ raw) =
    if c.size_accum == 0
    then (record c { state = trailer_lf }, [], x ∷ raw)
    else copy_data room (record c { remaining = c.size_accum; size_accum = 0; state = chunk_data })
        (x ∷ raw)

-- The case `trailer_lf` after a carriage return.
unfoldable pub end_trailer : Chunking → Bytes → Decoded
end_trailer c [] = (record c { state = done }, [], [])
end_trailer c (x ∷ raw) = (record c { state = done }, [], if x == b'\n' then raw else x ∷ raw)

-- One round of the inner loop, by the state.
unfoldable pub chunk_byte : ChunkState → ℕ → Chunking → ℕ → Bytes → Decoded
unfolding is_hex_char hex_value begin_chunk copy_data end_trailer
chunk_byte size room c byte raw =
    if is_hex_char byte
    then (record c { size_accum = (c.size_accum * 16 + hex_value byte) % 2 ^ 64 }, [], raw)
    else if byte == b'\r'
    then (record c { state = size_lf }, [], raw)
    else (c, [], raw)
chunk_byte size_lf room c byte raw = if byte == b'\n' then begin_chunk room c raw else (c, [], raw)
chunk_byte chunk_data room c byte raw = copy_data room c (byte ∷ raw)
chunk_byte data_cr room c byte raw =
    if byte == b'\r' then (record c { state = data_lf }, [], raw) else (c, [], raw)
chunk_byte data_lf room c byte raw =
    if byte == b'\n' then (record c { state = size; size_accum = 0 }, [], raw) else (c, [], raw)
chunk_byte trailer_lf room c byte raw = if byte == b'\r' then end_trailer c raw else (c, [], raw)
chunk_byte done room c byte raw = (c, [], byte ∷ raw)

-- The inner loop of `read_some_chunked`, on fuel; each round takes a byte or fills the buffer.
unfoldable pub chunk_batch : ℕ → ℕ → Chunking → Bytes → Bytes → Decoded
unfolding chunk_byte
chunk_batch zero max_size c output raw = (c, output, raw)
chunk_batch (suc fuel) max_size c output [] = (c, output, [])
chunk_batch (suc fuel) max_size c output (byte ∷ raw) =
    let (next, copied, left) = chunk_byte c.state (max_size - length output) c byte raw in
    let rest = chunk_batch fuel max_size next (output ++ copied) left in
    if is_done c.state || leb max_size (length output) then (c, output, byte ∷ raw) else rest
