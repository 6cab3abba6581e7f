-- ===== src/Server/OutChunk.antt =====
-- thinger/http/data/out_chunk.hpp: the frames of a response in chunks, as bytes.
pub mod Delivery
use thinger_http.Common.{ℕ, true, false, List, [], ◌∷◌, ◌++◌, length, Bytes, codes}
use thinger_http.Libraries.{HexStream}
use thinger_http.Message.Header
use thinger_http.Server.Exchange.{Sent, head, chunk}

module _ ⦃h : HexStream⦄ where
  -- `out_chunk(str)`, and `to_buffer`
  unfoldable pub chunk_buffer : Bytes → Bytes
  chunk_buffer str = h.hex (length str) ++ (Header.crlf ++ (str ++ Header.crlf))

  -- `out_chunk()`, and `to_buffer`
  unfoldable pub last_buffer : Bytes
  last_buffer = codes "0" ++ (Header.crlf ++ ([] ++ Header.crlf))

  -- What the frames behind the latest response are written as; the latest frame stands first.
  unfoldable pub frames_buffer : List Sent → Bytes
  unfolding chunk_buffer last_buffer
  frames_buffer [] = []
  frames_buffer (head a last ∷ sent) = []
  frames_buffer (chunk str false ∷ sent) = frames_buffer sent ++ chunk_buffer str
  frames_buffer (chunk str true ∷ sent) = frames_buffer sent ++ last_buffer
