-- ===== src/Server/OutChunk/Delivery.antt =====
-- What a handler writes in chunks, as bytes.
use thinger_http.Common.{
  ℕ, ◌+◌, ◌<◌, ◌≤◌, ◌≡◌, refl, ap, ◌∙◌, Bool, true, false, some, List, [], ◌∷◌, ◌++◌, append_assoc,
  flatten, All, length, Bytes, codes,
}
use thinger_http.Boost.{Boost}
use thinger_http.Libraries.{Zlib, Filesystem, HexStream}
use thinger_http.Message.Headers.{certain}
use thinger_http.Message.Status.{Status}
use thinger_http.Message.Response.{Response}
use thinger_http.Client.ResponseFactory.{
  Parser, is_hexadecimal, get_hex_value, chunked_content_size, chunked_content_expecting_n, parse,
}
use thinger_http.Client.ResponseFactory.Chunks.{
  Chunk, IsChunk, Buffers, at, with_content, hex_value, chunk_texts, chunk_bytes, parse-chunk_texts,
}
use thinger_http.Server.Exchange.{Exchange}
use thinger_http.Server.Responder.{
  Responder, new_responder, prepare_response, on_response, hand_over, add_chunk, start_chunked,
  write_chunk, end_chunked,
}
use thinger_http.Server.Responder.Calls.{Call, start_call, write_call, end_call, act, act_all}
use thinger_http.Server.OutChunk.{last_buffer, frames_buffer}

-- The calls that write some data in chunks and end the response.
abbrev pub write_calls : List Bytes → List Call
write_calls [] = end_call ∷ []
write_calls (str ∷ strs) = write_call str ∷ write_calls strs

-- The chunks that they send.
abbrev pub chunks_of : ⦃h : HexStream⦄ → List Bytes → List Chunk
chunks_of [] = []
chunks_of ⦃h⦄ (str ∷ strs) = record { size = h.hex (length str); bytes = str } ∷ chunks_of strs

module _ ⦃b : Boost⦄ ⦃z : Zlib⦄ ⦃d : Filesystem⦄ ⦃h : HexStream⦄ where
  pub write_calls-buffer :
      (strs : List Bytes) (t : Responder)
      → t.responded ≡ true
      → t.exchange.connected ≡ true
      → frames_buffer (act_all (write_calls strs) t).exchange.sent
        ≡ frames_buffer t.exchange.sent ++ (chunk_texts (chunks_of strs) ++ last_buffer)
  unfolding act_all act write_chunk end_chunked frames_buffer
  write_calls-buffer [] t r c = rw (r, c) refl
  write_calls-buffer (str ∷ strs) t r c =
      let u =
        add_chunk str false
          (record t { exchange = record t.exchange { connected = true }; responded = true }) in
      rw (r, c) (write_calls-buffer strs u refl refl ∙ simp append_assoc)

  -- What a `std::ostringstream` promises of `std::hex`: digits that stand for the number.
  pub record WritesHex : Type 0 where
    pub digits : (n : ℕ) → All (λ d. is_hexadecimal d ≡ true) (h.hex n)
    pub value : (n : ℕ) → hex_value 0 (h.hex n) ≡ n

  chunks_of-IsChunk :
      (strs : List Bytes)
      → WritesHex
      → All (λ str. 0 < length str) strs
      → All IsChunk (chunks_of strs)
  chunks_of-IsChunk [] w all = tt
  chunks_of-IsChunk (str ∷ strs) w (k, all) = (
    record { digits = w.digits (length str); counts = w.value (length str); holds = k },
    chunks_of-IsChunk strs w all,
  )

  chunk_bytes-chunks_of : (strs : List Bytes) → chunk_bytes (chunks_of strs) ≡ flatten strs
  chunk_bytes-chunks_of [] = refl
  chunk_bytes-chunks_of (str ∷ strs) = ap (λ l. str ++ l) (chunk_bytes-chunks_of strs)

  -- The object behind `start_chunked`.
  started_buffer :
      (type : Bytes) (s : Status) (cors : Bool) (x : Exchange) (strs : List Bytes)
      → x.connected ≡ true
      → frames_buffer
          (act_all (start_call type s ∷ write_calls strs) (new_responder cors x)).exchange.sent
        ≡ chunk_texts (chunks_of strs) ++ last_buffer
  unfolding act_all act start_chunked prepare_response on_response hand_over frames_buffer
  started_buffer type s cors x strs c = rw c (write_calls-buffer strs _ refl refl)

  -- Where the connection is there, std::hex writes digits that stand for the number, and no text is
  -- empty: what a fresh response writes for start_chunked, a write_chunk of each text and
  -- end_chunked is decoded by the client's parser - one that buffers, at the start of a chunked
  -- body, whose limit is below 2^64 and leaves room for the texts behind the content so far - to
  -- the texts, in order, and the parser has then seen the last chunk.
  pub parse-write_calls :
      (type : Bytes) (s : Status) (cors : Bool) (x : Exchange) (strs : List Bytes) (is_head : Bool)
      (r : Response) (p : Parser)
      → x.connected ≡ true
      → All (λ str. 0 < length str) strs
      → WritesHex
      → Buffers p
      → length r.content + length (flatten strs) ≤ p.max_content_size
      → parse is_head (at chunked_content_size 0 r p) (
          frames_buffer
            (act_all (start_call type s ∷ write_calls strs) (new_responder cors x)).exchange.sent)
        ≡ some (
          record (at chunked_content_expecting_n 0 (with_content (r.content ++ flatten strs) r) p) {
            last_chunk = true;
          },
          certain true,
        )
  unfolding last_buffer
  parse-write_calls type s cors x strs is_head r p c all w h fits =
      let cs = chunks_of strs in
      ap (parse is_head (at chunked_content_size 0 r p)) (started_buffer type s cors x strs c)
      ∙ parse-chunk_texts is_head cs (codes "0") [] r p h (chunks_of-IsChunk strs w all)
          (unfold is_hexadecimal in (refl, tt)) (unfold get_hex_value in refl)
          (rw chunk_bytes-chunks_of fits)
      ∙ rw chunk_bytes-chunks_of refl
