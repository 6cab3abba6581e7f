-- ===== src/Client/ResponseFactory/Chunks.antt =====
-- A chunked body that is buffered, and the body of a known length.
use thinger_http.Common.{
  ℕ, suc, ◌+◌, ◌*◌, ◌^◌, ◌<◌, ◌≤◌, ◌≡◌, refl, ◌∙◌, Bool, true, false, none, some, List, [], ◌∷◌,
  ◌++◌, append_assoc, append-nil, All, Bytes, length, length-append, arith,
}
use thinger_http.Boost.{Boost}
use thinger_http.Message.Headers.{certain}
use thinger_http.Message.Header
use thinger_http.Message.Response.{Response}
use thinger_http.Client.ResponseFactory.{
  State, Parser, is_hexadecimal, get_hex_value, chunked_content_size, chunked_content,
  chunked_content_expecting_n, parse,
}

abbrev pub at : State → ℕ → Response → Parser → Parser
at s n r p = record p { state = s; temp_int = n; resp = some r }

abbrev pub with_content : Bytes → Response → Response
with_content body r = record r { content = body }

-- The number that hexadecimal digits stand for, after `n`.
abbrev pub hex_value : ℕ → Bytes → ℕ
hex_value n [] = n
hex_value n (c ∷ cs) = hex_value (n * 16 + get_hex_value c) cs

hex_value-le : (n : ℕ) (cs : Bytes) → n ≤ hex_value n cs
hex_value-le n [] = omega arith
hex_value-le n (c ∷ cs) = omega (arith, hex_value-le (n * 16 + get_hex_value c) cs)

pub record Chunk : Type 0 where
  pub size : Bytes
  pub bytes : Bytes

-- A chunk that holds something, whose size is written with hexadecimal digits of any case.
pub record IsChunk (c : Chunk) : Type 0 where
  pub digits : All (λ d. is_hexadecimal d ≡ true) c.size
  pub counts : hex_value 0 c.size ≡ length c.bytes
  pub holds : 0 < length c.bytes

abbrev pub chunk_text : Chunk → Bytes
chunk_text c = c.size ++ (Header.crlf ++ (c.bytes ++ Header.crlf))

abbrev pub chunk_texts : List Chunk → Bytes
chunk_texts [] = []
chunk_texts (c ∷ cs) = chunk_text c ++ chunk_texts cs

abbrev pub chunk_bytes : List Chunk → Bytes
chunk_bytes [] = []
chunk_bytes (c ∷ cs) = c.bytes ++ chunk_bytes cs

-- A parser that buffers, in the middle of a chunked body.
pub record Buffers (p : Parser) : Type 0 where
  pub not_streaming : p.on_streaming ≡ none
  pub not_chunked : p.on_chunked ≡ false
  pub not_last : p.last_chunk ≡ false
  pub limit : p.max_content_size < 2 ^ 64

module _ ⦃b : Boost⦄ (head : Bool) where
  parse_size :
      (hs tail : Bytes) (n : ℕ) (r : Response) (p : Parser)
      → All (λ d. is_hexadecimal d ≡ true) hs
      → hex_value n hs < 2 ^ 64
      → parse head (at chunked_content_size n r p) (hs ++ tail)
        ≡ parse head (at chunked_content_size (hex_value n hs) r p) tail
  parse_size [] tail n r p h lt = refl
  parse_size (c ∷ hs) tail n r p (k, h) lt =
      step ∙ parse_size hs tail (n * 16 + get_hex_value c) r p h lt
    where
      step :
          parse head (at chunked_content_size n r p) (c ∷ (hs ++ tail))
          ≡ parse head (at chunked_content_size (n * 16 + get_hex_value c) r p) (hs ++ tail)
      step = unfold parse in ground (arith, hex_value-le (n * 16 + get_hex_value c) hs)

  parse_size_end :
      (n : ℕ) (tail : Bytes) (r : Response) (p : Parser)
      → Buffers p
      → 0 < n
      → length r.content + n ≤ p.max_content_size
      → parse head (at chunked_content_size n r p) (b'\r' ∷ b'\n' ∷ tail)
        ≡ parse head (at chunked_content n r p) tail
  unfolding parse
  parse_size_end n tail r p h pos fits = ground arith

  parse_chunk_bytes :
      (bytes tail : Bytes) (r : Response) (p : Parser)
      → parse head (at chunked_content (length bytes) r p) (bytes ++ tail)
        ≡ parse head (at chunked_content 0 (with_content (r.content ++ bytes) r) p) tail
  parse_chunk_bytes [] tail r p = rw append-nil
  parse_chunk_bytes (c ∷ bytes) tail r p =
      step ∙ parse_chunk_bytes bytes tail (with_content (r.content ++ c ∷ []) r) p ∙ rw append_assoc
    where
      step :
          parse head (at chunked_content (suc (length bytes)) r p) (c ∷ (bytes ++ tail))
          ≡ parse head
              (at chunked_content (length bytes) (with_content (r.content ++ c ∷ []) r) p)
              (bytes ++ tail)
      step = unfold parse in ground arith

  parse_chunk_end :
      (tail : Bytes) (r : Response) (p : Parser)
      → Buffers p
      → parse head (at chunked_content 0 r p) (b'\r' ∷ b'\n' ∷ tail)
        ≡ parse head (at chunked_content_size 0 r p) tail
  unfolding parse
  parse_chunk_end tail r p h = ground arith

  parse_chunk :
      (c : Chunk) (tail : Bytes) (r : Response) (p : Parser)
      → Buffers p
      → IsChunk c
      → length r.content + length c.bytes ≤ p.max_content_size
      → parse head (at chunked_content_size 0 r p) (chunk_text c ++ tail)
        ≡ parse head (at chunked_content_size 0 (with_content (r.content ++ c.bytes) r) p) tail
  parse_chunk c tail r p h k fits = simp append_assoc (
      parse_size c.size _ 0 r p k.digits (omega (arith, h, k))
      ∙ rw k.counts (
          parse_size_end (length c.bytes) _ r p h k.holds fits
          ∙ parse_chunk_bytes c.bytes _ r p
          ∙ parse_chunk_end tail (with_content (r.content ++ c.bytes) r) p h))

  parse_last :
      (tail : Bytes) (r : Response) (p : Parser)
      → Buffers p
      → parse head (at chunked_content_size 0 r p) (b'\r' ∷ b'\n' ∷ b'\r' ∷ b'\n' ∷ tail)
        ≡ some (record (at chunked_content_expecting_n 0 r p) { last_chunk = true }, certain true)
  unfolding parse
  parse_last tail r p h = ground arith

  pub parse-chunk_texts :
      (cs : List Chunk) (zeros rest : Bytes) (r : Response) (p : Parser)
      → Buffers p
      → All IsChunk cs
      → All (λ d. is_hexadecimal d ≡ true) zeros
      → hex_value 0 zeros ≡ 0
      → length r.content + length (chunk_bytes cs) ≤ p.max_content_size
      → parse head
          (at chunked_content_size 0 r p)
          (chunk_texts cs ++ (zeros ++ (Header.crlf ++ (Header.crlf ++ rest))))
        ≡ some (
          record (at chunked_content_expecting_n 0
              (with_content (r.content ++ chunk_bytes cs) r)
              p) { last_chunk = true },
          certain true,
        )
  parse-chunk_texts [] zeros rest r p h all digits value fits =
      parse_size zeros _ 0 r p digits (omega arith) ∙ rw (value, append-nil) (parse_last rest r p h)
  parse-chunk_texts (c ∷ cs) zeros rest r p h (k, all) digits value fits = rw append_assoc (
      parse_chunk c _ r p h k (omega (arith, length-append c.bytes (chunk_bytes cs)))
      ∙ parse-chunk_texts cs zeros rest (with_content (r.content ++ c.bytes) r) p h all digits value
          (omega (arith, length-append c.bytes (chunk_bytes cs), length-append r.content c.bytes))
      ∙ rw append_assoc)
