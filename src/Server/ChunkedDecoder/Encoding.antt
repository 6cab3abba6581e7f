-- ===== src/Server/ChunkedDecoder/Encoding.antt =====
-- Chunks as RFC 9112 writes them, decoded.
use thinger_http.Common.{
  ℕ, ◌+◌, ◌-◌, ◌*◌, ◌%◌, ◌^◌, ◌≤◌, ◌<◌, ◌≡◌, refl, ap, ◌∙◌, true, false, List, [], ◌∷◌, ◌++◌, ◌==◌,
  length, Bytes, All, arith, append_assoc,
}
use thinger_http.Server.ChunkedDecoder.{size, is_hex_char, hex_value}
use thinger_http.Server.ChunkedDecoder.Reference.{emit, in_data, copied, emit-copy, emit-done}
use thinger_http.Server.ChunkedDecoder.Rounds.{in_state}

-- The number that hexadecimal digits stand for, after `n`.
abbrev pub hex_number : ℕ → Bytes → ℕ
hex_number n [] = n
hex_number n (d ∷ ds) = hex_number (n * 16 + hex_value d) ds

pub record Chunk : Type 0 where
  pub digits : Bytes
  pub bytes : Bytes

-- A chunk that holds something, whose size is written with hexadecimal digits of any case.
pub record IsChunk (c : Chunk) : Type 0 where
  pub are_digits : All (λ d. is_hex_char d ≡ true) c.digits
  pub counts : hex_number 0 c.digits ≡ length c.bytes
  pub holds : 0 < length c.bytes
  pub machine_size : length c.bytes < 2 ^ 64

abbrev crlf : Bytes
crlf = b'\r' ∷ b'\n' ∷ []

abbrev pub chunk_text : Chunk → Bytes
chunk_text c = c.digits ++ (crlf ++ (c.bytes ++ crlf))

-- A whole body, and its last chunk.
abbrev pub body_text : List Chunk → Bytes
body_text [] = b'0' ∷ (crlf ++ crlf)
body_text (c ∷ cs) = chunk_text c ++ body_text cs

abbrev pub chunk_bytes : List Chunk → Bytes
chunk_bytes [] = []
chunk_bytes (c ∷ cs) = c.bytes ++ chunk_bytes cs

hex_number-le : (n : ℕ) (ds : Bytes) → n ≤ hex_number n ds
hex_number-le n [] = omega arith
hex_number-le n (d ∷ ds) = omega (arith, hex_number-le (n * 16 + hex_value d) ds)

emit-digit :
    (n a d : ℕ) (tail : Bytes)
    → is_hex_char d ≡ true
    → a * 16 + hex_value d < 2 ^ 64
    → emit (in_state size n a) (d ∷ tail) ≡ emit (in_state size n (a * 16 + hex_value d)) tail
unfolding emit
emit-digit n a d tail h k =
    let e : (a * 16 + hex_value d) % 2 ^ 64 ≡ a * 16 + hex_value d = omega arith in rw (h, e) refl

emit-digits :
    (n a : ℕ) (ds tail : Bytes)
    → All (λ d. is_hex_char d ≡ true) ds
    → hex_number a ds < 2 ^ 64
    → emit (in_state size n a) (ds ++ tail) ≡ emit (in_state size n (hex_number a ds)) tail
emit-digits n a [] tail h k = refl
emit-digits n a (d ∷ ds) tail (hd, h) k =
    emit-digit n a d (ds ++ tail) hd (omega (arith, hex_number-le (a * 16 + hex_value d) ds))
    ∙ emit-digits n (a * 16 + hex_value d) ds tail h k

emit-line :
    (n a : ℕ) (tail : Bytes)
    → 0 < a
    → emit (in_state size n a) (b'\r' ∷ b'\n' ∷ tail) ≡ emit (in_data a 0) tail
unfolding emit is_hex_char
emit-line n a tail h = let e : (a == 0) ≡ false = ground arith in rw (e) refl

emit-copied :
    (n : ℕ) (tail : Bytes)
    → emit (copied n 0 n) (b'\r' ∷ b'\n' ∷ tail) ≡ emit (in_state size 0 0) tail
unfolding emit
emit-copied n tail = let e : n - n ≡ 0 = omega arith in rw (e) refl

emit-chunk :
    (n : ℕ) (c : Chunk) (tail : Bytes)
    → IsChunk c
    → emit (in_state size n 0) (chunk_text c ++ tail) ≡ c.bytes ++ emit (in_state size 0 0) tail
emit-chunk n c tail h =
    ap (emit (in_state size n 0)) (
      append_assoc c.digits (crlf ++ (c.bytes ++ crlf)) tail
      ∙ ap (λ t. c.digits ++ (crlf ++ t)) (append_assoc c.bytes crlf tail))
    ∙ emit-digits n 0 c.digits (b'\r' ∷ b'\n' ∷ (c.bytes ++ (b'\r' ∷ b'\n' ∷ tail))) h.are_digits
        (omega (arith, h.counts, h.machine_size))
    ∙ ap (λ a. emit (in_state size n a) (b'\r' ∷ b'\n' ∷ (c.bytes ++ (b'\r' ∷ b'\n' ∷ tail))))
        h.counts
    ∙ emit-line n (length c.bytes) (c.bytes ++ (b'\r' ∷ b'\n' ∷ tail)) h.holds
    ∙ emit-copy (length c.bytes) 0 c.bytes (b'\r' ∷ b'\n' ∷ tail) h.holds (omega arith)
    ∙ ap (λ t. c.bytes ++ t) (emit-copied (length c.bytes) tail)

emit-last : (n : ℕ) (rest : Bytes) → emit (in_state size n 0) (body_text [] ++ rest) ≡ []
unfolding emit is_hex_char hex_value
emit-last n rest = emit-done n 0 rest

-- The chunks of a body, whatever stands behind it.
pub emit-body_text :
    (n : ℕ) (cs : List Chunk) (rest : Bytes)
    → All IsChunk cs
    → emit (in_state size n 0) (body_text cs ++ rest) ≡ chunk_bytes cs
emit-body_text n [] rest h = emit-last n rest
emit-body_text n (c ∷ cs) rest (hc, h) =
    ap (emit (in_state size n 0)) (append_assoc (chunk_text c) (body_text cs) rest)
    ∙ emit-chunk n c (body_text cs ++ rest) hc
    ∙ ap (λ t. c.bytes ++ t) (emit-body_text 0 cs rest h)
