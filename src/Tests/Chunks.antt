-- ===== src/Tests/Chunks.antt =====
-- A response in chunks, at a concrete input, with a `std::hex` of lower case.
use thinger_http.Common.{
  ℕ, zero, suc, ◌+◌, ◌*◌, ◌/◌, ◌%◌, ◌<◌, ◌≤◌, ◌≡◌, refl, ◌∙◌, true, false, some, List, [], ◌∷◌,
  ◌++◌, ltb, if_elim, if◌then◌else◌, All, Bytes, codes, arith,
}
use thinger_http.Libraries.{HexStream}
use thinger_http.Message.Headers.{certain}
use thinger_http.Message.Status
use thinger_http.Message.Response.{new_response}
use thinger_http.Message.Request.{new_request}
use thinger_http.Client.ResponseFactory.{
  response_factory, is_hexadecimal, get_hex_value, chunked_content_size,
  chunked_content_expecting_n, parse,
}
use thinger_http.Client.ResponseFactory.Chunks.{at, with_content, hex_value}
use thinger_http.Server.RequestBody.{new_server_request}
use thinger_http.Server.Exchange.{Exchange, new_exchange}
use thinger_http.Server.Responder.Calls.{act_all}
use thinger_http.Server.OutChunk.{frames_buffer}
use thinger_http.Server.OutChunk.Delivery.{WritesHex, parse-write_calls}
use thinger_http.Tests.Ascii.{ascii}
use thinger_http.Tests.Routing.{no_codec, no_files}

digit : ℕ → ℕ
digit d = if ltb d 10 then b'0' + d else 87 + d

-- The fuel is at least the number.
hex_digits : ℕ → ℕ → Bytes
unfolding digit
hex_digits zero n = digit (n % 16) ∷ []
hex_digits (suc f) n =
    let rest = hex_digits f (n / 16) ++ digit (n % 16) ∷ [] in
    if ltb n 16 then digit n ∷ [] else rest

instance abbrev lower_hex : HexStream
lower_hex = record { hex = λ n. hex_digits n n }

digit-IsDigit : (d : ℕ) → d < 16 → (is_hexadecimal (digit d) ≡ true) × (get_hex_value (digit d) ≡ d)
unfolding is_hexadecimal get_hex_value digit
digit-IsDigit d lt = (ground arith, ground arith)

All-snoc : (P : ℕ → Type 0) (cs : Bytes) (c : ℕ) → All P cs → P c → All P (cs ++ c ∷ [])
All-snoc P [] c all h = (h, tt)
All-snoc P (d ∷ cs) c (k, all) h = (k, All-snoc P cs c all h)

hex_value-snoc :
    (n : ℕ) (cs : Bytes) (c : ℕ)
    → hex_value n (cs ++ c ∷ []) ≡ hex_value n cs * 16 + get_hex_value c
hex_value-snoc n [] c = refl
hex_value-snoc n (d ∷ cs) c = hex_value-snoc (n * 16 + get_hex_value d) cs c

abbrev Writes : ℕ → Bytes → Type 0
Writes n cs = All (λ d. is_hexadecimal d ≡ true) cs × (hex_value 0 cs ≡ n)

hex_digits-Writes : (f n : ℕ) → n ≤ f → Writes n (hex_digits f n)
unfolding hex_digits
hex_digits-Writes zero n le =
    let one = digit-IsDigit (n % 16) (omega arith) in ((one.0, tt), omega (arith, one))
hex_digits-Writes (suc f) n le =
    if_elim (Writes n) (ltb n 16) (digit n ∷ []) (hex_digits f (n / 16) ++ digit (n % 16) ∷ [])
      (λ lt. let one = digit-IsDigit n (ground arith) in ((one.0, tt), omega (arith, one)))
      (λ ge.
        let rest = hex_digits-Writes f (n / 16) (ground arith) in
        let one = digit-IsDigit (n % 16) (omega arith) in
        (
          All-snoc (λ d. is_hexadecimal d ≡ true) (hex_digits f (n / 16)) (digit (n % 16)) rest.0
              one.0,
          hex_value-snoc 0 (hex_digits f (n / 16)) (digit (n % 16)) ∙ omega (arith, rest.1, one.1),
        ))

lower_hex-WritesHex : WritesHex ⦃b = ascii⦄ ⦃z = no_codec⦄ ⦃d = no_files⦄ ⦃h = lower_hex⦄
lower_hex-WritesHex = record {
  digits = λ n. (hex_digits-Writes n n (omega arith)).0;
  value = λ n. (hex_digits-Writes n n (omega arith)).1;
}

abbrev asked : Exchange
asked = new_exchange true (new_server_request new_request [])

abbrev written : List Bytes
written = codes "eighteen bytes now" ∷ codes "!" ∷ []

parse-write_calls_example :
    parse ⦃b = ascii⦄ false
      (at chunked_content_size 0 new_response response_factory)
      (codes "12\r\neighteen bytes now\r\n1\r\n!\r\n0\r\n\r\n")
    ≡ some (
      record (at chunked_content_expecting_n 0
          (with_content (codes "eighteen bytes now!") new_response)
          response_factory) { last_chunk = true },
      certain true,
    )
unfolding hex_digits frames_buffer act_all
parse-write_calls_example =
    parse-write_calls ⦃b = ascii⦄ ⦃z = no_codec⦄ ⦃d = no_files⦄ ⦃h = lower_hex⦄ (codes "text/plain")
      Status.ok false asked written false new_response response_factory refl
      (omega arith, (omega arith, tt)) lower_hex-WritesHex
      (record { not_streaming = refl; not_chunked = refl; not_last = refl; limit = omega arith })
      (omega arith)
