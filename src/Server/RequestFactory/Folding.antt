-- ===== src/Server/RequestFactory/Folding.antt =====
-- A header line that begins with a blank continues the one before it (`case header_lws`).
use thinger_http.Common.{ℕ, ◌≡◌, ◌∙◌, Bool, false, some, [], ◌∷◌, ◌++◌, All, Bytes, arith}
use thinger_http.Boost.{Boost}
use thinger_http.Message.Header
use thinger_http.Message.Headers
use thinger_http.Message.Request
use thinger_http.Message.Request.{Request}
use thinger_http.Server.RequestFactory.{header_line_start, header_value, parse, is_blank}
use thinger_http.Server.RequestFactory.Pieces.{at, IsText, parse_value, parse_end_value}

module _ ⦃b : Boost⦄ (only : Bool) where
  parse_fold :
      (c : ℕ) (key value tail : Bytes) (n : ℕ) (r : Request)
      → Headers.empty_headers r.base ≡ false
      → IsText c
      → is_blank c ≡ false
      → parse (at only header_line_start key value n (some r)) (b' ' ∷ c ∷ tail)
        ≡ parse (at only header_value (key ++ c ∷ []) value n (some r)) tail
  unfolding parse
  parse_fold c key value tail n r some_headers text solid = ground arith

  -- Where the request has a header already, a line of a space and text that does not begin with a
  -- blank, without control characters, adds its first byte to the name of the header before it and
  -- the rest to the value, and the result is processed as one more header.
  pub parse-fold :
      (c : ℕ) (key value more tail : Bytes) (n : ℕ) (r : Request)
      → Headers.empty_headers r.base ≡ false
      → IsText c
      → is_blank c ≡ false
      → All IsText more
      → parse
          (at only header_line_start key value n (some r))
          (b' ' ∷ c ∷ (more ++ (Header.crlf ++ tail)))
        ≡ parse
            (at only header_line_start
              (key ++ c ∷ [])
              (value ++ more)
              n
              (some (Request.process_header (key ++ c ∷ []) (value ++ more) r)))
            tail
  parse-fold c key value more tail n r some_headers text solid texts =
      parse_fold c key value _ n r some_headers text solid
      ∙ parse_value only more (key ++ c ∷ []) value _ n (some r) texts
      ∙ parse_end_value only (key ++ c ∷ []) (value ++ more) tail n r
