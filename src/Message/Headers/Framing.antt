-- ===== src/Message/Headers/Framing.antt =====
-- What the parser derives from the headers: the length of the body, and whether the connection stays.
use thinger_http.Common.{◌^◌, ◌<◌, ◌≡◌, List, [], ◌∷◌, ◌++◌, if◌then◌else◌, Bytes, arith}
use thinger_http.Boost.{Boost}
use thinger_http.Message.Header
use thinger_http.Message.Headers.{
  Headers, parse_content_length, is_header, connection_token, connection_tokens, process_connection,
  process_header,
}

parse_content_length-lt : (value : Bytes) → parse_content_length value < 2 ^ 64
unfolding parse_content_length
parse_content_length-lt [] = ground arith
parse_content_length-lt (c ∷ cs) = ground arith

module _ ⦃b : Boost⦄ where
  -- The fields that the tokens of `Connection` leave alone.
  record SameBesideConnection (h k : Headers) : Type 0 where
    headers : k.headers ≡ h.headers
    proxy_headers : k.proxy_headers ≡ h.proxy_headers
    stream : k.stream ≡ h.stream
    content_length : k.content_length ≡ h.content_length
    major : k.http_version_major ≡ h.http_version_major
    minor : k.http_version_minor ≡ h.http_version_minor

  connection_token-Same :
      (h : Headers) (str : Bytes) → SameBesideConnection h (connection_token h str)
  unfolding connection_token
  connection_token-Same h str = ground arith

  connection_tokens-Same :
      (strs : List Bytes) (h : Headers) → SameBesideConnection h (connection_tokens h strs)
  unfolding connection_tokens
  connection_tokens-Same [] h = ground arith
  connection_tokens-Same (str ∷ strs) h = ground (
    arith,
    connection_token-Same h (b.trim str),
    connection_tokens-Same strs (connection_token h (b.trim str)),
  )

  process_connection-Same :
      (key value : Bytes) (h : Headers) → SameBesideConnection h (process_connection key value h)
  unfolding process_connection
  process_connection-Same key value h =
      ground (arith, connection_tokens-Same (b.split_commas value) h)

  -- A header is kept as it was read, behind those before it; only Content-Length, in any case,
  -- changes the length of the body, to the number at the head of its value, or 0 where there is
  -- none of 64 bits; the HTTP version stays.
  pub process_header-frame :
      (key value : Bytes) (h : Headers)
      → let k = process_header key value h in
        (k.headers ≡ h.headers ++ (key, value) ∷ [])
        × (k.content_length ≡ (
            if is_header key Header.accept
            then h.content_length
            else if is_header key Header.content_length
            then parse_content_length value
            else h.content_length))
        × (k.http_version_major ≡ h.http_version_major)
        × (k.http_version_minor ≡ h.http_version_minor)
  unfolding process_header
  process_header-frame key value h = ground (arith, process_connection-Same key value h)

  -- Where the body length is below 2^64, it still is after any header, whatever a Content-Length
  -- holds.
  pub process_header-content_length_lt :
      (key value : Bytes) (h : Headers)
      → h.content_length < 2 ^ 64
      → (process_header key value h).content_length < 2 ^ 64
  process_header-content_length_lt key value h lt =
      ground (arith, process_header-frame key value h, parse_content_length-lt value)
