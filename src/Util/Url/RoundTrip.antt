-- ===== src/Util/Url/RoundTrip.antt =====
-- Decoding undoes the encoders.
use thinger_http.Common.{◌≡◌, refl, ◌∙◌, ap, some, [], ◌∷◌, Bytes, IsBytes}
use thinger_http.Util.Url.{url_encode, uri_path_encode, push_front, url_decode?}
use thinger_http.Util.Url.Bytewise.{url_decode?-url_encode_byte, url_decode?-uri_path_encode_byte}

-- For a value of bytes (numbers below 256), decoding the encoded value gives the value back.
pub url_decode?-url_encode :
    (value : Bytes) → IsBytes value → url_decode? (url_encode value) ≡ some value
unfolding url_encode
url_decode?-url_encode [] h = unfold url_decode? in refl
url_decode?-url_encode (c ∷ value) (b, h) =
    url_decode?-url_encode_byte c (url_encode value) b
    ∙ ap (push_front c) (url_decode?-url_encode value h)

-- For a path of bytes (numbers below 256), decoding the encoded path gives the path back.
pub url_decode?-uri_path_encode :
    (value : Bytes) → IsBytes value → url_decode? (uri_path_encode value) ≡ some value
unfolding uri_path_encode
url_decode?-uri_path_encode [] h = unfold url_decode? in refl
url_decode?-uri_path_encode (c ∷ value) (b, h) =
    url_decode?-uri_path_encode_byte c (uri_path_encode value) b
    ∙ ap (push_front c) (url_decode?-uri_path_encode value h)
