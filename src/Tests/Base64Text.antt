-- ===== src/Tests/Base64Text.antt =====
-- base64 at concrete inputs.
use thinger_http.Common.{◌≡◌, refl, codes, arith}
use thinger_http.Util.Base64.{encode_table, decode_table, decode_step, encode, decode}
use thinger_http.Util.Base64.RoundTrip.{decode-encode}

decode-encode_example : decode (encode (codes "Many h")) ≡ codes "Many h"
decode-encode_example = decode-encode (codes "Many h") (ground arith)

written : encode (codes "Many") ≡ codes "TWFueQ=="
unfolding encode encode_table
written = refl

read : decode (codes "TWF\nueQ==x") ≡ codes "Many"
unfolding decode decode_table decode_step
read = refl
